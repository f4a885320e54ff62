-- ===== src/Printf/Total.antt =====
-- Formats and words with which `printf` of lib.c comes to its end.
use linux_os.Base.{
  ℕ, zero, suc, ◌-◌, ◌^◌, ◌%◌, ◌<◌, ◌≤◌, ◌≡◌, refl, Bool, true, false, inl, inr, some, List, [],
  ◌∷◌, ◌++◌, arith, ◌==◌, if◌then◌else◌, length, ◌>>=◌, Bool-cases, Option-cases, drop, replicate,
  ltb,
}
use linux_os.Console.{Console, putc, puts}
use linux_os.Strings.{strlen, itoa}
use linux_os.Strings.Numerals.{itoa-read_numeral}
use linux_os.Printf.{
  Place, text, conversion, takes_word, pad_hex, signed_text, converted, convert, printf_loop,
  printf,
}

-- A test of a format from a place on, with the number of the words that are left: it ends in a zero,
-- not behind a `%`, and its conversions find their words.
abbrev pub is_fine : Place → List ℕ → ℕ → Bool
is_fine place [] n = false
is_fine text (c ∷ f) n =
    if c == 0 then true else if c == b'%' then is_fine (conversion false) f n else is_fine text f n
is_fine (conversion alternate) (c ∷ f) n =
    if c == b'#'
    then is_fine (conversion true) f n
    else if takes_word c
    then (if n == 0 then false else is_fine text f (n - 1))
    else is_fine text f n

abbrev pub AllWords : List ℕ → Type 0
AllWords [] = Unit
AllWords (w ∷ ws) = (w < 2 ^ 32) × AllWords ws

abbrev pub Ended : List ℕ → Type 0
Ended s = (n : ℕ) × (strlen s ≡ some n)

Ended-cons : (c : ℕ) (s : List ℕ) → Ended s → Ended (c ∷ s)
unfolding strlen
Ended-cons zero s h = (0, refl)
Ended-cons (suc c) s h = (suc h.0, ground (arith, h.1))

Ended-append : (s t : List ℕ) → Ended t → Ended (s ++ t)
Ended-append [] t h = h
Ended-append (c ∷ s) t h = Ended-cons c (s ++ t) (Ended-append s t h)

Ended-drop : (k : ℕ) (s : List ℕ) → k ≤ length s → Ended (drop k (s ++ 0 ∷ []))
unfolding strlen
Ended-drop zero s h = Ended-append s (0 ∷ []) (0, refl)
Ended-drop (suc k) [] h = absurd (omega arith)
Ended-drop (suc k) (c ∷ s) h = Ended-drop k s (omega arith)

Ended-tail : (c : ℕ) (s : List ℕ) → Ended (suc c ∷ s) → Ended s
unfolding strlen
Ended-tail c s (n, e) = elim (Option-cases (strlen s)) [
  | inl unended ↦ ground (arith, unended)
  | inr ended ↦ ended
]

puts-total :
    (t : List ℕ) (s : Console) → Ended t → (n : ℕ) × (s' : Console) × (puts t s ≡ some (n, s'))
unfolding puts strlen
puts-total [] s h = cc
puts-total (zero ∷ t) s h = (0, s, refl)
puts-total (suc c ∷ t) s h =
    let (n, s', run) = puts-total t (putc (suc c) s) (Ended-tail c t h) in
    (suc n, s', ground (arith, run))

itoa-Ended :
    (value radix : ℕ)
    → 2 ≤ radix
    → radix ≤ 36
    → value < 2 ^ 32
    → (t : List ℕ) × (itoa value radix ≡ some (t ++ 0 ∷ []))
itoa-Ended value radix low high h =
    let (t, run, reads, digits, short) = itoa-read_numeral value radix low high h in (t, run)

strlen-append_zero : (t : List ℕ) → (n : ℕ) × (strlen (t ++ 0 ∷ []) ≡ some n) × (n ≤ length t)
unfolding strlen
strlen-append_zero [] = (0, refl, omega arith)
strlen-append_zero (zero ∷ t) = (0, refl, omega arith)
strlen-append_zero (suc c ∷ t) =
    let (n, e, short) = strlen-append_zero t in (suc n, ground (arith, e), omega arith)

pad_hex-Ended : (t : List ℕ) → (p : List ℕ) × (pad_hex (t ++ 0 ∷ []) ≡ some p) × Ended p
unfolding pad_hex
pad_hex-Ended t =
    let (n, e, short) = strlen-append_zero t in
    (
      replicate (8 - n) b'0' ++ drop (n - 8) (t ++ 0 ∷ []),
      rw e refl,
      Ended-append (replicate (8 - n) b'0') (drop (n - 8) (t ++ 0 ∷ []))
          (Ended-drop (n - 8) t (omega arith)),
    )

itoa_text-Ended : (t : List ℕ) → Ended (t ++ 0 ∷ [])
unfolding strlen
itoa_text-Ended t = Ended-append t (0 ∷ []) (0, refl)

signed_text-Ended :
    (value : ℕ) → value < 2 ^ 32 → (p : List ℕ) × (signed_text value ≡ some p) × Ended p
unfolding signed_text
signed_text-Ended value h = elim (Bool-cases (ltb value (2 ^ 31))) [
  | inl small ↦
      (let (t, run) = itoa-Ended value 10 (omega arith) (omega arith) h in
        (t ++ 0 ∷ [], rw small run, itoa_text-Ended t))
  | inr large ↦
      (let nonzero : 2 ^ 32 - value < 2 ^ 32 = ground (arith, large) in
        let (t, run) = itoa-Ended (2 ^ 32 - value) 10 (omega arith) (omega arith) nonzero in
        (
          b'-' ∷ t ++ 0 ∷ [],
          rw large (rw run refl),
          Ended-cons b'-' (t ++ 0 ∷ []) (itoa_text-Ended t),
        ))
]

hex-Ended :
    (alternate : Bool) (word : ℕ)
    → word < 2 ^ 32
    → (p : List ℕ) × ((do digits ← itoa word 16; if alternate then pad_hex digits else some digits)
        ≡ some p)
      × Ended p
hex-Ended false word h =
    let (t, run) = itoa-Ended word 16 (omega arith) (omega arith) h in
    (t ++ 0 ∷ [], rw run refl, itoa_text-Ended t)
hex-Ended true word h =
    let (t, run) = itoa-Ended word 16 (omega arith) (omega arith) h in
    let (p, padded, ends) = pad_hex-Ended t in (p, rw run padded, ends)

module _ (memory : ℕ → List ℕ) (texts : (a : ℕ) → Ended (memory a)) where
  converted-Ended :
      (c : ℕ) (alternate : Bool) (word : ℕ)
      → word < 2 ^ 32
      → (p : List ℕ) × (converted memory c alternate word ≡ some p) × Ended p
  unfolding converted
  converted-Ended c alternate word h = elim (Bool-cases (c == b'x')) [
    | inl hex ↦ rw hex (hex-Ended alternate word h)
    | inr not_hex ↦ rw not_hex (elim (Bool-cases (c == b'u')) [
      | inl unsigned ↦ rw unsigned (
          let (t, run) = itoa-Ended word 10 (omega arith) (omega arith) h in
          (t ++ 0 ∷ [], run, itoa_text-Ended t))
      | inr not_unsigned ↦ rw not_unsigned (elim (Bool-cases (c == b'd')) [
        | inl signed ↦ rw signed (signed_text-Ended word h)
        | inr string ↦ rw string (memory word, refl, texts word)
      ])
    ])
  ]

  convert-word :
      (c : ℕ) (alternate : Bool) (word : ℕ) (esp : List ℕ) (s : Console)
      → word < 2 ^ 32
      → takes_word c ≡ true
      → (s' : Console) × (convert memory c alternate (word ∷ esp) s ≡ some (esp, s'))
  unfolding convert
  convert-word c alternate word esp s h takes =
      let not_percent : (c == b'%') ≡ false = ground (arith, takes) in
      rw (not_percent, takes)
        (elim (Bool-cases (c == b'c')) [
          | inl char ↦ rw char (putc (word % 256) s, refl)
          | inr other ↦ rw other (
              let (p, run, ends) = converted-Ended c alternate word h in
              let (n, s', printed) = puts-total p s ends in (s', rw run (rw printed refl)))
        ])

  convert-plain :
      (c : ℕ) (alternate : Bool) (esp : List ℕ) (s : Console)
      → takes_word c ≡ false
      → (s' : Console) × (convert memory c alternate esp s ≡ some (esp, s'))
  unfolding convert
  convert-plain c alternate esp s plain = elim (Bool-cases (c == b'%')) [
    | inl percent ↦ (putc b'%' s, rw percent refl)
    | inr other ↦ (s, rw (other, plain) refl)
  ]

  convert-next :
      (c : ℕ) (alternate : Bool) (f esp : List ℕ) (s : Console)
      → takes_word c ≡ true
      → (if length esp == 0 then false else is_fine text f (length esp - 1)) ≡ true
      → AllWords esp
      → (esp' : List ℕ) × (s' : Console) × (convert memory c alternate esp s ≡ some (esp', s'))
        × (is_fine text f (length esp') ≡ true)
        × AllWords esp'
  convert-next c alternate f [] s takes fine words = absurd (cc)
  convert-next c alternate f (word ∷ esp) s takes fine words =
      let (s', shown) = convert-word c alternate word esp s words.0 takes in
      (esp, s', shown, ground (arith, fine), words.1)

  -- A conversion leaves a format and words that are fine again.
  convert-total :
      (c : ℕ) (alternate : Bool) (f esp : List ℕ) (s : Console)
      → (if takes_word c
          then (if length esp == 0 then false else is_fine text f (length esp - 1))
          else is_fine text f (length esp))
        ≡ true
      → AllWords esp
      → (esp' : List ℕ) × (s' : Console) × (convert memory c alternate esp s ≡ some (esp', s'))
        × (is_fine text f (length esp') ≡ true)
        × AllWords esp'
  convert-total c alternate f esp s fine words = elim (Bool-cases (takes_word c)) [
    | inl takes ↦ convert-next c alternate f esp s takes (rw takes at fine) words
    | inr plain ↦
        (let (s', shown) = convert-plain c alternate esp s plain in
          (esp, s', shown, rw plain at fine, words))
  ]

  printf_loop-total :
      (place : Place) (format esp : List ℕ) (s : Console)
      → is_fine place format (length esp) ≡ true
      → AllWords esp
      → (n : ℕ) × (s' : Console) × (printf_loop memory place format esp s ≡ some (n, s'))
  unfolding printf_loop
  printf_loop-total text [] esp s fine words = absurd (cc)
  printf_loop-total (conversion alternate) [] esp s fine words = absurd (cc)
  printf_loop-total text (c ∷ f) esp s fine words = elim (Bool-cases (c == 0)) [
    | inl ends ↦ (0, s, rw ends refl)
    | inr goes_on ↦ elim (Bool-cases (c == b'%')) [
      | inl percent ↦
          (let rest : is_fine (conversion false) f (length esp) ≡ true =
              rw (goes_on, percent) at fine in
            let (n, s', run) = printf_loop-total (conversion false) f esp s rest words in
            (suc n, s', rw (goes_on, percent) (rw run refl)))
      | inr plain ↦
          (let rest : is_fine text f (length esp) ≡ true = rw (goes_on, plain) at fine in
            let (n, s', run) = printf_loop-total text f esp (putc c s) rest words in
            (suc n, s', rw (goes_on, plain) (rw run refl)))
    ]
  ]
  printf_loop-total (conversion alternate) (c ∷ f) esp s fine words =
      elim (Bool-cases (c == b'#')) [
        | inl flag ↦
            (let (n, s', run) =
                printf_loop-total (conversion true) f esp s (rw flag at fine) words in
              (suc n, s', rw flag (rw run refl)))
        | inr converts ↦
            (let (esp', s', shown, rest, left) =
                convert-total c alternate f esp s (rw converts at fine) words in
              let (n, s'', run) = printf_loop-total text f esp' s' rest left in
              (suc n, s'', rw (converts, shown) (rw run refl)))
      ]

  -- If every text in memory ends in a zero, all words have 32 bits, and the format ends in a zero and
  -- its conversions find their words, then `printf` returns without a fault.
  pub printf-total :
      (format esp : List ℕ) (s : Console)
      → is_fine text format (length esp) ≡ true
      → AllWords esp
      → (n : ℕ) × (s' : Console) × (printf memory format esp s ≡ some (n, s'))
  unfolding printf
  printf-total format esp s fine words = printf_loop-total text format esp s fine words
