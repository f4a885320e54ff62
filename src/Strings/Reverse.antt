-- ===== src/Strings/Reverse.antt =====
-- What `strrev` of lib.c does to a C string: the bytes before the zero are turned around.
use linux_os.Base.{
  ℕ, zero, suc, ◌+◌, ◌-◌, ◌≤◌, ◌<◌, ◌≡◌, refl, sym, ◌∙◌, Bool, true, false, true, false, ◌&&◌, some,
  List, [], ◌∷◌, ◌++◌, arith, ltb, leb, ◌==◌, if◌then◌else◌, Bool-cases, length, get_or, set,
  length-append, length-set, inl, inr,
}
use linux_os.Strings.{strlen, strrev_loop, strrev}

-- A text without a zero.
abbrev pub IsText : List ℕ → Type 0
IsText [] = Unit
IsText (c ∷ s) = (0 < c) × IsText s

-- A test of a given text.
abbrev pub is_text : List ℕ → Bool
is_text [] = true
is_text (c ∷ s) = ltb 0 c && is_text s

pub is_text-IsText : (t : List ℕ) → is_text t ≡ true → IsText t
is_text-IsText [] h = tt
is_text-IsText (c ∷ s) h = (ground arith, is_text-IsText s (ground arith))

abbrev pub reverse : List ℕ → List ℕ
reverse [] = []
reverse (c ∷ s) = reverse s ++ c ∷ []

get_or-set :
    (s : List ℕ) (i v j : ℕ)
    → i < length s
    → get_or (set s i v) j 0 ≡ (if i == j then v else get_or s j 0)
get_or-set [] i v j h = absurd (omega arith)
get_or-set (c ∷ s) zero v zero h = ground arith
get_or-set (c ∷ s) zero v (suc j) h = ground arith
get_or-set (c ∷ s) (suc i) v zero h = ground arith
get_or-set (c ∷ s) (suc i) v (suc j) h = ground (arith, get_or-set s i v j)

get_or-ext :
    (s t : List ℕ)
    → length s ≡ length t
    → ((i : ℕ) → i < length s → get_or s i 0 ≡ get_or t i 0)
    → s ≡ t
get_or-ext [] [] l h = refl
get_or-ext [] (b ∷ t) l h = absurd (omega arith)
get_or-ext (a ∷ s) [] l h = absurd (omega arith)
get_or-ext (a ∷ s) (b ∷ t) l h =
    let heads : a ≡ b = h 0 (omega arith) in
    let tails : s ≡ t = get_or-ext s t (omega arith) (λ i below. h (suc i) (omega arith)) in cc

abbrev swapped : ℕ → ℕ → List ℕ → List ℕ
swapped beg end s = set (set s end (get_or s beg 0)) beg (get_or s end 0)

get_or-swapped :
    (beg end : ℕ) (s : List ℕ) (i : ℕ)
    → beg < end
    → end < length s
    → get_or (swapped beg end s) i 0
      ≡ (if beg == i then get_or s end 0 else if end == i then get_or s beg 0 else get_or s i 0)
get_or-swapped beg end s i h below =
    get_or-set (set s end (get_or s beg 0)) beg (get_or s end 0) i
      (omega (arith, length-set s end (get_or s beg 0)))
    ∙ rw (get_or-set s end (get_or s beg 0) i below) refl

strrev_loop_more :
    (fuel beg end : ℕ) (s : List ℕ)
    → ltb beg end ≡ true
    → strrev_loop (suc fuel) beg end s ≡ strrev_loop fuel (suc beg) (end - 1) (swapped beg end s)
unfolding strrev_loop
strrev_loop_more fuel beg end s h = rw (h, strrev_loop) refl

strrev_loop_over :
    (fuel beg end : ℕ) (s : List ℕ) → ltb beg end ≡ false → strrev_loop (suc fuel) beg end s ≡ s
unfolding strrev_loop
strrev_loop_over fuel beg end s h = rw (h, strrev_loop) refl

-- At the place where the ends meet the turned byte is the byte.
turned_still :
    (beg end : ℕ) (s : List ℕ) (i : ℕ)
    → end ≤ beg
    → get_or s i 0 ≡ (if leb beg i && leb i end then get_or s (beg + end - i) 0 else get_or s i 0)
turned_still beg end s i h = elim (Bool-cases (leb beg i && leb i end)) [
  | inl here ↦ let same : beg + end - i ≡ i = ground arith in rw (here, same) refl
  | inr away ↦ rw away refl
]

-- Between the two ends the loop turns the bytes around, and it leaves the others.
get_or-strrev_loop :
    (fuel beg end : ℕ) (s : List ℕ) (i : ℕ)
    → end ≤ beg + fuel
    → end < length s
    → get_or (strrev_loop fuel beg end s) i 0
      ≡ (if leb beg i && leb i end then get_or s (beg + end - i) 0 else get_or s i 0)
unfolding strrev_loop
get_or-strrev_loop zero beg end s i h below = turned_still beg end s i (omega arith)
get_or-strrev_loop (suc fuel) beg end s i h below = elim (Bool-cases (ltb beg end)) [
  | inl more ↦ rw (strrev_loop_more fuel beg end s more) (
      ground (
        arith,
        get_or-swapped beg end s i,
        get_or-swapped beg end s (beg + end - i),
        get_or-strrev_loop fuel (suc beg) (end - 1) (swapped beg end s) i,
        length-set s end (get_or s beg 0),
        length-set (set s end (get_or s beg 0)) beg (get_or s end 0),
      ))
  | inr over ↦ rw (strrev_loop_over fuel beg end s over) (turned_still beg end s i (ground arith))
]

length-strrev_loop :
    (fuel beg end : ℕ) (s : List ℕ) → length (strrev_loop fuel beg end s) ≡ length s
unfolding strrev_loop
length-strrev_loop zero beg end s = refl
length-strrev_loop (suc fuel) beg end s = elim (Bool-cases (ltb beg end)) [
  | inl more ↦ rw (strrev_loop_more fuel beg end s more) (
      omega (
        arith,
        length-strrev_loop fuel (suc beg) (end - 1) (swapped beg end s),
        length-set s end (get_or s beg 0),
        length-set (set s end (get_or s beg 0)) beg (get_or s end 0),
      ))
  | inr over ↦ rw (strrev_loop_over fuel beg end s over) refl
]

pub strlen-text : (t rest : List ℕ) → IsText t → strlen (t ++ 0 ∷ rest) ≡ some (length t)
unfolding strlen
strlen-text [] rest h = refl
strlen-text (c ∷ t) rest h = ground (arith, strlen-text t rest h.1)

pub length-reverse : (t : List ℕ) → length (reverse t) ≡ length t
length-reverse [] = refl
length-reverse (c ∷ t) = omega (arith, length-append (reverse t) (c ∷ []), length-reverse t)

get_or-append :
    (s t : List ℕ) (i : ℕ)
    → get_or (s ++ t) i 0 ≡ (if ltb i (length s) then get_or s i 0 else get_or t (i - length s) 0)
get_or-append [] t i = ground arith
get_or-append (c ∷ s) t zero = ground arith
get_or-append (c ∷ s) t (suc i) = ground (arith, get_or-append s t i)

get_or-cons :
    (c : ℕ) (t : List ℕ) (j : ℕ) → get_or (c ∷ t) j 0 ≡ (if j == 0 then c else get_or t (j - 1) 0)
get_or-cons c t zero = ground arith
get_or-cons c t (suc j) = ground arith

get_or-reverse :
    (t : List ℕ) (i : ℕ) → i < length t → get_or (reverse t) i 0 ≡ get_or t (length t - 1 - i) 0
get_or-reverse [] i h = absurd (omega arith)
get_or-reverse (c ∷ t) i h = ground (
  arith,
  get_or-append (reverse t) (c ∷ []) i,
  get_or-cons c [] (i - length t),
  get_or-cons c t (length t - i),
  length-reverse t,
  get_or-reverse t i,
)

get_or-turned :
    (t rest : List ℕ) (last i : ℕ)
    → length t ≡ suc last
    → get_or (reverse t ++ 0 ∷ rest) i 0 ≡ (
        if leb 0 i && leb i last
        then get_or (t ++ 0 ∷ rest) (0 + last - i) 0
        else get_or (t ++ 0 ∷ rest) i 0)
get_or-turned t rest last i h = ground (
  arith,
  length-reverse t,
  get_or-append (reverse t) (0 ∷ rest) i,
  get_or-append t (0 ∷ rest) i,
  get_or-append t (0 ∷ rest) (last - i),
  get_or-reverse t i,
)

-- strrev turns around the bytes before the first zero of the memory, and leaves the zero and all
-- bytes behind it.
pub strrev-text :
    (t rest : List ℕ) → IsText t → strrev (t ++ 0 ∷ rest) ≡ some (reverse t ++ 0 ∷ rest)
unfolding strrev
strrev-text [] rest h = refl
strrev-text (c ∷ t) rest h = rw (strlen-text (c ∷ t) rest h) (ground (arith, turned))
  where
    memory : List ℕ
    memory = c ∷ t ++ 0 ∷ rest

    same_length :
        length (strrev_loop (suc (length t)) 0 (length t) memory)
        ≡ length (reverse (c ∷ t) ++ 0 ∷ rest)
    same_length = omega (
      arith,
      length-strrev_loop (suc (length t)) 0 (length t) memory,
      length-append (c ∷ t) (0 ∷ rest),
      length-append (reverse (c ∷ t)) (0 ∷ rest),
      length-reverse (c ∷ t),
    )

    turned : strrev_loop (suc (length t)) 0 (length t) memory ≡ reverse (c ∷ t) ++ 0 ∷ rest
    turned = get_or-ext _ _ same_length (λ i below.
        get_or-strrev_loop (suc (length t)) 0 (length t) memory i (omega arith)
          (omega (arith, length-append t (0 ∷ rest)))
        ∙ sym (get_or-turned (c ∷ t) rest (length t) i refl))
