-- ===== src/Strings/Numerals.antt =====
-- What the number text of `itoa` of lib.c reads as.
use linux_os.Base.{
  ℕ, zero, suc, ◌+◌, ◌-◌, ◌*◌, ◌/◌, ◌%◌, ◌^◌, ◌≤◌, ◌<◌, ◌≡◌, refl, ap, ◌∙◌, inl, inr, Bool, true,
  false, ◌&&◌, Option, some, none, List, [], ◌∷◌, ◌++◌, arith, ltb, leb, ◌||◌, ◌⊎◌, ◌==◌,
  if◌then◌else◌, Bool-cases, length, get_elem?, all_below, all_below_sound,
}
use native.Mathlib.Nat.{mod-lt, div-add-mod, div-lt_iff_lt-mul, mul-le-mul_left}
use linux_os.Strings.{lookup, itoa_loop, itoa}
use linux_os.Strings.Reverse.{IsText, reverse, length-reverse, strrev-text}

-- The value of a digit, `0` to `9` and then `A` to `Z`.
abbrev pub digit_value : ℕ → ℕ
digit_value c = if ltb c 58 then c - 48 else c - 55

-- The characters `0` to `9` and `A` to `Z`, those of the first `radix` values.
abbrev pub IsDigit : ℕ → ℕ → Type 0
IsDigit radix c =
    ((48 ≤ c) × (c < 58) × (c < 48 + radix)) ⊎ ((65 ≤ c) × (c < 91) × (c < 55 + radix))

-- Reading a numeral from its highest digit on, after digits with the value `acc`.
abbrev pub read_numeral : ℕ → ℕ → List ℕ → ℕ
read_numeral radix acc [] = acc
read_numeral radix acc (c ∷ s) = read_numeral radix (radix * acc + digit_value c) s

abbrev pub AllDigits : ℕ → List ℕ → Type 0
AllDigits radix [] = Unit
AllDigits radix (c ∷ s) = IsDigit radix c × AllDigits radix s

-- The value of digits that stand lowest first.
abbrev low_value : ℕ → List ℕ → ℕ
low_value radix [] = 0
low_value radix (c ∷ s) = radix * low_value radix s + digit_value c

read_numeral-append :
    (radix acc c : ℕ) (s : List ℕ)
    → read_numeral radix acc (s ++ c ∷ []) ≡ radix * read_numeral radix acc s + digit_value c
read_numeral-append radix acc c [] = refl
read_numeral-append radix acc c (d ∷ s) =
    read_numeral-append radix (radix * acc + digit_value d) c s

read_numeral-reverse :
    (radix : ℕ) (s : List ℕ) → read_numeral radix 0 (reverse s) ≡ low_value radix s
read_numeral-reverse radix [] = refl
read_numeral-reverse radix (c ∷ s) =
    read_numeral-append radix 0 c (reverse s)
    ∙ ap (λ v. radix * v + digit_value c) (read_numeral-reverse radix s)

is_digit : Option ℕ → ℕ → Bool
is_digit none d = false
is_digit (some c) d = digit_value c == d && ((leb 48 c && ltb c 58) || (leb 65 c && ltb c 91))

all_digits : all_below 36 (λ d. is_digit (get_elem? lookup d) d) ≡ true
unfolding all_below is_digit
all_digits = refl

lookup-some :
    (d : ℕ)
    → d < 36
    → (c : ℕ) × (get_elem? lookup d ≡ some c) × (digit_value c ≡ d) × IsDigit (d + 1) c
unfolding is_digit
lookup-some d h =
    go (get_elem? lookup d)
      (all_below_sound 36 (λ d. is_digit (get_elem? lookup d) d) d all_digits h) refl
  where
    go :
        (o : Option ℕ)
        → is_digit o d ≡ true
        → get_elem? lookup d ≡ o
        → (c : ℕ) × (get_elem? lookup d ≡ some c) × (digit_value c ≡ d) × IsDigit (d + 1) c
    go none t e = cc
    go (some c) t e = (c, e, ground arith, ground arith)

-- Digits of a value, lowest first.
record Digits (radix value : ℕ) (s : List ℕ) : Type 0 where
  text : IsText s
  digits : AllDigits radix s
  reads : low_value radix s ≡ value

div-smaller : (value radix fuel : ℕ) → 2 ≤ radix → value < 2 ^ suc fuel → value / radix < 2 ^ fuel
div-smaller value radix fuel h below =
    (div-lt_iff_lt-mul (omega arith)).1 (omega (arith, mul-le-mul_left (2 ^ fuel) h))

itoa_loop_done :
    (fuel value radix : ℕ) → value == 0 ≡ true → itoa_loop (suc fuel) value radix ≡ some []
unfolding itoa_loop
itoa_loop_done fuel value radix h = rw (h, itoa_loop) refl

itoa_loop_more :
    (fuel value radix : ℕ) {c : ℕ} {more : List ℕ}
    → value == 0 ≡ false
    → get_elem? lookup (value % radix) ≡ some c
    → itoa_loop fuel (value / radix) radix ≡ some more
    → itoa_loop (suc fuel) value radix ≡ some (c ∷ more)
unfolding itoa_loop
itoa_loop_more fuel value radix h digit rest = rw (h, itoa_loop) (rw digit (rw rest refl))

itoa_loop-Digits :
    (fuel value radix : ℕ)
    → 2 ≤ radix
    → radix ≤ 36
    → value < 2 ^ fuel
    → (s : List ℕ) × (itoa_loop (suc fuel) value radix ≡ some s)
      × Digits radix value s
      × (length s ≤ fuel)
itoa_loop-Digits zero value radix low high below = (
  [],
  itoa_loop_done 0 value radix (ground arith),
  record { text = tt; digits = tt; reads = omega arith },
  omega arith,
)
itoa_loop-Digits (suc fuel) value radix low high below = elim (Bool-cases (value == 0)) [
  | inl z ↦ (
    [],
    itoa_loop_done (suc fuel) value radix z,
    record { text = tt; digits = tt; reads = ground arith },
    omega arith,
  )
  | inr nz ↦
      let remainder : value % radix < radix = mod-lt value (omega arith) in
      let (c, found, is_value, digit) = lookup-some (value % radix) (omega arith) in
      let (s, run, d, short) =
        itoa_loop-Digits fuel (value / radix) radix low high
          (div-smaller value radix fuel low below) in
      (
        c ∷ s,
        itoa_loop_more (suc fuel) value radix nz found run,
        record {
          text = (ground arith, d.text);
          digits = (ground arith, d.digits);
          reads = omega (arith, ap (λ v. radix * v) d.reads, div-add-mod value radix);
        },
        omega arith,
      )
]

AllDigits-append :
    (radix c : ℕ) (s : List ℕ) → AllDigits radix s → IsDigit radix c → AllDigits radix (s ++ c ∷ [])
AllDigits-append radix c [] h d = (d, tt)
AllDigits-append radix c (x ∷ s) h d = (h.0, AllDigits-append radix c s h.1 d)

AllDigits-reverse : (radix : ℕ) (s : List ℕ) → AllDigits radix s → AllDigits radix (reverse s)
AllDigits-reverse radix [] h = tt
AllDigits-reverse radix (c ∷ s) h =
    AllDigits-append radix c (reverse s) (AllDigits-reverse radix s h.1) h.0

base-ne-zero : (radix : ℕ) → 2 ≤ radix → radix == 0 ≡ false
base-ne-zero radix low = ground arith

-- itoa returns for every 32-bit value and every base from 2 to 36. The memory then holds a text and a
-- zero; the text has 32 digits at most, each of them one of the first
-- characters of 0 to 9 and A to Z, as many as the base, and reads as the value.
pub itoa-read_numeral :
    (value radix : ℕ)
    → 2 ≤ radix
    → radix ≤ 36
    → value < 2 ^ 32
    → (s : List ℕ) × (itoa value radix ≡ some (s ++ 0 ∷ []))
      × (read_numeral radix 0 s ≡ value)
      × AllDigits radix s
      × (length s ≤ 32)
unfolding itoa
itoa-read_numeral value radix low high below = elim (Bool-cases (value == 0)) [
  | inl z ↦ (b'0' ∷ [], ground arith, ground arith, (ground arith, tt), omega arith)
  | inr nz ↦
      let (s, run, d, short) = itoa_loop-Digits 32 value radix low high below in
      (
        reverse s,
        rw (nz, base-ne-zero radix low, run) (strrev-text s [] d.text),
        read_numeral-reverse radix s ∙ d.reads,
        AllDigits-reverse radix s d.digits,
        omega (arith, length-reverse s),
      )
]
