-- ===== src/Strings.antt =====
-- The string functions of LinuxOS/student-distrib/lib.c. A pointer to bytes is the list of the bytes
-- from there to the end of the memory that holds it; reading or writing past the end is a fault.
pub mod Tests
pub mod Compare
pub mod Reverse
pub mod Numerals
use linux_os.Base.{
  ℕ, zero, suc, ◌-◌, ◌/◌, ◌%◌, Bool, ◌||◌, not, Option, none, some, List, [], ◌∷◌, ◌++◌, ◌==◌, ltb,
  if◌then◌else◌, ◌>>=◌, get_elem?, get_or, set, codes,
}
use linux_os.Base.Int.{ℤ, pos, ◌-ℤ◌, signed8}

unfoldable pub strlen : List ℕ → Option ℕ
strlen [] = none
strlen (c ∷ s) = if c == 0 then some 0 else (do n ← strlen s; some (suc n))

-- The rounds left are the last argument; `s1` and `s2` are what follows the index `i`.
unfoldable pub strncmp : List ℕ → List ℕ → ℕ → Option ℤ
strncmp s1 s2 zero = some (pos 0)
strncmp [] s2 (suc n) = none
strncmp (a ∷ s1) [] (suc n) = none
strncmp (a ∷ s1) (b ∷ s2) (suc n) =
    if not (a == b) || (a == 0) then some (signed8 a -ℤ signed8 b) else strncmp s1 s2 n

-- The result is the memory at `dest` afterwards.
unfoldable pub strcpy : List ℕ → List ℕ → Option (List ℕ)
strcpy [] src = none
strcpy (d ∷ dest) [] = none
strcpy (d ∷ dest) (c ∷ src) =
    if c == 0 then some (0 ∷ dest) else (do r ← strcpy dest src; some (c ∷ r))

-- The second loop of `strncpy`.
unfoldable pub pad_zeros : List ℕ → ℕ → Option (List ℕ)
pad_zeros dest zero = some dest
pad_zeros [] (suc n) = none
pad_zeros (d ∷ dest) (suc n) = do r ← pad_zeros dest n; some (0 ∷ r)

-- `src[i]` is read before `i < n` is tested.
unfoldable pub strncpy : List ℕ → List ℕ → ℕ → Option (List ℕ)
unfolding pad_zeros
strncpy dest [] n = none
strncpy dest (c ∷ src) zero = some dest
strncpy [] (c ∷ src) (suc n) = none
strncpy (d ∷ dest) (c ∷ src) (suc n) =
    if c == 0 then pad_zeros (d ∷ dest) (suc n) else (do r ← strncpy dest src n; some (c ∷ r))

-- The loop of `strrev`; each round brings the ends two closer, so `end` rounds are enough.
unfoldable pub strrev_loop : ℕ → ℕ → ℕ → List ℕ → List ℕ
strrev_loop zero beg end s = s
strrev_loop (suc fuel) beg end s =
    let swapped = set (set s end (get_or s beg 0)) beg (get_or s end 0) in
    elim (ltb beg end) [ Bool.true ↦ strrev_loop fuel (suc beg) (end - 1) swapped | Bool.false ↦ s ]

-- With an empty string `end` is -1 and no round is made.
unfoldable pub strrev : List ℕ → Option (List ℕ)
unfolding strlen strrev_loop
strrev s = do len ← strlen s; some (if len == 0 then s else strrev_loop len 0 (len - 1) s)

-- The static array of `itoa`, and the zero at its end.
abbrev pub lookup : List ℕ
lookup = codes "0123456789ABCDEFGHIJKLMNOPQRSTUVWXYZ" ++ 0 ∷ []

-- The digit loop of `itoa`, lowest digit first. A remainder past the array is a fault.
unfoldable pub itoa_loop : ℕ → ℕ → ℕ → Option (List ℕ)
itoa_loop zero newval radix = none
itoa_loop (suc fuel) newval radix = elim (newval == 0) [
  | Bool.true ↦ some []
  | Bool.false ↦ (do
    digit ← get_elem? lookup (newval % radix)
    more ← itoa_loop fuel (newval / radix) radix
    some (digit ∷ more))
]

-- A `uint32_t` has at most 32 digits in a base of at least 2. Division by 0 is a fault,
-- and the value 0 is tested before it.
unfoldable pub itoa : ℕ → ℕ → Option (List ℕ)
unfolding itoa_loop strrev
itoa value radix =
    if value == 0
    then some (b'0' ∷ 0 ∷ [])
    else if radix == 0
    then none
    else (do newbuf ← itoa_loop 33 value radix; strrev (newbuf ++ 0 ∷ []))
