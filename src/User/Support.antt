-- ===== src/User/Support.antt =====
-- LinuxOS/syscalls/ece391support.c: the string functions that the user programs are linked with.
use linux_os.Base.{
  ℕ, zero, suc, ◌+◌, ◌-◌, ◌/◌, ◌%◌, true, false, Option, none, some, List, [], ◌∷◌, ◌++◌, ◌==◌,
  ◌||◌, if◌then◌else◌, ◌>>=◌, ltb, get_elem?, get_or, set, codes,
}
use linux_os.Base.Int.{ℤ, pos, ◌-ℤ◌, signed32}
use linux_os.User.{Syscalls}

abbrev pub c_str : List ℕ → List ℕ
c_str s = s ++ 0 ∷ []

unfoldable pub ece391_strlen : List ℕ → Option ℕ
ece391_strlen [] = none
ece391_strlen (c ∷ s) = if c == 0 then some 0 else (do n ← ece391_strlen s; some (suc n))

-- The result is the memory at `dst` afterwards. Where the two overlap and `dst` is the lower one, no
-- byte is read after it is written.
unfoldable pub ece391_strcpy : List ℕ → List ℕ → Option (List ℕ)
ece391_strcpy dst [] = none
ece391_strcpy [] (c ∷ src) = none
ece391_strcpy (d ∷ dst) (c ∷ src) =
    if c == 0 then some (0 ∷ dst) else (do r ← ece391_strcpy dst src; some (c ∷ r))

unfoldable pub ece391_strcmp : List ℕ → List ℕ → Option ℤ
ece391_strcmp [] s2 = none
ece391_strcmp (a ∷ s1) [] = none
ece391_strcmp (a ∷ s1) (b ∷ s2) =
    if a == b then (if a == 0 then some (pos 0) else ece391_strcmp s1 s2) else some (pos a -ℤ pos b)

unfoldable pub ece391_strncmp : List ℕ → List ℕ → ℕ → Option ℤ
ece391_strncmp s1 s2 zero = some (pos 0)
ece391_strncmp [] s2 (suc n) = none
ece391_strncmp (a ∷ s1) [] (suc n) = none
ece391_strncmp (a ∷ s1) (b ∷ s2) (suc n) =
    if a == b
    then (if (a == 0) || (n == 0) then some (pos 0) else ece391_strncmp s1 s2 n)
    else some (pos a -ℤ pos b)

-- while (beg < end): `tmp` has the byte at `end`. With `rounds` of them left; each brings the ends two
-- closer, so the length is enough.
unfoldable pub ece391_swap_ends : ℕ → ℕ → ℕ → List ℕ → List ℕ
ece391_swap_ends zero beg end s = s
ece391_swap_ends (suc rounds) beg end s = elim (ltb beg end) [
  | true ↦
      let tmp = get_or s end 0 in
      ece391_swap_ends rounds (beg + 1) (end - 1) (set (set s end (get_or s beg 0)) beg tmp)
  | false ↦ s
]

-- `end` is the length less 1, and the early return is for a length of 0 or 1.
unfoldable pub ece391_strrev : List ℕ → Option (List ℕ)
unfolding ece391_strlen ece391_swap_ends
ece391_strrev s = do
  len ← ece391_strlen s
  if ltb 1 len then some (ece391_swap_ends len 0 (len - 1) s) else some s

-- The static array `lookup`, and the zero at its end.
abbrev pub digits : List ℕ
digits = codes "0123456789ABCDEFGHIJKLMNOPQRSTUVWXYZ" ++ 0 ∷ []

-- while (newval > 0), with the bytes stored so far and the rounds left. A remainder past the array is
-- a fault.
unfoldable pub ece391_put_digits : ℕ → ℕ → ℕ → List ℕ → Option (List ℕ)
ece391_put_digits zero newval radix newbuf = none
ece391_put_digits (suc rounds) newval radix newbuf = elim (ltb 0 newval) [
  | false ↦ some newbuf
  | true ↦ (do
    digit ← get_elem? digits (newval % radix)
    ece391_put_digits rounds (newval / radix) radix (newbuf ++ digit ∷ []))
]

-- A `uint32_t` has at most 32 digits in a base of at least 2. Division by 0 is a fault, and the value
-- 0 is tested before it.
unfoldable pub ece391_itoa : ℕ → ℕ → Option (List ℕ)
unfolding ece391_put_digits ece391_strrev
ece391_itoa value radix =
    if value == 0
    then some (b'0' ∷ 0 ∷ [])
    else if radix == 0
    then none
    else (do newbuf ← ece391_put_digits 33 value radix []; ece391_strrev (newbuf ++ 0 ∷ []))

module _ {ℓ} {S : Type ℓ} (sys : Syscalls S) where
  unfoldable pub ece391_fdputs : ℤ → List ℕ → S → Option S
  ece391_fdputs fd s state = do
    len ← ece391_strlen s
    (r, state) ← sys.ece391_write s fd (signed32 len) state
    some state
