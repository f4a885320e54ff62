-- ===== src/User/Agree.antt =====
-- The string functions of LinuxOS/syscalls/ece391support.c against those of the kernel's lib.c.
use linux_os.Base.{
  ℕ, zero, suc, ◌+◌, ◌/◌, ◌%◌, ◌≡◌, refl, ap, ◌∙◌, inl, inr, some, List, [], ◌∷◌, ◌++◌, arith, ◌==◌,
  ltb, Bool-cases, Option-cases, if◌then◌else◌, ◌-◌, ◌>>=◌, get_elem?, get_or, set,
}
use mathlib.Core.List.{append-nil, append_assoc}
use linux_os.Strings.{strlen, strrev, strrev_loop, itoa, itoa_loop, lookup}
use linux_os.User.Support.{
  ece391_strlen, ece391_swap_ends, ece391_strrev, ece391_put_digits, ece391_itoa,
}

pub ece391_strlen-strlen : (s : List ℕ) → ece391_strlen s ≡ strlen s
unfolding ece391_strlen strlen
ece391_strlen-strlen [] = refl
ece391_strlen-strlen (c ∷ s) = ground (arith, ece391_strlen-strlen s)

ece391_swap_ends-strrev_loop :
    (rounds beg end : ℕ) (s : List ℕ)
    → ece391_swap_ends rounds beg end s ≡ strrev_loop rounds beg end s
unfolding ece391_swap_ends strrev_loop
ece391_swap_ends-strrev_loop zero beg end s = refl
ece391_swap_ends-strrev_loop (suc rounds) beg end s = elim (Bool-cases (ltb beg end)) [
  | inl more ↦
      let next : beg + 1 ≡ suc beg = omega arith in
      let swapped = set (set s end (get_or s beg 0)) beg (get_or s end 0) in
      rw (more, ece391_swap_ends, strrev_loop)
        (ap (λ (b : ℕ). ece391_swap_ends rounds b (end - 1) swapped) next
          ∙ ece391_swap_ends-strrev_loop rounds (suc beg) (end - 1) swapped)
  | inr met ↦ rw (met, ece391_swap_ends, strrev_loop) refl
]

short_strrev :
    (n : ℕ) (s : List ℕ)
    → (if ltb 1 n then some (ece391_swap_ends n 0 (n - 1) s) else some s)
      ≡ some (if n == 0 then s else strrev_loop n 0 (n - 1) s)
unfolding strrev_loop
short_strrev zero s = refl
short_strrev (suc zero) s = refl
short_strrev (suc (suc n)) s =
    ground (arith, ece391_swap_ends-strrev_loop (suc (suc n)) 0 (suc (suc n) - 1) s)

pub ece391_strrev-strrev : (s : List ℕ) → ece391_strrev s ≡ strrev s
unfolding ece391_strrev strrev
ece391_strrev-strrev s = elim (Option-cases (strlen s)) [
  | inl unended ↦ rw (ece391_strlen-strlen s) (rw unended refl)
  | inr (n, ended) ↦ rw (ece391_strlen-strlen s) (rw ended (short_strrev n s))
]

-- The loop that stores digits behind those it has, against the one that returns them.
ece391_put_digits-itoa_loop :
    (rounds newval radix : ℕ) (newbuf : List ℕ)
    → ece391_put_digits rounds newval radix newbuf
      ≡ (itoa_loop rounds newval radix >>= λ more. some (newbuf ++ more))
unfolding ece391_put_digits itoa_loop
ece391_put_digits-itoa_loop zero newval radix newbuf = refl
ece391_put_digits-itoa_loop (suc rounds) newval radix newbuf = elim (Bool-cases (newval == 0)) [
  | inl done ↦ ground (arith, done, append-nil newbuf)
  | inr more ↦ elim (Option-cases (get_elem? lookup (newval % radix))) [
    | inl outside ↦ ground (arith, more, outside)
    | inr (digit, found) ↦
        let rest =
          ece391_put_digits-itoa_loop rounds (newval / radix) radix (newbuf ++ digit ∷ []) in
        elim (Option-cases (itoa_loop rounds (newval / radix) radix)) [
          | inl fault ↦ ground (arith, more, found, fault, rest)
          | inr (s, run) ↦
              ground (arith, more, found, run, rest, append_assoc newbuf (digit ∷ []) s)
        ]
  ]
]

-- The two copies of itoa give the same memory, or both fault.
pub ece391_itoa-itoa : (value radix : ℕ) → ece391_itoa value radix ≡ itoa value radix
unfolding ece391_itoa itoa
ece391_itoa-itoa value radix =
    let loops = ece391_put_digits-itoa_loop 33 value radix [] in
    elim (Option-cases (itoa_loop 33 value radix)) [
      | inl fault ↦ ground (arith, loops, fault)
      | inr (newbuf, run) ↦ ground (arith, loops, run, ece391_strrev-strrev (newbuf ++ 0 ∷ []))
    ]
