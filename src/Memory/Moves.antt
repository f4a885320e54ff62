-- ===== src/Memory/Moves.antt =====
-- What memmove of lib.c stores, also where the two areas overlap.
use linux_os.Base.{
  ℕ, zero, suc, ◌+◌, ◌%◌, ◌^◌, ◌≤◌, ◌<◌, ◌≡◌, ◌↔◌, ◌⊎◌, inl, inr, refl, ap, ◌∙◌, true, arith, leb,
  leb→le, Bool-cases, update,
}
use linux_os.Memory.{ahead, behind, rep_movsb, memmove}
use linux_os.Memory.Copies.{copied, copied-more, copied-at, one_byte}

upwards-copied :
    (n dest src : ℕ) (m : ℕ → ℕ) (a : ℕ)
    → dest ≤ src
    → dest + n ≤ 2 ^ 32
    → src + n ≤ 2 ^ 32
    → rep_movsb (ahead 1) n (dest % 2 ^ 32) (src % 2 ^ 32) m a ≡ copied dest src n m a
unfolding rep_movsb
upwards-copied zero dest src m a low h h' = ground arith
upwards-copied (suc n) dest src m a low h h' =
    let d : dest % 2 ^ 32 ≡ dest = omega arith in
    let s : src % 2 ^ 32 ≡ src = omega arith in
    ap (λ (e : ℕ). rep_movsb (ahead 1) (suc n) e (src % 2 ^ 32) m a) d
    ∙ ap (λ (e : ℕ). rep_movsb (ahead 1) (suc n) dest e m a) s
    ∙ upwards-copied n (dest + 1) (src + 1) (update m dest (m src)) a (omega arith) (omega arith)
        (omega arith)
    ∙ copied-more dest src 1 n m (update m dest (m src)) a (ground arith) (one_byte dest src m)
    ∙ ap (λ (k : ℕ). copied dest src k m a) (omega arith)

-- Downwards from the last byte, to higher addresses.
downwards-copied :
    (n dest src edi esi : ℕ) (m : ℕ → ℕ) (a : ℕ)
    → src < dest
    → dest + n ≤ 2 ^ 32
    → ((n ≡ 0) ⊎ ((edi + 1 ≡ dest + n) × (esi + 1 ≡ src + n)))
    → rep_movsb behind n edi esi m a ≡ copied dest src n m a
unfolding rep_movsb
downwards-copied zero dest src edi esi m a above h last = ground arith
downwards-copied (suc n) dest src edi esi m a above h last =
    let at : edi ≡ dest + n = ground (arith, last) in
    let from : esi ≡ src + n = ground (arith, last) in
    ap (λ (e : ℕ). rep_movsb behind (suc n) e esi m a) at
    ∙ ap (λ (e : ℕ). rep_movsb behind (suc n) (dest + n) e m a) from
    ∙ downwards-copied n dest src (behind (dest + n)) (behind (src + n))
        (update m (dest + n) (m (src + n))) a above (omega arith) (ends n h)
    ∙ ground (arith, copied-at dest src (suc n) n m a)
  where
    ends :
        (k : ℕ)
        → dest + suc k ≤ 2 ^ 32
        → (k ≡ 0) ⊎ ((behind (dest + k) + 1 ≡ dest + k) × (behind (src + k) + 1 ≡ src + k))
    ends zero low = inl refl
    ends (suc k) low = inr (omega arith, omega arith)

upwards-whole :
    (n dest src : ℕ) (m : ℕ → ℕ) (a : ℕ)
    → dest ≤ src
    → dest + n ≤ 2 ^ 32
    → src + n ≤ 2 ^ 32
    → rep_movsb (ahead 1) n dest src m a ≡ copied dest src n m a
unfolding rep_movsb
upwards-whole zero dest src m a low h h' = ground arith
upwards-whole (suc n) dest src m a low h h' =
    let d : dest ≡ dest % 2 ^ 32 = omega arith in
    let s : src ≡ src % 2 ^ 32 = omega arith in
    ap (λ (e : ℕ). rep_movsb (ahead 1) (suc n) e src m a) d
    ∙ ap (λ (e : ℕ). rep_movsb (ahead 1) (suc n) (dest % 2 ^ 32) e m a) s
    ∙ upwards-copied (suc n) dest src m a low h h'

downwards-whole :
    (n dest src : ℕ) (m : ℕ → ℕ) (a : ℕ)
    → src < dest
    → dest + n ≤ 2 ^ 32
    → rep_movsb behind n (behind (ahead n dest)) (behind (ahead n src)) m a ≡ copied dest src n m a
downwards-whole n dest src m a above h =
    downwards-copied n dest src (behind (ahead n dest)) (behind (ahead n src)) m a above h
      (ends n h)
  where
    ends :
        (k : ℕ)
        → dest + k ≤ 2 ^ 32
        → (k ≡ 0) ⊎ ((behind (ahead k dest) + 1 ≡ dest + k) × (behind (ahead k src) + 1 ≡ src + k))
    ends zero low = inl refl
    ends (suc k) low = inr (omega arith, omega arith)

-- memmove copies the `n` bytes also where the areas overlap, and leaves the direction flag set exactly
-- if the destination is above the source. The areas end below 4 GB.
pub memmove_lem :
    (dest src n : ℕ) (m : ℕ → ℕ) (a : ℕ)
    → dest + n ≤ 2 ^ 32
    → src + n ≤ 2 ^ 32
    → ((memmove dest src n m).1 a ≡ copied dest src n m a)
      × (((memmove dest src n m).0 ≡ true) ↔ (src < dest))
unfolding memmove
memmove_lem dest src n m a h h' = elim (Bool-cases (leb dest src)) [
  | inl low ↦
      let le : dest ≤ src = leb→le dest src low in
      (
        ground (arith, low, upwards-whole n dest src m a le h h'),
        (λ set. ground (arith, low, set), λ lt. ground (arith, low)),
      )
  | inr high ↦
      let lt : src < dest = ground (arith, high) in
      (
        ground (arith, high, downwards-whole n dest src m a lt h),
        (λ set. lt, λ above. ground (arith, high)),
      )
]
