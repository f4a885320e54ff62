-- ===== src/Memory/Sets.antt =====
-- What the sets of lib.c store.
use linux_os.Base.{
  ℕ, zero, suc, ◌+◌, ◌*◌, ◌/◌, ◌%◌, ◌^◌, ◌≤◌, ◌<◌, ◌≡◌, inl, inr, refl, ap, ◌∙◌, true, false, ◌&&◌,
  arith, ltb, leb, ◌==◌, if◌then◌else◌, Bool-cases, update,
}
use linux_os.Memory.{
  ahead, store_four, rep_stosl, memset_bottom, memset_aligned, memset_top, memset,
}

-- The same byte at `n` addresses.
abbrev pub filled : ℕ → ℕ → ℕ → (ℕ → ℕ) → ℕ → ℕ
filled lo n v m a = if leb lo a && ltb a (lo + n) then v else m a

memset_bottom-filled :
    (n edi v : ℕ) (m : ℕ → ℕ) (a : ℕ)
    → edi + n ≤ 2 ^ 32
    → memset_bottom n edi v m a ≡ filled edi n v m a
unfolding memset_bottom
memset_bottom-filled zero edi v m a h = ground arith
memset_bottom-filled (suc zero) edi v m a h = ground arith
memset_bottom-filled (suc (suc n)) edi v m a h =
    let next : ahead 1 edi ≡ edi + 1 = omega arith in
    ap (λ (e : ℕ). memset_bottom (suc n) e v (update m edi v) a) next
    ∙ memset_bottom-filled (suc n) (edi + 1) v (update m edi v) a (omega arith)
    ∙ ground arith

-- The address may be one that has wrapped if no byte is left.
memset_bottom-wrapped :
    (n edi v : ℕ) (m : ℕ → ℕ) (a : ℕ)
    → edi + n ≤ 2 ^ 32
    → memset_bottom n (edi % 2 ^ 32) v m a ≡ filled edi n v m a
unfolding memset_bottom
memset_bottom-wrapped zero edi v m a h = ground arith
memset_bottom-wrapped (suc n) edi v m a h =
    let here : edi % 2 ^ 32 ≡ edi = omega arith in
    ap (λ (e : ℕ). memset_bottom (suc n) e v m a) here ∙ memset_bottom-filled (suc n) edi v m a h

store_four-filled :
    (edi v : ℕ) (m : ℕ → ℕ) (a : ℕ)
    → edi + 4 ≤ 2 ^ 32
    → store_four edi v v v v m a ≡ filled edi 4 v m a
store_four-filled edi v m a h =
    let one : ahead 1 edi ≡ edi + 1 = omega arith in
    let two : ahead 2 edi ≡ edi + 2 = omega arith in
    let three : ahead 3 edi ≡ edi + 3 = omega arith in ground (arith, one, two, three)

-- The four bytes of the word.
rep_stosl-four :
    (n edi v : ℕ) (m : ℕ → ℕ)
    → v < 256
    → rep_stosl (suc n) edi (v * 2 ^ 24 + v * 2 ^ 16 + v * 2 ^ 8 + v) m
      ≡ rep_stosl n
          (ahead 4 edi)
          (v * 2 ^ 24 + v * 2 ^ 16 + v * 2 ^ 8 + v)
          (store_four edi v v v v m)
unfolding rep_stosl
rep_stosl-four n edi v m small =
    let w = v * 2 ^ 24 + v * 2 ^ 16 + v * 2 ^ 8 + v in
    let b0 : (v * 2 ^ 24 + v * 2 ^ 16 + v * 2 ^ 8 + v) % 2 ^ 8 ≡ v = omega arith in
    let b1 : (v * 2 ^ 24 + v * 2 ^ 16 + v * 2 ^ 8 + v) / 2 ^ 8 % 2 ^ 8 ≡ v = omega arith in
    let b2 : (v * 2 ^ 24 + v * 2 ^ 16 + v * 2 ^ 8 + v) / 2 ^ 16 % 2 ^ 8 ≡ v = omega arith in
    let b3 : (v * 2 ^ 24 + v * 2 ^ 16 + v * 2 ^ 8 + v) / 2 ^ 24 % 2 ^ 8 ≡ v = omega arith in
    rw (b0, b1, b2, b3) refl

rep_stosl-filled :
    (n edi v : ℕ) (m : ℕ → ℕ) (a : ℕ)
    → v < 256
    → edi + 4 * n ≤ 2 ^ 32
    → rep_stosl n edi (v * 2 ^ 24 + v * 2 ^ 16 + v * 2 ^ 8 + v) m a ≡ filled edi (4 * n) v m a
unfolding rep_stosl
rep_stosl-filled zero edi v m a small h = ground arith
rep_stosl-filled (suc zero) edi v m a small h =
    ap (λ (f : ℕ → ℕ). f a) (rep_stosl-four 0 edi v m small)
    ∙ store_four-filled edi v m a (omega arith)
    ∙ ground arith
rep_stosl-filled (suc (suc n)) edi v m a small h =
    let next : ahead 4 edi ≡ edi + 4 = omega arith in
    ap (λ (f : ℕ → ℕ). f a) (rep_stosl-four (suc n) edi v m small)
    ∙ ap
        (λ (e : ℕ).
          rep_stosl (suc n) e (v * 2 ^ 24 + v * 2 ^ 16 + v * 2 ^ 8 + v) (store_four edi v v v v m)
            a)
        next
    ∙ rep_stosl-filled (suc n) (edi + 4) v (store_four edi v v v v m) a small (omega arith)
    ∙ ground (arith, store_four-filled edi v m a (omega arith))

memset_aligned-filled :
    (n edi v : ℕ) (m : ℕ → ℕ) (a : ℕ)
    → v < 256
    → edi + n ≤ 2 ^ 32
    → memset_aligned n edi (v * 2 ^ 24 + v * 2 ^ 16 + v * 2 ^ 8 + v) m a ≡ filled edi n v m a
memset_aligned-filled n edi v m a small h =
    let w = v * 2 ^ 24 + v * 2 ^ 16 + v * 2 ^ 8 + v in
    let low : (v * 2 ^ 24 + v * 2 ^ 16 + v * 2 ^ 8 + v) % 2 ^ 8 ≡ v = omega arith in
    let four = 4 * (n / 4) in
    ap (λ (b : ℕ). memset_bottom (n % 4) (ahead four edi) b (rep_stosl (n / 4) edi w m) a) low
    ∙ memset_bottom-wrapped (n % 4) (edi + four) v (rep_stosl (n / 4) edi w m) a (omega arith)
    ∙ ground (arith, rep_stosl-filled (n / 4) edi v m a small (omega arith))

module _ (n edi eax : ℕ) (m : ℕ → ℕ) where
  memset_top-aligned :
      (edi % 4 == 0) ≡ true → memset_top (suc n) edi eax m ≡ memset_aligned (suc n) edi eax m
  unfolding memset_top
  memset_top-aligned aligned = ground (arith, aligned)

  memset_top-unaligned :
      (edi % 4 == 0) ≡ false
      → memset_top (suc n) edi eax m ≡ memset_top n (ahead 1 edi) eax (update m edi (eax % 2 ^ 8))
  unfolding memset_top
  memset_top-unaligned unaligned = ground (arith, unaligned)

memset_top-filled :
    (n edi v : ℕ) (m : ℕ → ℕ) (a : ℕ)
    → v < 256
    → edi + n ≤ 2 ^ 32
    → memset_top n edi (v * 2 ^ 24 + v * 2 ^ 16 + v * 2 ^ 8 + v) m a ≡ filled edi n v m a
unfolding memset_top
memset_top-filled zero edi v m a small h = ground arith
memset_top-filled (suc n) edi v m a small h =
    let w = v * 2 ^ 24 + v * 2 ^ 16 + v * 2 ^ 8 + v in
    let low : (v * 2 ^ 24 + v * 2 ^ 16 + v * 2 ^ 8 + v) % 2 ^ 8 ≡ v = omega arith in
    elim (Bool-cases (edi % 4 == 0)) [
      | inl aligned ↦
          ap (λ (f : ℕ → ℕ). f a) (memset_top-aligned n edi w m aligned)
          ∙ memset_aligned-filled (suc n) edi v m a small h
      | inr unaligned ↦
          ap (λ (f : ℕ → ℕ). f a) (memset_top-unaligned n edi w m unaligned)
          ∙ ap (λ (b : ℕ). memset_top n (ahead 1 edi) w (update m edi b) a) low
          ∙ (memset_top-filled n (ahead 1 edi) v (update m edi v) a small (omega arith)
              ∙ ground arith)
    ]

-- memset, for an area that ends below 4 GB, stores the lowest byte of `c` at every address of the area,
-- and nothing elsewhere, whatever the area's alignment is.
pub memset_lem :
    (s c n : ℕ) (m : ℕ → ℕ) (a : ℕ) → s + n ≤ 2 ^ 32 → memset s c n m a ≡ filled s n (c % 2 ^ 8) m a
unfolding memset
memset_lem s c n m a h = memset_top-filled n s (c % 2 ^ 8) m a (omega arith) h
