-- ===== src/Memory/Copies.antt =====
-- What memcpy of lib.c stores, also where the two areas overlap.
use linux_os.Base.{
  ℕ, zero, suc, ◌+◌, ◌-◌, ◌*◌, ◌/◌, ◌%◌, ◌^◌, ◌≤◌, ◌<◌, ◌≡◌, ◌⊎◌, inl, inr, ap, ◌∙◌, true, false,
  ◌&&◌, arith, ltb, leb, ◌==◌, if◌then◌else◌, Bool-cases, update,
}
use linux_os.Memory.{
  ahead, store_four, rep_movsl, memcpy_bottom, memcpy_aligned, memcpy_top, memcpy,
}

-- The `n` bytes from `src` on, at the addresses from `dest` on.
abbrev pub copied : ℕ → ℕ → ℕ → (ℕ → ℕ) → ℕ → ℕ
copied dest src n m a = if leb dest a && ltb a (dest + n) then m (src + (a - dest)) else m a

-- A copy upwards reads no byte that it has written.
abbrev pub UpwardsSafe : ℕ → ℕ → ℕ → Type 0
UpwardsSafe dest src n = (dest ≤ src) ⊎ (src + n ≤ dest)

-- Some bytes are copied, and then the ones behind them.
pub copied-more :
    (dest src k n : ℕ) (m m' : ℕ → ℕ) (a : ℕ)
    → UpwardsSafe dest src (k + n)
    → ((x : ℕ) → m' x ≡ copied dest src k m x)
    → copied (dest + k) (src + k) n m' a ≡ copied dest src (k + n) m a
copied-more dest src k n m m' a safe step =
    elim (Bool-cases (leb (dest + k) a && ltb a (dest + k + n))) [
      | inl inside ↦
          let at : src + k + (a - (dest + k)) ≡ src + (a - dest) = ground (arith, inside) in
          rw inside (ap m' at ∙ step (src + (a - dest)) ∙ ground (arith, inside, safe))
      | inr outside ↦ rw outside (step a ∙ ground (arith, outside))
    ]

pub copied-at :
    (dest src n i : ℕ) (m : ℕ → ℕ) (x : ℕ)
    → dest + i ≡ x
    → i < n
    → m (src + i) ≡ copied dest src n m x
copied-at dest src n i m x e h =
    let at : src + i ≡ src + (x - dest) = omega arith in ap m at ∙ ground arith

pub one_byte : (dest src : ℕ) (m : ℕ → ℕ) (x : ℕ) → update m dest (m src) x ≡ copied dest src 1 m x
one_byte dest src m x = elim (Bool-cases (dest == x)) [
  | inl same ↦ ground (
    arith,
    same,
    copied-at dest src 1 0 m x (ground (arith, same)) (omega arith),
    ap m (src_zero src),
  )
  | inr other ↦ ground (arith, other)
]
  where
    src_zero : (s : ℕ) → s + 0 ≡ s
    src_zero s = omega arith

four_bytes :
    (dest src : ℕ) (m : ℕ → ℕ) (x : ℕ)
    → dest + 4 ≤ 2 ^ 32
    → src + 4 ≤ 2 ^ 32
    → store_four dest (m src) (m (ahead 1 src)) (m (ahead 2 src)) (m (ahead 3 src)) m x
      ≡ copied dest src 4 m x
four_bytes dest src m x h h' =
    let d1 : ahead 1 dest ≡ dest + 1 = omega arith in
    let d2 : ahead 2 dest ≡ dest + 2 = omega arith in
    let d3 : ahead 3 dest ≡ dest + 3 = omega arith in
    let s1 : ahead 1 src ≡ src + 1 = omega arith in
    let s2 : ahead 2 src ≡ src + 2 = omega arith in
    let s3 : ahead 3 src ≡ src + 3 = omega arith in
    let s0 : src ≡ src + 0 = omega arith in
    ground (
      arith,
      d1,
      d2,
      d3,
      ap m s0,
      ap m s1,
      ap m s2,
      ap m s3,
      copied-at dest src 4 0 m x,
      copied-at dest src 4 1 m x,
      copied-at dest src 4 2 m x,
      copied-at dest src 4 3 m x,
    )

memcpy_bottom-copied :
    (n dest src : ℕ) (m : ℕ → ℕ) (a : ℕ)
    → UpwardsSafe dest src n
    → dest + n ≤ 2 ^ 32
    → src + n ≤ 2 ^ 32
    → memcpy_bottom n (dest % 2 ^ 32) (src % 2 ^ 32) m a ≡ copied dest src n m a
unfolding memcpy_bottom
memcpy_bottom-copied zero dest src m a safe h h' = ground arith
memcpy_bottom-copied (suc n) dest src m a safe h h' =
    let d : dest % 2 ^ 32 ≡ dest = omega arith in
    let s : src % 2 ^ 32 ≡ src = omega arith in
    ap (λ (e : ℕ). memcpy_bottom (suc n) e (src % 2 ^ 32) m a) d
    ∙ ap (λ (e : ℕ). memcpy_bottom (suc n) dest e m a) s
    ∙ memcpy_bottom-copied n (dest + 1) (src + 1) (update m dest (m src)) a (ground arith)
        (omega arith) (omega arith)
    ∙ copied-more dest src 1 n m (update m dest (m src)) a (ground arith) (one_byte dest src m)
    ∙ ap (λ (k : ℕ). copied dest src k m a) (omega arith)

rep_movsl-copied :
    (n dest src : ℕ) (m : ℕ → ℕ) (a : ℕ)
    → UpwardsSafe dest src (4 * n)
    → dest + 4 * n ≤ 2 ^ 32
    → src + 4 * n ≤ 2 ^ 32
    → rep_movsl n (dest % 2 ^ 32) (src % 2 ^ 32) m a ≡ copied dest src (4 * n) m a
unfolding rep_movsl
rep_movsl-copied zero dest src m a safe h h' = ground arith
rep_movsl-copied (suc n) dest src m a safe h h' =
    let d : dest % 2 ^ 32 ≡ dest = omega arith in
    let s : src % 2 ^ 32 ≡ src = omega arith in
    let m' = store_four dest (m src) (m (ahead 1 src)) (m (ahead 2 src)) (m (ahead 3 src)) m in
    ap (λ (e : ℕ). rep_movsl (suc n) e (src % 2 ^ 32) m a) d
    ∙ ap (λ (e : ℕ). rep_movsl (suc n) dest e m a) s
    ∙ rep_movsl-copied n (dest + 4) (src + 4) m' a (ground arith) (omega arith) (omega arith)
    ∙ copied-more dest src 4 (4 * n) m m' a (ground arith)
        (λ x. four_bytes dest src m x (omega arith) (omega arith))
    ∙ ap (λ (k : ℕ). copied dest src k m a) (omega arith)

memcpy_aligned-copied :
    (n dest src : ℕ) (m : ℕ → ℕ) (a : ℕ)
    → UpwardsSafe dest src n
    → dest + n ≤ 2 ^ 32
    → src + n ≤ 2 ^ 32
    → memcpy_aligned n (dest % 2 ^ 32) (src % 2 ^ 32) m a ≡ copied dest src n m a
memcpy_aligned-copied n dest src m a safe h h' =
    let four = 4 * (n / 4) in
    let m' = rep_movsl (n / 4) (dest % 2 ^ 32) (src % 2 ^ 32) m in
    let d : ahead (4 * (n / 4)) (dest % 2 ^ 32) ≡ (dest + 4 * (n / 4)) % 2 ^ 32 = omega arith in
    let s : ahead (4 * (n / 4)) (src % 2 ^ 32) ≡ (src + 4 * (n / 4)) % 2 ^ 32 = omega arith in
    ap (λ (e : ℕ). memcpy_bottom (n % 4) e (ahead four (src % 2 ^ 32)) m' a) d
    ∙ ap (λ (e : ℕ). memcpy_bottom (n % 4) ((dest + four) % 2 ^ 32) e m' a) s
    ∙ memcpy_bottom-copied (n % 4) (dest + four) (src + four) m' a (ground arith) (omega arith)
        (omega arith)
    ∙ copied-more dest src four (n % 4) m m' a (ground arith)
        (λ x. rep_movsl-copied (n / 4) dest src m x (ground arith) (omega arith) (omega arith))
    ∙ ap (λ (k : ℕ). copied dest src k m a) (omega arith)

module _ (n dest src : ℕ) (m : ℕ → ℕ) where
  memcpy_top-aligned :
      (dest % 4 == 0) ≡ true → memcpy_top (suc n) dest src m ≡ memcpy_aligned (suc n) dest src m
  unfolding memcpy_top
  memcpy_top-aligned aligned = ground (arith, aligned)

  memcpy_top-unaligned :
      (dest % 4 == 0) ≡ false
      → memcpy_top (suc n) dest src m
        ≡ memcpy_top n (ahead 1 dest) (ahead 1 src) (update m dest (m src))
  unfolding memcpy_top
  memcpy_top-unaligned unaligned = ground (arith, unaligned)

memcpy_top-copied :
    (n dest src : ℕ) (m : ℕ → ℕ) (a : ℕ)
    → UpwardsSafe dest src n
    → dest + n ≤ 2 ^ 32
    → src + n ≤ 2 ^ 32
    → memcpy_top n (dest % 2 ^ 32) (src % 2 ^ 32) m a ≡ copied dest src n m a
unfolding memcpy_top
memcpy_top-copied zero dest src m a safe h h' = ground arith
memcpy_top-copied (suc n) dest src m a safe h h' =
    let d : dest % 2 ^ 32 ≡ dest = omega arith in
    let s : src % 2 ^ 32 ≡ src = omega arith in
    elim (Bool-cases (dest % 2 ^ 32 % 4 == 0)) [
      | inl aligned ↦
          ap (λ (f : ℕ → ℕ). f a) (memcpy_top-aligned n (dest % 2 ^ 32) (src % 2 ^ 32) m aligned)
          ∙ memcpy_aligned-copied (suc n) dest src m a safe h h'
      | inr unaligned ↦
          ap (λ (f : ℕ → ℕ). f a)
            (memcpy_top-unaligned n (dest % 2 ^ 32) (src % 2 ^ 32) m unaligned)
          ∙ ap
              (λ (e : ℕ).
                memcpy_top n (ahead 1 e) (ahead 1 (src % 2 ^ 32)) (update m e (m (src % 2 ^ 32))) a)
              d
          ∙ ap (λ (e : ℕ). memcpy_top n (ahead 1 dest) (ahead 1 e) (update m dest (m e)) a) s
          ∙ memcpy_top-copied n (dest + 1) (src + 1) (update m dest (m src)) a (ground arith)
              (omega arith) (omega arith)
          ∙ copied-more dest src 1 n m (update m dest (m src)) a (ground arith)
              (one_byte dest src m)
          ∙ ap (λ (k : ℕ). copied dest src k m a) (omega arith)
    ]

-- memcpy copies the `n` bytes, whatever the alignment of the areas is, if the destination does not begin
-- inside the source behind its first byte. The areas end below 4 GB.
pub memcpy_lem :
    (dest src n : ℕ) (m : ℕ → ℕ) (a : ℕ)
    → UpwardsSafe dest src n
    → dest + n ≤ 2 ^ 32
    → src + n ≤ 2 ^ 32
    → memcpy dest src n m a ≡ copied dest src n m a
unfolding memcpy memcpy_top
memcpy_lem dest src zero m a safe h h' = ground arith
memcpy_lem dest src (suc n) m a safe h h' =
    let d : dest ≡ dest % 2 ^ 32 = omega arith in
    let s : src ≡ src % 2 ^ 32 = omega arith in
    ap (λ (e : ℕ). memcpy_top (suc n) e src m a) d
    ∙ ap (λ (e : ℕ). memcpy_top (suc n) (dest % 2 ^ 32) e m a) s
    ∙ memcpy_top-copied (suc n) dest src m a safe h h'
