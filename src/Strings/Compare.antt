-- ===== src/Strings/Compare.antt =====
-- What `strncmp` of lib.c decides: whether two C strings agree in their first `n` bytes.
use linux_os.Base.{
  ℕ, zero, suc, ◌≤◌, ◌<◌, ◌≡◌, ◌↔◌, inl, inr, refl, not, ◌||◌, some, List, [], ◌∷◌, arith, ◌==◌,
  if◌then◌else◌, Bool-cases, Option-cases, length,
}
use linux_os.Base.Int.{ℤ, pos, ◌-ℤ◌, signed8}
use linux_os.Strings.{strlen, strncmp}

abbrev pub AllBytes : List ℕ → Type 0
AllBytes [] = Unit
AllBytes (c ∷ s) = (c < 256) × AllBytes s

-- The bytes of a C string that stand before its zero, `n` at most.
abbrev pub c_prefix : ℕ → List ℕ → List ℕ
c_prefix zero s = []
c_prefix (suc n) [] = []
c_prefix (suc n) (c ∷ s) = if c == 0 then [] else c ∷ c_prefix n s

signed8-sub-eq-zero : (a b : ℕ) → a < 256 → b < 256 → signed8 a -ℤ signed8 b ≡ pos 0 → a ≡ b
unfolding ◌-ℤ◌
signed8-sub-eq-zero a b ha hb h = ground arith

signed8-sub_self : (a : ℕ) → a < 256 → signed8 a -ℤ signed8 a ≡ pos 0
unfolding ◌-ℤ◌
signed8-sub_self a ha = ground arith

cons-injective_head : {a b : ℕ} {s t : List ℕ} → a ∷ s ≡ b ∷ t → a ≡ b
cons-injective_head e = cc

-- The result is zero exactly when the strings agree up to the zero or the limit.
pub strncmp-zero_iff :
    (n : ℕ) (s1 s2 : List ℕ) (r : ℤ)
    → AllBytes s1
    → AllBytes s2
    → strncmp s1 s2 n ≡ some r
    → (r ≡ pos 0) ↔ (c_prefix n s1 ≡ c_prefix n s2)
unfolding strncmp
strncmp-zero_iff zero s1 s2 r h1 h2 e = (λ _. refl, λ _. cc)
strncmp-zero_iff (suc n) [] s2 r h1 h2 e = cc
strncmp-zero_iff (suc n) (a ∷ s1) [] r h1 h2 e = cc
strncmp-zero_iff (suc n) (a ∷ s1) (b ∷ s2) r h1 h2 e = (
  λ z. ground (arith, signed8-sub-eq-zero a b h1.0 h2.0, strncmp-zero_iff n s1 s2 r h1.1 h2.1),
  λ z. ground (arith, signed8-sub_self a h1.0, strncmp-zero_iff n s1 s2 r h1.1 h2.1),
)

-- No byte past the end of either string is read, if the first holds `n` bytes and the second ends
-- in a zero.
pub strncmp-total :
    (n : ℕ) (s1 s2 : List ℕ) {len : ℕ}
    → n ≤ length s1
    → strlen s2 ≡ some len
    → (r : ℤ) × (strncmp s1 s2 n ≡ some r)
unfolding strncmp strlen
strncmp-total zero s1 s2 h e = (pos 0, refl)
strncmp-total (suc n) [] s2 h e = absurd (omega arith)
strncmp-total (suc n) (a ∷ s1) [] h e = cc
strncmp-total (suc n) (a ∷ s1) (b ∷ s2) h e = elim (Bool-cases (not (a == b) || (a == 0))) [
  | inl t ↦ (signed8 a -ℤ signed8 b, rw t)
  | inr f ↦ rw f (elim (Option-cases (strlen s2)) [
    | inl unended ↦ ground arith
    | inr (k, ended) ↦ strncmp-total n s1 s2 (omega arith) ended
  ])
]
