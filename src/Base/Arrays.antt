-- ===== src/Base/Arrays.antt =====
-- Fixed C arrays as functions of the index, changed at one place by an assignment. The bounds of
-- an index are hypotheses and theorems of the modules that use the array.
use Prim.Native.Nat.{ℕ, zero, suc, ◌<◌}
use mathlib.Core.Path.{◌≡◌, ap}
use mathlib.Core.Logic.{◌≢◌, inl, inr}
use mathlib.Core.Bool.{Bool, true, ◌&&◌}
use native.Mathlib.Omega.{arith}
use linux_os.Base.Tests.{◌==◌, if◌then◌else◌, ltb, Bool-cases}

-- a[i] = v
abbrev pub update {ℓ} : {A : Type ℓ} → (ℕ → A) → ℕ → A → ℕ → A
update a i v j = if i == j then v else a j

pub update_self {ℓ} : {A : Type ℓ} (a : ℕ → A) (i : ℕ) (v : A) → update a i v i ≡ v
update_self a i v = ground arith

pub update_ne {ℓ} : {A : Type ℓ} (a : ℕ → A) (i j : ℕ) (v : A) → i ≢ j → update a i v j ≡ a j
update_ne a i j v h = ground arith

-- A test of every number below a bound, by evaluation, and what a passed test gives.
unfoldable pub all_below : ℕ → (ℕ → Bool) → Bool
all_below zero test = true
all_below (suc bound) test = all_below bound test && test bound

pub all_below_sound :
    (bound : ℕ) (test : ℕ → Bool) (i : ℕ) → all_below bound test ≡ true → i < bound → test i ≡ true
unfolding all_below
all_below_sound zero test i passed below = absurd (omega arith)
all_below_sound (suc bound) test i passed below = ground (arith, all_below_sound bound test i)

-- for (i = 0; i < n; i++) a[i] = f i;
unfoldable pub fill {ℓ} : {A : Type ℓ} → ℕ → (ℕ → A) → (ℕ → A) → ℕ → A
fill zero f a = a
fill (suc n) f a = update (fill n f a) n (f n)

fill_here {ℓ} :
    {A : Type ℓ} (n : ℕ) (f a : ℕ → A) (j : ℕ)
    → n == j ≡ true
    → fill (suc n) f a j ≡ (if ltb j (suc n) then f j else a j)
unfolding fill
fill_here n f a j h = let same : n ≡ j = ground arith in ground (arith, ap f same)

pub fill_lem {ℓ} :
    {A : Type ℓ} (n : ℕ) (f a : ℕ → A) (j : ℕ) → fill n f a j ≡ (if ltb j n then f j else a j)
unfolding fill
fill_lem zero f a j = ground arith
fill_lem (suc n) f a j = elim (Bool-cases (n == j)) [
  | inl here ↦ fill_here n f a j here
  | inr away ↦ ground (arith, fill_lem n f a j)
]
