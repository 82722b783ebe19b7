-- ===== src/Prelude/Maps.antt =====
-- Keys with a Boolean equality, and total maps over them that are changed at one key.
use mathlib.Core.Path.{◌≡◌, refl, fun_ext}
use mathlib.Core.Logic.{◌≢◌, ◌↔◌}
use mathlib.Core.Bool.{Bool, true, false}
use Prim.Native.String.{String}
use native.Mathlib.Omega.{arith}
use text.Mathlib.Text.{◌==◌}
use text.Mathlib.TextEquality.{eq_iff}
use Prim.Native.Nat.{ℕ}
use kernel_gym.Prelude.Tests.{nat_eq, if◌then◌else◌}

pub record Eq {ℓ} (A : Type ℓ) : Type ℓ where
  pub beq : A → A → Bool
  pub beq_iff : (a b : A) → (beq a b ≡ true) ↔ (a ≡ b)

instance abbrev pub string_eq : Eq String
string_eq = record { beq = ◌==◌; beq_iff = eq_iff }

module _ {ℓ} {K : Type ℓ} ⦃e : Eq K⦄ where
  pub beq_refl : (k : K) → e.beq k k ≡ true
  beq_refl k = (e.beq_iff k k).1 refl

  pub beq_ne : (k j : K) → k ≢ j → e.beq k j ≡ false
  beq_ne k j h = ground (arith, e.beq_iff k j)

module _ {ℓ κ} {K : Type ℓ} {V : Type κ} ⦃e : Eq K⦄ where
  abbrev pub update : (K → V) → K → V → K → V
  update f k v j = if e.beq k j then v else f j

  pub update-update : (f : K → V) (k : K) (v w : V) → update (update f k v) k w ≡ update f k w
  update-update f k v w = fun_ext λ j. ground arith

  pub update-same : (f : K → V) (k : K) → update f k (f k) ≡ f
  update-same f k = fun_ext λ j. ground (arith, e.beq_iff k j)

  pub update-at : (f : K → V) (k : K) (v : V) → update f k v k ≡ v
  update-at f k v = rw (beq_refl k)

pub nat_eq_iff : (m n : ℕ) → (nat_eq m n ≡ true) ↔ (m ≡ n)
nat_eq_iff m n = ground arith

instance abbrev pub nat_Eq : Eq ℕ
nat_Eq = record { beq = nat_eq; beq_iff = nat_eq_iff }
