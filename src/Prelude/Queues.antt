-- ===== src/Prelude/Queues.antt =====
-- Lists as Redis uses them: the head is the left end. LPUSH is `∷`, RPOP takes the last item,
-- LREM with count 0 removes every copy and with count 1 the leftmost one.
use Prim.Native.Nat.{ℕ, suc, ◌+◌, ◌-◌, ◌≤◌}
use mathlib.Core.Path.{◌≡◌, refl, ap}
use mathlib.Core.Bool.{Bool, true, false, ◌||◌}
use mathlib.Core.Option.{Option, none, some}
use mathlib.Core.List.{List, [], ◌∷◌, ◌++◌}
use native.Mathlib.Omega.{arith}
use kernel_gym.Prelude.Tests.{if◌then◌else◌}
use kernel_gym.Prelude.Maps.{Eq, beq_refl}

module _ {ℓ} {A : Type ℓ} where
  abbrev pub length : List A → ℕ
  length [] = 0
  length (x ∷ xs) = suc (length xs)

  abbrev rpop_onto : A → Option (A × List A) → Option (A × List A)
  rpop_onto x none = some (x, [])
  rpop_onto x (some (l, rest)) = some (l, x ∷ rest)

  -- RPOP: the last item and what is left.
  unfoldable pub rpop : List A → Option (A × List A)
  rpop [] = none
  rpop (x ∷ xs) = rpop_onto x (rpop xs)

  pub rpop-append : (xs : List A) (x : A) → rpop (xs ++ x ∷ []) ≡ some (x, xs)
  unfolding rpop
  rpop-append [] x = refl
  rpop-append (y ∷ xs) x = ap (rpop_onto y) (rpop-append xs x)

module _ {ℓ} {A : Type ℓ} ⦃e : Eq A⦄ where
  unfoldable pub lrem_all : A → List A → List A
  lrem_all a [] = []
  lrem_all a (x ∷ xs) = let rest = lrem_all a xs in if e.beq a x then rest else x ∷ rest

  unfoldable pub lrem_one : A → List A → List A
  lrem_one a [] = []
  lrem_one a (x ∷ xs) = let rest = lrem_one a xs in if e.beq a x then xs else x ∷ rest

  unfoldable pub contains : A → List A → Bool
  contains a [] = false
  contains a (x ∷ xs) = e.beq a x || contains a xs

  unfoldable pub count : A → List A → ℕ
  count a [] = 0
  count a (x ∷ xs) = let rest = count a xs in if e.beq a x then suc rest else rest

  pub count-lrem_all_self : (a : A) (xs : List A) → count a (lrem_all a xs) ≡ 0
  unfolding count lrem_all
  count-lrem_all_self a [] = refl
  count-lrem_all_self a (x ∷ xs) = ground (arith, count-lrem_all_self a xs)

  pub count-lrem_all_ne :
      (a b : A) (xs : List A) → e.beq a b ≡ false → count b (lrem_all a xs) ≡ count b xs
  unfolding count lrem_all
  count-lrem_all_ne a b [] h = refl
  count-lrem_all_ne a b (x ∷ xs) h =
      ground (arith, e.beq_iff a x, e.beq_iff b x, e.beq_iff a b, count-lrem_all_ne a b xs h)

  pub count-lrem_one_self : (a : A) (xs : List A) → count a (lrem_one a xs) ≡ count a xs - 1
  unfolding count lrem_one
  count-lrem_one_self a [] = refl
  count-lrem_one_self a (x ∷ xs) = ground (arith, count-lrem_one_self a xs)

  pub count-lrem_one_ne :
      (a b : A) (xs : List A) → e.beq a b ≡ false → count b (lrem_one a xs) ≡ count b xs
  unfolding count lrem_one
  count-lrem_one_ne a b [] h = refl
  count-lrem_one_ne a b (x ∷ xs) h =
      ground (arith, e.beq_iff a x, e.beq_iff b x, e.beq_iff a b, count-lrem_one_ne a b xs h)

  pub count-cons_self : (a : A) (xs : List A) → count a (a ∷ xs) ≡ suc (count a xs)
  unfolding count
  count-cons_self a xs = ground (arith, beq_refl a)

  pub count-pos_contains : (a : A) (xs : List A) → contains a xs ≡ true → 1 ≤ count a xs
  unfolding count contains
  count-pos_contains a [] h = ground arith
  count-pos_contains a (x ∷ xs) h = ground (arith, count-pos_contains a xs)

  pub count-lrem_one_le : (a b : A) (xs : List A) → count b (lrem_one a xs) ≤ count b xs
  unfolding count lrem_one
  count-lrem_one_le a b [] = ground arith
  count-lrem_one_le a b (x ∷ xs) = ground (arith, count-lrem_one_le a b xs)

  pub count-append : (a : A) (xs ys : List A) → count a (xs ++ ys) ≡ count a xs + count a ys
  unfolding count
  count-append a [] ys = ground arith
  count-append a (x ∷ xs) ys = ground (arith, count-append a xs ys)

  pub count-contains-false : (a : A) (xs : List A) → contains a xs ≡ false → count a xs ≡ 0
  unfolding count contains
  count-contains-false a [] h = refl
  count-contains-false a (x ∷ xs) h = ground (arith, count-contains-false a xs)
