-- ===== src/Prelude/Sort.antt =====
-- `ORDER BY`: a stable sort by a Boolean order, which keeps the rows.
use Prim.Native.Nat.{suc}
use mathlib.Core.Path.{◌≡◌, refl}
use mathlib.Core.Bool.{Bool}
use mathlib.Core.Logic.{inl, inr}
use mathlib.Core.List.{List, [], ◌∷◌}
use native.Mathlib.Omega.{arith}
use ai_compliance_orquestrat.Prelude.Tests.{if◌then◌else◌, Bool-cases}
use ai_compliance_orquestrat.Prelude.Lists.{count, All, length}

module _ {ℓ} {A : Type ℓ} (le : A → A → Bool) where
  insert_row : A → List A → List A
  insert_row a [] = a ∷ []
  insert_row a (x ∷ xs) = let rest = insert_row a xs in if le a x then a ∷ x ∷ xs else x ∷ rest

  unfoldable pub order_by : List A → List A
  unfolding insert_row
  order_by [] = []
  order_by (x ∷ xs) = insert_row x (order_by xs)

  count-insert_row :
      (p : A → Bool) (a : A) (xs : List A) → count p (insert_row a xs) ≡ count p (a ∷ xs)
  unfolding insert_row count
  count-insert_row p a [] = refl
  count-insert_row p a (x ∷ xs) = ground (arith, count-insert_row p a xs)

  -- Ordering neither adds nor loses a row.
  pub count-order_by : (p : A → Bool) (xs : List A) → count p (order_by xs) ≡ count p xs
  unfolding order_by count
  count-order_by p [] = refl
  count-order_by p (x ∷ xs) =
      ground (arith, count-order_by p xs, count-insert_row p x (order_by xs))

  All-insert_row {κ} :
      (P : A → Type κ) (a : A) (xs : List A) → P a → All P xs → All P (insert_row a xs)
  unfolding insert_row
  All-insert_row P a [] h k = (h, tt)
  All-insert_row P a (x ∷ xs) h k = elim (Bool-cases (le a x)) [
    | inl e ↦ rw e (h, k)
    | inr e ↦ rw e (k.0, All-insert_row P a xs h k.1)
  ]

  pub All-order_by {κ} : (P : A → Type κ) (xs : List A) → All P xs → All P (order_by xs)
  unfolding order_by
  All-order_by P [] h = tt
  All-order_by P (x ∷ xs) h = All-insert_row P x (order_by xs) h.0 (All-order_by P xs h.1)

  length-insert_row : (a : A) (xs : List A) → length (insert_row a xs) ≡ suc (length xs)
  unfolding insert_row
  length-insert_row a [] = refl
  length-insert_row a (x ∷ xs) = ground (arith, length-insert_row a xs)

  pub length-order_by : (xs : List A) → length (order_by xs) ≡ length xs
  unfolding order_by
  length-order_by [] = refl
  length-order_by (x ∷ xs) = omega (arith, length-order_by xs, length-insert_row x (order_by xs))
