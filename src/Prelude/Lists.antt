-- ===== src/Prelude/Lists.antt =====
-- Lists as tables: length over the native numbers, Boolean filters, counts and lookups, and two
-- predicates by recursion, `All` and `Grows`.
use Prim.Native.Nat.{ℕ, zero, suc, ◌+◌, ◌≤◌}
use mathlib.Core.Path.{◌≡◌, refl, ◌∙◌, subst}
use mathlib.Core.Logic.{◌⊎◌, inl, inr}
use mathlib.Core.Bool.{Bool, true}
use mathlib.Core.Option.{Option, none, some}
use mathlib.Core.List.{List, [], ◌∷◌, ◌++◌, map}
use native.Mathlib.Omega.{arith}
use ai_compliance_orquestrat.Prelude.Tests.{if◌then◌else◌, Bool-cases}

module _ {ℓ} {A : Type ℓ} where
  abbrev pub length : List A → ℕ
  length [] = 0
  length (x ∷ xs) = suc (length xs)

  abbrev pub take : ℕ → List A → List A
  take zero xs = []
  take (suc n) [] = []
  take (suc n) (x ∷ xs) = x ∷ take n xs

  -- The rows that pass a test, in the order of the table.
  unfoldable pub filter : (A → Bool) → List A → List A
  filter p [] = []
  filter p (x ∷ xs) = let rest = filter p xs in if p x then x ∷ rest else rest

  unfoldable pub count : (A → Bool) → List A → ℕ
  count p [] = 0
  count p (x ∷ xs) = if p x then suc (count p xs) else count p xs

  -- The first row that passes a test.
  unfoldable pub find : (A → Bool) → List A → Option A
  find p [] = none
  find p (x ∷ xs) = if p x then some x else find p xs

  pub length-append : (xs ys : List A) → length (xs ++ ys) ≡ length xs + length ys
  length-append [] ys = omega arith
  length-append (x ∷ xs) ys = omega (arith, length-append xs ys)

  pub length-filter : (p : A → Bool) (xs : List A) → length (filter p xs) ≡ count p xs
  unfolding filter count
  length-filter p [] = refl
  length-filter p (x ∷ xs) = ground (arith, length-filter p xs)

  pub length-take-le : (n : ℕ) (xs : List A) → length (take n xs) ≤ n
  length-take-le zero xs = omega arith
  length-take-le (suc n) [] = omega arith
  length-take-le (suc n) (x ∷ xs) = omega (arith, length-take-le n xs)

  pub count-take-le : (p : A → Bool) (n : ℕ) (xs : List A) → count p (take n xs) ≤ count p xs
  unfolding count
  count-take-le p zero xs = omega arith
  count-take-le p (suc n) [] = omega arith
  count-take-le p (suc n) (x ∷ xs) = ground (arith, count-take-le p n xs)

  pub count-filter-le : (p q : A → Bool) (xs : List A) → count p (filter q xs) ≤ count p xs
  unfolding count filter
  count-filter-le p q [] = omega arith
  count-filter-le p q (x ∷ xs) = ground (arith, count-filter-le p q xs)

  -- All are taken, or as many as asked for.
  pub length-take-cases :
      (n : ℕ) (xs : List A) → (length (take n xs) ≡ n) ⊎ (length (take n xs) ≡ length xs)
  length-take-cases zero xs = inl refl
  length-take-cases (suc n) [] = inr refl
  length-take-cases (suc n) (x ∷ xs) = elim (length-take-cases n xs) [
    | inl e ↦ inl (omega arith)
    | inr e ↦ inr (omega arith)
  ]

  pub count-append : (p : A → Bool) (xs ys : List A) → count p (xs ++ ys) ≡ count p xs + count p ys
  unfolding count
  count-append p [] ys = omega arith
  count-append p (x ∷ xs) ys = ground (arith, count-append p xs ys)

  pub find-append_some :
      (p : A → Bool) (xs ys : List A) {a : A} → find p xs ≡ some a → find p (xs ++ ys) ≡ some a
  unfolding find
  find-append_some p [] ys h = cc
  find-append_some p (x ∷ xs) ys {a} h = ground (arith, find-append_some p xs ys {a = a})

  pub find-append_none :
      (p : A → Bool) (xs ys : List A) → find p xs ≡ none → find p (xs ++ ys) ≡ find p ys
  unfolding find
  find-append_none p [] ys h = refl
  find-append_none p (x ∷ xs) ys h = ground (arith, find-append_none p xs ys)

  pub find_holds : (p : A → Bool) (xs : List A) {a : A} → find p xs ≡ some a → p a ≡ true
  unfolding find
  find_holds p [] h = cc
  find_holds p (x ∷ xs) {a} h = ground (arith, find_holds p xs {a = a})

pub List-cases {ℓ} :
    {A : Type ℓ} (xs : List A) → (xs ≡ []) ⊎ ((a : A) × (rest : List A) × (xs ≡ a ∷ rest))
List-cases [] = inl refl
List-cases (x ∷ xs) = inr (x, xs, refl)

pub length-map {ℓ κ} :
    {A : Type ℓ} {B : Type κ} (f : A → B) (xs : List A) → length (map f xs) ≡ length xs
length-map f [] = refl
length-map f (x ∷ xs) = omega (arith, length-map f xs)

-- Every row satisfies `P`.
abbrev pub All {ℓ κ} : {A : Type ℓ} → (A → Type κ) → List A → Type κ
All P [] = Unit
All P (x ∷ xs) = P x × All P xs

module _ {ℓ κ} {A : Type ℓ} (P : A → Type κ) where
  pub All-take : (n : ℕ) (xs : List A) → All P xs → All P (take n xs)
  All-take zero xs h = tt
  All-take (suc n) [] h = tt
  All-take (suc n) (x ∷ xs) h = (h.0, All-take n xs h.1)

  -- A filter keeps what holds, and adds its test.
  pub All-filter :
      (p : A → Bool) (xs : List A) → All P xs → All (λ x. (p x ≡ true) × P x) (filter p xs)
  unfolding filter
  All-filter p [] h = tt
  All-filter p (x ∷ xs) h = elim (Bool-cases (p x)) [
    | inl e ↦ rw e ((e, h.0), All-filter p xs h.1)
    | inr e ↦ rw e (All-filter p xs h.1)
  ]

  pub All-imp {μ} : (Q : A → Type μ) → ((x : A) → P x → Q x) → (xs : List A) → All P xs → All Q xs
  All-imp Q f [] h = tt
  All-imp Q f (x ∷ xs) h = (f x h.0, All-imp Q f xs h.1)

  pub All-map {μ ν} :
      (Q : A → Type μ) (R : A → Type ν)
      → ((x : A) → P x → Q x → R x)
      → (xs : List A) → All P xs
      → All Q xs
      → All R xs
  All-map Q R f [] h k = tt
  All-map Q R f (x ∷ xs) h k = (f x h.0 k.0, All-map Q R f xs h.1 k.1)

module _ {ℓ} {A : Type ℓ} (P : A → Type ℓ) where
  pub All-append : (xs ys : List A) → All P xs → All P ys → All P (xs ++ ys)
  All-append [] ys hx hy = hy
  All-append (x ∷ xs) ys hx hy = (hx.0, All-append xs ys hx.1 hy)

-- Row by row the new table is related to the old one, and it may have more rows at the end.
abbrev pub Grows {ℓ} : {A : Type ℓ} → (A → A → Type 0) → List A → List A → Type 0
Grows R [] ys = Unit
Grows R (x ∷ xs) [] = ⊥
Grows R (x ∷ xs) (y ∷ ys) = R x y × Grows R xs ys

module _ {ℓ} {A : Type ℓ} (R : A → A → Type 0) (same : (a : A) → R a a) where
  pub Grows-refl : (xs : List A) → Grows R xs xs
  Grows-refl [] = tt
  Grows-refl (x ∷ xs) = (same x, Grows-refl xs)

  pub Grows-append : (xs ys : List A) → Grows R xs (xs ++ ys)
  Grows-append [] ys = tt
  Grows-append (x ∷ xs) ys = (same x, Grows-append xs ys)

module _ {ℓ} {A : Type ℓ} (R : A → A → Type 0) where
  pub Grows-map : (f : A → A) → ((a : A) → R a (f a)) → (xs : List A) → Grows R xs (map f xs)
  Grows-map f step [] = tt
  Grows-map f step (x ∷ xs) = (step x, Grows-map f step xs)

  pub Grows-trans :
      ((a b c : A) → R a b → R b c → R a c)
      → (xs ys zs : List A) → Grows R xs ys
      → Grows R ys zs
      → Grows R xs zs
  Grows-trans chain [] ys zs h k = tt
  Grows-trans chain (x ∷ xs) [] zs h k = absurd h
  Grows-trans chain (x ∷ xs) (y ∷ ys) [] h k = absurd k
  Grows-trans chain (x ∷ xs) (y ∷ ys) (z ∷ zs) h k =
      (chain x y z h.0 k.0, Grows-trans chain xs ys zs h.1 k.1)

module _ {ℓ} {A : Type ℓ} (R : A → A → Type 0) (p : A → Bool) where
  -- A row that is found by what never changes is found again, further on in its life.
  pub find-Grows :
      ((x y : A) → R x y → p y ≡ p x)
      → (xs ys : List A) {a : A} → Grows R xs ys
      → find p xs ≡ some a
      → (b : A) × (find p ys ≡ some b) × R a b
  unfolding find
  find-Grows keeps [] ys g h = absurd (none_ne_some h)
    where
      none_ne_some : {a : A} → none ≡ some a → ⊥
      none_ne_some e = cc
  find-Grows keeps (x ∷ xs) [] g h = absurd g
  find-Grows keeps (x ∷ xs) (y ∷ ys) {a} g h = elim (Bool-cases (p x)) [
    | inl e ↦
        let first : some x ≡ some a = rw e at h in
        (y, rw (keeps x y g.0 ∙ e), subst (λ v. R v y) (some_inj first) g.0)
    | inr e ↦
        let later : find p xs ≡ some a = rw e at h in
        let (b, found, r) = find-Grows keeps xs ys g.1 later in (b, rw (keeps x y g.0 ∙ e) found, r)
  ]
    where
      some_inj : {u v : A} → some u ≡ some v → u ≡ v
      some_inj e = cc

-- A table that only had rows added begins with the old rows.
pub Grows-append_only :
    {A : Type 0} (xs ys : List A) → Grows ◌≡◌ xs ys → (new : List A) × (ys ≡ xs ++ new)
Grows-append_only [] ys g = (ys, refl)
Grows-append_only (x ∷ xs) [] g = absurd g
Grows-append_only (x ∷ xs) (y ∷ ys) g =
    let (new, e) = Grows-append_only xs ys g.1 in (new, cc (g.0, e))
