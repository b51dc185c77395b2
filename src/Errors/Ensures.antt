-- ===== src/Errors/Ensures.antt =====
-- Facts on the value of a result, through the chain that computes it.
use ai_compliance_orquestrat.Errors.{Result, ok, ◌>>=◌, Error, err, or_raise, ok_inj}
use ai_compliance_orquestrat.Prelude.{Option, ◌≡◌, some, subst, none, refl}

-- If the result is a value, it satisfies `P`.
pub data Ensures {ℓ} {A : Type ℓ} (P : A → Type 0) : Result A → Type ℓ where
  returns : (a : A) → P a → Ensures P (ok a)
  raises : (e : Error) → Ensures P (err e)

module _ {ℓ} {A : Type ℓ} (P : A → Type 0) where
  pub Ensures-bind {κ} :
      {B : Type κ} (Q : B → Type 0) (m : Result B) (f : B → Result A)
      → Ensures Q m
      → ((b : B) → Q b → Ensures P (f b))
      → Ensures P (m >>= f)
  Ensures-bind Q m f (returns b q) k = k b q
  Ensures-bind Q m f (raises e) k = raises e

  -- a part of which nothing need be known
  pub Ensures-after {κ} :
      {B : Type κ} (m : Result B) (f : B → Result A)
      → ((b : B) → Ensures P (f b))
      → Ensures P (m >>= f)
  Ensures-after (ok b) f k = k b
  Ensures-after (err e) f k = raises e

  pub Ensures-or_raise :
      (o : Option A) (e : Error) → ((a : A) → o ≡ some a → P a) → Ensures P (or_raise o e)
  Ensures-or_raise none e k = raises e
  Ensures-or_raise (some a) e k = returns a (k a refl)

  pub Ensures_ok : {r : Result A} → Ensures P r → (a : A) → r ≡ ok a → P a
  Ensures_ok (returns b h) a e = subst P (ok_inj e) h
  Ensures_ok (raises e) a h = absurd (err_ne_ok h)
    where
      err_ne_ok : {x : A} → err e ≡ ok x → ⊥
      err_ne_ok bad = cc

pub Ensures-itself : {A : Type 0} (m : Result A) → Ensures (λ a. m ≡ ok a) m
Ensures-itself (ok a) = returns a refl
Ensures-itself (err e) = raises e
