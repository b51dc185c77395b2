-- ===== src/Session/Triples.antt =====
-- What an action leaves, from what it finds: one condition before, one after each way to end, and
-- a rule for each way to build an action.
use ai_compliance_orquestrat.Errors.{Result, ok, err}
use ai_compliance_orquestrat.Session.{Session, Action, ◌>>=◌, pure, lift, gets, continue}
use ai_compliance_orquestrat.Models.{Database}
use ai_compliance_orquestrat.Prelude.{Bool, ◌≡◌, if◌then◌else◌, true, false, refl}

-- The condition after: `Q` on a value, `E` on an error.
abbrev pub Ends :
    {A : Type 0} → (A → Session → Type 0) → (Session → Type 0) → Result A → Session → Type 0
Ends Q E (ok a) s = Q a s
Ends Q E (err e) s = E s

pub record Triple {A : Type 0} (P : Session → Type 0) (m : Action A) (Q : A → Session → Type 0)
    (E : Session → Type 0) : Type 0 where
  pub at : (s : Session) → P s → Ends Q E (m s).0 (m s).1

module _ {A : Type 0} (P : Session → Type 0) (E : Session → Type 0) where
  pub Triple-pure : (a : A) → Triple P (pure a) (λ _. P) E
  unfolding pure
  Triple-pure a = record { at = λ s h. h }

  -- A value is known to be the result, whose errors change nothing.
  pub Triple-lift :
      ((s : Session) → P s → E s) → (r : Result A) → Triple P (lift r) (λ a s. P s × (r ≡ ok a)) E
  unfolding lift
  Triple-lift weaker (ok a) = record { at = λ s h. (h, refl) }
  Triple-lift weaker (err e) = record { at = λ s h. weaker s h }

  pub Triple-gets : (f : Database → A) → Triple P (gets f) (λ a s. P s × (f s.db ≡ a)) E
  unfolding gets
  Triple-gets f = record { at = λ s h. (h, refl) }

  -- The same where the value is not needed.
  pub Triple-lift_any : ((s : Session) → P s → E s) → (r : Result A) → Triple P (lift r) (λ _. P) E
  unfolding lift
  Triple-lift_any weaker (ok a) = record { at = λ s h. h }
  Triple-lift_any weaker (err e) = record { at = λ s h. weaker s h }

  pub Triple-gets_any : (f : Database → A) → Triple P (gets f) (λ _. P) E
  unfolding gets
  Triple-gets_any f = record { at = λ s h. h }

  pub Triple-if :
      {Q : A → Session → Type 0} (b : Bool) (m n : Action A)
      → Triple P m Q E
      → Triple P n Q E
      → Triple P (if b then m else n) Q E
  Triple-if true m n hm hn = hm
  Triple-if false m n hm hn = hn

  -- A weaker condition before, a stronger one after.
  pub Triple-weaken :
      {P' : Session → Type 0} {Q Q' : A → Session → Type 0} (m : Action A)
      → ((s : Session) → P s → P' s)
      → ((a : A) (s : Session) → Q' a s → Q a s)
      → Triple P' m Q' E
      → Triple P m Q E
  Triple-weaken {P'} {Q} {Q'} m before after h = record {
    at = λ s k. ends (m s).0 (m s).1 (h.at s (before s k));
  }
    where
      ends : (r : Result A) (s : Session) → Ends Q' E r s → Ends Q E r s
      ends (ok a) s k = after a s k
      ends (err e) s k = k

module _ {A B : Type 0} {E : Session → Type 0} (Q : A → Session → Type 0)
    {R : B → Session → Type 0} where
  Triple-continue :
      (r : Result A) (f : A → Action B)
      → ((a : A) → Triple (Q a) (f a) R E)
      → (s : Session) → Ends Q E r s
      → Ends R E (continue r f s).0 (continue r f s).1
  Triple-continue (ok a) f k s h = (k a).at s h
  Triple-continue (err e) f k s h = h

  pub Triple-bind :
      {P : Session → Type 0} (m : Action A) (f : A → Action B)
      → Triple P m Q E
      → ((a : A) → Triple (Q a) (f a) R E)
      → Triple P (m >>= f) R E
  unfolding ◌>>=◌
  Triple-bind m f h k = record { at = λ s pre. Triple-continue (m s).0 f k (m s).1 (h.at s pre) }

-- A condition that holds however the action ends.
module _ {A : Type 0} {P E : Session → Type 0} (m : Action A) (h : Triple P m (λ _. E) E) where
  pub Triple-always : (s : Session) → P s → E (m s).1
  Triple-always s k = ends (m s).0 (h.at s k)
    where
      ends : (r : Result A) → Ends (λ _. E) E r (m s).1 → E (m s).1
      ends (ok a) e = e
      ends (err x) e = e

-- An error promises nothing.
abbrev pub Anything : Session → Type 0
Anything s = Unit
