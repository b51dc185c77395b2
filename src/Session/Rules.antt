-- ===== src/Session/Rules.antt =====
-- Two promises of an action, with one rule for each way to build an action: `Extends`, for work
-- inside the caller's transaction, and `Advances`, for work that commits or rolls back.
use ai_compliance_orquestrat.Models.{Database}
use ai_compliance_orquestrat.Errors.{Result, Error, ok, err, ok_inj}
use ai_compliance_orquestrat.Evolution.{Evolves-refl, Evolves, Evolves-trans}
use ai_compliance_orquestrat.Prelude.{Bool, ℕ, if◌then◌else◌, ◌≡◌, true, ◌∙◌, refl, false, subst}
use ai_compliance_orquestrat.Session.{
  ◌>>=◌, modify, Action, Session, pure, raise, lift, gets, reading, close, commit, rollback,
  continue, ◌>>◌,
}

-- The tables evolve and nothing becomes durable.
pub record Extends {ℓ} {A : Type ℓ} (m : Action A) : Type 0 where
  pub at : (s : Session) → Evolves s.db (m s).1.db × ((m s).1.committed ≡ s.committed)

-- The same at one session, for work whose guard has been passed there.
abbrev pub ExtendsAt {ℓ} : {A : Type ℓ} → Action A → Session → Type 0
ExtendsAt m s = Evolves s.db (m s).1.db × ((m s).1.committed ≡ s.committed)

-- What is durable evolves, and the open transaction goes on from it.
pub record Advances {ℓ} {A : Type ℓ} (m : Action A) : Type 0 where
  pub at :
      (s : Session)
      → Evolves s.committed s.db
      → Evolves s.committed (m s).1.committed × Evolves (m s).1.committed (m s).1.db

module _ {ℓ} {A : Type ℓ} where
  pub Extends-pure : (a : A) → Extends (pure a)
  unfolding pure
  Extends-pure a = record { at = λ s. (Evolves-refl s.db, refl) }

  pub Extends-raise : (e : Error) → Extends (raise {A = A} e)
  unfolding raise
  Extends-raise e = record { at = λ s. (Evolves-refl s.db, refl) }

  pub Extends-lift : (r : Result A) → Extends (lift r)
  unfolding lift
  Extends-lift r = record { at = λ s. (Evolves-refl s.db, refl) }

  pub Extends-gets : (f : Database → A) → Extends (gets f)
  unfolding gets
  Extends-gets f = record { at = λ s. (Evolves-refl s.db, refl) }

  pub Extends-reading : (f : ℕ → A) → Extends (reading f)
  unfolding reading
  Extends-reading f = record { at = λ s. (Evolves-refl s.db, refl) }

  pub Extends-if :
      (b : Bool) (m n : Action A) → Extends m → Extends n → Extends (if b then m else n)
  Extends-if true m n km kn = km
  Extends-if false m n km kn = kn

  -- Work inside the transaction is work.
  pub Advances-Extends : (m : Action A) → Extends m → Advances m
  Advances-Extends m k = record {
    at = λ s h.
        (rw (k.at s).1 (Evolves-refl s.committed), rw (k.at s).1 (Evolves-trans h (k.at s).0));
  }

  pub Advances-if :
      (b : Bool) (m n : Action A) → Advances m → Advances n → Advances (if b then m else n)
  Advances-if true m n km kn = km
  Advances-if false m n km kn = kn

  pub Advances-close : (m : Action A) → Advances m → Advances (close m)
  unfolding close
  Advances-close m k = record { at = λ s h. ((k.at s h).0, Evolves-refl (m s).1.committed) }

pub Extends-modify :
    (f : Database → Database) → ((d : Database) → Evolves d (f d)) → Extends (modify f)
unfolding modify
Extends-modify f grows = record { at = λ s. (grows s.db, refl) }

pub Advances-commit : Advances commit
unfolding commit
Advances-commit = record { at = λ s h. (h, Evolves-refl s.db) }

pub Advances-rollback : Advances rollback
unfolding rollback
Advances-rollback = record { at = λ s h. (Evolves-refl s.committed, Evolves-refl s.committed) }

module _ {ℓ κ} {A : Type ℓ} {B : Type κ} where
  Extends-continue :
      (r : Result A) (f : A → Action B) → ((a : A) → Extends (f a)) → Extends (continue r f)
  Extends-continue (ok a) f k = k a
  Extends-continue (err e) f k = record { at = λ s. (Evolves-refl s.db, refl) }

  Advances-continue :
      (r : Result A) (f : A → Action B) → ((a : A) → Advances (f a)) → Advances (continue r f)
  Advances-continue (ok a) f k = k a
  Advances-continue (err e) f k = record { at = λ s h. (Evolves-refl s.committed, h) }

  pub Extends-bind :
      (m : Action A) (f : A → Action B) → Extends m → ((a : A) → Extends (f a)) → Extends (m >>= f)
  unfolding ◌>>=◌
  Extends-bind m f km kf = record {
    at = λ s.
        let rest = (Extends-continue (m s).0 f kf).at (m s).1 in
        (Evolves-trans (km.at s).0 rest.0, rest.1 ∙ (km.at s).1);
  }

  pub Advances-bind :
      (m : Action A) (f : A → Action B)
      → Advances m
      → ((a : A) → Advances (f a))
      → Advances (m >>= f)
  unfolding ◌>>=◌
  Advances-bind m f km kf = record {
    at = λ s h.
        let first = km.at s h in
        let rest = (Advances-continue (m s).0 f kf).at (m s).1 first.1 in
        (Evolves-trans first.0 rest.0, rest.1);
  }

pub ruleset extends_rules = (
  Extends-pure, Extends-raise, Extends-lift, Extends-gets, Extends-reading, Extends-if,
  Extends-bind,
)

pub ruleset advances_rules = (Advances-if, Advances-bind, Advances-commit, Advances-rollback)

-- Every value that the action returns satisfies `P`.
pub record Yields {ℓ} {A : Type ℓ} (P : A → Type 0) (m : Action A) : Type ℓ where
  pub at : (s : Session) (a : A) → (m s).0 ≡ ok a → P a

module _ {ℓ} {A : Type ℓ} (P : A → Type 0) where
  pub Yields-pure : (a : A) → P a → Yields P (pure a)
  unfolding pure
  Yields-pure a h = record { at = λ s b e. subst P (ok_inj e) h }

  pub Yields-if :
      (b : Bool) (m n : Action A) → Yields P m → Yields P n → Yields P (if b then m else n)
  Yields-if true m n km kn = km
  Yields-if false m n km kn = kn

  Yields-continue {κ} :
      {B : Type κ} (r : Result B) (f : B → Action A)
      → ((b : B) → Yields P (f b))
      → Yields P (continue r f)
  Yields-continue (ok b) f k = k b
  Yields-continue (err e) f k = record { at = λ s a h. absurd (err_ne_ok h) }
    where
      err_ne_ok : {a : A} → err e ≡ ok a → ⊥
      err_ne_ok h = cc

  pub Yields-bind {κ} :
      {B : Type κ} (m : Action B) (f : B → Action A)
      → ((b : B) → Yields P (f b))
      → Yields P (m >>= f)
  unfolding ◌>>=◌
  Yields-bind m f k = record { at = λ s a h. (Yields-continue (m s).0 f k).at (m s).1 a h }

-- Work that raises has made nothing durable.
pub record Atomic {ℓ} {A : Type ℓ} (m : Action A) : Type ℓ where
  pub at : (s : Session) (e : Error) → (m s).0 ≡ err e → (m s).1.committed ≡ s.committed

module _ {ℓ} {A : Type ℓ} where
  pub Atomic-Extends : (m : Action A) → Extends m → Atomic m
  Atomic-Extends m k = record { at = λ s e h. (k.at s).1 }

  pub Atomic-if : (b : Bool) (m n : Action A) → Atomic m → Atomic n → Atomic (if b then m else n)
  Atomic-if true m n km kn = km
  Atomic-if false m n km kn = kn

  -- a commit that is followed by nothing that raises
  pub Atomic-commit-pure : (a : A) → Atomic (commit >> pure a)
  unfolding commit ◌>>=◌
  Atomic-commit-pure a = record { at = λ s e h. absurd (ok_ne_err h) }
    where
      ok_ne_err : {e : Error} → ok a ≡ err e → ⊥
      ok_ne_err h = cc

  Atomic-continue {κ} :
      {B : Type κ} (r : Result B) (f : B → Action A)
      → ((b : B) → Atomic (f b))
      → Atomic (continue r f)
  Atomic-continue (ok b) f k = k b
  Atomic-continue (err e) f k = record { at = λ s e' h. refl }

  pub Atomic-bind {κ} :
      {B : Type κ} (m : Action B) (f : B → Action A)
      → ((s : Session) → (m s).1.committed ≡ s.committed)
      → ((b : B) → Atomic (f b))
      → Atomic (m >>= f)
  unfolding ◌>>=◌
  Atomic-bind m f same k = record {
    at = λ s e h. (Atomic-continue (m s).0 f k).at (m s).1 e h ∙ same s;
  }

module _ {ℓ κ} {A : Type ℓ} {B : Type κ} (P : A → Type 0) (Q : B → Type 0) where
  Yields-continue_with :
      (r : Result B) (f : B → Action A)
      → ((b : B) → r ≡ ok b → Q b)
      → ((b : B) → Q b → Yields P (f b))
      → Yields P (continue r f)
  Yields-continue_with (ok b) f q k = k b (q b refl)
  Yields-continue_with (err e) f q k = record { at = λ s a h. absurd (err_ne_ok h) }
    where
      err_ne_ok : {a : A} → err e ≡ ok a → ⊥
      err_ne_ok h = cc

  -- the rest may use what the first part yields
  pub Yields-bind_with :
      (m : Action B) (f : B → Action A)
      → Yields Q m
      → ((b : B) → Q b → Yields P (f b))
      → Yields P (m >>= f)
  unfolding ◌>>=◌
  Yields-bind_with m f q k = record {
    at = λ s a h. (Yields-continue_with (m s).0 f (λ b e. q.at s b e) k).at (m s).1 a h;
  }
