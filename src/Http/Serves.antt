-- ===== src/Http/Serves.antt =====
-- The rules by which code that serves a request moves the service from state to state.
use ai_compliance_orquestrat.Models.{Database}
use ai_compliance_orquestrat.World.{World}
use ai_compliance_orquestrat.Http.{Reply, attempt}
use ai_compliance_orquestrat.System.Runs.{Runs, stays, reads, works, Runs-trans}
use ai_compliance_orquestrat.System.{Server, Work, perform, in_session, responding}
use ai_compliance_orquestrat.Session.{
  Session, Action, ◌>>=◌, pure, lift, gets, reading, close, continue,
}
use ai_compliance_orquestrat.Errors.{Result, ok, err}
use ai_compliance_orquestrat.Prelude.{◌≡◌, refl, ℕ, ◌+◌, ap, ◌∙◌, sym}

-- the session that a request opens on the service's tables
abbrev pub fresh : Server → Session
fresh s = record { db = s.database; committed = s.database; tick = s.tick }

-- Run in a fresh session, the code leaves one that is fresh for a state that the service can reach.
pub record Serves {ℓ} ⦃w : World⦄ (P : Work → Type 0) {A : Type ℓ} (m : Action A) : Type 0 where
  pub to : (s : Server) → (t : Server) × ((m (fresh s)).1 ≡ fresh t) × Runs P s t

module _ ⦃w : World⦄ {P : Work → Type 0} where
  pub Serves-pure {ℓ} : {A : Type ℓ} (a : A) → Serves P (pure a)
  unfolding pure
  Serves-pure a = record { to = λ s. (s, refl, stays) }

  pub Serves-lift {ℓ} : {A : Type ℓ} (r : Result A) → Serves P (lift r)
  unfolding lift
  Serves-lift r = record { to = λ s. (s, refl, stays) }

  pub Serves-gets {ℓ} : {A : Type ℓ} (f : Database → A) → Serves P (gets f)
  unfolding gets
  Serves-gets f = record { to = λ s. (s, refl, stays) }

  pub Serves-reading {ℓ} : {A : Type ℓ} (f : ℕ → A) → Serves P (reading f)
  unfolding reading
  Serves-reading f = record { to = λ s. (record s { tick = s.tick + 1 }, refl, reads stays) }

  continue_from {ℓ κ} :
      {A : Type ℓ} {B : Type κ} (f : A → Action B)
      → ((a : A) → Serves P (f a))
      → (s t : Server) (x : Result A × Session) → x.1 ≡ fresh t
      → Runs P s t
      → (u : Server) × ((continue x.0 f x.1).1 ≡ fresh u) × Runs P s u
  continue_from f kf s t (ok a, s') e h =
      let (u, e', h') = (kf a).to t in (u, ap (λ z. (f a z).1) e ∙ e', Runs-trans h h')
  continue_from f kf s t (err x, s') e h = (t, e, h)

  pub Serves-bind {ℓ κ} :
      {A : Type ℓ} {B : Type κ} (m : Action A) (f : A → Action B)
      → Serves P m
      → ((a : A) → Serves P (f a))
      → Serves P (m >>= f)
  unfolding ◌>>=◌
  Serves-bind m f km kf = record {
    to = λ s. let (t, e, h) = km.to s in continue_from f kf s t (m (fresh s)) e h;
  }

  pub Serves-closed {ℓ} : {A : Type ℓ} (m : Action A) → Serves P m → Serves P (close m)
  unfolding close
  Serves-closed m km = record {
    to = λ s.
        let (t, e, h) = km.to s in
        (t, ap {A = Session} {B = Session} (λ z. record z { db = z.committed }) e, h);
  }

  -- a unit of work ends in a fresh session
  pub Serves-work {ℓ} :
      {A : Type ℓ} (x : Work) (m : Action A)
      → P x
      → ((s : Server) → perform x s ≡ in_session (close m) s)
      → Serves P (close m)
  unfolding close in_session responding
  Serves-work x m fair same = record {
    to = λ s. (perform x s, ap fresh (sym (same s)), works x fair stays);
  }

  pub Serves-attempt : (m : Action Reply) → Serves P m → Serves P (attempt m)
  unfolding attempt
  Serves-attempt m km = record { to = km.to }

pub ruleset serves_rules = (
  Serves-bind, Serves-pure, Serves-lift, Serves-gets, Serves-reading, Serves-closed, Serves-attempt,
)
