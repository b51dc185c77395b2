-- ===== src/Http/Still.antt =====
-- Code of a request that leaves its session as it was.
use ai_compliance_orquestrat.Operational.{get_outreach_task, TaskFilters}
use ai_compliance_orquestrat.Api.{get_task, list_tasks, list_audit_events}
use ai_compliance_orquestrat.Api.Responses.{respond_with}
use ai_compliance_orquestrat.Models.{Database, OutreachTask}
use ai_compliance_orquestrat.Prelude.{◌≡◌, ap, List, String, Option, refl, ◌∙◌, ◌∷◌, ℕ, []}
use ai_compliance_orquestrat.World.{World}
use ai_compliance_orquestrat.Http.Serves.{fresh}
use ai_compliance_orquestrat.System.{Server}
use ai_compliance_orquestrat.Http.{respond_with_all}
use ai_compliance_orquestrat.Session.{Session, Action, ◌>>=◌, pure, lift, gets, close, continue}
use ai_compliance_orquestrat.Errors.{Result, ok, err}

-- Run in a fresh session, the code leaves it as it was.
pub record IsStill {ℓ} {A : Type ℓ} (m : Action A) : Type 0 where
  pub at : (s : Server) → (m (fresh s)).1 ≡ fresh s

module _ {ℓ} {A : Type ℓ} where
  pub pure-IsStill : (a : A) → IsStill (pure a)
  unfolding pure
  pure-IsStill a = record { at = λ s. refl }

  pub lift-IsStill : (r : Result A) → IsStill (lift r)
  unfolding lift
  lift-IsStill r = record { at = λ s. refl }

  pub gets-IsStill : (f : Database → A) → IsStill (gets f)
  unfolding gets
  gets-IsStill f = record { at = λ s. refl }

  pub close-IsStill : (m : Action A) → IsStill m → IsStill (close m)
  unfolding close
  close-IsStill m k = record {
    at = λ s. ap {A = Session} {B = Session} (λ z. record z { db = z.committed }) (k.at s);
  }

module _ {ℓ κ} {A : Type ℓ} {B : Type κ} (f : A → Action B) (k : (a : A) → IsStill (f a)) where
  pub continue_still :
      (t : Server) (r : Result A) (z : Session) → z ≡ fresh t → (continue r f z).1 ≡ fresh t
  continue_still t (ok a) z e = ap (λ y. (f a y).1) e ∙ (k a).at t
  continue_still t (err x) z e = e

  -- Code that ends with such code leaves what its first part leaves.
  pub bind_still :
      (m : Action A) (s t : Server) → (m (fresh s)).1 ≡ fresh t → ((m >>= f) (fresh s)).1 ≡ fresh t
  unfolding ◌>>=◌
  bind_still m s t e = continue_still t (m (fresh s)).0 (m (fresh s)).1 e

  pub bind-IsStill : (m : Action A) → IsStill m → IsStill (m >>= f)
  bind-IsStill m h = record { at = λ s. bind_still m s s (h.at s) }

pub respond_with-IsStill : (t : OutreachTask) → IsStill (respond_with t)
unfolding respond_with
respond_with-IsStill t =
    bind-IsStill _
      (λ a.
        bind-IsStill _
          (λ b.
            bind-IsStill _
              (λ c.
                bind-IsStill _ (λ d. bind-IsStill _ (λ e. pure-IsStill _) _ (gets-IsStill _)) _
                  (lift-IsStill _))
              _ (gets-IsStill _))
          _ (lift-IsStill _))
      _ (gets-IsStill _)

pub respond_with_all-IsStill : (ts : List OutreachTask) → IsStill (respond_with_all ts)
unfolding respond_with_all
respond_with_all-IsStill [] = pure-IsStill _
respond_with_all-IsStill (t ∷ rest) =
    bind-IsStill _ (λ r. bind-IsStill _ (λ rs. pure-IsStill _) _ (respond_with_all-IsStill rest)) _
      (respond_with-IsStill t)

module _ ⦃w : World⦄ where
  pub get_task-IsStill : (id : String) → IsStill (get_task id)
  unfolding get_task get_outreach_task
  get_task-IsStill id =
      close-IsStill _ (bind-IsStill _ (λ found. lift-IsStill _) _ (gets-IsStill _))

  pub list_tasks-IsStill : (filters : TaskFilters) (limit : ℕ) → IsStill (list_tasks filters limit)
  unfolding list_tasks
  list_tasks-IsStill filters limit =
      close-IsStill _ (bind-IsStill _ (λ checked. gets-IsStill _) _ (lift-IsStill _))

  pub list_audit_events-IsStill : (id : Option String) → IsStill (list_audit_events id)
  unfolding list_audit_events
  list_audit_events-IsStill id = close-IsStill _ (gets-IsStill _)
