-- ===== src/Planner/Makes.antt =====
-- What the planner's work adds to the decisions and the tasks of the open transaction, with one
-- rule for each way to build an action.
use mathlib.Core.List.{append-nil, append_assoc}
use ai_compliance_orquestrat.Json.{Fields}
use ai_compliance_orquestrat.World.{World}
use ai_compliance_orquestrat.Errors.{ok, Result, err, ok_inj}
use ai_compliance_orquestrat.AuditLog.{append_audit_event}
use ai_compliance_orquestrat.Models.{PolicyDecision, Database, OutreachTask, InboundEvent}
use ai_compliance_orquestrat.Planner.Effects.{audit}
use ai_compliance_orquestrat.Tables.{add_outreach_task, add_policy_decision, add_audit_event}
use ai_compliance_orquestrat.Session.{
  Action, gets, reading, Session, modify, ◌>>=◌, pure, lift, continue,
}
use ai_compliance_orquestrat.Prelude.{
  List, ℕ, ◌≡◌, ◌++◌, refl, ◌∙◌, [], ◌∷◌, sym, ap, String, subst,
}

-- The tables from `d` to `e` got the decisions `ds` and the tasks `ts` at their ends, related to
-- the value `a` by `R`.
abbrev pub Added {ℓ} :
    {A : Type ℓ}
    → (List PolicyDecision → List OutreachTask → A → Type 0)
    → Database
    → Database
    → A
    → Type 0
Added R d e a =
    (ds : List PolicyDecision) × (ts : List OutreachTask) × (e.policy_decisions
      ≡ d.policy_decisions ++ ds)
    × (e.outreach_tasks ≡ d.outreach_tasks ++ ts)
    × R ds ts a

-- Whenever the action returns, it has added what `R` says.
pub record Makes {ℓ} {A : Type ℓ} (R : List PolicyDecision → List OutreachTask → A → Type 0)
    (m : Action A) : Type ℓ where
  pub at : (s : Session) (a : A) → (m s).0 ≡ ok a → Added R s.db (m s).1.db a

-- The action adds no decision and no task, however it ends.
pub record Quiet {ℓ} {A : Type ℓ} (m : Action A) : Type 0 where
  pub at :
      (s : Session)
      → ((m s).1.db.policy_decisions ≡ s.db.policy_decisions)
        × ((m s).1.db.outreach_tasks ≡ s.db.outreach_tasks)

module _ {ℓ} {A : Type ℓ} where
  pub Quiet-gets : (f : Database → A) → Quiet (gets f)
  unfolding gets
  Quiet-gets f = record { at = λ s. (refl, refl) }

  pub Quiet-reading : (f : ℕ → A) → Quiet (reading f)
  unfolding reading
  Quiet-reading f = record { at = λ s. (refl, refl) }

module _ {ℓ} {A : Type ℓ} (R : List PolicyDecision → List OutreachTask → A → Type 0) where
  pub Makes-pure : (a : A) → R [] [] a → Makes R (pure a)
  unfolding pure
  Makes-pure a h = record {
    at = λ s b e. ([], [], sym (append-nil _), sym (append-nil _), subst (R [] []) (ok_inj e) h);
  }

  Makes-continue {κ} :
      {B : Type κ} (r : Result B) (f : B → Action A)
      → ((b : B) → r ≡ ok b → Makes R (f b))
      → Makes R (continue r f)
  Makes-continue (ok b) f k = k b refl
  Makes-continue (err e) f k = record { at = λ s a h. absurd (err_ne_ok h) }
    where
      err_ne_ok : {a : A} → err e ≡ ok a → ⊥
      err_ne_ok h = cc

  pub Makes-lift {κ} :
      {B : Type κ} (r : Result B) (f : B → Action A)
      → ((b : B) → r ≡ ok b → Makes R (f b))
      → Makes R (lift r >>= f)
  unfolding lift ◌>>=◌
  Makes-lift r f k = record { at = λ s a h. (Makes-continue r f k).at s a h }

  -- work that adds nothing comes first
  pub Makes-after {κ} :
      {B : Type κ} (m : Action B) (f : B → Action A)
      → Quiet m
      → ((b : B) → Makes R (f b))
      → Makes R (m >>= f)
  unfolding ◌>>=◌
  Makes-after m f q k = record {
    at = λ s a h.
        let (ds, ts, decisions, tasks, r) =
          (Makes-continue (m s).0 f (λ b _. k b)).at (m s).1 a h in
        (ds, ts, decisions ∙ ap (λ l. l ++ ds) (q.at s).0, tasks ∙ ap (λ l. l ++ ts) (q.at s).1, r);
  }

module _ {ℓ κ} {A : Type ℓ} {B : Type κ} (Q : List PolicyDecision → List OutreachTask → B → Type 0)
    (R : List PolicyDecision → List OutreachTask → A → Type 0) where
  Added-continue :
      (r : Result B) (f : B → Action A) (d : Database) (s : Session) (a : A)
      → ((b : B) → r ≡ ok b → Added Q d s.db b)
      → ((b : B) (ds : List PolicyDecision) (ts : List OutreachTask)
          → Q ds ts b
          → Makes (λ ds' ts' x. R (ds ++ ds') (ts ++ ts') x) (f b))
      → (continue r f s).0 ≡ ok a
      → Added R d (continue r f s).1.db a
  Added-continue (ok b) f d s a first k h =
      let (ds, ts, decisions, tasks, q) = first b refl in
      let (ds', ts', decisions', tasks', r) = (k b ds ts q).at s a h in
      (
        ds ++ ds',
        ts ++ ts',
        decisions' ∙ ap (λ l. l ++ ds') decisions ∙ append_assoc _ ds ds',
        tasks' ∙ ap (λ l. l ++ ts') tasks ∙ append_assoc _ ts ts',
        r,
      )
  Added-continue (err e) f d s a first k h = absurd (err_ne_ok h)
    where
      err_ne_ok : err e ≡ ok a → ⊥
      err_ne_ok h = cc

  -- what the two parts add stands in their order
  pub Makes-bind :
      (m : Action B) (f : B → Action A)
      → Makes Q m
      → ((b : B) (ds : List PolicyDecision) (ts : List OutreachTask)
          → Q ds ts b
          → Makes (λ ds' ts' x. R (ds ++ ds') (ts ++ ts') x) (f b))
      → Makes R (m >>= f)
  unfolding ◌>>=◌
  Makes-bind m f q k = record {
    at = λ s a h. Added-continue (m s).0 f s.db (m s).1 a (λ b e. q.at s b e) k h;
  }

pub Makes-weaken {ℓ} :
    {A : Type ℓ} (Q R : List PolicyDecision → List OutreachTask → A → Type 0) (m : Action A)
    → ((ds : List PolicyDecision) (ts : List OutreachTask) (a : A) → Q ds ts a → R ds ts a)
    → Makes Q m
    → Makes R m
Makes-weaken Q R m k q = record {
  at = λ s a h. let (ds, ts, e, e', x) = q.at s a h in (ds, ts, e, e', k ds ts a x);
}

pub add_outreach_task-Makes :
    (row : OutreachTask) → Makes (λ ds ts _. (ds ≡ []) × (ts ≡ row ∷ [])) (add_outreach_task row)
unfolding add_outreach_task modify
add_outreach_task-Makes row = record {
  at = λ s a h. ([], row ∷ [], sym (append-nil _), refl, (refl, refl));
}

pub add_policy_decision-Makes :
    (row : PolicyDecision)
    → Makes (λ ds ts _. (ds ≡ row ∷ []) × (ts ≡ [])) (add_policy_decision row)
unfolding add_policy_decision modify
add_policy_decision-Makes row = record {
  at = λ s a h. (row ∷ [], [], refl, sym (append-nil _), (refl, refl));
}

pub audit-Quiet :
    ⦃w : World⦄ (event : InboundEvent) (correlation_id event_type entity_type entity_id : String)
    (payload : Fields)
    → Quiet (audit event correlation_id event_type entity_type entity_id payload)
unfolding audit append_audit_event ◌>>=◌ reading add_audit_event modify
audit-Quiet event correlation_id event_type entity_type entity_id payload = record {
  at = λ s. (refl, refl);
}
