-- ===== src/System/Loop.antt =====
-- src/orchestrator/workers/dispatch.py: `_run_loop`, on the passes that it makes until it is looked
-- at or killed. Each pass names what other sessions commit while a provider works on a task.
use ai_compliance_orquestrat.World.{World}
use ai_compliance_orquestrat.DateTime.{DateTime, minute}
use ai_compliance_orquestrat.Models.{Database, OutreachTask}
use ai_compliance_orquestrat.Errors.{Result, ok, err, Error}
use ai_compliance_orquestrat.Session.{Action, ◌>>=◌, reading, close}
use ai_compliance_orquestrat.Worker.{Dispatch, dispatch_due_tasks}
use ai_compliance_orquestrat.Worker.Record.{default_adapters}
use ai_compliance_orquestrat.System.{Server, responding, perform, dispatch, in_session}
use ai_compliance_orquestrat.Prelude.{
  ℕ, List, Bool, ◌*◌, ◌∷◌, [], true, false, ◌+◌, ◌≡◌, inr, ◌++◌, refl, inl, ap, ◌⊎◌, ◌∙◌,
}

-- the defaults of `dispatch_due_tasks`
abbrev pub default_pass : (OutreachTask → Database → Database) → DateTime → Dispatch
default_pass meanwhile now = record {
  now = now;
  limit = 10;
  adapters = default_adapters;
  retry_delay = 5 * minute;
  worker_id = "dispatch-worker";
  meanwhile = meanwhile;
}

-- After a pass: an error ends the loop, and so does `once`; else the loop goes on.
unfoldable pub after_pass :
    Bool → Result ℕ → Server → Result (Unit {0}) × Server → Result (Unit {0}) × Server
after_pass once (err e) t loop = (err e, t)
after_pass true (ok attempted) t loop = (ok tt, t)
after_pass false (ok attempted) t loop = loop

module _ ⦃w : World⦄ where
  -- `_aware_now(None)`, then the pass
  unfoldable pub one_pass : (OutreachTask → Database → Database) → Action ℕ
  one_pass meanwhile =
      close (do now ← reading w.utc_now; dispatch_due_tasks (default_pass meanwhile now))

  unfoldable pub run_loop :
      Bool → List (OutreachTask → Database → Database) → Server → Result (Unit {0}) × Server
  unfolding one_pass after_pass
  run_loop once [] s = (ok tt, s)
  run_loop once (meanwhile ∷ rest) s =
      let (r, t) = responding (one_pass meanwhile) s in
      let loop = run_loop once rest t in after_pass once r t loop

  -- The passes that were made, in order: each is a unit of work at the next reading of the clock,
  -- with ten tasks at most, the mocks, and five minutes until a retry.
  abbrev pub passes_made : List (OutreachTask → Database → Database) → Server → Server
  passes_made [] s = s
  passes_made (meanwhile ∷ rest) s = passes_made rest (
      perform
        (dispatch (record {
          now = w.utc_now s.tick;
          limit = 10;
          adapters = default_adapters;
          retry_delay = 5 * minute;
          worker_id = "dispatch-worker";
          meanwhile = meanwhile;
        }))
        (record s { tick = s.tick + 1 }))

  -- the passes that the loop is to make
  abbrev pub passes_wanted :
      Bool → List (OutreachTask → Database → Database) → List (OutreachTask → Database → Database)
  passes_wanted false passes = passes
  passes_wanted true [] = []
  passes_wanted true (meanwhile ∷ rest) = meanwhile ∷ []

  -- The loop made the first ones of the passes it was to make, and all of them unless one raised.
  pub record IsLoopOf (passes : List (OutreachTask → Database → Database)) (s : Server)
      (end : Result (Unit {0}) × Server) : Type 0 where
    pub made : List (OutreachTask → Database → Database)
    pub left : List (OutreachTask → Database → Database)
    pub split : passes ≡ made ++ left
    pub state : end.1 ≡ passes_made made s
    pub result : ((e : Error) × (end.0 ≡ err e)) ⊎ ((end.0 ≡ ok tt) × (left ≡ []))

  one_pass_lem :
      (meanwhile : OutreachTask → Database → Database) (s : Server)
      → (responding (one_pass meanwhile) s).1 ≡ passes_made (meanwhile ∷ []) s
  unfolding one_pass responding perform in_session close reading ◌>>=◌
  one_pass_lem meanwhile s = refl

  after_pass-IsLoopOf :
      (once : Bool) (r : Result ℕ) (meanwhile : OutreachTask → Database → Database)
      (rest : List (OutreachTask → Database → Database)) (s t : Server)
      (loop : Result (Unit {0}) × Server)
      → t ≡ passes_made (meanwhile ∷ []) s
      → IsLoopOf (passes_wanted once rest) t loop
      → IsLoopOf (passes_wanted once (meanwhile ∷ rest)) s (after_pass once r t loop)
  unfolding after_pass
  after_pass-IsLoopOf true (err e) meanwhile rest s t loop here later = record {
    made = meanwhile ∷ [];
    left = [];
    split = refl;
    state = here;
    result = inl (e, refl);
  }
  after_pass-IsLoopOf false (err e) meanwhile rest s t loop here later = record {
    made = meanwhile ∷ [];
    left = rest;
    split = refl;
    state = here;
    result = inl (e, refl);
  }
  after_pass-IsLoopOf true (ok n) meanwhile rest s t loop here later = record {
    made = meanwhile ∷ [];
    left = [];
    split = refl;
    state = here;
    result = inr (refl, refl);
  }
  after_pass-IsLoopOf false (ok n) meanwhile rest s t loop here later = record {
    made = meanwhile ∷ later.made;
    left = later.left;
    split = ap (λ l. meanwhile ∷ l) later.split;
    state = later.state ∙ ap (passes_made later.made) here;
    result = later.result;
  }

  pub run_loop-IsLoopOf :
      (once : Bool) (passes : List (OutreachTask → Database → Database)) (s : Server)
      → IsLoopOf (passes_wanted once passes) s (run_loop once passes s)
  unfolding run_loop
  run_loop-IsLoopOf true [] s = record {
    made = [];
    left = [];
    split = refl;
    state = refl;
    result = inr (refl, refl);
  }
  run_loop-IsLoopOf false [] s = record {
    made = [];
    left = [];
    split = refl;
    state = refl;
    result = inr (refl, refl);
  }
  run_loop-IsLoopOf once (meanwhile ∷ rest) s =
      after_pass-IsLoopOf once (responding (one_pass meanwhile) s).0 meanwhile rest s _ _
        (one_pass_lem meanwhile s) (run_loop-IsLoopOf once rest _)
