-- ===== src/Http/Reads.antt =====
-- The requests that read, and those that are refused, leave the tables as they are.
use ai_compliance_orquestrat.Settings.{Settings}
use ai_compliance_orquestrat.Api.Readers.{Pydantic}
use ai_compliance_orquestrat.Http.{
  Request, post_event, route, serve, post_cancel_outreach, post_delivery_result, get_one_task,
  get_tasks, get_audit, get_healthz,
}
use ai_compliance_orquestrat.World.{World}
use ai_compliance_orquestrat.Http.Serves.{Serves, Serves-bind, Serves-pure, Serves-lift}
use ai_compliance_orquestrat.Http.Refined.{
  middleware-Serves, get_task-Serves, list_tasks-Serves, list_audit_events-Serves,
  respond_with-Serves, respond_with_all-Serves,
}
use ai_compliance_orquestrat.System.Runs.{Runs-NoWork, NoWork}
use ai_compliance_orquestrat.System.{Server, responding}
use ai_compliance_orquestrat.Prelude.{String, Option, ◌≡◌, ap, ◌∙◌}

abbrev pub IsRead : Request → Type 0
IsRead (post_event race body) = ⊥
IsRead (post_cancel_outreach account body) = ⊥
IsRead (post_delivery_result meanwhile task_id body) = ⊥
IsRead _ = Unit

module _ ⦃w : World⦄ ⦃p : Pydantic⦄ where
  read-Serves :
      (settings : Settings) (r : Request) (cid : String)
      → IsRead r
      → Serves NoWork (route settings r cid)
  unfolding route
  read-Serves settings (post_event race body) cid h = absurd h
  read-Serves settings (post_cancel_outreach account body) cid h = absurd h
  read-Serves settings (post_delivery_result meanwhile task_id body) cid h = absurd h
  read-Serves settings (get_one_task task_id) cid h = Serves-bind _ _ (Serves-lift _) λ id.
      Serves-bind _ _ (get_task-Serves id)
        λ task. Serves-bind _ _ (respond_with-Serves task) λ r. Serves-pure _
  read-Serves settings (get_tasks filters limit) cid h =
      Serves-bind _ _ (list_tasks-Serves filters limit)
        λ found. Serves-bind _ _ (respond_with_all-Serves found) λ r. Serves-pure _
  read-Serves settings (get_audit correlation) cid h =
      Serves-bind _ _ (list_audit_events-Serves correlation) λ found. Serves-pure _
  read-Serves settings get_healthz cid h = Serves-pure _

  unchanged_if :
      (settings : Settings) (header : Option String) (r : Request) (s : Server)
      → ((cid : String) → Serves NoWork (route settings r cid))
      → (serve settings header r s).1.database ≡ s.database
  unfolding serve responding
  unchanged_if settings header r s k =
      let (t, e, h) = (middleware-Serves header (route settings r) k).to s in
      ap (λ z. z.committed) e ∙ Runs-NoWork h

  -- The GET requests leave the tables as they are, whatever their header and their outcome.
  pub serve-reads :
      (settings : Settings) (header : Option String) (r : Request) (s : Server)
      → IsRead r
      → (serve settings header r s).1.database ≡ s.database
  serve-reads settings header r s h =
      unchanged_if settings header r s λ cid. read-Serves settings r cid h
