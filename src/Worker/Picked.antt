-- ===== src/Worker/Picked.antt =====
-- The tasks that a pass of `dispatch_due_tasks` picks: they are due, and each is the only one of its
-- id as long as it has not been sent.
use ai_compliance_orquestrat.World.{World}
use ai_compliance_orquestrat.Models.{OutreachTask}
use ai_compliance_orquestrat.Tables.{update_rows}
use ai_compliance_orquestrat.Tables.OneRow.{IsOnly, IsOnly-update, count_zero-All}
use ai_compliance_orquestrat.Worker.{Dispatch, claims_before, is_due}
use ai_compliance_orquestrat.Worker.Delivers.{deliver_task, has_id}
use ai_compliance_orquestrat.Prelude.{
  String, List, All, All-filter, All-map, All-order_by, All-take, true, false, ◌≡◌, ◌≤◌, ◌==◌, ◌∷◌,
  [], count, count-filter-le, count-order_by, count-take-le, filter, find, is_some, map, order_by,
  take, refl, arith, ap, if◌then◌else◌, eq_iff, inl, inr, Bool-cases, sym, subst, All-imp,
}

-- what a pass over these ids makes of a task
abbrev pub sent_by : List String → OutreachTask → OutreachTask
sent_by ids t = if is_some (find (λ id. t.id == id) ids) then deliver_task t else t

-- No two tasks of a list share an id.
abbrev pub AreApart : List OutreachTask → Type 0
AreApart [] = Unit
AreApart (u ∷ us) = (count (has_id u.id) us ≡ 0) × AreApart us

count_ids_tail :
    (x : OutreachTask) (us : List OutreachTask)
    → ((id : String) → count (has_id id) (x ∷ us) ≤ 1)
    → (id : String) → count (has_id id) us ≤ 1
unfolding count
count_ids_tail x us h id = ground (arith, h id)

count_ids_head :
    (x : OutreachTask) (us : List OutreachTask)
    → ((id : String) → count (has_id id) (x ∷ us) ≤ 1)
    → count (has_id x.id) us ≡ 0
unfolding count
count_ids_head x us h = ground (arith, h x.id, eq_iff x.id x.id)

pub ids-AreApart :
    (us : List OutreachTask) → ((id : String) → count (has_id id) us ≤ 1) → AreApart us
ids-AreApart [] h = tt
ids-AreApart (u ∷ us) h = (count_ids_head u us h, ids-AreApart us (count_ids_tail u us h))

-- The others have another id, from either side.
pub others_differ :
    (id : String) (us : List OutreachTask)
    → count (has_id id) us ≡ 0
    → All (λ u. ((u.id == id) ≡ false) × ((id == u.id) ≡ false)) us
others_differ id us h =
    All-imp _ _ (λ u e. (e, ground (arith, eq_iff u.id id, eq_iff id u.id))) us
      (count_zero-All (has_id id) us h)

-- Where ids are unique every row is the only one of its id.
rows-IsOnly :
    (rows : List OutreachTask)
    → ((id : String) → count (has_id id) rows ≤ 1)
    → All (λ u. IsOnly (has_id u.id) u rows) rows
rows-IsOnly [] h = tt
rows-IsOnly (x ∷ xs) h =
    let alone = count_ids_head x xs h in
    (
      inl (refl, (eq_iff x.id x.id).1 refl, alone),
      All-map _ _ _ (λ u only differs. inr (differs.1, only)) xs
          (rows-IsOnly xs (count_ids_tail x xs h)) (others_differ x.id xs alone),
    )

sent_by-one :
    (x : OutreachTask) (ids : List String) (r : OutreachTask)
    → is_some (find (λ k. x.id == k) ids) ≡ false
    → sent_by ids (if has_id x.id r then deliver_task r else r) ≡ sent_by (x.id ∷ ids) r
unfolding find
sent_by-one x ids r h = elim (Bool-cases (r.id == x.id)) [
  | inl e ↦
      let none_left : is_some (find (λ k. r.id == k) ids) ≡ false =
        subst (λ v. is_some (find (λ k. v == k) ids) ≡ false) (sym ((eq_iff r.id x.id).0 e)) h in
      rw (e, none_left) refl
  | inr e ↦ rw (e) refl
]

pub sent_by_no_ids : (rows : List OutreachTask) → rows ≡ map (sent_by []) rows
unfolding find
sent_by_no_ids [] = refl
sent_by_no_ids (r ∷ rs) = ap (λ l. r ∷ l) (sent_by_no_ids rs)

-- One task sent first, then the others, as one change of the rows.
pub sent_by-cons :
    (x : OutreachTask) (ids : List String) (rows : List OutreachTask)
    → is_some (find (λ k. x.id == k) ids) ≡ false
    → map (sent_by ids) (update_rows (has_id x.id) deliver_task rows)
      ≡ map (sent_by (x.id ∷ ids)) rows
sent_by-cons x ids [] h = refl
sent_by-cons x ids (r ∷ rs) h = rw (sent_by-one x ids r h, sent_by-cons x ids rs h) refl

pub find_ids-none :
    (id : String) (us : List OutreachTask)
    → count (has_id id) us ≡ 0
    → is_some (find (λ k. id == k) (map (λ u. u.id) us)) ≡ false
unfolding count find
find_ids-none id [] h = refl
find_ids-none id (u ∷ us) h = ground (arith, eq_iff u.id id, eq_iff id u.id, find_ids-none id us)

module _ ⦃w : World⦄ (p : Dispatch) where
  -- A task that a pass can still pick from these rows.
  abbrev pub IsReady : List OutreachTask → OutreachTask → Type 0
  IsReady rows u = (is_due p.now u ≡ true) × IsOnly (has_id u.id) u rows

  pub IsReady-after :
      (x u : OutreachTask) (rows : List OutreachTask)
      → IsReady rows u
      → ((u.id == x.id) ≡ false) × ((x.id == u.id) ≡ false)
      → IsReady (update_rows (has_id x.id) deliver_task rows) u
  IsReady-after x u rows h differs = (
    h.0,
    subst (λ v. IsOnly (has_id u.id) v (update_rows (has_id x.id) deliver_task rows))
        (rw differs.0 refl)
        (IsOnly-update (has_id u.id) (has_id x.id) deliver_task (λ y. refl) rows u h.1),
  )

  pub IsReady-tasks :
      (rows : List OutreachTask)
      → ((id : String) → count (has_id id) rows ≤ 1)
      → All (IsReady rows) (take p.limit (order_by claims_before (filter (is_due p.now) rows)))
  IsReady-tasks rows once = All-take (IsReady rows) p.limit _ (
      All-order_by claims_before (IsReady rows) _
        (All-filter _ (is_due p.now) rows (rows-IsOnly rows once)))

  pub picked_once :
      (rows : List OutreachTask)
      → ((id : String) → count (has_id id) rows ≤ 1)
      → (id : String)
      → count (has_id id) (take p.limit (order_by claims_before (filter (is_due p.now) rows))) ≤ 1
  picked_once rows once id =
      let found = filter (is_due p.now) rows in
      omega (
        arith,
        once id,
        count-filter-le (has_id id) (is_due p.now) rows,
        count-order_by claims_before (has_id id) found,
        count-take-le (has_id id) p.limit (order_by claims_before found),
      )
