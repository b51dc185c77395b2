-- ===== src/Planner/Marked.antt =====
-- The marker of an event: what leaves it, and what finds it.
use ai_compliance_orquestrat.Tables.{add_audit_event}
use ai_compliance_orquestrat.AuditLog.{append_audit_event}
use ai_compliance_orquestrat.World.{World}
use ai_compliance_orquestrat.Models.{InboundEvent, Customer, Account, AuditEvent}
use ai_compliance_orquestrat.Errors.{Result, Error, ok, err}
use ai_compliance_orquestrat.Session.{
  Session, Action, ◌>>=◌, pure, lift, gets, continue, reading, modify,
}
use ai_compliance_orquestrat.Planner.{once, cancel_and_mark}
use ai_compliance_orquestrat.Planner.Effects.{
  processed_marker, has_processed_marker, append_processed_marker, is_marker,
}
use ai_compliance_orquestrat.Planner.PolicyEvent.{PlannerResult, no_effects}
use ai_compliance_orquestrat.Prelude.{
  String, Bool, List, ◌≡◌, refl, true, false, find, ◌++◌, [], ◌∷◌, is_some, arith, eq_iff, sym, ◌∙◌,
  subst, ap,
}

find_last {ℓ} :
    {A : Type ℓ} (p : A → Bool) (xs : List A) (x : A)
    → p x ≡ true
    → is_some (find p (xs ++ x ∷ [])) ≡ true
unfolding find
find_last p [] x h = ground (arith)
find_last p (y ∷ ys) x h = ground (arith, find_last p ys x h)

module _ ⦃w : World⦄ (event : InboundEvent) where
  -- The audit table has the marker of the event.
  pub record IsMarked (s : Session) : Type 0 where
    pub marker : String
    pub named : processed_marker event.event_type ≡ ok marker
    pub present : is_some (find (is_marker marker event) s.db.audit_events) ≡ true

  -- Code that returns has left the marker.
  pub record Marks {ℓ} {A : Type ℓ} (m : Action A) : Type ℓ where
    pub at : (s : Session) (a : A) → (m s).0 ≡ ok a → IsMarked (m s).1

  continue-Marks {ℓ κ} :
      {A : Type ℓ} {B : Type κ} (f : A → Action B)
      → ((a : A) → Marks (f a))
      → (r : Result A) (s : Session) (b : B) → (continue r f s).0 ≡ ok b
      → IsMarked (continue r f s).1
  continue-Marks f k (ok a) s b h = (k a).at s b h
  continue-Marks f k (err e) s b h = absurd (cc)

  pub Marks-after {ℓ κ} :
      {A : Type ℓ} {B : Type κ} (m : Action A) (f : A → Action B)
      → ((a : A) → Marks (f a))
      → Marks (m >>= f)
  unfolding ◌>>=◌
  Marks-after m f k = record { at = λ s b h. continue-Marks f k (m s).0 (m s).1 b h }

  own_marker :
      (marker : String) (row : AuditEvent)
      → row.entity_type ≡ "inbound_event"
      → row.entity_id ≡ event.id
      → row.event_type ≡ marker
      → is_marker marker event row ≡ true
  unfolding is_marker
  own_marker marker row h1 h2 h3 = ground (
    arith,
    eq_iff row.entity_id event.id,
    eq_iff row.event_type marker,
    eq_iff row.entity_type "inbound_event",
  )

  module _ {ℓ} {A : Type ℓ} (correlation_id : String) (a : A) where
    -- the end of a handler: the marker, then its result
    abbrev mark_then : Action A
    mark_then = append_processed_marker event correlation_id >>= λ _. pure a

    mark_then-IsMarked :
        (marker : String) (s : Session)
        → processed_marker event.event_type ≡ ok marker
        → IsMarked (mark_then s).1
    unfolding append_processed_marker ◌>>=◌ lift append_audit_event reading add_audit_event modify
        pure
    mark_then-IsMarked marker s e = record {
      marker = marker;
      named = e;
      present = rw (e) (
          find_last (is_marker marker event) s.db.audit_events _
            (own_marker marker _ refl refl refl));
    }

    mark_then-unnamed :
        (e : Error) (s : Session)
        → processed_marker event.event_type ≡ err e
        → (mark_then s).0 ≡ err e
    unfolding append_processed_marker ◌>>=◌ lift
    mark_then-unnamed e s h = rw (h) refl

    mark_then-by :
        (r : Result String) (s : Session) (b : A)
        → processed_marker event.event_type ≡ r
        → (mark_then s).0 ≡ ok b
        → IsMarked (mark_then s).1
    mark_then-by (ok marker) s b e h = mark_then-IsMarked marker s e
    mark_then-by (err x) s b e h = absurd (err_ne_ok (sym (mark_then-unnamed x s e) ∙ h))
      where
        err_ne_ok : {y : A} → err x ≡ ok y → ⊥
        err_ne_ok bad = cc

    mark_then-Marks : Marks mark_then
    mark_then-Marks = record {
      at = λ s b h. mark_then-by (processed_marker event.event_type) s b refl h;
    }

  module _ (customer : Customer) (account : Account) (correlation_id : String) where
    pub cancel_and_mark-Marks : Marks (cancel_and_mark event customer account correlation_id)
    unfolding cancel_and_mark
    cancel_and_mark-Marks = Marks-after _ _ (λ n. mark_then-Marks correlation_id _)

    pub once-idle :
        (work : Action PlannerResult) (s : Session)
        → IsMarked s
        → once event customer account correlation_id work s ≡ (ok (no_effects event), s)
    unfolding once has_processed_marker ◌>>=◌ lift gets pure
    once-idle work s m = rw (m.named, m.present) refl

    once-works :
        (work : Action PlannerResult) (s : Session) (marker : String)
        → processed_marker event.event_type ≡ ok marker
        → is_some (find (is_marker marker event) s.db.audit_events) ≡ false
        → once event customer account correlation_id work s ≡ work s
    unfolding once has_processed_marker ◌>>=◌ lift gets pure
    once-works work s marker e h = rw (e, h) refl

    once-unnamed :
        (work : Action PlannerResult) (s : Session) (x : Error)
        → processed_marker event.event_type ≡ err x
        → (once event customer account correlation_id work s).0 ≡ err x
    unfolding once has_processed_marker ◌>>=◌ lift
    once-unnamed work s x h = rw (h) refl

    module _ (work : Action PlannerResult) (k : Marks work) (s : Session) (a : PlannerResult)
        (returned : (once event customer account correlation_id work s).0 ≡ ok a) where
      once_named :
          (m : String) (b : Bool)
          → processed_marker event.event_type ≡ ok m
          → is_some (find (is_marker m event) s.db.audit_events) ≡ b
          → IsMarked (once event customer account correlation_id work s).1
      once_named m true e found =
          let is : IsMarked s = record { marker = m; named = e; present = found } in
          subst (λ z. IsMarked z.1) (sym (once-idle work s is)) is
      once_named m false e found =
          let same = once-works work s m e found in
          subst (λ z. IsMarked z.1) (sym same) (k.at s a (ap (λ z. z.0) (sym same) ∙ returned))

      once-IsMarked :
          (r : Result String)
          → processed_marker event.event_type ≡ r
          → IsMarked (once event customer account correlation_id work s).1
      once-IsMarked (err x) e = absurd (err_ne_ok (sym (once-unnamed work s x e) ∙ returned))
        where
          err_ne_ok : err x ≡ ok a → ⊥
          err_ne_ok bad = cc
      once-IsMarked (ok m) e =
          once_named m (is_some (find (is_marker m event) s.db.audit_events)) e refl

    pub once-Marks :
        (work : Action PlannerResult)
        → Marks work
        → Marks (once event customer account correlation_id work)
    once-Marks work k = record {
      at = λ s a h. once-IsMarked work k s a h (processed_marker event.event_type) refl;
    }
