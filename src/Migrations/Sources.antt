-- ===== src/Migrations/Sources.antt =====
-- The rows of the inbound events when their source is set, and when it is dropped again.
use ai_compliance_orquestrat.Migrations.SourceIdentity.{
  set_source, or_unknown, null_if_empty, text_at,
}
use ai_compliance_orquestrat.Migrations.Statements.{
  delete, text_of, same_texts, has_twin, are_distinct, text_value,
}
use ai_compliance_orquestrat.Json.{Json, Fields, get, put, text, get-put, field, end}
use ai_compliance_orquestrat.Prelude.{
  String, List, ◌≡◌, arith, ◌==◌, Option, none, eq_iff, false, ◌∷◌, map, All, ◌∙◌, ap, refl, [],
  true,
}

delete-put :
    (k : String) (v : Json) (row : Fields) → get k row ≡ none → delete k (put k v row) ≡ row
unfolding delete put get
delete-put k v end h = ground (arith, eq_iff k k)
delete-put k v (field j w rest) h = ground (arith, eq_iff j k, delete-put k v rest)

put-put : (k : String) (v w : Json) (row : Fields) → put k v (put k w row) ≡ put k v row
unfolding put
put-put k v w end = ground (arith, eq_iff k k)
put-put k v w (field j u rest) = ground (arith, eq_iff j k, put-put k v w rest)

get-put_other :
    (k j : String) (v : Json) (row : Fields) → (k == j) ≡ false → get j (put k v row) ≡ get j row
get-put_other k j v row h = get-put k j v row ∙ rw (h) refl

text_of-put_other :
    (k j : String) (v : Json) (row : Fields)
    → (k == j) ≡ false
    → text_of j (put k v row) ≡ text_of j row
unfolding text_of
text_of-put_other k j v row h = ap text_value (get-put_other k j v row h)

set_source-put :
    (as_text : Json → Option String) (v : Json) (row : Fields)
    → set_source as_text (put "source" v row) ≡ set_source as_text row
unfolding set_source
set_source-put as_text v row = rw (
  get-put_other "source" "payload" v row refl,
  put-put "source"
      (text (or_unknown (null_if_empty (text_at as_text "source" (get "payload" row))))) v row,
)

external_id_stays :
    (as_text : Json → Option String) (row : Fields)
    → text_of "external_id" (set_source as_text row) ≡ text_of "external_id" row
unfolding set_source
external_id_stays as_text row = text_of-put_other "source" "external_id" _ row refl

same_id :
    (as_text : Json → Option String) (a b : Fields)
    → same_texts ("external_id" ∷ []) a b ≡ false
    → same_texts ("source" ∷ "external_id" ∷ []) (set_source as_text a) (set_source as_text b)
      ≡ false
unfolding same_texts
same_id as_text a b h = ground (arith, external_id_stays as_text a, external_id_stays as_text b)

has_twin-set_source :
    (as_text : Json → Option String) (row : Fields) (rows : List Fields)
    → has_twin ("external_id" ∷ []) row rows ≡ false
    → has_twin
        ("source" ∷ "external_id" ∷ [])
        (set_source as_text row)
        (map (set_source as_text) rows)
      ≡ false
unfolding has_twin
has_twin-set_source as_text row [] h = refl
has_twin-set_source as_text row (r ∷ rs) h =
    ground (arith, same_id as_text row r, has_twin-set_source as_text row rs)

pub distinct-set_source :
    (as_text : Json → Option String) (rows : List Fields)
    → are_distinct ("external_id" ∷ []) rows ≡ true
    → are_distinct ("source" ∷ "external_id" ∷ []) (map (set_source as_text) rows) ≡ true
unfolding are_distinct
distinct-set_source as_text [] h = refl
distinct-set_source as_text (r ∷ rs) h =
    ground (arith, has_twin-set_source as_text r rs, distinct-set_source as_text rs)

pub sources_set :
    (as_text : Json → Option String) (v : Json) (rows : List Fields)
    → map (set_source as_text) (map (put "source" v) rows) ≡ map (set_source as_text) rows
sources_set as_text v [] = refl
sources_set as_text v (r ∷ rs) = rw (set_source-put as_text v r, sources_set as_text v rs) refl

pub sources_dropped :
    (as_text : Json → Option String) (rows : List Fields)
    → All (λ r. get "source" r ≡ none) rows
    → map (delete "source") (map (set_source as_text) rows) ≡ rows
unfolding set_source
sources_dropped as_text [] h = refl
sources_dropped as_text (r ∷ rs) h =
    rw (delete-put "source" _ r h.0, sources_dropped as_text rs h.1) refl

twin_kept :
    (as_text : Json → Option String) (row : Fields) (rows : List Fields)
    → has_twin ("external_id" ∷ []) (set_source as_text row) (map (set_source as_text) rows)
      ≡ has_twin ("external_id" ∷ []) row rows
unfolding has_twin same_texts
twin_kept as_text row [] = refl
twin_kept as_text row (r ∷ rs) =
    rw (external_id_stays as_text row, external_id_stays as_text r, twin_kept as_text row rs) refl

pub ids_kept :
    (as_text : Json → Option String) (rows : List Fields)
    → are_distinct ("external_id" ∷ []) (map (set_source as_text) rows)
      ≡ are_distinct ("external_id" ∷ []) rows
unfolding are_distinct
ids_kept as_text [] = refl
ids_kept as_text (r ∷ rs) = rw (twin_kept as_text r rs, ids_kept as_text rs) refl
