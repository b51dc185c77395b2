-- ===== src/Json.antt =====
-- JSON values, for the payload columns of models.py (`payload: dict[str, Any]`). An object keeps
-- its keys in insertion order, as a Python dict does.
use ai_compliance_orquestrat.Prelude.{
  ℕ, String, ◌≡◌, refl, Bool, Option, none, some, List, [], ◌∷◌, arith, ◌==◌, eq_iff, if◌then◌else◌,
}

mutual
  -- `raw` is a number that is no natural, by its text.
  pub data Json : Type 0 where
    null : Json
    boolean : Bool → Json
    number : ℕ → Json
    text : String → Json
    raw : String → Json
    array : Items → Json
    object : Fields → Json

  pub data Items : Type 0 where
    nil : Items
    item : Json → Items → Items

  pub data Fields : Type 0 where
    end : Fields
    field : String → Json → Fields → Fields

-- `payload.get(key)`
unfoldable pub get : String → Fields → Option Json
get k end = none
get k (field j v rest) = if j == k then some v else get k rest

-- `payload[key] = value`
unfoldable pub put : String → Json → Fields → Fields
put k v end = field k v end
put k v (field j w rest) = if j == k then field j v rest else field j w (put k v rest)

-- A list of texts as a JSON array.
abbrev pub texts : List String → Items
texts [] = nil
texts (s ∷ rest) = item (text s) (texts rest)

-- `x if x is not None else None` for an optional text.
abbrev pub optional_text : Option String → Json
optional_text none = null
optional_text (some s) = text s

pub get-put :
    (k j : String) (v : Json) (fs : Fields)
    → get j (put k v fs) ≡ (if k == j then some v else get j fs)
unfolding get put
get-put k j v end = refl
get-put k j v (field i w rest) =
    ground (arith, eq_iff k j, eq_iff i k, eq_iff i j, get-put k j v rest)
