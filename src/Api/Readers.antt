-- ===== src/Api/Readers.antt =====
-- How a field of a request model is read: pydantic's readers, which are parameters, and the checks of
-- `Field` and of defaults.
use ai_compliance_orquestrat.Text.{has_length}
use ai_compliance_orquestrat.DateTime.{DateTime}
use ai_compliance_orquestrat.Errors.{Error, http_exception, Result, ok, or_raise, err}
use ai_compliance_orquestrat.Json.{Json, Fields, text, object, get, boolean, null, number}
use ai_compliance_orquestrat.Prelude.{ℕ, String, Bool, Option, some, ◌≡◌, if◌then◌else◌, none}

-- Python's int
pub data ℤ : Type 0 where
  pos : ℕ → ℤ
  negsuc : ℕ → ℤ

-- pydantic's readers of a type in a JSON body; `none` is a validation error.
pub record Pydantic : Type 0 where
  pub as_str : Json → Option String
  pub as_bool : Json → Option Bool
  pub as_int : Json → Option ℤ
  pub as_datetime : Json → Option DateTime
  -- a UUID in a path, by its canonical text
  pub as_uuid : String → Option String

-- Its documented readings of values that have the type already.
pub record PydanticLaws (p : Pydantic) : Type 0 where
  pub as_str_text : (s : String) → p.as_str (text s) ≡ some s
  pub as_bool_boolean : (b : Bool) → p.as_bool (boolean b) ≡ some b
  pub as_int_number : (n : ℕ) → p.as_int (number n) ≡ some (pos n)

-- FastAPI's answer to a body that does not fit its model
abbrev pub invalid : Error
invalid = http_exception 422 "RequestValidationError"

-- a value that passes a test
unfoldable pub checked {ℓ} : {A : Type ℓ} → (A → Bool) → Option A → Option A
checked test none = none
checked test (some a) = if test a then some a else none

-- a field with no default
unfoldable pub required {ℓ} : {A : Type ℓ} → (Json → Option A) → String → Fields → Result A
required read key fs = elim (get key fs) [ none ↦ err invalid | some v ↦ or_raise (read v) invalid ]

-- a field with a default
unfoldable pub defaulted {ℓ} : {A : Type ℓ} → (Json → Option A) → A → String → Fields → Result A
defaulted read default key fs = elim (get key fs) [
  | none ↦ ok default
  | some v ↦ or_raise (read v) invalid
]

-- `T | None`
unfoldable pub nullable {ℓ} : {A : Type ℓ} → (Json → Option A) → Json → Option (Option A)
nullable read null = some none
nullable read v = elim (read v) [ none ↦ none | some a ↦ some (some a) ]

-- `Field(ge=0)`
unfoldable pub non_negative : Option ℤ → Option ℕ
non_negative none = none
non_negative (some (negsuc n)) = none
non_negative (some (pos n)) = some n

-- a nested model or a dict
unfoldable pub as_object : Json → Option Fields
as_object (object fs) = some fs
as_object _ = none

module _ ⦃p : Pydantic⦄ where
  -- `Annotated[str, Field(min_length=…, max_length=…)]`
  unfoldable pub bounded_text : ℕ → ℕ → Json → Option String
  bounded_text least most v = checked (has_length least most) (p.as_str v)
