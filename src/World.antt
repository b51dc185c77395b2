-- ===== src/World.antt =====
-- What the program calls and does not implement: the time-zone database, the clocks, uuid4,
-- SHA-256 and the text of a time. A field is a parameter of the model; `TimeLaws` states the
-- documented behaviour that some theorems use.
use ai_compliance_orquestrat.Prelude.{ℕ, String, ◌≡◌, Bool, Option, some}
use ai_compliance_orquestrat.DateTime.{DateTime}

-- The clocks and uuid4 answer by the number of readings that were made before.
pub record World : Type 0 where
  -- `uuid4()`, as its canonical text
  pub uuid4 : ℕ → String
  -- `UUID(value)` as its canonical text; `none` is the ValueError
  pub parse_uuid : String → Option String
  -- `datetime.now(UTC)`
  pub utc_now : ℕ → DateTime
  -- `func.now()`, the database's clock
  pub db_now : ℕ → DateTime
  -- the point in time that an aware reading stands for
  pub instant : DateTime → ℕ
  -- `tz.utcoffset(d) is not None`
  pub has_utcoffset : String → Bool
  -- `ZoneInfo(key)` finds the key
  pub zone_exists : String → Bool
  -- `d.astimezone(ZoneInfo(key))`; `none` is the OverflowError at the ends of time
  pub astimezone : DateTime → String → Option DateTime
  pub isoformat : DateTime → String
  -- `sha256(text.encode()).hexdigest()`
  pub sha256_hexdigest : String → String

-- datetime.astimezone: the result has the new zone, and is the reading itself if it had it before.
pub record TimeLaws (w : World) : Type 0 where
  pub astimezone_zone :
      (d : DateTime) (z : String) {l : DateTime} → w.astimezone d z ≡ some l → l.tzinfo ≡ some z
  pub astimezone_same : (d : DateTime) (z : String) → d.tzinfo ≡ some z → w.astimezone d z ≡ some d
