-- ===== src/Session.antt =====
-- The database session, and code that works on it and may raise. `db` is what the open transaction
-- sees, `committed` what is durable. State that was written before a raise stays in `db`, until a
-- commit or a rollback. `tick` counts the readings of the clocks and of uuid4.
use ai_compliance_orquestrat.Prelude.{ℕ, ◌+◌}
use ai_compliance_orquestrat.Models.{Database}
pub mod Rules
pub mod Triples
use ai_compliance_orquestrat.Errors.{Error, Result, ok, err}

pub record Session : Type 0 where
  pub db : Database
  pub committed : Database
  pub tick : ℕ

abbrev pub Action {ℓ} : Type ℓ → Type ℓ
Action A = Session → Result A × Session

module _ {ℓ} {A : Type ℓ} where
  unfoldable pub pure : A → Action A
  pure a s = (ok a, s)

  unfoldable pub raise : Error → Action A
  raise e s = (err e, s)

  unfoldable pub lift : Result A → Action A
  lift r s = (r, s)

  -- a query
  unfoldable pub gets : (Database → A) → Action A
  gets f s = (ok (f s.db), s)

module _ {ℓ κ} {A : Type ℓ} {B : Type κ} where
  abbrev pub continue : Result A → (A → Action B) → Action B
  continue (ok a) f s = f a s
  continue (err e) f s = (err e, s)

  infixl 5 ◌>>=◌ ◌>>◌
  -- opening this opens the basic actions too
  unfoldable pub ◌>>=◌ : Action A → (A → Action B) → Action B
  unfolding pure raise lift gets
  ◌>>=◌ m f s = let (r, s') = m s in continue r f s'

  abbrev pub ◌>>◌ : Action A → Action B → Action B
  m >> k = m >>= λ _. k

-- a statement that changes rows
unfoldable pub modify : (Database → Database) → Action (Unit {0})
modify f s = (ok tt, record s { db = f s.db })

unfoldable pub commit : Action (Unit {0})
commit s = (ok tt, record s { committed = s.db })

unfoldable pub rollback : Action (Unit {0})
rollback s = (ok tt, record s { db = s.committed })

-- one reading of uuid4 or of a clock
unfoldable pub reading {ℓ} : {A : Type ℓ} → (ℕ → A) → Action A
reading f s = (ok (f s.tick), record s { tick = s.tick + 1 })

-- `async with async_session()`: leaving the block ends the transaction without a commit
unfoldable pub close {ℓ} : {A : Type ℓ} → Action A → Action A
close m s = let (r, s') = m s in (r, record s' { db = s'.committed })
