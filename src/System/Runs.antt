-- ===== src/System/Runs.antt =====
-- Histories of the service as a relation on its states: each step is one unit of work, or a
-- reading of uuid4 outside of it.
use ai_compliance_orquestrat.World.{World}
use ai_compliance_orquestrat.Evolution.{Evolves, Evolves-refl, Evolves-trans}
use ai_compliance_orquestrat.System.{Server, Work, IsFairWork, perform}
use ai_compliance_orquestrat.System.Guarantees.{perform-Evolves}
use ai_compliance_orquestrat.Prelude.{◌+◌, ◌≡◌, refl}

-- `Runs P s t`: the service gets from `s` to `t`, by units of work that satisfy `P`.
pub data Runs ⦃w : World⦄ (P : Work → Type 0) : Server → Server → Type 0 where
  stays : {s : Server} → Runs P s s
  reads : {s t : Server} → Runs P (record s { tick = s.tick + 1 }) t → Runs P s t
  works : {s t : Server} (x : Work) → P x → Runs P (perform x s) t → Runs P s t

abbrev pub NoWork : Work → Type 0
NoWork x = ⊥

module _ ⦃w : World⦄ where
  pub Runs-trans : {P : Work → Type 0} {s t u : Server} → Runs P s t → Runs P t u → Runs P s u
  Runs-trans stays k = k
  Runs-trans (reads h) k = reads (Runs-trans h k)
  Runs-trans (works x fair h) k = works x fair (Runs-trans h k)

  pub Runs-Evolves : {s t : Server} → Runs IsFairWork s t → Evolves s.database t.database
  Runs-Evolves {s} stays = Evolves-refl s.database
  Runs-Evolves (reads h) = Runs-Evolves h
  Runs-Evolves {s} (works x fair h) = Evolves-trans (perform-Evolves x s fair) (Runs-Evolves h)

  pub Runs-NoWork : {s t : Server} → Runs NoWork s t → t.database ≡ s.database
  Runs-NoWork stays = refl
  Runs-NoWork (reads h) = Runs-NoWork h
  Runs-NoWork (works x none h) = absurd none
