-- ===== src/Atlas/Service/Runs.antt =====
-- Control planes at work on one store, in any order: each makes plans from the tables as it finds
-- them, and the store commits them later, one transaction at a time.
pub mod Reached
pub mod Guarantees
pub mod Keys
pub mod Replay
pub mod Conflict
pub mod Sequential
use nexus_agent_platform.Common.{◌≡◌, List, [], ◌∷◌, ok}
use mathlib.Core.List.{Memᴰ}
use nexus_agent_platform.Atlas.Models.{Job}
use nexus_agent_platform.Atlas.Storage.Tables.{Database, empty_database}
use nexus_agent_platform.Atlas.Service.Requests.{Platform, Reading}
use nexus_agent_platform.Atlas.Service.Plans.{Plan, Command, plan, commit}
use nexus_agent_platform.Atlas.Service.Pending.{Normality}
use nexus_agent_platform.Atlas.Service.Pending.Planning.{IsNormalPlan}

pub record System (T : Type 0) : Type 0 where
  pub db : Database T
  pub plans : List Plan

module _ {T : Type 0} (platform : Platform T) (Normal : Normality) where
  mutual
    -- A plan looks its command up in the tables of an earlier system, and is made from those of
    -- the present one; it may be committed as soon as it is made. A refused command or commit
    -- changes nothing, and a plan that is never committed is one whose control plane stopped.
    pub data Step : System T → System T → Type 0 where
      make :
          {q s : System T}
          → Run q s
          → (reading : Reading) (command : Command) (p : Plan)
          → plan platform reading command q.db s.db ≡ ok p
          → IsNormalPlan Normal p
          → Step s (record { db = s.db; plans = p ∷ s.plans })
      finish :
          {s : System T}
          → (p : Plan) (response : Job) (db : Database T) → Memᴰ p s.plans
          → commit platform p s.db ≡ ok (response, db)
          → Step s (record { db = db; plans = s.plans })

    pub data Run : System T → System T → Type 0 where
      here : {s : System T} → Run s s
      next : {s t u : System T} → Run s t → Step t u → Run s u

  -- The systems that grow from an empty store.
  abbrev pub Reached : System T → Type 0
  Reached = Run (record { db = empty_database; plans = [] })
