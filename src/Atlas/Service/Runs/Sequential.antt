-- ===== src/Atlas/Service/Runs/Sequential.antt =====
-- Commands executed one after another, as one control plane does.
use nexus_agent_platform.Common.{◌≡◌, refl, subst, List, [], ◌∷◌, ok, ◌>>=◌, >>=-eq-ok}
use mathlib.Core.List.{Memᴰ}
use nexus_agent_platform.Atlas.Models.{Job}
use nexus_agent_platform.Atlas.Errors.{Outcome}
use nexus_agent_platform.Atlas.Storage.Tables.{Database}
use nexus_agent_platform.Atlas.Service.Requests.{Platform, Reading}
use nexus_agent_platform.Atlas.Service.Plans.{Plan, Command, plan, execute}
use nexus_agent_platform.Atlas.Service.Pending.{Normality}
use nexus_agent_platform.Atlas.Service.Pending.Planning.{IsNormalPlan}
use nexus_agent_platform.Atlas.Service.Runs.{System, make, finish, Run, here, next}

unfoldable pub execute_all :
    {T : Type 0} → Platform T → List (Reading × Command) → Database T → Outcome (Database T)
unfolding execute
execute_all platform [] db = ok db
execute_all platform ((reading, command) ∷ rest) db = do
  executed ← execute platform reading command db
  execute_all platform rest executed.1

module _ {T : Type 0} (platform : Platform T) (Normal : Normality)
    (normal : (p : Plan) → IsNormalPlan Normal p) where
  Run-trans :
      {s t u : System T}
      → Run platform Normal s t
      → Run platform Normal t u
      → Run platform Normal s u
  Run-trans r here = r
  Run-trans r (next q st) = next (Run-trans r q) st

  execute-Run :
      (reading : Reading) (command : Command) (s : System T) (response : Job) (db : Database T)
      → execute platform reading command s.db ≡ ok (response, db)
      → (plans : List Plan) × Run platform Normal s (record { db = db; plans = plans })
  unfolding execute
  execute-Run reading command s response db h =
      let (p, planned, k) = >>=-eq-ok (plan platform reading command s.db s.db) _ h in
      (
        p ∷ s.plans,
        next (next here (make here reading command p planned (normal p)))
            (finish p response db (Memᴰ.head refl) k),
      )

  -- Where every job and every event is normal, a sequence of whole commands that succeeds is a run of separate
  -- plans and commits to the same store.
  pub execute_all-Run :
      (commands : List (Reading × Command)) (s : System T) (db : Database T)
      → execute_all platform commands s.db ≡ ok db
      → (plans : List Plan) × Run platform Normal s (record { db = db; plans = plans })
  unfolding execute_all
  execute_all-Run [] s db h =
      let same : s.db ≡ db = cc in
      (s.plans, subst (λ d. Run platform Normal s (record { db = d; plans = s.plans })) same here)
  execute_all-Run ((reading, command) ∷ rest) s db h =
      let (executed, e, k) = >>=-eq-ok (execute platform reading command s.db) _ h in
      let (plans, first) = execute-Run reading command s executed.0 executed.1 e in
      let (plans', more) = execute_all-Run rest (record { db = executed.1; plans = plans }) db k in
      (plans', Run-trans first more)
