-- ===== src/Atlas/Service/Runs/Reached.antt =====
-- What holds of every store that control planes have worked on.
use nexus_agent_platform.Common.{
  ℕ, ◌≡◌, sym, subst, ◌⊎◌, inl, inr, Option, none, some, List, [], ◌∷◌, arith, Option-cases, All,
  ok,
}
use mathlib.Core.List.{Memᴰ}
use nexus_agent_platform.Atlas.Models.{Job, AuditEvent, CommandRecord}
use nexus_agent_platform.Atlas.Storage.Tables.{Database, find_command}
use nexus_agent_platform.Atlas.Storage.Write.{persist, create, update, write_all}
use nexus_agent_platform.Atlas.Storage.Invariant.{Inv, empty-Inv}
use nexus_agent_platform.Atlas.Storage.Preservation.{write_all-Inv}
use nexus_agent_platform.Atlas.Service.Requests.{Platform}
use nexus_agent_platform.Atlas.Service.Plans.{Plan, replay, write, commit}
use nexus_agent_platform.Atlas.Service.Pending.{IsSound, IsFaithful, Normality, Pending}
use nexus_agent_platform.Atlas.Service.Pending.Lawful.{Pending-IsLawful}
use nexus_agent_platform.Atlas.Service.Pending.Growth.{
  Grows, Grows-refl, Grows-trans, Pending-Grows, write_all-Grows,
}
use nexus_agent_platform.Atlas.Service.Pending.Creation.{plan-Pending}
use nexus_agent_platform.Atlas.Service.Runs.{System, Step, make, finish, Run, here, next, Reached}

module _ {T : Type 0} (platform : Platform T) where
  -- A transaction that returns has written nothing, or all of a new command.
  persist-cases :
      (expected : Option ℕ) (after : Job) (event : AuditEvent) (command : CommandRecord)
      (db : Database T) {response : Job} {db' : Database T}
      → persist platform.codec expected after event command db ≡ ok (response, db')
      → (db' ≡ db) ⊎ (write_all platform.codec expected after event command db ≡ ok db')
  unfolding persist
  persist-cases expected after event command db {response} {db'} h =
      elim (Option-cases (find_command command.command_id db.commands)) [
        | inl e ↦ inr (ground (arith, e))
        | inr (row, e) ↦ inl (ground (arith, e))
      ]

  pub commit-cases :
      (expected : Option ℕ) (after : Job) (event : AuditEvent) (command : CommandRecord)
      (db : Database T) {response : Job} {db' : Database T}
      → commit platform (write expected after event command) db ≡ ok (response, db')
      → (db' ≡ db) ⊎ (write_all platform.codec expected after event command db ≡ ok db')
  unfolding commit create update
  commit-cases none after event command db {response} {db'} h =
      persist-cases none after event command db {response = response} {db' = db'} (ground arith)
  commit-cases (some expected) after event command db {response} {db'} h =
      persist-cases (some expected) after event command db {response = response} {db' = db'}
        (ground arith)

  -- The commit of a pending plan keeps the invariant, and the tables grow.
  pub commit_keeps :
      (p : Plan) (db : Database T) {response : Job} {db' : Database T}
      → Inv platform.codec IsSound db
      → Pending platform.codec p db
      → commit platform p db ≡ ok (response, db')
      → Inv platform.codec IsSound db' × Grows db db'
  unfolding commit
  commit_keeps (replay job) db {response} {db'} v q h =
      let same : db ≡ db' = ground arith in
      subst (λ d. Inv platform.codec IsSound d × Grows db d) same (v, Grows-refl db)
  commit_keeps (write expected after event command) db {response} {db'} v q h =
      let l = Pending-IsLawful platform.codec expected after event command db q in
      elim (commit-cases expected after event command db h) [
        | inl same ↦
            subst (λ d. Inv platform.codec IsSound d × Grows db d) (sym same) (v, Grows-refl db)
        | inr all ↦ (
          write_all-Inv platform.codec IsSound expected after event command db db' l all v,
          write_all-Grows platform.codec expected after event command db db' v.distinct l all,
        )
      ]

  All-Grows :
      (ps : List Plan) (db db' : Database T)
      → Grows db db'
      → All (λ p. Pending platform.codec p db) ps
      → All (λ p. Pending platform.codec p db') ps
  All-Grows [] db db' g a = tt
  All-Grows (p ∷ ps) db db' g a =
      (Pending-Grows platform.codec p db db' g a.0, All-Grows ps db db' g a.1)

  pub Pending-member :
      (p : Plan) (ps : List Plan) (db : Database T)
      → Memᴰ p ps
      → All (λ q. Pending platform.codec q db) ps
      → Pending platform.codec p db
  Pending-member p [] db m a = elim m [ ]
  Pending-member p (q ∷ ps) db (Memᴰ.head e) a =
      subst (λ r. Pending platform.codec r db) (sym e) a.0
  Pending-member p (q ∷ ps) db (Memᴰ.tail m) a = Pending-member p ps db m a.1

  -- What holds of a system between two steps.
  pub record IsOrderly (s : System T) : Type 0 where
    pub inv : Inv platform.codec IsSound s.db
    pub pending : All (λ p. Pending platform.codec p s.db) s.plans

module _ {T : Type 0} (platform : Platform T) (Normal : Normality)
    (faithful : IsFaithful platform.codec Normal) where
  pub Step-keeps :
      {s t : System T}
      → Step platform Normal s t
      → IsOrderly platform s
      → IsOrderly platform t × Grows s.db t.db
  Step-keeps {s} (make {q} earlier reading command p h normal) o = (
    record {
      inv = o.inv;
      pending = (
        plan-Pending platform Normal faithful s.db o.inv reading command q.db h normal,
        o.pending,
      );
    },
    Grows-refl s.db,
  )
  Step-keeps {s} (finish p response db m h) o =
      let q = Pending-member platform p s.plans s.db m o.pending in
      let (v, g) = commit_keeps platform p s.db o.inv q h in
      (record { inv = v; pending = All-Grows platform s.plans s.db db g o.pending }, g)

  pub Run-keeps :
      {s t : System T}
      → Run platform Normal s t
      → IsOrderly platform s
      → IsOrderly platform t × Grows s.db t.db
  Run-keeps {s} here o = (o, Grows-refl s.db)
  Run-keeps {s} (next {t} {u} r st) o =
      let (o1, g1) = Run-keeps r o in
      let (o2, g2) = Step-keeps st o1 in (o2, Grows-trans s.db t.db u.db g1 g2)

  pub Reached-IsOrderly : {s : System T} → Reached platform Normal s → IsOrderly platform s
  Reached-IsOrderly r =
      (Run-keeps r (record { inv = empty-Inv platform.codec IsSound; pending = tt })).0
