-- ===== src/Atlas/Service/Runs/Replay.antt =====
-- Commands that come again.
use nexus_agent_platform.Atlas.Service.Pending.Creation.{plan-Pending}
use nexus_agent_platform.Atlas.Service.Runs.Reached.{Run-keeps, Step-keeps, Reached-IsOrderly}
use nexus_agent_platform.Atlas.Service.Runs.Keys.{
  digest, name, key, Answered-plan, plan-IsRecorded, Answered, IsRecorded,
}
use nexus_agent_platform.Atlas.Service.Runs.{finish, make, Run, IsNormalPlan, Reached, System}
use nexus_agent_platform.Atlas.Service.Plans.{write, replay, plan, Plan, Command, execute, commit}
use nexus_agent_platform.Atlas.Service.Pending.{Pending, IsFaithful, Normality}
use nexus_agent_platform.Atlas.Service.Requests.{Reading, Platform}
use mathlib.Core.Path.{subst₂}
use mathlib.Core.List.{Memᴰ}
use nexus_agent_platform.Common.{
  ℕ, String, ◌≡◌, refl, subst, inl, inr, Option, none, some, List, [], ◌∷◌, ◌++◌, arith,
  Option-cases, ok, str_eq_iff,
}
use nexus_agent_platform.Atlas.Models.{AuditEvent, CommandRecord, Job}
use nexus_agent_platform.Atlas.Storage.Tables.{Codec, Database, CommandRow, find_command}
use nexus_agent_platform.Atlas.Storage.Read.{lookup_command}
use nexus_agent_platform.Atlas.Storage.Write.{update, create, command_row, write_all, persist}
use nexus_agent_platform.Atlas.Service.Pending.Lawful.{command_row-read}
use nexus_agent_platform.Atlas.Service.Pending.Growth.{Grows}

module _ {T : Type 0} (codec : Codec T) where
  find_command-append_new :
      (id : String) (rows : List (CommandRow T)) (new : CommandRow T)
      → find_command id rows ≡ none
      → new.command_id ≡ id
      → find_command id (rows ++ new ∷ []) ≡ some new
  unfolding find_command
  find_command-append_new id [] new h e = ground (arith, (str_eq_iff new.command_id id).1 e)
  find_command-append_new id (r ∷ rows) new h e =
      ground (arith, find_command-append_new id rows new)

  -- A response that the store has, it has from then on.
  lookup-Grows :
      (id operation sha : String) (db db' : Database T) {job : Job}
      → Grows db db'
      → lookup_command codec id operation sha db ≡ ok (some job)
      → lookup_command codec id operation sha db' ≡ ok (some job)
  unfolding lookup_command
  lookup-Grows id operation sha db db' g h = elim (Option-cases (find_command id db.commands)) [
    | inl e ↦ absurd (ground (arith, e))
    | inr (row, e) ↦ ground (arith, e, g.commands id row e)
  ]

  find_command-written :
      (expected : Option ℕ) (after : Job) (event : AuditEvent) (command : CommandRecord)
      (db db' : Database T)
      → find_command command.command_id db.commands ≡ none
      → write_all codec expected after event command db ≡ ok db'
      → find_command command.command_id db'.commands ≡ some (command_row codec command after)
  unfolding write_all command_row
  find_command-written expected after event command db db' none_yet h =
      let same : db.commands ++ command_row codec command after ∷ [] ≡ db'.commands =
        ground arith in
      subst (λ rows. find_command command.command_id rows ≡ some (command_row codec command after))
        same
        (find_command-append_new command.command_id db.commands (command_row codec command after)
          none_yet refl)

  -- A transaction that returns leaves its response in the store.
  persist-answers :
      (expected : Option ℕ) (after : Job) (event : AuditEvent) (command : CommandRecord)
      (db db' : Database T) (response : Job)
      → codec.load_job (codec.dump_job after) ≡ some after
      → command.job_id ≡ after.job_id
      → command.response_revision ≡ after.revision
      → persist codec expected after event command db ≡ ok (response, db')
      → lookup_command codec command.command_id command.operation command.request_sha256 db'
        ≡ ok (some response)
  unfolding persist lookup_command
  persist-answers expected after event command db db' response read id revision h =
      elim (Option-cases (find_command command.command_id db.commands)) [
        | inl e ↦
            let found =
              find_command-written expected after event command db db' e (ground (arith, e)) in
            ground (arith, e, found, command_row-read codec command after read id revision)
        | inr (row, e) ↦ ground (arith, e)
      ]

module _ {T : Type 0} (platform : Platform T) (Normal : Normality)
    (faithful : IsFaithful platform.codec Normal) where
  commit-answers :
      (command : Command) (p : Plan) (db db' : Database T) (response : Job)
      → IsRecorded platform command db p
      → Pending platform.codec p db
      → commit platform p db ≡ ok (response, db')
      → Answered platform command db' response
  unfolding commit create update
  commit-answers command (replay job) db db' response r q h =
      let same : db ≡ db' = ground arith in
      let own : job ≡ response = ground arith in
      subst₂ (λ d j. Answered platform command d j) same own r
  commit-answers command (write none after event c) db db' response r q h =
      let answered =
        persist-answers platform.codec none after event c db db' response q.0 q.3 q.4
          (ground arith) in
      rw (← r.0, ← r.1, ← r.2) answered
  commit-answers command (write (some n) after event c) db db' response r q h =
      let answered =
        persist-answers platform.codec (some n) after event c db db' response q.0 q.3 q.4
          (ground arith) in
      rw (← r.0, ← r.1, ← r.2) answered

  IsRecorded-Grows :
      (command : Command) (p : Plan) (db db' : Database T)
      → Grows db db'
      → IsRecorded platform command db p
      → IsRecorded platform command db' p
  IsRecorded-Grows command (replay job) db db' g r =
      lookup-Grows platform.codec (key command) (name command) (digest platform command) db db' g r
  IsRecorded-Grows command (write expected after event c) db db' g r = r

  -- With a codec that is faithful on normal jobs and events, a command that was looked up in a
  -- reached store, planned there or after any run from it, with a normal job and event, and
  -- committed is answered with the same response when it comes again after any further run, and
  -- the store stays as it is.
  pub replayed_command :
      (q s t : System T) (reading later : Reading) (command : Command) (p : Plan) (response : Job)
      (db : Database T)
      → Reached platform Normal q
      → Run platform Normal q s
      → plan platform reading command q.db s.db ≡ ok p
      → IsNormalPlan Normal p
      → commit platform p s.db ≡ ok (response, db)
      → Run platform Normal (record { db = db; plans = p ∷ s.plans }) t
      → execute platform later command t.db ≡ ok (response, t.db)
  unfolding execute commit
  replayed_command q s t reading later command p response db reached earlier planned normal
        committed run =
      let (o, grown_before) =
        Run-keeps platform Normal faithful earlier
          (Reached-IsOrderly platform Normal faithful reached) in
      let pending =
        plan-Pending platform Normal faithful s.db o.inv reading command q.db planned normal in
      let (admissible, own) = plan-IsRecorded platform reading command q.db s.db planned in
      let recorded = IsRecorded-Grows command p q.db s.db grown_before own in
      let (o1, _) =
        Step-keeps platform Normal faithful (make earlier reading command p planned normal) o in
      let (o2, _) =
        Step-keeps platform Normal faithful {s = record { db = s.db; plans = p ∷ s.plans }}
          (finish p response db (Memᴰ.head refl) committed) o1 in
      let answered = commit-answers command p s.db db response recorded pending committed in
      let (o3, grown) = Run-keeps platform Normal faithful run o2 in
      rw
        (Answered-plan platform later command t.db t.db admissible (
          lookup-Grows platform.codec (key command) (name command) (digest platform command) db t.db
            grown answered))
        refl
