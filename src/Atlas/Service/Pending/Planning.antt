-- ===== src/Atlas/Service/Pending/Planning.antt =====
-- Every plan that a command makes is pending on the tables that it was made from.
use nexus_agent_platform.Common.{
  ℕ, String, ◌≡◌, refl, sym, ◌∙◌, subst, inl, inr, some, arith, Option-cases, ok, ◌>>=◌, >>=-eq-ok,
}
use nexus_agent_platform.Atlas.Models.{AuditEvent, Job}
use nexus_agent_platform.Atlas.Storage.Tables.{JobRow, Database, find_job}
use nexus_agent_platform.Atlas.Storage.Read.{job_from_row, get_job}
use nexus_agent_platform.Atlas.Storage.Rows.{find_job-id}
use nexus_agent_platform.Atlas.Storage.Invariant.{Inv}
use nexus_agent_platform.Atlas.Storage.Integrity.{job_from_row-columns, stored_job}
use nexus_agent_platform.Atlas.Validate.Events.{validate_event_shape}
use nexus_agent_platform.Atlas.Service.Requests.{operation_name, Request, Platform, Reading}
use nexus_agent_platform.Atlas.Service.Change.{Change}
use nexus_agent_platform.Atlas.Service.Bodies.{body}
use nexus_agent_platform.Atlas.Service.Plans.{
  Plan, replay, write, Prepared, replayed, fresh, event_record, make_command, prepare, persist_plan,
  plan_request,
}
use nexus_agent_platform.Atlas.Service.Steps.Proper.{IsNextJob}
use nexus_agent_platform.Atlas.Service.Steps.Moves.{body-IsNextJob}
use nexus_agent_platform.Atlas.Service.Pending.{IsSound, IsFaithful, Normality, Pending}

-- The job and the event that a plan writes have normalised texts.
abbrev pub IsNormalPlan : Normality → Plan → Type 0
IsNormalPlan Normal (replay job) = Unit
IsNormalPlan Normal (write expected after event command) = Normal.job after × Normal.event event

module _ {T : Type 0} (platform : Platform T) where
  pub prepare-fresh :
      (request : Request) (looked db : Database T) (f : String) (n : ℕ) (job : Job)
      → prepare platform request looked db ≡ ok (fresh f n job)
      → (get_job platform.codec request.job_id db ≡ ok job) × (job.revision ≡ n)
  unfolding prepare
  prepare-fresh request looked db f n job h = ground arith

  get_job-row :
      (id : ℕ) (db : Database T) {job : Job}
      → get_job platform.codec id db ≡ ok job
      → (row : JobRow T) × (find_job id db.jobs ≡ some row)
        × (job_from_row platform.codec row ≡ ok job)
  unfolding get_job
  get_job-row id db h = elim (Option-cases (find_job id db.jobs)) [
    | inl e ↦ absurd (ground (arith, e))
    | inr (row, e) ↦ (row, e, ground (arith, e))
  ]

  pub persist_plan-eq-ok :
      (request : Request) (f : String) (n : ℕ) (before : Job) (c : Change) {p : Plan}
      → persist_plan platform request f n before c ≡ ok p
      → let event : AuditEvent =
          event_record platform
            (some before)
            c.after
            c.event_type
            request.actor
            request.command_id
            c.details in
        (validate_event_shape event ≡ ok tt)
        × (write (some n) c.after event (
              make_command platform request.command_id
                (operation_name request.operation)
                f
                c.after
                c.after.updated_at)
            ≡ p)
  unfolding persist_plan
  persist_plan-eq-ok request f n before c {p} h = ground arith

module _ {T : Type 0} (platform : Platform T) (Normal : Normality)
    (faithful : IsFaithful platform.codec Normal) (db : Database T)
    (v : Inv platform.codec IsSound db) where
  written_Pending :
      (request : Request) (f : String) (n : ℕ) (before : Job) (c : Change)
      → get_job platform.codec request.job_id db ≡ ok before
      → before.revision ≡ n
      → IsNextJob before c.after
      → Normal.job c.after
      → let event : AuditEvent =
          event_record platform
            (some before)
            c.after
            c.event_type
            request.actor
            request.command_id
            c.details in
        Normal.event event
        → (validate_event_shape event ≡ ok tt)
        → Pending platform.codec
            (write
              (some n)
              c.after
              (event_record platform
                (some before)
                c.after
                c.event_type
                request.actor
                request.command_id
                c.details)
              (make_command platform request.command_id
                (operation_name request.operation)
                f
                c.after
                c.after.updated_at))
            db
  unfolding event_record make_command
  written_Pending request f n before c got due next normal normal_event shape =
      let (row, found, read) = get_job-row platform request.job_id db got in
      let (id, revision, status) = job_from_row-columns platform.codec row read in
      let own : c.after.job_id ≡ request.job_id =
        next.same_job ∙ sym id ∙ find_job-id request.job_id db.jobs found in
      (
        faithful.job_round_trip c.after normal next.valid,
        faithful.event_round_trip _ normal_event shape,
        record { valid = next.valid; proper = next.proper },
        refl,
        refl,
        refl,
        refl,
        refl,
        refl,
        (
          before.status,
          omega (arith, next.next_revision, due),
          refl,
          next.linked,
          record {
            row = row;
            found = rw own found;
            not_before = omega (arith, revision, due);
            agrees = λ e. status;
          },
        ),
      )

  pub plan_request-Pending :
      (reading : Reading) (request : Request) (looked : Database T) {p : Plan}
      → plan_request platform reading request looked db ≡ ok p
      → IsNormalPlan Normal p
      → Pending platform.codec p db
  unfolding plan_request
  plan_request-Pending reading request looked {p} h normal =
      let (prepared, e, k) = >>=-eq-ok (prepare platform request looked db) _ h in
      planned prepared e k
    where
      planned :
          (prepared : Prepared)
          → prepare platform request looked db ≡ ok prepared
          → elim prepared [
            | replayed job ↦ ok (replay job)
            | fresh fingerprint expected job ↦ do
              change ← body platform request.operation reading request.actor job
              persist_plan platform request fingerprint expected job change
          ]
            ≡ ok p
          → Pending platform.codec p db
      planned (replayed job) e k =
          let same : replay job ≡ p = cc in subst (λ q. Pending platform.codec q db) same tt
      planned (fresh f n job) e k =
          let (got, due) = prepare-fresh platform request looked db f n job e in
          let (c, b, k') =
            >>=-eq-ok (body platform request.operation reading request.actor job) _ k in
          let (shape, same) = persist_plan-eq-ok platform request f n job c k' in
          let sound : IsSound job = (stored_job platform.codec IsSound db request.job_id v got).0 in
          let next =
            body-IsNextJob reading request.actor job sound.proper platform request.operation b in
          subst (λ q. Pending platform.codec q db) same
            (let (normal_job, normal_event) = subst (IsNormalPlan Normal) (sym same) normal in
              written_Pending request f n job c got due next normal_job normal_event shape)
