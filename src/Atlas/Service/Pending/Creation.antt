-- ===== src/Atlas/Service/Pending/Creation.antt =====
-- The plan of a creation, and of any command, is pending on the tables that it was made from.
use nexus_agent_platform.Atlas.Policy.{require_operator}
use nexus_agent_platform.Atlas.Validate.{check_command_id}
use nexus_agent_platform.Common.{
  ℕ, String, ◌≡◌, refl, sym, subst, ◌⊎◌, inl, inr, Option, none, some, arith, ok, ◌>>=◌, >>=-eq-ok,
}
use nexus_agent_platform.Atlas.Models.{
  ActorIdentity, AuditEvent, AuditEventType, AuditData, Job, JobSpec,
}
use nexus_agent_platform.Atlas.Storage.Tables.{Database}
use nexus_agent_platform.Atlas.Storage.Read.{lookup_command}
use nexus_agent_platform.Atlas.Storage.Invariant.{Inv}
use nexus_agent_platform.Atlas.Validate.Lifecycle.{validate_job_record}
use nexus_agent_platform.Atlas.Validate.Events.{validate_event_shape}
use nexus_agent_platform.Atlas.Service.Requests.{Platform, Reading, Hashed, now}
use nexus_agent_platform.Atlas.Service.Plans.{
  creation_at, Plan, replay, write, event_record, make_command, new_job, plan_creation, Command,
  create_job, on_job, plan,
}
use nexus_agent_platform.Atlas.Service.Pending.{IsSound, IsFaithful, Normality, Pending}
use nexus_agent_platform.Atlas.Service.Pending.Planning.{IsNormalPlan, plan_request-Pending}

module _ {T : Type 0} (platform : Platform T) where
  -- What a creation writes at a time of the clock.
  abbrev pub created_job : Reading → JobSpec → String → ℕ → Job
  created_job reading spec command_id time = new_job platform spec command_id reading.fresh_id time

  abbrev pub created_event : JobSpec → String → ActorIdentity → Job → AuditEvent
  created_event spec command_id actor job =
      event_record platform none job AuditEventType.job_created actor command_id
        (AuditData.created (platform.canonical_sha256 (Hashed.spec spec)) command_id)

  pub creation_at-eq-ok :
      (reading : Reading) (spec : JobSpec) (command_id : String) (actor : ActorIdentity)
      (f : String) (time : ℕ) {p : Plan}
      → creation_at platform reading spec command_id actor f time ≡ ok p
      → let job : Job = created_job reading spec command_id time in
        (validate_job_record job ≡ ok tt)
        × (validate_event_shape (created_event spec command_id actor job) ≡ ok tt)
        × (write none job
              (created_event spec command_id actor job)
              (make_command platform command_id "job.create" f job time)
            ≡ p)
  unfolding creation_at
  creation_at-eq-ok reading spec command_id actor f time {p} h = ground arith

  -- A creation is answered from its record, or it goes on at a time of the clock.
  pub plan_creation-cases :
      (reading : Reading) (spec : JobSpec) (command_id : String) (actor : ActorIdentity)
      (db : Database T) {p : Plan}
      → plan_creation platform reading spec command_id actor db ≡ ok p
      → ((prior : Job) × (replay prior ≡ p))
        ⊎ ((time : ℕ) × (creation_at platform reading spec command_id actor
                (platform.canonical_sha256 (Hashed.creation actor spec))
                time
              ≡ ok p))
  unfolding plan_creation
  plan_creation-cases reading spec command_id actor db {p} h =
      let f : String = platform.canonical_sha256 (Hashed.creation actor spec) in
      let (_, _, h1) = >>=-eq-ok (check_command_id command_id) _ h in
      let (_, _, h2) = >>=-eq-ok (require_operator actor) _ h1 in
      let (prior, _, h3) =
        >>=-eq-ok (lookup_command platform.codec command_id "job.create" f db) _ h2 in
      answered f prior h3
    where
      answered :
          (f : String) (prior : Option Job)
          → elim prior [
            | some job ↦ ok (replay job)
            | none ↦ do
              time ← now reading none
              creation_at platform reading spec command_id actor f time
          ]
            ≡ ok p
          → ((prior : Job) × (replay prior ≡ p))
            ⊎ ((time : ℕ) × (creation_at platform reading spec command_id actor f time ≡ ok p))
      answered f (some job) k = inl (job, cc)
      answered f none k = let (time, _, k1) = >>=-eq-ok (now reading none) _ k in inr (time, k1)

module _ {T : Type 0} (platform : Platform T) (Normal : Normality)
    (faithful : IsFaithful platform.codec Normal) (db : Database T)
    (v : Inv platform.codec IsSound db) where
  plan_creation-Pending :
      (reading : Reading) (spec : JobSpec) (command_id : String) (actor : ActorIdentity)
      (looked : Database T) {p : Plan}
      → plan_creation platform reading spec command_id actor looked ≡ ok p
      → IsNormalPlan Normal p
      → Pending platform.codec p db
  unfolding new_job event_record make_command
  plan_creation-Pending reading spec command_id actor looked {p} h normal =
      elim (plan_creation-cases platform reading spec command_id actor looked h) [
        | inl (prior, same) ↦ subst (λ q. Pending platform.codec q db) same tt
        | inr (time, k) ↦
            let (valid, shape, same) =
              creation_at-eq-ok platform reading spec command_id actor
                (platform.canonical_sha256 (Hashed.creation actor spec)) time k in
            let (normal_job, normal_event) = subst (IsNormalPlan Normal) (sym same) normal in
            subst (λ q. Pending platform.codec q db) same
              (
                faithful.job_round_trip _ normal_job valid,
                faithful.event_round_trip _ normal_event shape,
                record { valid = valid; proper = ground arith },
                refl,
                refl,
                refl,
                refl,
                refl,
                refl,
                (refl, refl, refl),
              )
      ]

  -- The plan of a command, if the job and the event in it have normalised texts, is pending.
  pub plan-Pending :
      (reading : Reading) (command : Command) (looked : Database T) {p : Plan}
      → plan platform reading command looked db ≡ ok p
      → IsNormalPlan Normal p
      → Pending platform.codec p db
  unfolding plan
  plan-Pending reading (create_job spec command_id actor) looked h normal =
      plan_creation-Pending reading spec command_id actor looked h normal
  plan-Pending reading (on_job request) looked h normal =
      plan_request-Pending platform Normal faithful db v reading request looked h normal
