-- ===== src/Atlas/Service/Runs/Keys.antt =====
-- How a command is recognised when it comes again: by its id, its operation and its digest.
use nexus_agent_platform.Common.{
  ℕ, String, ◌≡◌, refl, subst, ◌⊎◌, inl, inr, some, arith, ok, ◌>>=◌, >>=-eq-ok, ℤ, pos, negsuc,
}
use nexus_agent_platform.Atlas.Models.{ActorIdentity, Job, JobSpec}
use nexus_agent_platform.Atlas.Storage.Tables.{Database}
use nexus_agent_platform.Atlas.Storage.Read.{lookup_command}
use nexus_agent_platform.Atlas.Validate.{check_command_id}
use nexus_agent_platform.Atlas.Policy.{require_operator}
use nexus_agent_platform.Atlas.Service.Requests.{operation_name, Request, Platform, Reading, Hashed}
use nexus_agent_platform.Atlas.Service.Bodies.{body}
use nexus_agent_platform.Atlas.Service.Plans.{
  Plan, replay, write, Prepared, replayed, fresh, prepare, prepare_at, persist_plan, make_command,
  plan_request, plan_creation, creation_at, Command, create_job, on_job, plan,
}
use nexus_agent_platform.Atlas.Service.Pending.Planning.{persist_plan-eq-ok}

abbrev pub key : Command → String
key (create_job spec command_id actor) = command_id
key (on_job request) = request.command_id

abbrev pub name : Command → String
name (create_job spec command_id actor) = "job.create"
name (on_job request) = operation_name request.operation

module _ {T : Type 0} (platform : Platform T) where
  abbrev request_digest : Request → ℤ → String
  request_digest request (negsuc n) = ""
  request_digest request (pos n) = platform.canonical_sha256 (
      Hashed.request (operation_name request.operation) request.operation request.actor
        request.job_id n)

  abbrev pub digest : Command → String
  digest (create_job spec command_id actor) = platform.canonical_sha256 (Hashed.creation actor spec)
  digest (on_job request) = request_digest request request.expected_revision

  -- The store has the response of the command.
  abbrev pub Answered : Command → Database T → Job → Type 0
  Answered command db job =
      lookup_command platform.codec (key command) (name command) (digest command) db ≡ ok (some job)

  -- What a command's plan records of it
  abbrev pub IsRecorded : Command → Database T → Plan → Type 0
  IsRecorded command db (replay job) = Answered command db job
  IsRecorded command db (write expected after event record') =
      (record'.command_id ≡ key command)
      × (record'.operation ≡ name command)
      × (record'.request_sha256 ≡ digest command)

  -- A command that is not malformed
  abbrev pub IsAdmissible : Command → Type 0
  IsAdmissible (create_job spec command_id actor) =
      (check_command_id command_id ≡ ok tt) × (require_operator actor ≡ ok tt)
  IsAdmissible (on_job request) =
      (check_command_id request.command_id ≡ ok tt)
      × ((n : ℕ) × (request.expected_revision ≡ pos n))

  abbrev PreparedFrom : Request → Database T → Prepared → Type 0
  PreparedFrom request db (replayed job) = Answered (on_job request) db job
  PreparedFrom request db (fresh f n job) = f ≡ digest (on_job request)

  Int-cases : (z : ℤ) → ((n : ℕ) × (z ≡ pos n)) ⊎ ((n : ℕ) × (z ≡ negsuc n))
  Int-cases (pos n) = inl (n, refl)
  Int-cases (negsuc n) = inr (n, refl)

  prepared_from :
      (request : Request) (looked db : Database T) (prepared : Prepared)
      → prepare platform request looked db ≡ ok prepared
      → IsAdmissible (on_job request) × PreparedFrom request looked prepared
  unfolding prepare prepare_at
  prepared_from request looked db (replayed job) h = elim (Int-cases request.expected_revision) [
    | inl (n, e) ↦ ((ground (arith, e), (n, e)), ground (arith, e))
    | inr (n, e) ↦ absurd (ground (arith, e))
  ]
  prepared_from request looked db (fresh f n job) h = elim (Int-cases request.expected_revision) [
    | inl (n, e) ↦ ((ground (arith, e), (n, e)), ground (arith, e))
    | inr (n, e) ↦ absurd (ground (arith, e))
  ]

  request-IsRecorded :
      (reading : Reading) (request : Request) (looked db : Database T) {p : Plan}
      → plan_request platform reading request looked db ≡ ok p
      → IsAdmissible (on_job request) × IsRecorded (on_job request) looked p
  unfolding plan_request
  request-IsRecorded reading request looked db {p} h =
      let (prepared, e, k) = >>=-eq-ok (prepare platform request looked db) _ h in
      planned prepared e k
    where
      planned :
          (prepared : Prepared)
          → prepare platform request looked db ≡ ok prepared
          → elim prepared [
            | replayed job ↦ ok (replay job)
            | fresh fingerprint expected job ↦ do
              change ← body platform request.operation reading request.actor job
              persist_plan platform request fingerprint expected job change
          ]
            ≡ ok p
          → IsAdmissible (on_job request) × IsRecorded (on_job request) looked p
      planned (replayed job) e k =
          let same : replay job ≡ p = cc in
          let (admissible, answered) = prepared_from request looked db (replayed job) e in
          (admissible, subst (IsRecorded (on_job request) looked) same answered)
      planned (fresh f n job) e k =
          let (admissible, own) = prepared_from request looked db (fresh f n job) e in
          let (c, b, k') =
            >>=-eq-ok (body platform request.operation reading request.actor job) _ k in
          let (shape, same) = persist_plan-eq-ok platform request f n job c k' in
          (
            admissible,
            subst (IsRecorded (on_job request) looked) same
                (unfold make_command in (refl, refl, own)),
          )

  creation-IsAdmissible :
      (reading : Reading) (spec : JobSpec) (command_id : String) (actor : ActorIdentity)
      (db : Database T) {p : Plan}
      → plan_creation platform reading spec command_id actor db ≡ ok p
      → IsAdmissible (create_job spec command_id actor)
  unfolding plan_creation
  creation-IsAdmissible reading spec command_id actor db {p} h = (ground arith, ground arith)

  creation-IsRecorded :
      (reading : Reading) (spec : JobSpec) (command_id : String) (actor : ActorIdentity)
      (db : Database T) (p : Plan)
      → plan_creation platform reading spec command_id actor db ≡ ok p
      → IsRecorded (create_job spec command_id actor) db p
  unfolding plan_creation creation_at make_command
  creation-IsRecorded reading spec command_id actor db (replay job) h = ground arith
  creation-IsRecorded reading spec command_id actor db (write expected after event command) h =
      ground arith

  -- A plan records its command, which is admissible.
  pub plan-IsRecorded :
      (reading : Reading) (command : Command) (looked db : Database T) {p : Plan}
      → plan platform reading command looked db ≡ ok p
      → IsAdmissible command × IsRecorded command looked p
  unfolding plan
  plan-IsRecorded reading (create_job spec command_id actor) looked db {p} h = (
    creation-IsAdmissible reading spec command_id actor looked h,
    creation-IsRecorded reading spec command_id actor looked p h,
  )
  plan-IsRecorded reading (on_job request) looked db h =
      request-IsRecorded reading request looked db h

  -- A command whose response the store has is answered with it, whatever the clock reads.
  pub Answered-plan :
      (reading : Reading) (command : Command) (looked db : Database T) {job : Job}
      → IsAdmissible command
      → Answered command looked job
      → plan platform reading command looked db ≡ ok (replay job)
  unfolding plan plan_creation plan_request prepare prepare_at
  Answered-plan reading (create_job spec command_id actor) looked db a h = ground arith
  Answered-plan reading (on_job request) looked db a h = ground arith
