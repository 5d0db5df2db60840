-- ===== src/Atlas/Service/Runs/Guarantees.antt =====
-- The guarantees of the control plane over every store that its commands lead to, whatever
-- control planes work on it and however their transactions interleave.
use nexus_agent_platform.Common.{
  ℕ, ◌+◌, ◌≡◌, ◌⊎◌, inl, inr, none, some, List, arith, Option-cases, ok,
}
use nexus_agent_platform.Atlas.Models.{
  AuditEvent, Job, JobStatus, ReviewResult, ReviewVerdict, ApprovalRecord, ApprovalDecision, human,
}
use nexus_agent_platform.Atlas.Storage.Read.{get_job, list_audit_events, integrity_check}
use nexus_agent_platform.Atlas.Storage.History.{Log}
use nexus_agent_platform.Atlas.Storage.Integrity.{integrity_check_ok, stored_job}
use nexus_agent_platform.Atlas.Validate.Lifecycle.{validate_job_record}
use nexus_agent_platform.Atlas.Validate.WellFormed.{IsWellFormed, validate_lifecycle-IsWellFormed}
use nexus_agent_platform.Atlas.Service.Requests.{Platform}
use nexus_agent_platform.Atlas.Service.Pending.{IsSound, IsFaithful, Normality}
use nexus_agent_platform.Atlas.Service.Pending.Growth.{Grows}
use nexus_agent_platform.Atlas.Service.Runs.{System, Reached, Run}
use nexus_agent_platform.Atlas.Service.Runs.Reached.{Reached-IsOrderly, Run-keeps}

-- A passed review by the assigned reviewer, and an approval by a human.
pub record IsApproved (job : Job) : Type 0 where
  pub review : ReviewResult
  pub approval : ApprovalRecord
  pub reviewed : job.review ≡ some review
  pub passed : review.verdict ≡ ReviewVerdict.passed
  pub by_reviewer : review.reviewer_agent_id ≡ job.reviewer_agent_id
  pub decided : job.approval ≡ some approval
  pub approved : approval.decision ≡ ApprovalDecision.approved
  pub by_human : approval.decided_by.actor_type ≡ human

valid-IsWellFormed : (job : Job) → validate_job_record job ≡ ok tt → IsWellFormed job
unfolding validate_job_record
valid-IsWellFormed job h = validate_lifecycle-IsWellFormed job (ground arith)

IsSound-IsApproved :
    (job : Job)
    → IsSound job
    → (job.status ≡ JobStatus.approved) ⊎ (job.status ≡ JobStatus.completed)
    → IsApproved job
IsSound-IsApproved job s h =
    let w = valid-IsWellFormed job s.valid in
    elim (Option-cases job.review) [
      | inl e ↦ absurd (ground (arith, e, w.evidence))
      | inr (r, e) ↦ elim (Option-cases job.approval) [
        | inl f ↦ absurd (ground (arith, f, w.evidence))
        | inr (a, f) ↦ record {
          review = r;
          approval = a;
          reviewed = e;
          passed = ground (arith, e, f, s.proper, w.evidence);
          by_reviewer = ground (arith, e, s.proper);
          decided = f;
          approved = ground (arith, e, f, s.proper, w.evidence);
          by_human = ground (arith, f, s.proper);
        }
      ]
    ]

module _ {T : Type 0} (platform : Platform T) (Normal : Normality)
    (faithful : IsFaithful platform.codec Normal) where
  -- With a codec that is faithful on normal jobs and events, every reached store passes the
  -- integrity check.
  pub Reached-integrity :
      (s : System T) → Reached platform Normal s → integrity_check platform.codec s.db ≡ ok tt
  Reached-integrity s r =
      integrity_check_ok platform.codec IsSound s.db
        (Reached-IsOrderly platform Normal faithful r).inv

  -- With a codec that is faithful on normal jobs and events, every job that is read from a reached
  -- store has an audit history that is read without error and leads, one lifecycle link or one
  -- review at a time, from its creation to its status, with one event to a revision.
  pub Reached-history :
      (s : System T) (id : ℕ) (job : Job)
      → Reached platform Normal s
      → get_job platform.codec id s.db ≡ ok job
      → (log : List AuditEvent) × (list_audit_events platform.codec id s.db ≡ ok log)
        × Log 0 none log (job.revision + 1) (some job.status)
  Reached-history s id job r h =
      (stored_job platform.codec IsSound s.db id (Reached-IsOrderly platform Normal faithful r).inv
        h).1

  -- With a codec that is faithful on normal jobs and events, every job that is read from a reached
  -- store is well formed.
  pub Reached-IsWellFormed :
      (s : System T) (id : ℕ) (job : Job)
      → Reached platform Normal s
      → get_job platform.codec id s.db ≡ ok job
      → IsWellFormed job
  Reached-IsWellFormed s id job r h =
      valid-IsWellFormed job
        (stored_job platform.codec IsSound s.db id
          (Reached-IsOrderly platform Normal faithful r).inv h).0.valid

  -- With a codec that is faithful on normal jobs and events, every job that is read from a reached
  -- store and is approved or completed has a passed review by its assigned reviewer and an
  -- approval by a human.
  pub Reached-IsApproved :
      (s : System T) (id : ℕ) (job : Job)
      → Reached platform Normal s
      → get_job platform.codec id s.db ≡ ok job
      → (job.status ≡ JobStatus.approved) ⊎ (job.status ≡ JobStatus.completed)
      → IsApproved job
  Reached-IsApproved s id job r h =
      IsSound-IsApproved job
        (stored_job platform.codec IsSound s.db id
          (Reached-IsOrderly platform Normal faithful r).inv h).0

  -- With a codec that is faithful on normal jobs and events, every run from a reached system keeps
  -- the events as the first of the later ones, the recorded commands in their rows, and each job
  -- as it was or at a higher revision.
  pub Reached-append_only :
      (s t : System T) → Reached platform Normal s → Run platform Normal s t → Grows s.db t.db
  Reached-append_only s t r later =
      (Run-keeps platform Normal faithful later (Reached-IsOrderly platform Normal faithful r)).1
