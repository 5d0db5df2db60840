-- ===== src/Atlas/StateMachine/Paths.antt =====
-- The lifecycle graph: what any path through it must visit.
use nexus_agent_platform.Common.{◌≡◌, refl, subst, ◌≢◌, ◌⊎◌, inl, inr, arith, ok}
use nexus_agent_platform.Atlas.Models.{JobStatus}
use nexus_agent_platform.Atlas.StateMachine.{require_transition}

-- A path of transitions that `require_transition` lets through
pub data Walk (s : JobStatus) : JobStatus → Type 0 where
  here : Walk s s
  onward : {t u : JobStatus} → Walk s t → require_transition t u ≡ ok tt → Walk s u

abbrev pub Visits : (v : JobStatus) {s t : JobStatus} → Walk s t → Type 0
Visits v {s} here = s ≡ v
Visits v (onward {t} {u} walk edge) = Visits v walk ⊎ (u ≡ v)

Visits-last : (v : JobStatus) {s t : JobStatus} (walk : Walk s t) → t ≡ v → Visits v walk
Visits-last v here e = e
Visits-last v (onward walk edge) e = inr e

-- A status with one predecessor is visited after it.
Visits-before :
    (v w : JobStatus) {s t : JobStatus}
    → ((r : JobStatus) → require_transition r w ≡ ok tt → r ≡ v)
    → s ≢ w
    → (walk : Walk s t) → Visits w walk
    → Visits v walk
Visits-before v w only ne here e = absurd (ne e)
Visits-before v w only ne (onward walk edge) (inl h) = inl (Visits-before v w only ne walk h)
Visits-before v w only ne (onward {t} {u} walk edge) (inr e) =
    inl (Visits-last v walk (only t (subst (λ x. require_transition t x ≡ ok tt) e edge)))

before_completed :
    (r : JobStatus) → require_transition r JobStatus.completed ≡ ok tt → r ≡ JobStatus.approved
unfolding require_transition
before_completed r e = ground arith

before_approved :
    (r : JobStatus)
    → require_transition r JobStatus.approved ≡ ok tt
    → r ≡ JobStatus.awaiting_review
unfolding require_transition
before_approved r e = ground arith

before_review :
    (r : JobStatus) → require_transition r JobStatus.awaiting_review ≡ ok tt → r ≡ JobStatus.running
unfolding require_transition
before_review r e = ground arith

before_running :
    (r : JobStatus) → require_transition r JobStatus.running ≡ ok tt → r ≡ JobStatus.queued
unfolding require_transition
before_running r e = ground arith

-- Whatever transitions take a created job to completion, it was queued, running, awaiting review
-- and approved on the way.
pub completed_walk :
    (walk : Walk JobStatus.created JobStatus.completed)
    → Visits JobStatus.queued walk
      × Visits JobStatus.running walk
      × Visits JobStatus.awaiting_review walk
      × Visits JobStatus.approved walk
completed_walk walk =
    let last = Visits-last JobStatus.completed walk refl in
    let approved =
      Visits-before JobStatus.approved JobStatus.completed before_completed (ground arith) walk
        last in
    let reviewed =
      Visits-before JobStatus.awaiting_review JobStatus.approved before_approved (ground arith) walk
        approved in
    let running =
      Visits-before JobStatus.running JobStatus.awaiting_review before_review (ground arith) walk
        reviewed in
    let queued =
      Visits-before JobStatus.queued JobStatus.running before_running (ground arith) walk running in
    (queued, running, reviewed, approved)
