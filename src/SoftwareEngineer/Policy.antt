-- ===== src/SoftwareEngineer/Policy.antt =====
-- The ship policy of src/nexus/software_engineer/policy.py.
pub mod Gates
pub mod Shipping
use nexus_agent_platform.SoftwareEngineer.Tests.{
  is_nonempty, required_gates, gates_passed, has_failed, Dimension, GateReason, requires_human,
  exceeded,
}
use nexus_agent_platform.Common.{
  ℕ, ◌+◌, ◌*◌, Bool, true, false, not, ◌&&◌, ◌||◌, Option, none, some, List, [], ◌∷◌, ◌++◌, ltb,
  leb, ◌==◌, if◌then◌else◌, is_some, any_of, Result, ok, err,
}
use nexus_agent_platform.SoftwareEngineer.Models.{
  CycleBudget, CycleDecision, CycleMode, CycleUsage, GateResult, GateStatus, OwnerDecision,
  OwnerVerdict, ReviewAnswer, ReviewItem, RiskAssessment, RiskLevel, SelfReview, ValidationGate,
  is_critical,
}

-- The reasons of a decision, each for one of the source's texts
pub data Reason : Type 0 where
  over_budget : List Dimension → Reason
  gates : GateReason → Reason
  plan_of_dry_run : Reason
  plan_without_change : Reason
  level_is : RiskLevel → Reason
  governing : Reason
  level_needs_owner : RiskLevel → Reason
  no_self_review : Reason
  human_judgment : Reason
  mode_never_ships : CycleMode → Reason
  clean : Reason
  owner_rejected : Reason
  owner_revises : Reason
  validation_lost : GateReason → Reason
  owner_approved : Reason

pub record PolicyDecision : Type 0 where
  pub decision : CycleDecision
  pub reasons : List Reason

-- `PolicyDecision.ships`
abbrev pub ships : PolicyDecision → Bool
ships d = elim d.decision [ CycleDecision.ship ↦ true | _ ↦ false ]

pub data PolicyError : Type 0 where
  foreign_decision : PolicyError

pub record ShipPolicy : Type 0 where
  pub mode : CycleMode
  pub budget : CycleBudget

-- The arguments of `ShipPolicy.decide`; of the current ApprovalRequest, its request_id
pub record Evidence : Type 0 where
  pub risk : RiskAssessment
  pub gates : List GateResult
  pub self_review : Option SelfReview
  pub usage : CycleUsage
  pub request : Option ℕ
  pub owner_decision : Option OwnerDecision
  pub plan_only : Bool

abbrev decided : CycleDecision → List Reason → PolicyDecision
decided decision reasons = record { decision = decision; reasons = reasons }

abbrev verdict_decision : OwnerVerdict → Bool → GateReason → PolicyDecision
verdict_decision OwnerVerdict.reject valid gate_reason =
    decided CycleDecision.abandon (Reason.owner_rejected ∷ [])
verdict_decision OwnerVerdict.revise valid gate_reason =
    decided CycleDecision.request_approval (Reason.owner_revises ∷ [])
verdict_decision OwnerVerdict.ship valid gate_reason =
    if valid
    then decided CycleDecision.ship (Reason.owner_approved ∷ [])
    else decided CycleDecision.abandon (Reason.validation_lost gate_reason ∷ [])

-- `_after_owner`
unfoldable pub after_owner :
    OwnerDecision → Option ℕ → Bool → GateReason → Result PolicyError PolicyDecision
after_owner decision none valid gate_reason = err PolicyError.foreign_decision
after_owner decision (some request_id) valid gate_reason =
    if decision.request_id == request_id
    then ok (verdict_decision decision.verdict valid gate_reason)
    else err PolicyError.foreign_decision

abbrev is_low : RiskLevel → Bool
is_low RiskLevel.low = true
is_low _ = false

abbrev is_dry_run : CycleMode → Bool
is_dry_run CycleMode.dry_run = true
is_dry_run _ = false

abbrev in_mode : CycleMode → List Reason → PolicyDecision
in_mode CycleMode.autonomous_low_risk reasons =
    decided CycleDecision.ship (reasons ++ Reason.clean ∷ [])
in_mode mode reasons =
    decided CycleDecision.request_approval (reasons ++ Reason.mode_never_ships mode ∷ [])

abbrev reviewed : Option SelfReview → CycleMode → List Reason → PolicyDecision
reviewed none mode reasons =
    decided CycleDecision.request_approval (reasons ++ Reason.no_self_review ∷ [])
reviewed (some review) mode reasons =
    if requires_human review
    then decided CycleDecision.request_approval (reasons ++ Reason.human_judgment ∷ [])
    else in_mode mode reasons

-- `decide` without an owner decision
unfoldable pub without_owner : CycleMode → Evidence → Bool → GateReason → PolicyDecision
without_owner mode e valid gate_reason =
    let failed = any_of (λ item. has_failed item.status) e.gates in
    let reasons = Reason.gates gate_reason ∷ [] in
    if is_dry_run mode && not failed
    then decided CycleDecision.request_approval
        (Reason.plan_of_dry_run ∷ Reason.level_is e.risk.level ∷ [])
    else (if e.plan_only && not failed
        then decided CycleDecision.request_approval
            (Reason.plan_without_change ∷ Reason.level_is e.risk.level ∷ [])
        else (if not valid
            then decided CycleDecision.abandon reasons
            else (if is_nonempty e.risk.governing_paths
                then decided CycleDecision.request_approval (reasons ++ Reason.governing ∷ [])
                else (if not (is_low e.risk.level)
                    then decided CycleDecision.request_approval
                        (reasons ++ Reason.level_needs_owner e.risk.level ∷ [])
                    else reviewed e.self_review mode reasons))))

abbrev answered :
    CycleMode
    → Evidence
    → Option OwnerDecision
    → Bool × GateReason
    → Result PolicyError PolicyDecision
answered mode e none passed = ok (without_owner mode e passed.0 passed.1)
answered mode e (some decision) passed = after_owner decision e.request passed.0 passed.1

-- `ShipPolicy.decide`
unfoldable pub decide : ShipPolicy → Evidence → Result PolicyError PolicyDecision
decide policy e =
    let over = exceeded e.usage policy.budget in
    let passed = gates_passed e.gates required_gates in
    if is_nonempty over
    then ok (decided CycleDecision.blocked (Reason.over_budget over ∷ []))
    else answered policy.mode e e.owner_decision passed
