-- ===== src/SoftwareEngineer/Record/Shipped.antt =====
-- What a valid record of a shipped change says, and that the ship policy's decisions have one.
use nexus_agent_platform.Common.{
  All, ◌≡◌, inl, inr, true, false, not, ◌&&◌, none, some, arith, Option-cases, is_some, any_of, ok,
  raise_if, >>=-eq-ok,
}
use nexus_agent_platform.SoftwareEngineer.Models.{
  CycleDecision, CycleMode, OwnerDecision, OwnerVerdict, RiskAssessment, RiskLevel, SelfReview,
}
use nexus_agent_platform.SoftwareEngineer.Tests.{
  exceeded, has_failed, is_blocking, is_nonempty, requires_human,
}
use nexus_agent_platform.SoftwareEngineer.Policy.{Evidence, ShipPolicy}
use nexus_agent_platform.SoftwareEngineer.Policy.Gates.{
  IsNoFailure, any_failed-false, IsWithinCycle, no_failure, exceeded_iff, requires_human_iff,
}
use nexus_agent_platform.SoftwareEngineer.Policy.Shipping.{
  Ships, Ships-after_owner_iff, Ships-alone_iff,
}
use nexus_agent_platform.SoftwareEngineer.Record.{
  answers_request, is_exhausted, CycleRecord, validate_cycle, validate_decision, validate_parts,
  validate_ship,
}

-- The record of a cycle whose evidence the policy has decided on, without a failure
pub record IsRecordOf (policy : ShipPolicy) (e : Evidence) (r : CycleRecord) : Type 0 where
  pub mode : r.mode ≡ policy.mode
  pub risk : r.risk ≡ some e.risk
  pub changed : is_some r.change ≡ true
  pub self_review : r.self_review ≡ e.self_review
  pub reviewed : is_some r.self_review ≡ true
  pub gates : r.gates ≡ e.gates
  pub owner_decision : r.owner_decision ≡ e.owner_decision
  pub unfailed : r.failure ≡ none

not_blocking : (review : SelfReview) → requires_human review ≡ false → is_blocking review ≡ false
unfolding requires_human
not_blocking review h = ground (arith, h)

-- Whatever the policy ships, with or without an owner decision, the record of it, with a change
-- and a self-review and without a failure, passes the validation of a shipped cycle.
pub Ships-validate_ship :
    (policy : ShipPolicy) (e : Evidence) (r : CycleRecord)
    → IsRecordOf policy e r
    → Ships policy e
    → validate_ship r ≡ ok tt
unfolding validate_ship
Ships-validate_ship policy e r same ships = elim (Option-cases e.owner_decision) [
  | inl alone ↦
      let a = (Ships-alone_iff policy e alone).0 ships in
      let gates : any_of (λ g. has_failed g.status) r.gates ≡ false =
        rw same.gates (no_failure e.gates a.gates.none_failed) in
      let clear = not_blocking a.review ((requires_human_iff a.review).1 a.all_clear) in
      ground (
        arith, gates, clear, a.mode, a.low, a.reviewed, alone, same.mode, same.risk, same.changed,
        same.self_review, same.owner_decision, same.unfailed,
      )
  | inr (d, asked) ↦
      let o = (Ships-after_owner_iff policy e d asked).0 ships in
      let gates : any_of (λ g. has_failed g.status) r.gates ≡ false =
        rw same.gates (no_failure e.gates o.gates.none_failed) in
      ground (
        arith, gates, asked, o.verdict, same.risk, same.changed, same.reviewed, same.owner_decision,
      )
]

-- A shipped change without an owner decision
pub record IsSolo (r : CycleRecord) : Type 0 where
  pub mode : r.mode ≡ CycleMode.autonomous_low_risk
  pub risk : RiskAssessment
  pub assessed : r.risk ≡ some risk
  pub low : risk.level ≡ RiskLevel.low
  pub review : SelfReview
  pub reviewed : r.self_review ≡ some review
  pub clear : is_blocking review ≡ false
  pub changed : is_some r.change ≡ true
  pub unfailed : r.failure ≡ none
  pub within : IsWithinCycle r.usage r.budget
  pub gates : All IsNoFailure r.gates

module _ (r : CycleRecord) (valid : validate_cycle r ≡ ok tt)
    (shipped : r.decision ≡ CycleDecision.ship) where
  ship_checked :
      (validate_ship r ≡ ok tt)
      × (is_nonempty (exceeded r.usage r.budget) && not (is_exhausted r.failure) ≡ false)
      × (answers_request r.owner_decision r.approval_request ≡ true)
  unfolding validate_cycle validate_decision
  ship_checked =
      let (_, _, h1) = >>=-eq-ok (validate_parts r) _ valid in
      let (_, budgeted, h2) =
        >>=-eq-ok
          (raise_if (is_nonempty (exceeded r.usage r.budget) && not (is_exhausted r.failure)) _) _
          h1 in
      let (_, ship, h3) = >>=-eq-ok (validate_decision r) _ h2 in
      (ground (arith, ship, shipped), ground (arith, budgeted), ground (arith, h3))

-- A valid record that ships without an owner decision is one of an autonomous cycle within its
-- budget that did not fail, with a change of low risk, a self-review that does not block and no
-- gate with the status failed or error.
pub validate_cycle-IsSolo :
    (r : CycleRecord)
    → validate_cycle r ≡ ok tt
    → r.decision ≡ CycleDecision.ship
    → r.owner_decision ≡ none
    → IsSolo r
unfolding validate_ship
validate_cycle-IsSolo r valid shipped alone =
    let (ship, budgeted, _) = ship_checked r valid shipped in
    elim (Option-cases r.risk) [
      | inl e ↦ absurd (ground (arith, ship, e))
      | inr (risk, e) ↦ elim (Option-cases r.self_review) [
        | inl f ↦ absurd (ground (arith, ship, f))
        | inr (review, f) ↦
            let changed : is_some r.change ≡ true = ground (arith, ship, e, f) in
            let unfailed : r.failure ≡ none = ground (arith, ship, e, f, alone, changed) in
            record {
              mode = ground (arith, ship, alone);
              risk = risk;
              assessed = e;
              low = ground (arith, ship, e, f, alone, changed);
              review = review;
              reviewed = f;
              clear = ground (arith, ship, e, f, alone, changed);
              changed = changed;
              unfailed = unfailed;
              within = (exceeded_iff r.usage r.budget).0 (ground (arith, budgeted, unfailed));
              gates = any_failed-false r.gates (ground (arith, ship, e, f, alone, changed));
            }
      ]
    ]

-- A valid record that ships after an owner decision has a decision to ship that answers the
-- request of the cycle, a change and no gate with the status failed or error.
pub validate_cycle-owner :
    (r : CycleRecord) (d : OwnerDecision)
    → validate_cycle r ≡ ok tt
    → r.decision ≡ CycleDecision.ship
    → r.owner_decision ≡ some d
    → (d.verdict ≡ OwnerVerdict.ship)
      × (r.approval_request ≡ some d.request_id)
      × (is_some r.change ≡ true)
      × All IsNoFailure r.gates
unfolding validate_ship
validate_cycle-owner r d valid shipped asked =
    let (ship, _, answered) = ship_checked r valid shipped in
    elim (Option-cases r.risk) [
      | inl e ↦ absurd (ground (arith, ship, e))
      | inr (risk, e) ↦ elim (Option-cases r.self_review) [
        | inl f ↦ absurd (ground (arith, ship, f))
        | inr (review, f) ↦
            let changed : is_some r.change ≡ true = ground (arith, ship, e, f) in
            (
              ground (arith, ship, e, f, asked, changed),
              ground (arith, answered, asked),
              changed,
              any_failed-false r.gates (ground (arith, ship, e, f, asked, changed)),
            )
      ]
    ]
