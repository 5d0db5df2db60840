-- ===== src/SoftwareEngineer/Policy/Shipping.antt =====
-- When a change ships: with the owner's decision and without.
use nexus_agent_platform.Common.{
  Bool, Bool-cases, ap, true, any_of, ◌≡◌, refl, ◌↔◌, inl, inr, false, none, some, List, [], ◌∷◌,
  arith, Option-cases, All, ok,
}
use nexus_agent_platform.SoftwareEngineer.Models.{
  GateResult, OwnerDecision, OwnerVerdict, CycleDecision, CycleMode, OwnerDecision, OwnerVerdict,
  ReviewAnswer, RiskLevel, SelfReview,
}
use nexus_agent_platform.SoftwareEngineer.Policy.{
  after_owner, Reason, decide, without_owner, Evidence, ShipPolicy, PolicyDecision,
}
use nexus_agent_platform.SoftwareEngineer.Tests.{
  requires_human, exceeded, GateReason, gates_passed, has_failed, required_gates, is_nonempty,
}
use nexus_agent_platform.SoftwareEngineer.Policy.Gates.{
  no_failure, GatesHold, gates_passed_iff, IsWithinCycle, exceeded_iff, requires_human_iff,
}

-- The policy returns a decision, and it is to ship.
abbrev pub Ships : ShipPolicy → Evidence → Type 0
Ships policy e = (d : PolicyDecision) × (decide policy e ≡ ok d) × (d.decision ≡ CycleDecision.ship)

-- What a change needs to ship on its own
pub record IsAutonomous (policy : ShipPolicy) (e : Evidence) : Type 0 where
  pub within : IsWithinCycle e.usage policy.budget
  pub mode : policy.mode ≡ CycleMode.autonomous_low_risk
  pub change : e.plan_only ≡ false
  pub gates : GatesHold e.gates required_gates
  pub ungoverned : e.risk.governing_paths ≡ []
  pub low : e.risk.level ≡ RiskLevel.low
  pub review : SelfReview
  pub reviewed : e.self_review ≡ some review
  pub all_clear : All (λ item. item.answer ≡ ReviewAnswer.clear) review.items

-- What a change needs to ship on the owner's decision
pub record IsOwnerShip (policy : ShipPolicy) (e : Evidence) (decision : OwnerDecision)
    : Type 0 where
  pub within : IsWithinCycle e.usage policy.budget
  pub answers : e.request ≡ some decision.request_id
  pub verdict : decision.verdict ≡ OwnerVerdict.ship
  pub gates : GatesHold e.gates required_gates

nonempty_nil : {A : Type 0} (xs : List A) → is_nonempty xs ≡ false → xs ≡ []
nonempty_nil [] h = refl
nonempty_nil (x ∷ xs) h = absurd (cc)

valid-no_failure :
    (gates : List GateResult)
    → (gates_passed gates required_gates).0 ≡ true
    → any_of (λ item. has_failed item.status) gates ≡ false
valid-no_failure gates h =
    no_failure gates ((gates_passed_iff gates required_gates).0 h).none_failed

module _ (mode : CycleMode) (e : Evidence) (valid : Bool) (reason : GateReason)
    (ship : (without_owner mode e valid reason).decision ≡ CycleDecision.ship) where
  ship-valid : valid ≡ true
  unfolding without_owner
  ship-valid = ground arith

  ship-mode : mode ≡ CycleMode.autonomous_low_risk
  unfolding without_owner
  ship-mode = ground arith

  ship-ungoverned : is_nonempty e.risk.governing_paths ≡ false
  unfolding without_owner
  ship-ungoverned = ground arith

  ship-low : e.risk.level ≡ RiskLevel.low
  unfolding without_owner
  ship-low = ground arith

  ship-change : any_of (λ item. has_failed item.status) e.gates ≡ false → e.plan_only ≡ false
  unfolding without_owner
  ship-change h = ground arith

  ship-review : (r : SelfReview) × (e.self_review ≡ some r) × (requires_human r ≡ false)
  unfolding without_owner
  ship-review = elim (Option-cases e.self_review) [
    | inl f ↦ absurd (ground (arith, f))
    | inr (r, f) ↦ (r, f, ground (arith, f))
  ]

decide_alone :
    (policy : ShipPolicy) (e : Evidence) (d : PolicyDecision)
    → e.owner_decision ≡ none
    → decide policy e ≡ ok d
    → d.decision ≡ CycleDecision.ship
    → (is_nonempty (exceeded e.usage policy.budget) ≡ false)
      × ((without_owner policy.mode e
            (gates_passed e.gates required_gates).0
            (gates_passed e.gates required_gates).1).decision
          ≡ CycleDecision.ship)
unfolding decide
decide_alone policy e d alone h s =
    elim (Bool-cases (is_nonempty (exceeded e.usage policy.budget))) [
      | inl b ↦ absurd (ground (arith, alone, b))
      | inr b ↦ (b, ground (arith, alone, b))
    ]

alone-IsAutonomous :
    (policy : ShipPolicy) (e : Evidence)
    → e.owner_decision ≡ none
    → Ships policy e
    → IsAutonomous policy e
alone-IsAutonomous policy e alone (d, h, s) =
    let (inside, ship) = decide_alone policy e d alone h s in
    let passed : Bool × GateReason = gates_passed e.gates required_gates in
    let valid = ship-valid policy.mode e passed.0 passed.1 ship in
    let (review, given, clear) = ship-review policy.mode e passed.0 passed.1 ship in
    record {
      within = (exceeded_iff e.usage policy.budget).0 inside;
      mode = ship-mode policy.mode e passed.0 passed.1 ship;
      change = ship-change policy.mode e passed.0 passed.1 ship (valid-no_failure e.gates valid);
      gates = (gates_passed_iff e.gates required_gates).0 valid;
      ungoverned =
          nonempty_nil e.risk.governing_paths
            (ship-ungoverned policy.mode e passed.0 passed.1 ship);
      low = ship-low policy.mode e passed.0 passed.1 ship;
      review = review;
      reviewed = given;
      all_clear = (requires_human_iff review).0 clear;
    }

IsAutonomous-decision :
    (policy : ShipPolicy) (e : Evidence) (reason : GateReason)
    → IsAutonomous policy e
    → without_owner policy.mode e true reason
      ≡ record { decision = CycleDecision.ship; reasons = Reason.gates reason ∷ Reason.clean ∷ [] }
unfolding without_owner
IsAutonomous-decision policy e reason a =
    let clear = (requires_human_iff a.review).1 a.all_clear in
    ground (arith, clear, a.mode, a.change, a.ungoverned, a.low, a.reviewed)

IsAutonomous-Ships :
    (policy : ShipPolicy) (e : Evidence)
    → e.owner_decision ≡ none
    → IsAutonomous policy e
    → Ships policy e
unfolding decide without_owner
IsAutonomous-Ships policy e alone a =
    let passed : Bool × GateReason = gates_passed e.gates required_gates in
    let within = (exceeded_iff e.usage policy.budget).1 a.within in
    let valid = (gates_passed_iff e.gates required_gates).1 a.gates in
    let decision = IsAutonomous-decision policy e passed.1 a in
    (
      record { decision = CycleDecision.ship; reasons = Reason.gates passed.1 ∷ Reason.clean ∷ [] },
      rw (within, alone, valid) (ap ok decision),
      refl,
    )

-- Without an owner decision a change ships exactly when the hard budget is kept, the mode is
-- autonomous_low_risk, a change was produced, no gate failed and every required gate passed, no
-- governing path is touched, the risk is low, and a self-review answers every question with clear.
pub Ships-alone_iff :
    (policy : ShipPolicy) (e : Evidence)
    → e.owner_decision ≡ none
    → Ships policy e ↔ IsAutonomous policy e
Ships-alone_iff policy e alone =
    (alone-IsAutonomous policy e alone, IsAutonomous-Ships policy e alone)

owner-IsOwnerShip :
    (policy : ShipPolicy) (e : Evidence) (decision : OwnerDecision)
    → e.owner_decision ≡ some decision
    → Ships policy e
    → IsOwnerShip policy e decision
unfolding decide after_owner
owner-IsOwnerShip policy e decision asked (d, h, s) = elim (Option-cases e.request) [
  | inl f ↦ absurd (ground (arith, f, asked))
  | inr (request_id, f) ↦ record {
    within = (exceeded_iff e.usage policy.budget).0 (ground (arith, f, asked));
    answers = ground (arith, f, asked);
    verdict = ground (arith, f, asked);
    gates = (gates_passed_iff e.gates required_gates).0 (ground (arith, f, asked));
  }
]

IsOwnerShip-Ships :
    (policy : ShipPolicy) (e : Evidence) (decision : OwnerDecision)
    → e.owner_decision ≡ some decision
    → IsOwnerShip policy e decision
    → Ships policy e
unfolding decide after_owner
IsOwnerShip-Ships policy e decision asked a =
    let within = (exceeded_iff e.usage policy.budget).1 a.within in
    let valid = (gates_passed_iff e.gates required_gates).1 a.gates in
    (
      record { decision = CycleDecision.ship; reasons = Reason.owner_approved ∷ [] },
      ground (arith, asked, within, valid, a.answers, a.verdict),
      refl,
    )

-- With an owner decision a change ships exactly when the hard budget is kept, the decision answers
-- the current approval request, its verdict is to ship, no gate failed and every required gate
-- passed.
pub Ships-after_owner_iff :
    (policy : ShipPolicy) (e : Evidence) (decision : OwnerDecision)
    → e.owner_decision ≡ some decision
    → Ships policy e ↔ IsOwnerShip policy e decision
Ships-after_owner_iff policy e decision asked =
    (owner-IsOwnerShip policy e decision asked, IsOwnerShip-Ships policy e decision asked)
