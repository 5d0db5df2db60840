-- ===== src/SoftwareEngineer/Record.antt =====
-- CycleRecord of src/nexus/software_engineer/models.py, the audit record of one engineering cycle,
-- as far as its validators read it.
pub mod Shipped
use nexus_agent_platform.Common.{
  repeats, is_range, ℕ, zero, suc, ◌+◌, ◌-◌, ◌*◌, ◌≤◌, ◌<◌, String, ◌≡◌, refl, sym, ap, ◌∙◌, subst,
  ◌≢◌, ◌↔◌, ◌⊎◌, inl, inr, Bool, true, false, not, ◌&&◌, ◌||◌, Option, none, some, List, [], ◌∷◌,
  ◌++◌, map, append-nil, append_assoc, arith, ℕ_discrete, ltb, leb, ◌==◌, if◌then◌else◌, ==_iff,
  ==_refl, Bool-cases, if_cases, Option-cases, is_some, length, length-append, map-append, any_of,
  any_of-append, all_of, last_or, last_or-append, count_of, count_of-append, All, All-append,
  All-map, Result, ok, err, ◌>>=◌, ◌>>◌, raise_if, >>=-eq-ok, Result-cases, codes, is_lower,
  is_upper, is_digit, str_eq, str_eq_iff,
}
use nexus_agent_platform.SoftwareEngineer.Models.{
  CycleBudget, CycleDecision, CycleMode, CycleUsage, GateResult, OwnerDecision, OwnerVerdict,
  RiskAssessment, RiskLevel, SelfReview, ValidationGate,
}
use nexus_agent_platform.SoftwareEngineer.Tests.{
  exceeded, has_failed, is_blocking, is_nonempty, gate_index,
}

pub data CyclePhase : Type 0 where
  created observe understand prioritize investigate plan implement test self_review assess_risk
        decide observe_results learn report closed :
      CyclePhase

abbrev cycle_phase_index : CyclePhase → ℕ
cycle_phase_index CyclePhase.created = 0
cycle_phase_index CyclePhase.observe = 1
cycle_phase_index CyclePhase.understand = 2
cycle_phase_index CyclePhase.prioritize = 3
cycle_phase_index CyclePhase.investigate = 4
cycle_phase_index CyclePhase.plan = 5
cycle_phase_index CyclePhase.implement = 6
cycle_phase_index CyclePhase.test = 7
cycle_phase_index CyclePhase.self_review = 8
cycle_phase_index CyclePhase.assess_risk = 9
cycle_phase_index CyclePhase.decide = 10
cycle_phase_index CyclePhase.observe_results = 11
cycle_phase_index CyclePhase.learn = 12
cycle_phase_index CyclePhase.report = 13
cycle_phase_index CyclePhase.closed = 14

pub data CycleFailure : Type 0 where
  budget_exhausted credentials_missing executor_error validation_failed policy_denied
        internal_error :
      CycleFailure

pub record CycleTransition : Type 0 where
  pub sequence : ℕ
  pub source : CyclePhase
  pub target : CyclePhase
  pub reason : String
  pub occurred_at : ℕ

-- Of a candidate, what refers to it and what it cites
pub record EngineeringCandidate : Type 0 where
  pub candidate_id : ℕ
  pub title : String
  pub signal_ids : List ℕ

-- The record, with the signals by their ids, the change by the hash of its diff and the request by
-- its id
pub record CycleRecord : Type 0 where
  pub cycle_id : ℕ
  pub mode : CycleMode
  pub started_at : ℕ
  pub completed_at : ℕ
  pub phase_reached : CyclePhase
  pub transitions : List CycleTransition
  pub signals : List ℕ
  pub candidates : List EngineeringCandidate
  pub ranking : List ℕ
  pub selected_candidate_id : Option ℕ
  pub abandoned_candidate_ids : List ℕ
  pub risk : Option RiskAssessment
  pub self_review : Option SelfReview
  pub gates : List GateResult
  pub change : Option String
  pub decision : CycleDecision
  pub approval_request : Option ℕ
  pub owner_decision : Option OwnerDecision
  pub budget : CycleBudget
  pub usage : CycleUsage
  pub failure : Option CycleFailure

-- A ValueError, one constructor for each message
pub data CycleFault : Type 0 where
  ends_first not_contiguous not_from_created phase_differs candidates_repeat : CycleFault
  ranking_differs selected_unknown abandoned_unknown signal_unknown gates_repeat : CycleFault
  over_budget no_request no_work_does : CycleFault
  foreign_decision mode_cannot_ship no_evidence not_low blocking_review failed_cycle : CycleFault
  other_verdict failed_gate : CycleFault

abbrev Checked : Type 0
Checked = Result CycleFault (Unit {0})

abbrev repeats_gate : List GateResult → Bool
repeats_gate [] = false
repeats_gate (g ∷ gs) = any_of (λ h. gate_index g.gate == gate_index h.gate) gs || repeats_gate gs

-- `set(xs).issubset(ys)`
abbrev is_subset : List ℕ → List ℕ → Bool
is_subset xs ys = all_of (λ x. any_of (λ y. y == x) ys) xs

abbrev starts_created : List CycleTransition → Bool
starts_created [] = false
starts_created (t ∷ ts) = cycle_phase_index t.source == 0

abbrev ends_in : CyclePhase → List CycleTransition → Bool
ends_in phase [] = false
ends_in phase (t ∷ ts) = cycle_phase_index (last_or t ts).target == cycle_phase_index phase

abbrev is_in_option : List ℕ → Option ℕ → Bool
is_in_option ids none = true
is_in_option ids (some id) = any_of (λ y. y == id) ids

abbrev pub is_exhausted : Option CycleFailure → Bool
is_exhausted (some CycleFailure.budget_exhausted) = true
is_exhausted _ = false

abbrev pub is_autonomous : CycleMode → Bool
is_autonomous CycleMode.autonomous_low_risk = true
is_autonomous _ = false

abbrev pub is_low_risk : RiskLevel → Bool
is_low_risk RiskLevel.low = true
is_low_risk _ = false

abbrev pub is_ship_verdict : OwnerVerdict → Bool
is_ship_verdict OwnerVerdict.ship = true
is_ship_verdict _ = false

-- The branches of `_validate_ship` on the owner's decision
abbrev validate_authority :
    Option OwnerDecision → RiskAssessment → SelfReview → Option CycleFailure → Checked
validate_authority none risk review failure = do
  raise_if (not (is_low_risk risk.level)) CycleFault.not_low
  raise_if (is_blocking review) CycleFault.blocking_review
  raise_if (is_some failure) CycleFault.failed_cycle
validate_authority (some decision) risk review failure =
    raise_if (not (is_ship_verdict decision.verdict)) CycleFault.other_verdict

-- `if risk is None or change is None or self_review is None`
abbrev evidence_of :
    Option RiskAssessment
    → Option String
    → Option SelfReview
    → Result CycleFault (RiskAssessment × SelfReview)
evidence_of (some risk) (some change) (some review) = ok (risk, review)
evidence_of _ _ _ = err CycleFault.no_evidence

-- `_validate_ship`
unfoldable pub validate_ship : CycleRecord → Checked
validate_ship r = do
  raise_if (not (is_autonomous r.mode) && not (is_some r.owner_decision))
      CycleFault.mode_cannot_ship
  evidence ← evidence_of r.risk r.change r.self_review
  validate_authority r.owner_decision evidence.0 evidence.1 r.failure
  raise_if (any_of (λ g. has_failed g.status) r.gates) CycleFault.failed_gate

abbrev answers_request : Option OwnerDecision → Option ℕ → Bool
answers_request none request = true
answers_request (some decision) none = false
answers_request (some decision) (some id) = decision.request_id == id

-- The branches of `validate_cycle` on the decision
unfoldable pub validate_decision : CycleRecord → Checked
unfolding validate_ship
validate_decision r = elim r.decision [
  | CycleDecision.ship ↦ validate_ship r
  | CycleDecision.request_approval ↦
      raise_if (not (is_some r.approval_request) || not (is_some r.selected_candidate_id))
        CycleFault.no_request
  | CycleDecision.no_work ↦
      raise_if (is_some r.selected_candidate_id || is_some r.change) CycleFault.no_work_does
  | _ ↦ ok tt
]

-- The part of `validate_cycle` on transitions, candidates and gates
unfoldable pub validate_parts : CycleRecord → Checked
validate_parts r =
    let ids = map (λ c. c.candidate_id) r.candidates in
    do
      raise_if (ltb r.completed_at r.started_at) CycleFault.ends_first
      raise_if (not (is_range 1 (map (λ t. t.sequence) r.transitions))) CycleFault.not_contiguous
      raise_if (not (starts_created r.transitions)) CycleFault.not_from_created
      raise_if (not (ends_in r.phase_reached r.transitions)) CycleFault.phase_differs
      raise_if (repeats ids) CycleFault.candidates_repeat
      raise_if
          (not (is_subset r.ranking ids && is_subset ids r.ranking)
            || not (length r.ranking == length ids))
          CycleFault.ranking_differs
      raise_if (not (is_in_option ids r.selected_candidate_id)) CycleFault.selected_unknown
      raise_if (not (is_subset r.abandoned_candidate_ids ids)) CycleFault.abandoned_unknown
      raise_if (any_of (λ c. not (is_subset c.signal_ids r.signals)) r.candidates)
          CycleFault.signal_unknown
      raise_if (repeats_gate r.gates) CycleFault.gates_repeat

-- `validate_cycle`
unfoldable pub validate_cycle : CycleRecord → Checked
unfolding validate_parts validate_decision
validate_cycle r = do
  validate_parts r
  raise_if (is_nonempty (exceeded r.usage r.budget) && not (is_exhausted r.failure))
      CycleFault.over_budget
  validate_decision r
  raise_if (not (answers_request r.owner_decision r.approval_request)) CycleFault.foreign_decision
