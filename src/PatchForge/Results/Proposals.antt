-- ===== src/PatchForge/Results/Proposals.antt =====
-- What stands behind a proposed patch that its contract accepts.
use nexus_agent_platform.Common.{
  ℕ, ◌≡◌, refl, sym, ap, ◌∙◌, subst, inl, inr, Bool, true, false, not, none, some, List, [], ◌∷◌,
  map, arith, ltb, ◌==◌, ==_iff, Bool-cases, Option-cases, is_some, any_of, ok, raise_if, >>=-eq-ok,
  str_eq,
}
use mathlib.Core.List.{Memᴰ}
use nexus_agent_platform.Atlas.Models
use nexus_agent_platform.PatchForge.Models.{CheckKind, CheckStatus, ExecutionStatus, kind_number}
use nexus_agent_platform.PatchForge.Evidence.{CheckResult, DiffSummary, PatchResult, TestExecution}
use nexus_agent_platform.PatchForge.Results.{
  atlas_check, is_blocking_finding, validate_usage, validate_diff, validate_evidence_shape,
  optionally, validate_timing_and_status, require_unique_evidence_references, Valid, build_result,
  check_against, each, execution_by_id, has_kind, is_passed_check, is_proposed, to_atlas_result,
  validate_evidence_reference, validate_execution, validate_links, validate_proposal,
  validate_result,
}

each-Memᴰ :
    {A : Type 0} (check : A → Valid) (xs : List A) (x : A)
    → each check xs ≡ ok tt
    → Memᴰ x xs
    → check x ≡ ok tt
each-Memᴰ check [] x h m = elim m [ ]
each-Memᴰ check (y ∷ ys) x h (Memᴰ.head same) =
    let (_, here, _) = >>=-eq-ok (check y) _ h in rw same here
each-Memᴰ check (y ∷ ys) x h (Memᴰ.tail m) =
    let (_, _, there) = >>=-eq-ok (check y) _ h in each-Memᴰ check ys x there m

any_of-found :
    {A : Type 0} (test : A → Bool) (xs : List A)
    → any_of test xs ≡ true
    → (x : A) × Memᴰ x xs × (test x ≡ true)
any_of-found test [] h = absurd (ground (arith, h))
any_of-found test (x ∷ xs) h = elim (Bool-cases (test x)) [
  | inl e ↦ (x, Memᴰ.head refl, e)
  | inr e ↦ let (y, m, f) = any_of-found test xs (ground (arith, h, e)) in (y, Memᴰ.tail m, f)
]

any_of-none :
    {A : Type 0} (test : A → Bool) (xs : List A) (x : A)
    → any_of (λ y. not (test y)) xs ≡ false
    → Memᴰ x xs
    → test x ≡ true
any_of-none test [] x h m = elim m [ ]
any_of-none test (y ∷ ys) x h (Memᴰ.head same) = rw same (ground (arith, h))
any_of-none test (y ∷ ys) x h (Memᴰ.tail m) = any_of-none test ys x (ground (arith, h)) m

execution_by_id-found :
    (id : ℕ) (es : List TestExecution) (e : TestExecution)
    → execution_by_id id es ≡ some e
    → Memᴰ e es × (e.execution_id ≡ id)
execution_by_id-found id [] e h = absurd (ground (arith, h))
execution_by_id-found id (x ∷ xs) e h = elim (Option-cases (execution_by_id id xs)) [
  | inr (f, later) ↦
      let (m, same) = execution_by_id-found id xs e (ground (arith, h, later)) in
      (Memᴰ.tail m, same)
  | inl later ↦
      let same : x ≡ e = ground (arith, h, later) in
      (Memᴰ.head (sym same), ground (arith, h, later))
]

-- A check of this kind, backed by an execution of the run that passed with exit code zero
pub record IsBacked (r : PatchResult) (kind : CheckKind) : Type 0 where
  pub check : CheckResult
  pub listed : Memᴰ check r.checks
  pub of_kind : kind_number check.check_kind ≡ kind_number kind
  pub passed : check.status ≡ CheckStatus.passed
  pub execution : TestExecution
  pub executed : Memᴰ execution r.executions
  pub linked : check.execution_id ≡ some execution.execution_id
  pub same_kind : kind_number execution.check_kind ≡ kind_number kind
  pub succeeded : execution.status ≡ ExecutionStatus.passed
  pub exit_code : execution.exit_code ≡ some 0

-- What the contract says of the parts
record Parts (r : PatchResult) : Type 0 where
  executions : each validate_execution r.executions ≡ ok tt
  references : each validate_evidence_reference r.checks ≡ ok tt
  links : each (check_against r.executions) r.checks ≡ ok tt
  proposal : validate_proposal r ≡ ok tt

validate_result-parts :
    (r : PatchResult)
    → validate_result r ≡ ok tt
    → is_proposed r.outcome ≡ true
    → (validate_links r ≡ ok tt) × (validate_proposal r ≡ ok tt)
unfolding validate_result
validate_result-parts r h proposed =
    let (_, _, h1) = >>=-eq-ok (raise_if (ltb r.completed_at r.started_at) _) _ h in
    let (_, _, h2) =
      >>=-eq-ok (raise_if (any_of (λ c. not (c.run_id == r.identity.run_id)) r.tool_calls) _) _
        h1 in
    let (_, _, h3) =
      >>=-eq-ok (raise_if (any_of (λ e. not (e.run_id == r.identity.run_id)) r.executions) _) _
        h2 in
    let (_, linked, h4) = >>=-eq-ok (validate_links r) _ h3 in
    (linked, ground (arith, h4, proposed))

validate_links-each :
    (r : PatchResult)
    → validate_links r ≡ ok tt
    → each (check_against r.executions) r.checks ≡ ok tt
unfolding validate_links
validate_links-each r h = ground (arith, h)

build_result-Parts :
    (r : PatchResult) → build_result r ≡ ok tt → is_proposed r.outcome ≡ true → Parts r
unfolding build_result validate_links
build_result-Parts r h proposed =
    let (_, _, h1) = >>=-eq-ok (require_unique_evidence_references r.report) _ h in
    let (_, _, h2) = >>=-eq-ok (each validate_timing_and_status r.tool_calls) _ h1 in
    let (_, executions, h3) = >>=-eq-ok (each validate_execution r.executions) _ h2 in
    let (_, _, h4) = >>=-eq-ok (optionally validate_evidence_shape r.reproduction) _ h3 in
    let (_, references, h5) = >>=-eq-ok (each validate_evidence_reference r.checks) _ h4 in
    let (_, _, h6) = >>=-eq-ok (optionally validate_diff r.diff) _ h5 in
    let (_, _, h7) = >>=-eq-ok (validate_usage r.budget_usage) _ h6 in
    let (linked, proposal) = validate_result-parts r h7 proposed in
    record {
      executions = executions;
      references = references;
      links = validate_links-each r linked;
      proposal = proposal;
    }

backed :
    (r : PatchResult) (kind : CheckKind)
    → Parts r
    → has_kind kind r.checks ≡ true
    → any_of (λ c. not (is_passed_check c)) r.checks ≡ false
    → IsBacked r kind
unfolding check_against validate_execution validate_evidence_reference
backed r kind p has passed =
    let (c, listed, k) =
      any_of-found (λ c. kind_number c.check_kind == kind_number kind) r.checks has in
    let pass = any_of-none is_passed_check r.checks c passed listed in
    let reference = each-Memᴰ validate_evidence_reference r.checks c p.references listed in
    let link = each-Memᴰ (check_against r.executions) r.checks c p.links listed in
    elim (Option-cases c.execution_id) [
      | inl e ↦ absurd (ground (arith, reference, pass, e))
      | inr (id, e) ↦ elim (Option-cases (execution_by_id id r.executions)) [
        | inl f ↦ absurd (ground (arith, link, e, f))
        | inr (x, f) ↦
            let (executed, same) = execution_by_id-found id r.executions x f in
            let valid = each-Memᴰ validate_execution r.executions x p.executions executed in
            let of_kind : kind_number c.check_kind ≡ kind_number kind =
              (==_iff (kind_number c.check_kind) (kind_number kind)).0 k in
            let succeeded : x.status ≡ ExecutionStatus.passed = ground (arith, link, e, f, pass) in
            record {
              check = c;
              listed = listed;
              of_kind = of_kind;
              passed = ground (arith, pass);
              execution = x;
              executed = executed;
              linked = e ∙ ap some (sym same);
              same_kind = ground (arith, link, e, f, of_kind);
              succeeded = succeeded;
              exit_code = ground (arith, valid, succeeded);
            }
      ]
    ]

-- A proposed patch
pub record IsVerified (r : PatchResult) : Type 0 where
  pub diff : DiffSummary
  pub proposed : r.diff ≡ some diff
  pub base : str_eq diff.base_sha r.identity.source.commit_sha ≡ true
  pub unfailed : r.failure ≡ none
  pub reproduced : is_some r.reproduction ≡ true
  pub unblocked : any_of is_blocking_finding r.policy_findings ≡ false
  pub targeted : IsBacked r CheckKind.targeted_tests
  pub full : IsBacked r CheckKind.full_test_suite
  pub unpassed : any_of (λ c. not (is_passed_check c)) r.checks ≡ false

-- A proposed patch that its contract accepts has a diff on the commit that the run started from,
-- no failure, reproduction evidence, no blocking finding, no check that did not pass, and for the
-- targeted and for the full test suite a passed check, linked to an execution of the run of that
-- kind that passed with exit code zero.
pub build_result-IsVerified :
    (r : PatchResult) → build_result r ≡ ok tt → is_proposed r.outcome ≡ true → IsVerified r
unfolding validate_proposal
build_result-IsVerified r h proposed =
    let p = build_result-Parts r h proposed in
    let holds = p.proposal in
    elim (Option-cases r.diff) [
      | inl e ↦ absurd (ground (arith, holds, e))
      | inr (diff, e) ↦
          let passed : any_of (λ c. not (is_passed_check c)) r.checks ≡ false =
            ground (arith, holds, e) in
          record {
            diff = diff;
            proposed = e;
            base = ground (arith, holds, e);
            unfailed = ground (arith, holds, e);
            reproduced = ground (arith, holds, e);
            unblocked = ground (arith, holds, e);
            targeted = backed r CheckKind.targeted_tests p (ground (arith, holds, e)) passed;
            full = backed r CheckKind.full_test_suite p (ground (arith, holds, e)) passed;
            unpassed = passed;
          }
    ]

passed_checks :
    (cs : List CheckResult)
    → any_of (λ c. not (is_passed_check c)) cs ≡ false
    → any_of (λ c. not c.passed) (map atlas_check cs) ≡ false
passed_checks [] h = refl
passed_checks (c ∷ cs) h = ground (arith, h, passed_checks cs (ground (arith, h)))

-- If a result that its contract accepts is converted for Atlas, it is a verified proposal, and
-- every check that Atlas gets has passed.
pub to_atlas_result-checks :
    (r : PatchResult) (a : Models.PatchResult)
    → build_result r ≡ ok tt
    → to_atlas_result r ≡ ok a
    → IsVerified r × (any_of (λ c. not c.passed) a.checks ≡ false)
unfolding to_atlas_result
to_atlas_result-checks r a h converted =
    let proposed : is_proposed r.outcome ≡ true = ground (arith, converted) in
    let v = build_result-IsVerified r h proposed in
    let same : map atlas_check r.checks ≡ a.checks = ground (arith, converted, v.proposed) in
    (
      v,
      subst (λ cs. any_of (λ c. not c.passed) cs ≡ false) same (passed_checks r.checks v.unpassed),
    )
