-- ===== src/Lib.antt =====
-- Verification of the core of the NEXUS agent platform: the Atlas control plane, which takes jobs
-- of agents through a governed lifecycle, the decisions of the resident Software Engineer, and the
-- bounded runs of PatchForge, the agent that proposes patches.
--
-- Atlas (src/nexus/atlas). A job moves along a graph of statuses by commands of actors. Each command
-- is checked against the contracts (models.py), the lifecycle (state_machine.py) and the policy
-- (policy.py), and is written in one transaction: the job, an audit event and the command's record
-- (storage.py). AtlasControlPlane (service.py) composes these.
--   Atlas/Models, Atlas/Errors: the contracts' data, and an error value for each exception.
--   Atlas/Capabilities, Atlas/Validate: the validators. validate_lifecycle, validate_event_shape,
--     canonicalize_capabilities and the others keep their names; make_lease, make_approval and
--     make_failure are constructors with their validators.
--   Atlas/StateMachine: VALID_TRANSITIONS and require_transition.
--   Atlas/Policy: AgentRegistry, a list of policies, with its checks of jobs and actors.
--   Atlas/Storage: the three tables as lists of rows (Tables), the reads with integrity_check
--     (Read), and create and update with the statements of _persist (Write).
--   Atlas/Service: the commands. The part of each method between _prepare and _persist is its body
--     (Execution, Review), Bodies dispatches on the operation, and Plans has _prepare, _persist,
--     _event, _command and create_job. The source looks a command up in one transaction, reads the
--     job in a second and writes in a third; so `plan` takes the tables of the first two reads,
--     `commit` is the transaction, and `execute` is both with nothing in between. Runs has the
--     systems of several control planes on one store, where lookups, plans and commits interleave.
--   Storage/Invariant, Service/Pending and Service/Runs carry the proofs over whole stores;
--     Service/Steps those of single methods.
--
-- Software Engineer (src/nexus/software_engineer). ShipPolicy.decide turns evidence into a decision,
-- and classify_change gives the risk in that evidence.
--   SoftwareEngineer/Models: contracts from models.py. SoftwareEngineer/Tests: what the policy
--     tests, CycleUsage.exceeded, SelfReview.requires_human and gates_passed.
--     SoftwareEngineer/Policy: ShipPolicy from policy.py. SoftwareEngineer/Paths: path_matches and
--     is_sensitive_path of src/nexus/patchforge/gateway.py and is_evaluation_config_path of
--     src/nexus/sentinelqa/models.py. SoftwareEngineer/Risk: risk.py, where
--     classify_change raises what constructing its RiskAssessment raises. SoftwareEngineer/Record:
--     CycleRecord with validate_cycle, and in Shipped what it says of a shipped change.
--
-- PatchForge (src/nexus/patchforge). PatchForgeRuntime lets an engine choose one tool call at a time
-- and hands it to ToolGateway, which checks the budgets of the phase and the run, the policy and the
-- worktree, and records the call; the result moves PatchForgeLifecycle through its phases.
--   PatchForge/Models, PatchForge/Policy, PatchForge/Paths: contracts of models.py and policy.py,
--     the tests of a write, and RepositoryPath. PatchForge/Tools, Gateway, Invoke: gateway.py. What one call finds in the world, its
--     clock, identifiers, worktree and sandbox, is an Attempt; what a gateway is bound to, the
--     length of an output and the hash of a report among them, is its Binding.
--   PatchForge/Lifecycle: PatchForgeLifecycle of runtime.py, RuntimeSnapshot in Snapshot.
--   PatchForge/RunState and Runtime: the state of a run and one turn of `execute`, its loop and
--     cleanup in Runtime/Execution. The engine, the workspace manager and the clock are the World:
--     each may answer or raise in any way that the source catches. The loop runs on fuel, and
--     max_total_tool_calls + 4 is enough: a turn either adds a call to the records, of which the
--     budgets bound the number, or leads on to the finalization, from there to its last round or
--     its end.
--   PatchForge/Evidence and Results: PatchResult of models.py with the contracts of its parts;
--     build_result runs them on the parts first and then on the whole.
--   PatchForge/Spending, Reserve and Usage carry the proofs about the gateway's budgets; Coherence,
--     Reachable and Visits of Lifecycle those about transcripts; Progress, Turns, Calls, Closing and
--     Ends of Runtime those about whole executions.
--
-- Common has the tests on native numbers, lists, results and texts that all parts share, and
-- the Examples of each part run the definitions: on a job's life, on changes and on a run.
--
-- Representation. UUIDs are numbers, aware datetimes are instants in microseconds, and a datetime
-- without a timezone is the value `naive`. Python's integers that may be negative are ℤ where a
-- guard tests for that. Floating-point seconds and dollars, which are only compared, are
-- millionths. The JSON codec, canonical_sha256, uuid5, the clock, the id factory and str.casefold
-- are parameters. The clock of a run is timezone-aware. The codec's hypothesis IsFaithful asks
-- that a valid job that is normal reads back as it was written, and so does a valid event that is
-- normal; normal stands for texts in the normal form that canonical_json stores. All functions are structural
-- recursions, and only the loop of PatchForge takes fuel.
--
-- Not modelled: failures of SQLite and of the operating system, and the locks behind a
-- transaction; patterns of identifiers and lengths of texts that the command paths do not test
-- again; the reason texts of a risk assessment; in PatchForge what the tools do to the worktree,
-- the sandbox, the engine, exceptions that the source does not name, and the contract of the
-- completion that a run returns; the other packages (sentinelqa, brain, aegisops, diagnostics,
-- evaluation, command_center, lab, services).
pub mod Common
pub mod Atlas
pub mod SoftwareEngineer
pub mod PatchForge
