-- ===== src/PatchForge/RunState.antt =====
-- The state of a PatchForgeRuntime of src/nexus/patchforge/runtime.py, its records, and the world of
-- a run: the engine, the workspace manager and the clock, which is timezone-aware.
use nexus_agent_platform.Common.{ℕ, String, Bool, Option, List, Result}
use nexus_agent_platform.PatchForge.Models.{
  AgentReport, PatchForgeFailure, PatchForgePhase, ToolName,
}
use nexus_agent_platform.PatchForge.Lifecycle.{Lifecycle}
use nexus_agent_platform.PatchForge.Tools.{Arguments}
use nexus_agent_platform.PatchForge.Gateway.{Attempt, Gateway, GatewayResult}

pub data WorkspaceStateKind : Type 0 where
  initial before_call after_call : WorkspaceStateKind

pub record Diff : Type 0 where
  pub diff_sha256 : String
  pub changed_files : ℕ

pub record WorkspaceStateRecord : Type 0 where
  pub sequence : ℕ
  pub kind : WorkspaceStateKind
  pub tool_call_sequence : Option ℕ
  pub diff : Diff
  pub captured_at : ℕ

pub data FinalCaptureError : Type 0 where
  no_changes workspace_failed : FinalCaptureError

pub record ReserveRefusalRecord : Type 0 where
  pub tool_name : ToolName
  pub tool_call_sequence : ℕ
  pub occurred_at : ℕ

pub record RuntimeToolAction : Type 0 where
  pub tool_name : ToolName
  pub arguments : Arguments

-- RuntimeTurn, what the engine is shown; its task is the run's own
pub record RuntimeTurn : Type 0 where
  pub phase : PatchForgePhase
  pub previous_result : Option GatewayResult
  pub failure : Option PatchForgeFailure
  pub implementation_loops : ℕ
  pub max_implementation_loops : ℕ

pub data EngineFault : Type 0 where
  cancelled_engine failed_engine : EngineFault

-- What the world does in one turn; a workspace operation that raises is `false` or `none`
pub record TurnWorld : Type 0 where
  pub engine : RuntimeTurn → Result EngineFault RuntimeToolAction
  pub time : ℕ
  pub renewed : Bool
  pub before : Option Diff
  pub after : Option Diff
  pub attempt : Attempt

pub record World : Type 0 where
  pub start_time : ℕ
  pub initial : Option Diff
  pub turn : ℕ → TurnWorld
  pub end_time : ℕ
  pub proposal : Result FinalCaptureError Diff
  pub cleaned : Bool

-- The fields of a PatchForgeRuntime that a run changes
pub record Run : Type 0 where
  pub lifecycle : Lifecycle
  pub gateway : Gateway
  pub results : List GatewayResult
  pub renewals : ℕ
  pub report : Option AgentReport
  pub states : List WorkspaceStateRecord
  pub final_capture : Option (Result FinalCaptureError Diff)
  pub reserve_refusal : Option ReserveRefusalRecord
  pub workspace_cleaned : Bool

-- A turn goes on with the loop, or an exception leaves it.
pub data Turned : Type 0 where
  running : Run → Turned
  stopped : Run → Turned
