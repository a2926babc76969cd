-- ===== src/Init/Types.antt =====
-- src/init/types.ts: what the dialogue works on, and the parts that it calls.
use agent_governance.Base.{String, Bool, Option, List}
use agent_governance.Contracts.Types.{
  InstallState, TerminalOutcome, Command, InstallPhase, Signal, RollbackStatus,
}
use agent_governance.Contracts.Effects.{Eff}
use agent_governance.ToolPreparation.Types.{ToolResult}

pub record Environment : Type 0 where
  pub home : String
  pub xdg_config_home : Option String

pub record DiscoveredHarness : Type 0 where
  pub id : String
  pub display_name : String

pub record Target : Type 0 where
  pub target_root : String
  pub entry_file : String

pub data Selection : Type 0 where
  harness : DiscoveredHarness → Selection
  manual : Option String → String → Selection

pub record HarnessRow : Type 0 where
  pub id : String
  pub display_name : String
  pub supported : Bool
  pub target : Option Target
  pub state : Option InstallState
  pub local_version : Option String
  pub latest_version : Option String

-- the fields of an `InstallResult` that the dialogue reads
pub record InstallResult : Type 0 where
  pub outcome : TerminalOutcome
  pub state : InstallState

-- an `InstallerRequest`; its other fields are the same in every request of the dialogue
pub record Request : Type 0 where
  pub target : Target
  pub installation_root : String
  pub release_root : String

-- `InitTransaction` over the states `W` of the world
pub record Transaction (W : Type 0) : Type 0 where
  pub status : Eff W InstallResult
  pub plan : Command → Eff W InstallResult
  pub install : Eff W InstallResult
  pub update : Eff W InstallResult
  pub verify : Eff W InstallResult
  pub local_version : Eff W (Option String)

pub record PlannedTarget : Type 0 where
  pub target : Target
  pub status : InstallResult
  pub plan : InstallResult
  pub display_name : String

-- `InitDependencies`: a prompt returns none for `INIT_CANCELLED`. `delivered` stands for the process:
-- the signals that it received between two states, in their order. `directory_exists` is the probe
-- of the file system in src/init/orchestrator.ts, and `join` that of `node:path`. A step is given by its
-- title.
pub record Dependencies (W : Type 0) : Type 0 where
  pub discover_harnesses : Environment → Eff W (List DiscoveredHarness)
  pub resolve_latest_release : Eff W (Option String)
  pub step : String → W → W
  pub dispose : W → W
  pub select_targets : List HarnessRow → Eff W (Option (List Selection))
  pub confirm : List PlannedTarget → Eff W (Option Bool)
  pub create_transaction : Request → Transaction W
  pub skip_tools : Bool
  pub prepare_tools : Bool → Eff W (List ToolResult)
  pub delivered : W → W → List Signal
  pub directory_exists : String → Eff W Bool
  pub join : List String → String

pub record Options : Type 0 where
  pub is_tty : Bool
  pub environment : Environment
  pub release_root : String
  pub installation_root : Option String

pub record TargetResult : Type 0 where
  pub target : Target
  pub previous_state : InstallState

-- what an `InstallerFailure` adds to a result
pub record FailureDetails : Type 0 where
  pub phase : InstallPhase
  pub rollback_status : RollbackStatus
  pub code : String
  pub resource_id : String

pub record InterruptionDetails : Type 0 where
  pub phase : InstallPhase
  pub rollback_status : RollbackStatus
  pub signal : Signal
  pub resource_id : String
  pub external_effect : Bool

-- `InitResult`
pub data InitResult : Type 0 where
  setup_failed :
      TerminalOutcome
      → List TargetResult
      → List ToolResult
      → String
      → Option FailureDetails
      → InitResult
  success : List TargetResult → List ToolResult → InitResult
  tool_preparation_failed : List ToolResult → InitResult
  non_tty : InitResult
  cancelled : List TargetResult → Option (List ToolResult) → Option InterruptionDetails → InitResult
