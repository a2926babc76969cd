-- ===== src/Contracts/Types.antt =====
-- src/contracts.ts and the error classes of src/errors.ts.
use agent_governance.Base.{ℕ, String, Bool}

-- `InstallerCommand`
pub data Command : Type 0 where
  inspect plan install verify status update uninstall rollback : Command

pub data InstallState : Type 0 where
  fresh current outdated downgrade_blocked absent tampered recovery_required : InstallState

pub data InstallPhase : Type 0 where
  inspecting planning backing_up staging activating verifying rolling_back : InstallPhase

pub data TerminalOutcome : Type 0 where
  success invalid_invocation unsafe_state verification_rolled_back rollback_failed : TerminalOutcome
  interrupted : TerminalOutcome

-- `EXIT_CODES`
unfoldable pub exit_code_for : TerminalOutcome → ℕ
exit_code_for success = 0
exit_code_for invalid_invocation = 2
exit_code_for unsafe_state = 4
exit_code_for verification_rolled_back = 5
exit_code_for rollback_failed = 6
exit_code_for interrupted = 130

-- `CatchableSignal`
pub data Signal : Type 0 where
  sigint sigterm : Signal

pub data RollbackStatus : Type 0 where
  not_required available succeeded failed : RollbackStatus

-- `externalEffect` is one constant object where it is there
pub record Interruption : Type 0 where
  pub signal : Signal
  pub phase : InstallPhase
  pub rollback_status : RollbackStatus
  pub resource_id : String
  pub external_effect : Bool

pub record Failure : Type 0 where
  pub code : String
  pub phase : InstallPhase
  pub resource_id : String
  pub outcome : TerminalOutcome
  pub message : String
  pub rollback_status : RollbackStatus

-- What a call throws: an `InterruptedFailure`, another `InstallerFailure`, or another `Error`.
pub data Thrown : Type 0 where
  interruption : Interruption → Thrown
  failure : Failure → Thrown
  error : String → Thrown

-- `InterruptedFailure.exitCode`
unfoldable pub exit_code_of_signal : Signal → ℕ
exit_code_of_signal sigint = 130
exit_code_of_signal sigterm = 143
