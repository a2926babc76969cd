-- ===== src/ToolPreparation/Run.antt =====
-- `createToolPreparationOrchestrator` of src/init/tool-preparation/index.ts. The modules and the
-- question that is put to the user are parameters.
pub mod Laws
use agent_governance.Base.{
  String, ◌<>◌, ◌≡◌, refl, Bool, true, false, not, ◌||◌, Option, none, some, List, [], ◌∷◌,
  if◌then◌else◌, arith, Bool-cases, inl, inr, All,
}
use agent_governance.Contracts.Types.{
  InstallPhase, planning, verifying, Thrown, interruption, failure, error, Interruption,
}
use agent_governance.Contracts.Effects.{
  Outcome, returned, threw, Eff, ◌>>=◌, give, rethrow, Keeps, >>=-Keeps, >>=-ends,
}
use agent_governance.ToolPreparation.Types.{
  ToolStatus, ready, missing, auth_required, skipped, unavailable, ToolResult, ToolModule,
}

-- `publicResult`
unfoldable pub public_result : ToolResult → ToolResult
public_result r = record r { effect_context = none }

-- the `catch`, with the `phase` and the `effectContext` that hold when the call is made
unfoldable pub with_effect : InstallPhase → Option String → Thrown → Thrown
with_effect phase (some resource) (interruption i) =
    if i.external_effect
    then interruption i
    else interruption (record {
      signal = i.signal;
      phase = phase;
      rollback_status = i.rollback_status;
      resource_id = resource;
      external_effect = true;
    })
with_effect phase _ t = t

abbrev message_of : Option String → String → String
message_of none id = id
message_of (some s) id = s

abbrev pub is_missing : ToolStatus → Bool
is_missing missing = true
is_missing _ = false

abbrev pub is_auth_required : ToolStatus → Bool
is_auth_required auth_required = true
is_auth_required _ = false

abbrev pub stops : ToolStatus → Bool
stops unavailable = true
stops missing = true
stops _ = false

module _ {W : Type 0} (authorize : ToolModule W → String → Eff W Bool) where
  -- `AUTH_REQUIRED` of the state that the module is in
  unfoldable pub signed_in : ToolModule W → Option String → ToolResult → Eff W ToolResult
  signed_in m context state =
      if is_auth_required state.status
      then (do
        allowed ← rethrow (with_effect planning context) (
            authorize m (
              message_of state.message m.tool_id
              <> "\nAuthorize provider web login for "
              <> m.tool_id
              <> "?"))
        result ← rethrow (with_effect verifying context) (m.prepare false allowed)
        give (public_result result))
      else give (public_result state)

  -- behind the installation
  unfoldable pub verified : ToolModule W → Option String → Eff W ToolResult
  verified m context = do
    state ← rethrow (with_effect verifying context) m.inspect
    signed_in m context state

  unfoldable pub installed : ToolModule W → Bool → ToolResult → Eff W ToolResult
  installed m allowed result =
      if not allowed || stops result.status
      then give (public_result result)
      else verified m result.effect_context

  -- one round of the loop
  unfoldable pub inspected : ToolModule W → ToolResult → Eff W ToolResult
  inspected m state =
      if is_missing state.status
      then (do
        allowed ← authorize m (
            message_of state.message m.tool_id
            <> "\nAuthorize installation of "
            <> m.tool_id
            <> "?")
        result ← m.prepare allowed false
        installed m allowed result)
      else signed_in m none state

  unfoldable pub prepare_tool : ToolModule W → Eff W ToolResult
  prepare_tool m = do state ← m.inspect; inspected m state

  unfoldable pub prepare_tools : List (ToolModule W) → Eff W (List ToolResult)
  prepare_tools [] = give []
  prepare_tools (m ∷ ms) = do
    result ← prepare_tool m
    results ← prepare_tools ms
    give (result ∷ results)

  -- `run`
  unfoldable pub run : List (ToolModule W) → Bool → Eff W (List ToolResult)
  run modules true = give []
  run modules false = prepare_tools modules
