-- ===== src/Init/Run.antt =====
-- `runInit` of src/init/orchestrator.ts.
pub mod Keeps
pub mod Verified
use agent_governance.Base.{
  String, ◌≡◌, refl, Bool, true, false, not, ◌&&◌, ◌||◌, Option, none, some, List, [], ◌∷◌, ◌++◌,
  if◌then◌else◌, map, Result, ok, err,
}
use agent_governance.Contracts.Types.{
  InstallPhase, inspecting, planning, verifying, InstallState, absent, TerminalOutcome,
  unsafe_state, interrupted, Failure, Thrown, interruption, failure, error,
}
use agent_governance.Contracts.Effects.{Outcome, returned, threw, Eff, ◌>>=◌, give, lift}
use agent_governance.ToolPreparation.Types.{ToolResult}
use agent_governance.Init.Types.{
  DiscoveredHarness, Target, Selection, HarnessRow, InstallResult, Request, Transaction,
  PlannedTarget, Dependencies, Options, TargetResult, FailureDetails, InitResult, setup_failed,
  non_tty, cancelled,
}
use agent_governance.Init.Targets.{PathFunctions, resolve_support, resolve_target}
use agent_governance.Init.Steps.{
  is_success, is_current, is_outdated, preparation_failure, details, resolve_all, selection_label,
  operation_of, read_only_stage,
}

pub record PreparedTarget (W : Type 0) : Type 0 where
  pub planned : PlannedTarget
  pub transaction : Transaction W

abbrev failed_outcome : TerminalOutcome → TerminalOutcome
failed_outcome interrupted = unsafe_state
failed_outcome o = o

abbrev failure_details : Failure → FailureDetails
failure_details f = record {
  phase = f.phase;
  rollback_status = f.rollback_status;
  code = f.code;
  resource_id = f.resource_id;
}

abbrev is_empty {ℓ} : {A : Type ℓ} → List A → Bool
is_empty [] = true
is_empty (_ ∷ _) = false

-- the `catch`, with the results that are there when the call throws
unfoldable pub caught : List ToolResult → List TargetResult → Thrown → Outcome InitResult
caught tools done (interruption i) = returned (cancelled done (some tools) (some (details i)))
caught tools done (failure f) =
    if is_empty tools && is_empty done
    then threw (failure f)
    else returned
        (setup_failed (failed_outcome f.outcome) done tools f.message (some (failure_details f)))
caught tools done (error message) =
    if is_empty tools && is_empty done
    then threw (error message)
    else returned (setup_failed unsafe_state done tools message none)

abbrev installation_root_of : Option String → String → String
installation_root_of none d = d
installation_root_of (some s) d = s

module _ {W : Type 0} (tools : List ToolResult) (done : List TargetResult) where
  abbrev pub stepped :
      {A : Type 0} → Outcome A → W → (A → Eff W InitResult) → Outcome InitResult × W
  stepped (returned a) w k = k a w
  stepped (threw t) w k = (caught tools done t, w)

  -- a call inside the `try`, and what follows it
  abbrev pub attempt : {A : Type 0} → Eff W A → (A → Eff W InitResult) → Eff W InitResult
  attempt m k w = stepped (m w).0 (m w).1 k

  -- `throw new Error(message)` inside the `try`
  abbrev pub fail : String → Eff W InitResult
  fail message w = (caught tools done (error message), w)

module _ {W : Type 0} where
  unfoldable pub change : PreparedTarget W → Eff W InstallResult
  change p =
      if is_outdated p.planned.status.state then p.transaction.update else p.transaction.install

  unfoldable pub result_of : PreparedTarget W → TargetResult
  result_of p = record { target = p.planned.target; previous_state = p.planned.status.state }

module _ {W : Type 0} (d : Dependencies W) (path : PathFunctions) (options : Options) where
  unfoldable pub installation_root : String
  installation_root =
      installation_root_of options.installation_root
        (d.join (options.environment.home ∷ ".agent-governance" ∷ []))

  unfoldable pub transaction_of : Target → Transaction W
  transaction_of t = d.create_transaction (record {
    target = t;
    installation_root = installation_root;
    release_root = options.release_root;
  })

  unsupported_row : DiscoveredHarness → HarnessRow
  unsupported_row h = record {
    id = h.id;
    display_name = h.display_name;
    supported = false;
    target = none;
    state = none;
    local_version = none;
    latest_version = none;
  }

  supported_row :
      DiscoveredHarness → Target → InstallState → Option String → Option String → HarnessRow
  supported_row h t s local_version latest_version = record {
    id = h.id;
    display_name = h.display_name;
    supported = true;
    target = some t;
    state = some s;
    local_version = local_version;
    latest_version = latest_version;
  }

  unfoldable pub row_of : Option String → DiscoveredHarness → Option Target → Eff W HarnessRow
  unfolding unsupported_row supported_row
  row_of latest h none = give (unsupported_row h)
  row_of latest h (some t) = do
    there ← d.directory_exists t.target_root
    if not there then give (supported_row h t absent none none) else (do
      status ← (transaction_of t).status
      local_version ← (transaction_of t).local_version
      give (supported_row h t status.state local_version latest))

  -- `buildRows`
  unfoldable pub build_rows : Option String → List DiscoveredHarness → Eff W (List HarnessRow)
  build_rows latest [] = give []
  build_rows latest (h ∷ hs) = do
    row ← row_of latest h (resolve_support path h.id options.environment)
    rows ← build_rows latest hs
    give (row ∷ rows)

  unfoldable pub prepare_target : Selection × Target → Eff W (PreparedTarget W)
  prepare_target (selection, target) = do
    status ← read_only_stage d inspecting (transaction_of target).status
    plan ← read_only_stage d planning ((transaction_of target).plan (operation_of status.state))
    give (record {
      planned = record {
        target = target;
        status = status;
        plan = plan;
        display_name = selection_label selection;
      };
      transaction = transaction_of target;
    })

  unfoldable pub prepare_targets : List (Selection × Target) → Eff W (List (PreparedTarget W))
  prepare_targets [] = give []
  prepare_targets (x ∷ xs) = do p ← prepare_target x; ps ← prepare_targets xs; give (p ∷ ps)

  -- the second loop: `done` are the targets that are `completed`
  unfoldable pub install_all :
      List ToolResult → List TargetResult → List (PreparedTarget W) → Eff W InitResult
  install_all tools done [] = give (InitResult.success done tools)
  install_all tools done (p ∷ ps) =
      let rest = install_all tools (done ++ result_of p ∷ []) ps in
      attempt tools done (change p) λ installed.
        if not (is_success installed.outcome)
        then fail tools done "init installation failed"
        else attempt tools done (read_only_stage d verifying p.transaction.verify) λ verified.
          if not (is_success verified.outcome) || not (is_current verified.state)
          then fail tools done "init verification failed"
          else rest

  -- the answer to the plans
  unfoldable pub confirmed :
      List ToolResult → List (PreparedTarget W) → Option Bool → Eff W InitResult
  confirmed tools prepared (some true) = install_all tools [] prepared
  confirmed tools prepared _ = give (cancelled [] (some tools) none)

  -- behind the preparation of the tools
  unfoldable pub set_up : List ToolResult → List (Selection × Target) → Eff W InitResult
  set_up tools resolved w =
      (attempt tools [] (prepare_targets resolved) λ prepared.
          attempt tools [] (read_only_stage d planning (d.confirm (map (λ p. p.planned) prepared)))
            (confirmed tools prepared))
        (d.step "Prüfen und einrichten" w)

  unfoldable pub unless_failed :
      List ToolResult → List (Selection × Target) → Option InitResult → Eff W InitResult
  unless_failed tools resolved (some r) = give r
  unless_failed tools resolved none = set_up tools resolved

  unfoldable pub tools_prepared : List (Selection × Target) → List ToolResult → Eff W InitResult
  tools_prepared resolved tools = unless_failed tools resolved (preparation_failure tools)

  -- the third step, if it is not skipped
  unfoldable pub prepare_and_set_up : List (Selection × Target) → Eff W InitResult
  prepare_and_set_up resolved w =
      if d.skip_tools
      then set_up [] resolved w
      else attempt [] [] (d.prepare_tools false) (tools_prepared resolved)
          (d.dispose (d.step "Tools vorbereiten" w))

  unfoldable pub selected : Option (List Selection) → Eff W InitResult
  selected none = give (cancelled [] none none)
  selected (some selections) =
      attempt [] [] (lift (resolve_all path options selections)) prepare_and_set_up

  unfoldable pub choose : List HarnessRow → Eff W InitResult
  choose rows w =
      (attempt [] [] (read_only_stage d planning (d.select_targets rows)) selected)
        (d.step "Coding-Harnesses auswählen" w)

  -- the `try` block with its `catch`
  unfoldable pub dialogue : Eff W InitResult
  dialogue w =
      (attempt [] [] (read_only_stage d inspecting (d.discover_harnesses options.environment))
          λ discovered.
            attempt [] [] (read_only_stage d inspecting d.resolve_latest_release) λ latest.
              attempt [] [] (read_only_stage d inspecting (build_rows latest discovered)) choose)
        (d.step "Umgebung prüfen" w)

  -- `runInit`: the prompt is disposed of however the dialogue ends
  unfoldable pub run_init : Eff W InitResult
  run_init w =
      if not options.is_tty
      then (returned non_tty, w)
      else let ending = dialogue w in (ending.0, d.dispose ending.1)
