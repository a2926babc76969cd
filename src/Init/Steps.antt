-- ===== src/Init/Steps.antt =====
-- The helpers of src/init/orchestrator.ts, and `runInitTools`.
use agent_governance.Base.{
  String, Bool, true, false, not, ◌&&◌, ◌||◌, Option, none, some, List, [], ◌∷◌, ◌==◌, string_eq,
  if◌then◌else◌, any, map, Result, ok, err, traverse, ◌>>=◌,
}
use agent_governance.Base.Text.{Units, before, join_nul, same_units}
use agent_governance.Contracts.Types.{
  InstallPhase, InstallState, current, outdated, Command, install, update, TerminalOutcome, success,
  Signal, sigint, sigterm, not_required, Interruption, interruption,
}
use agent_governance.Contracts.Signals.{Call, signal, new, start, apply_all, checkpoint}
use agent_governance.Contracts.Effects.{Outcome, returned, threw, Eff}
use agent_governance.ToolPreparation.Types.{ToolStatus, ready, skipped, ToolResult}
use agent_governance.Init.Types.{
  Target, Selection, harness, manual, Dependencies, Options, InterruptionDetails, InitResult,
  tool_preparation_failed, non_tty, cancelled,
}
use agent_governance.Init.Targets.{PathFunctions, resolve_target}

abbrev pub is_success : TerminalOutcome → Bool
is_success success = true
is_success _ = false

abbrev pub is_current : InstallState → Bool
is_current current = true
is_current _ = false

abbrev pub is_outdated : InstallState → Bool
is_outdated outdated = true
is_outdated _ = false

abbrev pub is_prepared : ToolStatus → Bool
is_prepared ready = true
is_prepared skipped = true
is_prepared _ = false

-- `preparationFailure`
unfoldable pub preparation_failure : List ToolResult → Option InitResult
preparation_failure results =
    if any (λ r. not (is_prepared r.status)) results
    then some (tool_preparation_failed results)
    else none

unfoldable pub details : Interruption → InterruptionDetails
details i = record {
  phase = i.phase;
  rollback_status = i.rollback_status;
  signal = i.signal;
  resource_id = i.resource_id;
  external_effect = i.external_effect;
}

-- `compareTargets(left, right) < 0`
unfoldable pub target_before : Target → Target → Bool
target_before left right =
    if not (left.target_root == right.target_root)
    then before left.target_root right.target_root
    else not (left.entry_file == right.entry_file) && before left.entry_file right.entry_file

unfoldable pub insert_target :
    Selection × Target → List (Selection × Target) → List (Selection × Target)
insert_target x [] = x ∷ []
insert_target x (y ∷ ys) =
    let rest = insert_target x ys in if target_before y.1 x.1 then y ∷ rest else x ∷ y ∷ ys

-- the stable `sort`
unfoldable pub sort_targets : List (Selection × Target) → List (Selection × Target)
sort_targets [] = []
sort_targets (x ∷ xs) = insert_target x (sort_targets xs)

-- `targetKey`
unfoldable pub target_key : Target → Units
target_key t = join_nul (t.target_root ∷ t.entry_file ∷ [])

unfoldable pub same_target : Target → Target → Bool
same_target left right = same_units (target_key left) (target_key right)

unfoldable pub has_duplicate_targets : List Target → Bool
has_duplicate_targets [] = false
has_duplicate_targets (t ∷ ts) = any (same_target t) ts || has_duplicate_targets ts

-- the target of a selection, if the selections and their targets pass the checks
unfoldable pub resolve_all :
    PathFunctions → Options → List Selection → Result (List (Selection × Target))
resolve_all path options [] = err "no init targets selected"
resolve_all path options selections = do
  pairs ← traverse (λ s. resolve_target path s options.environment >>= λ t. ok (s, t)) selections
  if has_duplicate_targets (map (λ p. p.1) (sort_targets pairs))
      then err "duplicate init target"
      else ok (sort_targets pairs)

unfoldable pub selection_label : Selection → String
selection_label (harness h) = h.display_name
selection_label (manual _ _) = "Manuell"

-- what the plan is made for
abbrev pub operation_of : InstallState → Command
operation_of outdated = update
operation_of _ = install

-- the calls that the process's coordinator received while a stage ran
abbrev pub received : List Signal → List Call
received [] = []
received (s ∷ ss) = signal s ∷ received ss

abbrev pub interrupting : {A : Type 0} → Option (Signal × InstallPhase) → Outcome A → Outcome A
interrupting none o = o
interrupting (some (s, phase)) o = threw (
    interruption (record {
      signal = s;
      phase = phase;
      rollback_status = not_required;
      resource_id = "installation";
      external_effect = false;
    }))

module _ {W : Type 0} (d : Dependencies W) where
  -- `readOnlyStage`; no operation throws a `SignalInterruption` of its own
  unfoldable pub read_only_stage : {A : Type 0} → InstallPhase → Eff W A → Eff W A
  read_only_stage phase m w = (
    interrupting (checkpoint phase (apply_all (received (d.delivered w (m w).1)) (start new)))
        (m w).0,
    (m w).1,
  )

  unfoldable pub run_init_tools : Options → Eff W InitResult
  run_init_tools options w =
      if not options.is_tty then (returned non_tty, w) else ended (d.prepare_tools false w)
    where
      ended : Outcome (List ToolResult) × W → Outcome InitResult × W
      ended (returned results, v) = (
        elim (preparation_failure results) [
          | none ↦ returned (InitResult.success [] results)
          | some f ↦ returned f
        ],
        v,
      )
      ended (threw (interruption i), v) = elim i.signal [
        | sigint ↦ (returned (cancelled [] none (some (details i))), v)
        | sigterm ↦ (threw (interruption i), v)
      ]
      ended (threw t, v) = (threw t, v)
