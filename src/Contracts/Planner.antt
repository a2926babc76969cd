-- ===== src/Contracts/Planner.antt =====
-- `planInstallation` of src/planner.ts. `join` of `node:path` is a parameter.
pub mod Laws
use agent_governance.Base.{
  String, ◌<>◌, ◌≡◌, refl, ◌≢◌, ◌↔◌, ◌⊎◌, Bool, true, false, not, ◌||◌, Option, none, some, List,
  [], ◌∷◌, ◌++◌, if◌then◌else◌, All, arith, Result, ok, err,
}
use agent_governance.Contracts.Types.{
  Command, install, update, uninstall, rollback, InstallState, fresh, absent, current, outdated,
  downgrade_blocked, tampered, recovery_required,
}

pub data Resource : Type 0 where
  release current_metadata entry_file backup receipt local_rules : Resource

pub data Operation : Type 0 where
  create replace remove preserve check : Operation

pub record PlannedResource : Type 0 where
  pub id : Resource
  pub target : String
  pub operation : Operation

pub record PlanInput : Type 0 where
  pub command : Command
  pub state : InstallState
  pub entry_path : String
  pub installation_root : String
  pub version : String
  pub local_rules_operation : Option Operation
  pub local_rules_path : Option String
  pub binding_id : Option String

abbrev state_name : InstallState → String
state_name fresh = "FRESH"
state_name current = "CURRENT"
state_name outdated = "OUTDATED"
state_name downgrade_blocked = "DOWNGRADE_BLOCKED"
state_name absent = "ABSENT"
state_name tampered = "TAMPERED"
state_name recovery_required = "RECOVERY_REQUIRED"

abbrev pub is_unsafe : InstallState → Bool
is_unsafe tampered = true
is_unsafe recovery_required = true
is_unsafe downgrade_blocked = true
is_unsafe _ = false

abbrev pub is_mutating : Command → Bool
is_mutating install = true
is_mutating update = true
is_mutating uninstall = true
is_mutating rollback = true
is_mutating _ = false

abbrev is_current : InstallState → Bool
is_current current = true
is_current _ = false

abbrev is_outdated : InstallState → Bool
is_outdated outdated = true
is_outdated _ = false

abbrev is_uninstall : Command → Bool
is_uninstall uninstall = true
is_uninstall _ = false

unfoldable pub active_operation : Command → InstallState → Operation
active_operation c s =
    if not (is_mutating c)
    then check
    else if is_uninstall c
    then remove
    else if is_current s
    then preserve
    else if is_outdated s
    then replace
    else create

unfoldable pub release_operation : Command → InstallState → Operation
release_operation c s =
    if not (is_mutating c)
    then check
    else if is_uninstall c || is_current s
    then preserve
    else create

module _ (join : List String → String) where
  abbrev binding_root : PlanInput → String
  binding_root input = join (
      input.installation_root
      ∷ "bindings"
      ∷ (elim input.binding_id [ none ↦ "<binding-id>" | some id ↦ id ])
      ∷ [])

  unfoldable pub base_resources : PlanInput → List PlannedResource
  base_resources input =
      record {
        id = release;
        target = join (input.installation_root ∷ "releases" ∷ input.version ∷ []);
        operation = release_operation input.command input.state;
      }
      ∷ record {
        id = current_metadata;
        target = join (binding_root input ∷ "current.json" ∷ []);
        operation = active_operation input.command input.state;
      }
      ∷ record {
        id = entry_file;
        target = input.entry_path;
        operation = active_operation input.command input.state;
      }
      ∷ record {
        id = backup;
        target = join (input.installation_root ∷ "backups" ∷ []);
        operation = if is_mutating input.command then create else check;
      }
      ∷ record {
        id = receipt;
        target = join (binding_root input ∷ "last-transaction.json" ∷ []);
        operation = if is_mutating input.command then replace else check;
      }
      ∷ []

  -- the `resources.push` for local rules
  unfoldable pub add_local_rules :
      PlanInput
      → Option Operation
      → Option String
      → List PlannedResource
      → Result (List PlannedResource)
  add_local_rules input none path resources = ok resources
  add_local_rules input (some operation) none resources =
      err "local-rules plan requires the verified manifest path"
  add_local_rules input (some operation) (some path) resources = ok (
      resources
      ++ (record {
        id = local_rules;
        target = join (
            input.installation_root ∷ "releases" ∷ input.version ∷ "bundle" ∷ "agent-governance"
            ∷ path ∷ []);
        operation = operation;
      }
          ∷ []))

  unfoldable pub plan_installation : PlanInput → Result (List PlannedResource)
  plan_installation input =
      if is_unsafe input.state
      then err ("cannot plan unsafe state: " <> state_name input.state)
      else add_local_rules input input.local_rules_operation input.local_rules_path
          (base_resources input)
