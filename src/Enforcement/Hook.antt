-- ===== src/Enforcement/Hook.antt =====
-- integrations/microsoft-agent-governance-toolkit/bridge/codex-hook.mjs. The environment variables,
-- the files, the standard input, `JSON.parse` and the digest of a text are parameters. `main` returns
-- what the source writes to the standard output.
pub mod Input
pub mod Made
pub mod Laws
use agent_governance.Base.{
  String, Bool, true, false, not, ◌||◌, Option, none, some, List, [], ◌∷◌, string_eq, list_eq,
  nat_eq, ◌==◌, if◌then◌else◌, ltb, Result, ok, reject_if, require, ◌*◌, ◌<>◌,
}
use Prim.Native.Nat.{◌%◌}
use agent_governance.Base.{◌>>=◌ as ◌try◌}
use agent_governance.Base.Json.{Json, str, obj, Members, end, get}
use agent_governance.Base.Text.{Units, units}
use agent_governance.Contracts.Effects.{
  Outcome, returned, threw, Eff, ◌>>=◌, give, lift, refuse_if, finally,
}
use agent_governance.Enforcement.Files.{Files, Stat, others_write}
use agent_governance.Enforcement.Engine.{Provider}
use agent_governance.Enforcement.Provider.{Options, Evidence, members_of, evaluate_envelope}
use agent_governance.Enforcement.Hook.Input.{
  read_chunks, Request, request_of, binding_of, envelope_of,
}

pub record LogEntry : Type 0 where
  pub action_id : Option String
  pub evidence_id : Option String
  pub decision : String
  pub provider : String
  pub provider_reached : Bool
  pub evaluated_before_effect : Bool
  pub tool_name : Option Json
  pub tool_use_id : Option Json

pub record Host (W H : Type 0) : Type 0 where
  pub enforced_tool_name : Option String
  pub action_bindings : Option String
  pub evidence_log : Option String
  pub stdin : Eff W (List Units)
  pub parse_json : Units → Result Json
  pub decode : Units → Units
  pub sha256_text : Units → Units
  pub open_append : String → Eff W H
  pub append_entry : H → LogEntry → Eff W (Unit {0})
  pub sync : H → Eff W (Unit {0})

pub record HookOutput : Type 0 where
  pub hook_event_name : String
  pub permission_decision : String
  pub permission_decision_reason : Option String

unfoldable pub hook_output : String → String → HookOutput
hook_output permission decision = record {
  hook_event_name = "PreToolUse";
  permission_decision = permission;
  permission_decision_reason =
      if permission == "deny"
      then some ("agent-governance enforcement blocked: " <> decision)
      else none;
}

unfoldable pub permission : String → String
permission decision = if decision == "allow" then "allow" else "deny"

unfoldable pub recorded : String → Outcome (Unit {0}) → HookOutput
unfolding hook_output permission
recorded decision (returned done) = hook_output (permission decision) decision
recorded decision (threw t) = hook_output "deny" decision

abbrev pub bindings_sha256 : Units
bindings_sha256 = units "3ac3c10cf9a57d275f64262b0137e3d881cc6028fcb49a6d0247f7b4ef07cffc"

abbrev pub no_options : {W : Type 0} → Options W
no_options = record {
  policy_module_path = none;
  policy_path = none;
  expected_runtime_manifest_path = none;
  expected_runtime_manifest_sha256 = none;
  expected_policy_sha256 = none;
  approval_verifier = none;
}

unfoldable pub checked_tool_name : {W H : Type 0} → Host W H → Result String
checked_tool_name host = require host.enforced_tool_name "enforced_tool_name" try λ name.
    reject_if (name == "") "enforced_tool_name" try λ passed. ok name

abbrev pub entry_for : Json → Evidence → LogEntry
entry_for input result = record {
  action_id = result.action_id;
  evidence_id = result.evidence_id;
  decision = result.decision;
  provider = result.provider;
  provider_reached = result.provider_reached;
  evaluated_before_effect = result.evaluated_before_effect;
  tool_name = get "tool_name" (members_of input);
  tool_use_id = get "tool_use_id" (members_of input);
}

module _ {W H C E : Type 0} (host : Host W H) (p : Provider W H C E) where
  unfoldable pub read_hook_input : Eff W Json
  unfolding read_chunks
  read_hook_input = host.stdin >>= λ chunks.
      lift (read_chunks [] chunks) >>= λ payload. lift (host.parse_json payload)

  unfoldable pub absolute_path : Option String → String → Eff W String
  absolute_path given message = lift (require given message) >>= λ path.
      refuse_if (not (p.files.is_absolute path)) message >>= λ passed. give path

  unfoldable pub read_bindings : H → Eff W Units
  unfolding others_write
  read_bindings handle = p.files.stat handle >>= λ stat.
      refuse_if (not stat.is_file || others_write stat.mode) "action_bindings_file" >>= λ passed.
      refuse_if (ltb (64 * 1024) stat.size) "action_bindings_size" >>= λ checked.
      p.files.read handle >>= λ content. give (host.decode content)

  unfoldable pub action_envelope_from_hook : Json → String → Eff W Json
  unfolding request_of absolute_path read_bindings binding_of envelope_of
  action_envelope_from_hook input tool = lift (request_of tool input) >>= λ request.
      absolute_path host.action_bindings "action_bindings_path" >>= λ path.
      p.files.open_read path >>= λ handle.
      finally (read_bindings handle) (p.files.close handle) >>= λ payload.
      refuse_if (not (host.sha256_text payload == bindings_sha256)) "action_bindings_integrity"
      >>= λ passed. lift (host.parse_json payload) >>= λ bindings.
          lift (binding_of tool request bindings) >>= λ binding. give (envelope_of request binding)

  -- `(mode & 0o077) !== 0`
  unfoldable pub write_entry : H → LogEntry → Eff W (Unit {0})
  write_entry handle entry = p.files.stat handle >>= λ stat.
      refuse_if (not stat.is_file || not (stat.mode % 64 == 0)) "evidence_file_mode" >>= λ passed.
      host.append_entry handle entry >>= λ appended. host.sync handle

  unfoldable pub append_evidence : Json → Evidence → Eff W (Unit {0})
  unfolding absolute_path write_entry
  append_evidence input result = absolute_path host.evidence_log "evidence_path" >>= λ path.
      host.open_append path >>= λ handle.
      finally (write_entry handle (entry_for input result)) (p.files.close handle)

  -- what `main` reads and evaluates
  unfoldable pub evaluated : Eff W (Json × Evidence)
  unfolding checked_tool_name read_hook_input action_envelope_from_hook evaluate_envelope
  evaluated = lift (checked_tool_name host) >>= λ tool. read_hook_input >>= λ input.
      action_envelope_from_hook input tool >>= λ envelope.
      evaluate_envelope p no_options envelope >>= λ result. give (input, result)

  unfoldable pub after_evaluation : Outcome (Json × Evidence) → W → HookOutput × W
  unfolding hook_output recorded append_evidence
  after_evaluation (returned (input, result)) w = (
    recorded result.decision (append_evidence input result w).0,
    (append_evidence input result w).1,
  )
  after_evaluation (threw t) w = (hook_output "deny" "error", w)

  unfoldable pub main : W → HookOutput × W
  unfolding evaluated after_evaluation
  main w = after_evaluation (evaluated w).0 (evaluated w).1
