-- ===== src/Tests/Enforcement.antt =====
-- The bridge on a small machine: a file holds the runtime's manifest or a text without a meaning, the
-- digests are those that the source pins, and the world is the log of the evidence.
use agent_governance.Base.{
  ◌||◌, ◌↔◌, ◌≤◌, All, String, ◌<>◌, ◌≡◌, refl, Bool, true, false, none, some, List, [], ◌∷◌, ◌++◌,
  list_eq, nat_eq, string_eq, length, ◌==◌, if◌then◌else◌, ok, err,
}
use agent_governance.Base.Json.{Json, num, bool, str, obj, end, member, get}
use agent_governance.Base.Text.{Units, units}
use agent_governance.Contracts.Effects.{returned, give}
use agent_governance.Enforcement.Envelope.{validate_envelope}
use agent_governance.Enforcement.Files.{Files, parse_runtime_manifest, Manifest, runtime_files}
use agent_governance.Enforcement.Files.Laws.{parse_runtime_manifest-IsPinned, IsPinned}
use agent_governance.Enforcement.Engine.{Provider}
use agent_governance.Enforcement.Provider.{Evidence, evidence, members_of, evaluate_envelope}
use agent_governance.Enforcement.Provider.Total.{FailsClosed, evaluate_envelope-FailsClosed}
use agent_governance.Enforcement.Hook.{Host, LogEntry, no_options, bindings_sha256}
use agent_governance.Enforcement.Hook.Input.{
  Request, Binding, request_of, binding_of, envelope_of, read_chunks, byte_length, max_input_bytes,
}
use agent_governance.Enforcement.Hook.Input.Payload.{read_chunks_iff}
use agent_governance.Enforcement.Hook.Input.Laws.{request_of-validate_envelope}

abbrev Log : Type 0
Log = List LogEntry

abbrev policy_sha : String
policy_sha = "2809bcda1f47390d6c9e47ac10a9cdc6a7f8014a0a95e71434aa6335652740eb"

abbrev manifest_sha : String
manifest_sha = "be2a0921e8083657ab5ae0c18ac1de7a0d06d8d299c350aa07155ffb86dab2b3"

abbrev line : String → String
line path = policy_sha <> "  " <> path <> "\n"

abbrev manifest_text : Units
manifest_text = units (
    line "build.receipt"
    <> line "microsoft-sdk/dist/policy.js"
    <> line "microsoft-sdk/dist/protocol-facets.js"
    <> line "microsoft-sdk/dist/types.js")

abbrev is_manifest : String → Bool
is_manifest path = path == "own/manifest" || path == "root/runtime.files.sha256"

abbrev starts_with_x : Units → Bool
starts_with_x [] = false
starts_with_x (c ∷ _) = c == b'x'

abbrev disk : Files Log String
disk = record {
  is_absolute = λ path. true;
  open_read = give;
  stat = λ handle. give (record { is_file = true; size = 9; mode = 256 });
  read = λ handle. give (if is_manifest handle then manifest_text else units "x");
  close = λ handle. give tt;
  sha256 = λ content. units (if starts_with_x content then policy_sha else manifest_sha);
}

abbrev joined_path : List String → String
joined_path [] = ""
joined_path (part ∷ []) = part
joined_path (part ∷ next ∷ parts) = part <> "/" <> joined_path (next ∷ parts)

-- an engine that allows every action
abbrev toolkit : Provider Log String (Unit {0}) (Unit {0})
toolkit = record {
  files = disk;
  to_text = λ value. err "Cannot convert object to primitive value";
  normalize = λ path. path;
  dirname = λ path. "root/microsoft-sdk/dist";
  resolve = λ parts. "root";
  join = joined_path;
  to_utf8 = λ content. "{}";
  run_modules = λ policy facets types. give (some tt);
  construct = λ engine_class. give tt;
  load_json = λ engine text. give tt;
  evaluate_policy = λ engine agent envelope. give (some (obj (member "action" (str "allow") end)));
  policy_module_variable = some "root/microsoft-sdk/dist/policy.js";
  own_policy_path = "own/policy";
  own_manifest_path = "own/manifest";
}

abbrev hook_input : Json
hook_input = obj (
    member "hook_event_name" (str "PreToolUse") (
      member "tool_use_id" (str "call-1") (
        member "tool_name" (str "synthetic") (
          member "tool_input"
            (obj (
              member "action_request"
                (obj (member "operation" (str "read") (member "resource_id" (str "file-1") end)))
                end))
            end))))

abbrev bindings : Json
bindings = obj (
    member "version" (num 1) (
      member "tool_name" (str "synthetic") (
        member "resource_scheme" (str "synthetic") (
          member "operations"
            (obj (
              member "read"
                (obj (
                  member "action" (str "read") (
                    member "effect" (str "none") (
                      member "semantic_authorization" (str "allow")
                        (member "requires_approval" (bool false) end)))))
                end))
            end))))

abbrev terminal : Host Log String
terminal = record {
  enforced_tool_name = some "synthetic";
  action_bindings = some "/bindings";
  evidence_log = some "/log";
  stdin = give (units "in" ∷ units "put" ∷ []);
  parse_json = λ text. ok (if length text == 5 then hook_input else bindings);
  decode = λ content. content;
  sha256_text = λ text. bindings_sha256;
  open_append = give;
  append_entry = λ handle entry log. (returned tt, log ++ entry ∷ []);
  sync = λ handle. give tt;
}

abbrev request : Request
request = record { tool_use_id = "call-1"; operation = "read"; resource_id = "file-1" }

abbrev binding : Binding
binding = record {
  action = "read";
  effect = "none";
  semantic_authorization = "allow";
  requires_approval = false;
}

abbrev envelope : Json
envelope = envelope_of request binding

abbrev answer : Evidence
answer =
    evidence (members_of envelope) "allow" true (record { matched_rule = none; error_code = none })
      true

valid_envelope : validate_envelope toolkit.to_text envelope ≡ ok true
unfolding validate_envelope string_eq list_eq nat_eq get envelope_of
    agent_governance.Enforcement.Envelope.opaque_id
valid_envelope = refl

evaluate_envelope-FailsClosed_example :
    FailsClosed (evaluate_envelope toolkit no_options envelope []).0
evaluate_envelope-FailsClosed_example =
    evaluate_envelope-FailsClosed toolkit no_options envelope [] true valid_envelope

accepted : request_of "synthetic" hook_input ≡ ok request
unfolding request_of string_eq nat_eq get
accepted = refl

bound : binding_of "synthetic" request bindings ≡ ok binding
unfolding binding_of string_eq nat_eq get
bound = refl

request_of-validate_envelope_example : validate_envelope toolkit.to_text envelope ≡ ok true
request_of-validate_envelope_example =
    request_of-validate_envelope toolkit.to_text "synthetic" hook_input bindings accepted bound

read_chunks_iff_example :
    (read_chunks [] (units "in" ∷ units "put" ∷ []) ≡ ok (units "input"))
    ↔ ((units "input" ≡ units "input") × (byte_length (units "input") ≤ max_input_bytes))
read_chunks_iff_example = read_chunks_iff (units "in" ∷ units "put" ∷ []) (units "input")

abbrev manifest_entries : Manifest
manifest_entries =
    (units "build.receipt", units policy_sha)
    ∷ (units "microsoft-sdk/dist/policy.js", units policy_sha)
    ∷ (units "microsoft-sdk/dist/protocol-facets.js", units policy_sha)
    ∷ (units "microsoft-sdk/dist/types.js", units policy_sha)
    ∷ []

read_manifest : parse_runtime_manifest manifest_text ≡ ok manifest_entries
unfolding parse_runtime_manifest list_eq nat_eq
read_manifest = refl

parse_runtime_manifest-IsPinned_example :
    (length manifest_entries ≡ length runtime_files) × All (IsPinned manifest_entries) runtime_files
parse_runtime_manifest-IsPinned_example =
    parse_runtime_manifest-IsPinned manifest_text read_manifest
