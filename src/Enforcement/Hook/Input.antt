-- ===== src/Enforcement/Hook/Input.antt =====
-- What integrations/microsoft-agent-governance-toolkit/bridge/codex-hook.mjs reads: the payload of the
-- standard input, the request of the tool call, the binding of its operation, and the action envelope.
pub mod Laws
pub mod Parts
pub mod Payload
use agent_governance.Base.{
  ℕ, String, ◌<>◌, Bool, true, false, not, ◌&&◌, ◌||◌, Option, none, some, List, [], ◌∷◌, ◌++◌,
  string_eq, nat_eq, ◌==◌, if◌then◌else◌, all, leb, ltb, length, Result, ok, err, ◌>>=◌, ◌>>◌,
  reject_if, ◌+◌, ◌*◌, contains,
}
use agent_governance.Base.Json.{Json, num, bool, str, obj, Members, end, member, keys, get}
use agent_governance.Base.Text.{Units, units}
use agent_governance.Base.Regex.{in_range}
use agent_governance.Enforcement.Envelope.{
  is_alphanumeric, opaque_id, has_exact_keys, bounded, is_authorization, is_boolean,
}

abbrev pub max_input_bytes : ℕ
max_input_bytes = 1024 * 1024

abbrev pub is_high : ℕ → Bool
is_high c = in_range 0xd800 0xdbff c

abbrev width : ℕ → ℕ
width c = if leb c 0x7f then 1 else if leb c 0x7ff then 2 else 3

-- `Buffer.byteLength(text, "utf8")`: a pair of surrogates takes four bytes, a lone one three
unfoldable pub bytes_after : Bool → Units → ℕ
bytes_after high [] = 0
bytes_after high (c ∷ cs) =
    let paired = bytes_after false cs in
    let alone = bytes_after (is_high c) cs in
    if high && in_range 0xdc00 0xdfff c then 1 + paired else width c + alone

unfoldable pub byte_length : Units → ℕ
unfolding bytes_after
byte_length text = bytes_after false text

unfoldable pub read_chunks : Units → List Units → Result Units
unfolding byte_length
read_chunks payload [] = ok payload
read_chunks payload (chunk ∷ chunks) =
    reject_if (ltb max_input_bytes (byte_length (payload ++ chunk))) "hook_input_too_large"
    >> read_chunks (payload ++ chunk) chunks

pub record Request : Type 0 where
  pub tool_use_id : String
  pub operation : String
  pub resource_id : String

pub record Binding : Type 0 where
  pub action : String
  pub effect : String
  pub semantic_authorization : String
  pub requires_approval : Bool

abbrev pub text_is : Option Json → (String → Bool) → Bool
text_is (some (str s)) test = test s
text_is _ test = false

abbrev object_is : Option Json → (Members → Bool) → Bool
object_is (some (obj m)) test = test m
object_is _ test = false

abbrev text_at : String → Members → String
text_at key m = elim (get key m) [ some (str s) ↦ s | _ ↦ "" ]

abbrev object_at : String → Members → Members
object_at key m = elim (get key m) [ some (obj inner) ↦ inner | _ ↦ end ]

abbrev flag_at : String → Members → Bool
flag_at key m = elim (get key m) [ some (bool b) ↦ b | _ ↦ false ]

abbrev pub is_resource : ℕ → Bool
is_resource c = is_alphanumeric c || c == b'.' || c == b'_' || c == b'-'

-- `RESOURCE_ID.test`
unfoldable pub resource_id : Units → Bool
resource_id [] = false
resource_id (c ∷ cs) = is_alphanumeric c && all is_resource cs && leb (length cs) 127

unfoldable pub valid_tool_input : Members → Bool
unfolding has_exact_keys
valid_tool_input tool_input =
    length (keys tool_input) == 1
    && object_is (get "action_request" tool_input)
        (λ request. has_exact_keys request ("operation" ∷ "resource_id" ∷ []))

unfoldable pub valid_input : String → Members → Bool
unfolding opaque_id valid_tool_input
valid_input tool input =
    text_is (get "hook_event_name" input) (λ s. s == "PreToolUse")
    && text_is (get "tool_use_id" input) (λ s. opaque_id (units s))
    && text_is (get "tool_name" input) (λ s. s == tool)
    && object_is (get "tool_input" input) valid_tool_input

unfoldable pub valid_request : Members → Bool
unfolding opaque_id resource_id
valid_request request =
    text_is (get "operation" request) (λ s. opaque_id (units s))
    && text_is (get "resource_id" request) (λ s. resource_id (units s))

abbrev pub action_request : Members → Members
action_request input = object_at "action_request" (object_at "tool_input" input)

abbrev pub request_from : Members → Request
request_from input = record {
  tool_use_id = text_at "tool_use_id" input;
  operation = text_at "operation" (action_request input);
  resource_id = text_at "resource_id" (action_request input);
}

unfoldable pub request_of : String → Json → Result Request
unfolding valid_input valid_request
request_of tool (obj input) =
    if valid_input tool input
    then if valid_request (action_request input)
      then ok (request_from input)
      else err "invalid_action_request"
    else err "invalid_hook_input"
request_of tool _ = err "invalid_hook_input"

abbrev pub is_one : Option Json → Bool
is_one (some (num n)) = n == 1
is_one _ = false

unfoldable pub valid_bindings : String → Members → Bool
unfolding has_exact_keys
valid_bindings tool bindings =
    has_exact_keys bindings ("version" ∷ "tool_name" ∷ "resource_scheme" ∷ "operations" ∷ [])
    && is_one (get "version" bindings)
    && text_is (get "tool_name" bindings) (λ s. s == tool)
    && text_is (get "resource_scheme" bindings) (λ s. s == "synthetic")
    && object_is (get "operations" bindings) (λ operations. true)

unfoldable pub valid_binding : Members → Bool
unfolding has_exact_keys bounded is_authorization is_boolean
valid_binding binding =
    has_exact_keys binding
      ("action" ∷ "effect" ∷ "semantic_authorization" ∷ "requires_approval" ∷ [])
    && bounded (get "action" binding) 512
    && bounded (get "effect" binding) 256
    && is_authorization (get "semantic_authorization" binding)
    && is_boolean (get "requires_approval" binding)

abbrev pub binding_from : Members → Binding
binding_from binding = record {
  action = text_at "action" binding;
  effect = text_at "effect" binding;
  semantic_authorization = text_at "semantic_authorization" binding;
  requires_approval = flag_at "requires_approval" binding;
}

unfoldable pub checked_binding : Option Json → Result Binding
unfolding valid_binding
checked_binding (some (obj binding)) =
    if valid_binding binding then ok (binding_from binding) else err "action_binding"
checked_binding _ = err "action_binding"

unfoldable pub binding_of : String → Request → Json → Result Binding
unfolding valid_bindings checked_binding
binding_of tool request (obj bindings) =
    if valid_bindings tool bindings
    then checked_binding (get request.operation (object_at "operations" bindings))
    else err "action_bindings_contract"
binding_of tool request _ = err "action_bindings_contract"

unfoldable pub envelope_of : Request → Binding → Json
envelope_of request binding = obj (
    member "action_id" (str ("action:" <> request.tool_use_id)) (
      member "action" (str binding.action) (
        member "resource" (str ("synthetic://" <> request.resource_id)) (
          member "effect" (str binding.effect) (
            member "semantic_authorization" (str binding.semantic_authorization) (
              member "approval_context" (obj (member "valid" (bool false) end)) (
                member "risk_context"
                  (obj (member "requires_approval" (bool binding.requires_approval) end))
                  (member "evidence_id" (str ("evidence:" <> request.tool_use_id)) end))))))))
