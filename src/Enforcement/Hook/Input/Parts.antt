-- ===== src/Enforcement/Hook/Input/Parts.antt =====
-- Where integrations/microsoft-agent-governance-toolkit/bridge/codex-hook.mjs takes the parts of an
-- action envelope from, written out.
use agent_governance.Base.{
  ℕ, String, ◌<>◌, ◌≡◌, refl, subst, Bool, true, false, ◌&&◌, Option, some, List, [], ◌∷◌,
  string_eq, nat_eq, ◌==◌, arith, ok, Bool-cases, inl, inr,
}
use agent_governance.Base.Json.{Json, bool, str, obj, Members, end, member, get}
use agent_governance.Base.Text.{units}
use agent_governance.Enforcement.Envelope.{
  opaque_id, has_exact_keys, is_boolean, bounded, is_authorization,
}
use agent_governance.Enforcement.Hook.Input.{
  Request, Binding, is_one, text_is, object_is, text_at, object_at, flag_at, valid_tool_input,
  valid_input, valid_request, valid_bindings, valid_binding, action_request, request_from,
  binding_from, checked_binding, request_of, binding_of, envelope_of, resource_id,
}

-- The request is that of the input, which is one for the tool.
pub record IsRequestOf (tool : String) (input : Members) (request : Request) : Type 0 where
  pub event : get "hook_event_name" input ≡ some (str "PreToolUse")
  pub tool_name : get "tool_name" input ≡ some (str tool)
  pub tool_use_id : get "tool_use_id" input ≡ some (str request.tool_use_id)
  pub tool_input : Members
  pub tool_inputs : get "tool_input" input ≡ some (obj tool_input)
  pub action : Members
  pub actions : get "action_request" tool_input ≡ some (obj action)
  pub operation : get "operation" action ≡ some (str request.operation)
  pub resource_id : get "resource_id" action ≡ some (str request.resource_id)

-- The binding is the one of the operation among the bindings of the tool.
pub record IsBindingOf (tool operation : String) (bindings : Members) (binding : Binding)
    : Type 0 where
  pub tool_name : get "tool_name" bindings ≡ some (str tool)
  pub operations : Members
  pub found : get "operations" bindings ≡ some (obj operations)
  pub entry : Members
  pub entries : get operation operations ≡ some (obj entry)
  pub action : get "action" entry ≡ some (str binding.action)
  pub effect : get "effect" entry ≡ some (str binding.effect)
  pub authorization : get "semantic_authorization" entry ≡ some (str binding.semantic_authorization)
  pub requires_approval : get "requires_approval" entry ≡ some (bool binding.requires_approval)

-- The envelope names the call, the resource and what is bound to the operation, and claims no approval.
pub record IsEnvelopeOf (request : Request) (binding : Binding) (envelope : Members) : Type 0 where
  pub action_id : get "action_id" envelope ≡ some (str ("action:" <> request.tool_use_id))
  pub action : get "action" envelope ≡ some (str binding.action)
  pub resource : get "resource" envelope ≡ some (str ("synthetic://" <> request.resource_id))
  pub effect : get "effect" envelope ≡ some (str binding.effect)
  pub authorization :
      get "semantic_authorization" envelope ≡ some (str binding.semantic_authorization)
  pub approval : get "approval_context" envelope ≡ some (obj (member "valid" (bool false) end))
  pub risk :
      get "risk_context" envelope
      ≡ some (obj (member "requires_approval" (bool binding.requires_approval) end))
  pub evidence_id : get "evidence_id" envelope ≡ some (str ("evidence:" <> request.tool_use_id))

text_at-get :
    (key : String) (m : Members) (test : String → Bool)
    → text_is (get key m) test ≡ true
    → get key m ≡ some (str (text_at key m))
text_at-get key m test e = ground arith

text_is-literal :
    (key name : String) (m : Members)
    → text_is (get key m) (λ s. s == name) ≡ true
    → get key m ≡ some (str name)
text_is-literal key name m e = ground arith

object_at-get :
    (key : String) (m : Members) (test : Members → Bool)
    → object_is (get key m) test ≡ true
    → (get key m ≡ some (obj (object_at key m))) × (test (object_at key m) ≡ true)
object_at-get key m test e = ground arith

bounded-get :
    (key : String) (m : Members) (limit : ℕ)
    → bounded (get key m) limit ≡ true
    → get key m ≡ some (str (text_at key m))
unfolding bounded
bounded-get key m limit e = ground arith

authorization-get :
    (key : String) (m : Members)
    → is_authorization (get key m) ≡ true
    → get key m ≡ some (str (text_at key m))
unfolding is_authorization
authorization-get key m e = ground arith

flag_at-get :
    (key : String) (m : Members)
    → is_boolean (get key m) ≡ true
    → get key m ≡ some (bool (flag_at key m))
unfolding is_boolean
flag_at-get key m e = ground arith

and_four :
    (a b c d : Bool) → (a && b && c && d) ≡ true → (a ≡ true) × (b ≡ true) × (c ≡ true) × (d ≡ true)
and_four a b c d e = (ground arith, ground arith, ground arith, ground arith)

and_five :
    (a b c d f : Bool)
    → (a && b && c && d && f) ≡ true
    → (a ≡ true) × (b ≡ true) × (c ≡ true) × (d ≡ true) × (f ≡ true)
and_five a b c d f e = (ground arith, ground arith, ground arith, ground arith, ground arith)

and_two : (a b : Bool) → (a && b) ≡ true → (a ≡ true) × (b ≡ true)
and_two a b e = (ground arith, ground arith)

request_from-IsRequestOf :
    (tool : String) (input : Members)
    → valid_input tool input ≡ true
    → valid_request (action_request input) ≡ true
    → IsRequestOf tool input (request_from input)
unfolding valid_input valid_tool_input valid_request
request_from-IsRequestOf tool input good fine =
    let (event, id, name, inputs) = and_four _ _ _ _ good in
    let (holds, inner) = object_at-get "tool_input" input valid_tool_input inputs in
    let (_, request) = and_two _ _ inner in
    let (acts, _) = object_at-get "action_request" (object_at "tool_input" input) _ request in
    let (operation, resource) = and_two _ _ fine in
    record {
      event = text_is-literal "hook_event_name" "PreToolUse" input event;
      tool_name = text_is-literal "tool_name" tool input name;
      tool_use_id = text_at-get "tool_use_id" input (λ s. opaque_id (units s)) id;
      tool_input = object_at "tool_input" input;
      tool_inputs = holds;
      action = action_request input;
      actions = acts;
      operation =
          text_at-get "operation" (action_request input) (λ s. opaque_id (units s)) operation;
      resource_id =
          text_at-get "resource_id" (action_request input) (λ s. resource_id (units s)) resource;
    }

pub request_of-IsRequestOf :
    (tool : String) (input : Json) {request : Request}
    → request_of tool input ≡ ok request
    → (m : Members) × (input ≡ obj m) × IsRequestOf tool m request
unfolding request_of
request_of-IsRequestOf tool (obj input) {request} e = elim (Bool-cases (valid_input tool input)) [
  | inr bad ↦ absurd (let refused = simp bad at e in cc)
  | inl good ↦ elim (Bool-cases (valid_request (action_request input))) [
    | inr bad ↦ absurd (let refused = simp (good, bad) at e in cc)
    | inl fine ↦
        let made = simp (good, fine) at e in
        let same : request_from input ≡ request = cc in
        (
          input,
          refl,
          subst (IsRequestOf tool input) same (request_from-IsRequestOf tool input good fine),
        )
  ]
]
request_of-IsRequestOf tool _ e = cc

binding_from-IsBindingOf :
    (tool operation : String) (bindings : Members) (found : Option Json) {binding : Binding}
    → valid_bindings tool bindings ≡ true
    → get operation (object_at "operations" bindings) ≡ found
    → checked_binding found ≡ ok binding
    → IsBindingOf tool operation bindings binding
unfolding valid_bindings checked_binding valid_binding
binding_from-IsBindingOf tool operation bindings (some (obj entry)) {binding} good at e =
    elim (Bool-cases (valid_binding entry)) [
      | inr bad ↦ absurd (let refused = simp bad at e in cc)
      | inl fine ↦
          let made = simp fine at e in
          let same : binding_from entry ≡ binding = cc in
          let fields : List String =
            "version" ∷ "tool_name" ∷ "resource_scheme" ∷ "operations" ∷ [] in
          let (_, _, name, _, all) =
            and_five (has_exact_keys bindings fields) (is_one (get "version" bindings)) _
              (text_is (get "resource_scheme" bindings) (λ s. s == "synthetic")) _ good in
          let keys : List String =
            "action" ∷ "effect" ∷ "semantic_authorization" ∷ "requires_approval" ∷ [] in
          let (_, action, effect, authorization, approval) =
            and_five (has_exact_keys entry keys) _ _ _ _ fine in
          let (holds, _) = object_at-get "operations" bindings (λ operations. true) all in
          subst (IsBindingOf tool operation bindings) same (record {
            tool_name = text_is-literal "tool_name" tool bindings name;
            operations = object_at "operations" bindings;
            found = holds;
            entry = entry;
            entries = at;
            action = bounded-get "action" entry 512 action;
            effect = bounded-get "effect" entry 256 effect;
            authorization = authorization-get "semantic_authorization" entry authorization;
            requires_approval = flag_at-get "requires_approval" entry approval;
          })
    ]
binding_from-IsBindingOf tool operation bindings _ good at e = cc

pub binding_of-IsBindingOf :
    (tool : String) (request : Request) (bindings : Json) {binding : Binding}
    → binding_of tool request bindings ≡ ok binding
    → (m : Members) × (bindings ≡ obj m) × IsBindingOf tool request.operation m binding
unfolding binding_of
binding_of-IsBindingOf tool request (obj bindings) {binding} e =
    elim (Bool-cases (valid_bindings tool bindings)) [
      | inr bad ↦ absurd (let refused = simp bad at e in cc)
      | inl good ↦ (
        bindings,
        refl,
        binding_from-IsBindingOf tool request.operation bindings _ good refl (simp good at e),
      )
    ]
binding_of-IsBindingOf tool request _ e = cc

pub envelope_of-IsEnvelopeOf :
    (request : Request) (binding : Binding)
    → (m : Members) × (envelope_of request binding ≡ obj m) × IsEnvelopeOf request binding m
unfolding envelope_of get string_eq
envelope_of-IsEnvelopeOf request binding = (
  _,
  refl,
  record {
    action_id = refl;
    action = refl;
    resource = refl;
    effect = refl;
    authorization = refl;
    approval = refl;
    risk = refl;
    evidence_id = refl;
  },
)
