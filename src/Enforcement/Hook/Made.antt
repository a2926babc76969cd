-- ===== src/Enforcement/Hook/Made.antt =====
-- What the envelope of integrations/microsoft-agent-governance-toolkit/bridge/codex-hook.mjs is made
-- of: the input, the request in it, and the pinned binding of its operation.
use agent_governance.Base.{
  ◌≡◌, ◌≤◌, sym, ◌∙◌, ap, subst, some, List, [], >>=-eq-ok, require-eq-ok, require, reject_if,
  String, false, not, string_eq, list_eq, nat_eq, ◌==◌, arith, ok,
}
use agent_governance.Base.Json.{Json, obj, Members}
use agent_governance.Base.Text.{Units}
use agent_governance.Contracts.Effects.{
  Outcome, returned, lift, lift-eq-returned, refuse_if, refuse_if-eq-returned, finally,
  >>=-eq-returned,
}
use agent_governance.Enforcement.Engine.{Provider}
use agent_governance.Enforcement.Hook.{
  Host, read_hook_input, absolute_path, action_envelope_from_hook, checked_tool_name,
  bindings_sha256, read_bindings,
}
use agent_governance.Enforcement.Hook.Input.{
  Request, Binding, byte_length, max_input_bytes, read_chunks, request_of, binding_of,
}
use agent_governance.Enforcement.Hook.Input.Payload.{joined, read_chunks_iff}
use agent_governance.Enforcement.Hook.Input.Parts.{
  IsRequestOf, IsBindingOf, IsEnvelopeOf, request_of-IsRequestOf, binding_of-IsBindingOf,
  envelope_of-IsEnvelopeOf,
}

returned-injective : {A : Type 0} {x y : A} → ◌≡◌ {A = Outcome A} (returned x) (returned y) → x ≡ y
returned-injective e = cc

same_units : (a b : Units) → not (a == b) ≡ false → a ≡ b
same_units a b e = ground arith

module _ {W H C E : Type 0} (host : Host W H) (p : Provider W H C E) where
  -- The input is what the chunks of the standard input make, read in the world of the call.
  pub record IsInput (w : W) (input : Json) : Type 0 where
    pub chunks : List Units
    pub read : (host.stdin w).0 ≡ returned chunks
    pub small : byte_length (joined chunks) ≤ max_input_bytes
    pub parsed : host.parse_json (joined chunks) ≡ ok input

  -- The envelope is made of the request in the input, and of the binding of its operation in the text
  -- with the pinned digest.
  pub record IsMade (tool : String) (input envelope : Json) : Type 0 where
    pub members : Members
    pub is_object : input ≡ obj members
    pub request : Request
    pub requested : IsRequestOf tool members request
    pub payload : Units
    pub pinned : host.sha256_text payload ≡ bindings_sha256
    pub bindings : Members
    pub parsed : host.parse_json payload ≡ ok (obj bindings)
    pub binding : Binding
    pub bound : IsBindingOf tool request.operation bindings binding
    pub fields : Members
    pub is_envelope : envelope ≡ obj fields
    pub made : IsEnvelopeOf request binding fields

  pub read_hook_input-IsInput :
      (w : W) {input : Json} → (read_hook_input host p w).0 ≡ returned input → IsInput w input
  unfolding read_hook_input
  read_hook_input-IsInput w {input} e =
      let (chunks, w1, q, e1) = >>=-eq-returned host.stdin _ w e in
      let (payload, w2, r, e2) = >>=-eq-returned (lift (read_chunks [] chunks)) _ w1 e1 in
      let whole =
        (read_chunks_iff chunks payload).0
          (lift-eq-returned (read_chunks [] chunks) w1 (ap (λ o. o.0) r)) in
      let parsed = lift-eq-returned (host.parse_json payload) w2 e2 in
      record {
        chunks = chunks;
        read = ap (λ o. o.0) q;
        small = subst (λ t. byte_length t ≤ max_input_bytes) whole.0 whole.1;
        parsed = subst (λ t. host.parse_json t ≡ ok input) whole.0 parsed;
      }

  pub action_envelope_from_hook-IsMade :
      (tool : String) (input : Json) (w : W) {envelope : Json}
      → (action_envelope_from_hook host p input tool w).0 ≡ returned envelope
      → IsMade tool input envelope
  unfolding action_envelope_from_hook
  action_envelope_from_hook-IsMade tool input w {envelope} e =
      let (request, w1, q1, e1) = >>=-eq-returned (lift (request_of tool input)) _ w e in
      let (path, w2, _, e2) =
        >>=-eq-returned (absolute_path host p host.action_bindings "action_bindings_path") _ w1
          e1 in
      let (handle, w3, _, e3) = >>=-eq-returned (p.files.open_read path) _ w2 e2 in
      let (payload, w4, _, e4) =
        >>=-eq-returned (finally (read_bindings host p handle) (p.files.close handle)) _ w3 e3 in
      let differs = not (host.sha256_text payload == bindings_sha256) in
      let (_, w5, q5, e5) =
        >>=-eq-returned (refuse_if differs "action_bindings_integrity") _ w4 e4 in
      let (bindings, w6, q6, e6) = >>=-eq-returned (lift (host.parse_json payload)) _ w5 e5 in
      let (binding, w7, q7, e7) =
        >>=-eq-returned (lift (binding_of tool request bindings)) _ w6 e6 in
      let same = returned-injective e7 in
      let pinned =
        refuse_if-eq-returned differs "action_bindings_integrity" w4 (ap (λ o. o.0) q5) in
      let (members, is_object, requested) =
        request_of-IsRequestOf tool input
          (lift-eq-returned (request_of tool input) w (ap (λ o. o.0) q1)) in
      let (found, is_table, bound) =
        binding_of-IsBindingOf tool request bindings
          (lift-eq-returned (binding_of tool request bindings) w6 (ap (λ o. o.0) q7)) in
      let (fields, is_envelope, made) = envelope_of-IsEnvelopeOf request binding in
      record {
        members = members;
        is_object = is_object;
        request = request;
        requested = requested;
        payload = payload;
        pinned = same_units (host.sha256_text payload) bindings_sha256 pinned;
        bindings = found;
        parsed = lift-eq-returned (host.parse_json payload) w5 (ap (λ o. o.0) q6) ∙ ap ok is_table;
        binding = binding;
        bound = bound;
        fields = fields;
        is_envelope = sym same ∙ is_envelope;
        made = made;
      }

  pub checked_tool_name-enforced :
      {tool : String} → checked_tool_name host ≡ ok tool → host.enforced_tool_name ≡ some tool
  unfolding checked_tool_name
  checked_tool_name-enforced {tool} e =
      let (name, q, e1) = >>=-eq-ok (require host.enforced_tool_name "enforced_tool_name") _ e in
      let (_, _, e2) = >>=-eq-ok (reject_if (name == "") "enforced_tool_name") _ e1 in
      let same : name ≡ tool = cc in
      require-eq-ok host.enforced_tool_name "enforced_tool_name" q ∙ ap some same
