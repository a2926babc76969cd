-- ===== src/Enforcement/Hook/Input/Laws.antt =====
-- The envelope that the hook makes of a request and a binding, for
-- integrations/microsoft-agent-governance-toolkit/bridge/codex-hook.mjs.
use Prim.Native.Char.{code}
use text.Mathlib.TextLemmas.{nil-append, cons-append}
use agent_governance.Base.{
  ℕ, String, ◌<>◌, ◌≡◌, subst, ap, ◌∙◌, Bool, true, false, ◌&&◌, Option, some, [], ◌∷◌, ◌++◌,
  string_eq, nat_eq, if◌then◌else◌, all, leb, length, ◌≤◌, arith, Result, ok, ◌>>=◌, Bool-cases,
  inl, inr,
}
use agent_governance.Base.Text.{Units, units, unit_pair}
use agent_governance.Base.Json.{Json, str, obj, Members, get}
use agent_governance.Enforcement.Envelope.{
  opaque_id, bounded, is_authorization, validate_envelope, is_opaque,
}
use agent_governance.Enforcement.Hook.Input.{
  request_from, binding_from, request_of, binding_of, checked_binding, valid_binding,
  valid_bindings, valid_input, valid_request, text_at, text_is, object_at, action_request,
  resource_id, Request, Binding, envelope_of,
}

unit_pair-append : (c : ℕ) (xs ys : Units) → unit_pair c (xs ++ ys) ≡ unit_pair c xs ++ ys
unit_pair-append c xs ys = elim (Bool-cases (leb c 0xffff)) [
  | inl short ↦ simp short
  | inr long ↦ simp long
]

units-append : (s t : String) → units (s <> t) ≡ units s ++ units t
units-append String.[] t = ap units (nil-append t)
units-append (String.◌∷◌ c s) t =
    ap units (cons-append c s t)
    ∙ ap (unit_pair (code c)) (units-append s t)
    ∙ unit_pair-append (code c) (units s) (units t)

opaque_id-all : (xs : Units) → opaque_id xs ≡ true → all is_opaque xs ≡ true
unfolding opaque_id
opaque_id-all [] h = cc
opaque_id-all (c ∷ cs) h = ground arith

opaque_action :
    (xs : Units) → opaque_id xs ≡ true → opaque_id (units "action:" ++ xs) ≡ leb (length xs) 249
unfolding opaque_id nat_eq
opaque_action xs h = let good = opaque_id-all xs h in simp good (ground arith)

opaque_evidence :
    (xs : Units) → opaque_id xs ≡ true → opaque_id (units "evidence:" ++ xs) ≡ leb (length xs) 247
unfolding opaque_id nat_eq
opaque_evidence xs h = let good = opaque_id-all xs h in simp good (ground arith)

-- What the guards of the hook leave of a request and of a binding.
abbrev pub IsRequest : Request → Type 0
IsRequest request =
    (opaque_id (units request.tool_use_id) ≡ true)
    × (opaque_id (units request.operation) ≡ true)
    × (resource_id (units request.resource_id) ≡ true)

abbrev pub IsBinding : Binding → Type 0
IsBinding binding =
    (bounded (some (str binding.action)) 512 ≡ true)
    × (bounded (some (str binding.effect)) 256 ≡ true)
    × (is_authorization (some (str binding.semantic_authorization)) ≡ true)

text_is-true :
    (key : String) (m : Members) (test : String → Bool)
    → text_is (get key m) test ≡ true
    → test (text_at key m) ≡ true
text_is-true key m test e = ground arith

valid_input-tool_use_id :
    (tool : String) (input : Members)
    → valid_input tool input ≡ true
    → opaque_id (units (text_at "tool_use_id" input)) ≡ true
unfolding valid_input
valid_input-tool_use_id tool input e =
    text_is-true "tool_use_id" input (λ s. opaque_id (units s)) (ground arith)

valid_request-texts :
    (request : Members)
    → valid_request request ≡ true
    → (opaque_id (units (text_at "operation" request)) ≡ true)
      × (resource_id (units (text_at "resource_id" request)) ≡ true)
unfolding valid_request
valid_request-texts request e = (
  text_is-true "operation" request (λ s. opaque_id (units s)) (ground arith),
  text_is-true "resource_id" request (λ s. resource_id (units s)) (ground arith),
)

request_of-IsRequest :
    (tool : String) (input : Json) {request : Request}
    → request_of tool input ≡ ok request
    → IsRequest request
unfolding request_of
request_of-IsRequest tool (obj input) {request} e = elim (Bool-cases (valid_input tool input)) [
  | inr bad ↦ absurd (let refused = simp bad at e in cc)
  | inl good ↦ elim (Bool-cases (valid_request (action_request input))) [
    | inr bad ↦ absurd (let refused = simp (good, bad) at e in cc)
    | inl fine ↦
        let made = simp (good, fine) at e in
        let same : request_from input ≡ request = cc in
        let id = valid_input-tool_use_id tool input good in
        let texts = valid_request-texts (action_request input) fine in
        subst IsRequest same (id, texts.0, texts.1)
  ]
]
request_of-IsRequest tool _ e = cc

bounded-text_at :
    (key : String) (m : Members) (limit : ℕ)
    → bounded (get key m) limit ≡ true
    → bounded (some (str (text_at key m))) limit ≡ true
unfolding bounded
bounded-text_at key m limit e = ground arith

authorization-text_at :
    (key : String) (m : Members)
    → is_authorization (get key m) ≡ true
    → is_authorization (some (str (text_at key m))) ≡ true
unfolding is_authorization
authorization-text_at key m e = ground arith

valid_binding-IsBinding :
    (binding : Members) → valid_binding binding ≡ true → IsBinding (binding_from binding)
unfolding valid_binding
valid_binding-IsBinding binding e = (
  bounded-text_at "action" binding 512 (ground arith),
  bounded-text_at "effect" binding 256 (ground arith),
  authorization-text_at "semantic_authorization" binding (ground arith),
)

checked_binding-IsBinding :
    (found : Option Json) {binding : Binding}
    → checked_binding found ≡ ok binding
    → IsBinding binding
unfolding checked_binding
checked_binding-IsBinding (some (obj found)) {binding} e = elim (Bool-cases (valid_binding found)) [
  | inr bad ↦ absurd (let refused = simp bad at e in cc)
  | inl good ↦
      let made = simp good at e in
      let same : binding_from found ≡ binding = cc in
      subst IsBinding same (valid_binding-IsBinding found good)
]
checked_binding-IsBinding _ e = cc

resource_length : (xs : Units) → resource_id xs ≡ true → (1 ≤ length xs) × (length xs ≤ 128)
unfolding resource_id
resource_length [] h = cc
resource_length (c ∷ cs) h = ground arith

bounded_resource :
    (id : String)
    → resource_id (units id) ≡ true
    → bounded (some (str ("synthetic://" <> id))) 4096 ≡ true
unfolding bounded
bounded_resource id h =
    let sizes = resource_length (units id) h in
    let total = ap length (units-append "synthetic://" id) in ground arith

binding_of-IsBinding :
    (tool : String) (request : Request) (bindings : Json) {binding : Binding}
    → binding_of tool request bindings ≡ ok binding
    → IsBinding binding
unfolding binding_of
binding_of-IsBinding tool request (obj bindings) {binding} e =
    elim (Bool-cases (valid_bindings tool bindings)) [
      | inr bad ↦ absurd (let refused = simp bad at e in cc)
      | inl good ↦
          checked_binding-IsBinding (get request.operation (object_at "operations" bindings))
            (simp good at e)
    ]
binding_of-IsBinding tool request _ e = cc

-- the identifier of the evidence has the longer prefix
shorter :
    (n : ℕ)
    → ((if leb n 249 then ok (leb n 247) else ok false)
        >>= (λ good. ok (good && true && true && true)))
      ≡ ok (leb n 247)
shorter n = ground arith

envelope_of-validate :
    (to_text : Json → Result Units) (request : Request) (binding : Binding)
    → IsRequest request
    → IsBinding binding
    → validate_envelope to_text (envelope_of request binding)
      ≡ ok (leb (length (units request.tool_use_id)) 247)
unfolding envelope_of validate_envelope string_eq nat_eq get
envelope_of-validate to_text request binding r b =
    let id = units request.tool_use_id in
    let action : opaque_id (units ("action:" <> request.tool_use_id)) ≡ leb (length id) 249 =
      ap opaque_id (units-append "action:" request.tool_use_id) ∙ opaque_action id r.0 in
    let evidence : opaque_id (units ("evidence:" <> request.tool_use_id)) ≡ leb (length id) 247 =
      ap opaque_id (units-append "evidence:" request.tool_use_id) ∙ opaque_evidence id r.0 in
    let resource = bounded_resource request.resource_id r.2 in
    simp (action, evidence, resource, b.0, b.1, b.2) (shorter (length id))

-- The envelope that the hook makes of a request and a binding that it has accepted is valid exactly if
-- the identifier of the tool call has at most 247 units.
pub request_of-validate_envelope :
    (to_text : Json → Result Units) (tool : String) (input bindings : Json) {request : Request}
    {binding : Binding}
    → request_of tool input ≡ ok request
    → binding_of tool request bindings ≡ ok binding
    → validate_envelope to_text (envelope_of request binding)
      ≡ ok (leb (length (units request.tool_use_id)) 247)
request_of-validate_envelope to_text tool input bindings {request} {binding} accepted bound =
    envelope_of-validate to_text request binding (request_of-IsRequest tool input accepted)
      (binding_of-IsBinding tool request bindings bound)
