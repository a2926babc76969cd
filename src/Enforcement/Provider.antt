-- ===== src/Enforcement/Provider.antt =====
-- `evaluateEnvelope` of integrations/microsoft-agent-governance-toolkit/bridge/provider.mjs.
pub mod Approval
pub mod Laws
pub mod Total
use agent_governance.Base.{
  ℕ, String, Bool, true, false, not, ◌||◌, Option, none, some, List, [], ◌∷◌, string_eq, list_eq,
  nat_eq, ◌==◌, if◌then◌else◌, ltb, contains, Result, ok, err, require, ◌*◌,
}
use agent_governance.Base.Json.{Json, bool, str, obj, Members, end, member, get}
use agent_governance.Base.Text.{Units, units}
use agent_governance.Contracts.Effects.{
  Outcome, returned, threw, Eff, ◌>>=◌, give, lift, refuse_if, finally,
}
use agent_governance.Enforcement.Envelope.{validate_envelope}
use agent_governance.Enforcement.Files.{
  Files, others_write, read_handle_bound_file, digest_of, Manifest, parse_runtime_manifest,
}
use agent_governance.Enforcement.Engine.{Provider, load_verified_policy_engine}

-- the verifier is asked for the action, the evidence and the approval: whether it answers `true`
pub record Options (W : Type 0) : Type 0 where
  pub policy_module_path : Option String
  pub policy_path : Option String
  pub expected_runtime_manifest_path : Option String
  pub expected_runtime_manifest_sha256 : Option Units
  pub expected_policy_sha256 : Option Units
  pub approval_verifier : Option (Option Json → Option Json → Option Json → Eff W Bool)

pub record Details : Type 0 where
  pub matched_rule : Option String
  pub error_code : Option String

pub record Evidence : Type 0 where
  pub decision : String
  pub provider : String
  pub provider_reached : Bool
  pub evaluated_before_effect : Bool
  pub details : Details
  pub action_id : Option String
  pub evidence_id : Option String

abbrev provider_name : String
provider_name = "microsoft-agent-governance-toolkit"

abbrev pub agent_did : String
agent_did = "did:agent-governance:enforcement-provider"

abbrev pub default_policy_sha256 : Units
default_policy_sha256 = units "2809bcda1f47390d6c9e47ac10a9cdc6a7f8014a0a95e71434aa6335652740eb"

abbrev pub default_manifest_sha256 : Units
default_manifest_sha256 = units "be2a0921e8083657ab5ae0c18ac1de7a0d06d8d299c350aa07155ffb86dab2b3"

-- `a ?? b`
abbrev pub or_else : {A : Type 0} → Option A → A → A
or_else none b = b
or_else (some a) b = a

abbrev string_of : Option Json → Option String
string_of (some (str s)) = some s
string_of _ = none

abbrev rule : Option String → Details
rule matched = record { matched_rule = matched; error_code = none }

abbrev pub code : String → Details
code name = record { matched_rule = none; error_code = some name }

unfoldable pub evidence : Members → String → Bool → Details → Bool → Evidence
evidence envelope decision reached details include_ids = record {
  decision = decision;
  provider = provider_name;
  provider_reached = reached;
  evaluated_before_effect = true;
  details = details;
  action_id = if include_ids then string_of (get "action_id" envelope) else none;
  evidence_id = if include_ids then string_of (get "evidence_id" envelope) else none;
}

unfoldable pub normalize_provider_decision : Option Json → String
normalize_provider_decision (some (str action)) =
    if contains ("allow" ∷ "deny" ∷ "require_approval" ∷ []) action then action else "unknown"
normalize_provider_decision _ = "unknown"

-- `providerResult?.[name]`
unfoldable pub field_of : String → Option Json → Option Json
field_of name (some (obj result)) = get name result
field_of name _ = none

-- `{ ...envelope, [key]: value }` on a key that is there
abbrev pub put : String → Json → Members → Members
put key value end = end
put key value (member k v rest) =
    let others = put key value rest in if k == key then member k value rest else member k v others

unfoldable pub without_approval : Members → Members
without_approval envelope = put "approval_context" (obj (member "valid" (bool false) end)) envelope

abbrev pub is_true : Option Json → Bool
is_true (some (bool b)) = b
is_true _ = false

unfoldable pub claims_approval : Members → Bool
unfolding field_of
claims_approval envelope = is_true (field_of "valid" (get "approval_context" envelope))

abbrev pub members_of : Json → Members
members_of (obj m) = m
members_of _ = end

abbrev pub says_allow : Option Json → Bool
says_allow (some (str s)) = s == "allow"
says_allow _ = false

unfoldable pub verifier_answer :
    {W : Type 0}
    → Option (Option Json → Option Json → Option Json → Eff W Bool)
    → Members
    → Eff W Bool
unfolding field_of
verifier_answer none envelope = give false
verifier_answer (some verifier) envelope =
    verifier (get "action_id" envelope) (get "evidence_id" envelope)
      (field_of "approval_id" (get "approval_context" envelope))

module _ {W H C E : Type 0} (p : Provider W H C E) (options : Options W) where
  unfoldable pub verified_approval : Members → Eff W Bool
  unfolding verifier_answer
  verified_approval = verifier_answer options.approval_verifier

  unfoldable pub policy_digest : Units
  policy_digest = or_else options.expected_policy_sha256 default_policy_sha256

  unfoldable pub manifest_digest : Units
  manifest_digest = or_else options.expected_runtime_manifest_sha256 default_manifest_sha256

  abbrev pub module_path : Option String → Option String
  module_path none = p.policy_module_variable
  module_path (some given) = some given

  -- the engine, with the policy that it is to load
  unfoldable pub constructed : Eff W (E × Units)
  unfolding load_verified_policy_engine read_handle_bound_file policy_digest manifest_digest
  constructed =
      load_verified_policy_engine p (module_path options.policy_module_path)
        (or_else options.expected_runtime_manifest_path p.own_manifest_path) manifest_digest
      >>= λ engine_class.
          read_handle_bound_file p.files (or_else options.policy_path p.own_policy_path) "policy"
            (some policy_digest) (256 * 1024)
          >>= λ content. p.construct engine_class >>= λ engine. give (engine, content)

  unfoldable pub asked : Members → E × Units → Eff W (Option Json)
  asked envelope (engine, content) = p.load_json engine (p.to_utf8 content) >>= λ loaded.
      p.evaluate_policy engine agent_did (obj envelope)

  unfoldable pub answered : Members → Outcome (Option Json) → Evidence
  unfolding evidence normalize_provider_decision field_of
  answered envelope (returned result) =
      evidence envelope (normalize_provider_decision (field_of "action" result)) true
        (rule (string_of (field_of "matchedRule" result))) true
  answered envelope (threw t) = evidence envelope "error" true (code "provider_error") true

  unfoldable pub after_construction :
      Members → Members → Outcome (E × Units) → W → Outcome Evidence × W
  unfolding evidence asked answered
  after_construction envelope effective (returned engine) w =
      (returned (answered envelope (asked effective engine w).0), (asked effective engine w).1)
  after_construction envelope effective (threw t) w =
      (returned (evidence envelope "error" false (code "provider_error") true), w)

  unfoldable pub ask_provider : Members → Members → Eff W Evidence
  unfolding constructed after_construction
  ask_provider envelope effective w =
      after_construction envelope effective (constructed w).0 (constructed w).1

  unfoldable pub after_verification : Members → Outcome Bool → W → Outcome Evidence × W
  unfolding evidence without_approval ask_provider
  after_verification envelope (returned true) w = ask_provider envelope envelope w
  after_verification envelope (returned false) w =
      ask_provider envelope (without_approval envelope) w
  after_verification envelope (threw t) w =
      (returned (evidence envelope "error" false (code "approval_verification") true), w)

  unfoldable pub evaluate_authorized : Members → Eff W Evidence
  unfolding claims_approval verified_approval ask_provider after_verification
  evaluate_authorized envelope w =
      if claims_approval envelope
      then after_verification envelope (verified_approval envelope w).0
          (verified_approval envelope w).1
      else ask_provider envelope envelope w

  unfoldable pub evaluate_valid : Members → Eff W Evidence
  unfolding evidence evaluate_authorized
  evaluate_valid envelope w =
      if says_allow (get "semantic_authorization" envelope)
      then evaluate_authorized envelope w
      else (returned (evidence envelope "deny" false (rule (some "governance-deny")) true), w)

  unfoldable pub evaluate_envelope : Json → Eff W Evidence
  unfolding validate_envelope evidence evaluate_valid
  evaluate_envelope envelope = lift (validate_envelope p.to_text envelope) >>= λ valid.
      if valid
      then evaluate_valid (members_of envelope)
      else give (evidence end "error" false (code "invalid_envelope") false)
