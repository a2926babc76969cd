-- ===== src/Enforcement/Envelope.antt =====
-- `validateEnvelope` of integrations/microsoft-agent-governance-toolkit/bridge/provider.mjs.
-- `RegExp.test` turns its argument to a text: what it makes of a value that is no string is a
-- parameter, which may throw.
use agent_governance.Base.{
  ℕ, String, Bool, true, false, not, ◌&&◌, ◌||◌, Option, none, some, List, [], ◌∷◌, string_eq,
  nat_eq, ◌==◌, if◌then◌else◌, all, contains, leb, length, Result, ok, ◌>>=◌,
}
use agent_governance.Base.Json.{Json, bool, str, obj, Members, keys, get}
use agent_governance.Base.Regex.{is_lower, is_upper, is_digit}
use agent_governance.Base.Text.{Units, units}

abbrev pub required_keys : List String
required_keys =
    "action_id" ∷ "action" ∷ "resource" ∷ "effect" ∷ "semantic_authorization" ∷ "approval_context"
    ∷ "risk_context" ∷ "evidence_id" ∷ []

abbrev pub is_alphanumeric : ℕ → Bool
is_alphanumeric c = is_upper c || is_lower c || is_digit c

abbrev pub is_opaque : ℕ → Bool
is_opaque c = is_alphanumeric c || c == b'.' || c == b'_' || c == b':' || c == b'-'

-- `OPAQUE_ID.test`
unfoldable pub opaque_id : Units → Bool
opaque_id [] = false
opaque_id (c ∷ cs) = is_alphanumeric c && all is_opaque cs && leb (length cs) 255

unfoldable pub has_exact_keys : Members → List String → Bool
has_exact_keys value expected =
    length (keys value) == length expected && all (contains expected) (keys value)

-- a string of 1 to `limit` units
unfoldable pub bounded : Option Json → ℕ → Bool
bounded (some (str s)) limit = leb 1 (length (units s)) && leb (length (units s)) limit
bounded _ limit = false

-- `STRING_LIMITS`
unfoldable pub bounded_strings : Members → Bool
unfolding bounded
bounded_strings envelope =
    bounded (get "action" envelope) 512
    && bounded (get "resource" envelope) 4096
    && bounded (get "effect" envelope) 256

unfoldable pub opaque_value : (Json → Result Units) → Option Json → Result Bool
opaque_value to_text none = ok (opaque_id (units "undefined"))
opaque_value to_text (some (str s)) = ok (opaque_id (units s))
opaque_value to_text (some value) = to_text value >>= λ text. ok (opaque_id text)

unfoldable pub opaque_ids : (Json → Result Units) → Members → Result Bool
unfolding opaque_value
opaque_ids to_text envelope = opaque_value to_text (get "action_id" envelope) >>= λ good.
    if good then opaque_value to_text (get "evidence_id" envelope) else ok false

unfoldable pub is_authorization : Option Json → Bool
is_authorization (some (str s)) = contains ("allow" ∷ "deny" ∷ []) s
is_authorization _ = false

unfoldable pub is_boolean : Option Json → Bool
is_boolean (some (bool b)) = true
is_boolean _ = false

unfoldable pub valid_risk : Option Json → Bool
unfolding has_exact_keys is_boolean
valid_risk (some (obj risk)) =
    has_exact_keys risk ("requires_approval" ∷ []) && is_boolean (get "requires_approval" risk)
valid_risk _ = false

unfoldable pub approval_state : Option Json → Members → Bool
unfolding bounded
approval_state (some (bool true)) approval = bounded (get "approval_id" approval) 256
approval_state (some (bool false)) approval = not (contains (keys approval) "approval_id")
approval_state _ approval = false

unfoldable pub valid_approval : Option Json → Bool
unfolding approval_state
valid_approval (some (obj approval)) =
    all (contains ("valid" ∷ "approval_id" ∷ [])) (keys approval)
    && contains (keys approval) "valid"
    && approval_state (get "valid" approval) approval
valid_approval _ = false

unfoldable pub validate_envelope : (Json → Result Units) → Json → Result Bool
unfolding has_exact_keys bounded_strings opaque_ids is_authorization valid_risk valid_approval
validate_envelope to_text (obj envelope) =
    if has_exact_keys envelope required_keys && bounded_strings envelope
    then opaque_ids to_text envelope >>= (λ good. ok (
        good
        && is_authorization (get "semantic_authorization" envelope)
        && valid_risk (get "risk_context" envelope)
        && valid_approval (get "approval_context" envelope)))
    else ok false
validate_envelope to_text _ = ok false
