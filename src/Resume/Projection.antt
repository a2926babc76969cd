-- ===== src/Resume/Projection.antt =====
-- The validation of src/resume-toon.ts. Messages leave out the index of an array entry.
pub mod Laws
use agent_governance.Base.{
  String, ◌<>◌, Bool, true, false, not, ◌||◌, ◌&&◌, Option, none, some, List, [], ◌∷◌, map, ◌==◌,
  string_eq, if◌then◌else◌, contains, any, Result, ok, err, ◌>>=◌, ◌>>◌, reject_if, traverse,
}
use agent_governance.Base.Json.{
  Json, null, bool, num, other_number, str, arr, obj, Items, Members, items, keys, get, to_items,
  to_members,
}
use agent_governance.Base.Text.{is_blank}
use agent_governance.Base.Regex.{Re, any_of, word, search_in}
use agent_governance.Resume.State.{
  EvidenceStatus, reuse, invalidate, rerun, EvidenceBinding, Projection, BoundProjection,
}

-- `SECRET_FIELD_RE`
abbrev secret_field : Re
secret_field = any_of (word "secret") (
    word "password"
    ∷ word "passwd"
    ∷ word "token"
    ∷ word "credential"
    ∷ word "private"
    ∷ word "rawchat"
    ∷ word "transcript"
    ∷ word "apikey"
    ∷ word "api_key"
    ∷ [])

abbrev pub top_level_fields : List String
top_level_fields =
    "taskId" ∷ "objective" ∷ "scope" ∷ "exactHead" ∷ "checkpointFingerprint" ∷ "evidence"
    ∷ "incompleteEvidence" ∷ "openFindings" ∷ "nextAtomicAction" ∷ []

abbrev pub evidence_fields : List String
evidence_fields = "id" ∷ "bindings" ∷ "status" ∷ []

abbrev reject {ℓ} : {A : Type ℓ} → String → Result A
reject reason = err ("invalid resume projection: " <> reason)

unfoldable pub require_string : Option Json → String → Result String
require_string (some (str s)) field =
    if is_blank s then reject (field <> " must be a non-empty string") else ok s
require_string _ field = reject (field <> " must be a non-empty string")

unfoldable pub string_item : String → Json → Result String
string_item field (str s) = ok s
string_item field _ = reject (field <> " must be an array of strings")

unfoldable pub require_string_array : Option Json → String → Result (List String)
require_string_array (some (arr vs)) field = traverse (string_item field) (items vs)
require_string_array _ field = reject (field <> " must be an array of strings")

unfoldable pub validate_field_names : List String → List String → String → Result (Unit {0})
validate_field_names [] allowed context = ok tt
validate_field_names (key ∷ rest) allowed context = do
  reject_if (search_in secret_field key) (context <> " contains a secret or private field: " <> key)
  reject_if (not (contains allowed key)) (context <> " contains an unknown field: " <> key)
  validate_field_names rest allowed context

unfoldable pub evidence_status : Option Json → Result EvidenceStatus
evidence_status (some (str s)) =
    if s == "REUSE"
    then ok reuse
    else if s == "INVALIDATE"
    then ok invalidate
    else if s == "RERUN"
    then ok rerun
    else reject "evidence.status must be REUSE, INVALIDATE or RERUN"
evidence_status _ = reject "evidence.status must be REUSE, INVALIDATE or RERUN"

unfoldable pub evidence_entry : Json → Result EvidenceBinding
evidence_entry (obj entry) = do
  validate_field_names (keys entry) evidence_fields "evidence"
  id ← require_string (get "id" entry) "evidence.id"
  bindings ← require_string_array (get "bindings" entry) "evidence.bindings"
  status ← evidence_status (get "status" entry)
  ok (record { id = id; bindings = bindings; status = status })
evidence_entry _ = reject "evidence must be an object"

unfoldable pub evidence_list : Option Json → Result (List EvidenceBinding)
evidence_list none = reject "projection requires evidence"
evidence_list (some (arr vs)) = traverse evidence_entry (items vs)
evidence_list (some _) = reject "evidence must be an array"

unfoldable pub validate_projection : Json → Result BoundProjection
validate_projection (obj value) = do
  validate_field_names (keys value) top_level_fields "projection"
  task_id ← require_string (get "taskId" value) "taskId"
  objective ← require_string (get "objective" value) "objective"
  scope ← require_string_array (get "scope" value) "scope"
  exact_head ← require_string (get "exactHead" value) "exactHead"
  fingerprint ← require_string (get "checkpointFingerprint" value) "checkpointFingerprint"
  next ← require_string (get "nextAtomicAction" value) "nextAtomicAction"
  incomplete ← require_string_array (get "incompleteEvidence" value) "incompleteEvidence"
  findings ← require_string_array (get "openFindings" value) "openFindings"
  evidence ← evidence_list (get "evidence" value)
  ok (record {
    projection = record {
      task_id = task_id;
      objective = objective;
      scope = scope;
      exact_head = exact_head;
      evidence = evidence;
      incomplete_evidence = incomplete;
      open_findings = findings;
      next_atomic_action = next;
    };
    checkpoint_fingerprint = fingerprint;
  })
validate_projection _ = reject "projection must be an object"

-- The object that a typed value is.
abbrev pub strings_json : List String → Json
strings_json ss = arr (to_items (map str ss))

abbrev pub status_json : EvidenceStatus → Json
status_json reuse = str "REUSE"
status_json invalidate = str "INVALIDATE"
status_json rerun = str "RERUN"

unfoldable pub evidence_json : EvidenceBinding → Json
evidence_json e = obj (
    to_members (
      ("id", str e.id)
      ∷ ("bindings", strings_json e.bindings)
      ∷ ("status", status_json e.status)
      ∷ []))

unfoldable pub projection_json : BoundProjection → Json
projection_json b =
    let p = b.projection in
    obj (
      to_members (
        ("taskId", str p.task_id)
        ∷ ("objective", str p.objective)
        ∷ ("scope", strings_json p.scope)
        ∷ ("exactHead", str p.exact_head)
        ∷ ("checkpointFingerprint", str b.checkpoint_fingerprint)
        ∷ ("evidence", arr (to_items (map evidence_json p.evidence)))
        ∷ ("incompleteEvidence", strings_json p.incomplete_evidence)
        ∷ ("openFindings", strings_json p.open_findings)
        ∷ ("nextAtomicAction", str p.next_atomic_action)
        ∷ []))

-- The codec `@toon-format/toon` is a parameter.
module _ {T : Type 0} (encode : Json → T) (decode : T → Result Json) where
  -- `encodeResumeProjection`
  unfoldable pub encode_projection : BoundProjection → Result T
  encode_projection state = do
    v ← validate_projection (projection_json state)
    ok (encode (projection_json v))

  -- `decodeResumeProjection`; the option is `expectedCheckpoint`
  unfoldable pub decode_projection : T → Option String → Result BoundProjection
  decode_projection input none = do decoded ← decode input; validate_projection decoded
  decode_projection input (some expected) = do
    decoded ← decode input
    p ← validate_projection decoded
    reject_if (not (p.checkpoint_fingerprint == expected))
        "invalid resume projection: checkpoint binding does not match the expected checkpoint"
    ok p
