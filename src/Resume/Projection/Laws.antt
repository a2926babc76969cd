-- ===== src/Resume/Projection/Laws.antt =====
-- What a validated projection satisfies, and its round trip through the codec.
use agent_governance.Base.{
  String, ◌≡◌, refl, false, Option, none, some, List, [], ◌∷◌, map, ==_refl, string_eq, nat_eq, All,
  arith, Result, ok, Ensures, Ensures-at, >>=-eq-ok, traverse,
}
use agent_governance.Base.Json.{Json, str, arr, obj, items, get, items-to_items}
use agent_governance.Base.Text.{is_blank}
use agent_governance.Base.Regex.{search_in}
use agent_governance.Resume.State.{
  EvidenceStatus, reuse, invalidate, rerun, EvidenceBinding, BoundProjection,
}
use agent_governance.Resume.Projection.{
  top_level_fields, evidence_fields, require_string, string_item, require_string_array,
  validate_field_names, evidence_status, evidence_entry, evidence_list, validate_projection,
  strings_json, status_json, evidence_json, projection_json, encode_projection, decode_projection,
}

-- The contract of a projection: each of these strings has more than white space.
pub record IsProjection (b : BoundProjection) : Type 0 where
  pub task_id : is_blank b.projection.task_id ≡ false
  pub objective : is_blank b.projection.objective ≡ false
  pub exact_head : is_blank b.projection.exact_head ≡ false
  pub fingerprint : is_blank b.checkpoint_fingerprint ≡ false
  pub next_atomic_action : is_blank b.projection.next_atomic_action ≡ false
  pub evidence_ids : All (λ e. is_blank e.id ≡ false) b.projection.evidence

require_string_sound :
    (o : Option Json) (field : String) → Ensures (λ s. is_blank s ≡ false) (require_string o field)
unfolding require_string
require_string_sound (some (str t)) field = ground arith
require_string_sound _ field = tt

evidence_entry_sound : (v : Json) → Ensures (λ e. is_blank e.id ≡ false) (evidence_entry v)
unfolding evidence_entry
evidence_entry_sound (obj m) = ground (arith, require_string_sound (get "id" m) "evidence.id")
evidence_entry_sound _ = tt

traverse_sound :
    (vs : List Json) → Ensures (All (λ e. is_blank e.id ≡ false)) (traverse evidence_entry vs)
traverse_sound [] = tt
traverse_sound (v ∷ vs) = ground (arith, evidence_entry_sound v, traverse_sound vs)

evidence_list_sound :
    (o : Option Json) → Ensures (All (λ e. is_blank e.id ≡ false)) (evidence_list o)
unfolding evidence_list
evidence_list_sound (some (arr vs)) = traverse_sound (items vs)
evidence_list_sound _ = tt

validate_projection_sound : (v : Json) → Ensures IsProjection (validate_projection v)
unfolding validate_projection
validate_projection_sound (obj m) = ground (
  arith,
  require_string_sound (get "taskId" m) "taskId",
  require_string_sound (get "objective" m) "objective",
  require_string_sound (get "exactHead" m) "exactHead",
  require_string_sound (get "checkpointFingerprint" m) "checkpointFingerprint",
  require_string_sound (get "nextAtomicAction" m) "nextAtomicAction",
  evidence_list_sound (get "evidence" m),
)
validate_projection_sound _ = tt

string_array-json :
    (ss : List String) (field : String) → traverse (string_item field) (map str ss) ≡ ok ss
unfolding string_item
string_array-json [] field = refl
string_array-json (s ∷ ss) field = rw (string_array-json ss field)

require_string_array-json :
    (ss : List String) (field : String)
    → require_string_array (some (strings_json ss)) field ≡ ok ss
unfolding require_string_array
require_string_array-json ss field = rw items-to_items (string_array-json ss field)

require_string-json :
    (s field : String) → is_blank s ≡ false → require_string (some (str s)) field ≡ ok s
unfolding require_string
require_string-json s field h = rw h

evidence_status-json : (s : EvidenceStatus) → evidence_status (some (status_json s)) ≡ ok s
unfolding evidence_status string_eq
evidence_status-json reuse = refl
evidence_status-json invalidate = refl
evidence_status-json rerun = refl

evidence_names : validate_field_names evidence_fields evidence_fields "evidence" ≡ ok tt
unfolding validate_field_names string_eq nat_eq search_in
evidence_names = refl

projection_names : validate_field_names top_level_fields top_level_fields "projection" ≡ ok tt
unfolding validate_field_names string_eq nat_eq search_in
projection_names = refl

evidence_entry-json :
    (e : EvidenceBinding) → is_blank e.id ≡ false → evidence_entry (evidence_json e) ≡ ok e
unfolding evidence_entry evidence_json get string_eq
evidence_entry-json e h = rw (
  evidence_names,
  require_string-json e.id "evidence.id" h,
  require_string_array-json e.bindings "evidence.bindings",
  evidence_status-json e.status,
)

evidence_list-json :
    (es : List EvidenceBinding)
    → All (λ e. is_blank e.id ≡ false) es
    → traverse evidence_entry (map evidence_json es) ≡ ok es
evidence_list-json [] h = refl
evidence_list-json (e ∷ es) (p, h) = rw (evidence_entry-json e p, evidence_list-json es h)

-- A projection that meets the contract is read back as it was written.
pub validate_projection-json :
    (b : BoundProjection) → IsProjection b → validate_projection (projection_json b) ≡ ok b
unfolding validate_projection projection_json get string_eq evidence_list
validate_projection-json b h =
    let p = b.projection in
    rw (
      projection_names,
      require_string-json p.task_id "taskId" h.task_id,
      require_string-json p.objective "objective" h.objective,
      require_string_array-json p.scope "scope",
      require_string-json p.exact_head "exactHead" h.exact_head,
      require_string-json b.checkpoint_fingerprint "checkpointFingerprint" h.fingerprint,
      require_string-json p.next_atomic_action "nextAtomicAction" h.next_atomic_action,
      require_string_array-json p.incomplete_evidence "incompleteEvidence",
      require_string_array-json p.open_findings "openFindings",
      items-to_items,
      evidence_list-json p.evidence h.evidence_ids,
    )

-- Whatever the validation accepts meets the contract.
pub validate_projection-IsProjection :
    (v : Json) {b : BoundProjection} → validate_projection v ≡ ok b → IsProjection b
validate_projection-IsProjection v e =
    Ensures-at IsProjection (validate_projection v) (validate_projection_sound v) e

-- The hypothesis says what the codec documents: decoding an encoded value gives the value back.
module _ {T : Type 0} (encode : Json → T) (decode : T → Result Json)
    (lossless : (v : Json) → decode (encode v) ≡ ok v) where
  -- With a codec that decodes what it has encoded, a projection that meets the contract is encoded,
  -- and the text decodes to the same projection, with no expectation and with its own checkpoint
  -- fingerprint as the expected one.
  pub decode_projection-encode :
      (b : BoundProjection)
      → IsProjection b
      → (t : T) × (encode_projection encode decode b ≡ ok t)
        × (decode_projection encode decode t none ≡ ok b)
        × (decode_projection encode decode t (some b.checkpoint_fingerprint) ≡ ok b)
  unfolding encode_projection decode_projection
  decode_projection-encode b h = (
    encode (projection_json b),
    rw (validate_projection-json b h),
    rw (lossless, validate_projection-json b h),
    rw (lossless, validate_projection-json b h, ==_refl b.checkpoint_fingerprint),
  )

-- A text that decodes under an expected fingerprint carries that fingerprint, and its projection
-- meets the contract.
pub decode_projection_bound :
    {T : Type 0} (encode : Json → T) (decode : T → Result Json) (t : T) (expected : String)
    {b : BoundProjection}
    → decode_projection encode decode t (some expected) ≡ ok b
    → (b.checkpoint_fingerprint ≡ expected) × IsProjection b
unfolding decode_projection
decode_projection_bound encode decode t expected {b} h =
    let (v, _, h1) = >>=-eq-ok (decode t) _ h in
    let (p, accepted, h2) = >>=-eq-ok (validate_projection v) _ h1 in
    let same : p ≡ b = ground arith in
    (ground arith, rw same at (validate_projection-IsProjection v accepted))
