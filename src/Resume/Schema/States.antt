-- ===== src/Resume/Schema/States.antt =====
-- `validateState` of src/resume-checkpoint-schema.ts.
use agent_governance.Base.{
  ℕ, ◌-◌, String, Bool, true, false, not, ◌&&◌, Option, some, List, [], ◌∷◌, ◌++◌, map, ◌==◌,
  string_eq, nat_eq, contains, any, ltb, length, Result, ok, ◌>>=◌, ◌>>◌, reject_if, traverse,
}
use agent_governance.Base.Json.{Json, str, obj, Members, entries, get, to_members}
use agent_governance.Resume.State.{
  EvidenceStatus, reuse, Projection, EvidenceReference, ResumeState,
}
use agent_governance.Resume.Projection.{validate_projection}
use agent_governance.Resume.Schema.Fields.{
  record_of, text, bounded_array, strings, unique, safe_leaves, json_bytes,
}
use agent_governance.Resume.Schema.Names.{task_status_of}
use agent_governance.Resume.Schema.Print.{bare_projection_json, state_json}
use agent_governance.Resume.Schema.Members.{
  nullable_text, effect_of, reference_of, sort_entries, identity_entries,
}

abbrev pub identity_keys : List String
identity_keys =
    "scope" ∷ "repository" ∷ "worktree" ∷ "branch" ∷ "dirty" ∷ "dependencies" ∷ "configuration"
    ∷ "governance" ∷ "environment" ∷ []

abbrev pub projection_keys : List String
projection_keys =
    "taskId" ∷ "objective" ∷ "scope" ∷ "exactHead" ∷ "evidence" ∷ "incompleteEvidence"
    ∷ "openFindings" ∷ "nextAtomicAction" ∷ []

abbrev pub state_keys : List String
state_keys =
    "projection" ∷ "identities" ∷ "authorities" ∷ "activeTask" ∷ "taskStatus" ∷ "decisions"
    ∷ "evidenceReferences" ∷ "workItem" ∷ "externalEffects" ∷ []

-- `{ ...p, checkpointFingerprint: "derived" }`
abbrev pub with_fingerprint : Members → Json
with_fingerprint p = obj (to_members (entries p ++ (("checkpointFingerprint", str "derived") ∷ [])))

abbrev pub is_reuse : EvidenceStatus → Bool
is_reuse reuse = true
is_reuse _ = false

abbrev pub evidence_ids : Projection → List String
evidence_ids p = map (λ e. e.id) p.evidence

-- The checks on the evidence of a state and on its references.
unfoldable pub check_evidence : Projection → List EvidenceReference → Result (Unit {0})
check_evidence p references = do
  unique (map (λ r. r.id) references)
  unique (evidence_ids p)
  unique p.incomplete_evidence
  reject_if (any (λ e. is_reuse e.status && contains p.incomplete_evidence e.id) p.evidence)
      "invalid resume checkpoint: incomplete evidence cannot be reused"
  reject_if
      (any (λ id. not (any (λ r. r.id == id) references)) (evidence_ids p ++ p.incomplete_evidence))
      "invalid resume checkpoint: missing evidence reference"

-- `projection`, bounded and screened
unfoldable pub state_projection : Option Json → Result Projection
state_projection o = do
  p ← record_of o projection_keys
  validated ← validate_projection (with_fingerprint p)
  safe_leaves (bare_projection_json validated.projection)
  reject_if (length validated.projection.scope == 0) "invalid resume checkpoint: scope is empty"
  ok validated.projection

abbrev pub max_checkpoint_bytes : ℕ
max_checkpoint_bytes = 262144

unfoldable pub validate_state : Json → Result ResumeState
validate_state value = do
  v ← record_of (some value) state_keys
  projection ← state_projection (get "projection" v)
  ids ← record_of (get "identities" v) identity_keys
  identities ← identity_entries (sort_entries (entries ids))
  authorities ← strings (get "authorities" v)
  reject_if (length authorities == 0) "invalid resume checkpoint: authorities are missing"
  task_status ← task_status_of (get "taskStatus" v)
  reference_items ← bounded_array (get "evidenceReferences" v)
  references ← traverse reference_of reference_items
  check_evidence projection references
  effect_items ← bounded_array (get "externalEffects" v)
  effects ← traverse effect_of effect_items
  unique (map (λ e. e.operation_id) effects)
  active_task ← text (get "activeTask" v)
  decisions ← strings (get "decisions" v)
  work_item ← nullable_text (get "workItem" v)
  let result : ResumeState = record {
    projection = projection;
    identities = identities;
    authorities = authorities;
    active_task = active_task;
    task_status = task_status;
    decisions = decisions;
    evidence_references = references;
    work_item = work_item;
    external_effects = effects;
  }
  reject_if (ltb (max_checkpoint_bytes - 4096) (json_bytes (state_json result)))
      "invalid resume checkpoint: payload size limit"
  ok result
