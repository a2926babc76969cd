-- ===== src/Tests/Checkpoints.antt =====
-- Checkpoints, projections and a small store.
use agent_governance.Base.{
  ℕ, zero, String, ◌≡◌, refl, ap, ◌⊎◌, ◌≢◌, ◌↔◌, Bool, true, false, Option, none, some, List, [],
  ◌∷◌, map, Result, ok, err, string_eq, nat_eq, arith, ◌≤◌, suc, length,
}
use agent_governance.Base.Json.{Json, null, num, str}
use agent_governance.Base.Text.{is_blank}
use agent_governance.Contracts.Effects.{Eff, returned, give}
use agent_governance.Resume.State.{
  effect_prepared, prepared, running, rerun, ExternalEffect, EvidenceBinding, Projection,
  BoundProjection, ResumeState, ResumeCheckpoint,
}
use agent_governance.Resume.Projection.{
  validate_projection, projection_json, encode_projection, decode_projection,
}
use agent_governance.Resume.Projection.Laws.{
  IsProjection, validate_projection-json, validate_projection-IsProjection,
  decode_projection-encode, decode_projection_bound,
}
use agent_governance.Resume.Schema.Print.{state_json, checkpoint_json}
use agent_governance.Resume.Schema.States.{validate_state}
use agent_governance.Resume.Schema.Laws.{IsState, validate_state-IsState}
use agent_governance.Resume.Transition.{validate_transition, effects_of}
use agent_governance.Resume.Transition.Laws.{SameTask, IsTransition, validate_transition_iff}
use agent_governance.Resume.Store.History.{Entry, generation, ReadFile, System, history, read}
use agent_governance.Resume.Store.Publish.{Request, publish}
use agent_governance.Resume.Store.Laws.{IsHistory, history-IsHistory}
use agent_governance.Resume.Store.Safety.{IsSafe, publish-Keeps}
use agent_governance.Resume.Store.Effect.{execute_effect}
use agent_governance.Resume.Store.Dispatch.{execute_effect-IsClaimed}
use agent_governance.Resume.Resolve.{
  ResolveContext, ResumeResolution, ResolveOutcome, resume, resolution, Directories,
  resolve_resume_candidates,
}
use agent_governance.Resume.Resolve.Match.{Concludes}
use agent_governance.Resume.Resolve.Laws.{
  Visits, Fails, IsMatch, resolve_resume_candidates-IsResolved, resolve_resume_candidates-IsMatch,
}

abbrev evidence : EvidenceBinding
evidence = record { id = "unit tests"; bindings = "package.json" ∷ []; status = rerun }

abbrev projection : Projection
projection = record {
  task_id = "task 1";
  objective = "add a command";
  scope = "src/cli.ts" ∷ [];
  exact_head = "0123abcd";
  evidence = evidence ∷ [];
  incomplete_evidence = [];
  open_findings = [];
  next_atomic_action = "run the tests";
}

abbrev bound : BoundProjection
bound = record { projection = projection; checkpoint_fingerprint = "f1" }

abbrev push : ExternalEffect
push = record {
  operation_id = "push";
  target = "origin";
  action = "push the branch";
  input_bindings = "0123abcd" ∷ [];
  state = prepared;
  readback_reference = none;
}

abbrev identities : List (String × String)
identities =
    ("branch", "main")
    ∷ ("configuration", "default")
    ∷ ("dependencies", "locked")
    ∷ ("dirty", "clean")
    ∷ ("environment", "linux")
    ∷ ("governance", "one")
    ∷ ("repository", "example")
    ∷ ("scope", "cli")
    ∷ ("worktree", "one")
    ∷ []

abbrev state : ResumeState
state = record {
  projection = projection;
  identities = identities;
  authorities = "owner" ∷ [];
  active_task = "task 1";
  task_status = running;
  decisions = [];
  evidence_references = record { id = "unit tests"; reference = "reports/unit" } ∷ [];
  work_item = none;
  external_effects = push ∷ [];
}

abbrev checkpoint : ResumeCheckpoint
checkpoint = record {
  body = record {
    generation = 1;
    previous_checkpoint = none;
    event_id = "event 1";
    trigger = effect_prepared;
    state = state;
  };
  fingerprint = "f1";
}

bound-IsProjection : IsProjection bound
unfolding is_blank nat_eq
bound-IsProjection = record {
  task_id = refl;
  objective = refl;
  exact_head = refl;
  fingerprint = refl;
  next_atomic_action = refl;
  evidence_ids = (refl, tt);
}

validate_projection-IsProjection_example : IsProjection bound
validate_projection-IsProjection_example =
    validate_projection-IsProjection (projection_json bound)
      (validate_projection-json bound bound-IsProjection)

decode_projection-encode_example :
    (t : Json) × (encode_projection (λ v. v) ok bound ≡ ok t)
    × (decode_projection (λ v. v) ok t none ≡ ok bound)
    × (decode_projection (λ v. v) ok t (some "f1") ≡ ok bound)
decode_projection-encode_example =
    decode_projection-encode (λ v. v) ok (λ v. refl) bound bound-IsProjection

decode_projection_bound_example : (bound.checkpoint_fingerprint ≡ "f1") × IsProjection bound
decode_projection_bound_example =
    decode_projection_bound (λ v. v) ok
      (decode_projection-encode (λ v. v) ok (λ v. refl) bound bound-IsProjection).0 "f1"
      (decode_projection-encode (λ v. v) ok (λ v. refl) bound bound-IsProjection).3

validate_transition_iff_example :
    (validate_transition none checkpoint ≡ ok tt)
    ↔ (SameTask none checkpoint × IsTransition effect_prepared (effects_of none) (push ∷ []))
validate_transition_iff_example = validate_transition_iff none checkpoint

-- A directory that holds at first no checkpoint; the world counts the checkpoints that were
-- published, and each file reads as the one checkpoint.
abbrev file : ReadFile
file = record {
  is_file = true;
  is_single_link = true;
  is_private = true;
  is_own = true;
  size = 1;
  same_snapshot = true;
  is_single_link_after = true;
  read_length = 1;
  content = some "checkpoint";
}

abbrev names_of : ℕ → List Entry
names_of zero = []
names_of (suc n) = generation 1 ∷ []

abbrev small_store : System ℕ
small_store = record {
  bound = give tt;
  sync_directory = give tt;
  entries = λ w. (returned (names_of w), w);
  read_entry = λ e. give file;
  random_uuid = give "0000";
  create = λ name content. give tt;
  rename = λ name n w. (returned tt, n);
  observe = λ p. give tt;
  parse = λ s. ok (checkpoint_json checkpoint);
  stringify = λ cp. "checkpoint";
  fingerprint = λ body. "f1";
}

store_history : history small_store 1 ≡ (returned (checkpoint ∷ []), 1)
unfolding validate_state agent_governance.Resume.Schema.Fields.record_of state_json
    agent_governance.Base.Text.same_keys nat_eq
    agent_governance.Resume.Schema.States.state_projection agent_governance.Base.Json.get string_eq
    agent_governance.Resume.Schema.Print.bare_projection_json validate_projection
    agent_governance.Resume.Projection.validate_field_names agent_governance.Base.Regex.search_in
    agent_governance.Resume.Projection.require_string is_blank
    agent_governance.Resume.Projection.require_string_array
    agent_governance.Resume.Projection.string_item agent_governance.Resume.Projection.evidence_list
    agent_governance.Resume.Projection.evidence_entry agent_governance.Base.String-discrete
    agent_governance.Base.Regex.run agent_governance.Base.Text.before
    agent_governance.Base.Text.insert_sorted agent_governance.Base.Text.sort
    agent_governance.Resume.Projection.evidence_json
    agent_governance.Resume.Projection.evidence_status
    agent_governance.Resume.Schema.Fields.bounded_array
    agent_governance.Resume.Schema.Fields.has_repeat agent_governance.Resume.Schema.Fields.is_unsafe
    agent_governance.Resume.Schema.Fields.json_bytes
    agent_governance.Resume.Schema.Fields.safe_leaves agent_governance.Resume.Schema.Fields.strings
    agent_governance.Resume.Schema.Fields.text agent_governance.Resume.Schema.Fields.text_item
    agent_governance.Resume.Schema.Fields.unique agent_governance.Resume.Schema.Members.effect_of
    agent_governance.Resume.Schema.Members.identity_entries
    agent_governance.Resume.Schema.Members.nullable_text
    agent_governance.Resume.Schema.Members.reference_of
    agent_governance.Resume.Schema.Members.sort_entries
    agent_governance.Resume.Schema.Names.effect_state_of
    agent_governance.Resume.Schema.Names.task_status_of
    agent_governance.Resume.Schema.Print.effect_json
    agent_governance.Resume.Schema.States.check_evidence mathlib.Core.Bool.xor history
    agent_governance.Resume.Store.History.load agent_governance.Resume.Store.History.read_file
    agent_governance.Resume.Store.History.accept agent_governance.Resume.Store.History.canonical
    agent_governance.Resume.Store.History.check_link agent_governance.Resume.Store.History.numbered
    agent_governance.Resume.Store.History.check_gaps
    agent_governance.Resume.Store.History.counts_from
    agent_governance.Resume.Store.History.sort_numbers
    agent_governance.Resume.Store.History.insert_number
    agent_governance.Resume.Store.History.generations
    agent_governance.Resume.Store.History.max_checkpoint_bytes validate_transition
    agent_governance.Base.option_eq agent_governance.Resume.State.trigger_eq
    agent_governance.Resume.State.effect_eq agent_governance.Resume.State.binding_eq
    agent_governance.Resume.State.effect_state_eq agent_governance.Resume.Transition.allowed
    agent_governance.Resume.Transition.check_kept agent_governance.Resume.Transition.check_all_kept
    agent_governance.Resume.Transition.check_new
    agent_governance.Resume.Schema.Checkpoints.validate_checkpoint
    agent_governance.Resume.Schema.Checkpoints.create_checkpoint
    agent_governance.Resume.Schema.Checkpoints.generation_of
    agent_governance.Resume.Schema.Checkpoints.previous_of
    agent_governance.Resume.Schema.Checkpoints.is_num
    agent_governance.Resume.Schema.Checkpoints.is_str
    agent_governance.Resume.Schema.Checkpoints.is_digest
    agent_governance.Resume.Schema.Checkpoints.some_state
    agent_governance.Resume.Schema.Names.trigger_of checkpoint_json
    agent_governance.Resume.State.find_effect agent_governance.Resume.State.effect_binding
store_history = refl

store_read : (history small_store 1).0 ≡ returned (checkpoint ∷ [])
store_read = ap (λ r. r.0) store_history

history-IsHistory_example : IsHistory (checkpoint ∷ [])
history-IsHistory_example = history-IsHistory small_store 1 store_read

abbrev IsPositive : ℕ → Type 0
IsPositive w = 1 ≤ w

small_store-IsSafe : IsSafe IsPositive small_store
small_store-IsSafe = record {
  bound = λ w p. p;
  sync_directory = λ w p. p;
  entries = λ w p. p;
  read_entry = λ e w p. p;
  random_uuid = λ w p. p;
  create = λ name content w p. p;
  observe = λ point w p. p;
  rename = λ name cp may w staged p. let next = may.4.generation in omega (arith, next);
}

abbrev finished : ResumeState
finished = record state { active_task = "task 2" }

abbrev request : Request
request = record {
  event_id = "event 2";
  trigger = "active_task_changed";
  expected = some (record { generation = 1; fingerprint = "f1" });
  state = state_json finished;
}

publish-Keeps_example : IsPositive (publish small_store request false 1).1
publish-Keeps_example =
    publish-Keeps IsPositive small_store request false small_store-IsSafe 1 (omega arith)

state_accepted : validate_state (state_json state) ≡ ok state
unfolding validate_state agent_governance.Resume.Schema.Fields.record_of state_json
    agent_governance.Base.Text.same_keys nat_eq
    agent_governance.Resume.Schema.States.state_projection agent_governance.Base.Json.get string_eq
    agent_governance.Resume.Schema.Print.bare_projection_json validate_projection
    agent_governance.Resume.Projection.validate_field_names agent_governance.Base.Regex.search_in
    agent_governance.Resume.Projection.require_string is_blank
    agent_governance.Resume.Projection.require_string_array
    agent_governance.Resume.Projection.string_item agent_governance.Resume.Projection.evidence_list
    agent_governance.Resume.Projection.evidence_entry agent_governance.Base.String-discrete
    agent_governance.Base.Regex.run agent_governance.Base.Text.before
    agent_governance.Base.Text.insert_sorted agent_governance.Base.Text.sort
    agent_governance.Resume.Projection.evidence_json
    agent_governance.Resume.Projection.evidence_status
    agent_governance.Resume.Schema.Fields.bounded_array
    agent_governance.Resume.Schema.Fields.has_repeat agent_governance.Resume.Schema.Fields.is_unsafe
    agent_governance.Resume.Schema.Fields.json_bytes
    agent_governance.Resume.Schema.Fields.safe_leaves agent_governance.Resume.Schema.Fields.strings
    agent_governance.Resume.Schema.Fields.text agent_governance.Resume.Schema.Fields.text_item
    agent_governance.Resume.Schema.Fields.unique agent_governance.Resume.Schema.Members.effect_of
    agent_governance.Resume.Schema.Members.identity_entries
    agent_governance.Resume.Schema.Members.nullable_text
    agent_governance.Resume.Schema.Members.reference_of
    agent_governance.Resume.Schema.Members.sort_entries
    agent_governance.Resume.Schema.Names.effect_state_of
    agent_governance.Resume.Schema.Names.task_status_of
    agent_governance.Resume.Schema.Print.effect_json
    agent_governance.Resume.Schema.States.check_evidence mathlib.Core.Bool.xor
state_accepted = refl

validate_state-IsState_example : IsState state
validate_state-IsState_example = validate_state-IsState (state_json state) state_accepted

abbrev run_push : Eff ℕ (Unit {0})
run_push w = (returned tt, suc w)

execute_effect-IsClaimed_example :
    IsPositive
      (execute_effect small_store
        (record { generation = 1; fingerprint = "f1" })
        "push"
        run_push
        (λ e. give null)
        1).1
execute_effect-IsClaimed_example =
    execute_effect-IsClaimed IsPositive small_store (record { generation = 1; fingerprint = "f1" })
      "push" run_push (λ e. give null) small_store-IsSafe (λ e w p. p)
      (λ w claim p. omega (arith, p)) 1 (omega arith)

-- one directory under two names
abbrev directories : Directories ℕ
directories = record {
  open_store = λ path. give small_store;
  capture_identity = λ path. give (record { device = 1; inode = 2 });
}

abbrev context : ResolveContext
context = record {
  repository = "example";
  scope = none;
  task_id = some "task 1";
  work_item = none;
  worktree = none;
  branch = none;
  dirty = none;
}

resolved :
    (resolve_resume_candidates directories context ("a" ∷ "b" ∷ []) 1).0
    ≡ returned (resume (resolution "a" checkpoint))
unfolding resolve_resume_candidates read string_eq nat_eq agent_governance.Base.option_eq
    agent_governance.Resume.Store.History.select
resolved = let loaded = store_history in simp loaded refl

resolve_resume_candidates-IsResolved_example :
    (o : ResolveOutcome) × ((resolve_resume_candidates directories context ("a" ∷ "b" ∷ []) 1).0
      ≡ returned o)
    × (((found : List ResumeResolution) × Visits directories context ("a" ∷ "b" ∷ []) [] 1 found
          × Concludes found o)
        ⊎ Fails directories context ("a" ∷ "b" ∷ []) [] 1 o)
resolve_resume_candidates-IsResolved_example =
    resolve_resume_candidates-IsResolved directories context ("a" ∷ "b" ∷ []) 1

resolve_resume_candidates-IsMatch_example :
    IsMatch directories context (resolution "a" checkpoint)
    × Visits directories context ("a" ∷ "b" ∷ []) [] 1 (resolution "a" checkpoint ∷ [])
resolve_resume_candidates-IsMatch_example =
    resolve_resume_candidates-IsMatch directories context ("a" ∷ "b" ∷ []) 1
      (resolution "a" checkpoint) resolved
