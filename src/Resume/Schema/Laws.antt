-- ===== src/Resume/Schema/Laws.antt =====
-- What `validateState` guarantees of every state that it accepts.
use agent_governance.Base.{
  ◌-◌, ◌≤◌, String, ◌≡◌, ◌≢◌, ◌⊎◌, true, false, not, ◌&&◌, Option, none, some, List, [], ◌∷◌, ◌++◌,
  map, ◌==◌, string_eq, nat_eq, contains, any, All, ltb, length, arith, Result, ok, Ensures,
  Ensures-at, >>=-Ensures, reject_if, traverse,
}
use agent_governance.Base.Json.{Json, null, get, entries}
use agent_governance.Resume.State.{
  reuse, EvidenceBinding, Projection, ExternalEffect, EvidenceReference, ResumeState,
}
use agent_governance.Resume.Schema.Fields.{
  has_repeat, unique, text, strings, record_of, bounded_array, json_bytes,
}
use agent_governance.Resume.Schema.Names.{task_status_of}
use agent_governance.Resume.Schema.Members.{
  is_null, nullable_text, confirmed, effect_keys, effect_of, reference_of, sort_entries,
  identity_entries,
}
use agent_governance.Resume.Schema.Print.{state_json}
use agent_governance.Resume.Schema.States.{
  identity_keys, state_keys, is_reuse, evidence_ids, check_evidence, state_projection,
  max_checkpoint_bytes, validate_state,
}

abbrev pub Distinct : List String → Type 0
Distinct [] = Unit
Distinct (x ∷ xs) = (contains xs x ≡ false) × Distinct xs

-- A readback reference is there exactly if the state of the effect is confirmed.
abbrev pub IsBound : ExternalEffect → Type 0
IsBound e =
    ((confirmed e.state ≡ true) × (e.readback_reference ≢ none))
    ⊎ ((confirmed e.state ≡ false) × (e.readback_reference ≡ none))

pub record IsEffect (e : ExternalEffect) : Type 0 where
  pub bound : IsBound e
  pub inputs : e.input_bindings ≢ []

pub record HasEvidence (p : Projection) (references : List EvidenceReference) : Type 0 where
  pub references_distinct : Distinct (map (λ r. r.id) references)
  pub evidence_distinct : Distinct (evidence_ids p)
  pub incomplete_distinct : Distinct p.incomplete_evidence
  pub incomplete_not_reused :
      All (λ e. e.status ≡ reuse → contains p.incomplete_evidence e.id ≡ false) p.evidence
  pub referenced :
      All (λ id. any (λ r. r.id == id) references ≡ true) (evidence_ids p ++ p.incomplete_evidence)

pub record IsState (s : ResumeState) : Type 0 where
  pub scope : s.projection.scope ≢ []
  pub authorities : s.authorities ≢ []
  pub evidence : HasEvidence s.projection s.evidence_references
  pub effects : All IsEffect s.external_effects
  pub operations_distinct : Distinct (map (λ e. e.operation_id) s.external_effects)
  pub size : json_bytes (state_json s) ≤ max_checkpoint_bytes - 4096

has_repeat-Distinct : (xs : List String) → has_repeat xs ≡ false → Distinct xs
unfolding has_repeat
has_repeat-Distinct [] h = tt
has_repeat-Distinct (x ∷ xs) h = (ground arith, has_repeat-Distinct xs (ground arith))

unique_sound : (xs : List String) → Ensures (λ _. Distinct xs) (unique xs)
unfolding unique
unique_sound xs = ground (arith, has_repeat-Distinct xs)

nullable_text_sound :
    (o : Option Json)
    → Ensures
        (λ r. ((is_null o ≡ true) × (r ≡ none)) ⊎ ((is_null o ≡ false) × (r ≢ none)))
        (nullable_text o)
unfolding nullable_text
nullable_text_sound (some null) = ground arith
nullable_text_sound _ = ground arith

effect_of_sound : (v : Json) → Ensures IsEffect (effect_of v)
unfolding effect_of
effect_of_sound v =
    >>=-Ensures IsEffect (record_of (some v) effect_keys) _
      λ e _. ground (arith, nullable_text_sound (get "readbackReference" e))

traverse-All {ℓ} :
    {A B : Type ℓ} (P : B → Type 0) (f : A → Result B)
    → ((a : A) → Ensures P (f a))
    → (xs : List A) → Ensures (All P) (traverse f xs)
traverse-All P f h [] = tt
traverse-All P f h (x ∷ xs) = >>=-Ensures (All P) (f x) _ λ y e.
    >>=-Ensures (All P) (traverse f xs) _ λ ys es.
      (Ensures-at P (f x) (h x) e, Ensures-at (All P) (traverse f xs) (traverse-All P f h xs) es)

not_reused_sound :
    (incomplete : List String) (es : List EvidenceBinding)
    → any (λ e. is_reuse e.status && contains incomplete e.id) es ≡ false
    → All (λ e. e.status ≡ reuse → contains incomplete e.id ≡ false) es
not_reused_sound incomplete [] h = tt
not_reused_sound incomplete (e ∷ es) h =
    (λ r. ground arith, not_reused_sound incomplete es (ground arith))

referenced_sound :
    (references : List EvidenceReference) (ids : List String)
    → any (λ id. not (any (λ r. r.id == id) references)) ids ≡ false
    → All (λ id. any (λ r. r.id == id) references ≡ true) ids
referenced_sound references [] h = tt
referenced_sound references (id ∷ ids) h =
    (ground arith, referenced_sound references ids (ground arith))

check_evidence_sound :
    (p : Projection) (references : List EvidenceReference)
    → Ensures (λ _. HasEvidence p references) (check_evidence p references)
unfolding check_evidence
check_evidence_sound p references = ground (
  arith,
  unique_sound (map (λ r. r.id) references),
  unique_sound (evidence_ids p),
  unique_sound p.incomplete_evidence,
  not_reused_sound p.incomplete_evidence p.evidence,
  referenced_sound references (evidence_ids p ++ p.incomplete_evidence),
)

state_projection_sound : (o : Option Json) → Ensures (λ p. p.scope ≢ []) (state_projection o)
unfolding state_projection
state_projection_sound o = ground arith

validate_state_sound : (v : Json) → Ensures IsState (validate_state v)
unfolding validate_state
validate_state_sound v = >>=-Ensures IsState (record_of (some v) state_keys) _ λ m _.
    >>=-Ensures IsState (state_projection (get "projection" m)) _ λ p scoped.
      >>=-Ensures IsState (record_of (get "identities" m) identity_keys) _ λ ids _.
        >>=-Ensures IsState (identity_entries (sort_entries (entries ids))) _ λ identities _.
          >>=-Ensures IsState (strings (get "authorities" m)) _ λ authorities _.
            >>=-Ensures IsState (reject_if (length authorities == 0) _) _ λ _ authorized.
              >>=-Ensures IsState (task_status_of (get "taskStatus" m)) _ λ status _.
                >>=-Ensures IsState (bounded_array (get "evidenceReferences" m)) _
                  λ reference_items _.
                    >>=-Ensures IsState (traverse reference_of reference_items) _ λ references _.
                      >>=-Ensures IsState (check_evidence p references) _ λ _ evidenced.
                        >>=-Ensures IsState (bounded_array (get "externalEffects" m)) _
                          λ effect_items _.
                            >>=-Ensures IsState (traverse effect_of effect_items) _ λ effects bound.
                              >>=-Ensures IsState (unique (map (λ e. e.operation_id) effects)) _
                                λ _ operations.
                                  >>=-Ensures IsState (text (get "activeTask" m)) _ λ active _.
                                    >>=-Ensures IsState (strings (get "decisions" m)) _
                                      λ decisions _.
                                        >>=-Ensures IsState (nullable_text (get "workItem" m)) _
                                          λ work_item _.
                                            let within : p.scope ≢ [] =
                                              Ensures-at (λ q. q.scope ≢ []) _
                                                (state_projection_sound (get "projection" m))
                                                scoped in
                                            let evidence : HasEvidence p references =
                                              Ensures-at (λ _. HasEvidence p references) _
                                                (check_evidence_sound p references) evidenced in
                                            let each : All IsEffect effects =
                                              Ensures-at (All IsEffect) _
                                                (traverse-All IsEffect effect_of effect_of_sound
                                                  effect_items)
                                                bound in
                                            let distinct : Distinct
                                                (map (λ e. e.operation_id) effects) =
                                              Ensures-at
                                                (λ _. Distinct (map (λ e. e.operation_id) effects))
                                                _ (unique_sound _) operations in
                                            let some_authority : authorities ≢ [] = ground arith in
                                            let result : ResumeState = record {
                                              projection = p;
                                              identities = identities;
                                              authorities = authorities;
                                              active_task = active;
                                              task_status = status;
                                              decisions = decisions;
                                              evidence_references = references;
                                              work_item = work_item;
                                              external_effects = effects;
                                            } in
                                            >>=-Ensures IsState
                                              (reject_if
                                                (ltb (max_checkpoint_bytes - 4096)
                                                  (json_bytes (state_json result)))
                                                _)
                                              _
                                              λ _ small. record {
                                                scope = within;
                                                authorities = some_authority;
                                                evidence = evidence;
                                                effects = each;
                                                operations_distinct = distinct;
                                                size = ground arith;
                                              }

-- Every state that `validateState` accepts has a scope and an authority, distinct evidence and
-- operation identities, a reference for each piece of evidence, no reuse of incomplete evidence,
-- a readback reference on exactly the confirmed effects, bound inputs on each effect, and fits
-- the size limit.
pub validate_state-IsState : (v : Json) {s : ResumeState} → validate_state v ≡ ok s → IsState s
validate_state-IsState v e = Ensures-at IsState (validate_state v) (validate_state_sound v) e
