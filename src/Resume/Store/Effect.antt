-- ===== src/Resume/Store/Effect.antt =====
-- `operation`, `executeEffect` and `recoverEffect`: the execution of a prepared effect.
use agent_governance.Base.{
  String, ◌<>◌, Bool, true, false, not, ◌&&◌, Option, none, some, List, [], ◌∷◌, ◌==◌, string_eq,
  option_eq, if◌then◌else◌, map, Result, ok, reject_if,
}
use agent_governance.Base.{◌>>=◌ as ◌try◌}
use agent_governance.Base.Json.{Json, null, arr, Items, nil, cons, Members, get}
use agent_governance.Contracts.Effects.{Eff, ◌>>=◌, lift}
use agent_governance.Resume.State.{
  EffectState, prepared, unknown, committed, not_applied, ExternalEffect, ResumeState,
  CheckpointIdentity, ResumeCheckpoint, find_effect,
}
use agent_governance.Resume.Schema.Fields.{reject, record_of, text}
use agent_governance.Resume.Schema.Print.{state_json}
use agent_governance.Resume.Schema.Checkpoints.{is_str}
use agent_governance.Resume.Store.History.{System, identity_of, read}
use agent_governance.Resume.Store.Publish.{Request, present, confirm, publish}

abbrev readback_keys : List String
readback_keys = "operationId" ∷ "target" ∷ "action" ∷ "inputBindings" ∷ "outcome" ∷ "reference" ∷ []

unfoldable pub is_strings : List String → Items → Bool
is_strings [] nil = true
is_strings (s ∷ ss) (cons v vs) = is_str s (some v) && is_strings ss vs
is_strings _ _ = false

abbrev is_array : List String → Option Json → Bool
is_array ss (some (arr vs)) = is_strings ss vs
is_array ss _ = false

-- `effectBinding(raw) === effectBinding(effect)`
unfoldable pub same_binding : Members → ExternalEffect → Bool
same_binding v effect =
    is_str effect.operation_id (get "operationId" v)
    && is_str effect.target (get "target" v)
    && is_str effect.action (get "action" v)
    && is_array effect.input_bindings (get "inputBindings" v)

unfoldable pub status_of : Option Json → Result EffectState
status_of o =
    if is_str "APPLIED" o
    then ok committed
    else if is_str "NOT_APPLIED" o
    then ok not_applied
    else if is_str "UNKNOWN" o
    then ok unknown
    else reject "readback outcome"

abbrev is_null : Option Json → Bool
is_null (some null) = true
is_null _ = false

unfoldable pub reference_for : EffectState → Option Json → Result (Option String)
reference_for unknown o =
    if is_null o then ok none else reject "unknown readback must not claim evidence"
reference_for _ o = text o try λ s. ok (some s)

-- what a readback says of an effect
unfoldable pub answer_of : Json → ExternalEffect → Result (EffectState × Option String)
answer_of raw effect = record_of (some raw) readback_keys try λ v.
    reject_if (not (same_binding v effect))
      "invalid resume checkpoint: readback operation binding mismatch"
    try λ _. status_of (get "outcome" v) try λ status.
        reference_for status (get "reference" v) try λ reference. ok (status, reference)

-- the state with another `state` of the effects of that id
unfoldable pub with_state : String → EffectState → ResumeState → ResumeState
with_state id status s = record s {
  external_effects =
      map (λ e. if e.operation_id == id then record e { state = status } else e) s.external_effects;
}

unfoldable pub with_answer : String → EffectState → Option String → ResumeState → ResumeState
with_answer id status reference s = record s {
  external_effects =
      map
        (λ e.
          if e.operation_id == id
          then record e { state = status; readback_reference = reference }
          else e)
        s.external_effects;
}

unfoldable pub prepared_effect :
    String → ResumeCheckpoint → Result (ResumeCheckpoint × ExternalEffect)
prepared_effect id cp = elim (find_effect id cp.body.state.external_effects) [
  | none ↦ reject "effect was not prepared"
  | some effect ↦ ok (cp, effect)
]

-- what claims a prepared effect before it is run
unfoldable pub claim_request : String → String → ResumeCheckpoint → Request
claim_request uuid id cp = record {
  event_id = "dispatch-" <> uuid;
  trigger = "effect_executed";
  expected = some (identity_of cp);
  state = state_json (with_state id unknown cp.body.state);
}

module _ {W : Type 0} (sys : System W) where
  unfoldable pub operation : CheckpointIdentity → String → Eff W (ResumeCheckpoint × ExternalEffect)
  operation expected id = do
    found ← read sys (some expected)
    cp ← lift (present sys found)
    lift (prepared_effect id cp)

  unfoldable pub record_answer :
      ResumeCheckpoint → String → EffectState × Option String → Eff W ResumeCheckpoint
  record_answer cp id (status, reference) = do
    uuid ← sys.random_uuid
    published ←
        publish sys
          (record {
            event_id = "readback-" <> uuid;
            trigger = "effect_readback";
            expected = some (identity_of cp);
            state = state_json (with_answer id status reference cp.body.state);
          })
          true
    lift (present sys published)

  unfoldable pub recover :
      String
      → (ExternalEffect → Eff W Json)
      → EffectState
      → ResumeCheckpoint
      → ExternalEffect
      → Eff W ResumeCheckpoint
  recover id readback committed cp effect = confirm sys (identity_of cp)
  recover id readback not_applied cp effect = confirm sys (identity_of cp)
  recover id readback prepared cp effect = do
    raw ← readback effect
    answer ← lift (answer_of raw effect)
    record_answer cp id answer
  recover id readback unknown cp effect = do
    raw ← readback effect
    answer ← lift (answer_of raw effect)
    record_answer cp id answer

  unfoldable pub recover_effect :
      CheckpointIdentity → String → (ExternalEffect → Eff W Json) → Eff W ResumeCheckpoint
  recover_effect expected id readback = do
    found ← operation expected id
    recover id readback found.1.state found.0 found.1

  -- the claim of a prepared effect, its execution and the readback
  unfoldable pub dispatch :
      String
      → Eff W (Unit {0})
      → (ExternalEffect → Eff W Json)
      → ResumeCheckpoint
      → Eff W ResumeCheckpoint
  dispatch id run readback cp = do
    uuid ← sys.random_uuid
    published ← publish sys (claim_request uuid id cp) false
    claimed ← lift (present sys published)
    _ ← run
    recover_effect (identity_of claimed) id readback

  unfoldable pub execute :
      String
      → Eff W (Unit {0})
      → (ExternalEffect → Eff W Json)
      → EffectState
      → ResumeCheckpoint
      → Eff W ResumeCheckpoint
  execute id run readback committed cp = confirm sys (identity_of cp)
  execute id run readback prepared cp = dispatch id run readback cp
  execute id run readback unknown cp =
      lift (reject "effect requires readback and explicit preparation before execution")
  execute id run readback not_applied cp =
      lift (reject "effect requires readback and explicit preparation before execution")

  unfoldable pub execute_effect :
      CheckpointIdentity
      → String
      → Eff W (Unit {0})
      → (ExternalEffect → Eff W Json)
      → Eff W ResumeCheckpoint
  execute_effect expected id run readback = do
    found ← operation expected id
    execute id run readback found.1.state found.0
