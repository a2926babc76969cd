-- ===== src/Resume/Store/Publish.antt =====
-- `materialize`, `publish`, `confirm` and the readers of the current checkpoint.
use agent_governance.Base.{
  ℕ, String, Bool, true, false, not, ◌&&◌, Option, none, some, List, ◌==◌, string_eq, option_eq,
  if◌then◌else◌, any, find, last?, second_last?, Result, ok, err, reject_if, suc,
}
use agent_governance.Base.{◌>>=◌ as ◌try◌}
use agent_governance.Base.Json.{Json, str}
use agent_governance.Contracts.Effects.{Eff, ◌>>=◌, give, lift}
use agent_governance.Resume.State.{
  Trigger, EffectState, committed, not_applied, ExternalEffect, ResumeState, CheckpointIdentity,
  ResumeCheckpoint, BoundProjection, find_effect, checkpoint_eq, trigger_eq, state_eq, effect_eq,
  effect_state_eq,
}
use agent_governance.Resume.Schema.Fields.{reject, text}
use agent_governance.Resume.Schema.Names.{trigger_of}
use agent_governance.Resume.Schema.States.{validate_state}
use agent_governance.Resume.Schema.Checkpoints.{create_checkpoint}
use agent_governance.Resume.Transition.{validate_transition, effects_of}
use agent_governance.Resume.Store.History.{
  stage, before_stage, after_stage, before_publish, after_publish, after_sync, System, identity_of,
  matches, fingerprint_of, read_file, history, read, sync,
}

-- `MaterializationRequest`; the state has not been validated
pub record Request : Type 0 where
  pub event_id : String
  pub trigger : String
  pub expected : Option CheckpointIdentity
  pub state : Json

-- a request whose trigger, event and state have been validated
pub record Event : Type 0 where
  pub trigger : Trigger
  pub event_id : String
  pub state : ResumeState

unfoldable pub event_of : Request → Result Event
event_of r = trigger_of (some (str r.trigger)) try λ trigger.
    text (some (str r.event_id)) try λ event_id. validate_state r.state try λ state.
    ok (record { trigger = trigger; event_id = event_id; state = state })

-- What `publish` does once it has read the history: it rejects, confirms a checkpoint that is there,
-- or writes a new one.
pub data Decision : Type 0 where
  refuse : String → Decision
  keep_current : ResumeCheckpoint → Decision
  append : ResumeCheckpoint → Decision

abbrev pub is_answered : EffectState → Bool
is_answered committed = true
is_answered not_applied = true
is_answered _ = false

abbrev same_effect : ExternalEffect → Option ExternalEffect → Bool
same_effect effect none = false
same_effect effect (some old) = effect == old

-- an effect whose answer is new
unfoldable pub needs_readback : List ExternalEffect → ExternalEffect → Bool
needs_readback olds effect =
    is_answered effect.state && not (same_effect effect (find_effect effect.operation_id olds))

-- `repeated === current`: no checkpoint of a history occurs in it twice
abbrev pub is_current : ResumeCheckpoint → Option ResumeCheckpoint → Bool
is_current repeated none = false
is_current repeated (some current) = repeated == current

unfoldable pub repeated_event :
    List ResumeCheckpoint → Option CheckpointIdentity → Event → ResumeCheckpoint → Decision
repeated_event hs expected e repeated =
    if is_current repeated (last? hs)
      && (matches (second_last? hs) expected
          && (repeated.body.trigger == e.trigger && repeated.body.state == e.state))
    then keep_current repeated
    else refuse "invalid resume checkpoint: stale or conflicting event"

abbrev pub next_generation : Option ResumeCheckpoint → ℕ
next_generation none = 1
next_generation (some cp) = suc cp.body.generation

abbrev pub or_refuse : Result ResumeCheckpoint → Decision
or_refuse (ok cp) = append cp
or_refuse (err e) = refuse e

module _ {W : Type 0} (sys : System W) where
  -- the checkpoint that is written, with the checks that it passes
  unfoldable pub successor : Bool → Option ResumeCheckpoint → Event → Result ResumeCheckpoint
  successor readback current e =
      create_checkpoint sys.fingerprint (next_generation current) (fingerprint_of current)
        e.event_id e.trigger e.state
      try λ cp. validate_transition current cp try λ _.
          reject_if
            (not readback
              && any (needs_readback (effects_of current)) cp.body.state.external_effects)
            "invalid resume checkpoint: effect requires source-of-truth readback"
          try λ _. ok cp

  unfoldable pub unless_same : Bool → Event → Option ResumeCheckpoint → Decision
  unless_same readback e none = or_refuse (successor readback none e)
  unless_same readback e (some current) =
      if current.body.state == e.state
      then keep_current current
      else or_refuse (successor readback (some current) e)

  unfoldable pub new_event :
      Bool → List ResumeCheckpoint → Option CheckpointIdentity → Event → Decision
  new_event readback hs expected e =
      if not (matches (last? hs) expected)
      then refuse "invalid resume checkpoint: stale writer generation"
      else unless_same readback e (last? hs)

  unfoldable pub decide :
      Bool → List ResumeCheckpoint → Option CheckpointIdentity → Event → Decision
  decide readback hs expected e = elim (find (λ cp. cp.body.event_id == e.event_id) hs) [
    | some repeated ↦ repeated_event hs expected e repeated
    | none ↦ new_event readback hs expected e
  ]

  unfoldable pub present : Option ResumeCheckpoint → Result ResumeCheckpoint
  present none = reject "checkpoint missing"
  present (some cp) = ok cp

  unfoldable pub confirm : CheckpointIdentity → Eff W ResumeCheckpoint
  confirm expected = do _ ← sync sys; cp ← read sys (some expected); lift (present cp)

  unfoldable pub publication : ResumeCheckpoint → String → Eff W (Option ResumeCheckpoint)
  publication cp name = do
    _ ← sys.observe before_publish
    _ ← sys.bound
    _ ← sys.rename name cp.body.generation
    _ ← sys.observe after_publish
    _ ← sync sys
    _ ← sys.observe after_sync
    read sys (some (identity_of cp))

  -- the staging, the publication and the readback
  unfoldable pub write : ResumeCheckpoint → Eff W (Option ResumeCheckpoint)
  write cp = do
    _ ← sys.observe before_stage
    _ ← sys.bound
    name ← sys.random_uuid
    _ ← sys.create name (sys.stringify cp)
    _ ← sys.observe after_stage
    staged ← read_file sys (stage name)
    _ ← lift (
        reject_if (not (staged.fingerprint == cp.fingerprint))
          "invalid resume checkpoint: staging readback")
    publication cp name

  unfoldable pub carry_out : Decision → Eff W (Option ResumeCheckpoint)
  carry_out (refuse message) = lift (err message)
  carry_out (keep_current cp) = do confirmed ← confirm (identity_of cp); give (some confirmed)
  carry_out (append cp) = write cp

  unfoldable pub publish : Request → Bool → Eff W (Option ResumeCheckpoint)
  publish request readback = if request.trigger == "message" then read sys none else (do
    e ← lift (event_of request)
    hs ← history sys
    carry_out (decide readback hs request.expected e))

  unfoldable pub materialize : Request → Eff W (Option ResumeCheckpoint)
  materialize request = publish request false

  unfoldable pub flush : Eff W (Option ResumeCheckpoint)
  flush = do _ ← sync sys; read sys none

  unfoldable pub reference_of : String → Option ResumeCheckpoint → Result String
  reference_of id none = reject "missing evidence artifact"
  reference_of id (some cp) = elim (find (λ r. r.id == id) cp.body.state.evidence_references) [
    | none ↦ reject "missing evidence artifact"
    | some r ↦ ok r.reference
  ]

  unfoldable pub evidence_reference :
      CheckpointIdentity → String → (String → Eff W Bool) → Eff W String
  evidence_reference expected id exists = do
    cp ← read sys (some expected)
    reference ← lift (reference_of id cp)
    there ← exists reference
    _ ← lift (reject_if (not there) "invalid resume checkpoint: missing evidence artifact")
    _ ← read sys (some expected)
    give reference

  module _ (encode : BoundProjection → Result String)
      (decode : String → Option String → Result BoundProjection) where
    unfoldable pub to_toon : CheckpointIdentity → Eff W String
    to_toon expected = do
      found ← read sys (some expected)
      cp ← lift (present found)
      lift (
          encode (record {
            projection = cp.body.state.projection;
            checkpoint_fingerprint = cp.fingerprint;
          }))

    unfoldable pub validate_toon : String → CheckpointIdentity → Eff W BoundProjection
    validate_toon input expected = do
      projection ← lift (decode input (some expected.fingerprint))
      printed ← lift (encode projection)
      toon ← to_toon expected
      _ ← lift (
          reject_if (not (printed == toon))
            "invalid resume checkpoint: projection content differs from checkpoint")
      give projection
