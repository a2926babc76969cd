-- ===== src/Resume/Transition.antt =====
-- `validateTransition` of src/resume-checkpoint-schema.ts: which checkpoint may follow another.
pub mod Laws
use agent_governance.Base.{
  String, Bool, true, false, not, ◌&&◌, ◌||◌, Option, none, some, List, [], ◌∷◌, ◌==◌, string_eq,
  if◌then◌else◌, any, Result, ok, err, ◌>>=◌, ◌>>◌, reject_if,
}
use agent_governance.Resume.State.{
  Trigger, effect_prepared, effect_executed, effect_readback, EffectState, prepared, unknown,
  committed, not_applied, ExternalEffect, ResumeCheckpoint, find_effect, effect_binding, binding_eq,
  effect_eq, trigger_eq, effect_state_eq,
}

-- The condition `allowed`.
unfoldable pub allowed : Trigger → EffectState → EffectState → Bool
allowed event old new =
    ((old == prepared || old == unknown)
      && (event == effect_readback && (new == unknown || (new == committed || new == not_applied))))
    || ((old == prepared && (event == effect_executed && new == unknown))
        || (old == not_applied && (event == effect_prepared && new == prepared)))

-- The body of the first loop, for the effect that the next checkpoint holds.
unfoldable pub check_kept : Trigger → ExternalEffect → Option ExternalEffect → Result (Unit {0})
check_kept event old none = err "invalid resume checkpoint: effect binding removed or changed"
check_kept event old (some effect) =
    if not (effect_binding old == effect_binding effect)
    then err "invalid resume checkpoint: effect binding removed or changed"
    else if old == effect
    then ok tt
    else reject_if (not (allowed event old.state effect.state))
        "invalid resume checkpoint: invalid effect transition"

unfoldable pub check_all_kept :
    Trigger → List ExternalEffect → List ExternalEffect → Result (Unit {0})
check_all_kept event [] next = ok tt
check_all_kept event (old ∷ olds) next = do
  check_kept event old (find_effect old.operation_id next)
  check_all_kept event olds next

-- The second loop.
unfoldable pub check_new : Trigger → List ExternalEffect → List ExternalEffect → Result (Unit {0})
check_new event olds [] = ok tt
check_new event olds (effect ∷ effects) = do
  reject_if
      (not (any (λ o. o.operation_id == effect.operation_id) olds)
        && (not (effect.state == prepared) || not (event == effect_prepared)))
      "invalid resume checkpoint: effect requires persistent preparation"
  check_new event olds effects

abbrev pub effects_of : Option ResumeCheckpoint → List ExternalEffect
effects_of none = []
effects_of (some cp) = cp.body.state.external_effects

abbrev pub task_changed : Option ResumeCheckpoint → ResumeCheckpoint → Bool
task_changed none next = false
task_changed (some cp) next =
    not (cp.body.state.projection.task_id == next.body.state.projection.task_id)

unfoldable pub validate_transition : Option ResumeCheckpoint → ResumeCheckpoint → Result (Unit {0})
validate_transition previous next = do
  reject_if (task_changed previous next) "invalid resume checkpoint: task identity changed"
  check_all_kept next.body.trigger (effects_of previous) next.body.state.external_effects
  check_new next.body.trigger (effects_of previous) next.body.state.external_effects
