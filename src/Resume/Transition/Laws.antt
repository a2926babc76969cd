-- ===== src/Resume/Transition/Laws.antt =====
-- What `validateTransition` accepts, as a relation on the effects of two checkpoints.
use agent_governance.Base.{
  ◌≡◌, refl, ◌≢◌, ◌↔◌, ◌⊎◌, inl, inr, true, false, Option, none, some, List, [], ◌∷◌, ◌==◌,
  string_eq, any, All, arith, ok, >>=-eq-ok, reject_if-eq-ok, reject_if,
}
use agent_governance.Resume.State.{
  Trigger, effect_prepared, effect_executed, effect_readback, EffectState, prepared, unknown,
  committed, not_applied, ExternalEffect, ResumeCheckpoint, find_effect, effect_binding, binding_eq,
  effect_eq, trigger_eq, effect_state_eq,
}
use agent_governance.Resume.Transition.{
  allowed, check_kept, check_all_kept, check_new, effects_of, task_changed, validate_transition,
}

-- The life of an effect: which event moves it from which state to which.
pub data Moves (event : Trigger) (old new : EffectState) : Type 0 where
  read_back :
      event ≡ effect_readback
      → (old ≡ prepared) ⊎ (old ≡ unknown)
      → new ≢ prepared
      → Moves event old new
  execute : event ≡ effect_executed → old ≡ prepared → new ≡ unknown → Moves event old new
  prepare_again : event ≡ effect_prepared → old ≡ not_applied → new ≡ prepared → Moves event old new

allowed_cases :
    (event : Trigger) (old new : EffectState)
    → allowed event old new ≡ true
    → ((event ≡ effect_readback) × ((old ≡ prepared) ⊎ (old ≡ unknown)) × (new ≢ prepared))
      ⊎ ((event ≡ effect_executed) × (old ≡ prepared) × (new ≡ unknown))
      ⊎ ((event ≡ effect_prepared) × (old ≡ not_applied) × (new ≡ prepared))
unfolding allowed
allowed_cases event old new h = ground arith

pub allowed-Moves :
    (event : Trigger) (old new : EffectState) → allowed event old new ≡ true → Moves event old new
allowed-Moves event old new h = elim (allowed_cases event old new h) [
  | inl (a, b, c) ↦ read_back a b c
  | inr (inl (a, b, c)) ↦ execute a b c
  | inr (inr (a, b, c)) ↦ prepare_again a b c
]

pub Moves-allowed :
    {event : Trigger} {old new : EffectState} → Moves event old new → allowed event old new ≡ true
unfolding allowed
Moves-allowed {new = prepared} (read_back a b c) = absurd (c refl)
Moves-allowed {new = unknown} (read_back a b c) = ground arith
Moves-allowed {new = committed} (read_back a b c) = ground arith
Moves-allowed {new = not_applied} (read_back a b c) = ground arith
Moves-allowed (execute a b c) = ground arith
Moves-allowed (prepare_again a b c) = ground arith

-- How an effect of the earlier checkpoint is found in the later one.
pub data Keeps (event : Trigger) (old new : ExternalEffect) : Type 0 where
  same : old ≡ new → Keeps event old new
  moved :
      effect_binding old ≡ effect_binding new
      → Moves event old.state new.state
      → Keeps event old new

-- The transition that the two loops check.
pub record IsTransition (event : Trigger) (olds news : List ExternalEffect) : Type 0 where
  pub kept :
      All
        (λ old.
          (new : ExternalEffect) × (find_effect old.operation_id news ≡ some new)
          × Keeps event old new)
        olds
  pub fresh :
      All
        (λ new.
          (any (λ o. o.operation_id == new.operation_id) olds ≡ true)
          ⊎ ((new.state ≡ prepared) × (event ≡ effect_prepared)))
        news

check_kept_sound :
    (event : Trigger) (old : ExternalEffect) (found : Option ExternalEffect)
    → check_kept event old found ≡ ok tt
    → (new : ExternalEffect) × (found ≡ some new) × Keeps event old new
unfolding check_kept
check_kept_sound event old none h = cc
check_kept_sound event old (some new) h = elim (effect_eq.dec old new) [
  | yes e ↦ (new, refl, same e)
  | no n ↦
      (new, refl, moved (ground arith) (allowed-Moves event old.state new.state (ground arith)))
]

check_kept_complete :
    (event : Trigger) (old : ExternalEffect) (found : Option ExternalEffect) (new : ExternalEffect)
    → found ≡ some new
    → Keeps event old new
    → check_kept event old found ≡ ok tt
unfolding check_kept
check_kept_complete event old found new e (same p) = rw (e, p) (ground arith)
check_kept_complete event old found new e (moved b m) = rw e (ground (arith, Moves-allowed m))

check_all_kept_sound :
    (event : Trigger) (olds news : List ExternalEffect)
    → check_all_kept event olds news ≡ ok tt
    → All
        (λ old.
          (new : ExternalEffect) × (find_effect old.operation_id news ≡ some new)
          × Keeps event old new)
        olds
unfolding check_all_kept
check_all_kept_sound event [] news h = tt
check_all_kept_sound event (old ∷ olds) news h =
    let (_, first, rest) =
      >>=-eq-ok (check_kept event old (find_effect old.operation_id news)) _ h in
    (check_kept_sound event old _ first, check_all_kept_sound event olds news rest)

check_all_kept_complete :
    (event : Trigger) (olds news : List ExternalEffect)
    → All
        (λ old.
          (new : ExternalEffect) × (find_effect old.operation_id news ≡ some new)
          × Keeps event old new)
        olds
    → check_all_kept event olds news ≡ ok tt
unfolding check_all_kept
check_all_kept_complete event [] news h = refl
check_all_kept_complete event (old ∷ olds) news ((new, found, k), rest) =
    rw (check_kept_complete event old _ new found k) (check_all_kept_complete event olds news rest)

check_new_sound :
    (event : Trigger) (olds news : List ExternalEffect)
    → check_new event olds news ≡ ok tt
    → All
        (λ new.
          (any (λ o. o.operation_id == new.operation_id) olds ≡ true)
          ⊎ ((new.state ≡ prepared) × (event ≡ effect_prepared)))
        news
unfolding check_new
check_new_sound event olds [] h = tt
check_new_sound event olds (new ∷ news) h =
    (ground arith, check_new_sound event olds news (ground arith))

check_new_complete :
    (event : Trigger) (olds news : List ExternalEffect)
    → All
        (λ new.
          (any (λ o. o.operation_id == new.operation_id) olds ≡ true)
          ⊎ ((new.state ≡ prepared) × (event ≡ effect_prepared)))
        news
    → check_new event olds news ≡ ok tt
unfolding check_new
check_new_complete event olds [] h = refl
check_new_complete event olds (new ∷ news) (first, rest) =
    ground (arith, check_new_complete event olds news rest)

abbrev pub SameTask : Option ResumeCheckpoint → ResumeCheckpoint → Type 0
SameTask none next = Unit
SameTask (some cp) next = cp.body.state.projection.task_id ≡ next.body.state.projection.task_id

task_changed_iff :
    (previous : Option ResumeCheckpoint) (next : ResumeCheckpoint)
    → (task_changed previous next ≡ false) ↔ SameTask previous next
task_changed_iff none next = (λ _. tt, λ _. refl)
task_changed_iff (some cp) next = ground arith

-- `validateTransition` accepts a checkpoint exactly if it keeps the task, keeps every effect of
-- its predecessor (unchanged, or moved by an event that may move it, under the same binding), and
-- adds effects only as prepared, on the event that prepares them.
pub validate_transition_iff :
    (previous : Option ResumeCheckpoint) (next : ResumeCheckpoint)
    → (validate_transition previous next ≡ ok tt) ↔ (
        SameTask previous next
        × IsTransition next.body.trigger (effects_of previous) next.body.state.external_effects)
unfolding validate_transition
validate_transition_iff previous next = (
  λ h.
      let (_, first, rest) = >>=-eq-ok (reject_if (task_changed previous next) _) _ h in
      let (_, second, third) = >>=-eq-ok (check_all_kept _ (effects_of previous) _) _ rest in
      (
        (task_changed_iff previous next).0 (reject_if-eq-ok _ _ first),
        record {
          kept = check_all_kept_sound _ (effects_of previous) _ second;
          fresh = check_new_sound _ (effects_of previous) _ third;
        },
      ),
  λ (s, t).
      rw
        (
          (task_changed_iff previous next).1 s,
          check_all_kept_complete _ (effects_of previous) _ t.kept,
        )
        (check_new_complete _ (effects_of previous) _ t.fresh),
)
