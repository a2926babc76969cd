-- ===== src/Resume/State.antt =====
-- The types of src/resume-checkpoint-schema.ts and src/resume-toon.ts. Two values of one of these
-- types are equal exactly if `JSON.stringify` prints the same text for them, since the validators
-- build each object with its keys in one order.
use agent_governance.Base.{
  ℕ, String, Option, List, Eq, ◌==◌, string_eq, find, String-discrete, ℕ_discrete,
}

-- `MATERIALIZATION_TRIGGERS`
pub data Trigger : Type 0 where
  task_identified scope_changed active_task_changed task_started task_completed : Trigger
  task_failed task_incomplete decision_confirmed evidence_started evidence_completed : Trigger
  evidence_invalidated finding_opened finding_closed exact_state_changed : Trigger
  next_action_changed handoff effect_prepared effect_executed effect_readback : Trigger
  compaction_announced session_ended : Trigger

pub data EffectState : Type 0 where
  prepared unknown committed not_applied : EffectState

pub data TaskStatus : Type 0 where
  running completed failed incomplete : TaskStatus

pub data EvidenceStatus : Type 0 where
  reuse invalidate rerun : EvidenceStatus

pub record ExternalEffect : Type 0 where
  pub operation_id : String
  pub target : String
  pub action : String
  pub input_bindings : List String
  pub state : EffectState
  pub readback_reference : Option String

-- `ResumeEvidenceBinding`
pub record EvidenceBinding : Type 0 where
  pub id : String
  pub bindings : List String
  pub status : EvidenceStatus

-- `Omit<ResumeProjection, "checkpointFingerprint">`
pub record Projection : Type 0 where
  pub task_id : String
  pub objective : String
  pub scope : List String
  pub exact_head : String
  pub evidence : List EvidenceBinding
  pub incomplete_evidence : List String
  pub open_findings : List String
  pub next_atomic_action : String

-- `ResumeProjection`
pub record BoundProjection : Type 0 where
  pub projection : Projection
  pub checkpoint_fingerprint : String

pub record EvidenceReference : Type 0 where
  pub id : String
  pub reference : String

pub record ResumeState : Type 0 where
  pub projection : Projection
  -- the entries of the object, sorted by key
  pub identities : List (String × String)
  pub authorities : List String
  pub active_task : String
  pub task_status : TaskStatus
  pub decisions : List String
  pub evidence_references : List EvidenceReference
  pub work_item : Option String
  pub external_effects : List ExternalEffect

pub record CheckpointIdentity : Type 0 where
  pub generation : ℕ
  pub fingerprint : String

-- The part of a checkpoint that its fingerprint covers; `schemaVersion` is the constant 1.
pub record Body : Type 0 where
  pub generation : ℕ
  pub previous_checkpoint : Option String
  pub event_id : String
  pub trigger : Trigger
  pub state : ResumeState

pub record ResumeCheckpoint : Type 0 where
  pub body : Body
  pub fingerprint : String

unfoldable pub Trigger-discrete : Discrete Trigger
Trigger-discrete = hlevel

unfoldable pub EffectState-discrete : Discrete EffectState
EffectState-discrete = hlevel

unfoldable pub ExternalEffect-discrete : Discrete ExternalEffect
unfolding EffectState-discrete String-discrete
ExternalEffect-discrete = hlevel (String-discrete)

unfoldable pub ResumeState-discrete : Discrete ResumeState
unfolding String-discrete
ResumeState-discrete = hlevel (String-discrete)

unfoldable pub Body-discrete : Discrete Body
unfolding String-discrete ℕ_discrete
Body-discrete = hlevel (String-discrete, ℕ_discrete)

unfoldable pub ResumeCheckpoint-discrete : Discrete ResumeCheckpoint
unfolding String-discrete ℕ_discrete
ResumeCheckpoint-discrete = hlevel (String-discrete, ℕ_discrete)

instance unfoldable pub trigger_eq : Eq Trigger
unfolding Trigger-discrete
trigger_eq = record { dec = Trigger-discrete }

instance unfoldable pub effect_state_eq : Eq EffectState
unfolding EffectState-discrete
effect_state_eq = record { dec = EffectState-discrete }

instance unfoldable pub effect_eq : Eq ExternalEffect
unfolding ExternalEffect-discrete
effect_eq = record { dec = ExternalEffect-discrete }

instance unfoldable pub state_eq : Eq ResumeState
unfolding ResumeState-discrete
state_eq = record { dec = ResumeState-discrete }

instance unfoldable pub checkpoint_eq : Eq ResumeCheckpoint
unfolding ResumeCheckpoint-discrete
checkpoint_eq = record { dec = ResumeCheckpoint-discrete }

-- `externalEffects.find(item => item.operationId === operationId)`
unfoldable pub find_effect : String → List ExternalEffect → Option ExternalEffect
find_effect op = find (λ e. e.operation_id == op)

-- What `effectBinding` prints: a tuple, equal exactly if the texts are.
abbrev pub EffectBinding : Type 0
EffectBinding = String × String × String × List String

unfoldable pub effect_binding : ExternalEffect → EffectBinding
effect_binding e = (e.operation_id, e.target, e.action, e.input_bindings)

unfoldable pub EffectBinding-discrete : Discrete EffectBinding
unfolding String-discrete
EffectBinding-discrete = hlevel (String-discrete)

instance unfoldable pub binding_eq : Eq EffectBinding
unfolding EffectBinding-discrete
binding_eq = record { dec = EffectBinding-discrete }
