-- ===== src/Resume/Schema/Names.antt =====
-- The enumerations of src/resume-checkpoint-schema.ts and their names.
use agent_governance.Base.{
  String, Option, some, List, [], ◌∷◌, ◌==◌, string_eq, nat_eq, if◌then◌else◌, Result, ok,
}
use agent_governance.Base.Json.{Json, str}
use agent_governance.Resume.State.{
  Trigger, task_identified, scope_changed, active_task_changed, task_started, task_completed,
  task_failed, task_incomplete, decision_confirmed, evidence_started, evidence_completed,
  evidence_invalidated, finding_opened, finding_closed, exact_state_changed, next_action_changed,
  handoff, effect_prepared, effect_executed, effect_readback, compaction_announced, session_ended,
  EffectState, prepared, unknown, committed, not_applied, TaskStatus, running, completed, failed,
  incomplete,
}
use agent_governance.Resume.Schema.Fields.{reject}

abbrev pub trigger_name : Trigger → String
trigger_name task_identified = "task_identified"
trigger_name scope_changed = "scope_changed"
trigger_name active_task_changed = "active_task_changed"
trigger_name task_started = "task_started"
trigger_name task_completed = "task_completed"
trigger_name task_failed = "task_failed"
trigger_name task_incomplete = "task_incomplete"
trigger_name decision_confirmed = "decision_confirmed"
trigger_name evidence_started = "evidence_started"
trigger_name evidence_completed = "evidence_completed"
trigger_name evidence_invalidated = "evidence_invalidated"
trigger_name finding_opened = "finding_opened"
trigger_name finding_closed = "finding_closed"
trigger_name exact_state_changed = "exact_state_changed"
trigger_name next_action_changed = "next_action_changed"
trigger_name handoff = "handoff"
trigger_name effect_prepared = "effect_prepared"
trigger_name effect_executed = "effect_executed"
trigger_name effect_readback = "effect_readback"
trigger_name compaction_announced = "compaction_announced"
trigger_name session_ended = "session_ended"

abbrev materialization_triggers : List Trigger
materialization_triggers =
    task_identified ∷ scope_changed ∷ active_task_changed ∷ task_started ∷ task_completed
    ∷ task_failed ∷ task_incomplete ∷ decision_confirmed ∷ evidence_started ∷ evidence_completed
    ∷ evidence_invalidated ∷ finding_opened ∷ finding_closed ∷ exact_state_changed
    ∷ next_action_changed ∷ handoff ∷ effect_prepared ∷ effect_executed ∷ effect_readback
    ∷ compaction_announced ∷ session_ended ∷ []

-- `includes`, with the member that is found
named {ℓ} : {A : Type ℓ} → (A → String) → List A → String → String → Result A
named name [] s message = reject message
named name (a ∷ rest) s message = if name a == s then ok a else named name rest s message

unfoldable pub trigger_of : Option Json → Result Trigger
unfolding named
trigger_of (some (str s)) = named trigger_name materialization_triggers s "unknown trigger"
trigger_of _ = reject "unknown trigger"

abbrev pub status_name : TaskStatus → String
status_name running = "RUNNING"
status_name completed = "COMPLETED"
status_name failed = "FAILED"
status_name incomplete = "INCOMPLETE"

unfoldable pub task_status_of : Option Json → Result TaskStatus
unfolding named
task_status_of (some (str s)) =
    named status_name (running ∷ completed ∷ failed ∷ incomplete ∷ []) s "task status"
task_status_of _ = reject "task status"

abbrev pub effect_state_name : EffectState → String
effect_state_name prepared = "PREPARED"
effect_state_name unknown = "UNKNOWN"
effect_state_name committed = "COMMITTED"
effect_state_name not_applied = "NOT_APPLIED"

unfoldable pub effect_state_of : Option Json → Result EffectState
unfolding named
effect_state_of (some (str s)) =
    named effect_state_name (prepared ∷ unknown ∷ committed ∷ not_applied ∷ []) s "effect state"
effect_state_of _ = reject "effect state"
