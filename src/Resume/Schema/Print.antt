-- ===== src/Resume/Schema/Print.antt =====
-- The object that a state or a checkpoint is, with the keys in the order of the source.
use agent_governance.Base.{String, Option, none, some, [], ◌∷◌, map, string_eq, nat_eq}
use agent_governance.Base.Json.{Json, null, num, str, arr, obj, to_items, to_members}
use agent_governance.Resume.State.{
  Projection, ExternalEffect, EvidenceReference, ResumeState, ResumeCheckpoint,
}
use agent_governance.Resume.Projection.{strings_json, evidence_json}
use agent_governance.Resume.Schema.Names.{trigger_name, status_name, effect_state_name}

-- `projection` without its fingerprint, as an object
unfoldable pub bare_projection_json : Projection → Json
bare_projection_json p = obj (
    to_members (
      ("taskId", str p.task_id)
      ∷ ("objective", str p.objective)
      ∷ ("scope", strings_json p.scope)
      ∷ ("exactHead", str p.exact_head)
      ∷ ("evidence", arr (to_items (map evidence_json p.evidence)))
      ∷ ("incompleteEvidence", strings_json p.incomplete_evidence)
      ∷ ("openFindings", strings_json p.open_findings)
      ∷ ("nextAtomicAction", str p.next_atomic_action)
      ∷ []))

abbrev pub option_json : Option String → Json
option_json none = null
option_json (some s) = str s

unfoldable pub effect_json : ExternalEffect → Json
effect_json e = obj (
    to_members (
      ("operationId", str e.operation_id)
      ∷ ("target", str e.target)
      ∷ ("action", str e.action)
      ∷ ("inputBindings", strings_json e.input_bindings)
      ∷ ("state", str (effect_state_name e.state))
      ∷ ("readbackReference", option_json e.readback_reference)
      ∷ []))

abbrev pub reference_json : EvidenceReference → Json
reference_json r = obj (to_members (("id", str r.id) ∷ ("reference", str r.reference) ∷ []))

abbrev pub text_entry : String × String → String × Json
text_entry (k, s) = (k, str s)

unfoldable pub state_json : ResumeState → Json
state_json s = obj (
    to_members (
      ("projection", bare_projection_json s.projection)
      ∷ ("identities", obj (to_members (map text_entry s.identities)))
      ∷ ("authorities", strings_json s.authorities)
      ∷ ("activeTask", str s.active_task)
      ∷ ("taskStatus", str (status_name s.task_status))
      ∷ ("decisions", strings_json s.decisions)
      ∷ ("evidenceReferences", arr (to_items (map reference_json s.evidence_references)))
      ∷ ("workItem", option_json s.work_item)
      ∷ ("externalEffects", arr (to_items (map effect_json s.external_effects)))
      ∷ []))

unfoldable pub checkpoint_json : ResumeCheckpoint → Json
checkpoint_json cp = obj (
    to_members (
      ("schemaVersion", num 1)
      ∷ ("generation", num cp.body.generation)
      ∷ ("previousCheckpoint", option_json cp.body.previous_checkpoint)
      ∷ ("eventId", str cp.body.event_id)
      ∷ ("trigger", str (trigger_name cp.body.trigger))
      ∷ ("state", state_json cp.body.state)
      ∷ ("fingerprint", str cp.fingerprint)
      ∷ []))
