-- ===== src/Enforcement/Hook/Laws.antt =====
-- When integrations/microsoft-agent-governance-toolkit/bridge/codex-hook.mjs lets a tool call pass.
use agent_governance.Base.{◌≡◌, some, String, true, string_eq, list_eq, nat_eq, ok}
use agent_governance.Base.Json.{Json, Members, get}
use agent_governance.Contracts.Effects.{returned}
use agent_governance.Enforcement.Envelope.{validate_envelope}
use agent_governance.Enforcement.Engine.{Provider}
use agent_governance.Enforcement.Provider.{Evidence, evaluate_envelope}
use agent_governance.Enforcement.Provider.Laws.{IsAllowed}
use agent_governance.Enforcement.Hook.{Host, LogEntry, no_options}
use agent_governance.Enforcement.Hook.Made.{IsInput, IsMade}

module _ {W H C E : Type 0} (host : Host W H) (p : Provider W H C E) where
  -- The entry of the log has what was decided, and the names of the tool call.
  abbrev pub IsLogged : Members → Evidence → Type 0
  IsLogged input result =
      (handle : H) × (w : W) × (entry : LogEntry) × ((host.append_entry handle entry w).0
        ≡ returned tt)
      × (entry.decision ≡ result.decision)
      × (entry.action_id ≡ result.action_id)
      × (entry.evidence_id ≡ result.evidence_id)
      × (entry.provider_reached ≡ result.provider_reached)
      × (entry.tool_name ≡ get "tool_name" input)
      × (entry.tool_use_id ≡ get "tool_use_id" input)

  -- What the hook has evaluated: the envelope of the enforced tool's call in the input.
  abbrev IsEvaluated : W → Json × Evidence → Type 0
  IsEvaluated w found =
      (tool : String) × (envelope : Json) × (v : W) × (host.enforced_tool_name ≡ some tool)
      × IsInput host p w found.0
      × IsMade host p tool found.0 envelope
      × ((evaluate_envelope p no_options envelope v).0 ≡ returned found.1)

  -- The input is a call of the enforced tool; its envelope was valid and allowed, and this decision is
  -- in the log.
  pub record IsPermitted (w : W) : Type 0 where
    pub tool : String
    pub enforced : host.enforced_tool_name ≡ some tool
    pub input : Json
    pub is_input : IsInput host p w input
    pub envelope : Json
    pub made : IsMade host p tool input envelope
    pub valid : validate_envelope p.to_text envelope ≡ ok true
    pub at : W
    pub result : Evidence
    pub evaluates : (evaluate_envelope p no_options envelope at).0 ≡ returned result
    pub allow : result.decision ≡ "allow"
    pub allowed : IsAllowed p no_options made.fields at
    pub logged : IsLogged made.members result
