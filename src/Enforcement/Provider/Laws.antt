-- ===== src/Enforcement/Provider/Laws.antt =====
-- When `evaluateEnvelope` of integrations/microsoft-agent-governance-toolkit/bridge/provider.mjs
-- allows an action.
use agent_governance.Base.{String, ◌≡◌, Option, some, string_eq, list_eq, nat_eq, ==_iff}
use agent_governance.Base.Json.{Json, str, obj, Members}
use agent_governance.Base.Text.{Units}
use agent_governance.Contracts.Effects.{returned}
use agent_governance.Enforcement.Engine.{Provider}
use agent_governance.Enforcement.Provider.{
  Options, or_else, field_of, default_manifest_sha256, default_policy_sha256, agent_did,
}
use agent_governance.Enforcement.Provider.Approval.{IsShown}
use agent_governance.Enforcement.Engine.Laws.{IsPinnedClass}

pub error-ne-allow : ¬ (◌≡◌ {A = String} "error" "allow")
unfolding string_eq
error-ne-allow e = absurd (let same = (==_iff "error" "allow").1 e in cc)

pub deny-ne-allow : ¬ (◌≡◌ {A = String} "deny" "allow")
unfolding string_eq
deny-ne-allow e = absurd (let same = (==_iff "deny" "allow").1 e in cc)

module _ {W H C E : Type 0} (p : Provider W H C E) (options : Options W) where
  -- The engine of the pinned class has loaded the pinned policy, and has answered for what it is shown
  -- that it allows the action.
  abbrev pub EngineAllows : Members → Type 0
  EngineAllows effective =
      (engine_class : C) × (engine : E) × (content : Units) × (answer : Option Json) × (v : W)
      × (w : W) × (u : W) × IsPinnedClass p
          (or_else options.expected_runtime_manifest_sha256 default_manifest_sha256) engine_class
      × ((p.construct engine_class v).0 ≡ returned engine)
      × (p.files.sha256 content ≡ or_else options.expected_policy_sha256 default_policy_sha256)
      × (p.load_json engine (p.to_utf8 content) w ≡ (returned tt, u))
      × ((p.evaluate_policy engine agent_did (obj effective) u).0 ≡ returned answer)
      × (field_of "action" answer ≡ some (str "allow"))

  abbrev IsConstructed : E × Units → Type 0
  IsConstructed built =
      (engine_class : C) × (v : W) × IsPinnedClass p
        (or_else options.expected_runtime_manifest_sha256 default_manifest_sha256) engine_class
      × ((p.construct engine_class v).0 ≡ returned built.0)
      × (p.files.sha256 built.1 ≡ or_else options.expected_policy_sha256 default_policy_sha256)

  -- The engine allows what it is shown of the action.
  abbrev pub IsAllowed : Members → W → Type 0
  IsAllowed envelope w =
      (effective : Members) × IsShown options w envelope effective × EngineAllows effective
