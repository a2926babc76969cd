-- ===== src/ToolPreparation/Types.antt =====
-- src/init/tool-preparation/types.ts
use agent_governance.Base.{String, Bool, Option}
use agent_governance.Contracts.Effects.{Eff}

pub data ToolStatus : Type 0 where
  ready missing auth_required skipped unavailable : ToolStatus

-- `effectContext` holds its resource id; its `externalEffect` is the one constant.
pub record ToolResult : Type 0 where
  pub tool_id : String
  pub status : ToolStatus
  pub message : Option String
  pub effect_context : Option String

-- `ToolPreparationModule` over the states `W` of the world
pub record ToolModule (W : Type 0) : Type 0 where
  pub tool_id : String
  pub inspect : Eff W ToolResult
  pub prepare : Bool → Bool → Eff W ToolResult
