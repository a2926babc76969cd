-- ===== src/WorkItems/Types.antt =====
-- The interfaces of src/work-items.ts. A `Record` with string keys is an association list.
use agent_governance.Base.{String, Bool, Option, List}
use agent_governance.Base.Dict.{Dict}

pub data Cardinality : Type 0 where
  one many at_most_one zero_or_more : Cardinality

pub record Dimension : Type 0 where
  pub id : String
  pub label : String
  pub cardinality : Cardinality
  pub description : String

pub record ClassificationValue : Type 0 where
  pub id : String
  pub dimension : String
  pub value : String
  pub label : String
  pub description : String

pub record ClassificationIndex : Type 0 where
  pub dimensions : Dict Dimension
  pub classifications : Dict ClassificationValue
  pub values_by_dimension : Dict (Dict ClassificationValue)

pub record LabelProjection : Type 0 where
  pub id : String
  pub classification : String
  pub name : String
  pub description : String
  pub color : String
  pub aliases : List String

pub record TitleMarker : Type 0 where
  pub id : String
  pub classification : String
  pub marker : String

pub record ProjectionIndex : Type 0 where
  pub projections : Dict LabelProjection
  pub title_markers : Dict TitleMarker

-- `managed` is optional
pub record GitHubLabel : Type 0 where
  pub name : String
  pub color : String
  pub description : String
  pub managed : Option Bool

pub data PlanAction : Type 0 where
  noop create update conflict unmanaged candidate : PlanAction

pub record PlanEntry : Type 0 where
  pub action : PlanAction
  pub classification : Option String
  pub label_name : String
  pub reason : String

pub record Violation : Type 0 where
  pub dimension : String
  pub cardinality : Cardinality
  pub values : List String

pub record WorkItemClassification : Type 0 where
  pub ids : List String
  pub violations : List Violation

pub record Drift : Type 0 where
  pub dimension : String
  pub values : List String

-- The field sets of the contract fixture that the parsers are closed under.
pub record Contract : Type 0 where
  pub classifications_top_level : List String
  pub dimension : List String
  pub classification : List String
  pub projections_top_level : List String
  pub projection : List String
  pub title_marker : List String
