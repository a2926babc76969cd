-- ===== src/WorkItems/Plan.antt =====
-- `buildLabelProjectionPlan` of src/work-items.ts.
pub mod Laws
pub mod Complete
use agent_governance.Base.{
  String, Bool, true, false, not, ◌||◌, Option, none, some, List, [], ◌∷◌, ◌++◌, map, ◌==◌,
  string_eq, if◌then◌else◌, contains,
}
use agent_governance.Base.Dict.{Dict, lookup, insert, keys_of, values_of}
use agent_governance.Base.Text.{sort}
use agent_governance.WorkItems.Types.{
  LabelProjection, ProjectionIndex, GitHubLabel, PlanAction, noop, create, update, conflict,
  unmanaged, candidate, PlanEntry,
}

-- `byName`: the last label of a name wins
unfoldable pub by_name : List GitHubLabel → Dict GitHubLabel → Dict GitHubLabel
by_name [] m = m
by_name (label ∷ rest) m = by_name rest (insert label.name label m)

unfoldable pub add_aliases :
    List String → LabelProjection → Dict LabelProjection → Dict LabelProjection
add_aliases [] p m = m
add_aliases (alias ∷ rest) p m = add_aliases rest p (insert alias p m)

-- `aliasToProjection`
unfoldable pub aliases_of : List LabelProjection → Dict LabelProjection → Dict LabelProjection
aliases_of [] m = m
aliases_of (p ∷ rest) m = aliases_of rest (add_aliases p.aliases p m)

abbrev entry : PlanAction → LabelProjection → String → String → PlanEntry
entry action p name reason = record {
  action = action;
  classification = some p.classification;
  label_name = name;
  reason = reason;
}

-- `managed === false`
abbrev pub is_foreign : Option Bool → Bool
is_foreign (some false) = true
is_foreign _ = false

-- the entry for one projection
unfoldable pub plan_projection : LabelProjection → Option GitHubLabel → PlanEntry
plan_projection p none = entry create p p.name "managed projection is missing from GitHub"
plan_projection p (some existing) =
    if is_foreign existing.managed
    then entry conflict p existing.name "external label collides with a managed projection"
    else if not (existing.color == p.color) || not (existing.description == p.description)
    then entry update p existing.name "managed label drifted in color or description"
    else entry noop p existing.name "managed label matches the projection"

-- the first loop, over the sorted projection ids; the names of the labels found are consumed
unfoldable pub plan_projections : List String → ProjectionIndex → Dict GitHubLabel → List PlanEntry
plan_projections [] index labels = []
plan_projections (id ∷ ids) index labels = elim (lookup id index.projections) [
  | none ↦ plan_projections ids index labels
  | some p ↦ plan_projection p (lookup p.name labels) ∷ plan_projections ids index labels
]

unfoldable pub consumed : List String → ProjectionIndex → Dict GitHubLabel → List String
consumed [] index labels = []
consumed (id ∷ ids) index labels = elim (lookup id index.projections) [
  | none ↦ consumed ids index labels
  | some p ↦ elim (lookup p.name labels) [
    | none ↦ consumed ids index labels
    | some existing ↦ existing.name ∷ consumed ids index labels
  ]
]

-- the entry for a label that no projection has consumed
unfoldable pub plan_label : String → Option LabelProjection → PlanEntry
plan_label name none = record {
  action = unmanaged;
  classification = none;
  label_name = name;
  reason = "label has no canonical projection ownership";
}
plan_label name (some p) =
    entry candidate p name "legacy label is a candidate mapping to a managed projection"

unfoldable pub plan_labels : List String → List String → Dict LabelProjection → List PlanEntry
plan_labels [] used aliases = []
plan_labels (name ∷ names) used aliases =
    let rest = plan_labels names used aliases in
    if contains used name then rest else plan_label name (lookup name aliases) ∷ rest

unfoldable pub build_plan : ProjectionIndex → List GitHubLabel → List PlanEntry
build_plan index inventory =
    let labels = by_name inventory [] in
    let ids = sort (keys_of index.projections) in
    plan_projections ids index labels
    ++ plan_labels (sort (keys_of labels)) (consumed ids index labels)
        (aliases_of (values_of index.projections) [])
