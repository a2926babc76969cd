-- ===== src/WorkItems/Classify.antt =====
-- `resolveClassification`, `validateWorkItemClassification` and `detectProjectionDrift` of
-- src/work-items.ts.
pub mod Laws
use agent_governance.Base.{
  ℕ, suc, String, ◌<>◌, Bool, true, false, not, ◌||◌, ◌&&◌, Option, none, some, List, [], ◌∷◌, ◌++◌,
  ◌==◌, string_eq, if◌then◌else◌, contains, ltb, keep, length, nat_eq, Result, ok, err, ◌>>=◌, ◌>>◌,
}
use agent_governance.Base.Dict.{Dict, lookup, insert, has, keys_of}
use agent_governance.Base.Text.{sort}
use agent_governance.WorkItems.Types.{
  Cardinality, one, many, at_most_one, zero_or_more, Dimension, ClassificationValue,
  ClassificationIndex, Violation, WorkItemClassification, Drift,
}
use agent_governance.WorkItems.Catalog.{fail}

unfoldable pub resolve_classification : ClassificationIndex → String → Result ClassificationValue
resolve_classification index id = elim (lookup id index.classifications) [
  | none ↦ fail ("unknown classification ID: " <> id)
  | some value ↦ ok value
]

-- `perDimension.get(dimension) ?? []`
abbrev pub bucket_of : String → Dict (List String) → List String
bucket_of d m = elim (lookup d m) [ none ↦ [] | some ids ↦ ids ]

-- the first loop: `resolved` and `perDimension`
unfoldable pub collect :
    ClassificationIndex
    → List String
    → List String
    → Dict (List String)
    → Result (List String × Dict (List String))
collect index [] resolved buckets = ok (resolved, buckets)
collect index (id ∷ rest) resolved buckets = do
  value ← resolve_classification index id
  collect index rest (resolved ++ (value.id ∷ []))
      (insert value.dimension (bucket_of value.dimension buckets ++ (value.id ∷ [])) buckets)

abbrev at_most : Cardinality → Bool
at_most one = true
at_most at_most_one = true
at_most _ = false

abbrev at_least : Cardinality → Bool
at_least one = true
at_least many = true
at_least _ = false

-- what one round of the second loop pushes
unfoldable pub violations_of : String → Dimension → List String → List Violation
violations_of id d values =
    (if ltb 1 (length values) && at_most d.cardinality
      then record { dimension = id; cardinality = d.cardinality; values = values } ∷ []
      else [])
    ++ (if length values == 0 && at_least d.cardinality
        then record { dimension = id; cardinality = d.cardinality; values = [] } ∷ []
        else [])

unfoldable pub violations : Dict Dimension → Dict (List String) → List Violation
violations [] buckets = []
violations ((id, d) ∷ rest) buckets =
    violations_of id d (bucket_of id buckets) ++ violations rest buckets

unfoldable pub validate_classification :
    ClassificationIndex → List String → Result WorkItemClassification
validate_classification index ids = do
  collected ← collect index ids [] []
  ok (record { ids = collected.0; violations = violations index.dimensions collected.1 })

-- `collect` of `detectProjectionDrift`: a set of ids for each dimension
unfoldable pub collect_sets :
    ClassificationIndex → List String → Dict (List String) → Result (Dict (List String))
collect_sets index [] buckets = ok buckets
collect_sets index (id ∷ rest) buckets = do
  value ← resolve_classification index id
  let bucket = bucket_of value.dimension buckets
  collect_sets index rest (
      insert value.dimension
        (if contains bucket value.id then bucket else bucket ++ (value.id ∷ [])) buckets)

abbrev pub missing_from : List String → List String → List String
missing_from other = keep (λ v. not (contains other v))

-- what one round of its loop pushes
unfoldable pub drift_of : String → Option (List String) → Option (List String) → List Drift
drift_of id none right = []
drift_of id (some l) none = []
drift_of id (some l) (some r) = elim (sort (missing_from r l) ++ sort (missing_from l r)) [
  | [] ↦ []
  | v ∷ vs ↦ record { dimension = id; values = v ∷ vs } ∷ []
]

unfoldable pub drifts : List String → Dict (List String) → Dict (List String) → List Drift
drifts [] left right = []
drifts (id ∷ ids) left right =
    drift_of id (lookup id left) (lookup id right) ++ drifts ids left right

unfoldable pub detect_drift : ClassificationIndex → List String → List String → Result (List Drift)
detect_drift index a b = do
  left ← collect_sets index a []
  right ← collect_sets index b []
  ok (drifts (sort (keys_of index.dimensions)) left right)
