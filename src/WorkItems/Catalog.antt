-- ===== src/WorkItems/Catalog.antt =====
-- `parseClassificationsText` of src/work-items.ts, on the parsed table. `is_num 1` stands for
-- `schema_version === 1`.
use agent_governance.Base.{
  String, ◌<>◌, Bool, true, false, not, Option, some, List, [], ◌∷◌, ◌==◌, string_eq, nat_eq,
  if◌then◌else◌, Result, ok, err, ◌>>=◌, ◌>>◌, reject_if,
}
use agent_governance.Base.Dict.{Dict, insert, has, keys_of}
use agent_governance.Base.Json.{Json, str, num, Members, entries, get}
use agent_governance.Toml.{exact, table, text, is_id}
use agent_governance.WorkItems.Types.{
  Cardinality, one, many, at_most_one, zero_or_more, Dimension, ClassificationValue,
  ClassificationIndex, Contract,
}

abbrev pub fail {ℓ} : {A : Type ℓ} → String → Result A
fail message = err ("work-item classification is invalid: " <> message)

-- `isCardinality`, with the member that is found
unfoldable pub cardinality_of : Option Json → String → Result Cardinality
cardinality_of (some (str s)) label =
    if s == "one"
    then ok one
    else if s == "many"
    then ok many
    else if s == "at_most_one"
    then ok at_most_one
    else if s == "zero_or_more"
    then ok zero_or_more
    else fail (label <> ".cardinality is unknown")
cardinality_of _ label = fail (label <> ".cardinality is unknown")

abbrev pub is_version_one : Option Json → Bool
is_version_one (some (num n)) = n == 1
is_version_one _ = false

abbrev pub no_entry {ℓ} : {A : Type ℓ} → List A → Bool
no_entry [] = true
no_entry (_ ∷ _) = false

-- the last loop
unfoldable pub check_covered : List String → Dict (Dict ClassificationValue) → Result (Unit {0})
check_covered [] buckets = ok tt
check_covered (id ∷ rest) buckets = do
  reject_if (not (has id buckets))
      ("work-item classification is invalid: dimension has no classification values: " <> id)
  check_covered rest buckets

module _ (contract : Contract) where
  unfoldable pub read_dimension : String → Json → Result Dimension
  read_dimension id raw = do
    reject_if (not (is_id id)) ("work-item classification is invalid: invalid dimension ID: " <> id)
    entry ← table (some raw) ("dimensions." <> id)
    exact entry contract.dimension ("dimensions." <> id)
    cardinality ← cardinality_of (get "cardinality" entry) ("dimensions." <> id)
    label ← text (get "label" entry) ("dimensions." <> id <> ".label")
    description ← text (get "description" entry) ("dimensions." <> id <> ".description")
    ok (record { id = id; label = label; cardinality = cardinality; description = description })

  -- the first loop
  unfoldable pub read_dimensions : List (String × Json) → Dict Dimension → Result (Dict Dimension)
  read_dimensions [] found = ok found
  read_dimensions ((id, raw) ∷ rest) found = do
    d ← read_dimension id raw
    read_dimensions rest (insert id d found)

  unfoldable pub read_value : String → String → Json → Result ClassificationValue
  read_value dimension value raw = do
    reject_if (not (is_id value))
        ("work-item classification is invalid: invalid classification value: " <> value)
    entry ← table (some raw) ("classifications." <> dimension <> "." <> value)
    exact entry contract.classification ("classifications." <> dimension <> "." <> value)
    let id = dimension <> "." <> value
    label ← text (get "label" entry) (id <> ".label")
    description ← text (get "description" entry) (id <> ".description")
    ok (record {
      id = id;
      dimension = dimension;
      value = value;
      label = label;
      description = description;
    })

  -- the innermost loop: the values of one dimension, into `classifications` and into its bucket
  unfoldable pub read_values :
      String
      → List (String × Json)
      → Dict ClassificationValue
      → Dict ClassificationValue
      → Result (Dict ClassificationValue × Dict ClassificationValue)
  read_values dimension [] found bucket = ok (found, bucket)
  read_values dimension ((value, raw) ∷ rest) found bucket = do
    v ← read_value dimension value raw
    reject_if (has v.id found)
        ("work-item classification is invalid: duplicate classification ID: " <> v.id)
    read_values dimension rest (insert v.id v found) (insert value v bucket)

  unfoldable pub read_classifications :
      Dict Dimension
      → List (String × Json)
      → Dict ClassificationValue
      → Dict (Dict ClassificationValue)
      → Result (Dict ClassificationValue × Dict (Dict ClassificationValue))
  read_classifications dimensions [] found buckets = ok (found, buckets)
  read_classifications dimensions ((id, raw) ∷ rest) found buckets = do
    reject_if (not (is_id id)) ("work-item classification is invalid: invalid dimension ID: " <> id)
    reject_if (not (has id dimensions)) (
        "work-item classification is invalid: unknown dimension referenced by classifications: "
        <> id)
    values ← table (some raw) ("classifications." <> id)
    reject_if (no_entry (entries values))
        ("work-item classification is invalid: classifications." <> id <> " must not be empty")
    read ← read_values id (entries values) found []
    read_classifications dimensions rest read.0 (insert id read.1 buckets)

  unfoldable pub parse_classifications : Members → Result ClassificationIndex
  parse_classifications root = do
    exact root contract.classifications_top_level "classifications catalog"
    reject_if (not (is_version_one (get "schema_version" root)))
        "work-item classification is invalid: classifications schema must be 1"
    raw_dimensions ← table (get "dimensions" root) "classifications dimensions"
    reject_if (no_entry (entries raw_dimensions))
        "work-item classification is invalid: classifications dimensions must not be empty"
    dimensions ← read_dimensions (entries raw_dimensions) []
    raw_classifications ← table (get "classifications" root) "classifications values"
    reject_if (no_entry (entries raw_classifications))
        "work-item classification is invalid: classifications values must not be empty"
    read ← read_classifications dimensions (entries raw_classifications) [] []
    check_covered (keys_of dimensions) read.1
    ok (record { dimensions = dimensions; classifications = read.0; values_by_dimension = read.1 })
