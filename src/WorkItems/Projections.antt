-- ===== src/WorkItems/Projections.antt =====
-- `parseProjectionsText` of src/work-items.ts, on the parsed table.
use agent_governance.Base.{
  ℕ, String, ◌<>◌, Bool, not, ◌||◌, ◌&&◌, Option, some, List, [], ◌∷◌, ◌==◌, string_eq, nat_eq,
  if◌then◌else◌, contains, any, all, length, Result, ok, ◌>>=◌, ◌>>◌, reject_if, traverse,
}
use agent_governance.Base.Dict.{Dict, insert, has}
use agent_governance.Base.Json.{Json, str, arr, Members, items, entries, get}
use agent_governance.Base.Text.{units, is_blank}
use agent_governance.Base.Regex.{
  Re, one, seq, star, matches, id_pattern, is_upper, is_digit, in_range,
}
use agent_governance.Toml.{exact, table, text, is_id, has_duplicates}
use agent_governance.WorkItems.Types.{
  ClassificationIndex, Contract, LabelProjection, TitleMarker, ProjectionIndex,
}
use agent_governance.WorkItems.Catalog.{fail, is_version_one, no_entry}

-- `readClassificationReference`
abbrev reference_pattern : Re
reference_pattern = seq id_pattern (seq (one (λ c. c == b'.')) id_pattern)

unfoldable pub read_reference : Option Json → String → Result String
read_reference (some (str s)) label =
    if matches reference_pattern s
    then ok s
    else fail (label <> " is not a valid classification reference")
read_reference _ label = fail (label <> " is not a valid classification reference")

-- `/[\x00\x1b\r\n]/`
abbrev is_line_control : ℕ → Bool
is_line_control c = c == 0 || c == 0x1b || c == 13 || c == 10

unfoldable pub read_alias : String → Json → Result String
read_alias label (str s) =
    if is_blank s || any is_line_control (units s)
    then fail (label <> " contains an invalid alias")
    else ok s
read_alias label _ = fail (label <> " contains an invalid alias")

unfoldable pub read_aliases : Option Json → String → Result (List String)
read_aliases (some (arr vs)) label = do
  result ← traverse (read_alias label) (items vs)
  reject_if (has_duplicates result)
      ("work-item classification is invalid: " <> label <> " contains duplicate aliases")
  ok result
read_aliases _ label = fail (label <> " must be an array")

-- `COLOR_PATTERN`
unfoldable pub is_color : String → Bool
is_color s =
    length (units s) == 6
    && all (λ c. is_digit c || in_range b'A' b'F' c || in_range b'a' b'f' c) (units s)

-- `/\[[A-Z][A-Z0-9_-]*\]/`
abbrev pub marker_body : ℕ → Bool
marker_body c = is_upper c || is_digit c || c == b'_' || c == b'-'

abbrev marker_pattern : Re
marker_pattern =
    seq (one (λ c. c == b'['))
      (seq (one is_upper) (seq (star (one marker_body)) (one (λ c. c == b']'))))

unfoldable pub is_marker : String → Bool
is_marker s = matches marker_pattern s

-- the loop over the aliases of one projection
unfoldable pub occupy_aliases : List String → List String → Result (List String)
occupy_aliases [] occupied = ok occupied
occupy_aliases (alias ∷ rest) occupied = do
  reject_if (contains occupied alias) (
      "work-item classification is invalid: projection alias collides with a label name: " <> alias)
  occupy_aliases rest (alias ∷ occupied)

-- what the loop over the projections carries
pub record Reading : Type 0 where
  pub projections : Dict LabelProjection
  pub projected : List String
  pub occupied : List String

module _ (contract : Contract) (index : ClassificationIndex) where
  unfoldable pub read_projection : String → Json → Reading → Result Reading
  read_projection id raw r = do
    reject_if (not (is_id id))
        "work-item classification is invalid: projection id is not a valid ID"
    entry ← table (some raw) ("projections." <> id)
    exact entry contract.projection ("projections." <> id)
    classification ←
        read_reference (get "classification" entry) ("projections." <> id <> ".classification")
    reject_if (not (has classification index.classifications)) (
        "work-item classification is invalid: unknown projection classification: "
        <> classification)
    reject_if (contains r.projected classification) (
        "work-item classification is invalid: duplicate projection for classification: "
        <> classification)
    name ← text (get "name" entry) ("projections." <> id <> ".name")
    reject_if (contains r.occupied name)
        ("work-item classification is invalid: projection collision on label name: " <> name)
    color ← text (get "color" entry) ("projections." <> id <> ".color")
    reject_if (not (is_color color))
        ("work-item classification is invalid: projections." <> id <> ".color is invalid")
    aliases ← read_aliases (get "aliases" entry) ("projections." <> id <> ".aliases")
    occupied ← occupy_aliases aliases (name ∷ r.occupied)
    description ← text (get "description" entry) ("projections." <> id <> ".description")
    let projection : LabelProjection = record {
      id = id;
      classification = classification;
      name = name;
      description = description;
      color = color;
      aliases = aliases;
    }
    ok (record {
      projections = insert id projection r.projections;
      projected = classification ∷ r.projected;
      occupied = occupied;
    })

  unfoldable pub read_projections : List (String × Json) → Reading → Result Reading
  read_projections [] r = ok r
  read_projections ((id, raw) ∷ rest) r = do
    next ← read_projection id raw r
    read_projections rest next

  unfoldable pub read_marker : String → Json → List String → Result TitleMarker
  read_marker id raw taken = do
    reject_if (not (is_id id))
        "work-item classification is invalid: title marker id is not a valid ID"
    entry ← table (some raw) ("title_markers." <> id)
    exact entry contract.title_marker ("title_markers." <> id)
    classification ←
        read_reference (get "classification" entry) ("title_markers." <> id <> ".classification")
    reject_if (not (has classification index.classifications)) (
        "work-item classification is invalid: unknown title marker classification: "
        <> classification)
    marker ← text (get "marker" entry) ("title_markers." <> id <> ".marker")
    reject_if (not (is_marker marker)) (
        "work-item classification is invalid: title_markers." <> id
        <> ".marker is not a recognizable bracket marker")
    reject_if (contains taken marker)
        ("work-item classification is invalid: title marker collision: " <> marker)
    ok (record { id = id; classification = classification; marker = marker })

  unfoldable pub read_markers :
      List (String × Json) → List String → Dict TitleMarker → Result (Dict TitleMarker)
  read_markers [] taken found = ok found
  read_markers ((id, raw) ∷ rest) taken found = do
    m ← read_marker id raw taken
    read_markers rest (m.marker ∷ taken) (insert id m found)

  unfoldable pub parse_projections : Members → Result ProjectionIndex
  parse_projections root = do
    exact root contract.projections_top_level "github labels projection catalog"
    reject_if (not (is_version_one (get "schema_version" root)))
        "work-item classification is invalid: projection schema must be 1"
    raw_projections ← table (get "projections" root) "label projections"
    reject_if (no_entry (entries raw_projections))
        "work-item classification is invalid: label projections must not be empty"
    read ←
        read_projections (entries raw_projections)
          (record { projections = []; projected = []; occupied = [] })
    raw_markers ← table (get "title_markers" root) "title markers"
    markers ← read_markers (entries raw_markers) [] []
    ok (record { projections = read.projections; title_markers = markers })
