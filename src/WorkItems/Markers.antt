-- ===== src/WorkItems/Markers.antt =====
-- `deriveTitleMarkers` and `classifyLabels` of src/work-items.ts.
use agent_governance.Base.{
  String, Option, none, some, List, [], ◌∷◌, ◌++◌, map, string_eq, nat_eq, if◌then◌else◌, contains,
}
use agent_governance.Base.Dict.{Dict, lookup, insert, values_of}
use agent_governance.Base.Text.{sort}
use agent_governance.WorkItems.Types.{LabelProjection, TitleMarker, ProjectionIndex, GitHubLabel}

-- `Set.add`
unfoldable pub add : String → List String → List String
add s set = if contains set s then set else set ++ (s ∷ [])

unfoldable pub derive_markers : List TitleMarker → List String → List String → List String
derive_markers [] ids found = found
derive_markers (m ∷ rest) ids found =
    derive_markers rest ids (if contains ids m.classification then add m.marker found else found)

unfoldable pub derive_title_markers : ProjectionIndex → List String → List String
derive_title_markers index ids = sort (derive_markers (values_of index.title_markers) ids [])

unfoldable pub add_names : List String → String → Dict String → Dict String
add_names [] classification m = m
add_names (name ∷ rest) classification m =
    add_names rest classification (insert name classification m)

-- `byName`: the names and the aliases of every projection
unfoldable pub names_of : List LabelProjection → Dict String → Dict String
names_of [] m = m
names_of (p ∷ rest) m = names_of rest (add_names (p.name ∷ p.aliases) p.classification m)

abbrev pub add_found : Option String → List String → List String
add_found none ids = ids
add_found (some id) ids = add id ids

unfoldable pub classify_each : List String → Dict String → List String → List String
classify_each [] names ids = ids
classify_each (name ∷ rest) names ids = classify_each rest names (add_found (lookup name names) ids)

unfoldable pub classify_labels : ProjectionIndex → List GitHubLabel → List String
classify_labels index labels =
    sort (classify_each (map (λ l. l.name) labels) (names_of (values_of index.projections) []) [])
