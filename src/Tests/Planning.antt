-- ===== src/Tests/Planning.antt =====
-- Work items, label plans, installation plans, signals and the discovery catalog.
use agent_governance.Base.{
  String, ◌<>◌, ◌≡◌, refl, ◌≢◌, ◌↔◌, ◌⊎◌, inl, true, false, none, some, List, [], ◌∷◌, ok,
  string_eq, length, All, Ensures,
}
use agent_governance.Base.Json.{Json, bool, num, str, arr, obj, to_members, to_items}
use agent_governance.Base.Dict.{lookup}
use agent_governance.WorkItems.Types.{
  one, Dimension, ClassificationValue, ClassificationIndex, LabelProjection, ProjectionIndex,
  GitHubLabel, WorkItemClassification,
}
use agent_governance.WorkItems.Classify.{validate_classification}
use agent_governance.WorkItems.Classify.Laws.{
  in_dimension, Meets, IsKnown, validate_classification_iff, validate_classification-IsKnown,
}
use agent_governance.WorkItems.Plan.{build_plan}
use agent_governance.WorkItems.Plan.Laws.{last_named, IsJustified}
use agent_governance.WorkItems.Plan.Complete.{Has, IsEntryOf, IsNamed, build_plan-IsComplete}
use agent_governance.Base.Dict.{lookup}
use agent_governance.Contracts.Types.{status, current, sigint, sigterm, planning}
use agent_governance.Contracts.Planner.{PlanInput, PlannedResource, plan_installation}
use agent_governance.Contracts.Planner.Laws.{IsSafe, IsPlanned, plan_installation_iff}
use agent_governance.Contracts.Signals.{
  disposing, signal, new, start, latch, deliver, apply, apply_all, checkpoint, apply_all-latched,
}
use agent_governance.Discovery.Types.{Catalog, Contract}
use agent_governance.Discovery.Parse.{parse_discovery_catalog}
use agent_governance.Discovery.Laws.{IsCatalog, parse_discovery_catalog-IsCatalog}

abbrev kind : Dimension
kind = record { id = "kind"; label = "Kind"; cardinality = one; description = "what it is" }

abbrev defect : ClassificationValue
defect = record {
  id = "kind.bug";
  dimension = "kind";
  value = "bug";
  label = "Bug";
  description = "a defect";
}

abbrev index : ClassificationIndex
index = record {
  dimensions = ("kind", kind) ∷ [];
  classifications = ("kind.bug", defect) ∷ [];
  values_by_dimension = ("kind", ("bug", defect) ∷ []) ∷ [];
}

ids_accepted : All (IsKnown index) ("kind.bug" ∷ [])
unfolding lookup string_eq
ids_accepted = ((λ e. cc), tt)

validate_classification_iff_example :
    (r : WorkItemClassification) × (validate_classification index ("kind.bug" ∷ []) ≡ ok r)
    × ((r.violations ≡ [])
        ↔ All
            (λ d. Meets d.1.cardinality (length (in_dimension index d.0 ("kind.bug" ∷ []))))
            index.dimensions)
validate_classification_iff_example =
    validate_classification_iff index ("kind.bug" ∷ []) ids_accepted

validate_classification-IsKnown_example : All (IsKnown index) ("kind.bug" ∷ [])
validate_classification-IsKnown_example =
    validate_classification-IsKnown index ("kind.bug" ∷ [])
      (validate_classification_iff index ("kind.bug" ∷ []) ids_accepted).1

abbrev projected : LabelProjection
projected = record {
  id = "bug";
  classification = "kind.bug";
  name = "type: bug";
  description = "a defect";
  color = "ff0000";
  aliases = "bug" ∷ [];
}

abbrev projections : ProjectionIndex
projections = record { projections = ("bug", projected) ∷ []; title_markers = [] }

abbrev inventory : List GitHubLabel
inventory =
    record { name = "type: bug"; color = "00ff00"; description = "a defect"; managed = none }
    ∷ record { name = "bug"; color = "ff0000"; description = "a defect"; managed = none }
    ∷ []

build_plan-IsComplete_example :
    All
      (λ e. IsJustified projections (last_named e.label_name none inventory) e)
      (build_plan projections inventory)
    × ((id : String) (p : LabelProjection)
        → lookup id projections.projections ≡ some p
        → Has (IsEntryOf p) (build_plan projections inventory))
    × ((name : String) (l : GitHubLabel)
        → last_named name none inventory ≡ some l
        → Has (IsNamed name) (build_plan projections inventory))
build_plan-IsComplete_example = build_plan-IsComplete projections inventory

abbrev join : List String → String
join [] = ""
join (s ∷ ss) = "/" <> s <> join ss

abbrev input : PlanInput
input = record {
  command = status;
  state = current;
  entry_path = "/home/AGENTS.md";
  installation_root = "home";
  version = "1.0.0";
  local_rules_operation = none;
  local_rules_path = none;
  binding_id = none;
}

plan_installation_iff_example :
    (((resources : List PlannedResource) × (plan_installation join input ≡ ok resources))
      ↔ (IsSafe current × ((input.local_rules_operation ≡ none) ⊎ (input.local_rules_path ≢ none))))
    × ((resources : List PlannedResource)
        → plan_installation join input ≡ ok resources
        → IsPlanned input none resources)
plan_installation_iff_example = plan_installation_iff join input

latched : (apply_all (signal sigint ∷ []) (start new)).interrupted_by ≡ some sigint
unfolding apply_all apply deliver latch start new
latched = refl

apply_all-latched_example :
    checkpoint planning
      (apply_all (signal sigterm ∷ disposing ∷ []) (apply_all (signal sigint ∷ []) (start new)))
    ≡ some (sigint, planning)
apply_all-latched_example =
    apply_all-latched (signal sigterm ∷ disposing ∷ []) (apply_all (signal sigint ∷ []) (start new))
      sigint latched planning

abbrev vocabulary : Contract
vocabulary = record {
  top_level_fields =
      "schema_version" ∷ "limits" ∷ "confidence" ∷ "candidate_classes" ∷ "evidence_families"
      ∷ "signals" ∷ [];
  limit_fields =
      "max_depth" ∷ "max_files" ∷ "max_entries" ∷ "max_file_bytes" ∷ "max_sqlite_objects"
      ∷ "max_sqlite_columns" ∷ "max_duration_ms" ∷ "max_metadata_length" ∷ [];
  confidence_fields =
      "high_minimum_score" ∷ "high_minimum_families" ∷ "high_minimum_independent_sources"
      ∷ "high_requires_runtime" ∷ "uncertain_minimum_score" ∷ [];
  candidate_fields = "class" ∷ "label" ∷ [];
  family_fields = "default_strength" ∷ "weight" ∷ [];
  signal_fields = "id" ∷ "family" ∷ "source_kinds" ∷ "keys" ∷ "minimum_matches" ∷ "strength" ∷ [];
  candidate_classes = ("directory", "DIRECTORY") ∷ [];
  evidence_families = "runtime" ∷ [];
  strengths = "strong" ∷ [];
  source_kinds = "json" ∷ [];
}

abbrev limits : Json
limits = obj (
    to_members (
      ("max_depth", num 3)
      ∷ ("max_files", num 9)
      ∷ ("max_entries", num 9)
      ∷ ("max_file_bytes", num 9)
      ∷ ("max_sqlite_objects", num 9)
      ∷ ("max_sqlite_columns", num 9)
      ∷ ("max_duration_ms", num 9)
      ∷ ("max_metadata_length", num 9)
      ∷ []))

abbrev confidence : Json
confidence = obj (
    to_members (
      ("high_minimum_score", num 5)
      ∷ ("high_minimum_families", num 1)
      ∷ ("high_minimum_independent_sources", num 1)
      ∷ ("high_requires_runtime", bool true)
      ∷ ("uncertain_minimum_score", num 2)
      ∷ []))

abbrev rule : Json
rule = obj (
    to_members (
      ("id", str "session")
      ∷ ("family", str "runtime")
      ∷ ("source_kinds", arr (to_items (str "json" ∷ [])))
      ∷ ("keys", arr (to_items (str "session_id" ∷ [])))
      ∷ ("minimum_matches", num 1)
      ∷ ("strength", str "strong")
      ∷ []))

abbrev catalog : Json
catalog = obj (
    to_members (
      ("schema_version", num 1)
      ∷ ("limits", limits)
      ∷ ("confidence", confidence)
      ∷ (
        "candidate_classes",
        obj (
            to_members (
              (
                "directory",
                obj (to_members (("class", str "DIRECTORY") ∷ ("label", str "Directory") ∷ [])),
              )
              ∷ [])),
      )
      ∷ (
        "evidence_families",
        obj (
            to_members (
              (
                "runtime",
                obj (to_members (("default_strength", str "strong") ∷ ("weight", num 3) ∷ [])),
              )
              ∷ [])),
      )
      ∷ ("signals", arr (to_items (rule ∷ [])))
      ∷ []))

abbrev parsed : Catalog
parsed = record {
  limits = record {
    max_depth = 3;
    max_files = 9;
    max_entries = 9;
    max_file_bytes = 9;
    max_sqlite_objects = 9;
    max_sqlite_columns = 9;
    max_duration_ms = 9;
    max_metadata_length = 9;
  };
  confidence = record {
    high_minimum_score = 5;
    high_minimum_families = 1;
    high_minimum_independent_sources = 1;
    high_requires_runtime = true;
    uncertain_minimum_score = 2;
  };
  candidate_classes = record { id = "directory"; class = "DIRECTORY"; label = "Directory" } ∷ [];
  evidence_families = record { id = "runtime"; default_strength = "strong"; weight = 3 } ∷ [];
  signals =
      record {
        id = "session";
        family = "runtime";
        source_kinds = "json" ∷ [];
        keys = "session_id" ∷ [];
        minimum_matches = 1;
        strength = "strong";
      }
      ∷ [];
}

text_accepted : parse_discovery_catalog vocabulary (λ content. ok catalog) "catalog" ≡ ok parsed
unfolding parse_discovery_catalog agent_governance.Discovery.Fields.table_of
    agent_governance.Discovery.Fields.exact_fields
    agent_governance.Discovery.Fields.positive_integer
    agent_governance.Discovery.Fields.nonempty_text agent_governance.Discovery.Fields.id_text
    agent_governance.Discovery.Fields.enum_value
    agent_governance.Discovery.Fields.unique_string_array
    agent_governance.Discovery.Parse.parse_limits agent_governance.Discovery.Parse.parse_confidence
    agent_governance.Discovery.Parse.parse_candidate_class
    agent_governance.Discovery.Parse.parse_candidate_classes
    agent_governance.Discovery.Parse.parse_family agent_governance.Discovery.Parse.parse_families
    agent_governance.Discovery.Parse.parse_signal agent_governance.Discovery.Parse.parse_signal_list
    agent_governance.Discovery.Parse.parse_signals agent_governance.Discovery.Parse.catalog_of
    string_eq agent_governance.Base.nat_eq agent_governance.Base.Json.get
    agent_governance.Base.Text.is_blank agent_governance.Toml.is_id
    agent_governance.Toml.has_duplicates agent_governance.Base.Regex.matches
    agent_governance.Base.Regex.run
text_accepted = refl

parse_discovery_catalog-IsCatalog_example : IsCatalog parsed
parse_discovery_catalog-IsCatalog_example =
    parse_discovery_catalog-IsCatalog vocabulary (λ content. ok catalog) "catalog" text_accepted
