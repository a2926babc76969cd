-- ===== src/Discovery/Parse.antt =====
-- `parseDiscoveryCatalogText` of src/discovery-catalog.ts. The TOML parser is a parameter.
use agent_governance.Base.{
  String, ◌<>◌, Bool, false, not, ◌&&◌, Option, some, List, [], ◌∷◌, ◌==◌, string_eq, contains, leb,
  ltb, length, Result, ok, err, ◌>>=◌, ◌>>◌, reject_if, traverse,
}
use agent_governance.Base.Json.{Json, bool, num, str, arr, Members, items, keys, get}
use agent_governance.Discovery.Types.{
  Limits, Confidence, CandidateClass, Family, SignalRule, Catalog, Contract,
}
use agent_governance.Discovery.Fields.{
  table_of, exact_fields, positive_integer, nonempty_text, id_text, enum_value, nonempty,
  unique_string_array,
}

abbrev firsts : List (String × String) → List String
firsts [] = []
firsts ((a, b) ∷ ps) = a ∷ firsts ps

abbrev seconds : List (String × String) → List String
seconds [] = []
seconds ((a, b) ∷ ps) = b ∷ seconds ps

module _ (contract : Contract) where
  unfoldable pub parse_limits : Option Json → Result Limits
  parse_limits raw = do
    m ← table_of raw "discovery limits"
    exact_fields m contract.limit_fields "discovery limits"
    max_depth ← positive_integer (get "max_depth" m) "max_depth"
    max_files ← positive_integer (get "max_files" m) "max_files"
    max_entries ← positive_integer (get "max_entries" m) "max_entries"
    max_file_bytes ← positive_integer (get "max_file_bytes" m) "max_file_bytes"
    max_sqlite_objects ← positive_integer (get "max_sqlite_objects" m) "max_sqlite_objects"
    max_sqlite_columns ← positive_integer (get "max_sqlite_columns" m) "max_sqlite_columns"
    max_duration_ms ← positive_integer (get "max_duration_ms" m) "max_duration_ms"
    max_metadata_length ← positive_integer (get "max_metadata_length" m) "max_metadata_length"
    ok (record {
      max_depth = max_depth;
      max_files = max_files;
      max_entries = max_entries;
      max_file_bytes = max_file_bytes;
      max_sqlite_objects = max_sqlite_objects;
      max_sqlite_columns = max_sqlite_columns;
      max_duration_ms = max_duration_ms;
      max_metadata_length = max_metadata_length;
    })

  unfoldable pub boolean_of : Option Json → Result Bool
  boolean_of (some (bool b)) = ok b
  boolean_of _ = err "high_requires_runtime must be boolean"

  unfoldable pub parse_confidence : Option Json → Result Confidence
  unfolding boolean_of
  parse_confidence raw = do
    m ← table_of raw "discovery confidence"
    exact_fields m contract.confidence_fields "discovery confidence"
    runtime ← boolean_of (get "high_requires_runtime" m)
    score ← positive_integer (get "high_minimum_score" m) "high_minimum_score"
    families ← positive_integer (get "high_minimum_families" m) "high_minimum_families"
    sources ←
        positive_integer (get "high_minimum_independent_sources" m)
          "high_minimum_independent_sources"
    uncertain ← positive_integer (get "uncertain_minimum_score" m) "uncertain_minimum_score"
    reject_if (leb score uncertain) "uncertain_minimum_score must be less than high_minimum_score"
    ok (record {
      high_minimum_score = score;
      high_minimum_families = families;
      high_minimum_independent_sources = sources;
      high_requires_runtime = runtime;
      uncertain_minimum_score = uncertain;
    })

  unfoldable pub parse_candidate_class :
      Members → List String → String × String → Result CandidateClass
  parse_candidate_class m allowed (id, class) = do
    entry ← table_of (get id m) ("candidate class " <> id)
    exact_fields entry contract.candidate_fields ("candidate class " <> id)
    found ← enum_value (get "class" entry) allowed ("candidate class " <> id <> ".class")
    reject_if (not (found == class)) ("candidate class " <> id <> " semantics are invalid")
    label ← nonempty_text (get "label" entry) ("candidate class " <> id <> ".label")
    ok (record { id = id; class = found; label = label })

  unfoldable pub parse_candidate_classes : Option Json → Result (List CandidateClass)
  parse_candidate_classes raw = do
    m ← table_of raw "candidate classes"
    exact_fields m (firsts contract.candidate_classes) "candidate classes"
    traverse (parse_candidate_class m (seconds contract.candidate_classes))
        contract.candidate_classes

  unfoldable pub parse_family : Members → String → Result Family
  parse_family m family = do
    entry ← table_of (get family m) ("evidence family " <> family)
    exact_fields entry contract.family_fields ("evidence family " <> family)
    strength ←
        enum_value (get "default_strength" entry) contract.strengths
          ("evidence family " <> family <> ".default_strength")
    weight ← positive_integer (get "weight" entry) ("evidence family " <> family <> ".weight")
    ok (record { id = family; default_strength = strength; weight = weight })

  unfoldable pub parse_families : Option Json → Result (List Family)
  parse_families raw = do
    m ← table_of raw "evidence families"
    exact_fields m contract.evidence_families "evidence families"
    traverse (parse_family m) contract.evidence_families

  -- one signal; `seen` are the ids of those before it
  unfoldable pub parse_signal : List String → Json → Result SignalRule
  parse_signal seen v = do
    m ← table_of (some v) "discovery signal"
    exact_fields m contract.signal_fields "discovery signal"
    id ← id_text (get "id" m) "discovery signal.id"
    reject_if (contains seen id) "discovery signals contain duplicate IDs"
    family ←
        enum_value (get "family" m) contract.evidence_families
          ("discovery signal " <> id <> ".family")
    kinds ←
        unique_string_array (get "source_kinds" m) ("discovery signal " <> id <> ".source_kinds")
    source_kinds ←
        traverse
          (λ s.
            enum_value (some (str s)) contract.source_kinds
              ("discovery signal " <> id <> ".source_kinds"))
          kinds
    names ← unique_string_array (get "keys" m) ("discovery signal " <> id <> ".keys")
    keys ← traverse (λ s. id_text (some (str s)) ("discovery signal " <> id <> ".keys")) names
    minimum ←
        positive_integer (get "minimum_matches" m) ("discovery signal " <> id <> ".minimum_matches")
    reject_if (ltb (length keys) minimum)
        ("discovery signal " <> id <> ".minimum_matches exceeds keys")
    strength ←
        enum_value (get "strength" m) contract.strengths ("discovery signal " <> id <> ".strength")
    ok (record {
      id = id;
      family = family;
      source_kinds = source_kinds;
      keys = keys;
      minimum_matches = minimum;
      strength = strength;
    })

  unfoldable pub parse_signal_list : List String → List Json → Result (List SignalRule)
  parse_signal_list seen [] = ok []
  parse_signal_list seen (v ∷ vs) = do
    s ← parse_signal seen v
    ss ← parse_signal_list (s.id ∷ seen) vs
    ok (s ∷ ss)

  unfoldable pub parse_signals : Option Json → Result (List SignalRule)
  parse_signals (some (arr vs)) = do
    reject_if (not (nonempty (items vs))) "discovery signals must be a nonempty array"
    parse_signal_list [] (items vs)
  parse_signals _ = err "discovery signals must be a nonempty array"

  unfoldable pub is_one : Option Json → Bool
  is_one (some (num n)) = leb 1 n && leb n 1
  is_one _ = false

  unfoldable pub catalog_of : Members → Result Catalog
  unfolding is_one
  catalog_of m = do
    exact_fields m contract.top_level_fields "discovery catalog"
    reject_if (not (is_one (get "schema_version" m)))
        "discovery catalog schema_version must be integer 1"
    families ← parse_families (get "evidence_families" m)
    limits ← parse_limits (get "limits" m)
    confidence ← parse_confidence (get "confidence" m)
    classes ← parse_candidate_classes (get "candidate_classes" m)
    signals ← parse_signals (get "signals" m)
    ok (record {
      limits = limits;
      confidence = confidence;
      candidate_classes = classes;
      evidence_families = families;
      signals = signals;
    })

  module _ (parse : String → Result Json) where
    unfoldable pub catalog_table : Result Json → Result Members
    catalog_table (ok v) = table_of (some v) "discovery catalog"
    catalog_table (err e) = err "discovery catalog is invalid TOML"

    unfoldable pub parse_discovery_catalog : String → Result Catalog
    unfolding catalog_table
    parse_discovery_catalog content = do m ← catalog_table (parse content); catalog_of m
