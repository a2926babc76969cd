-- ===== src/Discovery/Types.antt =====
-- The catalog of src/discovery-catalog.ts, and the names that it reads from the governance contract.
use agent_governance.Base.{ℕ, String, Bool, List, string_eq}

pub record Limits : Type 0 where
  pub max_depth : ℕ
  pub max_files : ℕ
  pub max_entries : ℕ
  pub max_file_bytes : ℕ
  pub max_sqlite_objects : ℕ
  pub max_sqlite_columns : ℕ
  pub max_duration_ms : ℕ
  pub max_metadata_length : ℕ

pub record Confidence : Type 0 where
  pub high_minimum_score : ℕ
  pub high_minimum_families : ℕ
  pub high_minimum_independent_sources : ℕ
  pub high_requires_runtime : Bool
  pub uncertain_minimum_score : ℕ

pub record CandidateClass : Type 0 where
  pub id : String
  pub class : String
  pub label : String

pub record Family : Type 0 where
  pub id : String
  pub default_strength : String
  pub weight : ℕ

pub record SignalRule : Type 0 where
  pub id : String
  pub family : String
  pub source_kinds : List String
  pub keys : List String
  pub minimum_matches : ℕ
  pub strength : String

pub record Catalog : Type 0 where
  pub limits : Limits
  pub confidence : Confidence
  pub candidate_classes : List CandidateClass
  pub evidence_families : List Family
  pub signals : List SignalRule

-- the names that `governanceContract` holds; the entries of `discoveryCandidateClasses` are pairs
pub record Contract : Type 0 where
  pub top_level_fields : List String
  pub limit_fields : List String
  pub confidence_fields : List String
  pub candidate_fields : List String
  pub family_fields : List String
  pub signal_fields : List String
  pub candidate_classes : List (String × String)
  pub evidence_families : List String
  pub strengths : List String
  pub source_kinds : List String
