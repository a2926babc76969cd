-- ===== src/Governance/Routing.antt =====
-- src/routing-catalog.ts: the vocabularies of the routing and the catalog of tools. The parser of closed
-- TOML and the field names of the contract are parameters.
pub mod Found
pub mod Sets
pub mod Laws
use agent_governance.Base.{
  ℕ, String, ◌<>◌, Bool, true, false, not, Option, none, some, List, [], ◌∷◌, ◌++◌, string_eq,
  nat_eq, ◌==◌, if◌then◌else◌, contains, length, Result, ok, err, ◌>>=◌, ◌>>◌, reject_if,
}
use agent_governance.Base.Json.{Json, num, Members, entries, keys, get}
use agent_governance.Toml.{exact, table, text, is_id, id_list}
use agent_governance.Governance.Dependencies.{known}

pub record Fields : Type 0 where
  pub vocabulary_fields : List String
  pub tool_fields : List String

pub record RoutingCatalogs : Type 0 where
  pub triggers : List String
  pub policy_tags : List String
  pub scopes : List String
  pub required_tool_triggers : List String

pub record Texts : Type 0 where
  pub triggers : String
  pub policy_tags : String
  pub scopes : String
  pub tools : String

abbrev pub is_version_one : Option Json → Bool
is_version_one (some (num n)) = n == 1
is_version_one _ = false

unfoldable pub check_vocabulary_entry : Fields → String → String × Json → Result (Unit {0})
check_vocabulary_entry fields name (id, raw) = do
  reject_if (not (is_id id)) (name <> " contains an invalid ID")
  entry ← table (some raw) (name <> "." <> id)
  exact entry fields.vocabulary_fields (name <> "." <> id)
  label ← text (get "label" entry) (name <> "." <> id <> ".label")
  description ← text (get "description" entry) (name <> "." <> id <> ".description")
  ok tt

unfoldable pub check_vocabulary : Fields → String → List (String × Json) → Result (Unit {0})
unfolding check_vocabulary_entry
check_vocabulary fields name [] = ok tt
check_vocabulary fields name (entry ∷ rest) =
    check_vocabulary_entry fields name entry >> check_vocabulary fields name rest

unfoldable pub validate_vocabulary : Fields → Members → String → Result (List String)
unfolding check_vocabulary
validate_vocabulary fields catalog name = do
  exact catalog ("schema_version" ∷ name ∷ []) (name <> " catalog")
  reject_if (not (is_version_one (get "schema_version" catalog)))
      (name <> " catalog schema is invalid")
  found ← table (get name catalog) (name <> " entries")
  reject_if (length (keys found) == 0) (name <> " catalog is empty")
  check_vocabulary fields name (entries found)
  ok (keys found)

-- `Set.add`, for each value
unfoldable pub add_all : List String → List String → List String
add_all [] set = set
add_all (value ∷ values) set =
    let kept = add_all values set in
    let grown = add_all values (set ++ value ∷ []) in if contains set value then kept else grown

unfoldable pub check_texts : Members → String → List String → Result (Unit {0})
check_texts tool id [] = ok tt
check_texts tool id (field ∷ fields) =
    text (get field tool) ("tools." <> id <> "." <> field) >>= λ value. check_texts tool id fields

-- the references of one tool
pub record References : Type 0 where
  pub required_on : List String
  pub useful_on : List String
  pub policy_tags : List String
  pub scopes : List String

-- the vocabularies that have been read
pub record Vocabularies : Type 0 where
  pub triggers : List String
  pub policy_tags : List String
  pub scopes : List String

-- an array of IDs that are all in the vocabulary
unfoldable pub known_list : Members → String → String → List String → Result (List String)
unfolding known
known_list tool id field vocabulary = do
  values ← id_list (get field tool) ("tools." <> id <> "." <> field) false
  known values vocabulary ("tools." <> id <> "." <> field)
  ok values

unfoldable pub read_tool : Fields → Vocabularies → String × Json → Result References
unfolding check_texts known_list
read_tool fields known (id, raw) = do
  reject_if (not (is_id id)) "tools catalog contains an invalid ID"
  tool ← table (some raw) ("tools." <> id)
  exact tool fields.tool_fields ("tools." <> id)
  check_texts tool id ("name" ∷ "purpose" ∷ "evidence" ∷ "fallback" ∷ "constraints" ∷ [])
  required ← known_list tool id "required_on" known.triggers
  useful ← known_list tool id "useful_on" known.triggers
  tags ← known_list tool id "policy_tags" known.policy_tags
  scopes ← known_list tool id "scopes" known.scopes
  ok (record { required_on = required; useful_on = useful; policy_tags = tags; scopes = scopes })

unfoldable pub read_tools :
    Fields → Vocabularies → List (String × Json) → List String → Result (List String)
unfolding read_tool add_all
read_tools fields known [] required = ok required
read_tools fields known (entry ∷ rest) required = read_tool fields known entry >>= λ tool.
    read_tools fields known rest (add_all tool.required_on required)

unfoldable pub parse_routing_catalogs :
    Fields → (String → String → Result Members) → Texts → Result RoutingCatalogs
unfolding validate_vocabulary read_tools
parse_routing_catalogs fields parse texts = do
  trigger_catalog ← parse texts.triggers "triggers catalog"
  triggers ← validate_vocabulary fields trigger_catalog "triggers"
  tag_catalog ← parse texts.policy_tags "policy tags catalog"
  tags ← validate_vocabulary fields tag_catalog "policy_tags"
  scope_catalog ← parse texts.scopes "scopes catalog"
  scopes ← validate_vocabulary fields scope_catalog "scopes"
  tool_catalog ← parse texts.tools "tools catalog"
  exact tool_catalog ("schema_version" ∷ "tools" ∷ []) "tools catalog"
  reject_if (not (is_version_one (get "schema_version" tool_catalog)))
      "tools catalog schema is invalid"
  tools ← table (get "tools" tool_catalog) "tools entries"
  reject_if (length (keys tools) == 0) "tools catalog is empty"
  required ←
      read_tools fields (record { triggers = triggers; policy_tags = tags; scopes = scopes })
        (entries tools) ("tool_selection" ∷ [])
  ok (record {
    triggers = triggers;
    policy_tags = tags;
    scopes = scopes;
    required_tool_triggers = required;
  })
