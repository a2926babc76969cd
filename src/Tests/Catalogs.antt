-- ===== src/Tests/Catalogs.antt =====
-- A graph of modules and a set of routing catalogs.
use agent_governance.Base.{
  String, ◌≡◌, ◌≢◌, refl, string_eq, nat_eq, list_eq, Result, ok, err, some, List, [], ◌∷◌, ◌==◌,
  if◌then◌else◌, true, map, contains, All,
}
use agent_governance.Base.Json.{
  Json, num, str, arr, obj, Members, entries, get, to_items, to_members,
}
use agent_governance.Base.Regex.{matches}
use agent_governance.Base.Text.{is_blank, same_keys}
use agent_governance.Toml.{exact, table, text, is_id, id_list, id_item, has_duplicates}
use agent_governance.Governance.Dependencies.{
  Graph, exhausted, walk, check_known, check_dependencies,
}
use agent_governance.Governance.Dependencies.Order.{IsOrdered, check_dependencies-IsOrdered}
use agent_governance.Governance.Dependencies.Total.{check_known-walk}
use agent_governance.Governance.Routing.{Fields, RoutingCatalogs, Texts, parse_routing_catalogs}
use agent_governance.Governance.Routing.Laws.{
  AreRouted, AreVocabularies, parse_routing_catalogs-IsRouted,
}

abbrev modules : Graph
modules = ("core", "base" ∷ []) ∷ ("base", []) ∷ ("app", "core" ∷ "base" ∷ []) ∷ []

check_dependencies-IsOrdered_example :
    IsOrdered modules ("app" ∷ "core" ∷ "base" ∷ [])
    × All {A = String}
        (λ id. contains ("app" ∷ "core" ∷ "base" ∷ []) id ≡ true)
        ("core" ∷ "base" ∷ "app" ∷ [])
unfolding check_dependencies string_eq
check_dependencies-IsOrdered_example = check_dependencies-IsOrdered modules refl

check_known-walk_example : walk modules ≢ exhausted
unfolding check_known string_eq
check_known-walk_example = check_known-walk modules refl

refuses_a_cycle :
    check_dependencies (("a", "b" ∷ []) ∷ ("b", "a" ∷ []) ∷ [])
    ≡ err "release manifest module dependencies are cyclic"
unfolding check_dependencies string_eq
refuses_a_cycle = refl

abbrev fields : Fields
fields = record {
  vocabulary_fields = "label" ∷ "description" ∷ [];
  tool_fields =
      "name" ∷ "purpose" ∷ "evidence" ∷ "fallback" ∷ "constraints" ∷ "required_on" ∷ "useful_on"
      ∷ "policy_tags" ∷ "scopes" ∷ [];
}

abbrev vocabulary : String → String → Members
vocabulary name id = to_members (
    ("schema_version", num 1)
    ∷ (
      name,
      obj (
          to_members
            ((id, obj (to_members (("label", str "l") ∷ ("description", str "d") ∷ []))) ∷ [])),
    )
    ∷ [])

abbrev names : List String → Json
names ids = arr (to_items (map str ids))

abbrev tool : Members
tool = to_members (
    ("name", str "n")
    ∷ ("purpose", str "p")
    ∷ ("evidence", str "e")
    ∷ ("fallback", str "f")
    ∷ ("constraints", str "c")
    ∷ ("required_on", names ("t" ∷ []))
    ∷ ("useful_on", names [])
    ∷ ("policy_tags", names ("p" ∷ []))
    ∷ ("scopes", names ("s" ∷ []))
    ∷ [])

abbrev tools : Members
tools = to_members (("a", obj tool) ∷ [])

abbrev tool_catalog : Members
tool_catalog = to_members (("schema_version", num 1) ∷ ("tools", obj tools) ∷ [])

abbrev parsed : String → String → Result Members
parsed text label = ok (
    if text == "triggers"
    then vocabulary "triggers" "t"
    else if text == "policy_tags"
    then vocabulary "policy_tags" "p"
    else if text == "scopes"
    then vocabulary "scopes" "s"
    else tool_catalog)

abbrev texts : Texts
texts = record {
  triggers = "triggers";
  policy_tags = "policy_tags";
  scopes = "scopes";
  tools = "tools";
}

abbrev catalogs : RoutingCatalogs
catalogs = record {
  triggers = "t" ∷ [];
  policy_tags = "p" ∷ [];
  scopes = "s" ∷ [];
  required_tool_triggers = "tool_selection" ∷ "t" ∷ [];
}

parse_routing_catalogs-IsRouted_example :
    (catalog : Members) × (found : Members) × (parsed "tools" "tools catalog" ≡ ok catalog)
    × (get "tools" catalog ≡ some (obj found))
    × AreVocabularies parsed texts catalogs
    × AreRouted catalogs (entries found)
unfolding parse_routing_catalogs string_eq nat_eq list_eq exact same_keys get table is_id matches
    text is_blank id_list id_item has_duplicates
parse_routing_catalogs-IsRouted_example = parse_routing_catalogs-IsRouted fields parsed texts refl
