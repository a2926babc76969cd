-- ===== src/Governance/Routing/Laws.antt =====
-- What the accepted routing catalogs of src/routing-catalog.ts refer to.
use agent_governance.Base.{
  String, ◌≡◌, refl, ◌<>◌, not, some, subst, true, false, inl, List, [], ◌∷◌, string_eq, nat_eq,
  ◌==◌, contains, length, All, arith, Result, ok, reject_if, >>=-eq-ok,
}
use agent_governance.Base.Json.{Json, obj, Members, entries, keys, get}
use agent_governance.Toml.{exact, table, is_id, id_list}
use agent_governance.Governance.Dependencies.{known}
use agent_governance.Governance.Routing.{
  Fields, RoutingCatalogs, Texts, References, Vocabularies, add_all, known_list, read_tool,
  read_tools, validate_vocabulary, parse_routing_catalogs, is_version_one, check_texts,
}
use agent_governance.Governance.Routing.Sets.{
  AreIn, AreTriggers, known-AreIn, add_all-AreTriggers, add_all_mono, add_all-AreIn,
}
use agent_governance.Governance.Routing.Found.{
  ok-injective, Lists, id_list-Lists, table-obj, IsVocabulary, validate_vocabulary-keys,
}

-- Every reference of a tool is an entry of its vocabulary.
abbrev IsKnown : Vocabularies → References → Type 0
IsKnown vocabularies tool =
    AreIn vocabularies.triggers tool.required_on
    × AreIn vocabularies.triggers tool.useful_on
    × AreIn vocabularies.policy_tags tool.policy_tags
    × AreIn vocabularies.scopes tool.scopes

known_list-AreIn :
    (tool : Members) (id field : String) (vocabulary : List String) {values : List String}
    → known_list tool id field vocabulary ≡ ok values
    → Lists tool field values × AreIn vocabulary values
unfolding known_list
known_list-AreIn tool id field vocabulary {values} e =
    let label = "tools." <> id <> "." <> field in
    let (read, q, e1) = >>=-eq-ok (id_list (get field tool) label false) _ e in
    let (u, k, e2) = >>=-eq-ok (known read vocabulary label) _ e1 in
    subst (λ vs. Lists tool field vs × AreIn vocabulary vs) (ok-injective e2)
      (id_list-Lists tool field label false q, known-AreIn read vocabulary label k)

-- The references are what the fields of the table name.
abbrev IsRead : Members → References → Type 0
IsRead t tool =
    Lists t "required_on" tool.required_on
    × Lists t "useful_on" tool.useful_on
    × Lists t "policy_tags" tool.policy_tags
    × Lists t "scopes" tool.scopes

-- The entry is a table, and its references are entries of their vocabularies.
abbrev IsReferring : Vocabularies → String × Json → References → Type 0
IsReferring vocabularies entry tool =
    (t : Members) × (entry.1 ≡ obj t) × IsRead t tool × IsKnown vocabularies tool

read_tool-IsReferring :
    (fields : Fields) (vocabularies : Vocabularies) (entry : String × Json) {tool : References}
    → read_tool fields vocabularies entry ≡ ok tool
    → IsReferring vocabularies entry tool
unfolding read_tool
read_tool-IsReferring fields vocabularies (id, raw) {tool} e =
    let (_, _, e1) =
      >>=-eq-ok (reject_if (not (is_id id)) "tools catalog contains an invalid ID") _ e in
    let (t, q0, e2) = >>=-eq-ok (table (some raw) ("tools." <> id)) _ e1 in
    let (_, _, e3) = >>=-eq-ok (exact t fields.tool_fields ("tools." <> id)) _ e2 in
    let names = "name" ∷ "purpose" ∷ "evidence" ∷ "fallback" ∷ "constraints" ∷ [] in
    let (_, _, e4) = >>=-eq-ok (check_texts t id names) _ e3 in
    let (required, q1, e5) = >>=-eq-ok (known_list t id "required_on" vocabularies.triggers) _ e4 in
    let (useful, q2, e6) = >>=-eq-ok (known_list t id "useful_on" vocabularies.triggers) _ e5 in
    let (tags, q3, e7) = >>=-eq-ok (known_list t id "policy_tags" vocabularies.policy_tags) _ e6 in
    let (scopes, q4, e8) = >>=-eq-ok (known_list t id "scopes" vocabularies.scopes) _ e7 in
    let r = known_list-AreIn t id "required_on" vocabularies.triggers q1 in
    let u = known_list-AreIn t id "useful_on" vocabularies.triggers q2 in
    let p = known_list-AreIn t id "policy_tags" vocabularies.policy_tags q3 in
    let s = known_list-AreIn t id "scopes" vocabularies.scopes q4 in
    subst (IsReferring vocabularies (id, raw)) (ok-injective e8) (
      t,
      some_injective (table-obj (some raw) ("tools." <> id) q0),
      (r.0, u.0, p.0, s.0),
      (r.1, u.1, p.1, s.1),
    )
  where
    some_injective : {x y : Json} → some x ≡ some y → x ≡ y
    some_injective e = cc

-- The entry refers to the vocabularies only, and the triggers that require its tool are collected.
abbrev pub IsRouted : Vocabularies → List String → String × Json → Type 0
IsRouted vocabularies required entry =
    (tool : References) × IsReferring vocabularies entry tool × AreIn required tool.required_on

AreIn-mono :
    (small large values : List String)
    → ((x : String) → contains small x ≡ true → contains large x ≡ true)
    → AreIn small values
    → AreIn large values
AreIn-mono small large [] h k = tt
AreIn-mono small large (v ∷ values) h (p, k) = (h v p, AreIn-mono small large values h k)

read_tools-IsRouted :
    (fields : Fields) (vocabularies : Vocabularies) (tools : List (String × Json))
    (set : List String) {required : List String}
    → read_tools fields vocabularies tools set ≡ ok required
    → AreTriggers vocabularies.triggers set
    → All (IsRouted vocabularies required) tools
      × AreTriggers vocabularies.triggers required
      × ((x : String) → contains set x ≡ true → contains required x ≡ true)
unfolding read_tools
read_tools-IsRouted fields vocabularies [] set {required} e k =
    let same : set ≡ required = cc in
    subst
      (λ r.
        Unit {0}
        × AreTriggers vocabularies.triggers r
        × ((x : String) → contains set x ≡ true → contains r x ≡ true))
      same (tt, k, λ x p. p)
read_tools-IsRouted fields vocabularies (entry ∷ tools) set {required} e k =
    let (tool, read, later) = >>=-eq-ok (read_tool fields vocabularies entry) _ e in
    let (t, is_table, listed, known) = read_tool-IsReferring fields vocabularies entry read in
    let next = add_all tool.required_on set in
    let (rest, triggers, mono) =
      read_tools-IsRouted fields vocabularies tools next later
        (add_all-AreTriggers vocabularies.triggers tool.required_on set known.0 k) in
    (
      (
        (
          tool,
          (t, is_table, listed, known),
          AreIn-mono next required tool.required_on mono (add_all-AreIn tool.required_on set),
        ),
        rest,
      ),
      triggers,
      λ x p. mono x (add_all_mono tool.required_on set x p),
    )

-- What a catalog of routing promises of the tools it was read from.
abbrev pub AreRouted : RoutingCatalogs → List (String × Json) → Type 0
AreRouted catalogs tools =
    All
      (IsRouted
        (record {
          triggers = catalogs.triggers;
          policy_tags = catalogs.policy_tags;
          scopes = catalogs.scopes;
        })
        catalogs.required_tool_triggers)
      tools
    × AreTriggers catalogs.triggers catalogs.required_tool_triggers

-- The vocabularies are those of the parsed texts.
abbrev pub AreVocabularies : (String → String → Result Members) → Texts → RoutingCatalogs → Type 0
AreVocabularies parse texts catalogs =
    IsVocabulary parse texts.triggers "triggers catalog" "triggers" catalogs.triggers
    × IsVocabulary parse texts.policy_tags "policy tags catalog" "policy_tags" catalogs.policy_tags
    × IsVocabulary parse texts.scopes "scopes catalog" "scopes" catalogs.scopes

first : (triggers : List String) → AreTriggers triggers ("tool_selection" ∷ [])
unfolding string_eq
first triggers = (refl, λ t q. inl (ground arith))

-- If the routing catalogs are accepted, the vocabularies are the keys of the parsed texts' tables, and
-- each entry of the parsed table of tools is a table whose fields `required_on`, `useful_on`,
-- `policy_tags` and `scopes` are arrays of entries of their vocabularies. The required triggers contain
-- all that a tool is required on, contain `tool_selection`, and contain nothing else but triggers of
-- the vocabulary.
pub parse_routing_catalogs-IsRouted :
    (fields : Fields) (parse : String → String → Result Members) (texts : Texts)
    {catalogs : RoutingCatalogs}
    → parse_routing_catalogs fields parse texts ≡ ok catalogs
    → (catalog : Members) × (tools : Members) × (parse texts.tools "tools catalog" ≡ ok catalog)
      × (get "tools" catalog ≡ some (obj tools))
      × AreVocabularies parse texts catalogs
      × AreRouted catalogs (entries tools)
unfolding parse_routing_catalogs
parse_routing_catalogs-IsRouted fields parse texts {catalogs} e =
    let (c1, p1, e1) = >>=-eq-ok (parse texts.triggers "triggers catalog") _ e in
    let (triggers, v1, e2) = >>=-eq-ok (validate_vocabulary fields c1 "triggers") _ e1 in
    let (c2, p2, e3) = >>=-eq-ok (parse texts.policy_tags "policy tags catalog") _ e2 in
    let (tags, v2, e4) = >>=-eq-ok (validate_vocabulary fields c2 "policy_tags") _ e3 in
    let (c3, p3, e5) = >>=-eq-ok (parse texts.scopes "scopes catalog") _ e4 in
    let (scopes, v3, e6) = >>=-eq-ok (validate_vocabulary fields c3 "scopes") _ e5 in
    let (catalog, parsed, e7) = >>=-eq-ok (parse texts.tools "tools catalog") _ e6 in
    let (_, _, e8) =
      >>=-eq-ok (exact catalog ("schema_version" ∷ "tools" ∷ []) "tools catalog") _ e7 in
    let (_, _, e9) =
      >>=-eq-ok
        (reject_if (not (is_version_one (get "schema_version" catalog)))
          "tools catalog schema is invalid")
        _ e8 in
    let (tools, found, e10) = >>=-eq-ok (table (get "tools" catalog) "tools entries") _ e9 in
    let (_, _, e11) =
      >>=-eq-ok (reject_if (length (keys tools) == 0) "tools catalog is empty") _ e10 in
    let vocabularies : Vocabularies = record {
      triggers = triggers;
      policy_tags = tags;
      scopes = scopes;
    } in
    let (required, q, e12) =
      >>=-eq-ok (read_tools fields vocabularies (entries tools) ("tool_selection" ∷ [])) _ e11 in
    let same : (record {
      triggers = triggers;
      policy_tags = tags;
      scopes = scopes;
      required_tool_triggers = required;
    })
        ≡ catalogs =
      ok-injective e12 in
    let (all, collected, _) =
      read_tools-IsRouted fields vocabularies (entries tools) ("tool_selection" ∷ []) q
        (first triggers) in
    let (f1, a1, k1) = validate_vocabulary-keys fields c1 "triggers" v1 in
    let (f2, a2, k2) = validate_vocabulary-keys fields c2 "policy_tags" v2 in
    let (f3, a3, k3) = validate_vocabulary-keys fields c3 "scopes" v3 in
    (
      catalog,
      tools,
      parsed,
      table-obj (get "tools" catalog) "tools entries" found,
      subst (AreVocabularies parse texts) same
          ((c1, f1, p1, a1, k1), (c2, f2, p2, a2, k2), (c3, f3, p3, a3, k3)),
      subst (λ c. AreRouted c (entries tools)) same (all, collected),
    )
