-- ===== src/Discovery/Laws.antt =====
-- What an accepted discovery catalog satisfies.
use agent_governance.Base.{
  ℕ, String, ◌≡◌, false, not, Option, none, some, List, [], ◌∷◌, contains, string_eq, leb, ltb,
  length, Result, ok, reject_if, reject_if-eq-ok, traverse, Ensures, >>=-Ensures, Ensures-at, All,
  arith, ◌≤◌, ◌<◌,
}
use agent_governance.Base.Json.{Json, num, arr, items, get, Members}
use agent_governance.Discovery.Types.{Confidence, SignalRule, Catalog, Contract}
use agent_governance.Discovery.Fields.{
  table_of, exact_fields, positive_integer, id_text, enum_value, unique_string_array, nonempty,
}
use agent_governance.Discovery.Parse.{
  parse_confidence, parse_signal, parse_signal_list, parse_signals, parse_families, parse_limits,
  parse_candidate_classes, catalog_of, parse_discovery_catalog, boolean_of, catalog_table, is_one,
}

pub record IsConfidence (c : Confidence) : Type 0 where
  pub positive : 1 ≤ c.uncertain_minimum_score
  pub below : c.uncertain_minimum_score < c.high_minimum_score

pub record IsRule (s : SignalRule) : Type 0 where
  pub positive : 1 ≤ s.minimum_matches
  pub reachable : s.minimum_matches ≤ length s.keys

-- The ids are distinct, and none of them is among `seen`.
abbrev pub Distinct : List String → List SignalRule → Type 0
Distinct seen [] = Unit
Distinct seen (s ∷ ss) = (contains seen s.id ≡ false) × Distinct (s.id ∷ seen) ss

pub record IsCatalog (c : Catalog) : Type 0 where
  pub confidence : IsConfidence c.confidence
  pub rules : All IsRule c.signals
  pub distinct : Distinct [] c.signals

positive_lem :
    (v : Option Json) (context : String) {n : ℕ} → positive_integer v context ≡ ok n → 1 ≤ n
unfolding positive_integer
positive_lem (some (num n)) context h = ground arith
positive_lem _ context h = cc

module _ (contract : Contract) where
  parse_confidence-IsConfidence :
      (raw : Option Json) → Ensures IsConfidence (parse_confidence contract raw)
  unfolding parse_confidence
  parse_confidence-IsConfidence raw =
      >>=-Ensures IsConfidence (table_of raw "discovery confidence") _ λ m _.
        >>=-Ensures IsConfidence (exact_fields m contract.confidence_fields "discovery confidence")
          _
          λ _ _.
            >>=-Ensures IsConfidence (boolean_of contract (get "high_requires_runtime" m)) _
              λ runtime _.
                >>=-Ensures IsConfidence
                  (positive_integer (get "high_minimum_score" m) "high_minimum_score") _
                  λ score _.
                    >>=-Ensures IsConfidence
                      (positive_integer (get "high_minimum_families" m) "high_minimum_families") _
                      λ families _.
                        >>=-Ensures IsConfidence
                          (positive_integer (get "high_minimum_independent_sources" m)
                            "high_minimum_independent_sources")
                          _
                          λ sources _.
                            >>=-Ensures IsConfidence
                              (positive_integer (get "uncertain_minimum_score" m)
                                "uncertain_minimum_score")
                              _
                              λ uncertain e.
                                >>=-Ensures IsConfidence
                                  (reject_if (leb score uncertain)
                                    "uncertain_minimum_score must be less than high_minimum_score")
                                  _
                                  λ _ below.
                                    let less : leb score uncertain ≡ false =
                                      reject_if-eq-ok (leb score uncertain) _ below in
                                    record {
                                      positive = positive_lem (get "uncertain_minimum_score" m) _ e;
                                      below = ground arith;
                                    }

  parse_signal-IsRule :
      (seen : List String) (v : Json)
      → Ensures (λ s. IsRule s × (contains seen s.id ≡ false)) (parse_signal contract seen v)
  unfolding parse_signal
  parse_signal-IsRule seen v = >>=-Ensures _ (table_of (some v) "discovery signal") _ λ m _.
      >>=-Ensures _ (exact_fields m contract.signal_fields "discovery signal") _ λ _ _.
        >>=-Ensures _ (id_text (get "id" m) "discovery signal.id") _ λ id _.
          >>=-Ensures _ (reject_if (contains seen id) "discovery signals contain duplicate IDs") _
            λ _ fresh.
              >>=-Ensures _ (enum_value (get "family" m) contract.evidence_families _) _ λ family _.
                >>=-Ensures _ (unique_string_array (get "source_kinds" m) _) _ λ kinds _.
                  >>=-Ensures _ (traverse _ kinds) _ λ source_kinds _.
                    >>=-Ensures _ (unique_string_array (get "keys" m) _) _ λ names _.
                      >>=-Ensures _ (traverse _ names) _ λ keys _.
                        >>=-Ensures _ (positive_integer (get "minimum_matches" m) _) _ λ minimum e.
                          >>=-Ensures _ (reject_if (ltb (length keys) minimum) _) _ λ _ within.
                            >>=-Ensures _ (enum_value (get "strength" m) contract.strengths _) _
                              λ strength _.
                                let bounded : ltb (length keys) minimum ≡ false =
                                  reject_if-eq-ok (ltb (length keys) minimum) _ within in
                                (
                                  record {
                                    positive = positive_lem (get "minimum_matches" m) _ e;
                                    reachable = ground arith;
                                  },
                                  reject_if-eq-ok (contains seen id) _ fresh,
                                )

  parse_signal_list-IsRule :
      (seen : List String) (vs : List Json)
      → Ensures (λ ss. All IsRule ss × Distinct seen ss) (parse_signal_list contract seen vs)
  unfolding parse_signal_list
  parse_signal_list-IsRule seen [] = (tt, tt)
  parse_signal_list-IsRule seen (v ∷ vs) = >>=-Ensures _ (parse_signal contract seen v) _ λ s e.
      >>=-Ensures _ (parse_signal_list contract (s.id ∷ seen) vs) _ λ ss f.
        let one =
          Ensures-at (λ s. IsRule s × (contains seen s.id ≡ false)) _ (parse_signal-IsRule seen v)
            e in
        let rest =
          Ensures-at (λ ss. All IsRule ss × Distinct (s.id ∷ seen) ss) _
            (parse_signal_list-IsRule (s.id ∷ seen) vs) f in
        ((one.0, rest.0), (one.1, rest.1))

  parse_signals-IsRule :
      (raw : Option Json)
      → Ensures (λ ss. All IsRule ss × Distinct [] ss) (parse_signals contract raw)
  unfolding parse_signals
  parse_signals-IsRule none = tt
  parse_signals-IsRule (some (arr vs)) =
      >>=-Ensures _ (reject_if (not (nonempty (items vs))) _) _
        λ _ _. parse_signal_list-IsRule [] (items vs)
  parse_signals-IsRule (some _) = tt

  catalog_of-IsCatalog : (m : Members) → Ensures IsCatalog (catalog_of contract m)
  unfolding catalog_of
  catalog_of-IsCatalog m =
      >>=-Ensures IsCatalog (exact_fields m contract.top_level_fields "discovery catalog") _ λ _ _.
        >>=-Ensures IsCatalog
          (reject_if (not (is_one contract (get "schema_version" m)))
            "discovery catalog schema_version must be integer 1")
          _
          λ _ _.
            >>=-Ensures IsCatalog (parse_families contract (get "evidence_families" m)) _
              λ families _.
                >>=-Ensures IsCatalog (parse_limits contract (get "limits" m)) _ λ limits _.
                  >>=-Ensures IsCatalog (parse_confidence contract (get "confidence" m)) _
                    λ confidence c.
                      >>=-Ensures IsCatalog
                        (parse_candidate_classes contract (get "candidate_classes" m)) _
                        λ classes _.
                          >>=-Ensures IsCatalog (parse_signals contract (get "signals" m)) _
                            λ signals s.
                              let rules =
                                Ensures-at (λ ss. All IsRule ss × Distinct [] ss) _
                                  (parse_signals-IsRule (get "signals" m)) s in
                              record {
                                confidence =
                                    Ensures-at IsConfidence _
                                      (parse_confidence-IsConfidence (get "confidence" m)) c;
                                rules = rules.0;
                                distinct = rules.1;
                              }

parse_sound :
    (contract : Contract) (parse : String → Result Json) (content : String)
    → Ensures IsCatalog (parse_discovery_catalog contract parse content)
unfolding parse_discovery_catalog
parse_sound contract parse content =
    >>=-Ensures IsCatalog (catalog_table contract parse (parse content)) _
      λ m _. catalog_of-IsCatalog contract m

-- An accepted catalog can be satisfied: the score of an uncertain finding is positive and below that
-- of a certain one, each signal asks for at least one match and for no more than it has keys, and the
-- ids of the signals are distinct.
pub parse_discovery_catalog-IsCatalog :
    (contract : Contract) (parse : String → Result Json) (content : String) {c : Catalog}
    → parse_discovery_catalog contract parse content ≡ ok c
    → IsCatalog c
parse_discovery_catalog-IsCatalog contract parse content e =
    Ensures-at IsCatalog (parse_discovery_catalog contract parse content)
      (parse_sound contract parse content) e
