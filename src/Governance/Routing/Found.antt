-- ===== src/Governance/Routing/Found.antt =====
-- What the readers of src/routing-catalog.ts find in a table, written out.
use agent_governance.Base.{
  String, ◌≡◌, refl, sym, ap, ap₂, ◌∙◌, Bool, not, Option, some, List, [], ◌∷◌, map, ◌<>◌,
  string_eq, nat_eq, ◌==◌, ◌&&◌, length, arith, Result, ok, reject_if, traverse, >>=-eq-ok,
}
use agent_governance.Base.Json.{Json, str, arr, obj, Items, Members, items, entries, keys, get}
use agent_governance.Toml.{exact, table, id_item, id_list, has_duplicates}
use agent_governance.Governance.Routing.{
  Fields, is_version_one, check_vocabulary, validate_vocabulary,
}

pub ok-injective {ℓ} : {A : Type ℓ} → {x y : A} → (ok x ≡ ok y) → x ≡ y
ok-injective e = cc

-- The field of the table is an array of these strings.
abbrev pub Lists : Members → String → List String → Type 0
Lists m field values = (vs : Items) × (get field m ≡ some (arr vs)) × (items vs ≡ map str values)

id_item-str : (label : String) (v : Json) {s : String} → id_item label v ≡ ok s → v ≡ str s
unfolding id_item
id_item-str label (str s) e = ap str (ground arith)
id_item-str label _ e = cc

traverse-map :
    (label : String) (vs : List Json) {values : List String}
    → traverse (id_item label) vs ≡ ok values
    → vs ≡ map str values
traverse-map label [] e = let same = ok-injective e in ap (map str) same
traverse-map label (v ∷ vs) {values} e =
    let (s, q, e1) = >>=-eq-ok (id_item label v) _ e in
    let (ss, r, e2) = >>=-eq-ok (traverse (id_item label) vs) _ e1 in
    ap₂ ◌∷◌ (id_item-str label v q) (traverse-map label vs r) ∙ ap (map str) (ok-injective e2)

pub id_list-Lists :
    (m : Members) (field label : String) (nonempty : Bool) {values : List String}
    → id_list (get field m) label nonempty ≡ ok values
    → Lists m field values
unfolding id_list
id_list-Lists m field label nonempty {values} e = found (get field m) refl e
  where
    found :
        (o : Option Json)
        → get field m ≡ o
        → id_list o label nonempty ≡ ok values
        → Lists m field values
    found (some (arr vs)) q e =
        let (read, r, e1) = >>=-eq-ok (traverse (id_item label) (items vs)) _ e in
        let (_, _, e2) =
          >>=-eq-ok (reject_if (nonempty && length read == 0) (label <> " must not be empty")) _
            e1 in
        let (_, _, e3) =
          >>=-eq-ok (reject_if (has_duplicates read) (label <> " contains duplicate IDs")) _ e2 in
        (vs, q, traverse-map label (items vs) r ∙ ap (map str) (ok-injective e3))
    found _ q e = cc

pub table-obj :
    (o : Option Json) (label : String) {m : Members} → table o label ≡ ok m → o ≡ some (obj m)
unfolding table
table-obj (some (obj m)) label e = ap (λ n. some (obj n)) (ok-injective e)
table-obj _ label e = cc

-- The vocabulary is the keys of the table that the parsed text has under that name.
abbrev pub IsVocabulary :
    (String → String → Result Members) → String → String → String → List String → Type 0
IsVocabulary parse text label name vocabulary =
    (catalog : Members) × (found : Members) × (parse text label ≡ ok catalog)
    × (get name catalog ≡ some (obj found))
    × (vocabulary ≡ keys found)

pub validate_vocabulary-keys :
    (fields : Fields) (catalog : Members) (name : String) {vocabulary : List String}
    → validate_vocabulary fields catalog name ≡ ok vocabulary
    → (found : Members) × (get name catalog ≡ some (obj found)) × (vocabulary ≡ keys found)
unfolding validate_vocabulary
validate_vocabulary-keys fields catalog name e =
    let (_, _, e1) =
      >>=-eq-ok (exact catalog ("schema_version" ∷ name ∷ []) (name <> " catalog")) _ e in
    let (_, _, e2) =
      >>=-eq-ok
        (reject_if (not (is_version_one (get "schema_version" catalog)))
          (name <> " catalog schema is invalid"))
        _ e1 in
    let (found, q, e3) = >>=-eq-ok (table (get name catalog) (name <> " entries")) _ e2 in
    let (_, _, e4) =
      >>=-eq-ok (reject_if (length (keys found) == 0) (name <> " catalog is empty")) _ e3 in
    let (_, _, e5) = >>=-eq-ok (check_vocabulary fields name (entries found)) _ e4 in
    (found, table-obj (get name catalog) (name <> " entries") q, sym (ok-injective e5))
