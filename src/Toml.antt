-- ===== src/Toml.antt =====
-- The readers of src/closed-toml.ts for parsed tables. A `TomlValue` is a `Json` of strings, numbers,
-- arrays and objects.
use agent_governance.Base.{
  String, ◌<>◌, Bool, false, not, Option, some, List, [], ◌∷◌, ◌==◌, if◌then◌else◌, length,
  contains, string_eq, ◌||◌, Result, ok, err, ◌>>=◌, ◌>>◌, reject_if, traverse, nat_eq, ◌&&◌,
}
use agent_governance.Base.Json.{Json, str, arr, obj, Members, items, keys}
use agent_governance.Base.Text.{is_blank, same_keys}
use agent_governance.Base.Regex.{matches, id_pattern}

-- `exact`
unfoldable pub exact : Members → List String → String → Result (Unit {0})
exact table expected label =
    reject_if (not (same_keys (keys table) expected)) (label <> " has missing or unknown fields")

-- `table`
unfoldable pub table : Option Json → String → Result Members
table (some (obj m)) label = ok m
table _ label = err (label <> " must be a table")

-- `text`
unfoldable pub text : Option Json → String → Result String
text (some (str s)) label = if is_blank s then err (label <> " must be nonempty text") else ok s
text _ label = err (label <> " must be nonempty text")

unfoldable pub is_id : String → Bool
is_id = matches id_pattern

unfoldable pub id_item : String → Json → Result String
id_item label (str s) = if is_id s then ok s else err (label <> " must be an ID array")
id_item label _ = err (label <> " must be an ID array")

-- `new Set(values).size !== values.length`
unfoldable pub has_duplicates : List String → Bool
has_duplicates [] = false
has_duplicates (x ∷ xs) = contains xs x || has_duplicates xs

-- `idList`
unfoldable pub id_list : Option Json → String → Bool → Result (List String)
id_list (some (arr vs)) label nonempty = do
  values ← traverse (id_item label) (items vs)
  reject_if (nonempty && length values == 0) (label <> " must not be empty")
  reject_if (has_duplicates values) (label <> " contains duplicate IDs")
  ok values
id_list _ label nonempty = err (label <> " must be an ID array")
