-- ===== src/Discovery/Fields.antt =====
-- The readers of single fields in src/discovery-catalog.ts.
use agent_governance.Base.{
  ℕ, String, ◌<>◌, Bool, true, false, not, ◌&&◌, ◌||◌, Option, some, List, [], ◌∷◌, string_eq,
  if◌then◌else◌, all, any, contains, leb, Result, ok, err, ◌>>=◌, ◌>>◌, reject_if, traverse,
}
use agent_governance.Base.Json.{Json, num, str, arr, obj, Members, items, keys}
use agent_governance.Base.Text.{units, is_blank}
use agent_governance.Toml.{is_id, has_duplicates}

unfoldable pub table_of : Option Json → String → Result Members
table_of (some (obj m)) context = ok m
table_of _ context = err (context <> " must be a table")

unfoldable pub exact_fields : Members → List String → String → Result (Unit {0})
exact_fields m fields context =
    reject_if (not (all (contains fields) (keys m))) (context <> " contains unknown fields")
    >> reject_if (not (all (contains (keys m)) fields)) (context <> " contains missing fields")

unfoldable pub positive_integer : Option Json → String → Result ℕ
positive_integer (some (num n)) context =
    if leb 1 n && leb n 9007199254740991
    then ok n
    else err (context <> " must be a positive integer")
positive_integer _ context = err (context <> " must be a positive integer")

-- `/[\0\r\n\x1b]/`
abbrev is_unsafe : ℕ → Bool
is_unsafe c = leb c 0 || (leb 10 c && leb c 10) || (leb 13 c && leb c 13) || (leb 27 c && leb c 27)

unfoldable pub nonempty_text : Option Json → String → Result String
nonempty_text (some (str s)) context =
    if is_blank s || any is_unsafe (units s)
    then err (context <> " must be nonempty sanitized text")
    else ok s
nonempty_text _ context = err (context <> " must be nonempty sanitized text")

unfoldable pub id_text : Option Json → String → Result String
id_text v context = do
  s ← nonempty_text v context
  reject_if (not (is_id s)) (context <> " is invalid")
  ok s

unfoldable pub enum_value : Option Json → List String → String → Result String
enum_value (some (str s)) allowed context =
    if contains allowed s then ok s else err (context <> " is invalid")
enum_value _ allowed context = err (context <> " is invalid")

abbrev string_item : String → Json → Result String
string_item context (str s) = ok s
string_item context _ = err (context <> " must be a nonempty string array")

abbrev pub nonempty {ℓ} : {A : Type ℓ} → List A → Bool
nonempty [] = false
nonempty (_ ∷ _) = true

unfoldable pub unique_string_array : Option Json → String → Result (List String)
unique_string_array (some (arr vs)) context = do
  reject_if (not (nonempty (items vs))) (context <> " must be a nonempty string array")
  ss ← traverse (string_item context) (items vs)
  reject_if (has_duplicates ss) (context <> " contains duplicate values")
  ok ss
unique_string_array _ context = err (context <> " must be a nonempty string array")
