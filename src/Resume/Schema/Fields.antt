-- ===== src/Resume/Schema/Fields.antt =====
-- The readers of single fields in src/resume-checkpoint-schema.ts: `record`, `text`, `array`,
-- `strings`, `unique`, and the size of what `JSON.stringify` prints.
use Prim.Native.Char.{code}
use agent_governance.Base.{
  ℕ, ◌+◌, String, ◌<>◌, Bool, true, false, not, ◌||◌, Option, some, List, [], ◌∷◌, ◌==◌, string_eq,
  nat_eq, if◌then◌else◌, contains, any, leb, ltb, length, Result, ok, err, ◌>>=◌, ◌>>◌, reject_if,
  traverse,
}
use agent_governance.Base.Json.{
  Json, null, bool, num, other_number, str, arr, obj, Items, nil, cons, Members, end, member, items,
  keys,
}
use agent_governance.Base.Text.{units, is_blank, is_control, is_space, same_keys}
use agent_governance.Base.Regex.{
  Re, nothing, one, seq, alt, star, edge, any_of, word, search_in, is_lower, is_upper, is_digit,
}

abbrev pub reject {ℓ} : {A : Type ℓ} → String → Result A
reject message = err ("invalid resume checkpoint: " <> message)

-- `record`: a closed schema
unfoldable pub record_of : Option Json → List String → Result Members
record_of (some (obj m)) expected =
    if same_keys (keys m) expected then ok m else reject "closed schema mismatch"
record_of _ expected = reject "closed schema mismatch"

abbrev blanks : Re
blanks = star (one is_space)

abbrev letter : ℕ → Re
letter c = one (λ d. d == c)

-- `SENSITIVE`
abbrev sensitive : Re
sensitive =
    any_of
      (seq edge (
        seq
          (any_of (word "password") (
            word "passwd"
            ∷ word "secret"
            ∷ word "token"
            ∷ word "credential"
            ∷ seq (word "api") (seq (alt nothing (one (λ c. c == b'_' || c == b'-'))) (word "key"))
            ∷ []))
          (seq blanks (one (λ c. c == b':' || c == b'=')))))
      (seq edge (seq (word "Bearer") (one is_space))
        ∷ seq (word "-----BEGIN ") (
            seq (star (one (λ c. not (c == 10 || c == 13 || c == 0x2028 || c == 0x2029))))
              (word "PRIVATE KEY"))
        ∷ seq edge (
            seq
              (any_of
                (seq (word "gh") (
                  seq (any_of (word "p") (word "o" ∷ word "u" ∷ word "s" ∷ word "r" ∷ []))
                    (word "_")))
                (word "github_pat_" ∷ word "sk-live-" ∷ word "AKIA" ∷ []))
              (one (λ c. is_lower c || is_upper c || is_digit c)))
        ∷ seq (word "://") (seq (star (one (λ c. not (c == b'/' || is_space c)))) (word "@"))
        ∷ seq (one (λ c. c == b'?' || c == b'&'))
            (seq (any_of (word "token") (word "key" ∷ word "secret" ∷ [])) (word "="))
        ∷ [])

-- The condition under which `text` rejects a string.
unfoldable pub is_unsafe : String → Bool
is_unsafe s =
    is_blank s || ltb 8192 (length (units s)) || any is_control (units s) || search_in sensitive s

unfoldable pub text : Option Json → Result String
text (some (str s)) = if is_unsafe s then reject "unsafe metadata string" else ok s
text _ = reject "unsafe metadata string"

unfoldable pub bounded_array : Option Json → Result (List Json)
bounded_array (some (arr vs)) =
    if ltb 1024 (length (items vs)) then reject "bounded array required" else ok (items vs)
bounded_array _ = reject "bounded array required"

unfoldable pub text_item : Json → Result String
text_item v = text (some v)

unfoldable pub strings : Option Json → Result (List String)
strings o = do vs ← bounded_array o; traverse text_item vs

-- `new Set(values).size !== values.length`
unfoldable pub has_repeat : List String → Bool
has_repeat [] = false
has_repeat (x ∷ xs) = contains xs x || has_repeat xs

unfoldable pub unique : List String → Result (Unit {0})
unique values = reject_if (has_repeat values) "invalid resume checkpoint: duplicate identity"

-- `safeLeaves`
unfoldable mutual
  unfolding text

  pub safe_leaves : Json → Result (Unit {0})
  safe_leaves (str s) = do _ ← text (some (str s)); ok tt
  safe_leaves (arr vs) = do
    reject_if (ltb 1024 (length (items vs))) "invalid resume checkpoint: bounded array required"
    safe_items vs
  safe_leaves (obj m) = safe_members m
  safe_leaves _ = ok tt

  pub safe_items : Items → Result (Unit {0})
  safe_items nil = ok tt
  safe_items (cons v vs) = do safe_leaves v; safe_items vs

  pub safe_members : Members → Result (Unit {0})
  safe_members end = ok tt
  safe_members (member k v m) = do safe_leaves v; safe_members m

-- The UTF-8 bytes that one character takes in a JSON string.
abbrev char_bytes : ℕ → ℕ
char_bytes c =
    if c == b'"' || c == b'\\' || c == 8 || c == 9 || c == 10 || c == 12 || c == 13
    then 2
    else if leb c 0x1f
    then 6
    else if leb c 0x7f
    then 1
    else if leb c 0x7ff
    then 2
    else if leb c 0xffff
    then 3
    else 4

string_bytes : String → ℕ
string_bytes String.[] = 2
string_bytes (String.◌∷◌ c s) = char_bytes (code c) + string_bytes s

-- `Buffer.byteLength(JSON.stringify(value))` for a value without numbers
unfoldable mutual
  unfolding string_bytes

  pub json_bytes : Json → ℕ
  json_bytes null = 4
  json_bytes (bool true) = 4
  json_bytes (bool false) = 5
  json_bytes (num n) = 0
  json_bytes other_number = 0
  json_bytes (str s) = string_bytes s
  json_bytes (arr vs) = 1 + items_bytes vs
  json_bytes (obj m) = 1 + members_bytes m

  -- with the comma or the closing bracket behind each item
  pub items_bytes : Items → ℕ
  items_bytes nil = 1
  items_bytes (cons v nil) = json_bytes v + 1
  items_bytes (cons v vs) = json_bytes v + 1 + items_bytes vs

  pub members_bytes : Members → ℕ
  members_bytes end = 1
  members_bytes (member k v end) = string_bytes k + 1 + json_bytes v + 1
  members_bytes (member k v m) = string_bytes k + 1 + json_bytes v + 1 + members_bytes m
