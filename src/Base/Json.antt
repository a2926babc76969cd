-- ===== src/Base/Json.antt =====
-- The values that `JSON.parse` and the TOML readers return. A number that is no natural number is
-- `other_number`. The keys of an object are distinct, in the order of `Object.keys`.
use Prim.Native.Nat.{ℕ}
use Prim.Native.String.{String}
use mathlib.Core.Path.{◌≡◌, refl}
use mathlib.Core.Bool.{Bool}
use mathlib.Core.Option.{Option, none, some}
use mathlib.Core.List.{List, [], ◌∷◌}
use agent_governance.Base.Equality.{if◌then◌else◌, ◌==◌, string_eq}

mutual
  pub data Json : Type 0 where
    null : Json
    bool : Bool → Json
    num : ℕ → Json
    other_number : Json
    str : String → Json
    arr : Items → Json
    obj : Members → Json

  pub data Items : Type 0 where
    nil : Items
    cons : Json → Items → Items

  pub data Members : Type 0 where
    end : Members
    member : String → Json → Members → Members

abbrev pub items : Items → List Json
items nil = []
items (cons v vs) = v ∷ items vs

abbrev pub entries : Members → List (String × Json)
entries end = []
entries (member k v ms) = (k, v) ∷ entries ms

abbrev pub keys : Members → List String
keys end = []
keys (member k v ms) = k ∷ keys ms

-- `value[key]`, with none for `undefined`
unfoldable pub get : String → Members → Option Json
get k end = none
get k (member j v ms) = if j == k then some v else get k ms

abbrev pub to_items : List Json → Items
to_items [] = nil
to_items (x ∷ xs) = cons x (to_items xs)

abbrev pub to_members : List (String × Json) → Members
to_members [] = end
to_members ((k, v) ∷ r) = member k v (to_members r)

pub items-to_items : (xs : List Json) → items (to_items xs) ≡ xs
items-to_items [] = refl
items-to_items (x ∷ xs) = λ i. x ∷ items-to_items xs i
