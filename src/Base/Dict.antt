-- ===== src/Base/Dict.antt =====
-- `Map` and plain objects with string keys: entries in the order of their insertion.
use Prim.Native.String.{String}
use mathlib.Core.Path.{◌≡◌, refl}
use mathlib.Core.Logic.{◌↔◌, ◌≢◌}
use mathlib.Core.Bool.{Bool, true, false, ◌||◌}
use mathlib.Core.Option.{Option, none, some}
use mathlib.Core.List.{List, [], ◌∷◌}
use native.Mathlib.Omega.{arith}
use agent_governance.Base.Equality.{if◌then◌else◌, ◌==◌, string_eq}

abbrev pub Dict {ℓ} : Type ℓ → Type ℓ
Dict V = List (String × V)

module _ {ℓ} {V : Type ℓ} where
  -- `get`; none is `undefined`
  unfoldable pub lookup : String → Dict V → Option V
  lookup key [] = none
  lookup key ((name, value) ∷ rest) = if name == key then some value else lookup key rest

  -- `set`: a key that is there keeps its place
  unfoldable pub insert : String → V → Dict V → Dict V
  insert key new [] = (key, new) ∷ []
  insert key new ((name, value) ∷ rest) =
      if name == key then (key, new) ∷ rest else (name, value) ∷ insert key new rest

  -- `has`, `Object.hasOwn`
  unfoldable pub has : String → Dict V → Bool
  has k [] = false
  has k ((j, v) ∷ m) = j == k || has k m

  abbrev pub keys_of : Dict V → List String
  keys_of [] = []
  keys_of ((k, v) ∷ m) = k ∷ keys_of m

  abbrev pub values_of : Dict V → List V
  values_of [] = []
  values_of ((k, v) ∷ m) = v ∷ values_of m

  pub lookup-insert :
      (written read : String) (new : V) (dict : Dict V)
      → lookup read (insert written new dict)
        ≡ (if written == read then some new else lookup read dict)
  unfolding lookup insert
  lookup-insert written read new [] = refl
  lookup-insert written read new (entry ∷ rest) =
      ground (arith, lookup-insert written read new rest)

  pub has-insert : (k j : String) (v : V) (m : Dict V) → has j (insert k v m) ≡ (k == j || has j m)
  unfolding has insert
  has-insert k j v [] = refl
  has-insert k j v ((i, w) ∷ m) = ground (arith, has-insert k j v m)

  pub has_iff : (k : String) (m : Dict V) → (has k m ≡ true) ↔ (lookup k m ≢ none)
  unfolding has lookup
  has_iff k [] = ground arith
  has_iff k ((j, v) ∷ m) = ground (arith, has_iff k m)
