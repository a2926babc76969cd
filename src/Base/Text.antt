-- ===== src/Base/Text.antt =====
-- JavaScript strings. A string is a `String` where it is only compared, and its list of UTF-16 code
-- units where the source looks into it; a `String` is a well-formed one, with no lone surrogate.
use Prim.Native.Char.{code}
use Prim.Native.Nat.{◌/◌, ◌%◌}
use Prim.Native.Nat.{ℕ, ◌+◌, ◌-◌, compare, Ordering}
use Prim.Native.String.{String}
use mathlib.Core.Bool.{Bool, true, false, ◌&&◌, ◌||◌}
use mathlib.Core.List.{List, [], ◌∷◌, ◌++◌}
use agent_governance.Base.Equality.{if◌then◌else◌, ◌==◌, nat_eq}
use agent_governance.Base.Lists.{leb, all}

abbrev pub Units : Type 0
Units = List ℕ

abbrev pub unit_pair : ℕ → Units → Units
unit_pair c rest =
    if leb c 0xffff
    then c ∷ rest
    else (0xd800 + (c - 0x10000) / 0x400) ∷ (0xdc00 + (c - 0x10000) % 0x400) ∷ rest

-- the UTF-16 code units
abbrev pub units : String → Units
units String.[] = []
units (String.◌∷◌ c s) = unit_pair (code c) (units s)

-- the characters that `trim` removes and `\s` matches
abbrev pub is_space : ℕ → Bool
is_space c =
    (leb 9 c && leb c 13)
    || c == 0x20
    || c == 0xa0
    || c == 0x1680
    || (leb 0x2000 c && leb c 0x200a)
    || c == 0x2028
    || c == 0x2029
    || c == 0x202f
    || c == 0x205f
    || c == 0x3000
    || c == 0xfeff

-- `value.trim() === ""`
unfoldable pub is_blank : String → Bool
is_blank s = all is_space (units s)

-- `/[\x00-\x1f\x7f]/`
abbrev pub is_control : ℕ → Bool
is_control c = leb c 0x1f || c == 0x7f

-- `a < b` on strings: the order of the code units
abbrev pub before_units : Units → Units → Bool
before_units [] [] = false
before_units [] (y ∷ ys) = true
before_units (x ∷ xs) [] = false
before_units (x ∷ xs) (y ∷ ys) = elim (compare x y) [
  | Ordering.lt ↦ true
  | Ordering.gt ↦ false
  | Ordering.eq ↦ before_units xs ys
]

unfoldable pub before : String → String → Bool
before s t = before_units (units s) (units t)

-- `sort()`: the stable sort by that order
unfoldable pub insert_sorted : String → List String → List String
unfolding before
insert_sorted s [] = s ∷ []
insert_sorted s (t ∷ ts) = if before t s then t ∷ insert_sorted s ts else s ∷ t ∷ ts

unfoldable pub sort : List String → List String
unfolding insert_sorted
sort [] = []
sort (s ∷ ss) = insert_sorted s (sort ss)

-- `join("\0")`
abbrev pub join_nul : List String → Units
join_nul [] = []
join_nul (s ∷ []) = units s
join_nul (s ∷ t ∷ ts) = units s ++ (0 ∷ join_nul (t ∷ ts))

abbrev pub same_units : Units → Units → Bool
same_units [] [] = true
same_units (x ∷ xs) (y ∷ ys) = x == y && same_units xs ys
same_units _ _ = false

-- `actual.sort().join("\0") === [...expected].sort().join("\0")`
unfoldable pub same_keys : List String → List String → Bool
unfolding sort
same_keys actual expected = same_units (join_nul (sort actual)) (join_nul (sort expected))
