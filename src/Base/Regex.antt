-- ===== src/Base/Regex.antt =====
-- Regular expressions as the source uses them: the strings that they match, which is what `test`
-- asks for. A match is a position behind it, with the unit before it, which `\b` reads.
use Prim.Native.Nat.{ℕ, zero, suc, ◌+◌}
use Prim.Native.String.{String}
use mathlib.Core.Bool.{Bool, true, false, ◌&&◌, ◌||◌, xor}
use mathlib.Core.Option.{Option, none, some}
use mathlib.Core.List.{List, [], ◌∷◌, ◌++◌}
use agent_governance.Base.Equality.{if◌then◌else◌, ◌==◌, nat_eq}
use agent_governance.Base.Lists.{leb, any, length}
use agent_governance.Base.Text.{Units, units}

pub data Re : Type 0 where
  nothing : Re
  one : (ℕ → Bool) → Re
  seq : Re → Re → Re
  alt : Re → Re → Re
  star : Re → Re
  edge : Re

pub record Position : Type 0 where
  pub prev : Option ℕ
  pub rest : Units

abbrev pub in_range : ℕ → ℕ → ℕ → Bool
in_range lo hi c = leb lo c && leb c hi

abbrev pub is_lower : ℕ → Bool
is_lower = in_range b'a' b'z'

abbrev pub is_upper : ℕ → Bool
is_upper = in_range b'A' b'Z'

abbrev pub is_digit : ℕ → Bool
is_digit = in_range b'0' b'9'

-- `\w`
abbrev pub is_word : ℕ → Bool
is_word c = is_lower c || is_upper c || is_digit c || c == b'_'

abbrev word_before : Option ℕ → Bool
word_before none = false
word_before (some c) = is_word c

abbrev word_after : Units → Bool
word_after [] = false
word_after (c ∷ _) = is_word c

step_one : (ℕ → Bool) → Units → List Position
step_one p [] = []
step_one p (c ∷ rest) = if p c then record { prev = some c; rest = rest } ∷ [] else []

from_each : (Position → List Position) → List Position → List Position
from_each f [] = []
from_each f (p ∷ ps) = f p ++ from_each f ps

-- Each round of a starred expression takes at least one unit, so the length is fuel enough.
repeat : (Position → List Position) → ℕ → Position → List Position
unfolding from_each
repeat f zero p = p ∷ []
repeat f (suc n) p = p ∷ from_each (repeat f n) (f p)

unfoldable pub run : Re → Position → List Position
unfolding step_one from_each repeat
run nothing p = p ∷ []
run (one f) p = step_one f p.rest
run (seq r s) p = from_each (run s) (run r p)
run (alt r s) p = run r p ++ run s p
run (star r) p = repeat (run r) (length p.rest) p
run edge p = if xor (word_before p.prev) (word_after p.rest) then p ∷ [] else []

abbrev at_end : Position → Bool
at_end p = elim p.rest [ [] ↦ true | _ ∷ _ ↦ false ]

-- `/^…$/.test(s)`
unfoldable pub matches : Re → String → Bool
unfolding run
matches r s = any at_end (run r (record { prev = none; rest = units s }))

abbrev some_match : List Position → Bool
some_match [] = false
some_match (_ ∷ _) = true

search_from : Re → Option ℕ → Units → Bool
search_from r prev [] = some_match (run r (record { prev = prev; rest = [] }))
search_from r prev (c ∷ rest) =
    some_match (run r (record { prev = prev; rest = c ∷ rest })) || search_from r (some c) rest

-- `/…/.test(s)`
unfoldable pub search_in : Re → String → Bool
unfolding run search_from
search_in r s = search_from r none (units s)

-- the letters of a flag `i` expression stand for both cases
abbrev fold_case : ℕ → ℕ
fold_case c = if is_upper c then c + 32 else c

abbrev pub letters : Units → Re
letters [] = nothing
letters (c ∷ []) = one (λ d. fold_case d == fold_case c)
letters (c ∷ d ∷ cs) = seq (one (λ e. fold_case e == fold_case c)) (letters (d ∷ cs))

abbrev pub word : String → Re
word s = letters (units s)

abbrev pub any_of : Re → List Re → Re
any_of r [] = r
any_of r (s ∷ ss) = alt r (any_of s ss)

abbrev pub many1 : (ℕ → Bool) → Re
many1 f = seq (one f) (star (one f))

-- `/^[a-z][a-z0-9_]*$/`
abbrev pub id_pattern : Re
id_pattern = seq (one is_lower) (star (one (λ c. is_lower c || is_digit c || c == b'_')))
