-- ===== src/ManagedBlock/Scan.antt =====
-- The searches in the text of src/managed-block.ts: `indexOf`, `startsWith`, `slice`, and the expression
-- `FOREIGN`.
pub mod Laws
use agent_governance.Base.{
  ℕ, zero, suc, ◌+◌, ◌-◌, Bool, true, false, not, ◌&&◌, ◌||◌, Option, none, some, List, [], ◌∷◌,
  nat_eq, ◌==◌, if◌then◌else◌, length, leb,
}
use agent_governance.Base.Text.{Units, units}

-- `text` behind a prefix
unfoldable pub after : Units → Units → Option Units
after [] text = some text
after (p ∷ ps) [] = none
after (p ∷ ps) (c ∷ text) = if p == c then after ps text else none

abbrev pub is_some : Option Units → Bool
is_some none = false
is_some (some rest) = true

unfoldable pub starts_with : Units → Units → Bool
unfolding after
starts_with prefix text = is_some (after prefix text)

abbrev pub dropped : ℕ → Units → Units
dropped zero text = text
dropped (suc n) [] = []
dropped (suc n) (c ∷ text) = dropped n text

abbrev pub taken : ℕ → Units → Units
taken zero text = []
taken (suc n) [] = []
taken (suc n) (c ∷ text) = c ∷ taken n text

unfoldable pub ends_with : Units → Units → Bool
unfolding starts_with
ends_with suffix text =
    leb (length suffix) (length text)
    && starts_with suffix (dropped (length text - length suffix) text)

unfoldable pub includes : Units → Units → Bool
unfolding starts_with
includes value [] = starts_with value []
includes value (c ∷ text) = starts_with value (c ∷ text) || includes value text

-- `occurrences` from the position `index`; the search goes on behind what it has found
unfoldable pub scan : Units → ℕ → ℕ → Units → List ℕ
unfolding starts_with
scan value skip index [] = []
scan value (suc skip) index (c ∷ text) = scan value skip (index + 1) text
scan value zero index (c ∷ text) =
    let behind = scan value (length value - 1) (index + 1) text in
    let later = scan value 0 (index + 1) text in
    if starts_with value (c ∷ text) then index ∷ behind else later

unfoldable pub occurrences : Units → Units → List ℕ
unfolding scan
occurrences value text = scan value 0 0 text

-- `[^\r\n]*-->`
unfoldable pub closes : Units → Bool
unfolding starts_with
closes [] = false
closes (c ∷ text) =
    starts_with (units "-->") (c ∷ text) || (not (c == b'\n') && not (c == b'\r') && closes text)

-- `(?!V1 -->)[^\r\n]*-->`
unfoldable pub other_version : Option Units → Bool
unfolding closes
other_version none = false
other_version (some rest) = not (starts_with (units "V1 -->") rest) && closes rest

unfoldable pub foreign_here : Units → Bool
unfolding after other_version
foreign_here text =
    other_version (after (units "<!-- BEGIN AGENT_GOVERNANCE_MANAGED_") text)
    || other_version (after (units "<!-- END AGENT_GOVERNANCE_MANAGED_") text)

-- `FOREIGN.test`
unfoldable pub is_foreign : Units → Bool
unfolding foreign_here
is_foreign [] = false
is_foreign (c ∷ text) = foreign_here (c ∷ text) || is_foreign text
