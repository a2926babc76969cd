-- ===== src/ManagedBlock.antt =====
-- src/managed-block.ts: the projection of the governance in an entry file. The model works on the
-- decoded text; `TextDecoder` and `Buffer.from` are left out.
pub mod Scan
pub mod Block
pub mod Markers
pub mod Flags
pub mod Laws
pub mod RoundTrip
use agent_governance.Base.{
  ℕ, ◌+◌, ◌-◌, String, ◌<>◌, Bool, true, false, not, ◌&&◌, ◌||◌, Option, none, some, List, [], ◌∷◌,
  ◌++◌, map, nat_eq, bool_eq, list_eq, ◌==◌, if◌then◌else◌, length, leb, ltb, Result, ok, err,
  ◌>>=◌, ◌>>◌, reject_if,
}
use agent_governance.Base.Text.{Units, units}
use agent_governance.ManagedBlock.Scan.{
  starts_with, ends_with, includes, dropped, taken, occurrences, is_foreign,
}

pub record GovernanceBinding : Type 0 where
  pub version : Units
  pub installation_root : Units
  pub governance_path : Units
  pub manifest_path : Units
  pub governance_digest : Units
  pub manifest_digest : Units
  pub bundle_digest : Units

abbrev pub begin_marker : Units
begin_marker = units "<!-- BEGIN AGENT_GOVERNANCE_MANAGED_V1 -->"

abbrev pub end_marker : Units
end_marker = units "<!-- END AGENT_GOVERNANCE_MANAGED_V1 -->"

pub data Eol : Type 0 where
  lf crlf : Eol

abbrev pub eol_units : Eol → Units
eol_units lf = b'\n' ∷ []
eol_units crlf = b'\r' ∷ b'\n' ∷ []

-- where the block stands in the text
pub record Place : Type 0 where
  pub start : ℕ
  pub stop : ℕ
  pub block : Units

pub record ParsedEntry : Type 0 where
  pub text : Units
  pub eol : Eol
  pub place : Option Place

unfoldable pub has_crlf : Units → Bool
has_crlf text = includes (b'\r' ∷ b'\n' ∷ []) text

abbrev pub eol_if : Bool → Eol
eol_if true = crlf
eol_if false = lf

-- `slice(start, end)`
abbrev pub slice : ℕ → ℕ → Units → Units
slice start stop text = taken (stop - start) (dropped start text)

unfoldable pub locate : Units → ℕ → ℕ → Result ParsedEntry
unfolding has_crlf
locate text start finish =
    if ltb finish start
    then err "incomplete managed block markers"
    else let stop = finish + length end_marker in
      let block = slice start stop text in
      ok (record {
        text = text;
        eol = eol_if (has_crlf block || has_crlf text);
        place = some (record { start = start; stop = stop; block = block });
      })

abbrev same_count : List ℕ → List ℕ → Bool
same_count begins ends = length begins == length ends

unfoldable pub parse_markers : Units → List ℕ → List ℕ → Result ParsedEntry
unfolding has_crlf locate
parse_markers text [] [] = ok (record { text = text; eol = eol_if (has_crlf text); place = none })
parse_markers text (start ∷ []) (finish ∷ []) = locate text start finish
parse_markers text begins ends =
    if same_count begins ends
    then err "duplicate or ambiguous managed block markers"
    else err "incomplete managed block markers"

unfoldable pub parse : Units → Result ParsedEntry
unfolding is_foreign occurrences parse_markers
parse text =
    reject_if (is_foreign text) "foreign managed marker version"
    >> parse_markers text (occurrences begin_marker text) (occurrences end_marker text)

abbrev pub boolean_text : Bool → Units
boolean_text true = units "true"
boolean_text false = units "false"

-- `join(eol)`
abbrev pub join_lines : Units → List Units → Units
join_lines eol [] = []
join_lines eol (line ∷ []) = line
join_lines eol (line ∷ next ∷ lines) = line ++ (eol ++ join_lines eol (next ∷ lines))

abbrev pub projection_lines : GovernanceBinding → Bool → Bool → List Units
projection_lines binding prefix_added suffix_added =
    begin_marker
    ∷ units
        "This is a generated projection; the installed governance bundle is the only normative source."
    ∷ (units "Governance version: " ++ binding.version)
    ∷ (units "Canonical installation root: " ++ binding.installation_root)
    ∷ (units "Normative governance entry: " ++ binding.governance_path)
    ∷ (units "Normative manifest: " ++ binding.manifest_path)
    ∷ (units "Expected governance SHA-256: " ++ binding.governance_digest)
    ∷ (units "Expected manifest SHA-256: " ++ binding.manifest_digest)
    ∷ (units "Expected bundle SHA-256: " ++ binding.bundle_digest)
    ∷ units
        "Before every response, load the normative governance entry and manifest from these exact paths."
    ∷ units
        "Keep personal local rules separate and resolve them only through the installed manifest."
    ∷ units
        "If governance is missing, changed, ambiguous, or conflicts with another normative source, fail closed."
    ∷ (units "Boundary prefix added: " ++ boolean_text prefix_added)
    ∷ (units "Boundary suffix added: " ++ boolean_text suffix_added)
    ∷ end_marker
    ∷ []

unfoldable pub projection : GovernanceBinding → Eol → Bool → Bool → Units
projection binding eol prefix_added suffix_added =
    join_lines (eol_units eol) (projection_lines binding prefix_added suffix_added)

-- `(?:\r?\n|$)`
abbrev pub ends_line : Units → Bool
ends_line [] = true
ends_line (c ∷ []) = c == b'\n'
ends_line (c ∷ d ∷ _) = c == b'\n' || (c == b'\r' && d == b'\n')

-- `(true|false)(?:\r?\n|$)`
unfoldable pub read_flag : Units → Option Bool
read_flag text =
    if starts_with (units "true") text && ends_line (dropped 4 text)
    then some true
    else if starts_with (units "false") text && ends_line (dropped 5 text)
    then some false
    else none

unfoldable pub flag_here : Units → Units → Option Bool
unfolding read_flag
flag_here label text =
    if starts_with label text then read_flag (dropped (length label) text) else none

abbrev pub first_flag : Option Bool → Option Bool → Option Bool
first_flag none later = later
first_flag (some flag) later = some flag

-- The first line that `label` opens and a truth value closes.
unfoldable pub find_flag : Units → Bool → Units → Option Bool
unfolding flag_here
find_flag label at_line [] = none
find_flag label at_line (c ∷ text) =
    let later = find_flag label (c == b'\n') text in
    first_flag (if at_line then flag_here label (c ∷ text) else none) later

abbrev pub prefix_label : Units
prefix_label = units "Boundary prefix added: "

abbrev pub suffix_label : Units
suffix_label = units "Boundary suffix added: "

abbrev pub both : Option Bool → Option Bool → Result (Bool × Bool)
both (some p) (some s) = ok (p, s)
both _ _ = err "managed block is tampered"

unfoldable pub boundary_flags : Units → Result (Bool × Bool)
unfolding find_flag
boundary_flags block = both (find_flag prefix_label true block) (find_flag suffix_label true block)

abbrev pub is_nonempty : Units → Bool
is_nonempty [] = false
is_nonempty (_ ∷ _) = true

-- whether `installManagedBlock` ends the last line of the text first
unfoldable pub adds_prefix : Units → Bool
adds_prefix text = is_nonempty text && not (ends_with (b'\n' ∷ []) text)

abbrev pub prefix_of : Bool → Eol → Units
prefix_of true eol = eol_units eol
prefix_of false eol = []

unfoldable pub appended : Units → Eol → GovernanceBinding → Units
unfolding adds_prefix projection
appended text eol binding =
    (text ++ prefix_of (adds_prefix text) eol)
    ++ (projection binding eol (adds_prefix text) true ++ eol_units eol)

unfoldable pub install_parsed : ParsedEntry → GovernanceBinding → Option Place → Result Units
unfolding boundary_flags projection appended
install_parsed parsed binding none = ok (appended parsed.text parsed.eol binding)
install_parsed parsed binding (some place) = do
  flags ← boundary_flags place.block
  ok (
      taken place.start parsed.text
      ++ (projection binding parsed.eol flags.0 flags.1 ++ dropped place.stop parsed.text))

unfoldable pub install_managed_block : Units → GovernanceBinding → Result Units
unfolding parse install_parsed
install_managed_block input binding =
    parse input >>= λ parsed. install_parsed parsed binding parsed.place

-- `slice(0, -eol.length)`
abbrev pub without_end : Units → Units → Units
without_end eol text = taken (length text - length eol) text

abbrev pub cut_prefix : Bool → Units → Units → Units
cut_prefix added eol text = if added && ends_with eol text then without_end eol text else text

abbrev pub cut_suffix : Bool → Units → Units → Units
cut_suffix added eol text =
    if added && starts_with eol text then dropped (length eol) text else text

unfoldable pub remove_parsed : ParsedEntry → Option Place → Result Units
unfolding boundary_flags
remove_parsed parsed none = ok parsed.text
remove_parsed parsed (some place) = do
  flags ← boundary_flags place.block
  ok (
      cut_prefix flags.0 (eol_units parsed.eol) (taken place.start parsed.text)
      ++ cut_suffix flags.1 (eol_units parsed.eol) (dropped place.stop parsed.text))

unfoldable pub remove_managed_block : Units → Result Units
unfolding parse remove_parsed
remove_managed_block input = parse input >>= λ parsed. remove_parsed parsed parsed.place

unfoldable pub remove_envelope : ParsedEntry → Option Place → Result Units
unfolding occurrences
remove_envelope parsed none = err "managed block is missing"
remove_envelope parsed (some place) = do
  reject_if (not (length (occurrences (units "AGENT_GOVERNANCE_MANAGED_") parsed.text) == 2))
      "ambiguous managed markers"
  ok (taken place.start parsed.text ++ dropped place.stop parsed.text)

unfoldable pub remove_opaque_managed_envelope : Units → Result Units
unfolding parse remove_envelope
remove_opaque_managed_envelope input = parse input >>= λ parsed. remove_envelope parsed parsed.place

unfoldable pub verify_parsed : ParsedEntry → GovernanceBinding → Option Place → Result (Unit {0})
unfolding boundary_flags projection
verify_parsed parsed binding none = err "managed block is missing"
verify_parsed parsed binding (some place) = do
  flags ← boundary_flags place.block
  reject_if (not (place.block == projection binding parsed.eol flags.0 flags.1))
      "managed block mismatch or tampered content"

unfoldable pub verify_managed_block : Units → GovernanceBinding → Result (Unit {0})
unfolding parse verify_parsed
verify_managed_block input binding =
    parse input >>= λ parsed. verify_parsed parsed binding parsed.place
