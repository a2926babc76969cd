-- ===== src/ManagedBlock/RoundTrip.antt =====
-- The operations of src/managed-block.ts on a text into which they have put a managed block.
use agent_governance.Base.{
  ◌+◌, ◌≡◌, refl, sym, ap, ap₂, ◌∙◌, subst, Bool, true, false, ◌||◌, none, some, List, [], ◌∷◌,
  ◌++◌, nat_eq, list_eq, ◌==◌, ==_iff, length, length-append, All, ◌⊎◌, inl, inr, ok,
}
use agent_governance.Base.Text.{Units}
use agent_governance.ManagedBlock.Scan.{dropped, taken, ends_with, includes, occurrences}
use agent_governance.ManagedBlock.Scan.Laws.{
  scan-none, includes_mono, ends_with-last, crlf_units, crlf-free, crlf-append, IsFree, all-append,
}
use agent_governance.ManagedBlock.{
  GovernanceBinding, begin_marker, end_marker, Eol, lf, crlf, eol_units, eol_if, has_crlf, Place,
  ParsedEntry, parse_markers, parse, projection, boundary_flags, adds_prefix, prefix_of, appended,
  install_parsed, install_managed_block, cut_prefix, cut_suffix, remove_parsed,
  remove_managed_block, verify_parsed, verify_managed_block,
}
use agent_governance.ManagedBlock.Block.{
  lines_then, append_assoc, append_nil, IsPlain, HasPlainFields, middle, middle-IsPlain,
  projection-lines,
}
use agent_governance.ManagedBlock.Flags.{boundary_flags-projection}
use agent_governance.ManagedBlock.Laws.{
  front, parse-appended, markers_breakless, IsUnmarked, dropped-append, taken-append,
  ends_with-append, without_end-append, eol_starts,
}

-- A text that ends with a carriage return has a pair of one and a line feed as well.
abbrev pub IsSettled : Units → Type 0
IsSettled text = (has_crlf text ≡ true) ⊎ (ends_with (b'\r' ∷ []) text ≡ false)

or_true : (b : Bool) → (b || true) ≡ true
or_true true = refl
or_true false = refl

lines_carriage :
    (lines : List Units)
    → All IsPlain lines
    → IsFree b'\r' (lines_then (eol_units lf) lines end_marker)
unfolding nat_eq
lines_carriage [] h = refl
lines_carriage (line ∷ lines) (plain, h) =
    let rest = lines_then (eol_units lf) lines end_marker in
    all-append b'\r' line (eol_units lf ++ rest) plain.2
      (all-append b'\r' (eol_units lf) rest refl (lines_carriage lines h))

prefix_carriage : (b : Bool) → IsFree b'\r' (prefix_of b lf)
unfolding nat_eq
prefix_carriage true = refl
prefix_carriage false = refl

feed_carriage : IsFree b'\r' (eol_units lf)
unfolding nat_eq
feed_carriage = refl

module _ (text : Units) (binding : GovernanceBinding) (plain : HasPlainFields binding) where
  projection_carriage : (p s : Bool) → IsFree b'\r' (projection binding lf p s)
  projection_carriage p s =
      let rest = lines_then (eol_units lf) (middle binding p s) end_marker in
      rw (projection-lines binding lf p s) (
        all-append b'\r' begin_marker (eol_units lf ++ rest) markers_breakless.0.1 (
          all-append b'\r' (eol_units lf) rest feed_carriage
            (lines_carriage (middle binding p s) (middle-IsPlain binding p s plain))))

  -- The ends of the lines are read from the installed text as they were from the text.
  installed_eol :
      (b : Bool)
      → has_crlf text ≡ b
      → IsSettled text
      → eol_if (
          has_crlf (projection binding (eol_if b) (adds_prefix text) true)
          || has_crlf (appended text (eol_if b) binding))
        ≡ eol_if b
  unfolding has_crlf appended
  installed_eol true q settled =
      let rest = projection binding crlf (adds_prefix text) true ++ eol_units crlf in
      let kept : includes crlf_units ((text ++ prefix_of (adds_prefix text) crlf) ++ rest) ≡ true =
        rw (append_assoc text (prefix_of (adds_prefix text) crlf) rest)
          (includes_mono b'\r' (b'\n' ∷ []) text (prefix_of (adds_prefix text) crlf ++ rest) q) in
      ap eol_if (
        ap (λ b. has_crlf (projection binding crlf (adds_prefix text) true) || b) kept
        ∙ or_true (has_crlf (projection binding crlf (adds_prefix text) true)))
  installed_eol false q (inl pair) = absurd (let no = sym q ∙ pair in cc)
  installed_eol false q (inr settled) =
      let last = sym (ends_with-last b'\r' text) ∙ settled in
      let block = projection_carriage (adds_prefix text) true in
      let rest = projection binding lf (adds_prefix text) true ++ eol_units lf in
      let tail =
        all-append b'\r' (prefix_of (adds_prefix text) lf) rest (prefix_carriage (adds_prefix text))
          (all-append b'\r' (projection binding lf (adds_prefix text) true) (eol_units lf) block
            feed_carriage) in
      let kept : includes crlf_units ((text ++ prefix_of (adds_prefix text) lf) ++ rest) ≡ false =
        rw (append_assoc text (prefix_of (adds_prefix text) lf) rest)
          (crlf-append text (prefix_of (adds_prefix text) lf ++ rest) last tail ∙ q) in
      ap eol_if (ap₂ ◌||◌ (crlf-free (projection binding lf (adds_prefix text) true) block) kept)

abbrev pub own_eol : Units → Eol
own_eol text = eol_if (has_crlf text)

module _ (text : Units) (binding : GovernanceBinding) (plain : HasPlainFields binding)
    (unmarked : IsUnmarked text) (settled : IsSettled text) where
  abbrev installed : Units
  installed = appended text (own_eol text) binding

  parse-text : parse text ≡ ok (record { text = text; eol = (own_eol text); place = none })
  unfolding parse parse_markers occurrences
  parse-text =
      let begins = scan-none b'<' (dropped 1 begin_marker) 0 text unmarked.1 in
      let ends = scan-none b'<' (dropped 1 end_marker) 0 text unmarked.2 in
      let foreign = unmarked.0 in simp (foreign, begins, ends)

  install_lem : install_managed_block text binding ≡ ok installed
  unfolding install_managed_block install_parsed
  install_lem = simp parse-text

  abbrev own_place : Place
  own_place = record {
    start = length (front text (own_eol text));
    stop =
        length (front text (own_eol text))
        + length (projection binding (own_eol text) (adds_prefix text) true);
    block = projection binding (own_eol text) (adds_prefix text) true;
  }

  -- the installed text as `parse` sees it
  parse-installed :
      parse installed
      ≡ ok (record { text = installed; eol = (own_eol text); place = some own_place })
  parse-installed =
      parse-appended text (own_eol text) binding plain unmarked
      ∙ ap (λ eol. ok (record { text = installed; eol = eol; place = some own_place }))
          (installed_eol text binding plain (has_crlf text) refl settled)

  flags :
      boundary_flags (projection binding (own_eol text) (adds_prefix text) true)
      ≡ ok (adds_prefix text, true)
  flags = boundary_flags-projection binding (own_eol text) (adds_prefix text) true plain

-- What the operations do with a block whose flags are read.
remove_parsed-at :
    (parsed : ParsedEntry) (place : Place) (p s : Bool) (head tail : Units)
    → boundary_flags place.block ≡ ok (p, s)
    → taken place.start parsed.text ≡ head
    → dropped place.stop parsed.text ≡ tail
    → remove_parsed parsed (some place)
      ≡ ok (cut_prefix p (eol_units parsed.eol) head ++ cut_suffix s (eol_units parsed.eol) tail)
unfolding remove_parsed
remove_parsed-at parsed place p s head tail flags front back = simp (flags, front, back)

install_parsed-at :
    (parsed : ParsedEntry) (binding : GovernanceBinding) (place : Place) (p s : Bool)
    (head tail : Units)
    → boundary_flags place.block ≡ ok (p, s)
    → taken place.start parsed.text ≡ head
    → dropped place.stop parsed.text ≡ tail
    → install_parsed parsed binding (some place)
      ≡ ok (head ++ (projection binding parsed.eol p s ++ tail))
unfolding install_parsed
install_parsed-at parsed binding place p s head tail flags front back = simp (flags, front, back)

verify_parsed-at :
    (parsed : ParsedEntry) (binding : GovernanceBinding) (place : Place) (p s : Bool)
    → boundary_flags place.block ≡ ok (p, s)
    → place.block ≡ projection binding parsed.eol p s
    → verify_parsed parsed binding (some place) ≡ ok tt
unfolding verify_parsed
verify_parsed-at parsed binding place p s flags same =
    let equal : (place.block == projection binding parsed.eol p s) ≡ true =
      (==_iff {A = Units} place.block (projection binding parsed.eol p s)).1 same in
    simp (flags, equal)

cut_prefix-front :
    (b : Bool) (text : Units) (eol : Eol)
    → cut_prefix b (eol_units eol) (text ++ prefix_of b eol) ≡ text
cut_prefix-front false text eol = append_nil text
cut_prefix-front true text eol =
    let closed = ends_with-append text eol in simp closed (without_end-append text (eol_units eol))

dropped-eol : (eol : Eol) → dropped (length (eol_units eol)) (eol_units eol) ≡ []
dropped-eol lf = refl
dropped-eol crlf = refl

cut_suffix-eol : (eol : Eol) → cut_suffix true (eol_units eol) (eol_units eol) ≡ []
cut_suffix-eol eol = let starts = eol_starts eol in simp starts (dropped-eol eol)

dropped-append_at :
    (head block tail : Units)
    → dropped (length head + length block) (head ++ (block ++ tail)) ≡ tail
dropped-append_at head block tail =
    ap (λ n. dropped n (head ++ (block ++ tail))) (sym (length-append head block))
    ∙ ap (dropped (length (head ++ block))) (sym (append_assoc head block tail))
    ∙ dropped-append (head ++ block) tail

module _ (text : Units) (binding : GovernanceBinding) (plain : HasPlainFields binding)
    (unmarked : IsUnmarked text) (settled : IsSettled text) where
  abbrev whole : Units
  whole = appended text (own_eol text) binding

  abbrev place : Place
  place = own_place text binding plain unmarked settled

  abbrev parsed : ParsedEntry
  parsed = record { text = whole; eol = own_eol text; place = some place }

  front_found : taken place.start whole ≡ front text (own_eol text)
  unfolding appended
  front_found = taken-append (front text (own_eol text)) _

  tail_found : dropped place.stop whole ≡ eol_units (own_eol text)
  unfolding appended
  tail_found = dropped-append_at (front text (own_eol text)) place.block (eol_units (own_eol text))

  removed : remove_managed_block whole ≡ ok text
  unfolding remove_managed_block
  removed =
      let seen = parse-installed text binding plain unmarked settled in
      simp seen (
        remove_parsed-at parsed place (adds_prefix text) true _ _
          (flags text binding plain unmarked settled) front_found tail_found
        ∙ ap ok (
            ap₂ ◌++◌ (cut_prefix-front (adds_prefix text) text (own_eol text))
              (cut_suffix-eol (own_eol text))
            ∙ append_nil text))

  verified : verify_managed_block whole binding ≡ ok tt
  unfolding verify_managed_block
  verified =
      let seen = parse-installed text binding plain unmarked settled in
      simp seen (
        verify_parsed-at parsed binding place (adds_prefix text) true
          (flags text binding plain unmarked settled) refl)

  kept : install_managed_block whole binding ≡ ok whole
  unfolding install_managed_block
  kept =
      let seen = parse-installed text binding plain unmarked settled in
      simp seen (
        install_parsed-at parsed binding place (adds_prefix text) true _ _
          (flags text binding plain unmarked settled) front_found tail_found)

  installed_whole : {out : Units} → install_managed_block text binding ≡ ok out → whole ≡ out
  installed_whole e = let put = install_lem text binding plain unmarked settled in cc

-- The removal of a block that has been installed gives the text back. The text has no marker and does
-- not end with a carriage return, or has line ends of a carriage return and a line feed; the fields of
-- the binding have no line break and no angle bracket.
pub remove_managed_block-install :
    (text : Units) (binding : GovernanceBinding) {installed : Units}
    → HasPlainFields binding
    → IsUnmarked text
    → IsSettled text
    → install_managed_block text binding ≡ ok installed
    → remove_managed_block installed ≡ ok text
remove_managed_block-install text binding plain unmarked settled e =
    subst (λ out. remove_managed_block out ≡ ok text)
      (installed_whole text binding plain unmarked settled e)
      (removed text binding plain unmarked settled)

-- An installed block is verified against the same binding, and a second installation of it changes
-- nothing, under the same conditions.
pub verify_managed_block-install :
    (text : Units) (binding : GovernanceBinding) {installed : Units}
    → HasPlainFields binding
    → IsUnmarked text
    → IsSettled text
    → install_managed_block text binding ≡ ok installed
    → (verify_managed_block installed binding ≡ ok tt)
      × (install_managed_block installed binding ≡ ok installed)
verify_managed_block-install text binding plain unmarked settled e =
    subst
      (λ out.
        (verify_managed_block out binding ≡ ok tt) × (install_managed_block out binding ≡ ok out))
      (installed_whole text binding plain unmarked settled e)
      (verified text binding plain unmarked settled, kept text binding plain unmarked settled)
