-- ===== src/ManagedBlock/Markers.antt =====
-- Where the markers of src/managed-block.ts are found in a text that ends with a managed block.
use agent_governance.Base.{
  ℕ, ◌+◌, ◌≡◌, refl, sym, ap, ap₂, ◌∙◌, Bool, false, ◌||◌, none, some, List, [], ◌∷◌, ◌++◌, nat_eq,
  length, length-append, All, arith, ◌⊎◌, inl, inr,
}
use agent_governance.Base.Text.{Units, units}
use agent_governance.ManagedBlock.Scan.{
  after, starts_with, dropped, includes, scan, occurrences, other_version, foreign_here, is_foreign,
}
use agent_governance.ManagedBlock.Scan.Laws.{
  IsFree, opening, ending, after-append, scan-free, scan-found, scan-missed, scan-separator,
  includes-separator, is_foreign-free, is_foreign-break, all-append,
}
use agent_governance.ManagedBlock.{begin_marker, end_marker, Eol, lf, crlf, eol_units}
use agent_governance.ManagedBlock.Block.{lines_then, append_assoc, append_nil, IsPlain}

or_false : {a b : Bool} (c : Bool) → a ≡ (b || c) → a ≡ false → b ≡ false
or_false c e h = ground arith

-- The text is empty or its last line has ended.
abbrev pub IsEnded : Units → Type 0
IsEnded head = (head ≡ []) ⊎ ((front : Units) × (head ≡ front ++ b'\n' ∷ []))

scan-ended :
    (v : ℕ) (vs head rest : Units)
    → IsFree b'\n' (v ∷ vs)
    → IsEnded head
    → includes (v ∷ vs) head ≡ false
    → scan (v ∷ vs) 0 0 (head ++ rest) ≡ scan (v ∷ vs) 0 (length head) rest
scan-ended v vs head rest free (inl empty) h = rw empty refl
scan-ended v vs head rest free (inr (front, q)) h =
    let apart = includes-separator b'\n' v vs free front [] in
    let clean : includes (v ∷ vs) front ≡ false =
      or_false (includes (v ∷ vs) []) apart (rw q at h) in
    let moved = scan-separator b'\n' v vs free 0 front rest clean in
    let joined = append_assoc front (b'\n' ∷ []) rest in
    let size : 0 + length front + 1 ≡ length (front ++ b'\n' ∷ []) =
      omega (arith, length-append front (b'\n' ∷ [])) in
    rw q (rw joined (moved ∙ ap (λ i. scan (v ∷ vs) 0 i rest) size))

is_foreign-ended :
    (head rest : Units)
    → IsEnded head
    → is_foreign head ≡ false
    → is_foreign (head ++ rest) ≡ is_foreign rest
is_foreign-ended head rest (inl empty) h = rw empty refl
is_foreign-ended head rest (inr (front, q)) h =
    let clean : is_foreign front ≡ false =
      or_false (is_foreign []) (is_foreign-break b'\n' (inl refl) front []) (rw q at h) in
    let apart = is_foreign-break b'\n' (inl refl) front rest in
    rw q (rw (append_assoc front (b'\n' ∷ []) rest) (simp clean at apart))

-- the eols and the lines have no angle bracket
eol-IsFree : (eol : Eol) → IsFree b'<' (eol_units eol)
unfolding nat_eq
eol-IsFree lf = refl
eol-IsFree crlf = refl

pub lines-IsFree :
    (eol : Eol) (lines : List Units)
    → All IsPlain lines
    → IsFree b'<' (lines_then (eol_units eol) lines [])
lines-IsFree eol [] h = refl
lines-IsFree eol (line ∷ lines) (plain, h) =
    all-append b'<' line _ plain.0
      (all-append b'<' (eol_units eol) _ (eol-IsFree eol) (lines-IsFree eol lines h))

-- the markers in the block
abbrev begin_rest : Units
begin_rest = dropped 1 begin_marker

abbrev end_rest : Units
end_rest = dropped 1 end_marker

begin_not_ending : (xs : Units) → after ending (begin_marker ++ xs) ≡ none
unfolding after nat_eq
begin_not_ending xs = refl

end_not_opening : (xs : Units) → after opening (end_marker ++ xs) ≡ none
unfolding after nat_eq
end_not_opening xs = refl

same_version : (xs : Units) → other_version (some (units "V1 -->" ++ xs)) ≡ false
unfolding other_version starts_with
same_version xs = let version = after-append (units "V1 -->") xs in simp version

foreign_here-begin : (xs : Units) → foreign_here (begin_marker ++ xs) ≡ false
unfolding foreign_here
foreign_here-begin xs =
    let opened : after opening (begin_marker ++ xs) ≡ some (units "V1 -->" ++ xs) =
      after-append opening (units "V1 -->" ++ xs) in
    ap₂ ◌||◌ (ap other_version opened ∙ same_version xs) (ap other_version (begin_not_ending xs))

foreign_here-end : (xs : Units) → foreign_here (end_marker ++ xs) ≡ false
unfolding foreign_here
foreign_here-end xs =
    let closed : after ending (end_marker ++ xs) ≡ some (units "V1 -->" ++ xs) =
      after-append ending (units "V1 -->" ++ xs) in
    ap₂ ◌||◌ (ap other_version (end_not_opening xs)) (ap other_version closed ∙ same_version xs)

rests-IsFree : IsFree b'<' begin_rest × IsFree b'<' end_rest
unfolding nat_eq
rests-IsFree = (refl, refl)

markers-IsFree : IsFree b'\n' begin_marker × IsFree b'\n' end_marker
unfolding nat_eq
markers-IsFree = (refl, refl)

end_not_begin : (xs : Units) → starts_with begin_marker (end_marker ++ xs) ≡ false
unfolding starts_with after nat_eq
end_not_begin xs = refl

begin_not_end : (xs : Units) → starts_with end_marker (begin_marker ++ xs) ≡ false
unfolding starts_with after nat_eq
begin_not_end xs = refl

scan-nothing :
    (v : ℕ) (vs : Units) (index : ℕ) (xs : Units) → IsFree v xs → scan (v ∷ vs) 0 index xs ≡ []
unfolding scan
scan-nothing v vs index xs free =
    ap (scan (v ∷ vs) 0 index) (sym (append_nil xs)) ∙ scan-free v vs index xs [] free

is_foreign-begin : (xs : Units) → is_foreign (begin_marker ++ xs) ≡ is_foreign xs
unfolding is_foreign
is_foreign-begin xs =
    ap₂ ◌||◌ (foreign_here-begin xs) (is_foreign-free begin_rest xs rests-IsFree.0)

is_foreign-end : (xs : Units) → is_foreign (end_marker ++ xs) ≡ is_foreign xs
unfolding is_foreign
is_foreign-end xs = ap₂ ◌||◌ (foreign_here-end xs) (is_foreign-free end_rest xs rests-IsFree.1)

-- a text with a block: the front, the markers around the lines, and an end of line
abbrev pub with_block : Units → Units → Units → Units
with_block head inner eol = head ++ (begin_marker ++ (inner ++ (end_marker ++ eol)))

module _ (head inner eol : Units) (ended : IsEnded head) (inner-IsFree : IsFree b'<' inner)
    (eol-IsFree : IsFree b'<' eol) where
  pub with_block-foreign : is_foreign head ≡ false → is_foreign (with_block head inner eol) ≡ false
  unfolding is_foreign
  with_block-foreign h =
      is_foreign-ended head _ ended h
      ∙ is_foreign-begin (inner ++ (end_marker ++ eol))
      ∙ is_foreign-free inner (end_marker ++ eol) inner-IsFree
      ∙ is_foreign-end eol
      ∙ ap is_foreign (sym (append_nil eol))
      ∙ is_foreign-free eol [] eol-IsFree

  pub with_block-begins :
      includes begin_marker head ≡ false
      → occurrences begin_marker (with_block head inner eol) ≡ length head ∷ []
  unfolding occurrences
  with_block-begins h =
      scan-ended b'<' begin_rest head (begin_marker ++ (inner ++ (end_marker ++ eol)))
        markers-IsFree.0 ended h
      ∙ scan-found b'<' begin_rest (length head) (inner ++ (end_marker ++ eol))
      ∙ ap (λ found. length head ∷ found)
          (scan-free b'<' begin_rest _ inner (end_marker ++ eol) inner-IsFree
            ∙ scan-missed b'<' begin_rest b'<' end_rest _ eol (end_not_begin eol) rests-IsFree.1
            ∙ scan-nothing b'<' begin_rest _ eol eol-IsFree)

  pub with_block-ends :
      includes end_marker head ≡ false
      → occurrences end_marker (with_block head inner eol)
        ≡ (length head + length begin_marker + length inner) ∷ []
  unfolding occurrences
  with_block-ends h =
      scan-ended b'<' end_rest head (begin_marker ++ (inner ++ (end_marker ++ eol)))
        markers-IsFree.1 ended h
      ∙ scan-missed b'<' end_rest b'<' begin_rest (length head) (inner ++ (end_marker ++ eol))
          (begin_not_end (inner ++ (end_marker ++ eol))) rests-IsFree.0
      ∙ scan-free b'<' end_rest _ inner (end_marker ++ eol) inner-IsFree
      ∙ scan-found b'<' end_rest _ eol
      ∙ ap₂ ◌∷◌ (omega arith) (scan-nothing b'<' end_rest _ eol eol-IsFree)
