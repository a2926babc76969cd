-- ===== src/ManagedBlock/Laws.antt =====
-- How `parse` of src/managed-block.ts sees a text to which a managed block has been appended.
use agent_governance.Base.{
  ℕ, ◌+◌, ◌-◌, ◌≡◌, refl, sym, ap, ap₂, ◌∙◌, Bool, true, false, ◌||◌, some, [], ◌∷◌, ◌++◌, nat_eq,
  length, length-append, leb, ltb, ◌≤◌, arith, inl, inr, ok,
}
use agent_governance.Base.Text.{Units}
use agent_governance.ManagedBlock.Scan.{
  after, starts_with, dropped, taken, ends_with, includes, occurrences, is_foreign,
}
use agent_governance.ManagedBlock.Scan.Laws.{
  ends_with-last, is_last-split, IsFree, includes-separator, is_foreign-break, all-append,
}
use agent_governance.ManagedBlock.{
  GovernanceBinding, begin_marker, end_marker, Eol, lf, crlf, eol_units, eol_if, has_crlf,
  ParsedEntry, locate, parse_markers, parse, projection, adds_prefix, prefix_of, appended,
  without_end,
}
use agent_governance.ManagedBlock.Block.{
  lines_then, lines_then-append, append_assoc, append_nil, HasPlainFields, middle, middle-IsPlain,
  projection-lines,
}
use agent_governance.ManagedBlock.Markers.{
  IsEnded, with_block, with_block-foreign, with_block-begins, with_block-ends, lines-IsFree,
}

pub dropped-append : (xs ys : Units) → dropped (length xs) (xs ++ ys) ≡ ys
dropped-append [] ys = refl
dropped-append (x ∷ xs) ys = dropped-append xs ys

pub taken-append : (xs ys : Units) → taken (length xs) (xs ++ ys) ≡ xs
taken-append [] ys = refl
taken-append (x ∷ xs) ys = λ i. x ∷ taken-append xs ys i

pub eol_starts : (eol : Eol) → starts_with (eol_units eol) (eol_units eol) ≡ true
unfolding starts_with after nat_eq
eol_starts lf = refl
eol_starts crlf = refl

pub ends_with-append :
    (xs : Units) (eol : Eol) → ends_with (eol_units eol) (xs ++ eol_units eol) ≡ true
unfolding ends_with
ends_with-append xs eol =
    let size = length-append xs (eol_units eol) in
    let rest : length (xs ++ eol_units eol) - length (eol_units eol) ≡ length xs =
      omega (arith, size) in
    let long : leb (length (eol_units eol)) (length (xs ++ eol_units eol)) ≡ true =
      ground (arith, size) in
    simp (long, rest, dropped-append) (eol_starts eol)

pub without_end-append : (xs ys : Units) → without_end ys (xs ++ ys) ≡ xs
without_end-append xs ys =
    let size = length-append xs ys in
    let rest : length (xs ++ ys) - length ys ≡ length xs = omega (arith, size) in
    rw rest (taken-append xs ys)

-- the text with the block from `start` on
abbrev pub found : Units → ℕ → ℕ → Units → ParsedEntry
found text start stop block = record {
  text = text;
  eol = eol_if (has_crlf block || has_crlf text);
  place = some (record { start = start; stop = stop; block = block });
}

-- a text with one block, at the positions that are given
parse-place :
    (text head block tail : Units) (finish : ℕ)
    → text ≡ head ++ (block ++ tail)
    → is_foreign text ≡ false
    → occurrences begin_marker text ≡ length head ∷ []
    → occurrences end_marker text ≡ finish ∷ []
    → finish + length end_marker ≡ length head + length block
    → length head ≤ finish
    → parse text ≡ ok (found text (length head) (length head + length block) block)
unfolding parse parse_markers locate
parse-place text head block tail finish whole foreign begins ends size order =
    let inside : length head + length block - length head ≡ length block = omega arith in
    let start : ltb finish (length head) ≡ false = ground arith in
    let cut : taken (length block) (dropped (length head) text) ≡ block =
      ap (λ t. taken (length block) (dropped (length head) t)) whole
      ∙ ap (taken (length block)) (dropped-append head (block ++ tail))
      ∙ taken-append block tail in
    simp (foreign, begins, ends, start, size, inside)
      (ap (λ b. ok (found text (length head) (length head + length block) b)) cut)

not-IsEnded : (text : Units) → adds_prefix text ≡ false → IsEnded text
unfolding adds_prefix
not-IsEnded [] h = inl refl
not-IsEnded (c ∷ text) h =
    let closed : ends_with (b'\n' ∷ []) (c ∷ text) ≡ true = ground arith in
    inr (is_last-split b'\n' (c ∷ text) (sym (ends_with-last b'\n' (c ∷ text)) ∙ closed))

includes-nil : (v : ℕ) (vs : Units) → includes (v ∷ vs) [] ≡ false
unfolding includes starts_with after
includes-nil v vs = refl

includes-feed :
    (v : ℕ) (vs : Units) → IsFree b'\n' (v ∷ vs) → includes (v ∷ vs) (b'\n' ∷ []) ≡ false
includes-feed v vs free =
    includes-separator b'\n' v vs free [] [] ∙ ap₂ ◌||◌ (includes-nil v vs) (includes-nil v vs)

foreign_nil : is_foreign [] ≡ false
unfolding is_foreign
foreign_nil = refl

foreign_feed : is_foreign (b'\n' ∷ []) ≡ false
foreign_feed = is_foreign-break b'\n' (inl refl) [] [] ∙ ap₂ ◌||◌ foreign_nil foreign_nil

-- the front of the text: what was there, with its last line ended
module _ (text : Units) (eol : Eol) where
  abbrev pub front : Units
  front = text ++ prefix_of (adds_prefix text) eol

  pub front-IsEnded : IsEnded front
  front-IsEnded = split (adds_prefix text) refl
    where
      split : (b : Bool) → adds_prefix text ≡ b → IsEnded (text ++ prefix_of b eol)
      split true h = ended eol
        where
          ended : (e : Eol) → IsEnded (text ++ eol_units e)
          ended lf = inr (text, refl)
          ended crlf = inr (text ++ b'\r' ∷ [], sym (append_assoc text (b'\r' ∷ []) (b'\n' ∷ [])))
      split false h = rw (append_nil text) (not-IsEnded text h)

  -- What is not in the text is not in its front either.
  front-includes :
      (v : ℕ) (vs : Units)
      → IsFree b'\n' (v ∷ vs)
      → IsFree b'\r' (v ∷ vs)
      → includes (v ∷ vs) text ≡ false
      → includes (v ∷ vs) front ≡ false
  front-includes v vs n r h = split (adds_prefix text)
    where
      eols : (e : Eol) → includes (v ∷ vs) (text ++ eol_units e) ≡ false
      eols lf = includes-separator b'\n' v vs n text [] ∙ ap₂ ◌||◌ h (includes-nil v vs)
      eols crlf =
          includes-separator b'\r' v vs r text (b'\n' ∷ []) ∙ ap₂ ◌||◌ h (includes-feed v vs n)

      split : (b : Bool) → includes (v ∷ vs) (text ++ prefix_of b eol) ≡ false
      split true = eols eol
      split false = rw (append_nil text) h

  front-foreign : is_foreign text ≡ false → is_foreign front ≡ false
  front-foreign h = split (adds_prefix text)
    where
      eols : (e : Eol) → is_foreign (text ++ eol_units e) ≡ false
      eols lf = is_foreign-break b'\n' (inl refl) text [] ∙ ap₂ ◌||◌ h foreign_nil
      eols crlf = is_foreign-break b'\r' (inr refl) text (b'\n' ∷ []) ∙ ap₂ ◌||◌ h foreign_feed

      split : (b : Bool) → is_foreign (text ++ prefix_of b eol) ≡ false
      split true = eols eol
      split false = rw (append_nil text) h

-- A text that has no markers: none of its own version and none of another.
abbrev pub IsUnmarked : Units → Type 0
IsUnmarked text =
    (is_foreign text ≡ false)
    × (includes begin_marker text ≡ false)
    × (includes end_marker text ≡ false)

pub markers_breakless :
    (IsFree b'\n' begin_marker × IsFree b'\r' begin_marker)
    × (IsFree b'\n' end_marker × IsFree b'\r' end_marker)
unfolding nat_eq
markers_breakless = ((refl, refl), (refl, refl))

eol_plain : (eol : Eol) → IsFree b'<' (eol_units eol)
unfolding nat_eq
eol_plain lf = refl
eol_plain crlf = refl

module _ (text : Units) (eol : Eol) (binding : GovernanceBinding) (plain : HasPlainFields binding)
    (unmarked : IsUnmarked text) where
  abbrev head : Units
  head = front text eol

  abbrev inner : Units
  inner = eol_units eol ++ lines_then (eol_units eol) (middle binding (adds_prefix text) true) []

  abbrev pub block : Units
  block = projection binding eol (adds_prefix text) true

  inner-IsFree : IsFree b'<' inner
  inner-IsFree = all-append b'<' (eol_units eol) _ (eol_plain eol) (
      lines-IsFree eol (middle binding (adds_prefix text) true)
        (middle-IsPlain binding (adds_prefix text) true plain))

  block_eq : block ≡ begin_marker ++ (inner ++ end_marker)
  block_eq =
      let lines =
        lines_then-append (eol_units eol) (middle binding (adds_prefix text) true) [] end_marker in
      projection-lines binding eol (adds_prefix text) true
      ∙ ap (λ rest. begin_marker ++ (eol_units eol ++ rest)) lines
      ∙ ap (λ rest. begin_marker ++ rest) (sym (append_assoc (eol_units eol) _ end_marker))

  installed_eq : appended text eol binding ≡ with_block head inner (eol_units eol)
  unfolding appended
  installed_eq =
      ap (λ b. head ++ (b ++ eol_units eol)) block_eq
      ∙ ap (λ rest. head ++ rest) (append_assoc begin_marker (inner ++ end_marker) (eol_units eol))
      ∙ ap (λ rest. head ++ (begin_marker ++ rest)) (append_assoc inner end_marker (eol_units eol))

  appended_eq : appended text eol binding ≡ head ++ (block ++ eol_units eol)
  unfolding appended
  appended_eq = refl

  size :
      length head + length begin_marker + length inner + length end_marker
      ≡ length head + length block
  size =
      let parts : length block ≡ 42 + (length inner + 40) =
        ap length block_eq
        ∙ length-append begin_marker (inner ++ end_marker)
        ∙ ap (λ n. length begin_marker + n) (length-append inner end_marker) in
      omega (arith, parts)

  pub parse-appended :
      parse (appended text eol binding)
      ≡ ok (found (appended text eol binding) (length head) (length head + length block) block)
  parse-appended =
      let ended = front-IsEnded text eol in
      let foreign =
        with_block-foreign head inner (eol_units eol) ended inner-IsFree (eol_plain eol)
          (front-foreign text eol unmarked.0) in
      let begins = with_block-begins head inner (eol_units eol) ended inner-IsFree (eol_plain eol) (
        front-includes text eol b'<' (dropped 1 begin_marker) markers_breakless.0.0
          markers_breakless.0.1 unmarked.1) in
      let ends = with_block-ends head inner (eol_units eol) ended inner-IsFree (eol_plain eol) (
        front-includes text eol b'<' (dropped 1 end_marker) markers_breakless.1.0
          markers_breakless.1.1 unmarked.2) in
      parse-place (appended text eol binding) head block (eol_units eol)
        (length head + length begin_marker + length inner) appended_eq
        (ap is_foreign installed_eq ∙ foreign) (ap (occurrences begin_marker) installed_eq ∙ begins)
        (ap (occurrences end_marker) installed_eq ∙ ends) size (omega arith)
