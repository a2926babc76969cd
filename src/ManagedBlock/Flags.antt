-- ===== src/ManagedBlock/Flags.antt =====
-- Which flags `boundaryFlags` of src/managed-block.ts reads from a block that `projection` has made.
use agent_governance.Base.{
  ℕ, ◌≡◌, refl, sym, ap, ap₂, ◌∙◌, Bool, true, false, none, some, List, [], ◌∷◌, ◌++◌, nat_eq, ◌==◌,
  ==_refl, All, arith, ok,
}
use agent_governance.Base.Text.{Units, units}
use agent_governance.ManagedBlock.Scan.{after, starts_with}
use agent_governance.ManagedBlock.Scan.Laws.{IsFree, all-append}
use agent_governance.ManagedBlock.{
  GovernanceBinding, begin_marker, end_marker, Eol, lf, crlf, eol_units, projection, boolean_text,
  flag_here, find_flag, boundary_flags, prefix_label, suffix_label, both, first_flag,
}
use agent_governance.ManagedBlock.Block.{
  lines_then, append_assoc, HasPlainFields, middle-IsPlain, projection-lines,
}

-- The search goes on in the next line.
find_flag-line :
    (label xs rest : Units)
    → IsFree b'\n' xs
    → find_flag label false (xs ++ b'\n' ∷ rest) ≡ find_flag label true rest
unfolding find_flag
find_flag-line label [] rest h = ap (λ b. find_flag label b rest) (==_refl {A = ℕ} b'\n')
find_flag-line label (x ∷ xs) rest h =
    let other : (x == b'\n') ≡ false = ground arith in
    simp other (find_flag-line label xs rest (ground arith))

flag_here-missed :
    (label text : Units) → starts_with label text ≡ false → flag_here label text ≡ none
unfolding flag_here
flag_here-missed label text h = simp h

find_flag-miss :
    (label : Units) (c : ℕ) (text : Units)
    → starts_with label (c ∷ text) ≡ false
    → find_flag label true (c ∷ text) ≡ find_flag label (c == b'\n') text
unfolding find_flag
find_flag-miss label c text miss =
    ap (λ found. first_flag found (find_flag label (c == b'\n') text))
      (flag_here-missed label (c ∷ text) miss)

find_flag-skip :
    (label xs rest : Units)
    → IsFree b'\n' xs
    → starts_with label (xs ++ b'\n' ∷ rest) ≡ false
    → find_flag label true (xs ++ b'\n' ∷ rest) ≡ find_flag label true rest
find_flag-skip label [] rest h miss =
    find_flag-miss label b'\n' rest miss ∙ ap (λ b. find_flag label b rest) (==_refl {A = ℕ} b'\n')
find_flag-skip label (x ∷ xs) rest h miss =
    let other : (x == b'\n') ≡ false = ground arith in
    find_flag-miss label x (xs ++ b'\n' ∷ rest) miss
    ∙ ap (λ b. find_flag label b (xs ++ b'\n' ∷ rest)) other
    ∙ find_flag-line label xs rest (ground arith)

-- The line does not start with the label.
abbrev Skips : Units → Units → Type 0
Skips label line = IsFree b'\n' line × ((more : Units) → starts_with label (line ++ more) ≡ false)

carriage-IsFree : IsFree b'\n' (b'\r' ∷ [])
unfolding nat_eq
carriage-IsFree = refl

find_flag-eol :
    (label : Units) (eol : Eol) (line rest : Units)
    → Skips label line
    → find_flag label true (line ++ (eol_units eol ++ rest)) ≡ find_flag label true rest
find_flag-eol label lf line rest (free, miss) =
    find_flag-skip label line rest free (miss (b'\n' ∷ rest))
find_flag-eol label crlf line rest (free, miss) =
    let whole = append_assoc line (b'\r' ∷ []) (b'\n' ∷ rest) in
    ap (find_flag label true) (sym whole)
    ∙ find_flag-skip label (line ++ b'\r' ∷ []) rest
        (all-append b'\n' line (b'\r' ∷ []) free carriage-IsFree)
        (ap (starts_with label) whole ∙ miss (b'\r' ∷ b'\n' ∷ rest))

find_flag-lines :
    (label : Units) (eol : Eol) (lines : List Units) (rest : Units)
    → All (Skips label) lines
    → find_flag label true (lines_then (eol_units eol) lines rest) ≡ find_flag label true rest
find_flag-lines label eol [] rest h = refl
find_flag-lines label eol (line ∷ lines) rest (skip, h) =
    find_flag-eol label eol line (lines_then (eol_units eol) lines rest) skip
    ∙ find_flag-lines label eol lines rest h

-- the lines in front of the flags
abbrev front : GovernanceBinding → List Units
front binding =
    begin_marker
    ∷ units
        "This is a generated projection; the installed governance bundle is the only normative source."
    ∷ (units "Governance version: " ++ binding.version)
    ∷ (units "Canonical installation root: " ++ binding.installation_root)
    ∷ (units "Normative governance entry: " ++ binding.governance_path)
    ∷ (units "Normative manifest: " ++ binding.manifest_path)
    ∷ (units "Expected governance SHA-256: " ++ binding.governance_digest)
    ∷ (units "Expected manifest SHA-256: " ++ binding.manifest_digest)
    ∷ (units "Expected bundle SHA-256: " ++ binding.bundle_digest)
    ∷ units
        "Before every response, load the normative governance entry and manifest from these exact paths."
    ∷ units
        "Keep personal local rules separate and resolve them only through the installed manifest."
    ∷ units
        "If governance is missing, changed, ambiguous, or conflicts with another normative source, fail closed."
    ∷ []

module _ (binding : GovernanceBinding) (p s : Bool) (plain : HasPlainFields binding) where
  front-Skips-prefix : All (Skips prefix_label) (front binding)
  unfolding starts_with after nat_eq
  front-Skips-prefix =
      let (l1, (l2, (l3, (l4, (l5, (l6, (l7, (l8, (l9, (l10, (l11, rest))))))))))) =
        middle-IsPlain binding p s plain in
      (
        (refl, λ more. refl),
        (
          (l1.1, λ more. refl),
          (
            (l2.1, λ more. refl),
            (
              (l3.1, λ more. refl),
              (
                (l4.1, λ more. refl),
                (
                  (l5.1, λ more. refl),
                  (
                    (l6.1, λ more. refl),
                    (
                      (l7.1, λ more. refl),
                      (
                        (l8.1, λ more. refl),
                        (
                          (l9.1, λ more. refl),
                          ((l10.1, λ more. refl), ((l11.1, λ more. refl), tt)),
                        ),
                      ),
                    ),
                  ),
                ),
              ),
            ),
          ),
        ),
      )

  front-Skips-suffix : All (Skips suffix_label) (front binding)
  unfolding starts_with after nat_eq
  front-Skips-suffix =
      let (l1, (l2, (l3, (l4, (l5, (l6, (l7, (l8, (l9, (l10, (l11, rest))))))))))) =
        middle-IsPlain binding p s plain in
      (
        (refl, λ more. refl),
        (
          (l1.1, λ more. refl),
          (
            (l2.1, λ more. refl),
            (
              (l3.1, λ more. refl),
              (
                (l4.1, λ more. refl),
                (
                  (l5.1, λ more. refl),
                  (
                    (l6.1, λ more. refl),
                    (
                      (l7.1, λ more. refl),
                      (
                        (l8.1, λ more. refl),
                        (
                          (l9.1, λ more. refl),
                          ((l10.1, λ more. refl), ((l11.1, λ more. refl), tt)),
                        ),
                      ),
                    ),
                  ),
                ),
              ),
            ),
          ),
        ),
      )

flags_then : Eol → Bool → Bool → Units → Units
flags_then eol p s rest =
    lines_then (eol_units eol)
      ((prefix_label ++ boolean_text p) ∷ (suffix_label ++ boolean_text s) ∷ []) rest

prefix_found :
    (eol : Eol) (p s : Bool) → find_flag prefix_label true (flags_then eol p s end_marker) ≡ some p
unfolding flags_then find_flag nat_eq starts_with
prefix_found lf true s = refl
prefix_found lf false s = refl
prefix_found crlf true s = refl
prefix_found crlf false s = refl

suffix_found :
    (eol : Eol) (s : Bool)
    → find_flag suffix_label true
        (lines_then (eol_units eol) ((suffix_label ++ boolean_text s) ∷ []) end_marker)
      ≡ some s
unfolding find_flag nat_eq starts_with
suffix_found lf true = refl
suffix_found lf false = refl
suffix_found crlf true = refl
suffix_found crlf false = refl

prefix_line : (p : Bool) → Skips suffix_label (prefix_label ++ boolean_text p)
unfolding starts_with after nat_eq
prefix_line true = (refl, λ more. refl)
prefix_line false = (refl, λ more. refl)

-- The flags that are read from a projection are those that it was made with.
pub boundary_flags-projection :
    (binding : GovernanceBinding) (eol : Eol) (p s : Bool)
    → HasPlainFields binding
    → boundary_flags (projection binding eol p s) ≡ ok (p, s)
unfolding boundary_flags flags_then
boundary_flags-projection binding eol p s plain =
    let text = projection-lines binding eol p s in
    let prefix =
      find_flag-lines prefix_label eol (front binding) (flags_then eol p s end_marker)
        (front-Skips-prefix binding p s plain)
      ∙ prefix_found eol p s in
    let suffix =
      find_flag-lines suffix_label eol (front binding) (flags_then eol p s end_marker)
        (front-Skips-suffix binding p s plain)
      ∙ find_flag-eol suffix_label eol (prefix_label ++ boolean_text p) _ (prefix_line p)
      ∙ suffix_found eol s in
    rw text (ap₂ both prefix suffix)
