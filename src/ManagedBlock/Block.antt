-- ===== src/ManagedBlock/Block.antt =====
-- The lines of the managed block of src/managed-block.ts: where its markers are found, and which flags
-- are read from it.
use agent_governance.Base.{
  ◌≡◌, refl, sym, ap, ◌∙◌, Bool, true, false, List, [], ◌∷◌, ◌++◌, nat_eq, All,
}
use agent_governance.Base.Text.{Units, units}
use agent_governance.ManagedBlock.Scan.Laws.{IsFree, all-append}
use agent_governance.ManagedBlock.{
  GovernanceBinding, begin_marker, end_marker, Eol, eol_units, join_lines, projection, boolean_text,
  prefix_label, suffix_label,
}

-- lines that each end, and what stands behind them
abbrev pub lines_then : Units → List Units → Units → Units
lines_then eol [] rest = rest
lines_then eol (line ∷ lines) rest = line ++ (eol ++ lines_then eol lines rest)

pub append_assoc : (xs ys zs : Units) → (xs ++ ys) ++ zs ≡ xs ++ (ys ++ zs)
append_assoc [] ys zs = refl
append_assoc (x ∷ xs) ys zs = λ i. x ∷ append_assoc xs ys zs i

pub append_nil : (xs : Units) → xs ++ [] ≡ xs
append_nil [] = refl
append_nil (x ∷ xs) = λ i. x ∷ append_nil xs i

pub lines_then-append :
    (eol : Units) (lines : List Units) (xs ys : Units)
    → lines_then eol lines (xs ++ ys) ≡ lines_then eol lines xs ++ ys
lines_then-append eol [] xs ys = refl
lines_then-append eol (line ∷ lines) xs ys =
    ap (λ rest. line ++ (eol ++ rest)) (lines_then-append eol lines xs ys)
    ∙ ap (λ rest. line ++ rest) (sym (append_assoc eol (lines_then eol lines xs) ys))
    ∙ sym (append_assoc line (eol ++ lines_then eol lines xs) ys)

join_lines-last :
    (eol : Units) (line : Units) (lines : List Units) (last : Units)
    → join_lines eol (line ∷ (lines ++ last ∷ [])) ≡ line ++ (eol ++ lines_then eol lines last)
join_lines-last eol line [] last = refl
join_lines-last eol line (next ∷ lines) last =
    ap (λ rest. line ++ (eol ++ rest)) (join_lines-last eol next lines last)

-- the lines between the markers
abbrev pub middle : GovernanceBinding → Bool → Bool → List Units
middle binding prefix_added suffix_added =
    units
      "This is a generated projection; the installed governance bundle is the only normative source."
    ∷ (units "Governance version: " ++ binding.version)
    ∷ (units "Canonical installation root: " ++ binding.installation_root)
    ∷ (units "Normative governance entry: " ++ binding.governance_path)
    ∷ (units "Normative manifest: " ++ binding.manifest_path)
    ∷ (units "Expected governance SHA-256: " ++ binding.governance_digest)
    ∷ (units "Expected manifest SHA-256: " ++ binding.manifest_digest)
    ∷ (units "Expected bundle SHA-256: " ++ binding.bundle_digest)
    ∷ units
        "Before every response, load the normative governance entry and manifest from these exact paths."
    ∷ units
        "Keep personal local rules separate and resolve them only through the installed manifest."
    ∷ units
        "If governance is missing, changed, ambiguous, or conflicts with another normative source, fail closed."
    ∷ (prefix_label ++ boolean_text prefix_added)
    ∷ (suffix_label ++ boolean_text suffix_added)
    ∷ []

pub projection-lines :
    (binding : GovernanceBinding) (eol : Eol) (p s : Bool)
    → projection binding eol p s
      ≡ begin_marker
        ++ (eol_units eol ++ lines_then (eol_units eol) (middle binding p s) end_marker)
unfolding projection
projection-lines binding eol p s =
    join_lines-last (eol_units eol) begin_marker (middle binding p s) end_marker

-- A field of the binding has no angle bracket and no line break.
abbrev pub IsPlain : Units → Type 0
IsPlain field = IsFree b'<' field × IsFree b'\n' field × IsFree b'\r' field

abbrev pub HasPlainFields : GovernanceBinding → Type 0
HasPlainFields binding =
    IsPlain binding.version
    × IsPlain binding.installation_root
    × IsPlain binding.governance_path
    × IsPlain binding.manifest_path
    × IsPlain binding.governance_digest
    × IsPlain binding.manifest_digest
    × IsPlain binding.bundle_digest

IsPlain-append : (label field : Units) → IsPlain label → IsPlain field → IsPlain (label ++ field)
IsPlain-append label field l f = (
  all-append b'<' label field l.0 f.0,
  all-append b'\n' label field l.1 f.1,
  all-append b'\r' label field l.2 f.2,
)

IsPlain-boolean : (b : Bool) → IsPlain (boolean_text b)
unfolding nat_eq
IsPlain-boolean true = (refl, refl, refl)
IsPlain-boolean false = (refl, refl, refl)

pub middle-IsPlain :
    (binding : GovernanceBinding) (p s : Bool)
    → HasPlainFields binding
    → All IsPlain (middle binding p s)
unfolding nat_eq
middle-IsPlain binding p s (version, root, entry, manifest, g, m, b) = (
  (refl, refl, refl),
  (
    IsPlain-append (units "Governance version: ") binding.version (refl, refl, refl) version,
    (
      IsPlain-append (units "Canonical installation root: ") binding.installation_root
          (refl, refl, refl) root,
      (
        IsPlain-append (units "Normative governance entry: ") binding.governance_path
            (refl, refl, refl) entry,
        (
          IsPlain-append (units "Normative manifest: ") binding.manifest_path (refl, refl, refl)
              manifest,
          (
            IsPlain-append (units "Expected governance SHA-256: ") binding.governance_digest
                (refl, refl, refl) g,
            (
              IsPlain-append (units "Expected manifest SHA-256: ") binding.manifest_digest
                  (refl, refl, refl) m,
              (
                IsPlain-append (units "Expected bundle SHA-256: ") binding.bundle_digest
                    (refl, refl, refl) b,
                (
                  (refl, refl, refl),
                  (
                    (refl, refl, refl),
                    (
                      (refl, refl, refl),
                      (
                        IsPlain-append prefix_label (boolean_text p) (refl, refl, refl)
                            (IsPlain-boolean p),
                        (
                          IsPlain-append suffix_label (boolean_text s) (refl, refl, refl)
                              (IsPlain-boolean s),
                          (tt),
                        ),
                      ),
                    ),
                  ),
                ),
              ),
            ),
          ),
        ),
      ),
    ),
  ),
)
