-- ===== src/ManagedBlock/Scan/Laws.antt =====
-- A search in two texts that are joined, for src/managed-block.ts: what has no line feed is not found
-- across one.
use agent_governance.Base.{
  ℕ, suc, ◌+◌, ◌-◌, ◌≡◌, refl, ap, ◌∙◌, Bool, true, false, not, ◌||◌, Option, none, some, [], ◌∷◌,
  ◌++◌, nat_eq, ◌==◌, length, leb, all, arith, ◌⊎◌, inl, inr,
}
use agent_governance.Base.Text.{Units, units}
use agent_governance.ManagedBlock.Scan.{
  after, is_some, starts_with, dropped, ends_with, includes, scan, closes, other_version,
  foreign_here, is_foreign,
}

pub or_assoc : (a b c : Bool) → (a || (b || c)) ≡ ((a || b) || c)
or_assoc true b c = refl
or_assoc false b c = refl

-- The unit does not occur.
abbrev pub IsFree : ℕ → Units → Type 0
IsFree d xs = all (λ c. not (c == d)) xs ≡ true

abbrev extended : Units → Option Units → Option Units
extended more none = none
extended more (some rest) = some (rest ++ more)

after-separator :
    (d : ℕ) (p xs ys : Units) → IsFree d p → after p (xs ++ d ∷ ys) ≡ extended (d ∷ ys) (after p xs)
unfolding after
after-separator d [] xs ys h = refl
after-separator d (q ∷ p) [] ys h = ground arith
after-separator d (q ∷ p) (x ∷ xs) ys h = ground (arith, after-separator d p xs ys)

is_some-extended : (more : Units) (o : Option Units) → is_some (extended more o) ≡ is_some o
is_some-extended more none = refl
is_some-extended more (some rest) = refl

starts_with-separator :
    (d : ℕ) (p xs ys : Units) → IsFree d p → starts_with p (xs ++ d ∷ ys) ≡ starts_with p xs
unfolding starts_with
starts_with-separator d p xs ys h =
    ap is_some (after-separator d p xs ys h) ∙ is_some-extended (d ∷ ys) (after p xs)

pub after-append : (p xs : Units) → after p (p ++ xs) ≡ some xs
unfolding after
after-append [] xs = refl
after-append (q ∷ p) xs = ground (arith, after-append p xs)

-- A search for `v ∷ vs`, which has no `d`.
module _ (d v : ℕ) (vs : Units) (free : IsFree d (v ∷ vs)) where
  pub includes-separator :
      (xs ys : Units)
      → includes (v ∷ vs) (xs ++ d ∷ ys) ≡ (includes (v ∷ vs) xs || includes (v ∷ vs) ys)
  unfolding includes
  includes-separator [] ys = let here = starts_with-separator d (v ∷ vs) [] ys free in simp here
  includes-separator (x ∷ xs) ys =
      let here = starts_with-separator d (v ∷ vs) (x ∷ xs) ys free in
      simp (here, includes-separator xs ys)
        (or_assoc (starts_with (v ∷ vs) (x ∷ xs)) (includes (v ∷ vs) xs) (includes (v ∷ vs) ys))

  pub scan-separator :
      (index : ℕ) (xs ys : Units)
      → includes (v ∷ vs) xs ≡ false
      → scan (v ∷ vs) 0 index (xs ++ d ∷ ys) ≡ scan (v ∷ vs) 0 (index + length xs + 1) ys
  unfolding scan includes
  scan-separator index [] ys h =
      let here = starts_with-separator d (v ∷ vs) [] ys free in
      simp here (ap (λ i. scan (v ∷ vs) 0 i ys) (omega arith))
  scan-separator index (x ∷ xs) ys h =
      let here = starts_with-separator d (v ∷ vs) (x ∷ xs) ys free in
      let miss : starts_with (v ∷ vs) (x ∷ (xs ++ d ∷ ys)) ≡ false = here ∙ (ground arith) in
      simp miss (
        scan-separator (index + 1) xs ys (ground arith)
        ∙ ap (λ i. scan (v ∷ vs) 0 i ys) (omega arith))

pub scan-skipped :
    (value : Units) (index : ℕ) (xs ys : Units)
    → scan value (length xs) index (xs ++ ys) ≡ scan value 0 (index + length xs) ys
unfolding scan
scan-skipped value index [] ys = ap (λ i. scan value 0 i ys) (omega arith)
scan-skipped value index (x ∷ xs) ys =
    scan-skipped value (index + 1) xs ys ∙ ap (λ i. scan value 0 i ys) (omega arith)

starts_with-other :
    (v : ℕ) (vs : Units) (x : ℕ) (xs : Units)
    → (x == v) ≡ false
    → starts_with (v ∷ vs) (x ∷ xs) ≡ false
unfolding starts_with after
starts_with-other v vs x xs h = ground arith

-- Nothing is found in a text that has not the first unit.
pub scan-free :
    (v : ℕ) (vs : Units) (index : ℕ) (xs ys : Units)
    → IsFree v xs
    → scan (v ∷ vs) 0 index (xs ++ ys) ≡ scan (v ∷ vs) 0 (index + length xs) ys
unfolding scan
scan-free v vs index [] ys h = ap (λ i. scan (v ∷ vs) 0 i ys) (omega arith)
scan-free v vs index (x ∷ xs) ys h =
    let here = starts_with-other v vs x (xs ++ ys) (ground arith) in
    simp here (
      scan-free v vs (index + 1) xs ys (ground arith)
      ∙ ap (λ i. scan (v ∷ vs) 0 i ys) (omega arith))

-- What is found at once is passed over.
pub scan-found :
    (v : ℕ) (vs : Units) (index : ℕ) (ys : Units)
    → scan (v ∷ vs) 0 index ((v ∷ vs) ++ ys) ≡ index ∷ scan (v ∷ vs) 0 (index + 1 + length vs) ys
unfolding scan starts_with
scan-found v vs index ys =
    let here = after-append (v ∷ vs) ys in
    simp here (
      ap (λ found. index ∷ found)
        (ap (λ n. scan (v ∷ vs) n (index + 1) (vs ++ ys)) (omega arith)
          ∙ scan-skipped (v ∷ vs) (index + 1) vs ys))

pub scan-missed :
    (v : ℕ) (vs : Units) (x : ℕ) (xs : Units) (index : ℕ) (ys : Units)
    → starts_with (v ∷ vs) ((x ∷ xs) ++ ys) ≡ false
    → IsFree v xs
    → scan (v ∷ vs) 0 index ((x ∷ xs) ++ ys) ≡ scan (v ∷ vs) 0 (index + 1 + length xs) ys
unfolding scan
scan-missed v vs x xs index ys here free = simp here (scan-free v vs (index + 1) xs ys free)

pub scan-none :
    (v : ℕ) (vs : Units) (index : ℕ) (xs : Units)
    → includes (v ∷ vs) xs ≡ false
    → scan (v ∷ vs) 0 index xs ≡ []
unfolding scan includes
scan-none v vs index [] h = refl
scan-none v vs index (x ∷ xs) h =
    let miss : starts_with (v ∷ vs) (x ∷ xs) ≡ false = ground arith in
    simp miss (scan-none v vs (index + 1) xs (ground arith))

-- `FOREIGN` matches within a line.
abbrev pub IsBreak : ℕ → Type 0
IsBreak d = (d ≡ b'\n') ⊎ (d ≡ b'\r')

abbrev pub opening : Units
opening = units "<!-- BEGIN AGENT_GOVERNANCE_MANAGED_"

abbrev pub ending : Units
ending = units "<!-- END AGENT_GOVERNANCE_MANAGED_"

-- The parts of the expression have no line break.
breakless : (d : ℕ) (p : Units) → IsBreak d → IsFree b'\n' p → IsFree b'\r' p → IsFree d p
breakless d p (inl q) n r = rw q n
breakless d p (inr q) n r = rw q r

parts-IsFree :
    (d : ℕ)
    → IsBreak d
    → IsFree d opening × IsFree d ending × IsFree d (units "V1 -->") × IsFree d (units "-->")
unfolding nat_eq
parts-IsFree d is_break = (
  breakless d opening is_break refl refl,
  breakless d ending is_break refl refl,
  breakless d (units "V1 -->") is_break refl refl,
  breakless d (units "-->") is_break refl refl,
)

module _ (d : ℕ) (is_break : IsBreak d) where
  closes-break : (xs ys : Units) → closes (xs ++ d ∷ ys) ≡ closes xs
  unfolding closes
  closes-break [] ys =
      let here = starts_with-separator d (units "-->") [] ys (parts-IsFree d is_break).3 in
      simp here (ground arith)
  closes-break (x ∷ xs) ys =
      let here = starts_with-separator d (units "-->") (x ∷ xs) ys (parts-IsFree d is_break).3 in
      simp (here, closes-break xs ys)

  other_version-break :
      (o : Option Units) (ys : Units) → other_version (extended (d ∷ ys) o) ≡ other_version o
  unfolding other_version
  other_version-break none ys = refl
  other_version-break (some rest) ys =
      let here = starts_with-separator d (units "V1 -->") rest ys (parts-IsFree d is_break).2 in
      simp (here, closes-break rest ys)

  foreign_here-break : (xs ys : Units) → foreign_here (xs ++ d ∷ ys) ≡ foreign_here xs
  unfolding foreign_here
  foreign_here-break xs ys =
      let begins = after-separator d opening xs ys (parts-IsFree d is_break).0 in
      let ends = after-separator d ending xs ys (parts-IsFree d is_break).1 in
      simp (begins, ends, other_version-break)

  pub is_foreign-break :
      (xs ys : Units) → is_foreign (xs ++ d ∷ ys) ≡ (is_foreign xs || is_foreign ys)
  unfolding is_foreign
  is_foreign-break [] ys = simp (foreign_here-break [] ys) refl
  is_foreign-break (x ∷ xs) ys =
      simp (foreign_here-break (x ∷ xs) ys, is_foreign-break xs ys)
        (or_assoc (foreign_here (x ∷ xs)) (is_foreign xs) (is_foreign ys))

after-other :
    (v : ℕ) (vs : Units) (x : ℕ) (xs : Units) → (x == v) ≡ false → after (v ∷ vs) (x ∷ xs) ≡ none
unfolding after
after-other v vs x xs h = ground arith

pub is_foreign-free : (xs ys : Units) → IsFree b'<' xs → is_foreign (xs ++ ys) ≡ is_foreign ys
unfolding is_foreign foreign_here other_version
is_foreign-free [] ys h = refl
is_foreign-free (x ∷ xs) ys h =
    let other : (x == b'<') ≡ false = ground arith in
    let begins : after opening (x ∷ (xs ++ ys)) ≡ none =
      after-other b'<' (dropped 1 opening) x (xs ++ ys) other in
    let ends : after ending (x ∷ (xs ++ ys)) ≡ none =
      after-other b'<' (dropped 1 ending) x (xs ++ ys) other in
    simp (begins, ends) (is_foreign-free xs ys (ground arith))

after_mono : (p xs ys : Units) → is_some (after p xs) ≡ true → is_some (after p (xs ++ ys)) ≡ true
unfolding after
after_mono [] xs ys h = refl
after_mono (q ∷ p) [] ys h = cc
after_mono (q ∷ p) (x ∷ xs) ys h = ground (arith, after_mono p xs ys)

pub includes_mono :
    (v : ℕ) (vs xs ys : Units) → includes (v ∷ vs) xs ≡ true → includes (v ∷ vs) (xs ++ ys) ≡ true
unfolding includes starts_with
includes_mono v vs [] ys h = cc
includes_mono v vs (x ∷ xs) ys h =
    ground (arith, after_mono (v ∷ vs) (x ∷ xs) ys, includes_mono v vs xs ys)

-- whether `d` is the last unit
abbrev pub is_last : ℕ → Units → Bool
is_last d [] = false
is_last d (x ∷ []) = x == d
is_last d (x ∷ y ∷ xs) = is_last d (y ∷ xs)

pub ends_with-last : (d : ℕ) (xs : Units) → ends_with (d ∷ []) xs ≡ is_last d xs
unfolding ends_with starts_with after
ends_with-last d [] = refl
ends_with-last d (x ∷ []) = ground arith
ends_with-last d (x ∷ y ∷ xs) =
    let outer : suc (suc (length xs)) - 1 ≡ suc (length xs) = omega arith in
    let inner : suc (length xs) - 1 ≡ length xs = omega arith in
    let here = ends_with-last d (y ∷ xs) in
    let longer : leb 1 (suc (suc (length xs))) ≡ true = ground arith in
    let long : leb 1 (suc (length xs)) ≡ true = ground arith in
    simp (outer, longer) (simp (inner, long) at here)

pub is_last-split :
    (d : ℕ) (xs : Units) → is_last d xs ≡ true → (front : Units) × (xs ≡ front ++ d ∷ [])
is_last-split d [] h = cc
is_last-split d (x ∷ []) h = let same : x ≡ d = ground arith in ([], λ i. same i ∷ [])
is_last-split d (x ∷ y ∷ xs) h =
    let (front, q) = is_last-split d (y ∷ xs) h in (x ∷ front, λ i. x ∷ q i)

abbrev pub crlf_units : Units
crlf_units = b'\r' ∷ b'\n' ∷ []

-- A text without a carriage return has no pair of one and a line feed.
pub crlf-free : (xs : Units) → IsFree b'\r' xs → includes crlf_units xs ≡ false
unfolding includes starts_with after
crlf-free [] h = refl
crlf-free (x ∷ xs) h = ground (arith, crlf-free xs)

pub crlf-append :
    (xs ys : Units)
    → is_last b'\r' xs ≡ false
    → IsFree b'\r' ys
    → includes crlf_units (xs ++ ys) ≡ includes crlf_units xs
unfolding includes starts_with after
crlf-append [] ys h free = crlf-free ys free
crlf-append (x ∷ []) ys h free =
    let rest = crlf-free ys free in
    let other = starts_with-other b'\r' (b'\n' ∷ []) x in simp (rest, other ys h, other [] h)
crlf-append (x ∷ y ∷ xs) ys h free = ground (arith, crlf-append (y ∷ xs) ys h free)

pub all-append : (d : ℕ) (xs ys : Units) → IsFree d xs → IsFree d ys → IsFree d (xs ++ ys)
all-append d [] ys h k = k
all-append d (x ∷ xs) ys h k = ground (arith, all-append d xs ys)
