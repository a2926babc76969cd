-- ===== src/Enforcement/Files/Laws.antt =====
-- What the pinned files of the bridge are known to hold, for
-- integrations/microsoft-agent-governance-toolkit/bridge/provider.mjs.
use agent_governance.Base.{
  ℕ, String, ◌<>◌, ◌≡◌, refl, subst, ap, Bool, true, false, not, ◌||◌, Option, none, some, List, [],
  ◌∷◌, ◌++◌, map, list_eq, nat_eq, ◌==◌, any, ltb, length, arith, All, All-append, ok, err,
  >>=-eq-ok, Bool-cases, inl, inr,
}
use Prim.Native.Nat.{◌%◌}
use agent_governance.Base.Text.{Units}
use agent_governance.Contracts.Effects.{
  returned, refuse_if, >>=-eq-returned, refuse_if-eq-returned, finally-eq-returned,
}
use agent_governance.Enforcement.Files.{
  Files, others_write, is_digest, sound_digest, matches_digest, read_bound, read_handle_bound_file,
  digest_of, Manifest, split_lines, entry_of, add_entry, read_lines, runtime_files, is_absent,
  checked_files, entry_from, taken, path_of, parse_runtime_manifest,
}

matches_digest-true :
    (expected : Option Units) (actual : Units)
    → not (matches_digest expected actual) ≡ false
    → expected ≡ some actual
unfolding matches_digest
matches_digest-true none actual e = cc
matches_digest-true (some digest) actual e = ground arith

module _ {W H : Type 0} (files : Files W H) where
  read_bound-IsPinned :
      (handle : H) (label : String) (expected : Option Units) (limit : ℕ) (w : W) {content : Units}
      → (read_bound files handle label expected limit w).0 ≡ returned content
      → expected ≡ some (files.sha256 content)
  unfolding read_bound
  read_bound-IsPinned handle label expected limit w {content} e =
      let (stat, w1, _, e1) = >>=-eq-returned (files.stat handle) _ w e in
      let bad = not stat.is_file || ltb limit stat.size || others_write stat.mode in
      let (_, w2, _, e2) = >>=-eq-returned (refuse_if bad (label <> "-file")) _ w1 e1 in
      let (found, w3, _, e3) = >>=-eq-returned (files.read handle) _ w2 e2 in
      let differs = not (matches_digest expected (files.sha256 found)) in
      let (_, w4, e4, e5) = >>=-eq-returned (refuse_if differs (label <> "-integrity")) _ w3 e3 in
      let same = refuse_if-eq-returned differs (label <> "-integrity") w3 (ap (λ r. r.0) e4) in
      let found_eq : found ≡ content = cc in
      rw (← found_eq) (matches_digest-true expected (files.sha256 found) same)

  -- What the call returns has the digest that was expected.
  pub read_handle_bound_file-IsPinned :
      (candidate label : String) (expected : Option Units) (limit : ℕ) (w : W) {content : Units}
      → (read_handle_bound_file files candidate label expected limit w).0 ≡ returned content
      → expected ≡ some (files.sha256 content)
  unfolding read_handle_bound_file
  read_handle_bound_file-IsPinned candidate label expected limit w e =
      let relative = not (files.is_absolute candidate) in
      let (_, w1, _, e1) = >>=-eq-returned (refuse_if relative (label <> "-path")) _ w e in
      let unsound = not (sound_digest expected) in
      let (_, w2, _, e2) = >>=-eq-returned (refuse_if unsound (label <> "-digest")) _ w1 e1 in
      let (handle, w3, _, e3) = >>=-eq-returned (files.open_read candidate) _ w2 e2 in
      read_bound-IsPinned handle label expected limit w3 (
        finally-eq-returned (read_bound files handle label expected limit) (files.close handle) w3
          e3)

-- Every entry holds a digest: 64 hexadecimal digits.
abbrev HasDigest : Units × Units → Type 0
HasDigest (path, digest) = is_digest digest ≡ true

entry_from-HasDigest :
    (digest : Units) (path : Option Units) {entry : Units × Units}
    → entry_from digest path ≡ some entry
    → HasDigest entry
unfolding entry_from
entry_from-HasDigest digest none e = cc
entry_from-HasDigest digest (some path) {entry} e = elim (Bool-cases (is_digest digest)) [
  | inl good ↦ let same : digest ≡ entry.1 = ground arith in rw (← same) good
  | inr bad ↦ absurd (ground arith)
]

entry_of-HasDigest :
    (line : Units) {entry : Units × Units} → entry_of line ≡ some entry → HasDigest entry
unfolding entry_of
entry_of-HasDigest line {entry} e =
    entry_from-HasDigest (taken 64 line).0 (path_of (taken 64 line).1) e

add_entry-HasDigest :
    (entry : Option (Units × Units)) (known : Manifest) {manifest : Manifest}
    → All HasDigest known
    → ((found : Units × Units) → entry ≡ some found → HasDigest found)
    → add_entry entry known ≡ ok manifest
    → All HasDigest manifest
unfolding add_entry
add_entry-HasDigest none known h k e = cc
add_entry-HasDigest (some (path, digest)) known {manifest} h k e = split (digest_of path known) e
  where
    split :
        (o : Option Units)
        → elim o [
          | some twice ↦ err "runtime-manifest-format"
          | none ↦ ok (known ++ (path, digest) ∷ [])
        ]
          ≡ ok manifest
        → All HasDigest manifest
    split (some twice) e = cc
    split none e =
        let same : (known ++ (path, digest) ∷ []) ≡ manifest = cc in
        subst (All HasDigest) same (All-append HasDigest known _ h (k _ refl, tt))

read_lines-HasDigest :
    (lines : List Units) (known : Manifest) {manifest : Manifest}
    → All HasDigest known
    → read_lines lines known ≡ ok manifest
    → All HasDigest manifest
unfolding read_lines
read_lines-HasDigest [] known {manifest} h e =
    let same : known ≡ manifest = cc in subst (All HasDigest) same h
read_lines-HasDigest ([] ∷ lines) known h e = read_lines-HasDigest lines known h e
read_lines-HasDigest ((c ∷ line) ∷ lines) known h e =
    let (more, added, rest) = >>=-eq-ok (add_entry (entry_of (c ∷ line)) known) _ e in
    read_lines-HasDigest lines more
      (add_entry-HasDigest (entry_of (c ∷ line)) known h
        (λ found q. entry_of-HasDigest (c ∷ line) q) added)
      rest

digest_of-HasDigest :
    (path : Units) (manifest : Manifest) {digest : Units}
    → All HasDigest manifest
    → digest_of path manifest ≡ some digest
    → is_digest digest ≡ true
unfolding digest_of
digest_of-HasDigest path [] h e = cc
digest_of-HasDigest path ((name, found) ∷ rest) {digest} (p, h) e =
    elim (Bool-cases (name == path)) [
      | inl hit ↦ let same : found ≡ digest = ground arith in rw (← same) p
      | inr miss ↦ digest_of-HasDigest path rest h (rw miss at e)
    ]

-- The manifest holds a digest for the path.
abbrev pub IsPinned : Manifest → Units → Type 0
IsPinned manifest path =
    (digest : Units) × (digest_of path manifest ≡ some digest) × (is_digest digest ≡ true)

all_present :
    (manifest : Manifest) (paths : List Units)
    → All HasDigest manifest
    → any (λ path. is_absent (digest_of path manifest)) paths ≡ false
    → All (IsPinned manifest) paths
all_present manifest [] h e = tt
all_present manifest (path ∷ paths) h e =
    split (digest_of path manifest) refl e (all_present manifest paths h)
  where
    rest_missing : Bool
    rest_missing = any (λ path. is_absent (digest_of path manifest)) paths

    split :
        (o : Option Units)
        → digest_of path manifest ≡ o
        → (is_absent o || rest_missing) ≡ false
        → (rest_missing ≡ false → All (IsPinned manifest) paths)
        → All (IsPinned manifest) (path ∷ paths)
    split none q e k = cc
    split (some digest) q e k = ((digest, q, digest_of-HasDigest path manifest h q), k e)

checked_files-IsPinned :
    (expected : List Units) (read : Manifest) {manifest : Manifest}
    → All HasDigest read
    → checked_files expected read ≡ ok manifest
    → (length manifest ≡ length expected) × All (IsPinned manifest) expected
unfolding checked_files
checked_files-IsPinned expected read {manifest} h e =
    let absent = any (λ path. is_absent (digest_of path read)) expected in
    elim (Bool-cases absent) [
      | inl missing ↦ absurd (ground arith)
      | inr present ↦
          let same : read ≡ manifest = ground arith in
          let count : length read ≡ length expected = ground arith in
          subst (λ m. (length m ≡ length expected) × All (IsPinned m) expected) same
            (count, all_present read expected h present)
    ]

-- A manifest that is read has one entry for each file of the runtime, and holds a digest for it.
pub parse_runtime_manifest-IsPinned :
    (content : Units) {manifest : Manifest}
    → parse_runtime_manifest content ≡ ok manifest
    → (length manifest ≡ length runtime_files) × All (IsPinned manifest) runtime_files
unfolding parse_runtime_manifest
parse_runtime_manifest-IsPinned content e =
    let lines = split_lines (map (λ byte. byte % 128) content) in
    let (read, from_lines, checked) = >>=-eq-ok (read_lines lines []) _ e in
    checked_files-IsPinned runtime_files read (read_lines-HasDigest lines [] tt from_lines) checked
