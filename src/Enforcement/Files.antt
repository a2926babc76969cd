-- ===== src/Enforcement/Files.antt =====
-- What integrations/microsoft-agent-governance-toolkit/bridge takes from Node: files behind handles,
-- paths and digests. The model takes it as a parameter, calls on the world `W` that may throw.
-- `readHandleBoundFile` and `parseRuntimeManifest` of provider.mjs read the pinned files.
pub mod Laws
use Prim.Native.Nat.{◌/◌, ◌%◌}
use agent_governance.Base.{
  ℕ, String, ◌<>◌, Bool, true, false, not, ◌&&◌, ◌||◌, Option, none, some, List, [], ◌∷◌, ◌++◌, map,
  nat_eq, list_eq, ◌==◌, if◌then◌else◌, all, any, ltb, leb, length, Result, ok, err,
}
use agent_governance.Base.{◌>>=◌ as ◌try◌}
use agent_governance.Base.Regex.{is_lower, is_upper, is_digit, in_range}
use agent_governance.Base.Text.{Units, units}
use agent_governance.Contracts.Effects.{Outcome, Eff, ◌>>=◌, give, lift, refuse_if, finally}

-- `fs.Stats`
pub record Stat : Type 0 where
  pub is_file : Bool
  pub size : ℕ
  pub mode : ℕ

pub record Files (W H : Type 0) : Type 0 where
  pub is_absolute : String → Bool
  pub open_read : String → Eff W H
  pub stat : H → Eff W Stat
  pub read : H → Eff W Units
  pub close : H → Eff W (Unit {0})
  pub sha256 : Units → Units

-- `(mode & 0o022) !== 0`
unfoldable pub others_write : ℕ → Bool
others_write mode = not ((mode / 2) % 2 == 0) || not ((mode / 16) % 2 == 0)

abbrev pub is_hex : ℕ → Bool
is_hex c = is_digit c || in_range b'a' b'f' c

-- `/^[0-9a-f]{64}$/`
unfoldable pub is_digest : Units → Bool
is_digest s = length s == 64 && all is_hex s

unfoldable pub sound_digest : Option Units → Bool
unfolding is_digest
sound_digest none = false
sound_digest (some digest) = is_digest digest

unfoldable pub matches_digest : Option Units → Units → Bool
matches_digest none actual = false
matches_digest (some digest) actual = actual == digest

module _ {W H : Type 0} (files : Files W H) where
  unfoldable pub read_bound : H → String → Option Units → ℕ → Eff W Units
  unfolding others_write matches_digest
  read_bound handle label expected limit = files.stat handle >>= λ stat.
      refuse_if (not stat.is_file || ltb limit stat.size || others_write stat.mode)
        (label <> "-file")
      >>= λ passed. files.read handle >>= λ content.
          refuse_if (not (matches_digest expected (files.sha256 content))) (label <> "-integrity")
          >>= λ checked. give content

  unfoldable pub read_handle_bound_file : String → String → Option Units → ℕ → Eff W Units
  unfolding sound_digest read_bound
  read_handle_bound_file candidate label expected limit =
      refuse_if (not (files.is_absolute candidate)) (label <> "-path") >>= λ passed.
      refuse_if (not (sound_digest expected)) (label <> "-digest") >>= λ checked.
      files.open_read candidate >>= λ handle.
      finally (read_bound handle label expected limit) (files.close handle)

-- the parsed manifest: the paths of the runtime with their digests
abbrev pub Manifest : Type 0
Manifest = List (Units × Units)

unfoldable pub digest_of : Units → Manifest → Option Units
digest_of path [] = none
digest_of path ((name, digest) ∷ rest) = if name == path then some digest else digest_of path rest

abbrev first_line : ℕ → List Units → List Units
first_line c [] = (c ∷ []) ∷ []
first_line c (line ∷ lines) = (c ∷ line) ∷ lines

-- `split("\n")`
unfoldable pub split_lines : Units → List Units
split_lines [] = [] ∷ []
split_lines (c ∷ cs) =
    let rest = split_lines cs in if c == b'\n' then [] ∷ rest else first_line c rest

abbrev is_path_unit : ℕ → Bool
is_path_unit c =
    is_upper c || is_lower c || is_digit c || c == b'.' || c == b'_' || c == b'/' || c == b'-'

abbrev some_path : Units → Bool
some_path [] = false
some_path (c ∷ cs) = all is_path_unit (c ∷ cs)

-- behind the digest: two spaces and the path
abbrev pub path_of : Units → Option Units
path_of (s ∷ t ∷ path) = if s == b' ' && t == b' ' && some_path path then some path else none
path_of _ = none

abbrev pub taken : ℕ → Units → Units × Units
taken Prim.Native.Nat.zero line = ([], line)
taken (Prim.Native.Nat.suc n) [] = ([], [])
taken (Prim.Native.Nat.suc n) (c ∷ line) = let rest = taken n line in (c ∷ rest.0, rest.1)

unfoldable pub entry_from : Units → Option Units → Option (Units × Units)
unfolding is_digest
entry_from digest none = none
entry_from digest (some path) = if is_digest digest then some (path, digest) else none

unfoldable pub entry_of : Units → Option (Units × Units)
unfolding entry_from
entry_of line = let parts = taken 64 line in entry_from parts.0 (path_of parts.1)

unfoldable pub add_entry : Option (Units × Units) → Manifest → Result Manifest
unfolding digest_of
add_entry none manifest = err "runtime-manifest-format"
add_entry (some (path, digest)) manifest = elim (digest_of path manifest) [
  | some known ↦ err "runtime-manifest-format"
  | none ↦ ok (manifest ++ (path, digest) ∷ [])
]

unfoldable pub read_lines : List Units → Manifest → Result Manifest
unfolding entry_of add_entry
read_lines [] manifest = ok manifest
read_lines ([] ∷ lines) manifest = read_lines lines manifest
read_lines ((c ∷ line) ∷ lines) manifest =
    add_entry (entry_of (c ∷ line)) manifest try λ more. read_lines lines more

unfoldable pub runtime_files : List Units
runtime_files =
    units "build.receipt"
    ∷ units "microsoft-sdk/dist/policy.js"
    ∷ units "microsoft-sdk/dist/protocol-facets.js"
    ∷ units "microsoft-sdk/dist/types.js"
    ∷ []

abbrev pub is_absent : Option Units → Bool
is_absent none = true
is_absent (some digest) = false

-- `![...RUNTIME_FILES].some((relative) => !expected.has(relative))` and the number of entries
unfoldable pub checked_files : List Units → Manifest → Result Manifest
unfolding digest_of
checked_files expected manifest =
    if not (length manifest == length expected)
      || any (λ path. is_absent (digest_of path manifest)) expected
    then err "runtime-manifest-files"
    else ok manifest

-- `toString("ascii")` clears the highest bit of each byte
unfoldable pub parse_runtime_manifest : Units → Result Manifest
unfolding split_lines read_lines checked_files runtime_files
parse_runtime_manifest content =
    read_lines (split_lines (map (λ byte. byte % 128) content)) [] try checked_files runtime_files
