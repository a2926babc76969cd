-- ===== src/Init/Targets.antt =====
-- `resolveSupport` of src/init/support.ts and `resolveTarget` of src/init/bindings.ts. The functions
-- of `node:path` are parameters.
use agent_governance.Base.{
  ℕ, String, Bool, true, false, not, ◌&&◌, ◌||◌, Option, none, some, List, [], ◌∷◌, ◌==◌, string_eq,
  nat_eq, if◌then◌else◌, any, leb, Result, ok, err, ◌>>◌, reject_if, ◌+◌,
}
use agent_governance.Base.Text.{Units, units}
use agent_governance.Init.Types.{Environment, Target, Selection, harness, manual}

pub record PathFunctions : Type 0 where
  pub join : List String → String
  pub is_absolute : String → Bool
  pub resolve : String → String
  pub normalize : String → String

-- `/[\0\r\n]/`
abbrev is_line_or_nul : ℕ → Bool
is_line_or_nul c = c == 0 || c == 10 || c == 13

abbrev lower : ℕ → ℕ
lower c = if leb 65 c && leb c 90 then c + 32 else c

abbrev same_ignoring_case : Units → Units → Bool
same_ignoring_case [] [] = true
same_ignoring_case (x ∷ xs) (y ∷ ys) = lower x == y && same_ignoring_case xs ys
same_ignoring_case _ _ = false

abbrev ends_ignoring_case : Units → Units → Bool
ends_ignoring_case [] s = same_ignoring_case [] s
ends_ignoring_case (x ∷ xs) s = same_ignoring_case (x ∷ xs) s || ends_ignoring_case xs s

-- `/\.(?:md|markdown)$/i`
unfoldable pub is_markdown : String → Bool
is_markdown s =
    ends_ignoring_case (units s) (units ".md") || ends_ignoring_case (units s) (units ".markdown")

abbrev has_backslash : Units → Bool
has_backslash = any (λ c. c == 92)

-- `startsWith("../")`
abbrev starts_above : Units → Bool
starts_above (a ∷ b ∷ c ∷ _) = a == 46 && b == 46 && c == 47
starts_above _ = false

abbrev or_default : Option String → String → String
or_default none d = d
or_default (some s) d = s

module _ (path : PathFunctions) where
  -- The id of a harness of the catalog is no name that `Object.prototype` has.
  unfoldable pub resolve_support : String → Environment → Option Target
  resolve_support id environment =
      if id == "claude"
      then some (record {
        target_root = path.join (environment.home ∷ ".claude" ∷ []);
        entry_file = "CLAUDE.md";
      })
      else if id == "codex"
      then some (record {
        target_root = path.join (environment.home ∷ ".codex" ∷ []);
        entry_file = "AGENTS.md";
      })
      else if id == "opencode"
      then some (record {
        target_root = path.join (
            or_default environment.xdg_config_home (path.join (environment.home ∷ ".config" ∷ []))
            ∷ "opencode"
            ∷ []);
        entry_file = "AGENTS.md";
      })
      else none

  unfoldable pub validate_root : String → Result (Unit {0})
  validate_root root =
      reject_if
        (root == ""
          || any is_line_or_nul (units root)
          || not (path.is_absolute root)
          || not (path.resolve root == root))
        "target root must be a canonical absolute path"

  unfoldable pub validate_entry : String → Result (Unit {0})
  validate_entry entry_file =
      reject_if
        (entry_file == ""
          || any is_line_or_nul (units entry_file)
          || path.is_absolute entry_file
          || has_backslash (units entry_file)
          || entry_file == ".."
          || starts_above (units entry_file)
          || not (path.normalize entry_file == entry_file))
        "entry file must be a canonical relative path without traversal"
      >> reject_if (not (is_markdown entry_file)) "entry file must be Markdown"

  unfoldable pub resolve_manual_target : Option String → String → Result Target
  resolve_manual_target none entry_file = err "manual target root is required"
  resolve_manual_target (some root) entry_file =
      validate_root root
      >> validate_entry entry_file
      >> ok (record { target_root = root; entry_file = entry_file })

  resolve_harness : Option Target → Result Target
  resolve_harness none = err "selected harness is not supported"
  resolve_harness (some t) = ok t

  unfoldable pub resolve_target : Selection → Environment → Result Target
  unfolding resolve_harness
  resolve_target (harness h) environment = resolve_harness (resolve_support h.id environment)
  resolve_target (manual root entry_file) environment = resolve_manual_target root entry_file
