-- ===== src/Enforcement/Engine.antt =====
-- `loadVerifiedPolicyEngine` of integrations/microsoft-agent-governance-toolkit/bridge/provider.mjs. The
-- policy engine is Microsoft's: that its pinned modules run, and what the engine answers, is a
-- parameter.
pub mod Laws
use agent_governance.Base.{
  ℕ, String, Bool, true, false, not, ◌||◌, Option, none, some, List, [], ◌∷◌, string_eq, list_eq,
  nat_eq, ◌==◌, if◌then◌else◌, ltb, contains, Result, ok, err, require, ◌*◌,
}
use agent_governance.Base.Json.{Json, bool, str, obj, Members, end, member, get}
use agent_governance.Base.Text.{Units, units}
use agent_governance.Contracts.Effects.{
  Outcome, returned, threw, Eff, ◌>>=◌, give, lift, refuse_if, finally,
}
use agent_governance.Enforcement.Envelope.{validate_envelope}
use agent_governance.Enforcement.Files.{
  Files, others_write, read_handle_bound_file, digest_of, Manifest, parse_runtime_manifest,
}

-- `C` is the class `PolicyEngine`, `E` its instances
pub record Provider (W H C E : Type 0) : Type 0 where
  pub files : Files W H
  pub to_text : Json → Result Units
  pub normalize : String → String
  pub dirname : String → String
  pub resolve : List String → String
  pub join : List String → String
  pub to_utf8 : Units → String
  pub run_modules : Units → Units → Units → Eff W (Option C)
  pub construct : C → Eff W E
  pub load_json : E → String → Eff W (Unit {0})
  pub evaluate_policy : E → String → Json → Eff W (Option Json)
  pub policy_module_variable : Option String
  pub own_policy_path : String
  pub own_manifest_path : String

-- the three modules that the loader runs, as read
pub record Sources : Type 0 where
  pub policy : Units
  pub facets : Units
  pub types : Units

abbrev pub default_limit : ℕ
default_limit = 2 * 1024 * 1024

module _ {W H C E : Type 0} (p : Provider W H C E) where
  unfoldable pub read_manifest : H → Eff W Units
  unfolding others_write
  read_manifest handle = p.files.stat handle >>= λ stat.
      refuse_if (not stat.is_file || ltb (64 * 1024) stat.size || others_write stat.mode)
        "runtime-manifest-file"
      >>= λ passed. p.files.read handle

  unfoldable pub compare_installed : H → Units → Eff W (Unit {0})
  unfolding others_write
  compare_installed handle manifest = p.files.stat handle >>= λ stat.
      p.files.read handle >>= λ installed.
      refuse_if (not stat.is_file || others_write stat.mode || not (installed == manifest))
        "installed-runtime-manifest"

  -- the module at `relative` below the root of the runtime
  unfoldable pub read_pinned : String → Manifest → String → String → Eff W Units
  unfolding read_handle_bound_file digest_of
  read_pinned root manifest relative label =
      read_handle_bound_file p.files (p.join (root ∷ relative ∷ [])) label
        (digest_of (units relative) manifest) default_limit

  unfoldable pub read_sources : String → Manifest → Eff W Sources
  unfolding read_pinned
  read_sources root manifest =
      read_pinned root manifest "build.receipt" "build-receipt" >>= λ receipt.
      read_pinned root manifest "microsoft-sdk/dist/policy.js" "runtime-policy.js" >>= λ policy.
      read_pinned root manifest "microsoft-sdk/dist/protocol-facets.js" "runtime-protocol-facets.js"
      >>= λ facets.
          read_pinned root manifest "microsoft-sdk/dist/types.js" "runtime-types.js" >>= λ types.
          give (record { policy = policy; facets = facets; types = types })

  -- `typeof imported.PolicyEngine`
  unfoldable pub exported : Sources → Eff W C
  exported sources = p.run_modules sources.policy sources.facets sources.types >>= λ found.
      lift (require found "policy-engine-export")

  unfoldable pub checked_manifest : String → Units → Eff W Units
  unfolding read_manifest
  checked_manifest manifest_path expected = p.files.open_read manifest_path >>= λ handle.
      finally (read_manifest handle) (p.files.close handle) >>= λ content.
      refuse_if (not (p.files.sha256 content == expected)) "runtime-manifest-integrity"
      >>= λ passed. give content

  -- `path.dirname(undefined)` throws
  unfoldable pub runtime_root : Option String → Result String
  runtime_root none = err "The \"path\" argument must be of type string."
  runtime_root (some module_path) =
      let root = p.resolve (p.dirname module_path ∷ ".." ∷ ".." ∷ []) in
      if p.normalize module_path == p.join (root ∷ "microsoft-sdk" ∷ "dist" ∷ "policy.js" ∷ [])
      then ok root
      else err "policy-module-contract"

  unfoldable pub check_installed : String → Units → Eff W (Unit {0})
  unfolding compare_installed
  check_installed root content =
      p.files.open_read (p.join (root ∷ "runtime.files.sha256" ∷ [])) >>= λ handle.
      finally (compare_installed handle content) (p.files.close handle)

  unfoldable pub load_verified_policy_engine : Option String → String → Units → Eff W C
  unfolding parse_runtime_manifest runtime_root checked_manifest check_installed read_sources
      exported
  load_verified_policy_engine module_path manifest_path expected =
      checked_manifest manifest_path expected >>= λ content.
      lift (parse_runtime_manifest content) >>= λ manifest.
      lift (runtime_root module_path) >>= λ root. check_installed root content >>= λ passed.
      read_sources root manifest >>= λ sources. exported sources
