-- ===== src/Enforcement/Engine/Laws.antt =====
-- What `loadVerifiedPolicyEngine` of
-- integrations/microsoft-agent-governance-toolkit/bridge/provider.mjs has checked of the engine.
use agent_governance.Base.{
  String, ◌≡◌, subst, ap, not, Option, some, [], ◌∷◌, string_eq, list_eq, nat_eq, ◌==◌, arith, ok,
  require, require-eq-ok,
}
use agent_governance.Base.Text.{Units, units}
use agent_governance.Contracts.Effects.{
  returned, lift, refuse_if, finally, >>=-eq-returned, lift-eq-returned, refuse_if-eq-returned,
}
use agent_governance.Enforcement.Files.{digest_of, Manifest, parse_runtime_manifest}
use agent_governance.Enforcement.Files.Laws.{read_handle_bound_file-IsPinned}
use agent_governance.Enforcement.Engine.{
  Sources, read_manifest, read_pinned, read_sources, exported, checked_manifest, runtime_root,
  check_installed, load_verified_policy_engine, default_limit, Provider,
}

module _ {W H C E : Type 0} (p : Provider W H C E) where
  read_pinned-IsPinned :
      (root : String) (manifest : Manifest) (relative label : String) (w : W) {content : Units}
      → (read_pinned p root manifest relative label w).0 ≡ returned content
      → digest_of (units relative) manifest ≡ some (p.files.sha256 content)
  unfolding read_pinned
  read_pinned-IsPinned root manifest relative label w e =
      read_handle_bound_file-IsPinned p.files (p.join (root ∷ relative ∷ [])) label
        (digest_of (units relative) manifest) default_limit w e

  -- Each source has the digest that the manifest has for its path.
  abbrev pub ArePinned : Manifest → Sources → Type 0
  ArePinned manifest sources =
      (digest_of (units "microsoft-sdk/dist/policy.js") manifest
        ≡ some (p.files.sha256 sources.policy))
      × (digest_of (units "microsoft-sdk/dist/protocol-facets.js") manifest
          ≡ some (p.files.sha256 sources.facets))
      × (digest_of (units "microsoft-sdk/dist/types.js") manifest
          ≡ some (p.files.sha256 sources.types))

  read_sources-ArePinned :
      (root : String) (manifest : Manifest) (w : W) {sources : Sources}
      → (read_sources p root manifest w).0 ≡ returned sources
      → ArePinned manifest sources
  unfolding read_sources
  read_sources-ArePinned root manifest w {sources} e =
      let (_, w1, _, e1) =
        >>=-eq-returned (read_pinned p root manifest "build.receipt" "build-receipt") _ w e in
      let (policy, w2, q1, e2) =
        >>=-eq-returned
          (read_pinned p root manifest "microsoft-sdk/dist/policy.js" "runtime-policy.js") _ w1
          e1 in
      let (facets, w3, q2, e3) =
        >>=-eq-returned
          (read_pinned p root manifest "microsoft-sdk/dist/protocol-facets.js"
            "runtime-protocol-facets.js")
          _ w2 e2 in
      let (types, w4, q3, e4) =
        >>=-eq-returned
          (read_pinned p root manifest "microsoft-sdk/dist/types.js" "runtime-types.js") _ w3 e3 in
      let same : (record { policy = policy; facets = facets; types = types }) ≡ sources = cc in
      subst (ArePinned manifest) same (
        read_pinned-IsPinned root manifest _ "runtime-policy.js" w1 (ap (λ r. r.0) q1),
        read_pinned-IsPinned root manifest _ "runtime-protocol-facets.js" w2 (ap (λ r. r.0) q2),
        read_pinned-IsPinned root manifest _ "runtime-types.js" w3 (ap (λ r. r.0) q3),
      )

  -- The class is what the modules export whose sources a manifest with this digest pins.
  abbrev pub IsPinnedClass : Units → C → Type 0
  IsPinnedClass digest engine_class =
      (content : Units) × (manifest : Manifest) × (sources : Sources) × (w : W) × (p.files.sha256
          content
        ≡ digest)
      × (parse_runtime_manifest content ≡ ok manifest)
      × ArePinned manifest sources
      × ((p.run_modules sources.policy sources.facets sources.types w).0
          ≡ returned (some engine_class))

  exported-returned :
      (sources : Sources) (w : W) {engine_class : C}
      → (exported p sources w).0 ≡ returned engine_class
      → (p.run_modules sources.policy sources.facets sources.types w).0
        ≡ returned (some engine_class)
  unfolding exported
  exported-returned sources w {engine_class} e =
      let (found, w1, q, e1) =
        >>=-eq-returned (p.run_modules sources.policy sources.facets sources.types) _ w e in
      let is_some : found ≡ some engine_class =
        require-eq-ok found _ (lift-eq-returned (require found "policy-engine-export") w1 e1) in
      cc

  checked_manifest-digest :
      (path : String) (expected : Units) (w : W) {content : Units}
      → (checked_manifest p path expected w).0 ≡ returned content
      → p.files.sha256 content ≡ expected
  unfolding checked_manifest
  checked_manifest-digest path expected w {content} e =
      let (handle, w1, _, e1) = >>=-eq-returned (p.files.open_read path) _ w e in
      let (found, w2, _, e2) =
        >>=-eq-returned (finally (read_manifest p handle) (p.files.close handle)) _ w1 e1 in
      let differs = not (p.files.sha256 found == expected) in
      let (_, w3, q, e3) =
        >>=-eq-returned (refuse_if differs "runtime-manifest-integrity") _ w2 e2 in
      let same = refuse_if-eq-returned differs "runtime-manifest-integrity" w2 (ap (λ r. r.0) q) in
      let found_eq : found ≡ content = cc in rw (← found_eq) (ground arith)

  pub load-IsPinnedClass :
      (module_path : Option String) (path : String) (expected : Units) (w : W) {engine_class : C}
      → (load_verified_policy_engine p module_path path expected w).0 ≡ returned engine_class
      → IsPinnedClass expected engine_class
  unfolding load_verified_policy_engine
  load-IsPinnedClass module_path path expected w e =
      let (content, w1, q1, e1) = >>=-eq-returned (checked_manifest p path expected) _ w e in
      let (manifest, w2, q2, e2) =
        >>=-eq-returned (lift (parse_runtime_manifest content)) _ w1 e1 in
      let (root, w3, _, e3) = >>=-eq-returned (lift (runtime_root p module_path)) _ w2 e2 in
      let (_, w4, _, e4) = >>=-eq-returned (check_installed p root content) _ w3 e3 in
      let (sources, w5, q5, e5) = >>=-eq-returned (read_sources p root manifest) _ w4 e4 in
      (
        content,
        manifest,
        sources,
        w5,
        checked_manifest-digest path expected w (ap (λ r. r.0) q1),
        lift-eq-returned (parse_runtime_manifest content) w1 (ap (λ r. r.0) q2),
        read_sources-ArePinned root manifest w4 (ap (λ r. r.0) q5),
        exported-returned sources w5 e5,
      )
