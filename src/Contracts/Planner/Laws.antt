-- ===== src/Contracts/Planner/Laws.antt =====
-- Which plans `planInstallation` of src/planner.ts makes.
use agent_governance.Base.{
  String, ◌≡◌, refl, ◌≢◌, ◌↔◌, ◌⊎◌, inl, inr, false, Option, none, some, List, [], ◌∷◌, map,
  if◌then◌else◌, arith, ok, Bool-cases, subst,
}
use agent_governance.Contracts.Types.{
  Command, inspect, plan, install, verify, status, update, uninstall, rollback, InstallState, fresh,
  current, outdated, downgrade_blocked, absent, tampered, recovery_required,
}
use agent_governance.Contracts.Planner.{
  Resource, release, current_metadata, entry_file, backup, receipt, local_rules, Operation, create,
  replace, remove, preserve, check, PlannedResource, PlanInput, is_unsafe, is_mutating,
  active_operation, release_operation, base_resources, add_local_rules, plan_installation,
}

-- The installation may be changed in this state.
abbrev pub IsSafe : InstallState → Type 0
IsSafe s = (s ≢ tampered) × (s ≢ recovery_required) × (s ≢ downgrade_blocked)

-- What is done to the release, to the metadata and the entry file, to the backups and to the receipt.
abbrev pub Operations : Type 0
Operations = Operation × Operation × Operation × Operation

abbrev pub Reads : Command → Type 0
Reads c = (c ≡ inspect) ⊎ (c ≡ plan) ⊎ (c ≡ verify) ⊎ (c ≡ status)

abbrev pub Writes : Command → Type 0
Writes c = (c ≡ install) ⊎ (c ≡ update) ⊎ (c ≡ rollback)

-- A reading command checks all, `uninstall` removes what is active and keeps the release, and the other
-- commands keep a current installation, replace what is active of an outdated one, and create it anew in
-- any other state. Each command that is not a reading one makes a backup and a new receipt.
pub data Performs : Command → InstallState → Operations → Type 0 where
  reads : {c : Command} {s : InstallState} → Reads c → Performs c s (check, check, check, check)
  uninstalls : {s : InstallState} → Performs uninstall s (preserve, remove, create, replace)
  keeps : {c : Command} → Writes c → Performs c current (preserve, preserve, create, replace)
  renews : {c : Command} → Writes c → Performs c outdated (create, replace, create, replace)
  creates :
      {c : Command} {s : InstallState}
      → Writes c
      → s ≢ current
      → s ≢ outdated
      → Performs c s (create, create, create, replace)

abbrev local_part : Option Operation → List (Resource × Operation)
local_part none = []
local_part (some operation) = (local_rules, operation) ∷ []

-- The resources of the plan in their order, with what is done to each.
abbrev pub IsPlanned : PlanInput → Option Operation → List PlannedResource → Type 0
IsPlanned input local resources =
    (o : Operations) × Performs input.command input.state o
    × (map {B = Resource × Operation} (λ r. (r.id, r.operation)) resources
        ≡ (release, o.0)
          ∷ (current_metadata, o.1)
          ∷ (entry_file, o.1)
          ∷ (backup, o.2)
          ∷ (receipt, o.3)
          ∷ local_part local)

is_unsafe_iff_false : (s : InstallState) → (is_unsafe s ≡ false) ↔ IsSafe s
is_unsafe_iff_false fresh = (λ e. (cc, cc, cc), λ h. refl)
is_unsafe_iff_false current = (λ e. (cc, cc, cc), λ h. refl)
is_unsafe_iff_false outdated = (λ e. (cc, cc, cc), λ h. refl)
is_unsafe_iff_false absent = (λ e. (cc, cc, cc), λ h. refl)
is_unsafe_iff_false downgrade_blocked = (λ e. cc, λ h. absurd (h.2 refl))
is_unsafe_iff_false tampered = (λ e. cc, λ h. absurd (h.0 refl))
is_unsafe_iff_false recovery_required = (λ e. cc, λ h. absurd (h.1 refl))

performed :
    (c : Command) (s : InstallState)
    → Performs c s (
      release_operation c s,
      active_operation c s,
      if is_mutating c then create else check,
      if is_mutating c then replace else check,
    )
unfolding release_operation active_operation
performed inspect s = reads (inl refl)
performed plan s = reads (inr (inl refl))
performed verify s = reads (inr (inr (inl refl)))
performed status s = reads (inr (inr (inr refl)))
performed uninstall s = uninstalls
performed install current = keeps (inl refl)
performed install outdated = renews (inl refl)
performed install _ = creates (inl refl) (cc) (cc)
performed update current = keeps (inr (inl refl))
performed update outdated = renews (inr (inl refl))
performed update _ = creates (inr (inl refl)) (cc) (cc)
performed rollback current = keeps (inr (inr refl))
performed rollback outdated = renews (inr (inr refl))
performed rollback _ = creates (inr (inr refl)) (cc) (cc)

ok-injective {ℓ} : {A : Type ℓ} → {x y : A} → (ok x ≡ ok y) → x ≡ y
ok-injective e = cc

module _ (join : List String → String) where
  add_local_rules-IsPlanned :
      (input : PlanInput) (o : Option Operation) (path : Option String)
      {resources : List PlannedResource}
      → add_local_rules join input o path (base_resources join input) ≡ ok resources
      → ((o ≡ none) ⊎ (path ≢ none)) × IsPlanned input o resources
  unfolding add_local_rules base_resources
  add_local_rules-IsPlanned input none path e = (
    inl refl,
    subst (IsPlanned input none) (ok-injective e) (_, performed input.command input.state, refl),
  )
  add_local_rules-IsPlanned input (some operation) (some path) e = (
    inr cc,
    subst (IsPlanned input (some operation)) (ok-injective e)
        (_, performed input.command input.state, refl),
  )
  add_local_rules-IsPlanned input (some operation) none e = cc

  add_local_rules_total :
      (input : PlanInput) (o : Option Operation) (path : Option String)
      → (o ≡ none) ⊎ (path ≢ none)
      → (r : List PlannedResource) × (add_local_rules join input o path (base_resources join input)
          ≡ ok r)
  unfolding add_local_rules
  add_local_rules_total input none path h = (_, refl)
  add_local_rules_total input (some o) (some p) h = (_, refl)
  add_local_rules_total input (some o) none h = absurd (ground arith)

  -- A plan is made exactly if the state is none of TAMPERED, RECOVERY_REQUIRED and DOWNGRADE_BLOCKED and
  -- local rules are not asked for or come with their path. A plan that is made lists the release, the
  -- metadata, the entry file, the backups and the receipt, then the local rules if they are asked for,
  -- each with what the command does to it in that state: a reading command checks the five, `uninstall`
  -- removes what is active, and the others keep, replace or create it.
  pub plan_installation_iff :
      (input : PlanInput)
      → (((resources : List PlannedResource) × (plan_installation join input ≡ ok resources)) ↔ (
          IsSafe input.state
          × ((input.local_rules_operation ≡ none) ⊎ (input.local_rules_path ≢ none))))
        × ((resources : List PlannedResource)
            → plan_installation join input ≡ ok resources
            → IsPlanned input input.local_rules_operation resources)
  unfolding plan_installation
  plan_installation_iff input =
      let local = input.local_rules_operation in
      let path = input.local_rules_path in
      (
        (
          λ (r, h).
              let (safe, made) = guarded r h in
              (
                (is_unsafe_iff_false input.state).0 safe,
                (add_local_rules-IsPlanned input local path made).0,
              ),
          λ (safe, given).
              let allowed = (is_unsafe_iff_false input.state).1 safe in
              let (r, e) = add_local_rules_total input local path given in (r, rw allowed e),
        ),
        λ r h. (add_local_rules-IsPlanned input local path (guarded r h).1).1,
      )
    where
      guarded :
          (r : List PlannedResource)
          → plan_installation join input ≡ ok r
          → (is_unsafe input.state ≡ false)
            × (add_local_rules join input input.local_rules_operation input.local_rules_path
                  (base_resources join input)
                ≡ ok r)
      guarded r h = elim (Bool-cases (is_unsafe input.state)) [
        | inl bad ↦ absurd (let refused = simp bad at h in cc)
        | inr safe ↦ (safe, simp safe at h)
      ]
