-- ===== src/Init/Run/Verified.antt =====
-- What the result of the dialogue says of the targets.
use agent_governance.Base.{
  ◌≡◌, refl, subst, true, false, not, ◌||◌, Option, none, some, List, [], ◌∷◌, ◌++◌, arith,
  Bool-cases, inl, inr, All, All-append,
}
use agent_governance.Contracts.Types.{
  InstallPhase, inspecting, planning, verifying, InstallState, current, TerminalOutcome, success,
  Signal, Thrown, interruption, failure, error,
}
use agent_governance.Contracts.Effects.{Outcome, returned, threw, Eff, lift, Gives, >>=-Gives}
use agent_governance.ToolPreparation.Types.{ToolResult}
use agent_governance.Init.Types.{
  Target, Selection, Dependencies, Options, TargetResult, InitResult, setup_failed,
  tool_preparation_failed, non_tty, cancelled, InstallResult,
}
use agent_governance.Init.Targets.{PathFunctions}
use agent_governance.Init.Steps.{
  is_success, is_current, preparation_failure, interrupting, read_only_stage, resolve_all,
}
use agent_governance.Init.Run.{
  PreparedTarget, caught, stepped, attempt, transaction_of, build_rows, prepare_target,
  prepare_targets, change, result_of, install_all, confirmed, set_up, unless_failed, tools_prepared,
  prepare_and_set_up, selected, choose, dialogue, run_init,
}

abbrev pub targets_of : InitResult → List TargetResult
targets_of (setup_failed _ done _ _ _) = done
targets_of (InitResult.success done _) = done
targets_of (tool_preparation_failed _) = []
targets_of non_tty = []
targets_of (cancelled done _ _) = done

-- `verify` of the transaction of the target has returned success and the state current.
abbrev pub IsVerified :
    {W : Type 0} → Dependencies W → PathFunctions → Options → TargetResult → Type 0
IsVerified {W} d path options t =
    (w : W) × (r : InstallResult) × (((transaction_of d path options t.target).verify w).0
      ≡ returned r)
    × (r.outcome ≡ success)
    × (r.state ≡ current)

-- Every target that the call reports satisfies `Q`.
abbrev pub Reports : {W : Type 0} → (TargetResult → Type 0) → Outcome InitResult × W → Type 0
Reports Q (returned r, w) = All Q (targets_of r)
Reports Q (threw t, w) = Unit

module _ {W : Type 0} (Q : TargetResult → Type 0) (tools : List ToolResult)
    (done : List TargetResult) (good : All Q done) where
  caught-Reports : (t : Thrown) (w : W) → Reports Q (caught tools done t, w)
  unfolding caught
  caught-Reports (interruption i) w = good
  caught-Reports (failure f) w = ground arith
  caught-Reports (error e) w = ground arith

  attempt-Reports :
      {A : Type 0} (m : Eff W A) (k : A → Eff W InitResult) (w : W)
      → ((a : A) → (m w).0 ≡ returned a → Reports Q (k a (m w).1))
      → Reports Q (attempt tools done m k w)
  attempt-Reports {A} m k w h = split (m w).0 refl
    where
      split : (o : Outcome A) → (m w).0 ≡ o → Reports Q (stepped tools done o (m w).1 k)
      split (returned a) e = h a e
      split (threw t) e = caught-Reports t (m w).1

interrupting-returned :
    {A : Type 0} (s : Option (Signal × InstallPhase)) (o : Outcome A) {a : A}
    → interrupting s o ≡ returned a
    → o ≡ returned a
interrupting-returned none o e = e
interrupting-returned (some s) o e = cc

failed_lem :
    (tools : List ToolResult) {r : InitResult}
    → preparation_failure tools ≡ some r
    → tool_preparation_failed tools ≡ r
unfolding preparation_failure
failed_lem tools e = ground arith

module _ {W : Type 0} (d : Dependencies W) (path : PathFunctions) (options : Options) where
  -- The transaction is the one that was created for the target.
  abbrev Owns : PreparedTarget W → Type 0
  Owns p = p.transaction ≡ transaction_of d path options p.planned.target

  prepare_target-Owns :
      (x : Selection × Target) (w : W) → Gives Owns (prepare_target d path options x w).0
  unfolding prepare_target
  prepare_target-Owns (s, t) w =
      >>=-Gives (λ _. Unit) Owns
        (read_only_stage d inspecting (transaction_of d path options t).status) _ w (anything _)
        λ status v _.
          >>=-Gives (λ _. Unit) Owns
            (read_only_stage d planning ((transaction_of d path options t).plan _)) _ v (anything _)
            λ plan u _. refl
    where
      anything : (o : Outcome InstallResult) → Gives (λ _. Unit) o
      anything (returned _) = tt
      anything (threw _) = tt

  prepare_targets_own :
      (ts : List (Selection × Target)) (w : W)
      → Gives (All Owns) (prepare_targets d path options ts w).0
  unfolding prepare_targets
  prepare_targets_own [] w = tt
  prepare_targets_own (x ∷ ts) w =
      >>=-Gives Owns (All Owns) (prepare_target d path options x) _ w (prepare_target-Owns x w)
        λ p v own.
          >>=-Gives (All Owns) (All Owns) (prepare_targets d path options ts) _ v
            (prepare_targets_own ts v) λ ps u owns. (own, owns)

  IsVerified-at :
      (p : PreparedTarget W)
      → Owns p
      → (r : InstallResult) (w : W)
      → (read_only_stage d verifying p.transaction.verify w).0 ≡ returned r
      → (not (is_success r.outcome) || not (is_current r.state)) ≡ false
      → IsVerified d path options (result_of p)
  unfolding read_only_stage result_of
  IsVerified-at p own r w e h = (
    w,
    r,
    rw (← own) (interrupting-returned _ (p.transaction.verify w).0 e),
    succeeded r.outcome (ground arith),
    is_current_lem r.state (ground arith),
  )
    where
      succeeded : (o : TerminalOutcome) → is_success o ≡ true → o ≡ success
      succeeded success e = refl
      succeeded _ e = cc

      is_current_lem : (s : InstallState) → is_current s ≡ true → s ≡ current
      is_current_lem current e = refl
      is_current_lem _ e = cc

  install_all-Reports :
      (tools : List ToolResult) (done : List TargetResult) (ps : List (PreparedTarget W))
      → All (IsVerified d path options) done
      → All Owns ps
      → (w : W) → Reports (IsVerified d path options) (install_all d path options tools done ps w)
  unfolding install_all
  install_all-Reports tools done [] good _ w = good
  install_all-Reports tools done (p ∷ ps) good (own, owns) w =
      attempt-Reports (IsVerified d path options) tools done good (change p) _ w λ installed e.
        elim (Bool-cases (is_success installed.outcome)) [
          | inr bad ↦
              rw bad (caught-Reports (IsVerified d path options) tools done good (error _) _)
          | inl fine ↦ rw fine (
              attempt-Reports (IsVerified d path options) tools done good
                (read_only_stage d verifying p.transaction.verify) _ _
                λ verified f.
                  elim (Bool-cases
                    (not (is_success verified.outcome) || not (is_current verified.state))) [
                      | inl bad ↦
                          rw bad
                            (caught-Reports (IsVerified d path options) tools done good (error _) _)
                      | inr right ↦ rw right (
                          install_all-Reports tools (done ++ result_of p ∷ []) ps
                            (All-append (IsVerified d path options) done (result_of p ∷ []) good
                              (IsVerified-at p own verified _ f right, tt))
                            owns _)
                    ])
        ]

  set_up-Reports :
      (tools : List ToolResult) (ts : List (Selection × Target)) (w : W)
      → Reports (IsVerified d path options) (set_up d path options tools ts w)
  unfolding set_up confirmed
  set_up-Reports tools ts w =
      attempt-Reports (IsVerified d path options) tools [] tt (prepare_targets d path options ts) _
        _
        λ prepared e.
          attempt-Reports (IsVerified d path options) tools [] tt
            (read_only_stage d planning (d.confirm _)) _ _
            (elim [
              | some true ↦ λ f.
                  install_all-Reports tools [] prepared tt
                    (subst (Gives (All Owns)) e (prepare_targets_own ts _)) _
              | some false ↦ λ f. tt
              | none ↦ λ f. tt
            ])

  tools_prepared-Reports :
      (ts : List (Selection × Target)) (tools : List ToolResult) (w : W)
      → Reports (IsVerified d path options) (tools_prepared d path options ts tools w)
  unfolding tools_prepared unless_failed
  tools_prepared-Reports ts tools w = split (preparation_failure tools) refl
    where
      split :
          (f : Option InitResult)
          → preparation_failure tools ≡ f
          → Reports (IsVerified d path options) (unless_failed d path options tools ts f w)
      split none e = set_up-Reports tools ts w
      split (some r) e = rw (← failed_lem tools e) tt

  prepared-Reports :
      (ts : List (Selection × Target)) (w : W)
      → Reports (IsVerified d path options) (prepare_and_set_up d path options ts w)
  unfolding prepare_and_set_up
  prepared-Reports ts w = elim (Bool-cases d.skip_tools) [
    | inl skip ↦ simp skip (set_up-Reports [] ts w)
    | inr ask ↦ simp ask (
        attempt-Reports (IsVerified d path options) [] [] tt (d.prepare_tools false)
          (tools_prepared d path options ts) _ λ tools e. tools_prepared-Reports ts tools _)
  ]

  dialogue-Reports : (w : W) → Reports (IsVerified d path options) (dialogue d path options w)
  unfolding dialogue choose selected
  dialogue-Reports w =
      attempt-Reports (IsVerified d path options) [] [] tt
        (read_only_stage d inspecting (d.discover_harnesses _)) _ _
        λ discovered e.
          attempt-Reports (IsVerified d path options) [] [] tt
            (read_only_stage d inspecting d.resolve_latest_release) _ _
            λ latest e.
              attempt-Reports (IsVerified d path options) [] [] tt
                (read_only_stage d inspecting (build_rows d path options latest discovered)) _ _
                λ rows e.
                  attempt-Reports (IsVerified d path options) [] [] tt
                    (read_only_stage d planning (d.select_targets rows)) _ _
                    (elim [
                      | none ↦ λ e. tt
                      | some s ↦ λ e.
                          attempt-Reports (IsVerified d path options) [] [] tt
                            (lift (resolve_all path options s)) _ _ λ ts e. prepared-Reports ts _
                    ])

-- Every target that a result of `run_init` reports as set up has been verified: its transaction's
-- `verify` has returned success and the state current. This holds of each kind of result, also of
-- one that reports a failure or an interruption.
pub run_init-IsVerified :
    {W : Type 0} (d : Dependencies W) (path : PathFunctions) (options : Options) (w : W)
    → Reports (IsVerified d path options) (run_init d path options w)
unfolding run_init
run_init-IsVerified {W} d path options w = elim (Bool-cases options.is_tty) [
  | inl tty ↦ simp tty (ended (dialogue d path options w) (dialogue-Reports d path options w))
  | inr off ↦ simp off tt
]
  where
    ended :
        (r : Outcome InitResult × W)
        → Reports (IsVerified d path options) r
        → Reports (IsVerified d path options) (r.0, d.dispose r.1)
    ended (returned r, v) h = h
    ended (threw t, v) h = tt
