-- ===== src/Init/Run/Keeps.antt =====
-- What the dialogue may change before the user has approved the plans.
use agent_governance.Base.{
  String, Bool, true, false, Option, none, some, List, [], ◌∷◌, Bool-cases, inl, inr, map, Result,
  ok, err,
}
use agent_governance.Contracts.Types.{InstallPhase, inspecting, planning, Command, Signal}
use agent_governance.Contracts.Effects.{Outcome, returned, threw, Eff, lift, Keeps, >>=-Keeps}
use agent_governance.ToolPreparation.Types.{ToolResult}
use agent_governance.Init.Types.{
  Environment, DiscoveredHarness, Target, Selection, HarnessRow, Request, PlannedTarget,
  Dependencies, Options, TargetResult, InitResult,
}
use agent_governance.Init.Targets.{PathFunctions}
use agent_governance.Init.Steps.{preparation_failure, interrupting, read_only_stage, resolve_all}
use agent_governance.Init.Run.{
  PreparedTarget, stepped, attempt, transaction_of, row_of, build_rows, prepare_target,
  prepare_targets, confirmed, set_up, unless_failed, tools_prepared, prepare_and_set_up, selected,
  choose, dialogue, run_init,
}

-- The prompt ends with anything but the approval, and `P` is kept.
abbrev pub NotApproved : {W : Type 0} → (W → Type 0) → Outcome (Option Bool) → W → Type 0
NotApproved P (returned (some true)) w = ⊥
NotApproved P (returned (some false)) w = P w
NotApproved P (returned none) w = P w
NotApproved P (threw t) w = P w

-- What reads, prepares tools or asks keeps `P`, and no plan is approved.
pub record IsQuiet {W : Type 0} (P : W → Type 0) (d : Dependencies W) : Type 0 where
  pub discover : (e : Environment) → Keeps P (d.discover_harnesses e)
  pub latest : Keeps P d.resolve_latest_release
  pub step : (s : String) (w : W) → P w → P (d.step s w)
  pub dispose : (w : W) → P w → P (d.dispose w)
  pub select : (rows : List HarnessRow) → Keeps P (d.select_targets rows)
  pub exists : (s : String) → Keeps P (d.directory_exists s)
  pub tools : (skip : Bool) → Keeps P (d.prepare_tools skip)
  pub status : (r : Request) → Keeps P (d.create_transaction r).status
  pub plan : (r : Request) (c : Command) → Keeps P ((d.create_transaction r).plan c)
  pub local_version : (r : Request) → Keeps P (d.create_transaction r).local_version
  pub declined :
      (plans : List PlannedTarget) (w : W)
      → P w
      → NotApproved P (d.confirm plans w).0 (d.confirm plans w).1

module _ {W : Type 0} (P : W → Type 0) (tools : List ToolResult) (done : List TargetResult) where
  attempt-Keeps :
      {A : Type 0} (m : Eff W A) (k : A → Eff W InitResult)
      → Keeps P m
      → ((a : A) → Keeps P (k a))
      → Keeps P (attempt tools done m k)
  attempt-Keeps {A} m k h hk w p = split (m w).0 (m w).1 (h w p)
    where
      split : (o : Outcome A) (v : W) → P v → P (stepped tools done o v k).1
      split (returned a) v q = hk a v q
      split (threw t) v q = q

module _ {W : Type 0} (P : W → Type 0) (d : Dependencies W) (path : PathFunctions)
    (options : Options) (quiet : IsQuiet P d) where
  read_only_keeps :
      {A : Type 0} (phase : InstallPhase) (m : Eff W A)
      → Keeps P m
      → Keeps P (read_only_stage d phase m)
  unfolding read_only_stage
  read_only_keeps phase m h w p = h w p

  row_of_keeps :
      (latest : Option String) (h : DiscoveredHarness) (t : Option Target)
      → Keeps P (row_of d path options latest h t)
  unfolding row_of transaction_of
  row_of_keeps latest h none = λ w p. p
  row_of_keeps latest h (some t) =
      >>=-Keeps P (d.directory_exists t.target_root) _ (quiet.exists _) λ there.
        elim (Bool-cases there) [
          | inr gone ↦ rw gone (λ w p. p)
          | inl found ↦ rw found (
              >>=-Keeps P (transaction_of d path options t).status _ (quiet.status _) λ status.
                >>=-Keeps P (transaction_of d path options t).local_version _
                  (quiet.local_version _) λ v w p. p)
        ]

  build_rows_keeps :
      (latest : Option String) (hs : List DiscoveredHarness)
      → Keeps P (build_rows d path options latest hs)
  unfolding build_rows
  build_rows_keeps latest [] = λ w p. p
  build_rows_keeps latest (h ∷ hs) =
      >>=-Keeps P (row_of d path options latest h _) _ (row_of_keeps latest h _) λ row.
        >>=-Keeps P (build_rows d path options latest hs) _ (build_rows_keeps latest hs)
          λ rows w p. p

  prepare_targets_keeps :
      (ts : List (Selection × Target)) → Keeps P (prepare_targets d path options ts)
  unfolding prepare_targets prepare_target transaction_of
  prepare_targets_keeps [] = λ w p. p
  prepare_targets_keeps ((s, t) ∷ ts) =
      >>=-Keeps P (prepare_target d path options (s, t)) _
        (>>=-Keeps P (read_only_stage d inspecting (transaction_of d path options t).status) _
          (read_only_keeps inspecting _ (quiet.status _))
          λ status.
            >>=-Keeps P (read_only_stage d planning ((transaction_of d path options t).plan _)) _
              (read_only_keeps planning _ (quiet.plan _ _)) λ plan w p. p)
        λ x.
          >>=-Keeps P (prepare_targets d path options ts) _ (prepare_targets_keeps ts) λ xs w p. p

  declined_keeps :
      (tools : List ToolResult) (prepared : List (PreparedTarget W)) (plans : List PlannedTarget)
      → Keeps P (
          attempt tools []
            (read_only_stage d planning (d.confirm plans))
            (confirmed d path options tools prepared))
  unfolding read_only_stage confirmed
  declined_keeps tools prepared plans w p =
      split _ (d.confirm plans w).0 (d.confirm plans w).1 (quiet.declined plans w p)
    where
      split :
          (s : Option (Signal × InstallPhase)) (o : Outcome (Option Bool)) (v : W)
          → NotApproved P o v
          → P (stepped tools [] (interrupting s o) v (confirmed d path options tools prepared)).1
      split none (returned (some true)) v q = elim q [ ]
      split none (returned (some false)) v q = q
      split none (returned none) v q = q
      split none (threw t) v q = q
      split (some s) (returned (some true)) v q = elim q [ ]
      split (some s) (returned (some false)) v q = q
      split (some s) (returned none) v q = q
      split (some s) (threw t) v q = q

  set_up_keeps :
      (tools : List ToolResult) (ts : List (Selection × Target))
      → Keeps P (set_up d path options tools ts)
  unfolding set_up
  set_up_keeps tools ts w p =
      attempt-Keeps P tools [] (prepare_targets d path options ts) _ (prepare_targets_keeps ts)
        (λ prepared. declined_keeps tools prepared (map (λ x. x.planned) prepared))
        (d.step "Prüfen und einrichten" w) (quiet.step _ w p)

  prepared_keeps : (ts : List (Selection × Target)) → Keeps P (prepare_and_set_up d path options ts)
  unfolding prepare_and_set_up tools_prepared unless_failed
  prepared_keeps ts w p = elim (Bool-cases d.skip_tools) [
    | inl skip ↦ simp skip (set_up_keeps [] ts w p)
    | inr ask ↦ simp ask (
        attempt-Keeps P [] [] (d.prepare_tools false) (tools_prepared d path options ts)
          (quiet.tools false) (λ tools. tools_keeps tools (preparation_failure tools))
          (d.dispose (d.step "Tools vorbereiten" w)) (quiet.dispose _ (quiet.step _ w p)))
  ]
    where
      tools_keeps :
          (tools : List ToolResult) (f : Option InitResult)
          → Keeps P (unless_failed d path options tools ts f)
      tools_keeps tools (some r) = λ w p. p
      tools_keeps tools none = set_up_keeps tools ts

  selected_keeps : (s : Option (List Selection)) → Keeps P (selected d path options s)
  unfolding selected
  selected_keeps none = λ w p. p
  selected_keeps (some s) =
      attempt-Keeps P [] [] (lift (resolve_all path options s)) _
        (lifted (resolve_all path options s)) prepared_keeps
    where
      lifted : (r : Result (List (Selection × Target))) → Keeps P (lift r)
      lifted (ok a) = λ w p. p
      lifted (err e) = λ w p. p

  dialogue_keeps : Keeps P (dialogue d path options)
  unfolding dialogue choose
  dialogue_keeps w p =
      attempt-Keeps P [] []
        (read_only_stage d inspecting (d.discover_harnesses options.environment)) _
        (read_only_keeps inspecting _ (quiet.discover _))
        (λ discovered.
          attempt-Keeps P [] [] (read_only_stage d inspecting d.resolve_latest_release) _
            (read_only_keeps inspecting _ quiet.latest)
            λ latest.
              attempt-Keeps P [] []
                (read_only_stage d inspecting (build_rows d path options latest discovered)) _
                (read_only_keeps inspecting _ (build_rows_keeps latest discovered))
                λ rows v q.
                  attempt-Keeps P [] [] (read_only_stage d planning (d.select_targets rows)) _
                    (read_only_keeps planning _ (quiet.select rows)) selected_keeps
                    (d.step "Coding-Harnesses auswählen" v) (quiet.step _ v q))
        (d.step "Umgebung prüfen" w) (quiet.step _ w p)

-- Without an approval of the plans the dialogue installs nothing: a property of the world that the
-- reading calls, the prompt and the preparation of tools keep is kept by `run_init`, if the user
-- never approves. Nothing is asked of what `install`, `update` and `verify` do.
pub run_init-Keeps :
    {W : Type 0} (P : W → Type 0) (d : Dependencies W) (path : PathFunctions) (options : Options)
    → IsQuiet P d
    → (w : W) → P w
    → P (run_init d path options w).1
unfolding run_init
run_init-Keeps P d path options quiet w p = elim (Bool-cases options.is_tty) [
  | inl tty ↦ simp tty (quiet.dispose _ (dialogue_keeps P d path options quiet w p))
  | inr off ↦ simp off p
]
