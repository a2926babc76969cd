-- ===== src/Tests/Dialogue.antt =====
-- The dialogue on a small machine: the world counts the installations.
use agent_governance.Base.{
  ℕ, suc, String, ◌<>◌, ◌≡◌, refl, Bool, true, false, none, some, List, [], ◌∷◌,
}
use agent_governance.Contracts.Types.{success, fresh, current}
use agent_governance.Contracts.Effects.{returned, give}
use agent_governance.Init.Types.{DiscoveredHarness, harness, Transaction, Dependencies, Options}
use agent_governance.Init.Targets.{PathFunctions}
use agent_governance.Init.Run.{run_init}
use agent_governance.Init.Run.Keeps.{IsQuiet, run_init-Keeps}
use agent_governance.Init.Run.Verified.{IsVerified, Reports, run_init-IsVerified}

abbrev join : List String → String
join [] = ""
join (s ∷ ss) = "/" <> s <> join ss

abbrev path : PathFunctions
path = record { join = join; is_absolute = λ s. true; resolve = λ s. s; normalize = λ s. s }

abbrev claude : DiscoveredHarness
claude = record { id = "claude"; display_name = "Claude" }

abbrev transaction : Transaction ℕ
transaction = record {
  status = give (record { outcome = success; state = fresh });
  plan = λ command. give (record { outcome = success; state = fresh });
  install = λ w. (returned (record { outcome = success; state = current }), suc w);
  update = λ w. (returned (record { outcome = success; state = current }), suc w);
  verify = give (record { outcome = success; state = current });
  local_version = give none;
}

abbrev answering : Bool → Dependencies ℕ
answering answer = record {
  discover_harnesses = λ e. give (claude ∷ []);
  resolve_latest_release = give (some "1.0.0");
  step = λ s w. w;
  dispose = λ w. w;
  select_targets = λ rows. give (some (harness claude ∷ []));
  confirm = λ plans. give (some answer);
  create_transaction = λ r. transaction;
  skip_tools = true;
  prepare_tools = λ skip. give [];
  delivered = λ u v. [];
  directory_exists = λ s. give true;
  join = join;
}

abbrev options : Options
options = record {
  is_tty = true;
  environment = record { home = "home"; xdg_config_home = none };
  release_root = "release";
  installation_root = none;
}

abbrev IsUntouched : ℕ → Type 0
IsUntouched w = w ≡ 0

declining-IsQuiet : IsQuiet IsUntouched (answering false)
declining-IsQuiet = record {
  discover = λ e w p. p;
  latest = λ w p. p;
  step = λ s w p. p;
  dispose = λ w p. p;
  select = λ rows w p. p;
  exists = λ s w p. p;
  tools = λ skip w p. p;
  status = λ r w p. p;
  plan = λ r c w p. p;
  local_version = λ r w p. p;
  declined = λ plans w p. p;
}

run_init-Keeps_example : IsUntouched (run_init (answering false) path options 0).1
run_init-Keeps_example =
    run_init-Keeps IsUntouched (answering false) path options declining-IsQuiet 0 refl

run_init-IsVerified_example :
    Reports (IsVerified (answering true) path options) (run_init (answering true) path options 0)
run_init-IsVerified_example = run_init-IsVerified (answering true) path options 0
