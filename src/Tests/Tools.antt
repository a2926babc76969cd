-- ===== src/Tests/Tools.antt =====
-- The preparation of `gh` on a small machine: the world says whether `gh` is installed and whether
-- it is authenticated.
use agent_governance.Base.{String, ◌≡◌, refl, Bool, true, false, some, [], ◌∷◌}
use agent_governance.Contracts.Types.{sigint, inspecting, not_required, interruption}
use agent_governance.Contracts.Effects.{returned, Eff, give, raise}
use agent_governance.ToolPreparation.Types.{ready, ToolResult, ToolModule}
use agent_governance.ToolPreparation.Gh.{
  linux, GhDependencies, inspect, prepare, absent_gh, choose_installer, linux_available,
  linux_privileges, install_gh, run_install, after_install, authenticate, sign_in, after_login,
  finish,
}
use agent_governance.ToolPreparation.Gh.Laws.{
  ProbesKeep, InstallersKeep, IsReady, inspect-Keeps, prepare-Keeps, prepare-IsReady,
}
use agent_governance.ToolPreparation.Run.{installed, run}
use agent_governance.ToolPreparation.Run.Laws.{Quiet, NamesEffect, run-Keeps, installed-NamesEffect}

pub record Machine : Type 0 where
  pub has_gh : Bool
  pub signed_in : Bool

abbrev machine : GhDependencies Machine
machine = record {
  platform = linux;
  write = λ s. give tt;
  check_gh_exists = λ w. (returned (w.has_gh, some "2.0.0"), w);
  check_gh_auth = λ w. (returned (w.signed_in, some "octocat"), w);
  run_gh_auth_login = λ w. (returned true, record w { signed_in = true });
  run_apt_update = give true;
  run_apt_install = λ w. (returned true, record w { has_gh = true });
  run_brew_install = give false;
  check_apt_available = give true;
  check_brew_available = give false;
  check_apt_privileges = give true;
  install_guidance = "see the manual";
}

abbrev fresh : Machine
fresh = record { has_gh = false; signed_in = false }

abbrev with_gh : Machine
with_gh = record { has_gh = true; signed_in = false }

abbrev IsSignedOut : Machine → Type 0
IsSignedOut w = w.signed_in ≡ false

machine-ProbesKeep : ProbesKeep machine IsSignedOut
machine-ProbesKeep = record {
  write = λ s w p. p;
  exists = λ w p. p;
  auth = λ w p. p;
  apt = λ w p. p;
  brew = λ w p. p;
  privileges = λ w p. p;
}

machine-InstallersKeep : InstallersKeep machine IsSignedOut
machine-InstallersKeep = record { update = λ w p. p; apt = λ w p. p; brew = λ w p. p }

prepare-Keeps_example : IsSignedOut (prepare machine true false fresh).1
prepare-Keeps_example =
    prepare-Keeps machine IsSignedOut true false machine-ProbesKeep (λ e. machine-InstallersKeep)
      (λ e. cc) fresh refl

abbrev finished : Machine
finished = record { has_gh = true; signed_in = true }

abbrev prepared : ToolResult
prepared = record {
  tool_id = "github_cli";
  status = ready;
  message = some "GitHub CLI (gh) 2.0.0 authenticated as octocat.";
  effect_context = some "github_cli:login";
}

whole_preparation : prepare machine true true fresh ≡ (returned prepared, finished)
unfolding prepare absent_gh choose_installer linux_available linux_privileges install_gh run_install
    after_install authenticate sign_in after_login finish
whole_preparation = refl

prepare-IsReady_example : IsReady machine finished
prepare-IsReady_example = prepare-IsReady machine true true fresh finished whole_preparation refl

abbrev refuse : ToolModule Machine → String → Eff Machine Bool
refuse m s = give false

abbrev tool : ToolModule Machine
tool = record { tool_id = "github_cli"; inspect = inspect machine; prepare = prepare machine }

tool-Quiet : Quiet IsSignedOut tool
tool-Quiet = (
  inspect-Keeps machine IsSignedOut machine-ProbesKeep,
  prepare-Keeps machine IsSignedOut false false machine-ProbesKeep (λ e. cc) (λ e. cc),
)

run-Keeps_example : IsSignedOut (run refuse (tool ∷ []) false fresh).1
run-Keeps_example =
    run-Keeps IsSignedOut refuse (tool ∷ []) false (λ m s w p. (refl, p)) (tool-Quiet, tt) fresh
      refl

abbrev stopped : ToolModule Machine
stopped = record {
  tool_id = "github_cli";
  inspect = raise (
      interruption (record {
        signal = sigint;
        phase = inspecting;
        rollback_status = not_required;
        resource_id = "installation";
        external_effect = false;
      }));
  prepare = prepare machine;
}

installed-NamesEffect_example : NamesEffect (installed refuse stopped true prepared fresh)
installed-NamesEffect_example =
    installed-NamesEffect refuse stopped true prepared "github_cli:login" refl fresh
