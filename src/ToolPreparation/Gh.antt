-- ===== src/ToolPreparation/Gh.antt =====
-- `createGhPreparationModule` of src/init/tool-preparation/gh.ts. The dependencies run external
-- programs: they are parameters, calls on the world `W`. The colour and the line feed of the messages
-- are left out.
pub mod Laws
use agent_governance.Base.{
  String, ◌<>◌, Bool, true, false, not, ◌&&◌, Option, none, some, List, [], ◌∷◌, if◌then◌else◌,
}
use agent_governance.Contracts.Types.{
  InstallPhase, inspecting, activating, verifying, Thrown, interruption, failure, error,
  Interruption,
}
use agent_governance.Contracts.Effects.{Outcome, returned, threw, Eff, ◌>>=◌, give, rethrow}
use agent_governance.ToolPreparation.Types.{
  ToolStatus, ready, missing, auth_required, skipped, unavailable, ToolResult, ToolModule,
}

pub data Platform : Type 0 where
  darwin linux other : Platform

pub data Operation : Type 0 where
  install login : Operation

-- the probes return what `gh` reported; the runs return whether they succeeded
pub record GhDependencies (W : Type 0) : Type 0 where
  pub platform : Platform
  pub write : String → Eff W (Unit {0})
  pub check_gh_exists : Eff W (Bool × Option String)
  pub check_gh_auth : Eff W (Bool × Option String)
  pub run_gh_auth_login : Eff W Bool
  pub run_apt_update : Eff W Bool
  pub run_apt_install : Eff W Bool
  pub run_brew_install : Eff W Bool
  pub check_apt_available : Eff W Bool
  pub check_brew_available : Eff W Bool
  pub check_apt_privileges : Eff W Bool
  pub install_guidance : String

abbrev tool : String
tool = "github_cli"

abbrev pub effect_context : Operation → String
effect_context install = "github_cli:install"
effect_context login = "github_cli:login"

abbrev pub context_of : Option Operation → Option String
context_of none = none
context_of (some op) = some (effect_context op)

abbrev resource_of : Option Operation → String
resource_of none = "github_cli:inspect"
resource_of (some op) = effect_context op

abbrev began : Option Operation → Bool
began none = false
began (some _) = true

-- `toolInterruption`
unfoldable pub tool_interruption : InstallPhase → Option Operation → Thrown → Thrown
tool_interruption phase op (interruption i) = interruption (record {
  signal = i.signal;
  phase = phase;
  rollback_status = i.rollback_status;
  resource_id = resource_of op;
  external_effect = began op;
})
tool_interruption phase op t = t

abbrev or_unknown : Option String → String
or_unknown none = "unknown"
or_unknown (some s) = s

-- `preparedResult`
abbrev pub prepared_result : Option Operation → ToolStatus → String → ToolResult
prepared_result op status message = record {
  tool_id = tool;
  status = status;
  message = some message;
  effect_context = context_of op;
}

-- a call inside `try`, with the `phase` and the `operation` that hold when it is made
abbrev pub during : {W A : Type 0} → InstallPhase → Option Operation → Eff W A → Eff W A
during phase op m = rethrow (tool_interruption phase op) m

module _ {W : Type 0} (d : GhDependencies W) where
  inspect_auth : Option String → Bool × Option String → ToolResult
  inspect_auth version (true, user) =
      prepared_result none ready
        ("GitHub CLI (gh) " <> or_unknown version <> " authenticated as " <> or_unknown user <> ".")
  inspect_auth version (false, user) = prepared_result none auth_required (
      "GitHub CLI (gh) "
      <> or_unknown version
      <> " found but not authenticated. Run 'gh auth login' to authenticate.")

  inspect_found : Bool × Option String → Eff W ToolResult
  unfolding inspect_auth
  inspect_found (true, version) = do
    auth ← during inspecting none d.check_gh_auth
    give (inspect_auth version auth)
  inspect_found (false, version) =
      give (prepared_result none missing ("GitHub CLI (gh) not found. " <> d.install_guidance))

  unfoldable pub inspect : Eff W ToolResult
  unfolding inspect_found
  inspect = do found ← during inspecting none d.check_gh_exists; inspect_found found

  -- the last two probes
  unfoldable pub finish : InstallPhase → Option Operation → Eff W ToolResult
  finish phase op = do
    found ← during phase op d.check_gh_exists
    auth ← during phase op d.check_gh_auth
    give (
        if found.0 && auth.0
        then prepared_result op ready (
            "GitHub CLI (gh) "
            <> or_unknown found.1
            <> " authenticated as "
            <> or_unknown auth.1
            <> ".")
        else prepared_result op unavailable
            "gh preparation incomplete after installation and authentication.")

  -- behind the web login
  unfoldable pub after_login : Bool → Eff W ToolResult
  after_login true = finish verifying (some login)
  after_login false =
      give (prepared_result (some login) auth_required "gh authentication failed or was cancelled.")

  unfoldable pub sign_in : Bool → InstallPhase → Option Operation → Eff W ToolResult
  sign_in false phase op = give (prepared_result op skipped "User declined gh authentication.")
  sign_in true phase op = do
    _ ← during phase op (d.write "USER: Starting gh authentication via web flow (interactive)...")
    done ← during activating (some login) d.run_gh_auth_login
    after_login done

  unfoldable pub authenticate : Bool → InstallPhase → Option Operation → Eff W ToolResult
  authenticate authorize_login phase op = do
    auth ← during phase op d.check_gh_auth
    if auth.0 then finish phase op else sign_in authorize_login phase op

  -- behind the package manager
  unfoldable pub after_install : Bool → Bool → Eff W ToolResult
  after_install authorize_login false = give (
      prepared_result (some install) unavailable ("gh installation failed. " <> d.install_guidance))
  after_install authorize_login true = do
    found ← during verifying (some install) d.check_gh_exists
    if found.0
        then authenticate authorize_login verifying (some install)
        else give
            (prepared_result (some install) unavailable "gh was installed but cannot be verified.")

  apt_install : Bool → Eff W Bool
  apt_install true = during activating (some install) d.run_apt_install
  apt_install false = give false

  unfoldable pub run_install : Platform → Eff W Bool
  unfolding apt_install
  run_install darwin = during activating (some install) d.run_brew_install
  run_install linux = do
    updated ← during activating (some install) d.run_apt_update
    apt_install updated
  run_install other = give false

  unfoldable pub install_gh : Bool → String → Eff W ToolResult
  install_gh authorize_login command = do
    _ ← during inspecting none (d.write ("USER: Starting gh installation via " <> command <> "..."))
    installed ← run_install d.platform
    after_install authorize_login installed

  unfoldable pub linux_privileges : Bool → Bool → Eff W ToolResult
  linux_privileges authorize_login true = install_gh authorize_login "apt"
  linux_privileges authorize_login false = give (
      prepared_result none unavailable
        "Insufficient privileges to run apt. Install gh manually: sudo apt update && sudo apt install -y gh. Then rerun agent-governance init tools without elevating the governance CLI.")

  unfoldable pub linux_available : Bool → Bool → Eff W ToolResult
  linux_available authorize_login true = do
    privileged ← during inspecting none d.check_apt_privileges
    linux_privileges authorize_login privileged
  linux_available authorize_login false = give (
      prepared_result none unavailable
        "apt not found. Install gh manually using https://cli.github.com/ and rerun agent-governance init tools.")

  unfoldable pub darwin_available : Bool → Bool → Eff W ToolResult
  darwin_available authorize_login true = install_gh authorize_login "brew"
  darwin_available authorize_login false = give (
      prepared_result none unavailable
        "Homebrew not found. Install gh manually using https://cli.github.com/ and rerun agent-governance init tools.")

  -- the package manager is looked for before anything is changed
  unfoldable pub choose_installer : Platform → Bool → Eff W ToolResult
  choose_installer darwin authorize_login = do
    available ← during inspecting none d.check_brew_available
    darwin_available authorize_login available
  choose_installer linux authorize_login = do
    available ← during inspecting none d.check_apt_available
    linux_available authorize_login available
  choose_installer other authorize_login = give (
      prepared_result none unavailable
        ("Cannot install gh on this platform. " <> d.install_guidance))

  unfoldable pub absent_gh : Bool → Bool → Eff W ToolResult
  absent_gh false true = give (
      prepared_result none unavailable
        ("gh disappeared before the authorized login. " <> d.install_guidance))
  absent_gh false false = give (prepared_result none skipped "User declined gh installation.")
  absent_gh true authorize_login = choose_installer d.platform authorize_login

  unfoldable pub prepare : Bool → Bool → Eff W ToolResult
  prepare authorize_install authorize_login = do
    found ← during inspecting none d.check_gh_exists
    if found.0
        then authenticate authorize_login inspecting none
        else absent_gh authorize_install authorize_login

  unfoldable pub gh_module : ToolModule W
  gh_module = record { tool_id = tool; inspect = inspect; prepare = prepare }
