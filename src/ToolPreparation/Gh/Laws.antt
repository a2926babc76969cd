-- ===== src/ToolPreparation/Gh/Laws.antt =====
-- What the preparation of `gh` may change, and what its result says.
use agent_governance.Base.{
  String, ◌≡◌, refl, subst, Bool, true, false, Option, none, some, Bool-cases, inl, inr,
}
use agent_governance.Contracts.Types.{InstallPhase, inspecting, activating, verifying}
use agent_governance.Contracts.Effects.{Outcome, returned, threw, Keeps, >>=-Keeps, >>=-ends}
use agent_governance.ToolPreparation.Types.{ready, ToolResult}
use agent_governance.ToolPreparation.Gh.{
  Platform, darwin, linux, other, Operation, install, login, GhDependencies, during, finish,
  after_login, sign_in, authenticate, after_install, run_install, install_gh, linux_privileges,
  linux_available, darwin_available, choose_installer, absent_gh, prepare, inspect, inspect_found,
}

module _ {W : Type 0} (d : GhDependencies W) (P : W → Type 0) where
  -- The probes and the messages keep `P`.
  pub record ProbesKeep : Type 0 where
    pub write : (s : String) → Keeps P (d.write s)
    pub exists : Keeps P d.check_gh_exists
    pub auth : Keeps P d.check_gh_auth
    pub apt : Keeps P d.check_apt_available
    pub brew : Keeps P d.check_brew_available
    pub privileges : Keeps P d.check_apt_privileges

  pub record InstallersKeep : Type 0 where
    pub update : Keeps P d.run_apt_update
    pub apt : Keeps P d.run_apt_install
    pub brew : Keeps P d.run_brew_install

module _ {W : Type 0} (d : GhDependencies W) (P : W → Type 0) (probes : ProbesKeep d P) where
  finish_keeps : (phase : InstallPhase) (op : Option Operation) → Keeps P (finish d phase op)
  unfolding finish
  finish_keeps phase op =
      >>=-Keeps P (during phase op d.check_gh_exists) _ probes.exists
        λ found. >>=-Keeps P (during phase op d.check_gh_auth) _ probes.auth λ auth w p. p

  after_login_keeps : (done : Bool) → Keeps P (after_login d done)
  unfolding after_login
  after_login_keeps true = finish_keeps verifying (some login)
  after_login_keeps false = λ w p. p

  sign_in_keeps :
      (allowed : Bool) (phase : InstallPhase) (op : Option Operation)
      → (allowed ≡ true → Keeps P d.run_gh_auth_login)
      → Keeps P (sign_in d allowed phase op)
  unfolding sign_in
  sign_in_keeps false phase op h = λ w p. p
  sign_in_keeps true phase op h = >>=-Keeps P (during phase op (d.write _)) _ (probes.write _) λ _.
      >>=-Keeps P (during activating (some login) d.run_gh_auth_login) _ (h refl) after_login_keeps

  authenticate_keeps :
      (allowed : Bool) (phase : InstallPhase) (op : Option Operation)
      → (allowed ≡ true → Keeps P d.run_gh_auth_login)
      → Keeps P (authenticate d allowed phase op)
  unfolding authenticate
  authenticate_keeps allowed phase op h =
      >>=-Keeps P (during phase op d.check_gh_auth) _ probes.auth λ auth. elim (Bool-cases auth.0) [
        | inl signed ↦ rw signed (finish_keeps phase op)
        | inr out ↦ rw out (sign_in_keeps allowed phase op h)
      ]

  after_install_keeps :
      (allowed installed : Bool)
      → (allowed ≡ true → Keeps P d.run_gh_auth_login)
      → Keeps P (after_install d allowed installed)
  unfolding after_install
  after_install_keeps allowed false h = λ w p. p
  after_install_keeps allowed true h =
      >>=-Keeps P (during verifying (some install) d.check_gh_exists) _ probes.exists λ found.
        elim (Bool-cases found.0) [
          | inl there ↦ rw there (authenticate_keeps allowed verifying (some install) h)
          | inr gone ↦ rw gone (λ w p. p)
        ]

  module _ (installers : InstallersKeep d P) (allowed : Bool)
      (logins : allowed ≡ true → Keeps P d.run_gh_auth_login) where
    run_install_keeps : (p : Platform) → Keeps P (run_install d p)
    unfolding run_install
    run_install_keeps darwin = installers.brew
    run_install_keeps linux =
        >>=-Keeps P (during activating (some install) d.run_apt_update) _ installers.update
          (elim [ true ↦ installers.apt | false ↦ λ w p. p ])
    run_install_keeps other = λ w p. p

    install_gh_keeps : (command : String) → Keeps P (install_gh d allowed command)
    unfolding install_gh
    install_gh_keeps command =
        >>=-Keeps P (during inspecting none (d.write _)) _ (probes.write _) λ _.
          >>=-Keeps P (run_install d d.platform) _ (run_install_keeps d.platform)
            λ installed. after_install_keeps allowed installed logins

    choose_installer_keeps : (p : Platform) → Keeps P (choose_installer d p allowed)
    unfolding choose_installer darwin_available linux_available linux_privileges
    choose_installer_keeps darwin =
        >>=-Keeps P (during inspecting none d.check_brew_available) _ probes.brew
          (elim [ true ↦ install_gh_keeps "brew" | false ↦ λ w p. p ])
    choose_installer_keeps linux =
        >>=-Keeps P (during inspecting none d.check_apt_available) _ probes.apt (elim [
          | true ↦
              >>=-Keeps P (during inspecting none d.check_apt_privileges) _ probes.privileges
                (elim [ true ↦ install_gh_keeps "apt" | false ↦ λ w p. p ])
          | false ↦ λ w p. p
        ])
    choose_installer_keeps other = λ w p. p

  absent_gh_keeps :
      (install_allowed login_allowed : Bool)
      → (install_allowed ≡ true → InstallersKeep d P)
      → (login_allowed ≡ true → Keeps P d.run_gh_auth_login)
      → Keeps P (absent_gh d install_allowed login_allowed)
  unfolding absent_gh
  absent_gh_keeps false true i l = λ w p. p
  absent_gh_keeps false false i l = λ w p. p
  absent_gh_keeps true allowed i l = choose_installer_keeps (i refl) allowed l d.platform

-- `prepare` changes nothing that it has no authorization for: a property of the world that the
-- probes keep is kept by the whole call if the installers keep it whenever the installation is
-- authorized, and the login keeps it whenever the login is authorized.
pub prepare-Keeps :
    {W : Type 0} (d : GhDependencies W) (P : W → Type 0) (install_allowed login_allowed : Bool)
    → ProbesKeep d P
    → (install_allowed ≡ true → InstallersKeep d P)
    → (login_allowed ≡ true → Keeps P d.run_gh_auth_login)
    → (w : W) → P w
    → P (prepare d install_allowed login_allowed w).1
unfolding prepare
prepare-Keeps d P install_allowed login_allowed probes i l =
    >>=-Keeps P (during inspecting none d.check_gh_exists) _ probes.exists λ found.
      elim (Bool-cases found.0) [
        | inl there ↦ rw there (authenticate_keeps d P probes login_allowed inspecting none l)
        | inr gone ↦ rw gone (absent_gh_keeps d P probes install_allowed login_allowed i l)
      ]

-- The two probes that end in the state `w` found `gh` and an authenticated account.
abbrev pub IsReady : {W : Type 0} → GhDependencies W → W → Type 0
IsReady {W} d w =
    (u v : W) × (version user : Option String) × (d.check_gh_exists u
      ≡ (returned (true, version), v))
    × (d.check_gh_auth v ≡ (returned (true, user), w))

-- The call returns the status ready only in such a state.
abbrev Honest : {W : Type 0} → GhDependencies W → Outcome ToolResult × W → Type 0
Honest d (returned r, w) = r.status ≡ ready → IsReady d w
Honest d (threw t, w) = Unit

module _ {W : Type 0} (d : GhDependencies W) where
  finish_found :
      (phase : InstallPhase) (op : Option Operation) (u : W) (found : Bool × Option String) (v : W)
      → d.check_gh_exists u ≡ (returned found, v)
      → (r : Outcome (Bool × Option String) × W) → d.check_gh_auth v ≡ r
      → Honest d (finish d phase op u)
  unfolding finish
  finish_found phase op u found v e (threw t, w) h = rw (e, h) tt
  finish_found phase op u (true, version) v e (returned (true, user), w) h =
      rw (e, h) (λ _. (u, v, version, user, e, h))
  finish_found phase op u (true, version) v e (returned (false, user), w) h = rw (e, h) (λ r. cc)
  finish_found phase op u (false, version) v e (returned auth, w) h = rw (e, h) (λ r. cc)

  finish_from :
      (phase : InstallPhase) (op : Option Operation) (u : W)
      (r : Outcome (Bool × Option String) × W)
      → d.check_gh_exists u ≡ r
      → Honest d (finish d phase op u)
  unfolding finish
  finish_from phase op u (threw t, v) e = rw e tt
  finish_from phase op u (returned found, v) e =
      finish_found phase op u found v e (d.check_gh_auth v) refl

  finish-Honest :
      (phase : InstallPhase) (op : Option Operation) (u : W) → Honest d (finish d phase op u)
  finish-Honest phase op u = finish_from phase op u (d.check_gh_exists u) refl

  sign_in-Honest :
      (allowed : Bool) (phase : InstallPhase) (op : Option Operation) (u : W)
      → Honest d (sign_in d allowed phase op u)
  unfolding sign_in after_login
  sign_in-Honest false phase op u = λ r. cc
  sign_in-Honest true phase op u =
      >>=-ends (Honest d) (during phase op (d.write _)) _ (λ t w. tt)
        (λ _.
          >>=-ends (Honest d) (during activating (some login) d.run_gh_auth_login) _ (λ t w. tt)
            (elim [ true ↦ finish-Honest verifying (some login) | false ↦ λ w r. cc ]))
        u

  authenticate-Honest :
      (allowed : Bool) (phase : InstallPhase) (op : Option Operation) (u : W)
      → Honest d (authenticate d allowed phase op u)
  unfolding authenticate
  authenticate-Honest allowed phase op =
      >>=-ends (Honest d) (during phase op d.check_gh_auth) _ (λ t w. tt)
        λ auth w. elim (Bool-cases auth.0) [
          | inl signed ↦ rw signed (finish-Honest phase op w)
          | inr out ↦ rw out (sign_in-Honest allowed phase op w)
        ]

  install_gh-Honest :
      (allowed : Bool) (command : String) (u : W) → Honest d (install_gh d allowed command u)
  unfolding install_gh after_install
  install_gh-Honest allowed command =
      >>=-ends (Honest d) (during inspecting none (d.write _)) _ (λ t w. tt)
        λ _.
          >>=-ends (Honest d) (run_install d d.platform) _ (λ t w. tt)
            (elim [
              | true ↦
                  >>=-ends (Honest d) (during verifying (some install) d.check_gh_exists) _
                    (λ t w. tt)
                    λ found w. elim (Bool-cases found.0) [
                      | inl there ↦
                          rw there (authenticate-Honest allowed verifying (some install) w)
                      | inr gone ↦ rw gone (λ r. cc)
                    ]
              | false ↦ λ w r. cc
            ])

  choose_installer-Honest :
      (p : Platform) (allowed : Bool) (u : W) → Honest d (choose_installer d p allowed u)
  unfolding choose_installer darwin_available linux_available linux_privileges
  choose_installer-Honest darwin allowed =
      >>=-ends (Honest d) (during inspecting none d.check_brew_available) _ (λ t w. tt)
        (elim [ true ↦ install_gh-Honest allowed "brew" | false ↦ λ w r. cc ])
  choose_installer-Honest linux allowed =
      >>=-ends (Honest d) (during inspecting none d.check_apt_available) _ (λ t w. tt)
        (elim [
          | true ↦
              >>=-ends (Honest d) (during inspecting none d.check_apt_privileges) _ (λ t w. tt)
                (elim [ true ↦ install_gh-Honest allowed "apt" | false ↦ λ w r. cc ])
          | false ↦ λ w r. cc
        ])
  choose_installer-Honest other allowed = λ u r. cc

  absent_gh-Honest : (i l : Bool) (u : W) → Honest d (absent_gh d i l u)
  unfolding absent_gh
  absent_gh-Honest false true = λ u r. cc
  absent_gh-Honest false false = λ u r. cc
  absent_gh-Honest true l = choose_installer-Honest d.platform l

  prepare-Honest : (i l : Bool) (u : W) → Honest d (prepare d i l u)
  unfolding prepare
  prepare-Honest i l =
      >>=-ends (Honest d) (during inspecting none d.check_gh_exists) _ (λ t w. tt)
        λ found w. elim (Bool-cases found.0) [
          | inl there ↦ rw there (authenticate-Honest l inspecting none w)
          | inr gone ↦ rw gone (absent_gh-Honest i l w)
        ]

-- If `prepare` reports the status ready, then its last two calls were the probes, and they found
-- `gh` and an authenticated account.
pub prepare-IsReady :
    {W : Type 0} (d : GhDependencies W) (install_allowed login_allowed : Bool) (u w : W)
    {r : ToolResult}
    → prepare d install_allowed login_allowed u ≡ (returned r, w)
    → r.status ≡ ready
    → IsReady d w
prepare-IsReady d i l u w e s = (subst (Honest d) e (prepare-Honest d i l u)) s

-- `inspect` runs probes only.
pub inspect-Keeps :
    {W : Type 0} (d : GhDependencies W) (P : W → Type 0) → ProbesKeep d P → Keeps P (inspect d)
unfolding inspect inspect_found
inspect-Keeps d P probes =
    >>=-Keeps P (during inspecting none d.check_gh_exists) _ probes.exists found
  where
    found : (answer : Bool × Option String) → Keeps P (inspect_found d answer)
    found (true, version) =
        >>=-Keeps P (during inspecting none d.check_gh_auth) _ probes.auth λ auth w p. p
    found (false, version) = λ w p. p
