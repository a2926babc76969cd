-- ===== src/Enforcement/Provider/Total.antt =====
-- How `evaluateEnvelope` of integrations/microsoft-agent-governance-toolkit/bridge/provider.mjs ends.
use agent_governance.Base.{
  ◌≡◌, refl, ◌⊎◌, inl, inr, Bool, true, false, string_eq, Bool-cases, ok, Option,
}
use agent_governance.Base.Json.{Json, Members, get, end}
use agent_governance.Base.Text.{Units}
use agent_governance.Contracts.Effects.{Outcome, returned, threw}
use agent_governance.Enforcement.Envelope.{validate_envelope}
use agent_governance.Enforcement.Engine.{Provider}
use agent_governance.Enforcement.Provider.{
  Options, Evidence, evidence, code, says_allow, claims_approval, without_approval, members_of,
  verified_approval, constructed, asked, answered, after_construction, ask_provider,
  after_verification, evaluate_authorized, evaluate_valid, evaluate_envelope,
}

-- The call answers; without the engine, it denies or reports an error.
abbrev pub FailsClosed : Outcome Evidence → Type 0
FailsClosed o =
    (r : Evidence) × (o ≡ returned r)
    × (r.provider_reached ≡ false → (r.decision ≡ "deny") ⊎ (r.decision ≡ "error"))

module _ {W H C E : Type 0} (p : Provider W H C E) (options : Options W) where
  answered-reached :
      (envelope : Members) (o : Outcome (Option Json))
      → (answered p options envelope o).provider_reached ≡ true
  unfolding answered evidence
  answered-reached envelope (returned answer) = refl
  answered-reached envelope (threw t) = refl

  after_construction-FailsClosed :
      (envelope effective : Members) (o : Outcome (E × Units)) (w : W)
      → FailsClosed (after_construction p options envelope effective o w).0
  unfolding after_construction evidence
  after_construction-FailsClosed envelope effective (returned built) w =
      let reached = answered-reached envelope (asked p options effective built w).0 in
      (answered p options envelope (asked p options effective built w).0, refl, λ unseen. absurd cc)
  after_construction-FailsClosed envelope effective (threw t) w =
      (evidence envelope "error" false (code "provider_error") true, refl, λ unseen. inr refl)

  ask_provider-FailsClosed :
      (envelope effective : Members) (w : W)
      → FailsClosed (ask_provider p options envelope effective w).0
  unfolding ask_provider
  ask_provider-FailsClosed envelope effective w =
      after_construction-FailsClosed envelope effective (constructed p options w).0
        (constructed p options w).1

  after_verification-FailsClosed :
      (envelope : Members) (o : Outcome Bool) (w : W)
      → FailsClosed (after_verification p options envelope o w).0
  unfolding after_verification evidence
  after_verification-FailsClosed envelope (returned true) w =
      ask_provider-FailsClosed envelope envelope w
  after_verification-FailsClosed envelope (returned false) w =
      ask_provider-FailsClosed envelope (without_approval envelope) w
  after_verification-FailsClosed envelope (threw t) w = (
    evidence envelope "error" false (code "approval_verification") true,
    refl,
    λ unseen. inr refl,
  )

  evaluate_valid-FailsClosed :
      (envelope : Members) (w : W) → FailsClosed (evaluate_valid p options envelope w).0
  unfolding evaluate_valid evaluate_authorized evidence
  evaluate_valid-FailsClosed envelope w =
      elim (Bool-cases (says_allow (get "semantic_authorization" envelope))) [
        | inr refused ↦ simp refused (_, refl, λ unseen. inl refl)
        | inl allowed ↦ elim (Bool-cases (claims_approval envelope)) [
          | inl claimed ↦
              simp (allowed, claimed)
                (after_verification-FailsClosed envelope (verified_approval p options envelope w).0
                  (verified_approval p options envelope w).1)
          | inr unclaimed ↦ simp (allowed, unclaimed) (ask_provider-FailsClosed envelope envelope w)
        ]
      ]

  -- An evaluation whose checks of the envelope end without an exception answers, whatever the files, the
  -- verifier and the engine do. If it has not reached the engine, the decision is "deny" or "error".
  pub evaluate_envelope-FailsClosed :
      (envelope : Json) (w : W) (valid : Bool)
      → validate_envelope p.to_text envelope ≡ ok valid
      → FailsClosed (evaluate_envelope p options envelope w).0
  unfolding evaluate_envelope evidence
  evaluate_envelope-FailsClosed envelope w true checked =
      simp checked (evaluate_valid-FailsClosed (members_of envelope) w)
  evaluate_envelope-FailsClosed envelope w false checked =
      simp checked
        (evidence end "error" false (code "invalid_envelope") false, refl, λ unseen. inr refl)
