-- ===== src/Enforcement/Provider/Approval.antt =====
-- Which approval the policy engine is shown by `evaluateEnvelope` of
-- integrations/microsoft-agent-governance-toolkit/bridge/provider.mjs, written out.
use agent_governance.Base.{
  String, ◌≡◌, ◌≢◌, refl, ap, ◌∙◌, subst, Bool, true, false, Option, none, some, string_eq, ◌==◌,
  arith, Bool-cases, inl, inr,
}
use agent_governance.Base.Json.{Json, bool, obj, Members, end, member, get}
use agent_governance.Contracts.Effects.{returned, Eff}
use agent_governance.Enforcement.Provider.{
  Options, put, is_true, field_of, without_approval, claims_approval, verifier_answer,
  verified_approval,
}
use agent_governance.Enforcement.Engine.{Provider}

-- The envelope says that there is a valid approval.
abbrev pub ClaimsApproval : Members → Type 0
ClaimsApproval envelope =
    (context : Members) × (get "approval_context" envelope ≡ some (obj context))
    × (get "valid" context ≡ some (bool true))

-- What the engine is shown: the envelope, if it claims no approval, or if the verifier has answered
-- `true` to its action, evidence and approval in the world `w`; otherwise the envelope with an approval
-- that is not valid in place of its own.
pub data IsShown {W : Type 0} (options : Options W) (w : W) (envelope effective : Members)
    : Type 0 where
  unclaimed :
      effective ≡ envelope → ¬ ClaimsApproval envelope → IsShown options w envelope effective
  confirmed :
      (verifier : Option Json → Option Json → Option Json → Eff W Bool) (context : Members)
      → effective ≡ envelope
      → options.approval_verifier ≡ some verifier
      → get "approval_context" envelope ≡ some (obj context)
      → (verifier
          (get "action_id" envelope)
          (get "evidence_id" envelope)
          (get "approval_id" context)
          w).0
        ≡ returned true
      → IsShown options w envelope effective
  withheld :
      get "approval_context" effective ≡ some (obj (member "valid" (bool false) end))
      → ((key : String) → key ≢ "approval_context" → get key effective ≡ get key envelope)
      → IsShown options w envelope effective

pub claims_approval-true :
    (envelope : Members) → claims_approval envelope ≡ true → ClaimsApproval envelope
unfolding claims_approval field_of
claims_approval-true envelope e = found (get "approval_context" envelope) refl e
  where
    valid : (v : Option Json) → is_true v ≡ true → v ≡ some (bool true)
    valid (some (bool true)) e = refl
    valid _ e = cc

    found :
        (o : Option Json)
        → get "approval_context" envelope ≡ o
        → is_true (field_of "valid" o) ≡ true
        → ClaimsApproval envelope
    found (some (obj context)) q e = (context, q, valid (get "valid" context) e)
    found _ q e = cc

pub claims_approval-false :
    (envelope : Members) → claims_approval envelope ≡ false → ¬ ClaimsApproval envelope
unfolding claims_approval field_of
claims_approval-false envelope e (context, q, valid) =
    let both : is_true (field_of "valid" (get "approval_context" envelope)) ≡ true =
      ap (λ o. is_true (field_of "valid" o)) q ∙ ap is_true valid in
    cc

get-put :
    (key : String) (value : Json) (m : Members) {old : Json}
    → get key m ≡ some old
    → get key (put key value m) ≡ some value
unfolding get
get-put key value end h = cc
get-put key value (member k v rest) h = elim (Bool-cases (k == key)) [
  | inl same ↦ simp same refl
  | inr other ↦
      let later : get key rest ≡ some _ = simp other at h in
      simp other (get-put key value rest later)
]

get-put_other :
    (key other : String) (value : Json) (m : Members)
    → other ≢ key
    → get other (put key value m) ≡ get other m
unfolding get
get-put_other key other value end h = refl
get-put_other key other value (member k v rest) h = elim (Bool-cases (k == key)) [
  | inl same ↦ let differs : (k == other) ≡ false = ground arith in simp same (simp differs refl)
  | inr elsewhere ↦
      let later = get-put_other key other value rest h in
      simp elsewhere (elim (Bool-cases (k == other)) [
        | inl here ↦ simp here refl
        | inr further ↦ simp further later
      ])
]

pub without_approval-IsShown :
    {W : Type 0} (options : Options W) (w : W) (envelope : Members)
    → ClaimsApproval envelope
    → IsShown options w envelope (without_approval envelope)
unfolding without_approval
without_approval-IsShown options w envelope (context, q, valid) =
    let refused = obj (member "valid" (bool false) end) in
    withheld (get-put "approval_context" refused envelope q)
      (λ key differs. get-put_other "approval_context" key refused envelope differs)

module _ {W H C E : Type 0} (p : Provider W H C E) (options : Options W) where
  pub verified_approval-IsShown :
      (w : W) (envelope : Members)
      → ClaimsApproval envelope
      → (verified_approval p options envelope w).0 ≡ returned true
      → IsShown options w envelope envelope
  unfolding verified_approval verifier_answer field_of
  verified_approval-IsShown w envelope (context, q, valid) e =
      found options.approval_verifier refl e
    where
      found :
          (v : Option (Option Json → Option Json → Option Json → Eff W Bool))
          → options.approval_verifier ≡ v
          → (verifier_answer v envelope w).0 ≡ returned true
          → IsShown options w envelope envelope
      found none r e = let bad : returned false ≡ returned true = e in cc
      found (some verifier) r e = confirmed verifier context refl r q (
          subst
            (λ o.
              (verifier (get "action_id" envelope) (get "evidence_id" envelope)
                (field_of "approval_id" o) w).0
              ≡ returned true)
            q e)
