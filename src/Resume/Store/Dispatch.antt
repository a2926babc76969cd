-- ===== src/Resume/Store/Dispatch.antt =====
-- When `executeEffect` runs the effect.
use agent_governance.Base.{
  String, ◌≡◌, refl, ap, subst, true, false, List, [], ◌∷◌, map, ◌==◌, string_eq, if◌then◌else◌,
  Bool-cases, inl, inr, Option, none, some, Result, ok, err, Ensures,
}
use agent_governance.Base.Json.{Json}
use agent_governance.Contracts.Effects.{
  Outcome, returned, threw, Eff, ◌>>=◌, lift, Keeps, >>=-Keeps, Gives, >>=-Gives, lift-Gives,
  lift-Keeps, >>=-Keeps-with,
}
use agent_governance.Resume.Schema.Print.{state_json}
use agent_governance.Resume.State.{
  ResumeState, EffectState, prepared, unknown, committed, not_applied, ExternalEffect,
  CheckpointIdentity, ResumeCheckpoint, find_effect,
}
use agent_governance.Resume.Store.History.{System, identity_of, read}
use agent_governance.Resume.Store.Publish.{Request, publish, present}
use agent_governance.Resume.Store.Effect.{
  prepared_effect, with_state, operation, answer_of, record_answer, recover, recover_effect,
  claim_request, dispatch, execute, execute_effect,
}
use agent_governance.Resume.Schema.States.{validate_state}
use agent_governance.Resume.Store.Returned.{IsPublished, publish-IsPublished}
use agent_governance.Resume.Store.Safety.{IsSafe, read-Keeps, confirm-Keeps, publish-Keeps}

-- The request asks, against the checkpoint, for a state that holds the effect as unknown.
pub record IsClaim (id : String) (cp : ResumeCheckpoint) (effect : ExternalEffect) (r : Request)
    : Type 0 where
  pub trigger : r.trigger ≡ "effect_executed"
  pub expected :
      r.expected ≡ some (record { generation = cp.body.generation; fingerprint = cp.fingerprint })
  pub claims : ResumeState
  pub state : r.state ≡ state_json claims
  pub holds : find_effect id claims.external_effects ≡ some (record effect { state = unknown })

-- The store has read a current checkpoint of the expected identity, which holds the effect as prepared,
-- and in the world `w` the publication of a state that holds it as unknown has just returned.
pub record IsClaimed {W : Type 0} (sys : System W) (expected : CheckpointIdentity) (id : String)
    (w : W) : Type 0 where
  pub start : W
  pub cp : ResumeCheckpoint
  pub effect : ExternalEffect
  pub current : (read sys (some expected) start).0 ≡ returned (some cp)
  pub found : find_effect id cp.body.state.external_effects ≡ some effect
  pub prepared : effect.state ≡ prepared
  pub request : Request
  pub claim : IsClaim id cp effect request
  pub before : W
  pub claimed : ResumeCheckpoint
  pub returns : (publish sys request false before).0 ≡ returned (some claimed)
  pub after : (publish sys request false before).1 ≡ w
  pub accepted : ResumeState
  pub accepts : validate_state request.state ≡ ok accepted
  pub published : IsPublished sys accepted claimed

find_effect-with_state :
    (id : String) (status : EffectState) (es : List ExternalEffect) {effect : ExternalEffect}
    → find_effect id es ≡ some effect
    → find_effect id (map (λ e. if e.operation_id == id then record e { state = status } else e) es)
      ≡ some (record effect { state = status })
unfolding find_effect
find_effect-with_state id status [] h = cc
find_effect-with_state id status (e ∷ es) {effect} h = elim (Bool-cases (e.operation_id == id)) [
  | inl same ↦
      let this : some e ≡ some effect = simp same at h in
      let one : e ≡ effect = cc in
      simp same (ap {A = ExternalEffect} (λ x. some (record x { state = status })) one)
  | inr other ↦
      let later : find_effect id es ≡ some effect = simp other at h in
      simp other (find_effect-with_state id status es later)
]

claim_event :
    (uuid id : String) (cp : ResumeCheckpoint)
    → ((claim_request uuid id cp).trigger == "message") ≡ false
unfolding claim_request string_eq
claim_event uuid id cp = refl

claim_request-IsClaim :
    (uuid id : String) (cp : ResumeCheckpoint) (effect : ExternalEffect)
    → find_effect id cp.body.state.external_effects ≡ some effect
    → IsClaim id cp effect (claim_request uuid id cp)
unfolding claim_request with_state identity_of
claim_request-IsClaim uuid id cp effect found = record {
  trigger = refl;
  expected = refl;
  claims = with_state id unknown cp.body.state;
  state = refl;
  holds = find_effect-with_state id unknown cp.body.state.external_effects found;
}

-- the effect, and the checkpoint that was read in the world `w`
abbrev Finds :
    {W : Type 0}
    → System W
    → CheckpointIdentity
    → String
    → W
    → ResumeCheckpoint × ExternalEffect
    → Type 0
Finds sys expected id w found =
    (find_effect id found.0.body.state.external_effects ≡ some found.1)
    × ((read sys (some expected) w).0 ≡ returned (some found.0))

prepared_effect-found :
    (id : String) (cp : ResumeCheckpoint) (Q : ResumeCheckpoint → Type 0)
    → Q cp
    → Ensures
        (λ f. (find_effect id f.0.body.state.external_effects ≡ some f.1) × Q f.0)
        (prepared_effect id cp)
unfolding prepared_effect
prepared_effect-found id cp Q q =
    elim (find_effect id cp.body.state.external_effects)
        as (λ o.
          find_effect id cp.body.state.external_effects ≡ o
          → Ensures (λ f. (find_effect id f.0.body.state.external_effects ≡ some f.1) × Q f.0)
              (elim o as (λ _. Result (ResumeCheckpoint × ExternalEffect)) [
                | none ↦ err "invalid resume checkpoint: effect was not prepared"
                | some effect ↦ ok (cp, effect)
              ])) [ none ↦ λ e. tt | some effect ↦ λ e. (e, q) ]
      refl

module _ {W : Type 0} (P : W → Type 0) (sys : System W) (safe : IsSafe P sys)
    (readback : ExternalEffect → Eff W Json)
    (reads : (e : ExternalEffect) → Keeps P (readback e)) where
  operation-Finds :
      (expected : CheckpointIdentity) (id : String) (w : W)
      → Gives (Finds sys expected id w) (operation sys expected id w).0
  unfolding operation present
  operation-Finds expected id w =
      >>=-Gives (λ o. (read sys (some expected) w).0 ≡ returned o) (Finds sys expected id w)
        (read sys (some expected)) _ w (itself (read sys (some expected) w).0) there
    where
      itself : (o : Outcome (Option ResumeCheckpoint)) → Gives (λ a. o ≡ returned a) o
      itself (returned _) = refl
      itself (threw _) = tt

      there :
          (found : Option ResumeCheckpoint) (v : W)
          → (read sys (some expected) w).0 ≡ returned found
          → Gives
              (Finds sys expected id w)
              ((lift (present sys found) >>= λ cp. lift (prepared_effect id cp)) v).0
      there none v e = tt
      there (some cp) v e =
          lift-Gives (Finds sys expected id w) (prepared_effect id cp) v (
            prepared_effect-found id cp (λ c. (read sys (some expected) w).0 ≡ returned (some c)) e)

  operation-Keeps :
      (expected : CheckpointIdentity) (id : String) → Keeps P (operation sys expected id)
  unfolding operation
  operation-Keeps expected id =
      >>=-Keeps P (read sys (some expected)) _ (read-Keeps P sys safe (some expected)) λ found.
        >>=-Keeps P (lift (present sys found)) _ (lift-Keeps P (present sys found))
          λ cp. lift-Keeps P (prepared_effect id cp)

  record_answer-Keeps :
      (cp : ResumeCheckpoint) (id : String) (answer : EffectState × Option String)
      → Keeps P (record_answer sys cp id answer)
  unfolding record_answer
  record_answer-Keeps cp id (status, reference) =
      >>=-Keeps P sys.random_uuid _ safe.random_uuid λ uuid.
        >>=-Keeps P (publish sys _ true) _ (publish-Keeps P sys _ true safe)
          λ published. lift-Keeps P (present sys published)

  recover-Keeps :
      (id : String) (s : EffectState) (cp : ResumeCheckpoint) (effect : ExternalEffect)
      → Keeps P (recover sys id readback s cp effect)
  unfolding recover
  recover-Keeps id committed cp effect = confirm-Keeps P sys safe (identity_of cp)
  recover-Keeps id not_applied cp effect = confirm-Keeps P sys safe (identity_of cp)
  recover-Keeps id prepared cp effect = >>=-Keeps P (readback effect) _ (reads effect) λ raw.
      >>=-Keeps P (lift (answer_of raw effect)) _ (lift-Keeps P (answer_of raw effect))
        (record_answer-Keeps cp id)
  recover-Keeps id unknown cp effect = >>=-Keeps P (readback effect) _ (reads effect) λ raw.
      >>=-Keeps P (lift (answer_of raw effect)) _ (lift-Keeps P (answer_of raw effect))
        (record_answer-Keeps cp id)

  recover_effect-Keeps :
      (expected : CheckpointIdentity) (id : String)
      → Keeps P (recover_effect sys expected id readback)
  unfolding recover_effect
  recover_effect-Keeps expected id =
      >>=-Keeps P (operation sys expected id) _ (operation-Keeps expected id)
        λ found. recover-Keeps id found.1.state found.0 found.1

  module _ (expected : CheckpointIdentity) (id : String) (run : Eff W (Unit {0}))
      (runs : (w : W) → IsClaimed sys expected id w → P w → P (run w).1) where
    claimed-Keeps :
        (cp : ResumeCheckpoint) (effect : ExternalEffect)
        → (start : W) → Finds sys expected id start (cp, effect)
        → effect.state ≡ prepared
        → (uuid : String) (w : W) → (published : Option ResumeCheckpoint)
        → (publish sys (claim_request uuid id cp) false w).0 ≡ returned published
        → P (publish sys (claim_request uuid id cp) false w).1
        → P
            ((lift (present sys published) >>= λ claimed.
                run >>= λ _. recover_effect sys (identity_of claimed) id readback)
              (publish sys (claim_request uuid id cp) false w).1).1
    unfolding present
    claimed-Keeps cp effect start found is uuid w none e p = p
    claimed-Keeps cp effect start found is uuid w (some claimed) e p =
        >>=-Keeps-with P run (λ _. recover_effect sys (identity_of claimed) id readback) _
          (runs _ claim p) λ _ _. recover_effect-Keeps (identity_of claimed) id _ (runs _ claim p)
      where
        made :
            (state : ResumeState) × (validate_state (claim_request uuid id cp).state ≡ ok state)
            × IsPublished sys state claimed
        made = publish-IsPublished sys (claim_request uuid id cp) false w (claim_event uuid id cp) e

        claim : IsClaimed sys expected id (publish sys (claim_request uuid id cp) false w).1
        claim = record {
          start = start;
          cp = cp;
          effect = effect;
          found = found.0;
          current = found.1;
          prepared = is;
          request = claim_request uuid id cp;
          claim = claim_request-IsClaim uuid id cp effect found.0;
          before = w;
          claimed = claimed;
          returns = e;
          after = refl;
          accepted = made.0;
          accepts = made.1;
          published = made.2;
        }

    execute-Keeps :
        (cp : ResumeCheckpoint) (effect : ExternalEffect) (s : EffectState)
        → (start : W) → Finds sys expected id start (cp, effect)
        → effect.state ≡ s
        → Keeps P (execute sys id run readback s cp)
    unfolding execute dispatch
    execute-Keeps cp effect committed start found is = confirm-Keeps P sys safe (identity_of cp)
    execute-Keeps cp effect unknown start found is = λ w p. p
    execute-Keeps cp effect not_applied start found is = λ w p. p
    execute-Keeps cp effect prepared start found is =
        >>=-Keeps P sys.random_uuid _ safe.random_uuid λ uuid w p.
          >>=-Keeps-with P (publish sys (claim_request uuid id cp) false) _ w
            (publish-Keeps P sys (claim_request uuid id cp) false safe w p)
            λ published e.
              claimed-Keeps cp effect start found is uuid w published e
                (publish-Keeps P sys (claim_request uuid id cp) false safe w p)

-- The effect is run only when it is claimed: a property of the world is kept by `execute_effect` if
-- the store's calls and the readback keep it, and the effect keeps it in each world in which a
-- publication has just returned that asked, against the current checkpoint read under the expected
-- identity, which held the effect as prepared, for a state that holds it as unknown. The checkpoint
-- that it has returned has the fingerprint of one that holds what is read from that state.
pub execute_effect-IsClaimed :
    {W : Type 0} (P : W → Type 0) (sys : System W) (expected : CheckpointIdentity) (id : String)
    (run : Eff W (Unit {0})) (readback : ExternalEffect → Eff W Json)
    → IsSafe P sys
    → ((e : ExternalEffect) → Keeps P (readback e))
    → ((w : W) → IsClaimed sys expected id w → P w → P (run w).1)
    → (w : W) → P w
    → P (execute_effect sys expected id run readback w).1
unfolding execute_effect
execute_effect-IsClaimed P sys expected id run readback safe reads runs w p =
    >>=-Keeps-with P (operation sys expected id) _ w
      (operation-Keeps P sys safe readback reads expected id w p)
      λ found e.
        execute-Keeps P sys safe readback reads expected id run runs found.0 found.1 found.1.state w
          (subst (Gives (Finds sys expected id w)) e
            (operation-Finds P sys safe readback reads expected id w))
          refl _ (operation-Keeps P sys safe readback reads expected id w p)
