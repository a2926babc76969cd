-- ===== src/Resume/Store/Returned.antt =====
-- What `publish` of src/resume-checkpoint.ts returns.
use agent_governance.Base.{
  String, ◌≡◌, refl, sym, ap, ◌∙◌, ◌⊎◌, Bool, true, false, not, ◌&&◌, Option, none, some, List,
  ◌==◌, string_eq, nat_eq, option_eq, if◌then◌else◌, any, find, last?, second_last?, Result, ok,
  err, reject_if, Ensures, >>=-Ensures, Ensures-at, >>=-eq-ok, arith, Bool-cases, inl, inr,
}
use agent_governance.Base.Json.{str}
use agent_governance.Contracts.Effects.{returned, lift, >>=-eq-returned, lift-eq-returned}
use agent_governance.Resume.State.{
  ResumeCheckpoint, ResumeState, CheckpointIdentity, state_eq, trigger_eq, checkpoint_eq,
}
use agent_governance.Resume.Schema.Fields.{text}
use agent_governance.Resume.Schema.Names.{trigger_of, trigger_name}
use agent_governance.Resume.Schema.Print.{state_json}
use agent_governance.Resume.Schema.States.{validate_state}
use agent_governance.Resume.Schema.Checkpoints.{create_checkpoint}
use agent_governance.Resume.Transition.{validate_transition, effects_of}
use agent_governance.Resume.Store.History.{
  stage, before_stage, after_stage, before_publish, after_publish, after_sync, System, identity_of,
  matches, fingerprint_of, read_file, history, select, read, sync,
}
use agent_governance.Resume.Store.Publish.{
  Request, Event, Decision, refuse, keep_current, append, next_generation, successor, decide,
  needs_readback, unless_same, new_event, or_refuse, repeated_event, confirm, present, publication,
  write, carry_out, event_of, publish, is_current,
}

-- The checkpoint holds the state, or what is read from its print.
abbrev pub HoldsState : ResumeState → ResumeCheckpoint → Type 0
HoldsState state cp =
    (cp.body.state ≡ state) ⊎ (validate_state (state_json state) ≡ ok cp.body.state)

abbrev Serves : Event → Decision → Type 0
Serves e (refuse message) = Unit
Serves e (keep_current cp) = HoldsState e.state cp
Serves e (append cp) = HoldsState e.state cp

same_state : (a b : ResumeState) → (a == b) ≡ true → a ≡ b
same_state a b h = ground arith

module _ {W : Type 0} (sys : System W) where
  successor-state :
      (readback : Bool) (current : Option ResumeCheckpoint) (e : Event)
      → Ensures (HoldsState e.state) (successor sys readback current e)
  unfolding successor create_checkpoint
  successor-state readback current e =
      >>=-Ensures (HoldsState e.state)
        (create_checkpoint sys.fingerprint (next_generation current) (fingerprint_of current)
          e.event_id e.trigger e.state)
        _
        λ cp made. >>=-Ensures (HoldsState e.state) (validate_transition current cp) _ λ _ _.
          >>=-Ensures (HoldsState e.state)
            (reject_if
              (not readback
                && any (needs_readback (effects_of current)) cp.body.state.external_effects)
              "invalid resume checkpoint: effect requires source-of-truth readback")
            (λ _. ok cp) λ _ _. Ensures-at _ _ created made
    where
      created : Ensures (HoldsState e.state) (
          create_checkpoint sys.fingerprint
            (next_generation current)
            (fingerprint_of current)
            e.event_id
            e.trigger
            e.state)
      created = >>=-Ensures _ (text (some (str e.event_id))) _ λ id _.
          >>=-Ensures _ (trigger_of (some (str (trigger_name e.trigger)))) _ λ trigger _.
            >>=-Ensures _ (validate_state (state_json e.state)) _ λ state valid. inr valid

  or_refuse-Serves :
      (e : Event) (r : Result ResumeCheckpoint)
      → Ensures (HoldsState e.state) r
      → Serves e (or_refuse r)
  or_refuse-Serves e (ok cp) h = h
  or_refuse-Serves e (err m) h = tt

  unless_same-Serves :
      (readback : Bool) (e : Event) (current : Option ResumeCheckpoint)
      → Serves e (unless_same sys readback e current)
  unfolding unless_same
  unless_same-Serves readback e none = or_refuse-Serves e _ (successor-state readback none e)
  unless_same-Serves readback e (some cp) = elim (Bool-cases (cp.body.state == e.state)) [
    | inl same ↦ simp same (inl (same_state cp.body.state e.state same))
    | inr other ↦ simp other (or_refuse-Serves e _ (successor-state readback (some cp) e))
  ]

  new_event-Serves :
      (readback : Bool) (hs : List ResumeCheckpoint) (expected : Option CheckpointIdentity)
      (e : Event)
      → Serves e (new_event sys readback hs expected e)
  unfolding new_event
  new_event-Serves readback hs expected e = elim (Bool-cases (not (matches (last? hs) expected))) [
    | inl stale ↦ simp stale tt
    | inr fits ↦ simp fits (unless_same-Serves readback e (last? hs))
  ]

  guarded :
      (e : Event) (b : Bool) (cp : ResumeCheckpoint) (message : String)
      → (b ≡ true → HoldsState e.state cp)
      → Serves e (if b then keep_current cp else refuse message)
  guarded e true cp message h = h refl
  guarded e false cp message h = tt

  and_last : (a b c d : Bool) → (a && (b && (c && d))) ≡ true → d ≡ true
  and_last a b c d e = ground arith

  repeated_event-Serves :
      (hs : List ResumeCheckpoint) (expected : Option CheckpointIdentity) (e : Event)
      (r : ResumeCheckpoint)
      → Serves e (repeated_event hs expected e r)
  unfolding repeated_event
  repeated_event-Serves hs expected e r = guarded e _ r _ λ good. inl (
      same_state r.body.state e.state (
        and_last (is_current r (last? hs)) (matches (second_last? hs) expected)
          (r.body.trigger == e.trigger) (r.body.state == e.state) good))

  decide-Serves :
      (readback : Bool) (hs : List ResumeCheckpoint) (expected : Option CheckpointIdentity)
      (e : Event)
      → Serves e (decide sys readback hs expected e)
  unfolding decide
  decide-Serves readback hs expected e =
      elim (find (λ cp. cp.body.event_id == e.event_id) hs)
        as (λ o. Serves e (elim o as (λ _. Decision) [
          | some r ↦ repeated_event hs expected e r
          | none ↦ new_event sys readback hs expected e
        ])) [
          | some r ↦ repeated_event-Serves hs expected e r
          | none ↦ new_event-Serves readback hs expected e
        ]

  read-returned :
      (expected : CheckpointIdentity) (w : W) {cp : ResumeCheckpoint}
      → (read sys (some expected) w).0 ≡ returned (some cp)
      → cp.fingerprint ≡ expected.fingerprint
  unfolding read select matches
  read-returned expected w {cp} e =
      let (hs, w1, _, e1) = >>=-eq-returned (history sys) _ w e in
      selected (last? hs) (lift-eq-returned (select sys (some expected) hs) w1 e1)
    where
      selected :
          (o : Option ResumeCheckpoint)
          → (if matches o (some expected)
              then ok o
              else err "invalid resume checkpoint: stale checkpoint identity")
            ≡ ok (some cp)
          → cp.fingerprint ≡ expected.fingerprint
      selected none h = cc
      selected (some found) h = ground arith

  confirm-returned :
      (expected : CheckpointIdentity) (w : W) {cp : ResumeCheckpoint}
      → (confirm sys expected w).0 ≡ returned cp
      → cp.fingerprint ≡ expected.fingerprint
  unfolding confirm present
  confirm-returned expected w {cp} e =
      let (_, w1, _, e1) = >>=-eq-returned (sync sys) _ w e in
      let (found, w2, q, e2) = >>=-eq-returned (read sys (some expected)) _ w1 e1 in
      at found w1 (ap (λ o. o.0) q) (lift-eq-returned (present sys found) w2 e2)
    where
      at :
          (found : Option ResumeCheckpoint) (v : W)
          → (read sys (some expected) v).0 ≡ returned found
          → present sys found ≡ ok cp
          → cp.fingerprint ≡ expected.fingerprint
      at none v q h = cc
      at (some other) v q h =
          let same : other ≡ cp = cc in
          ap (λ c. c.fingerprint) (sym same) ∙ read-returned expected v q

  publication-returned :
      (next : ResumeCheckpoint) (name : String) (w : W) {cp : ResumeCheckpoint}
      → (publication sys next name w).0 ≡ returned (some cp)
      → cp.fingerprint ≡ next.fingerprint
  unfolding publication identity_of
  publication-returned next name w e =
      let (_, w1, _, e1) = >>=-eq-returned (sys.observe before_publish) _ w e in
      let (_, w2, _, e2) = >>=-eq-returned sys.bound _ w1 e1 in
      let (_, w3, _, e3) = >>=-eq-returned (sys.rename name next.body.generation) _ w2 e2 in
      let (_, w4, _, e4) = >>=-eq-returned (sys.observe after_publish) _ w3 e3 in
      let (_, w5, _, e5) = >>=-eq-returned (sync sys) _ w4 e4 in
      let (_, w6, _, e6) = >>=-eq-returned (sys.observe after_sync) _ w5 e5 in
      read-returned (identity_of next) w6 e6

  write-returned :
      (next : ResumeCheckpoint) (w : W) {cp : ResumeCheckpoint}
      → (write sys next w).0 ≡ returned (some cp)
      → cp.fingerprint ≡ next.fingerprint
  unfolding write
  write-returned next w e =
      let (_, w1, _, e1) = >>=-eq-returned (sys.observe before_stage) _ w e in
      let (_, w2, _, e2) = >>=-eq-returned sys.bound _ w1 e1 in
      let (name, w3, _, e3) = >>=-eq-returned sys.random_uuid _ w2 e2 in
      let (_, w4, _, e4) = >>=-eq-returned (sys.create name (sys.stringify next)) _ w3 e3 in
      let (_, w5, _, e5) = >>=-eq-returned (sys.observe after_stage) _ w4 e4 in
      let (staged, w6, _, e6) = >>=-eq-returned (read_file sys (stage name)) _ w5 e5 in
      let check : Result (Unit {0}) =
        reject_if (not (staged.fingerprint == next.fingerprint))
          "invalid resume checkpoint: staging readback" in
      let (_, w7, _, e7) = >>=-eq-returned (lift check) _ w6 e6 in
      publication-returned next name w7 e7

  -- The checkpoint has the fingerprint of one that holds the state.
  abbrev pub IsPublished : ResumeState → ResumeCheckpoint → Type 0
  IsPublished state cp =
      (next : ResumeCheckpoint) × HoldsState state next × (cp.fingerprint ≡ next.fingerprint)

  carry_out-IsPublished :
      (e : Event) (d : Decision) (w : W) {cp : ResumeCheckpoint}
      → Serves e d
      → (carry_out sys d w).0 ≡ returned (some cp)
      → IsPublished e.state cp
  unfolding carry_out identity_of
  carry_out-IsPublished e (refuse message) w s h = cc
  carry_out-IsPublished e (keep_current next) w {cp} s h =
      let (confirmed, w1, q, h1) = >>=-eq-returned (confirm sys (identity_of next)) _ w h in
      let same : confirmed ≡ cp = cc in
      (
        next,
        s,
        ap (λ c. c.fingerprint) (sym same)
            ∙ confirm-returned (identity_of next) w (ap (λ o. o.0) q),
      )
  carry_out-IsPublished e (append next) w s h = (next, s, write-returned next w h)

  -- What `publish` returns has the fingerprint of a checkpoint that holds the state of the request.
  pub publish-IsPublished :
      (request : Request) (readback : Bool) (w : W) {cp : ResumeCheckpoint}
      → (request.trigger == "message") ≡ false
      → (publish sys request readback w).0 ≡ returned (some cp)
      → (state : ResumeState) × (validate_state request.state ≡ ok state) × IsPublished state cp
  unfolding publish event_of
  publish-IsPublished request readback w event h =
      let run = simp event at h in
      let (e, w1, q, h1) = >>=-eq-returned (lift (event_of request)) _ w run in
      let (hs, w2, _, h2) = >>=-eq-returned (history sys) _ w1 h1 in
      let made = lift-eq-returned (event_of request) w (ap (λ o. o.0) q) in
      (
        e.state,
        event_of-state request made,
        carry_out-IsPublished e (decide sys readback hs request.expected e) w2
            (decide-Serves readback hs request.expected e) h2,
      )
    where
      event_of-state :
          (r : Request) {e : Event} → event_of r ≡ ok e → validate_state r.state ≡ ok e.state
      event_of-state r {e} h =
          let (trigger, _, h1) = >>=-eq-ok (trigger_of (some (str r.trigger))) _ h in
          let (id, _, h2) = >>=-eq-ok (text (some (str r.event_id))) _ h1 in
          let (state, q, h3) = >>=-eq-ok (validate_state r.state) _ h2 in q ∙ cc
