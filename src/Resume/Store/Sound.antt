-- ===== src/Resume/Store/Sound.antt =====
-- What `publish` decides once it has read a history.
use agent_governance.Base.{
  String, ◌≡◌, refl, ◌∙◌, subst, Bool, true, false, not, ◌&&◌, Option, none, some, List, [], ◌∷◌,
  ◌==◌, string_eq, nat_eq, option_eq, if◌then◌else◌, any, find, last?, last?-append, length,
  length-append, Result, ok, err, reject_if, Ensures, Ensures-at, >>=-Ensures, suc, arith,
  Bool-cases, inl, inr,
}
use agent_governance.Base.Json.{str}
use agent_governance.Resume.State.{ResumeCheckpoint, CheckpointIdentity, state_eq}
use agent_governance.Resume.Schema.Fields.{text}
use agent_governance.Resume.Schema.Names.{trigger_of, trigger_name}
use agent_governance.Resume.Schema.Print.{state_json}
use agent_governance.Resume.Schema.States.{validate_state}
use agent_governance.Resume.Schema.Checkpoints.{create_checkpoint}
use agent_governance.Resume.Transition.{validate_transition, effects_of}
use agent_governance.Resume.Transition.Laws.{validate_transition_iff}
use agent_governance.Resume.Store.History.{System, fingerprint_of, has_event}
use agent_governance.Resume.Store.Publish.{
  Event, Decision, refuse, keep_current, append, next_generation, successor, decide, needs_readback,
  unless_same, new_event, or_refuse, repeated_event,
}
use agent_governance.Resume.Store.Laws.{Extends, IsHistory, empty, extend}

last_generation :
    (hs : List ResumeCheckpoint) → IsHistory hs → next_generation (last? hs) ≡ suc (length hs)
last_generation _ empty = refl
last_generation _ (extend hs cp h e) =
    let last = last?-append hs cp in
    let count = length-append hs (cp ∷ []) in
    let count_of = e.generation in simp last (omega (arith, count, count_of))

-- What the fields of a new checkpoint are.
pub record IsNext (current : Option ResumeCheckpoint) (e : Event) (cp : ResumeCheckpoint)
    : Type 0 where
  pub generation : cp.body.generation ≡ next_generation current
  pub previous : cp.body.previous_checkpoint ≡ fingerprint_of current
  pub event : cp.body.event_id ≡ e.event_id
  pub moves : validate_transition current cp ≡ ok tt

text-same : (s : String) {t : String} → text (some (str s)) ≡ ok t → t ≡ s
unfolding text
text-same s h = ground arith

module _ {W : Type 0} (sys : System W) where
  create-IsNext :
      (current : Option ResumeCheckpoint) (e : Event)
      → Ensures
          (λ cp.
            (cp.body.generation ≡ next_generation current)
            × (cp.body.previous_checkpoint ≡ fingerprint_of current)
            × (cp.body.event_id ≡ e.event_id))
          (create_checkpoint sys.fingerprint
            (next_generation current)
            (fingerprint_of current)
            e.event_id
            e.trigger
            e.state)
  unfolding create_checkpoint
  create-IsNext current e = >>=-Ensures _ (text (some (str e.event_id))) _ λ id same.
      >>=-Ensures _ (trigger_of (some (str (trigger_name e.trigger)))) _ λ trigger _.
        >>=-Ensures _ (validate_state (state_json e.state)) _
          λ state _. (refl, refl, text-same e.event_id same)

  successor-IsNext :
      (readback : Bool) (current : Option ResumeCheckpoint) (e : Event)
      → Ensures (IsNext current e) (successor sys readback current e)
  unfolding successor
  successor-IsNext readback current e =
      >>=-Ensures (IsNext current e)
        (create_checkpoint sys.fingerprint (next_generation current) (fingerprint_of current)
          e.event_id e.trigger e.state)
        _
        λ cp made. >>=-Ensures (IsNext current e) (validate_transition current cp) _ λ _ moves.
          >>=-Ensures (IsNext current e)
            (reject_if
              (not readback
                && any (needs_readback (effects_of current)) cp.body.state.external_effects)
              "invalid resume checkpoint: effect requires source-of-truth readback")
            (λ _. ok cp)
            λ _ _.
              let fields = Ensures-at _ _ (create-IsNext current e) made in
              record { generation = fields.0; previous = fields.1; event = fields.2; moves = moves }

  -- What is decided is to write nothing, or a checkpoint that follows the history.
  abbrev pub Sound : List ResumeCheckpoint → Decision → Type 0
  Sound hs (append cp) = Extends hs cp
  Sound hs _ = Unit

  or_refuse-Sound :
      (hs : List ResumeCheckpoint) (current : Option ResumeCheckpoint) (e : Event)
      (r : Result ResumeCheckpoint)
      → IsHistory hs
      → has_event e.event_id hs ≡ false
      → last? hs ≡ current
      → Ensures (IsNext current e) r
      → Sound hs (or_refuse r)
  or_refuse-Sound hs current e (err m) h fresh last next = tt
  or_refuse-Sound hs current e (ok cp) h fresh last next =
      let moved = (validate_transition_iff current cp).0 next.moves in
      record {
        generation =
            next.generation
            ∙ (subst (λ c. next_generation c ≡ suc (length hs)) last (last_generation hs h));
        previous = rw last next.previous;
        fresh = rw next.event fresh;
        same_task = rw last moved.0;
        transition = rw last moved.1;
      }

  if_Sound :
      (hs : List ResumeCheckpoint) (b : Bool) (x y : Decision)
      → Sound hs x
      → Sound hs y
      → Sound hs (if b then x else y)
  if_Sound hs true x y p q = p
  if_Sound hs false x y p q = q

  unless_same-Sound :
      (readback : Bool) (hs : List ResumeCheckpoint) (e : Event)
      → IsHistory hs
      → has_event e.event_id hs ≡ false
      → (current : Option ResumeCheckpoint) → last? hs ≡ current
      → Sound hs (unless_same sys readback e current)
  unfolding unless_same
  unless_same-Sound readback hs e h fresh none last =
      or_refuse-Sound hs none e (successor sys readback none e) h fresh last
        (successor-IsNext readback none e)
  unless_same-Sound readback hs e h fresh (some cp) last =
      if_Sound hs (cp.body.state == e.state) (keep_current cp)
        (or_refuse (successor sys readback (some cp) e)) tt
        (or_refuse-Sound hs (some cp) e (successor sys readback (some cp) e) h fresh last
          (successor-IsNext readback (some cp) e))

  no_event :
      (id : String) (xs : List ResumeCheckpoint)
      → find (λ cp. cp.body.event_id == id) xs ≡ none
      → has_event id xs ≡ false
  no_event id [] m = refl
  no_event id (x ∷ xs) m = elim (Bool-cases (x.body.event_id == id)) [
    | inl same ↦ let hit : some x ≡ none = rw same at m in cc
    | inr other ↦
        let miss : find (λ cp. cp.body.event_id == id) xs ≡ none = rw other at m in
        simp other (no_event id xs miss)
  ]

  pub decide-Sound :
      (readback : Bool) (hs : List ResumeCheckpoint) (expected : Option CheckpointIdentity)
      (e : Event)
      → IsHistory hs
      → Sound hs (decide sys readback hs expected e)
  unfolding decide repeated_event new_event
  decide-Sound readback hs expected e h =
      elim (find (λ cp. cp.body.event_id == e.event_id) hs)
          as (λ o.
            find (λ cp. cp.body.event_id == e.event_id) hs ≡ o
            → Sound hs (elim o as (λ _. Decision) [
              | some r ↦ repeated_event hs expected e r
              | none ↦ new_event sys readback hs expected e
            ])) [
              | some r ↦ λ m. if_Sound hs _ (keep_current r) (refuse _) tt tt
              | none ↦ λ m.
                  if_Sound hs _ (refuse _) (unless_same sys readback e (last? hs)) tt
                    (unless_same-Sound readback hs e h (no_event e.event_id hs m) (last? hs) refl)
            ]
        refl
