-- ===== src/Resume/Store/Laws.antt =====
-- Which histories the store accepts, and what it may publish.
use agent_governance.Base.{
  ℕ, ◌≡◌, refl, subst, false, List, [], ◌∷◌, ◌++◌, ==_iff, string_eq, nat_eq, option_eq, last?,
  length, ok, err, reject_if, >>=-eq-ok, reject_if-eq-ok, Ensures, suc, arith,
}
use agent_governance.Contracts.Effects.{
  Outcome, returned, threw, lift, Gives, >>=-Gives, lift-Gives,
}
use agent_governance.Resume.State.{ResumeCheckpoint}
use agent_governance.Resume.Transition.{validate_transition, effects_of}
use agent_governance.Resume.Transition.Laws.{SameTask, IsTransition, validate_transition_iff}
use agent_governance.Resume.Store.History.{
  Entry, generation, System, fingerprint_of, has_event, is_broken, check_link, read_file, load,
  history, numbered,
}

-- `cp` may follow the checkpoints `hs`: it has the next generation, names the fingerprint of the last
-- one, has a new event, and the effects and the task move as they may.
pub record Extends (hs : List ResumeCheckpoint) (cp : ResumeCheckpoint) : Type 0 where
  pub generation : cp.body.generation ≡ suc (length hs)
  pub previous : cp.body.previous_checkpoint ≡ fingerprint_of (last? hs)
  pub fresh : has_event cp.body.event_id hs ≡ false
  pub same_task : SameTask (last? hs) cp
  pub transition :
      IsTransition cp.body.trigger (effects_of (last? hs)) cp.body.state.external_effects

pub data IsHistory : List ResumeCheckpoint → Type 0 where
  empty : IsHistory []
  extend :
      (hs : List ResumeCheckpoint) (cp : ResumeCheckpoint)
      → IsHistory hs
      → Extends hs cp
      → IsHistory (hs ++ cp ∷ [])

check_link-Extends :
    (hs : List ResumeCheckpoint) (cp : ResumeCheckpoint) → check_link hs cp ≡ ok tt → Extends hs cp
unfolding check_link
check_link-Extends hs cp h =
    let (_, link, move) =
      >>=-eq-ok
        (reject_if (is_broken hs cp)
          "invalid resume checkpoint: generation chain or event mismatch")
        (λ _. validate_transition (last? hs) cp) h in
    let linked : is_broken hs cp ≡ false = reject_if-eq-ok (is_broken hs cp) _ link in
    let moved = (validate_transition_iff (last? hs) cp).0 move in
    record {
      generation = (==_iff cp.body.generation (suc (length hs))).0 (ground arith);
      previous = (==_iff cp.body.previous_checkpoint (fingerprint_of (last? hs))).0 (ground arith);
      fresh = ground arith;
      same_task = moved.0;
      transition = moved.1;
    }

module _ {W : Type 0} (sys : System W) where
  load-IsHistory :
      (ns : List ℕ) (hs : List ResumeCheckpoint) (w : W)
      → IsHistory hs
      → Gives IsHistory (load sys ns hs w).0
  unfolding load
  load-IsHistory [] hs w h = h
  load-IsHistory (n ∷ ns) hs w h =
      >>=-Gives (λ _. Unit) IsHistory (read_file sys (generation n)) _ w (anything _)
        λ cp v _.
          >>=-Gives (λ _. Extends hs cp) IsHistory (lift (check_link hs cp)) _ v
            (lift-Gives (λ _. Extends hs cp) (check_link hs cp) v (link cp))
            λ _ u e. load-IsHistory ns (hs ++ cp ∷ []) u (extend hs cp h e)
    where
      anything : (o : Outcome ResumeCheckpoint) → Gives (λ _. Unit) o
      anything (returned _) = tt
      anything (threw _) = tt

      link : (cp : ResumeCheckpoint) → Ensures (λ _. Extends hs cp) (check_link hs cp)
      link cp =
          elim (check_link hs cp) as (λ r. check_link hs cp ≡ r → Ensures (λ _. Extends hs cp) r) [
            | ok tt ↦ λ e. check_link-Extends hs cp e
            | err e ↦ λ _. tt
          ]
            refl

-- What `history` returns, if it returns.
pub history_sound : {W : Type 0} (sys : System W) (w : W) → Gives IsHistory (history sys w).0
unfolding history
history_sound {W} sys w =
    >>=-Gives (λ _. Unit) IsHistory sys.bound _ w (nothing _)
      λ _ v _.
        >>=-Gives (λ _. Unit) IsHistory sys.entries _ v (names _)
          λ es u _.
            >>=-Gives (λ _. Unit) IsHistory (lift (numbered es)) _ u (numbers _)
              λ ns t _.
                >>=-Gives IsHistory IsHistory (load sys ns []) _ t
                  (load-IsHistory sys ns [] t empty)
                  λ hs s h. >>=-Gives (λ _. Unit) IsHistory sys.bound _ s (nothing _) λ _ r _. h
  where
    nothing : (o : Outcome (Unit {0})) → Gives (λ _. Unit) o
    nothing (returned _) = tt
    nothing (threw _) = tt

    names : (o : Outcome (List Entry)) → Gives (λ _. Unit) o
    names (returned _) = tt
    names (threw _) = tt

    numbers : (o : Outcome (List ℕ)) → Gives (λ _. Unit) o
    numbers (returned _) = tt
    numbers (threw _) = tt

-- The checkpoints that `history` returns form a history: their generations count from 1, each one
-- names the fingerprint of the one before it, no event occurs twice, and each step moves the task and
-- its effects as it may.
pub history-IsHistory :
    {W : Type 0} (sys : System W) (w : W) {hs : List ResumeCheckpoint}
    → (history sys w).0 ≡ returned hs
    → IsHistory hs
history-IsHistory sys w returns = subst (Gives IsHistory) returns (history_sound sys w)
