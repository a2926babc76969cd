-- ===== src/Resume/Resolve/Match.antt =====
-- What makes a checkpoint a match in `resolveResumeCandidates` of src/resume-resolve.ts, written out.
use agent_governance.Base.{
  ◌≡◌, ◌≢◌, refl, ◌⊎◌, inl, inr, String, true, false, Option, none, some, List, [], ◌∷◌, any,
  Bool-cases, arith, string_eq, nat_eq, option_eq, map,
}
use agent_governance.Base.Dict.{lookup}
use agent_governance.Resume.State.{
  ExternalEffect, EffectState, prepared, unknown, committed, not_applied, TaskStatus, completed,
  ResumeCheckpoint,
}
use agent_governance.Resume.Resolve.{
  ResolveContext, ResumeResolution, ResolveOutcome, resume, no_match, ambiguous, Identity,
  same_identity, agrees, is_unresolved_state, unresolved_effect, is_completed, binding_matches,
  is_finished, resolution, match_of, conclude,
}

-- some effect is prepared or unknown
abbrev pub HasUnresolved : List ExternalEffect → Type 0
HasUnresolved [] = ⊥
HasUnresolved (e ∷ es) = (e.state ≡ prepared) ⊎ (e.state ≡ unknown) ⊎ HasUnresolved es

-- The task is not completed, or an effect of it is not resolved.
abbrev pub IsOpen : ResumeCheckpoint → Type 0
IsOpen cp = (cp.body.state.task_status ≢ completed) ⊎ HasUnresolved cp.body.state.external_effects

-- What the context sets is what is there.
abbrev pub Agrees : Option String → Option String → Type 0
Agrees expected actual = (expected ≡ none) ⊎ (actual ≡ expected)

pub record IsBound (context : ResolveContext) (cp : ResumeCheckpoint) : Type 0 where
  pub repository : lookup "repository" cp.body.state.identities ≡ some context.repository
  pub scope : Agrees context.scope (lookup "scope" cp.body.state.identities)
  pub worktree : Agrees context.worktree (lookup "worktree" cp.body.state.identities)
  pub branch : Agrees context.branch (lookup "branch" cp.body.state.identities)
  pub dirty : Agrees context.dirty (lookup "dirty" cp.body.state.identities)
  pub task_id : Agrees context.task_id (some cp.body.state.projection.task_id)
  pub work_item : Agrees context.work_item cp.body.state.work_item

-- What is returned of a checkpoint.
pub record Describes (r : ResumeResolution) (path : String) (cp : ResumeCheckpoint) : Type 0 where
  pub store : r.store ≡ path
  pub generation : r.generation ≡ cp.body.generation
  pub fingerprint : r.fingerprint ≡ cp.fingerprint
  pub task_id : r.task_id ≡ cp.body.state.projection.task_id
  pub objective : r.objective ≡ cp.body.state.projection.objective
  pub scope : r.scope ≡ cp.body.state.projection.scope
  pub exact_head : r.exact_head ≡ cp.body.state.projection.exact_head
  pub task_status : r.task_status ≡ cp.body.state.task_status
  pub next_atomic_action : r.next_atomic_action ≡ cp.body.state.projection.next_atomic_action
  pub work_item : r.work_item ≡ cp.body.state.work_item
  pub external_effects : r.external_effects ≡ cp.body.state.external_effects

unresolved_iff_true :
    (es : List ExternalEffect) → any unresolved_effect es ≡ true → HasUnresolved es
unresolved_iff_true [] h = cc
unresolved_iff_true (e ∷ es) h = elim (Bool-cases (is_unresolved_state e.state)) [
  | inl here ↦ state_of e.state here
  | inr resolved ↦ inr (inr (unresolved_iff_true es (ground arith)))
]
  where
    state_of :
        (s : EffectState)
        → is_unresolved_state s ≡ true
        → (s ≡ prepared) ⊎ (s ≡ unknown) ⊎ HasUnresolved es
    state_of prepared q = inl refl
    state_of unknown q = inr (inl refl)
    state_of committed q = cc
    state_of not_applied q = cc

unresolved_iff_false :
    (es : List ExternalEffect) → any unresolved_effect es ≡ false → ¬ HasUnresolved es
unresolved_iff_false [] h = λ x. x
unresolved_iff_false (e ∷ es) h = λ found. elim found [
  | inl p ↦ let bad = simp p at h in cc
  | inr more ↦ elim more [
    | inl u ↦ let bad = simp u at h in cc
    | inr later ↦ unresolved_iff_false es (ground arith) later
  ]
]

completed_iff_true : (s : TaskStatus) → is_completed s ≡ true → s ≡ completed
completed_iff_true completed h = refl
completed_iff_true _ h = cc

completed_iff_false : (s : TaskStatus) → is_completed s ≡ false → s ≢ completed
completed_iff_false completed h = cc
completed_iff_false _ h = cc

is_finished_iff_false : (cp : ResumeCheckpoint) → is_finished cp ≡ false → IsOpen cp
unfolding is_finished
is_finished_iff_false cp h = elim (Bool-cases (is_completed cp.body.state.task_status)) [
  | inl done ↦ inr (unresolved_iff_true cp.body.state.external_effects (ground arith))
  | inr not_done ↦ inl (completed_iff_false cp.body.state.task_status not_done)
]

is_finished_iff_true : (cp : ResumeCheckpoint) → is_finished cp ≡ true → ¬ IsOpen cp
unfolding is_finished
is_finished_iff_true cp h = λ is_open. elim is_open [
  | inl unfinished ↦ unfinished (completed_iff_true cp.body.state.task_status (ground arith))
  | inr effects ↦ unresolved_iff_false cp.body.state.external_effects (ground arith) effects
]

agrees-Agrees :
    (expected actual : Option String) → agrees expected actual ≡ true → Agrees expected actual
agrees-Agrees none actual h = inl refl
agrees-Agrees (some e) actual h = inr (ground arith)

Agrees-agrees :
    (expected actual : Option String) → Agrees expected actual → agrees expected actual ≡ true
Agrees-agrees none actual h = refl
Agrees-agrees (some e) actual h = ground arith

pub binding_matches-IsBound :
    (context : ResolveContext) (cp : ResumeCheckpoint)
    → binding_matches context cp ≡ true
    → IsBound context cp
unfolding binding_matches
binding_matches-IsBound context cp h = record {
  repository = ground arith;
  scope = agrees-Agrees context.scope _ (ground arith);
  worktree = agrees-Agrees context.worktree _ (ground arith);
  branch = agrees-Agrees context.branch _ (ground arith);
  dirty = agrees-Agrees context.dirty _ (ground arith);
  task_id = agrees-Agrees context.task_id _ (ground arith);
  work_item = agrees-Agrees context.work_item _ (ground arith);
}

pub IsBound-binding_matches :
    (context : ResolveContext) (cp : ResumeCheckpoint)
    → IsBound context cp
    → binding_matches context cp ≡ true
unfolding binding_matches
IsBound-binding_matches context cp b =
    let ids = cp.body.state.identities in
    let repository = b.repository in
    let scope = Agrees-agrees context.scope (lookup "scope" ids) b.scope in
    let worktree = Agrees-agrees context.worktree (lookup "worktree" ids) b.worktree in
    let branch = Agrees-agrees context.branch (lookup "branch" ids) b.branch in
    let dirty = Agrees-agrees context.dirty (lookup "dirty" ids) b.dirty in
    let task = Agrees-agrees context.task_id (some cp.body.state.projection.task_id) b.task_id in
    let item = Agrees-agrees context.work_item cp.body.state.work_item b.work_item in ground arith

-- What a store adds to the matches: nothing, or what it says of an open checkpoint with the bindings of
-- the context.
pub data Adds (context : ResolveContext) (path : String)
    : Option ResumeCheckpoint → List ResumeResolution → Type 0 where
  empty_store : Adds context path none []
  match :
      {cp : ResumeCheckpoint} {r : ResumeResolution}
      → IsOpen cp
      → IsBound context cp
      → Describes r path cp
      → Adds context path (some cp) (r ∷ [])
  no_match_here :
      {cp : ResumeCheckpoint}
      → (¬ IsOpen cp) ⊎ (¬ IsBound context cp)
      → Adds context path (some cp) []

pub match_of-Adds :
    (context : ResolveContext) (path : String) (found : Option ResumeCheckpoint)
    → Adds context path found (match_of context path found)
unfolding match_of
match_of-Adds context path none = empty_store
match_of-Adds context path (some cp) = elim (Bool-cases (is_finished cp)) [
  | inl done ↦ simp done (no_match_here (inl (is_finished_iff_true cp done)))
  | inr still ↦ elim (Bool-cases (binding_matches context cp)) [
    | inl bound ↦ simp still (
        simp bound (
          match (is_finished_iff_false cp still) (binding_matches-IsBound context cp bound)
            described))
    | inr unbound ↦ simp still (
        simp unbound
          (no_match_here (inr (λ b. let bound = IsBound-binding_matches context cp b in cc))))
  ]
]
  where
    described : Describes (resolution path cp) path cp
    described = record {
      store = refl;
      generation = refl;
      fingerprint = refl;
      task_id = refl;
      objective = refl;
      scope = refl;
      exact_head = refl;
      task_status = refl;
      next_atomic_action = refl;
      work_item = refl;
      external_effects = refl;
    }

-- the outcome of the matches
pub data Concludes : List ResumeResolution → ResolveOutcome → Type 0 where
  nothing : Concludes [] no_match
  one : {r : ResumeResolution} → Concludes (r ∷ []) (resume r)
  several :
      {first second : ResumeResolution} {more : List ResumeResolution}
      → Concludes (first ∷ second ∷ more) (ambiguous (map (λ r. r.store) (first ∷ second ∷ more)))

pub conclude-Concludes : (found : List ResumeResolution) → Concludes found (conclude found)
unfolding conclude
conclude-Concludes [] = nothing
conclude-Concludes (r ∷ []) = one
conclude-Concludes (first ∷ second ∷ more) = several

-- a directory of that device and inode has been seen
abbrev pub IsSeen : Identity → List Identity → Type 0
IsSeen identity [] = ⊥
IsSeen identity (s ∷ seen) =
    ((identity.device ≡ s.device) × (identity.inode ≡ s.inode)) ⊎ IsSeen identity seen

pub any-IsSeen :
    (identity : Identity) (seen : List Identity)
    → any (same_identity identity) seen ≡ true
    → IsSeen identity seen
any-IsSeen identity [] h = cc
any-IsSeen identity (s ∷ seen) h = elim (Bool-cases (same_identity identity s)) [
  | inl same ↦ inl (ground arith)
  | inr differs ↦ inr (any-IsSeen identity seen (ground arith))
]

pub IsSeen-any :
    (identity : Identity) (seen : List Identity)
    → IsSeen identity seen
    → any (same_identity identity) seen ≡ true
IsSeen-any identity [] h = absurd h
IsSeen-any identity (s ∷ seen) (inl (d, i)) = ground arith
IsSeen-any identity (s ∷ seen) (inr later) =
    let rest = IsSeen-any identity seen later in ground arith
