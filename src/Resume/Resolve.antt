-- ===== src/Resume/Resolve.antt =====
-- `resolveResumeCandidates` of src/resume-resolve.ts: which of the candidate directories holds the task
-- that is to be resumed. Opening a store and the identity of a directory are parameters.
pub mod Match
pub mod Laws
use agent_governance.Base.{
  ℕ, String, Bool, true, false, not, ◌&&◌, ◌||◌, Option, none, some, List, [], ◌∷◌, ◌++◌, map,
  string_eq, nat_eq, option_eq, ◌==◌, if◌then◌else◌, any,
}
use agent_governance.Base.Dict.{lookup}
use agent_governance.Contracts.Effects.{Outcome, returned, threw, Eff, ◌>>=◌, give}
use agent_governance.Resume.State.{
  ExternalEffect, EffectState, prepared, unknown, TaskStatus, completed, ResumeCheckpoint,
}
use agent_governance.Resume.Store.History.{System, read}

pub record ResolveContext : Type 0 where
  pub repository : String
  pub scope : Option String
  pub task_id : Option String
  pub work_item : Option String
  pub worktree : Option String
  pub branch : Option String
  pub dirty : Option String

pub record ResumeResolution : Type 0 where
  pub store : String
  pub generation : ℕ
  pub fingerprint : String
  pub task_id : String
  pub objective : String
  pub scope : List String
  pub exact_head : String
  pub task_status : TaskStatus
  pub next_atomic_action : String
  pub work_item : Option String
  pub external_effects : List ExternalEffect

pub data InvalidReason : Type 0 where
  unsafe_directory corrupted_history : InvalidReason

pub data ResolveOutcome : Type 0 where
  resume : ResumeResolution → ResolveOutcome
  no_match : ResolveOutcome
  ambiguous : List String → ResolveOutcome
  invalid : InvalidReason → String → ResolveOutcome

-- device and inode
pub record Identity : Type 0 where
  pub device : ℕ
  pub inode : ℕ

abbrev pub same_identity : Identity → Identity → Bool
same_identity a b = a.device == b.device && a.inode == b.inode

-- a field of the context is compared if it is set
abbrev pub agrees : Option String → Option String → Bool
agrees none actual = true
agrees (some expected) actual = actual == some expected

unfoldable pub binding_matches : ResolveContext → ResumeCheckpoint → Bool
unfolding lookup
binding_matches context cp =
    let ids = cp.body.state.identities in
    lookup "repository" ids == some context.repository
    && agrees context.scope (lookup "scope" ids)
    && agrees context.worktree (lookup "worktree" ids)
    && agrees context.branch (lookup "branch" ids)
    && agrees context.dirty (lookup "dirty" ids)
    && agrees context.task_id (some cp.body.state.projection.task_id)
    && agrees context.work_item cp.body.state.work_item

abbrev pub is_unresolved_state : EffectState → Bool
is_unresolved_state prepared = true
is_unresolved_state unknown = true
is_unresolved_state _ = false

-- `unresolvedEffect`
abbrev pub unresolved_effect : ExternalEffect → Bool
unresolved_effect e = is_unresolved_state e.state

abbrev pub is_completed : TaskStatus → Bool
is_completed completed = true
is_completed _ = false

unfoldable pub is_finished : ResumeCheckpoint → Bool
is_finished cp =
    is_completed cp.body.state.task_status
    && not (any unresolved_effect cp.body.state.external_effects)

abbrev pub resolution : String → ResumeCheckpoint → ResumeResolution
resolution path cp = record {
  store = path;
  generation = cp.body.generation;
  fingerprint = cp.fingerprint;
  task_id = cp.body.state.projection.task_id;
  objective = cp.body.state.projection.objective;
  scope = cp.body.state.projection.scope;
  exact_head = cp.body.state.projection.exact_head;
  task_status = cp.body.state.task_status;
  next_atomic_action = cp.body.state.projection.next_atomic_action;
  work_item = cp.body.state.work_item;
  external_effects = cp.body.state.external_effects;
}

-- what a store adds to the matches
unfoldable pub match_of : ResolveContext → String → Option ResumeCheckpoint → List ResumeResolution
unfolding binding_matches is_finished
match_of context path none = []
match_of context path (some cp) =
    if not (is_finished cp) && binding_matches context cp then resolution path cp ∷ [] else []

unfoldable pub conclude : List ResumeResolution → ResolveOutcome
conclude [] = no_match
conclude (found ∷ []) = resume found
conclude (first ∷ second ∷ more) = ambiguous (map (λ r. r.store) (first ∷ second ∷ more))

pub record Directories (W : Type 0) : Type 0 where
  pub open_store : String → Eff W (System W)
  pub capture_identity : String → Eff W Identity

module _ {W : Type 0} (directories : Directories W) (context : ResolveContext) where
  unfoldable pub opened : String → Eff W (System W × Identity)
  opened path = directories.open_store path >>= λ store.
      directories.capture_identity path >>= λ identity. give (store, identity)

  -- the rest of the loop, given what has been seen and what matches
  abbrev pub Rest : Type 0
  Rest = List Identity → List ResumeResolution → W → Outcome ResolveOutcome × W

  unfoldable pub after_read :
      String
      → List Identity
      → List ResumeResolution
      → Rest
      → Outcome (Option ResumeCheckpoint)
      → W
      → Outcome ResolveOutcome × W
  unfolding match_of
  after_read path seen matches rest (returned found) w =
      rest seen (matches ++ match_of context path found) w
  after_read path seen matches rest (threw t) w = (returned (invalid corrupted_history path), w)

  unfoldable pub after_open :
      String
      → List Identity
      → List ResumeResolution
      → Rest
      → Outcome (System W × Identity)
      → W
      → Outcome ResolveOutcome × W
  unfolding after_read
  after_open path seen matches rest (returned (store, identity)) w =
      if any (same_identity identity) seen
      then rest seen matches w
      else after_read path (identity ∷ seen) matches rest (read store none w).0
          (read store none w).1
  after_open path seen matches rest (threw t) w = (returned (invalid unsafe_directory path), w)

  unfoldable pub resolve_all : List String → Rest
  unfolding opened after_open conclude
  resolve_all [] seen matches w = (returned (conclude matches), w)
  resolve_all (path ∷ candidates) seen matches w =
      after_open path seen matches (resolve_all candidates) (opened path w).0 (opened path w).1

  unfoldable pub resolve_resume_candidates : List String → Eff W ResolveOutcome
  unfolding resolve_all
  resolve_resume_candidates candidates = resolve_all candidates [] []
