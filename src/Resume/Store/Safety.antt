-- ===== src/Resume/Store/Safety.antt =====
-- What `publish` may do to the directory.
use agent_governance.Base.{
  ℕ, String, ◌≡◌, refl, sym, ap, subst, arith, Bool, not, Option, none, some, List, [], ◌∷◌, ◌++◌,
  ◌==◌, string_eq, nat_eq, option_eq, err, reject_if, Bool-cases, inl, inr,
}
use agent_governance.Contracts.Effects.{
  returned, lift, lift-world, refuse_if-eq-returned, ◌>>=◌, Keeps, >>=-Keeps, lift-Keeps,
  >>=-Keeps-with,
}
use agent_governance.Resume.State.{ResumeCheckpoint, CheckpointIdentity, state_eq}
use agent_governance.Resume.Store.History.{
  Entry, generation, stage, Point, before_stage, after_stage, before_publish, after_publish,
  after_sync, System, read_file, load, history, read, sync, numbered, select, check_link,
  identity_of, accept,
}
use agent_governance.Resume.Store.Publish.{
  Request, Decision, refuse, keep_current, append, decide, confirm, publication, write, carry_out,
  publish, event_of, present,
}
use agent_governance.Resume.Store.Laws.{Extends, IsHistory, history-IsHistory}
use agent_governance.Resume.Store.Sound.{Sound, decide-Sound}

-- `cp` follows a history that the store has read.
abbrev pub MayPublish : {W : Type 0} → System W → ResumeCheckpoint → Type 0
MayPublish {W} sys cp =
    (hs : List ResumeCheckpoint) × (w : W) × ((history sys w).0 ≡ returned hs)
    × IsHistory hs
    × Extends hs cp

-- The file of that name has been created with the text of `cp`, has been read back with the fingerprint
-- of `cp`, and from there only the observer and the check of the directory lead to the world `w`.
pub record IsStaged {W : Type 0} (sys : System W) (name : String) (cp : ResumeCheckpoint) (w : W)
    : Type 0 where
  pub before : W
  pub created : (sys.create name (sys.stringify cp) before).0 ≡ returned tt
  pub staged : ResumeCheckpoint
  pub reads :
      (read_file sys
        (stage name)
        (sys.observe after_stage (sys.create name (sys.stringify cp) before).1).1).0
      ≡ returned staged
  pub same : staged.fingerprint ≡ cp.fingerprint
  pub after :
      w
      ≡ (sys.bound
          (sys.observe before_publish
            (read_file sys
              (stage name)
              (sys.observe after_stage (sys.create name (sys.stringify cp) before).1).1).1).1).1

-- Every system call but the publication keeps `P`, and the publication does for a checkpoint that
-- follows a history that the store has read, from a file in which it is staged.
pub record IsSafe {W : Type 0} (P : W → Type 0) (sys : System W) : Type 0 where
  pub bound : Keeps P sys.bound
  pub sync_directory : Keeps P sys.sync_directory
  pub entries : Keeps P sys.entries
  pub read_entry : (e : Entry) → Keeps P (sys.read_entry e)
  pub random_uuid : Keeps P sys.random_uuid
  pub create : (name content : String) → Keeps P (sys.create name content)
  pub observe : (p : Point) → Keeps P (sys.observe p)
  pub rename :
      (name : String) (cp : ResumeCheckpoint)
      → MayPublish sys cp
      → (w : W) → IsStaged sys name cp w
      → P w
      → P (sys.rename name cp.body.generation w).1

module _ {W : Type 0} (P : W → Type 0) (sys : System W) (safe : IsSafe P sys) where
  read_file_keeps : (name : Entry) → Keeps P (read_file sys name)
  unfolding read_file
  read_file_keeps name =
      >>=-Keeps P (sys.read_entry name) _ (safe.read_entry name) λ f. lift-Keeps P (accept sys f)

  load_keeps : (ns : List ℕ) (hs : List ResumeCheckpoint) → Keeps P (load sys ns hs)
  unfolding load
  load_keeps [] hs = λ w p. p
  load_keeps (n ∷ ns) hs =
      >>=-Keeps P (read_file sys (generation n)) _ (read_file_keeps (generation n)) λ cp.
        >>=-Keeps P (lift (check_link hs cp)) _ (lift-Keeps P (check_link hs cp))
          λ _. load_keeps ns (hs ++ cp ∷ [])

  history_keeps : Keeps P (history sys)
  unfolding history
  history_keeps = >>=-Keeps P sys.bound _ safe.bound λ _.
      >>=-Keeps P sys.entries _ safe.entries λ es.
        >>=-Keeps P (lift (numbered es)) _ (lift-Keeps P (numbered es)) λ ns.
          >>=-Keeps P (load sys ns []) _ (load_keeps ns [])
            λ hs. >>=-Keeps P sys.bound _ safe.bound λ _ w p. p

  pub read-Keeps : (expected : Option CheckpointIdentity) → Keeps P (read sys expected)
  unfolding read
  read-Keeps expected =
      >>=-Keeps P (history sys) _ history_keeps λ hs. lift-Keeps P (select sys expected hs)

  sync_keeps : Keeps P (sync sys)
  unfolding sync
  sync_keeps =
      >>=-Keeps P sys.bound _ safe.bound
        λ _. >>=-Keeps P sys.sync_directory _ safe.sync_directory λ _. safe.bound

  pub confirm-Keeps : (expected : CheckpointIdentity) → Keeps P (confirm sys expected)
  unfolding confirm
  confirm-Keeps expected = >>=-Keeps P (sync sys) _ sync_keeps λ _.
      >>=-Keeps P (read sys (some expected)) _ (read-Keeps (some expected))
        λ cp. lift-Keeps P (present sys cp)

  published_keeps :
      (cp : ResumeCheckpoint) (name : String)
      → MayPublish sys cp
      → (w : W) → IsStaged sys name cp (sys.bound (sys.observe before_publish w).1).1
      → P w
      → P (publication sys cp name w).1
  unfolding publication
  published_keeps cp name may w staged p =
      >>=-Keeps-with P (sys.observe before_publish) _ w (safe.observe before_publish w p) λ _ _.
        let w1 = (sys.observe before_publish w).1 in
        let p1 = safe.observe before_publish w p in
        >>=-Keeps-with P sys.bound _ w1 (safe.bound w1 p1) λ _ _.
          let w2 = (sys.bound w1).1 in
          let p3 = safe.rename name cp may w2 staged (safe.bound w1 p1) in
          >>=-Keeps-with P (sys.rename name cp.body.generation) _ w2 p3 λ _ _. rest _ p3
    where
      rest : Keeps P (
          sys.observe after_publish >>= λ _.
          sync sys >>= λ _. sys.observe after_sync >>= λ _. read sys (some (identity_of cp)))
      rest = >>=-Keeps P (sys.observe after_publish) _ (safe.observe after_publish) λ _.
          >>=-Keeps P (sync sys) _ sync_keeps λ _.
            >>=-Keeps P (sys.observe after_sync) _ (safe.observe after_sync)
              λ _. read-Keeps (some (identity_of cp))

  staged_keeps :
      (cp : ResumeCheckpoint) (name : String)
      → MayPublish sys cp
      → (before : W) (staged : ResumeCheckpoint)
      → (sys.create name (sys.stringify cp) before).0 ≡ returned tt
      → (read_file sys
          (stage name)
          (sys.observe after_stage (sys.create name (sys.stringify cp) before).1).1).0
        ≡ returned staged
      → (v : W)
      → v
        ≡ (read_file sys
            (stage name)
            (sys.observe after_stage (sys.create name (sys.stringify cp) before).1).1).1
      → P v
      → P
          ((lift (
                reject_if
                  (not (staged.fingerprint == cp.fingerprint))
                  "invalid resume checkpoint: staging readback")
              >>= λ _. publication sys cp name)
            v).1
  staged_keeps cp name may before staged created reads v at p =
      let bad = not (staged.fingerprint == cp.fingerprint) in
      let message : String = "invalid resume checkpoint: staging readback" in
      let check = reject_if bad message in
      >>=-Keeps-with P (lift check) _ v (lift-Keeps P check v p) λ u passed.
        let kept = refuse_if-eq-returned bad message v passed in
        subst (λ x. P (publication sys cp name x).1) (sym (lift-world check v))
          (published_keeps cp name may v
            (record {
              before = before;
              created = created;
              staged = staged;
              reads = reads;
              same = ground arith;
              after = ap (λ x. (sys.bound (sys.observe before_publish x).1).1) at;
            })
            p)

  write_keeps : (cp : ResumeCheckpoint) → MayPublish sys cp → Keeps P (write sys cp)
  unfolding write
  write_keeps cp may = >>=-Keeps P (sys.observe before_stage) _ (safe.observe before_stage) λ _.
      >>=-Keeps P sys.bound _ safe.bound λ _.
        >>=-Keeps P sys.random_uuid _ safe.random_uuid λ name w p.
          let p1 = safe.create name (sys.stringify cp) w p in
          >>=-Keeps-with P (sys.create name (sys.stringify cp)) _ w p1 λ u created.
            let w1 = (sys.create name (sys.stringify cp) w).1 in
            let p2 = safe.observe after_stage w1 p1 in
            >>=-Keeps-with P (sys.observe after_stage) _ w1 p2 λ _ _.
              let w2 = (sys.observe after_stage w1).1 in
              let p3 = read_file_keeps (stage name) w2 p2 in
              >>=-Keeps-with P (read_file sys (stage name)) _ w2 p3
                λ staged reads. staged_keeps cp name may w staged created reads _ refl p3

  carry_out_keeps :
      (hs : List ResumeCheckpoint) (w : W)
      → (history sys w).0 ≡ returned hs
      → IsHistory hs
      → (d : Decision) → Sound sys hs d
      → Keeps P (carry_out sys d)
  unfolding carry_out
  carry_out_keeps hs w e h (refuse message) s =
      lift-Keeps {A = Option ResumeCheckpoint} P (err message)
  carry_out_keeps hs w e h (keep_current cp) s =
      >>=-Keeps P (confirm sys (identity_of cp)) _ (confirm-Keeps (identity_of cp)) λ cp w p. p
  carry_out_keeps hs w e h (append cp) s = write_keeps cp (hs, w, e, h, s)

-- `publish` renames no file but one in which a checkpoint is staged that follows a history that the
-- store has read: a property of the world is kept by `publish` if every system call but the renaming
-- keeps it, and the renaming does for a file that was created with the text of such a checkpoint and
-- read back with its fingerprint. The property is kept also where a call fails, or the observer throws.
pub publish-Keeps :
    {W : Type 0} (P : W → Type 0) (sys : System W) (request : Request) (readback : Bool)
    → IsSafe P sys
    → (w : W) → P w
    → P (publish sys request readback w).1
unfolding publish
publish-Keeps P sys request readback safe = elim (Bool-cases (request.trigger == "message")) [
  | inl message ↦ simp message (read-Keeps P sys safe none)
  | inr event ↦ simp event (
      >>=-Keeps P (lift (event_of request)) _ (lift-Keeps P (event_of request)) λ e w p.
        >>=-Keeps-with P (history sys) _ w (history_keeps P sys safe w p) λ hs read.
          let valid = history-IsHistory sys w read in
          carry_out_keeps P sys safe hs w read valid (decide sys readback hs request.expected e)
            (decide-Sound sys readback hs request.expected e valid) _
            (history_keeps P sys safe w p))
]
