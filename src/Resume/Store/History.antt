-- ===== src/Resume/Store/History.antt =====
-- The files of a checkpoint directory, and `readFile`, `history` and `read`.
use agent_governance.Base.{
  ℕ, String, Bool, true, false, not, ◌&&◌, ◌||◌, Option, none, some, List, [], ◌∷◌, ◌++◌, ◌==◌,
  string_eq, nat_eq, option_eq, if◌then◌else◌, any, ltb, length, last?, Result, ok, err, reject_if,
  suc,
}
use agent_governance.Base.{◌>>◌ as ◌then◌}
use agent_governance.Base.Json.{Json}
use agent_governance.Contracts.Effects.{Eff, ◌>>=◌, give, lift}
use agent_governance.Resume.State.{CheckpointIdentity, Body, ResumeCheckpoint, checkpoint_eq}
use agent_governance.Resume.Schema.Fields.{reject}
use agent_governance.Resume.Schema.Checkpoints.{validate_checkpoint}
use agent_governance.Resume.Transition.{validate_transition}

-- A directory entry: a staged file, whose name has the form of `.stage-` and a UUID, the file of a
-- generation, or anything else.
pub data Entry : Type 0 where
  stage : String → Entry
  generation : ℕ → Entry
  foreign : String → Entry

-- What the two `stat` calls and the loop of reads have found of a file: `same_snapshot` compares the
-- two, and the content is what the decoder returns, if the bytes are UTF-8.
pub record ReadFile : Type 0 where
  pub is_file : Bool
  pub is_single_link : Bool
  pub is_private : Bool
  pub is_own : Bool
  pub size : ℕ
  pub same_snapshot : Bool
  pub is_single_link_after : Bool
  pub read_length : ℕ
  pub content : Option String

pub data Point : Type 0 where
  before_stage after_stage before_publish after_publish after_sync : Point

-- The system calls on the directory, the observer of `publish`, and the JSON functions. `stringify`
-- ends in the line feed that the source adds.
pub record System (W : Type 0) : Type 0 where
  pub bound : Eff W (Unit {0})
  pub sync_directory : Eff W (Unit {0})
  pub entries : Eff W (List Entry)
  pub read_entry : Entry → Eff W ReadFile
  pub random_uuid : Eff W String
  pub create : String → String → Eff W (Unit {0})
  pub rename : String → ℕ → Eff W (Unit {0})
  pub observe : Point → Eff W (Unit {0})
  pub parse : String → Result Json
  pub stringify : ResumeCheckpoint → String
  pub fingerprint : Body → String

unfoldable pub max_checkpoint_bytes : ℕ
max_checkpoint_bytes = 262144

unfoldable pub identity_of : ResumeCheckpoint → CheckpointIdentity
identity_of cp = record { generation = cp.body.generation; fingerprint = cp.fingerprint }

-- `matches`
unfoldable pub matches : Option ResumeCheckpoint → Option CheckpointIdentity → Bool
matches none none = true
matches none (some _) = false
matches (some cp) none = false
matches (some cp) (some e) = cp.body.generation == e.generation && cp.fingerprint == e.fingerprint

abbrev pub fingerprint_of : Option ResumeCheckpoint → Option String
fingerprint_of none = none
fingerprint_of (some cp) = some cp.fingerprint

abbrev pub has_event : String → List ResumeCheckpoint → Bool
has_event id hs = any (λ cp. cp.body.event_id == id) hs

abbrev pub is_broken : List ResumeCheckpoint → ResumeCheckpoint → Bool
is_broken hs cp =
    not (cp.body.generation == suc (length hs))
    || not (cp.body.previous_checkpoint == fingerprint_of (last? hs))
    || has_event cp.body.event_id hs

-- the checks of one round of the loop in `history`
unfoldable pub check_link : List ResumeCheckpoint → ResumeCheckpoint → Result (Unit {0})
check_link hs cp =
    reject_if (is_broken hs cp) "invalid resume checkpoint: generation chain or event mismatch"
    then validate_transition (last? hs) cp

-- the generations of the entries that are no staged files
unfoldable pub generations : List Entry → Result (List ℕ)
generations [] = ok []
generations (stage _ ∷ es) = generations es
generations (foreign _ ∷ es) = reject "unknown checkpoint directory entry"
generations (generation n ∷ es) = elim (generations es) [ ok ns ↦ ok (n ∷ ns) | err e ↦ err e ]

unfoldable pub insert_number : ℕ → List ℕ → List ℕ
insert_number n [] = n ∷ []
insert_number n (m ∷ ms) = let rest = insert_number n ms in if ltb m n then m ∷ rest else n ∷ m ∷ ms

unfoldable pub sort_numbers : List ℕ → List ℕ
sort_numbers [] = []
sort_numbers (n ∷ ns) = insert_number n (sort_numbers ns)

-- the numbers from `n` on, with no gap
unfoldable pub counts_from : ℕ → List ℕ → Bool
counts_from n [] = true
counts_from n (m ∷ ms) = m == n && counts_from (suc n) ms

unfoldable pub check_gaps : List ℕ → Result (List ℕ)
check_gaps ns =
    if counts_from 1 (sort_numbers ns) then ok (sort_numbers ns) else reject "generation gap"

unfoldable pub numbered : List Entry → Result (List ℕ)
numbered es = elim (generations es) [ ok ns ↦ check_gaps ns | err e ↦ err e ]

module _ {W : Type 0} (sys : System W) where
  unfoldable pub canonical : String → ResumeCheckpoint → Result ResumeCheckpoint
  canonical content cp =
      if content == sys.stringify cp then ok cp else reject "noncanonical checkpoint encoding"

  checked : Result ResumeCheckpoint → String → Result ResumeCheckpoint
  checked (ok cp) content = canonical content cp
  checked (err e) content = err e

  parsed : Result Json → Result ResumeCheckpoint
  parsed (ok v) = validate_checkpoint sys.fingerprint v
  parsed (err e) = err e

  decoded : Option String → Result ResumeCheckpoint
  unfolding checked parsed
  decoded none = err "The encoded data was not valid for encoding utf-8"
  decoded (some content) = checked (parsed (sys.parse content)) content

  -- the checks of `readFile` on what was read
  unfoldable pub accept : ReadFile → Result ResumeCheckpoint
  unfolding decoded
  accept f =
      if not f.is_file
        || not f.is_single_link
        || not f.is_private
        || not f.is_own
        || ltb max_checkpoint_bytes f.size
      then reject "unsafe checkpoint file"
      else if not f.same_snapshot || not f.is_single_link_after || not (f.read_length == f.size)
      then reject "checkpoint changed while reading"
      else decoded f.content

  unfoldable pub read_file : Entry → Eff W ResumeCheckpoint
  read_file name = do f ← sys.read_entry name; lift (accept f)

  unfoldable pub load : List ℕ → List ResumeCheckpoint → Eff W (List ResumeCheckpoint)
  load [] hs = give hs
  load (n ∷ ns) hs = do
    cp ← read_file (generation n)
    _ ← lift (check_link hs cp)
    load ns (hs ++ cp ∷ [])

  unfoldable pub history : Eff W (List ResumeCheckpoint)
  history = do
    _ ← sys.bound
    names ← sys.entries
    ns ← lift (numbered names)
    hs ← load ns []
    _ ← sys.bound
    give hs

  unfoldable pub select :
      Option CheckpointIdentity → List ResumeCheckpoint → Result (Option ResumeCheckpoint)
  select none hs = ok (last? hs)
  select (some e) hs =
      if matches (last? hs) (some e) then ok (last? hs) else reject "stale checkpoint identity"

  unfoldable pub read : Option CheckpointIdentity → Eff W (Option ResumeCheckpoint)
  read expected = do hs ← history; lift (select expected hs)

  unfoldable pub sync : Eff W (Unit {0})
  sync = do _ ← sys.bound; _ ← sys.sync_directory; sys.bound
