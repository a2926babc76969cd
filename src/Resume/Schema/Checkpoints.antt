-- ===== src/Resume/Schema/Checkpoints.antt =====
-- `createCheckpoint` and `validateCheckpoint` of src/resume-checkpoint-schema.ts.
-- `JSON.stringify` followed by SHA-256 is the parameter `fingerprint`.
use agent_governance.Base.{
  ℕ, String, Bool, false, not, ◌||◌, ◌&&◌, Option, none, some, List, [], ◌∷◌, ◌==◌, string_eq,
  nat_eq, if◌then◌else◌, all, leb, length, Result, ok, ◌>>=◌, ◌>>◌, reject_if,
}
use agent_governance.Base.Json.{Json, null, num, str, get}
use agent_governance.Base.Text.{units}
use agent_governance.Base.Regex.{is_digit, in_range}
use agent_governance.Resume.State.{Trigger, ResumeState, Body, ResumeCheckpoint}
use agent_governance.Resume.Schema.Fields.{reject, record_of, text}
use agent_governance.Resume.Schema.Names.{trigger_name, trigger_of}
use agent_governance.Resume.Schema.Print.{state_json}
use agent_governance.Resume.Schema.States.{validate_state}

abbrev pub checkpoint_keys : List String
checkpoint_keys =
    "schemaVersion" ∷ "generation" ∷ "previousCheckpoint" ∷ "eventId" ∷ "trigger" ∷ "state"
    ∷ "fingerprint" ∷ []

unfoldable pub is_num : ℕ → Option Json → Bool
is_num n (some (num m)) = m == n
is_num n _ = false

unfoldable pub is_str : String → Option Json → Bool
is_str s (some (str t)) = t == s
is_str s _ = false

-- a safe integer of at least 1
unfoldable pub generation_of : Option Json → Result ℕ
generation_of (some (num n)) =
    if leb 1 n && leb n 9007199254740991 then ok n else reject "generation"
generation_of _ = reject "generation"

-- `/^[a-f0-9]{64}$/`
unfoldable pub is_digest : String → Bool
is_digest s = length (units s) == 64 && all (λ c. in_range b'a' b'f' c || is_digit c) (units s)

unfoldable pub previous_of : Option Json → Result (Option String)
previous_of (some null) = ok none
previous_of (some (str s)) = if is_digest s then ok (some s) else reject "previous checkpoint"
previous_of _ = reject "previous checkpoint"

unfoldable pub some_state : Option Json → Result ResumeState
some_state none = reject "closed schema mismatch"
some_state (some v) = validate_state v

module _ (fingerprint : Body → String) where
  unfoldable pub create_checkpoint :
      ℕ → Option String → String → Trigger → ResumeState → Result ResumeCheckpoint
  create_checkpoint generation previous event_id event state = do
    id ← text (some (str event_id))
    trigger ← trigger_of (some (str (trigger_name event)))
    valid ← validate_state (state_json state)
    let body : Body = record {
      generation = generation;
      previous_checkpoint = previous;
      event_id = id;
      trigger = trigger;
      state = valid;
    }
    ok (record { body = body; fingerprint = fingerprint body })

  unfoldable pub validate_checkpoint : Json → Result ResumeCheckpoint
  validate_checkpoint input = do
    v ← record_of (some input) checkpoint_keys
    reject_if (not (is_num 1 (get "schemaVersion" v)))
        "invalid resume checkpoint: unsupported schema version"
    generation ← generation_of (get "generation" v)
    previous ← previous_of (get "previousCheckpoint" v)
    event_id ← text (get "eventId" v)
    event ← trigger_of (get "trigger" v)
    state ← some_state (get "state" v)
    cp ← create_checkpoint generation previous event_id event state
    reject_if (not (is_str cp.fingerprint (get "fingerprint" v)))
        "invalid resume checkpoint: corrupted payload fingerprint"
    ok cp
