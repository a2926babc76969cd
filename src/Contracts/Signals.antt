-- ===== src/Contracts/Signals.antt =====
-- `SignalCoordinator` of src/signals.ts as a record and its methods. The listeners that are
-- registered with the source are the field `listening`.
use agent_governance.Base.{
  ◌≡◌, Bool, true, false, Option, none, some, List, [], ◌∷◌, arith, if◌then◌else◌,
}
use agent_governance.Contracts.Types.{Signal, InstallPhase}

pub record Coordinator : Type 0 where
  pub interrupted_by : Option Signal
  pub started : Bool
  pub aborted : Bool
  pub listening : Bool

unfoldable pub new : Coordinator
new = record { interrupted_by = none; started = false; aborted = false; listening = false }

unfoldable pub start : Coordinator → Coordinator
start c = if c.started then c else record c { started = true; listening = true }

unfoldable pub dispose : Coordinator → Coordinator
dispose c = if c.started then record c { started = false; listening = false } else c

latch_in : Option Signal → Signal → Coordinator → Coordinator
latch_in (some _) signal c = c
latch_in none signal c = record c { interrupted_by = some signal; aborted = true }

unfoldable pub latch : Signal → Coordinator → Coordinator
unfolding latch_in
latch signal c = latch_in c.interrupted_by signal c

-- a signal of the process: it reaches the coordinator only while its listeners are registered
unfoldable pub deliver : Signal → Coordinator → Coordinator
deliver signal c = if c.listening then latch signal c else c

-- `checkpoint`: the `SignalInterruption` that it throws, if any
unfoldable pub checkpoint : InstallPhase → Coordinator → Option (Signal × InstallPhase)
checkpoint phase c = elim c.interrupted_by [ none ↦ none | some signal ↦ some (signal, phase) ]

pub data Call : Type 0 where
  starting disposing : Call
  signal : Signal → Call

unfoldable pub apply : Call → Coordinator → Coordinator
apply starting c = start c
apply disposing c = dispose c
apply (signal s) c = deliver s c

unfoldable pub apply_all : List Call → Coordinator → Coordinator
apply_all [] c = c
apply_all (call ∷ calls) c = apply_all calls (apply call c)

apply-latched :
    (call : Call) (c : Coordinator) (s : Signal)
    → c.interrupted_by ≡ some s
    → (apply call c).interrupted_by ≡ some s
unfolding apply start dispose deliver latch
apply-latched starting c s h = ground arith
apply-latched disposing c s h = ground arith
apply-latched (signal t) c s h = ground arith

-- The first signal that is latched stays: no later call changes what `checkpoint` throws.
pub apply_all-latched :
    (calls : List Call) (c : Coordinator) (s : Signal)
    → c.interrupted_by ≡ some s
    → (phase : InstallPhase) → checkpoint phase (apply_all calls c) ≡ some (s, phase)
unfolding apply_all checkpoint
apply_all-latched [] c s h phase = rw h
apply_all-latched (call ∷ calls) c s h phase =
    apply_all-latched calls (apply call c) s (apply-latched call c s h) phase
