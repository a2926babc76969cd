-- ===== src/ToolPreparation/Run/Laws.antt =====
-- What the orchestrator of the preparation may change, and what it returns and throws.
use agent_governance.Base.{
  String, ◌≡◌, Bool, true, false, not, ◌||◌, Option, none, some, List, [], ◌∷◌, arith, Bool-cases,
  inl, inr, All,
}
use agent_governance.Contracts.Types.{
  InstallPhase, planning, verifying, Thrown, interruption, failure, error,
}
use agent_governance.Contracts.Effects.{
  Outcome, returned, threw, Eff, ◌>>=◌, rethrow, Keeps, >>=-Keeps, >>=-at, rethrow-at, on_throw,
  continue,
}
use agent_governance.ToolPreparation.Types.{ToolResult, ToolModule}
use agent_governance.ToolPreparation.Run.{
  with_effect, signed_in, verified, installed, inspected, prepare_tool, prepare_tools, run,
  is_missing, is_auth_required, stops,
}

-- Inspecting a tool, and preparing it without any authorization, keep `P`.
abbrev pub Quiet : {W : Type 0} → (W → Type 0) → ToolModule W → Type 0
Quiet P m = Keeps P m.inspect × Keeps P (m.prepare false false)

abbrev pub Refused : {W : Type 0} → (W → Type 0) → Outcome Bool → W → Type 0
Refused P (returned allowed) w = (allowed ≡ false) × P w
Refused P (threw t) w = P w

-- The user answers no question with yes, and `P` is kept.
abbrev pub Declines : {W : Type 0} → (W → Type 0) → (ToolModule W → String → Eff W Bool) → Type 0
Declines {W} P authorize =
    (m : ToolModule W) (s : String) (w : W)
    → P w
    → Refused P (authorize m s w).0 (authorize m s w).1

module _ {W : Type 0} (P : W → Type 0) (authorize : ToolModule W → String → Eff W Bool)
    (declines : Declines P authorize) where
  declined :
      {B : Type 0} (f : Thrown → Thrown) (m : ToolModule W) (s : String) (k : Bool → Eff W B)
      → Keeps P (k false)
      → Keeps P (rethrow f (authorize m s) >>= k)
  declined f m s k h w p =
      >>=-at P (Refused P) (rethrow f (authorize m s)) k w
        (rethrow-at (Refused P) f (authorize m s) w (declines m s w p) λ t v q. q) (λ t v q. q)
        (λ a v q. rw q.0 (h v q.1))

  plainly_declined :
      {B : Type 0} (m : ToolModule W) (s : String) (k : Bool → Eff W B)
      → Keeps P (k false)
      → Keeps P (authorize m s >>= k)
  plainly_declined m s k h w p =
      >>=-at P (Refused P) (authorize m s) k w (declines m s w p) (λ t v q. q)
        (λ a v q. rw q.0 (h v q.1))

  module _ (m : ToolModule W) (quiet : Quiet P m) where
    signed_in_keeps :
        (context : Option String) (state : ToolResult)
        → Keeps P (signed_in authorize m context state)
    unfolding signed_in
    signed_in_keeps context state = elim (Bool-cases (is_auth_required state.status)) [
      | inl asked ↦ rw asked (
          declined (with_effect planning context) m _ _ (
            >>=-Keeps P (rethrow (with_effect verifying context) (m.prepare false false)) _ quiet.1
              λ r w p. p))
      | inr silent ↦ rw silent (λ w p. p)
    ]

    inspected_keeps : (state : ToolResult) → Keeps P (inspected authorize m state)
    unfolding inspected installed
    inspected_keeps state = elim (Bool-cases (is_missing state.status)) [
      | inl asked ↦
          rw asked
            (plainly_declined m _ _ (>>=-Keeps P (m.prepare false false) _ quiet.1 λ r w p. p))
      | inr there ↦ rw there (signed_in_keeps none state)
    ]

    prepare_tool_keeps : Keeps P (prepare_tool authorize m)
    unfolding prepare_tool
    prepare_tool_keeps = >>=-Keeps P m.inspect _ quiet.0 inspected_keeps

  prepare_tools_keeps :
      (ms : List (ToolModule W)) → All (Quiet P) ms → Keeps P (prepare_tools authorize ms)
  unfolding prepare_tools
  prepare_tools_keeps [] q = λ w p. p
  prepare_tools_keeps (m ∷ ms) (q, qs) =
      >>=-Keeps P (prepare_tool authorize m) _ (prepare_tool_keeps m q)
        λ r. >>=-Keeps P (prepare_tools authorize ms) _ (prepare_tools_keeps ms qs) λ rs w p. p

-- A user who answers no question with yes has nothing changed: a property of the world that the
-- inspection of each tool, its preparation without any authorization and the questions keep is kept
-- by `run`.
pub run-Keeps :
    {W : Type 0} (P : W → Type 0) (authorize : ToolModule W → String → Eff W Bool)
    (modules : List (ToolModule W)) (skip_tools : Bool)
    → Declines P authorize
    → All (Quiet P) modules
    → (w : W) → P w
    → P (run authorize modules skip_tools w).1
unfolding run
run-Keeps P authorize modules true d q = λ w p. p
run-Keeps P authorize modules false d q = prepare_tools_keeps P authorize d modules q

abbrev pub NamesEffect : {W A : Type 0} → Outcome A × W → Type 0
NamesEffect (threw (interruption i), w) = i.external_effect ≡ true
NamesEffect _ = Unit

module _ {W : Type 0} where
  caught :
      {A : Type 0} (phase : InstallPhase) (resource : String) (m : Eff W A) (w : W)
      → NamesEffect (rethrow (with_effect phase (some resource)) m w)
  unfolding with_effect
  caught {A} phase resource m w = split (m w).0 (m w).1
    where
      split :
          (o : Outcome A) (v : W) → NamesEffect (on_throw (with_effect phase (some resource)) o, v)
      split (returned a) v = tt
      split (threw (interruption i)) v = ground arith
      split (threw (failure f)) v = tt
      split (threw (error e)) v = tt

  named :
      {A B : Type 0} (m : Eff W A) (f : A → Eff W B) (w : W)
      → NamesEffect (m w)
      → ((a : A) (v : W) → NamesEffect (f a v))
      → NamesEffect ((m >>= f) w)
  named {A} {B} m f w h k = split (m w).0 (m w).1 h
    where
      split : (o : Outcome A) (v : W) → NamesEffect (o, v) → NamesEffect (continue o v f)
      split (returned a) v q = k a v
      split (threw (interruption i)) v q = q
      split (threw (failure e)) v q = tt
      split (threw (error e)) v q = tt

  signed_in_named :
      (authorize : ToolModule W → String → Eff W Bool) (m : ToolModule W) (resource : String)
      (state : ToolResult) (w : W)
      → NamesEffect (signed_in authorize m (some resource) state w)
  unfolding signed_in
  signed_in_named authorize m resource state w = elim (Bool-cases (is_auth_required state.status)) [
    | inl asked ↦ rw asked (
        named (rethrow (with_effect planning (some resource)) (authorize m _)) _ w
          (caught planning resource (authorize m _) w)
          λ allowed v.
            named (rethrow (with_effect verifying (some resource)) (m.prepare false allowed)) _ v
              (caught verifying resource (m.prepare false allowed) v) λ r u. tt)
    | inr silent ↦ rw silent tt
  ]

-- Once the preparation of a tool has reported an effect outside the program, an interruption of the
-- calls that follow names an external effect.
pub installed-NamesEffect :
    {W : Type 0} (authorize : ToolModule W → String → Eff W Bool) (m : ToolModule W)
    (allowed : Bool) (result : ToolResult) (resource : String)
    → result.effect_context ≡ some resource
    → (w : W) → NamesEffect (installed authorize m allowed result w)
unfolding installed verified
installed-NamesEffect authorize m allowed result resource same w =
    elim (Bool-cases (not allowed || stops result.status)) [
      | inl stopped ↦ rw stopped tt
      | inr on ↦
          simp (on, same)
            (named (rethrow (with_effect verifying (some resource)) m.inspect) _ w
              (caught verifying resource m.inspect w) (signed_in_named authorize m resource))
    ]
