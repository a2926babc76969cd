-- ===== src/Resume/Schema/Members.antt =====
-- The entries of the arrays and of `identities` that `validateState` reads.
use agent_governance.Base.{
  String, Bool, true, false, not, Option, none, some, List, [], ◌∷◌, ◌==◌, string_eq, nat_eq,
  if◌then◌else◌, length, Result, ok, ◌>>=◌, ◌>>◌, reject_if,
}
use agent_governance.Base.Json.{Json, null, get}
use agent_governance.Base.Text.{before}
use agent_governance.Resume.State.{
  EffectState, committed, not_applied, ExternalEffect, EvidenceReference,
}
use agent_governance.Resume.Schema.Fields.{record_of, text, strings}
use agent_governance.Resume.Schema.Names.{effect_state_of}

abbrev pub is_null : Option Json → Bool
is_null (some null) = true
is_null _ = false

-- `value === null ? null : text(value)`
unfoldable pub nullable_text : Option Json → Result (Option String)
nullable_text (some null) = ok none
nullable_text o = do s ← text o; ok (some s)

abbrev pub confirmed : EffectState → Bool
confirmed committed = true
confirmed not_applied = true
confirmed _ = false

abbrev pub effect_keys : List String
effect_keys =
    "operationId" ∷ "target" ∷ "action" ∷ "inputBindings" ∷ "state" ∷ "readbackReference" ∷ []

unfoldable pub effect_of : Json → Result ExternalEffect
effect_of item = do
  e ← record_of (some item) effect_keys
  state ← effect_state_of (get "state" e)
  reject_if
      (if confirmed state
        then is_null (get "readbackReference" e)
        else not (is_null (get "readbackReference" e)))
      "invalid resume checkpoint: effect readback binding"
  inputs ← strings (get "inputBindings" e)
  reject_if (length inputs == 0) "invalid resume checkpoint: effect inputs are unbound"
  operation_id ← text (get "operationId" e)
  target ← text (get "target" e)
  action ← text (get "action" e)
  reference ← nullable_text (get "readbackReference" e)
  ok (record {
    operation_id = operation_id;
    target = target;
    action = action;
    input_bindings = inputs;
    state = state;
    readback_reference = reference;
  })

unfoldable pub reference_of : Json → Result EvidenceReference
reference_of item = do
  r ← record_of (some item) ("id" ∷ "reference" ∷ [])
  id ← text (get "id" r)
  reference ← text (get "reference" r)
  ok (record { id = id; reference = reference })

-- `entries.sort(([a], [b]) => a < b ? -1 : …)`
insert_entry : String × Json → List (String × Json) → List (String × Json)
insert_entry e [] = e ∷ []
insert_entry (k, v) ((j, w) ∷ r) =
    if before j k then (j, w) ∷ insert_entry (k, v) r else (k, v) ∷ (j, w) ∷ r

unfoldable pub sort_entries : List (String × Json) → List (String × Json)
unfolding insert_entry
sort_entries [] = []
sort_entries (e ∷ es) = insert_entry e (sort_entries es)

unfoldable pub identity_entries : List (String × Json) → Result (List (String × String))
identity_entries [] = ok []
identity_entries ((k, v) ∷ r) = do s ← text (some v); rest ← identity_entries r; ok ((k, s) ∷ rest)
