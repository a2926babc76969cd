-- ===== src/Enforcement/Hook/Input/Payload.antt =====
-- The payload of the standard input of
-- integrations/microsoft-agent-governance-toolkit/bridge/codex-hook.mjs.
use agent_governance.Base.{
  ◌≡◌, refl, sym, ap, ◌∙◌, ◌↔◌, Bool, false, List, [], ◌∷◌, ◌++◌, string_eq, nat_eq, ltb, ◌≤◌,
  arith, ok, Bool-cases, inl, inr,
}
use agent_governance.Base.Text.{Units}
use agent_governance.Enforcement.Hook.Input.{
  max_input_bytes, bytes_after, byte_length, read_chunks, is_high,
}

-- the chunks in their order
abbrev pub joined : List Units → Units
joined [] = []
joined (chunk ∷ chunks) = chunk ++ joined chunks

bytes_after-append :
    (high : Bool) (xs ys : Units) → bytes_after high xs ≤ bytes_after high (xs ++ ys)
unfolding bytes_after
bytes_after-append high [] ys = ground arith
bytes_after-append high (x ∷ xs) ys =
    ground (arith, bytes_after-append false xs ys, bytes_after-append (is_high x) xs ys)

append_assoc : (xs ys zs : Units) → (xs ++ ys) ++ zs ≡ xs ++ (ys ++ zs)
append_assoc [] ys zs = refl
append_assoc (x ∷ xs) ys zs = λ i. x ∷ append_assoc xs ys zs i

append_nil : (xs : Units) → xs ++ [] ≡ xs
append_nil [] = refl
append_nil (x ∷ xs) = λ i. x ∷ append_nil xs i

zero_bytes : byte_length [] ≤ max_input_bytes
unfolding byte_length
zero_bytes = omega arith

read_chunks-text :
    (payload : Units) (chunks : List Units) {text : Units}
    → byte_length payload ≤ max_input_bytes
    → read_chunks payload chunks ≡ ok text
    → (text ≡ payload ++ joined chunks) × (byte_length text ≤ max_input_bytes)
unfolding read_chunks
read_chunks-text payload [] {text} h e =
    let same : payload ≡ text = cc in (rw (append_nil payload) (sym same), rw (← same) h)
read_chunks-text payload (chunk ∷ chunks) {text} h e =
    elim (Bool-cases (ltb max_input_bytes (byte_length (payload ++ chunk)))) [
      | inl large ↦ absurd (let bad = simp large at e in cc)
      | inr small ↦
          let rest = read_chunks-text (payload ++ chunk) chunks (ground arith) (simp small at e) in
          (rest.0 ∙ append_assoc payload chunk (joined chunks), rest.1)
    ]

read_chunks-small :
    (payload : Units) (chunks : List Units)
    → byte_length (payload ++ joined chunks) ≤ max_input_bytes
    → read_chunks payload chunks ≡ ok (payload ++ joined chunks)
unfolding read_chunks
read_chunks-small payload [] h = ap ok (sym (append_nil payload))
read_chunks-small payload (chunk ∷ chunks) h =
    let whole = append_assoc payload chunk (joined chunks) in
    let total : byte_length ((payload ++ chunk) ++ joined chunks) ≤ max_input_bytes = rw whole h in
    let part = bytes_after-append false (payload ++ chunk) (joined chunks) in
    let small : ltb max_input_bytes (byte_length (payload ++ chunk)) ≡ false = ground arith in
    simp small (rw (← whole) (read_chunks-small (payload ++ chunk) chunks total))

-- The input is the text that the chunks make, if its bytes are not too many; otherwise it is refused.
pub read_chunks_iff :
    (chunks : List Units) (text : Units)
    → (read_chunks [] chunks ≡ ok text)
      ↔ ((text ≡ joined chunks) × (byte_length text ≤ max_input_bytes))
read_chunks_iff chunks text = (
  read_chunks-text [] chunks (zero_bytes),
  λ h. rw (h.0) (read_chunks-small [] chunks (rw (← (h.0)) h.1)),
)
