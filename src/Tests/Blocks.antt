-- ===== src/Tests/Blocks.antt =====
-- The managed block in a small entry file, and what happens to a file that ends with a carriage return.
use agent_governance.Base.{◌≡◌, refl, inr, nat_eq, list_eq, ok, err, ◌>>=◌, [], ◌∷◌, ◌++◌}
use agent_governance.Base.Text.{Units, units}
use agent_governance.ManagedBlock.{
  GovernanceBinding, lf, appended, install_managed_block, remove_managed_block,
  verify_managed_block,
}
use agent_governance.ManagedBlock.Block.{HasPlainFields}
use agent_governance.ManagedBlock.Laws.{IsUnmarked}
use agent_governance.ManagedBlock.Scan.{ends_with, is_foreign, includes, starts_with}
use agent_governance.ManagedBlock.RoundTrip.{
  IsSettled, own_eol, remove_managed_block-install, verify_managed_block-install,
}

abbrev binding : GovernanceBinding
binding = record {
  version = units "1";
  installation_root = units "/r";
  governance_path = units "/g";
  manifest_path = units "/m";
  governance_digest = units "a";
  manifest_digest = units "b";
  bundle_digest = units "c";
}

abbrev notes : Units
notes = units "my notes"

plain : HasPlainFields binding
unfolding nat_eq
plain = (
  (refl, refl, refl),
  (refl, refl, refl),
  (refl, refl, refl),
  (refl, refl, refl),
  (refl, refl, refl),
  (refl, refl, refl),
  (refl, refl, refl),
)

unmarked : IsUnmarked notes
unfolding is_foreign includes starts_with nat_eq
unmarked = (refl, refl, refl)

settled : IsSettled notes
unfolding ends_with starts_with nat_eq
settled = inr refl

abbrev with_notes : Units
with_notes = appended notes (own_eol notes) binding

installs : install_managed_block notes binding ≡ ok with_notes
unfolding install_managed_block starts_with nat_eq
installs = refl

remove_managed_block-install_example : remove_managed_block with_notes ≡ ok notes
remove_managed_block-install_example =
    remove_managed_block-install notes binding plain unmarked settled installs

verify_managed_block-install_example :
    (verify_managed_block with_notes binding ≡ ok tt)
    × (install_managed_block with_notes binding ≡ ok with_notes)
verify_managed_block-install_example =
    verify_managed_block-install notes binding plain unmarked settled installs

-- the removal leaves a line feed in place of the carriage return
abbrev returned_notes : Units
returned_notes = notes ++ (b'\r' ∷ [])

loses_return :
    remove_managed_block (appended returned_notes lf binding) ≡ ok (notes ++ (b'\n' ∷ []))
unfolding remove_managed_block appended starts_with ends_with includes nat_eq
loses_return = refl

-- and the block that has just been installed is taken for one that was changed
rejects_return :
    (install_managed_block returned_notes binding >>= λ text. verify_managed_block text binding)
    ≡ err "managed block mismatch or tampered content"
unfolding install_managed_block verify_managed_block starts_with nat_eq list_eq ends_with includes
rejects_return = refl
