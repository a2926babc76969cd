-- ===== src/Lib.antt =====
-- Verification of the command line program and its checkpoint store.
--
-- The program installs a governance bundle for coding harnesses. Its initialisation dialogue finds
-- the harnesses, prepares tools, asks for an approval and runs a transaction for each target; a
-- planner says which resources a transaction touches, and a coordinator latches the signals that
-- interrupt it. Beside it, a store keeps the checkpoints of a resumable task in an append-only
-- directory and guards the execution of external effects, and catalogs classify work items and
-- describe the evidence by which harnesses are discovered. A hook of the harness passes each enforced
-- tool call to a pinned policy engine, and an entry file of the harness points to the governance in a
-- managed block.
--
-- The parts and their files:
--   Resume.State, Resume.Schema, Resume.Transition: src/resume-checkpoint-schema.ts. `validateState`
--     is `validate_state`, `validateCheckpoint` is `validate_checkpoint`, and `validateTransition` is
--     `validate_transition`. Where the source compares two texts of `JSON.stringify`, the model
--     compares the values. A fingerprint is a parameter on the body of a checkpoint.
--   Resume.Projection: src/resume-toon.ts, with the TOON codec as a parameter.
--   Resume.Store: `ResumeCheckpointStore` of src/resume-checkpoint.ts. The calls on the directory, the
--     observer and the JSON functions are the record `System`, over a type `W` of worlds; what
--     `publish` does is first decided (`decide`) and then carried out. `open` is not modelled.
--   Resume.Resolve: `resolveResumeCandidates` of src/resume-resolve.ts, on the model of the store.
--   WorkItems: src/work-items.ts, less the scan of titles and the loading of files.
--   Contracts: src/contracts.ts, src/errors.ts, src/planner.ts and src/signals.ts; Contracts.Effects has
--     the calls with effects, which return or throw, on a world.
--   ToolPreparation: src/init/tool-preparation/, with the programs that are run and the question to
--     the user as parameters. A call that throws carries the phase that holds when it is made.
--   Init: `runInit` and `runInitTools` of src/init/orchestrator.ts, src/init/bindings.ts and
--     src/init/support.ts. A call inside the `try` is an `attempt`, which is given the results that the
--     `catch` would report. The signals that arrive between two worlds are a parameter.
--   Discovery: src/discovery-catalog.ts, with the TOML parser and the names of the governance contract
--     as parameters.
--   Enforcement: integrations/microsoft-agent-governance-toolkit/bridge. Enforcement.Envelope is
--     `validateEnvelope` of provider.mjs, Enforcement.Files the pinned files, Enforcement.Engine
--     `loadVerifiedPolicyEngine`, Enforcement.Provider `evaluateEnvelope`, and Enforcement.Hook the
--     hook codex-hook.mjs, whose `main` returns what the source writes to the standard output. Files,
--     paths and digests are records of parameters, and so are the policy engine and the verifier of
--     approvals. A `try` is a function of how the call in it ended.
--   ManagedBlock: src/managed-block.ts on the decoded text; ManagedBlock.Scan has its searches. A
--     regular expression is the search that it stands for, unit by unit.
--   Governance: Governance.Routing is src/routing-catalog.ts, with the TOML parser and the field names of
--     the contract as parameters, and Governance.Dependencies the walk through the dependencies of the
--     modules in `validateIndex` of src/governance-contract.ts. The sets of the source are lists.
--   Toml: the readers of src/closed-toml.ts for parsed tables; the line parser is a parameter.
--   Base: strings as UTF-16 code units, JSON values, dictionaries, regular expressions.
--   Tests: the theorems at concrete inputs.
--
-- Bounds: numbers are natural numbers, and where the source asks for a safe integer the bound
-- 9007199254740991 is checked. Every loop is structural recursion; only two have fuel. The repetition
-- of a regular expression has the length of the rest, since each round takes at least one unit; the
-- walk through the dependencies has one step more than there are modules, since each step down adds a
-- module to those that are being visited.
--
-- Not modelled: the transaction and its file system calls, the terminal interface, the command line,
-- the other catalogs and the files that `validateIndex` reads, generated data, build tools and the
-- copies of other projects below integrations. Of the bridge, the run of the verified modules in a
-- virtual machine is a parameter.
pub mod Base
pub mod Contracts
pub mod ToolPreparation
pub mod Toml
pub mod Resume
pub mod WorkItems
pub mod Init
pub mod Discovery
pub mod Enforcement
pub mod ManagedBlock
pub mod Governance
pub mod Tests
