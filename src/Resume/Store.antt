-- ===== src/Resume/Store.antt =====
-- `ResumeCheckpointStore` of src/resume-checkpoint.ts. The directory's files are reached by system
-- calls: these, `JSON.parse` and `JSON.stringify` are parameters.
pub mod History
pub mod Publish
pub mod Effect
pub mod Laws
pub mod Sound
pub mod Returned
pub mod Safety
pub mod Dispatch
