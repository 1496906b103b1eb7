-- ===== src/Tests.antt =====
-- The theorems at concrete inputs, and runs of the definitions.
mod Values
mod Scoring
mod Planning
mod Acting
pub mod Watching
pub mod Passing
pub mod Storing
pub mod Serving
pub mod Notifying
pub mod Loading
