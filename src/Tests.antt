-- ===== src/Tests.antt =====
-- The theorems at concrete requests, and runs of the methods on concrete answers.
pub mod Fixtures
pub mod Registering
pub mod Refreshing
pub mod Gating
pub mod Concurrent
pub mod Settings
pub mod Storing
pub mod Reading
pub mod Verifying
pub mod Demonstrating
