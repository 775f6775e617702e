-- ===== src/Tests.antt =====
-- The theorems at concrete inputs, and the test data.
pub mod World
pub mod Serde
pub mod Trees
pub mod Chunks
pub mod Headers
pub mod Templates
pub mod Programs
pub mod Outputs
