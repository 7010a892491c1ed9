-- ===== src/Tests.antt =====
-- Tests of the definitions on concrete inputs, and the theorems at such inputs.
pub mod Chunks
pub mod Caches
pub mod Picks
pub mod Queues
pub mod Uris
pub mod Escapes
pub mod Sessions
pub mod Buffers
pub mod Merges
pub mod Ids
pub mod Purges
pub mod Headers
pub mod HttpCaches
