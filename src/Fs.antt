-- ===== src/Fs.antt =====
-- TecnicoFS (fs/state.c and fs/operations.c).
pub mod Types
pub mod Monad
pub mod State
pub mod Directory
pub mod Entries
pub mod Operations
pub mod Files
pub mod LinkChains
pub mod Invariant
mod Tests
