-- ===== src/Fs/Invariant.antt =====
-- The well-formed states of the file system, and the calls of fs/operations.c on them.
pub mod Defs
pub mod Links
pub mod Root
pub mod Inodes
pub mod Steps
pub mod Blocks
pub mod Unlink
pub mod Linking
pub mod Opening
pub mod Creating
pub mod OpenPath
pub mod CreateMode
pub mod Init
pub mod Closing
pub mod LinkInode
pub mod SymLink
pub mod Writing
pub mod WriteFile
pub mod Written
pub mod WriteCall
pub mod Sample
mod Tests
