-- ===== src/Wire.antt =====
-- The messages on the pipes between the broker and its clients: utils/pipeflow.h,
-- utils/writer_stc.c and utils/reader_stc.c.
pub mod Fields
pub mod Pipeflow
pub mod Writer
pub mod Reader
pub mod Roundtrip
pub mod Dispatch
mod Tests
