-- ===== src/Queue.antt =====
-- The bounded queue of tasks between the broker's main thread and its workers
-- (producer-consumer/producer-consumer.c). A client sees the oldest element first.
pub mod Defs
pub mod Fifo
pub mod Runs
pub mod Threads
pub mod Exclusion
pub mod ThreadRuns
mod Tests
