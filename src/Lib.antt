-- ===== src/Lib.antt =====
-- A verification library for the message broker of this repository and the file system that it runs on.
--
-- The program. TecnicoFS (fs/) is a file system in memory with one directory: fs/state.c keeps the
-- tables of inodes, data blocks and open files, and fs/operations.c is the interface over them. The
-- broker (mbroker/mbroker.c) keeps a file for each message box. Its main thread puts the requests of
-- clients in a queue (producer-consumer/), worker threads take them out; broker and clients
-- (manager/, publisher/, subscriber/) exchange the messages of utils/pipeflow.h over named pipes,
-- laid out by utils/writer_stc.c and read by utils/reader_stc.c.
--
-- The files.
--   Prelude, Memory     shared names; bytes at addresses, C strings and the search loop
--   Fs/Types, Fs/Monad  the state of fs/state.c as a record; how a call returns or does not
--   Fs/State            fs/state.c: state_init, inode_create, inode_delete, data_block_alloc,
--                       add_to_open_file_table and the other calls on tables, by their names
--   Fs/Directory        fs/state.c: find_in_dir, add_dir_entry, clear_dir_entry, get_path_recursive
--   Fs/Operations       fs/operations.c: tfs_init, tfs_open, tfs_link, tfs_sym_link, tfs_unlink
--   Fs/Files            fs/operations.c: tfs_close, tfs_write, tfs_read, tfs_copy_from_external_fs
--   Fs/Entries          the bytes of a directory after an entry is filled or erased
--   Fs/LinkChains       chains of symbolic links in get_path_recursive
--   Fs/Invariant        the well-formedness of the file system (Defs) and the calls on it;
--                       CreateMode is about tfs_open as the broker calls it for a new box
--   Queue               producer-consumer/producer-consumer.c: Defs, the refinement to a list (Fifo),
--                       sequences of calls (Runs), and many threads as steps (Threads, Exclusion,
--                       ThreadRuns)
--   Wire                utils/pipeflow.h, utils/writer_stc.c and utils/reader_stc.c
--   Broker/Types, Texts the boxes, the state of the broker, and how a handler ends
--   Broker/Manager, Create, Listing, Publish
--                       mbroker/mbroker.c: the handlers process_manager_create, -remove, -list,
--                       -unlock, -lock and process_pub, over Fs and Wire
--   Broker/Tasks        mbroker/mbroker.c: the switch of main and the call in thread_init
--   Broker/Table        the well-formedness of the table of boxes; Claims, ClaimSteps, CreateBox,
--                       Creation, UnlinkBox, Removal, ChangePassword, Passwords, ListSent,
--                       Responses, Publishers, PublishWrites and PublishLoop are about the single
--                       handlers, Answer about what they send, Ready and Serving about one handler
--                       after the other
--   Client              manager/manager.c, publisher/pub.c, subscriber/sub.c: the first message
--                       (Requests), its way to the broker (Managing, Session), and what a manager
--                       reads: a response (Printed, Boxes, Created) and the list of boxes
--                       (Listing, Shown)
--
-- The correspondence. A static table is a function from indices in `FsState`; fs_data is a function
-- from addresses to bytes, in which the entries of a directory lie as C lays them out: 40 bytes of
-- name and an int of four bytes, the least significant first, -1 being 2^32 - 1. A pointer to an
-- inode or an open file is its index. An int result that is -1 for an error is an option or a
-- `Status`. A path is the list of its bytes, `none` for NULL. A function that is long in C is split
-- where its branches are: open_existing and create_and_open are the two halves of tfs_open. A failed
-- ALWAYS_ASSERT or a PANIC ends in `aborted`, an access that C does not define in `undefined`, and
-- size_t sums wrap at 2^64. What malloc returns is the parameter `Malloc`, the source file of
-- tfs_copy_from_external_fs its list of bytes.
--
-- Threads. In Queue/Threads a step of one thread is the taking of its side's lock, a test of the size,
-- the giving back of the lock in my_cond_wait, a return from it, or the work under
-- pcq_current_size_lock with the release of the lock. A thread that waits can return at any time, as
-- POSIX condition variables allow, so the signals have no step.
--
-- The broker. `Broker` holds the file system, the table of boxes, the index of each worker and
-- box_size_lock as a flag; a handler is a function on it that ends in a new state, or ends the process
-- (`exited`), or does what C does not define; an own lock that is locked again is such a case. ints are
-- bit patterns, a char array is the list of all its bytes, and an array without a 0 is compared to its
-- end, which strcmp does not pass either, since the names and passwords in the table end in arrays of
-- the same sizes. A strcpy of a request's strings that does not stay in the arrays, a tfs_unlink of
-- a name that does not end in its array, the strlen of a publisher's message without a 0, a write to
-- server_boxes at a worker's index outside of the table and an int size that becomes too large end in
-- `undefined`.
-- What the system answers is a parameter: `Pipe` says whether the client's pipe opens and how each
-- write ends, `Source` what a publisher's reads bring, `realloc` is NULL or the boxes behind the old
-- ones, and `stack` is what a local array holds before it is written. `sent` lists the buffers that
-- went into clients' pipes. The argument of a handler is the message that reader_stc has returned. A
-- client's main is the function from argv to its first message.
--
-- Fuel. get_path_recursive has no bound in C; its fuel is the length of the longest chain of links it
-- follows. The copy loop of tfs_copy_from_external_fs runs on the length of the source file plus
-- one, more than the rounds it can take, since each takes at least a byte.
--
-- Not modelled. Calls of the file system run one at a time: the locks of fs/state.c and the delays of
-- insert_delay are left out. So do the broker's handlers; process_sub, whose loop waits for other
-- workers, is left out, and so are the broadcasts, the signal handlers and the set-up of the threads
-- in main. The loops of publisher/pub.c and subscriber/sub.c over fgets and read, and the sorting and
-- printing of manager/manager.c, are left out. Which thread the queue's signals wake, and when, is
-- open. Freeing memory (pcq_destroy) has no counterpart. utils/safety_mechanisms.c and
-- utils/logging.c only pass calls on to the system, of which my_open and the calls on a mutex are
-- here; fs/betterassert.h only prints.
pub mod Broker
pub mod Client
pub mod Fs
pub mod Memory
pub mod Prelude
pub mod Queue
pub mod Wire
