-- ===== src/Broker/Publish.antt =====
-- The handler of a publisher (mbroker/mbroker.c), over the file system of fs/operations.c. The threads
-- that wait for the box's condition variable are not part of the state that a handler sees.
use project_so.Fs.Files.{tfs_write, tfs_close}
use project_so.Prelude.{
  ℕ, suc, ◌+◌, ◌%◌, ◌^◌, Bool, true, false, not, ltb, ◌&&◌, Option, none, some, List, [], ◌∷◌, ◌++◌,
  ◌==◌, length,
}
use project_so.Memory.Bytes.{Memory}
use project_so.Memory.Arrays.{string_of, is_terminated}
use project_so.Broker.Types.{
  done, undefined, not_defined, M, pure, exit, choose, lift, ◌>>=◌, ◌>>◌, get, lock, unlock,
}
use project_so.Fs.Types.{OpenMode}
use project_so.Fs.Operations.{tfs_open}
use project_so.Wire.Pipeflow.{
  Request, request, messages_pipe, response_manager, list_manager_response, list_manager_request,
  request_new_password,
}
use project_so.Wire.Reader.{reader_stc}
use project_so.Broker.Manager.{find_box, right_password, set_box, set_worker_box, set_index}

-- What read() answers: a message of some bytes, of which the array then holds these, or -1.
pub data Read : Type 0 where
  received : Memory → Read
  failed_read : Read

-- The publisher's pipe: whether it opens, what its reads answer before one finds its end, and whether
-- `status` is END before the k-th read.
pub record Source : Type 0 where
  pub opens : Bool
  pub reads : List Read
  pub ended : ℕ → Bool

abbrev pub publish_mode : OpenMode
publish_mode = record { creat = false; trunc = false; append = true }

-- my_open of the publisher's pipe.
abbrev pub open_source : Source → M (Unit {0}) → M (Unit {0})
open_source source m = choose source.opens m exit

-- The sum of two ints, the second not negative, is more than an int holds.
abbrev pub int_overflow : ℕ → ℕ → Bool
int_overflow v n = ltb v (2 ^ 31) && not (ltb (v + n) (2 ^ 31))

-- `box_size += (int) strlen(message)` of the worker's box. C does not define a sum that is more than an
-- int holds.
unfoldable pub add_size_of : ℕ → List ℕ → M (Unit {0})
add_size_of worker message = do
  b ← get
  choose (int_overflow (b.server_boxes (b.thread_pool worker)).box_size (length message))
      not_defined
      (set_worker_box worker
        (λ x. record x { box_size = (x.box_size + length message % 2 ^ 32) % 2 ^ 32 }))

-- The loop over the reads, the `k`-th first: whether it ends in a break. The message and the 0 behind
-- it are written to the file; C does not define the strlen of a message without a 0.
unfoldable pub publish : ℕ → ℕ → (ℕ → Bool) → ℕ → List Read → M Bool
publish worker fd_tfs ended k [] b = elim (ended k) [ true ↦ done false b | false ↦ done true b ]
publish worker fd_tfs ended k (failed_read ∷ reads) b = elim (ended k) [
  | true ↦ done false b
  | false ↦ publish worker fd_tfs ended (suc k) reads b
]
publish worker fd_tfs ended k (received m ∷ reads) b = elim (ended k) [
  | true ↦ done false b
  | false ↦ elim (reader_stc m) [
    | messages_pipe r ↦
        (choose (not (is_terminated r.message)) not_defined do
          bytes_tfs ←
              lift (
                tfs_write fd_tfs (string_of r.message ++ 0 ∷ []) (length (string_of r.message) + 1))
          elim bytes_tfs [
            | none ↦ pure true
            | some n ↦ do
              add_size_of worker (string_of r.message)
              publish worker fd_tfs ended (suc k) reads
          ])
          b
    | request r ↦ undefined
    | response_manager r ↦ undefined
    | list_manager_response r ↦ undefined
    | list_manager_request r ↦ undefined
    | request_new_password r ↦ undefined
  ]
]

-- From the call of tfs_open on. Where the file does not open, or `status` is END, `n_pub` stays 1.
unfoldable pub publish_session : ℕ → Source → Option ℕ → M (Unit {0})
publish_session worker source none = pure tt
publish_session worker source (some fd_tfs) = do
  broke ← publish worker fd_tfs source.ended 0 source.reads
  rc ← lift (tfs_close fd_tfs)
  choose broke (set_worker_box worker (λ x. record x { n_pub = 0 })) (pure tt)

-- `tester` is 0: the pipe is opened and closed under the lock.
unfoldable pub turn_away : Source → M (Unit {0})
turn_away source = open_source source unlock

unfoldable pub publisher_found : ℕ → ℕ → Source → Request → Option ℕ → M (Unit {0})
publisher_found fuel worker source r none = turn_away source
publisher_found fuel worker source r (some i) = do
  b ← get
  choose ((b.server_boxes i).n_pub == 1) (do unlock; open_source source (pure tt))
      do
        choose (not (right_password b i r.box_password)) (turn_away source) do
          set_index worker i
          set_box i (λ x. record x { n_pub = 1; box_size = 0 })
          unlock
          open_source source do
            fd_tfs ← lift (tfs_open fuel (some (string_of r.box_name)) publish_mode)
            publish_session worker source fd_tfs

unfoldable pub process_pub : ℕ → ℕ → Source → Request → M (Unit {0})
process_pub fuel worker source r = do
  lock
  b ← get
  publisher_found fuel worker source r (find_box b r.box_name)
