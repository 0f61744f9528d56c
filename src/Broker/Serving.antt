-- ===== src/Broker/Serving.antt =====
-- The managers' tasks of mbroker/mbroker.c, run one after the other.
use project_so.Prelude.{ℕ, ◌<◌, ◌≡◌, sym, subst, true, false, some, List, ◌∷◌, length, none}
use project_so.Memory.Bytes.{Memory}
use project_so.Memory.Arrays.{CharArray, string_of, zeros, strcpy}
use project_so.Broker.Types.{Broker, done, Pipe, is_broken}
use project_so.Wire.Pipeflow.{
  max_password, max_message, Request, ListManagerResponse, ListManagerRequest, RequestNewPassword,
  Message, request, list_manager_request, request_new_password,
}
use project_so.Broker.Manager.{
  process_manager_unlock, process_manager_lock, process_manager_remove, find_box,
}
use project_so.Broker.Create.{process_manager_create}
use project_so.Broker.Listing.{process_manager_list}
use project_so.Broker.Answer.{Returns, Returns-weaken, locked}
use project_so.Broker.Table.{IsBoxRequest}
use project_so.Fs.Invariant.Defs.{IsWf}
use project_so.Fs.Invariant.Unlink.{IsPath}
use project_so.Fs.Invariant.Root.{root_index}
use project_so.Fs.Directory.{is_soft_link, d_inumber}
use project_so.Broker.ClaimSteps.{ReallocOk}
use project_so.Broker.Creation.{process_manager_create-CreationDone}
use project_so.Broker.Removal.{process_manager_remove-RemovalDone}
use project_so.Broker.Passwords.{
  PasswordPost, process_manager_unlock-PasswordPost, process_manager_lock-PasswordPost,
}
use project_so.Broker.ListSent.{ListSent, TakesAll}
use project_so.Broker.Tasks.{
  ManagerHandler, create, remove, list, unlock_box, lock_box, process_manager, new_task,
  Environment, run_manager,
}
use project_so.Broker.Responses.{IntsOk, StackOk, responses, process_manager_list-ListSent}
use project_so.Broker.Ready.{Ready, Ready-RemovalDone, Ready-CreationDone}

-- The pipe opens and is not broken, and the text of the response has its size.
pub record EnvironmentOk (v : Environment) : Type 0 where
  pub opens : v.pipe.opens ≡ true
  pub listens : is_broken (v.pipe.writes 0) ≡ false
  pub size : length v.stack ≡ max_message

-- The box's name is a slash and a file's name, that of no soft link.
abbrev pub NamesFile : Broker → Request → Type 0
NamesFile b r =
    (c : ℕ) × (name : List ℕ) × (string_of r.box_name ≡ c ∷ name)
    × IsPath (some (c ∷ name))
    × ((k : ℕ)
        → root_index b.fs name ≡ some k
        → is_soft_link (b.fs.inode_table (d_inumber b.fs.fs_data 0 k)).i_node_type ≡ false)

-- What a task needs of its argument.
abbrev pub Served : Broker → Environment → ManagerHandler → Message → Type 0
Served b v create (request r) = ReallocOk (locked b) v.realloc × IsBoxRequest r × NamesFile b r
Served b v remove (request r) =
    NamesFile b r
    × (length (string_of r.box_name) < length r.box_name)
    × (find_box b r.box_name ≡ none → b.thread_pool v.worker < b.size_boxes)
Served b v list (list_manager_request r) = IntsOk b × StackOk v.list_stack × TakesAll v.pipe
Served b v unlock_box (request r) = Unit
Served b v lock_box (request_new_password r) = length (string_of r.new_password) < max_password
Served b v h argument = ⊥

Ready-PasswordPost :
    (b : Broker) (worker : ℕ) (pipe : Pipe) (stack : CharArray) (r : Request)
    (new : CharArray → CharArray) (code : ℕ) (d : Broker)
    → Ready b
    → PasswordPost b worker pipe stack r new code tt d
    → Ready d
Ready-PasswordPost b worker pipe stack r new code d ready (table, free_lock, same_fs, h) =
    (table, subst IsWf (sym same_fs) ready.1, free_lock)

Ready-ListSent :
    (b : Broker) (pipe_name : CharArray) (xs : List ListManagerResponse) (d : Broker)
    → Ready b
    → ListSent b pipe_name xs tt d
    → Ready d
Ready-ListSent b pipe_name xs d ready (ms, delivered, same) = subst Ready (sym same) ready

module _ (b : Broker) (v : Environment) (ready : Ready b) (ok : EnvironmentOk v) where
  create-Ready :
      (r : Request)
      → Served b v create (request r)
      → Returns (λ _ d. Ready d) (run_manager v create (request r) b)
  unfolding run_manager
  create-Ready r (memory, req, (c, name, e, p, plain)) =
      Returns-weaken (λ _ d. Ready d)
        (process_manager_create v.fuel v.worker v.realloc v.pipe v.buffer v.stack r b)
        (process_manager_create-CreationDone b v.fuel v.worker v.realloc v.pipe v.buffer v.stack r c
          name ready.0 memory req ready.1 ready.2 ok.opens ok.size e p plain)
        (λ u d h.
          Ready-CreationDone b v.worker v.realloc v.pipe v.stack r name d ready memory req h)

  remove-Ready :
      (r : Request)
      → Served b v remove (request r)
      → Returns (λ _ d. Ready d) (run_manager v remove (request r) b)
  unfolding run_manager
  remove-Ready r ((c, name, e, p, plain), ends, last_used) =
      Returns-weaken (λ _ d. Ready d) (process_manager_remove v.worker v.pipe v.buffer v.stack r b)
        (process_manager_remove-RemovalDone b v.worker v.pipe v.buffer v.stack r ready.2 ok.opens
          ok.listens ok.size c name ready.0 ready.1 e p ends last_used)
        (λ u d h. Ready-RemovalDone b v.worker v.pipe v.stack r name d ready h)

  list-Ready :
      (r : ListManagerRequest)
      → Served b v list (list_manager_request r)
      → Returns (λ _ d. Ready d) (run_manager v list (list_manager_request r) b)
  unfolding run_manager
  list-Ready r (ints, stack_ok, takes_all) =
      Returns-weaken (λ _ d. Ready d) (process_manager_list v.pipe v.buffer v.list_stack r b)
        (process_manager_list-ListSent b v.pipe v.buffer v.list_stack r ready.0 ready.2 ints
          stack_ok ok.opens takes_all)
        (λ u d h. Ready-ListSent b r.pipe_name (responses b v.list_stack) d ready h)

  unlock_box-Ready :
      (r : Request) → Returns (λ _ d. Ready d) (run_manager v unlock_box (request r) b)
  unfolding run_manager
  unlock_box-Ready r =
      Returns-weaken (λ _ d. Ready d) (process_manager_unlock v.worker v.pipe v.buffer v.stack r b)
        (process_manager_unlock-PasswordPost b v.worker v.pipe v.buffer v.stack r ready.0 ready.2
          ok.size)
        (λ u d h.
          Ready-PasswordPost b v.worker v.pipe v.stack r (λ _. zeros max_password) 12 d ready h)

  lock_box-Ready :
      (r : RequestNewPassword)
      → length (string_of r.new_password) < max_password
      → Returns (λ _ d. Ready d) (run_manager v lock_box (request_new_password r) b)
  unfolding run_manager
  lock_box-Ready r short =
      Returns-weaken (λ _ d. Ready d) (process_manager_lock v.worker v.pipe v.buffer v.stack r b)
        (process_manager_lock-PasswordPost b v.worker v.pipe v.buffer v.stack r ready.0 ready.2
          ok.size short)
        (λ u d h.
          Ready-PasswordPost b v.worker v.pipe v.stack r.request_lock
            (λ old. strcpy old r.new_password) 14 d ready h)

-- From a state with a well-formed table, a well-formed file system and a free lock, a manager's task,
-- with a pipe that opens and is not broken and a text of the response of its full size, ends, and in
-- such a state, if it finds what `Served` says of it: for a creation or a removal a box name of a slash
-- and a name that is no soft link's; for a creation also strings that end in arrays of a box's sizes
-- and, where no box is free, what `ReallocOk` says; for a removal also a name that ends in its array
-- and, where no box has it, the worker's index in the table; for a list 32-bit ints, a local array of
-- fields of their sizes and a pipe that takes all; for a lock a new password that fits.
pub run_manager-Ready :
    (b : Broker) (v : Environment) (h : ManagerHandler) (argument : Message)
    → Ready b
    → EnvironmentOk v
    → Served b v h argument
    → Returns (λ _ d. Ready d) (run_manager v h argument b)
run_manager-Ready b v create (request r) ready ok served = create-Ready b v ready ok r served
run_manager-Ready b v remove (request r) ready ok served = remove-Ready b v ready ok r served
run_manager-Ready b v list (list_manager_request r) ready ok served =
    list-Ready b v ready ok r served
run_manager-Ready b v unlock_box (request r) ready ok served = unlock_box-Ready b v ready ok r
run_manager-Ready b v lock_box (request_new_password r) ready ok served =
    lock_box-Ready b v ready ok r served
run_manager-Ready b v h argument ready ok served = absurd served

-- A run of the broker: tasks made of buffers that were read, each run on the state that the one before
-- has left.
pub data Reaches : Broker → Broker → Type 0 where
  no_task : {b : Broker} → Reaches b b
  one_task :
      {b c d : Broker} (v : Environment) (m : Memory) (h : ManagerHandler)
      → (new_task m).function ≡ some (process_manager h)
      → EnvironmentOk v
      → Served b v h (new_task m).argument
      → run_manager v h (new_task m).argument b ≡ done tt c
      → Reaches c d
      → Reaches b d

-- Every state that a run of managers' tasks reaches from a state with a well-formed table, a
-- well-formed file system and a free lock is one too, if each task is made of a buffer that was read,
-- finds what `Served` says of its command, and has a pipe that opens and is not broken and a text of
-- the response of its full size.
pub Reaches-Ready : (b d : Broker) → Ready b → Reaches b d → Ready d
Reaches-Ready b d ready no_task = ready
Reaches-Ready b d ready (one_task {c = c} v m h function ok served e rest) =
    Reaches-Ready c d
      (subst (Returns (λ _ x. Ready x)) e
        (run_manager-Ready b v h (new_task m).argument ready ok served))
      rest
