-- ===== src/Broker/Tasks.antt =====
-- The tasks of mbroker/mbroker.c: how main chooses the handler of a buffer, and how a worker runs it.
use project_so.Prelude.{ℕ, Option, none, some, ◌==◌, if◌then◌else◌}
use project_so.Memory.Bytes.{Memory, load}
use project_so.Memory.Arrays.{CharArray}
use project_so.Broker.Types.{Box, M, not_defined, Pipe}
use project_so.Wire.Fields.{from_bytes}
use project_so.Wire.Pipeflow.{
  ListManagerResponse, Message, request, list_manager_request, request_new_password,
}
use project_so.Wire.Reader.{reader_stc}
use project_so.Broker.Manager.{process_manager_unlock, process_manager_lock, process_manager_remove}
use project_so.Broker.Create.{process_manager_create}
use project_so.Broker.Listing.{process_manager_list}

-- The functions that `newtask->function` points to.
pub data ManagerHandler : Type 0 where
  create remove list unlock_box lock_box : ManagerHandler

pub data Handler : Type 0 where
  process_pub : Handler
  process_sub : Handler
  process_manager : ManagerHandler → Handler

-- The switch on the first byte; without a case the pointer is left as it is.
abbrev pub handler_of : ℕ → Option Handler
handler_of code_pipe =
    if code_pipe == 1
    then some process_pub
    else if code_pipe == 2
    then some process_sub
    else if code_pipe == 3
    then some (process_manager create)
    else if code_pipe == 5
    then some (process_manager remove)
    else if code_pipe == 7
    then some (process_manager list)
    else if code_pipe == 11
    then some (process_manager unlock_box)
    else if code_pipe == 13
    then some (process_manager lock_box)
    else none

pub record Task : Type 0 where
  pub function : Option Handler
  pub argument : Message

-- One turn of main's loop, from the buffer that is read to the task that is enqueued.
unfoldable pub new_task : Memory → Task
new_task buffer = record {
  function = handler_of (from_bytes (load buffer 0 1));
  argument = reader_stc buffer;
}

-- What a handler finds: its worker's index, what realloc returns, the client's pipe, and what its
-- local arrays hold.
pub record Environment : Type 0 where
  pub fuel : ℕ
  pub worker : ℕ
  pub realloc : Option (ℕ → Box)
  pub pipe : Pipe
  pub buffer : Memory
  pub stack : CharArray
  pub list_stack : ℕ → ListManagerResponse

-- `newtask->function(newtask->request, index)` for the managers' handlers. The handler casts its
-- argument; C does not define a cast to another type than the one that reader_stc gave it.
unfoldable pub run_manager : Environment → ManagerHandler → Message → M (Unit {0})
run_manager v create (request r) =
    process_manager_create v.fuel v.worker v.realloc v.pipe v.buffer v.stack r
run_manager v remove (request r) = process_manager_remove v.worker v.pipe v.buffer v.stack r
run_manager v list (list_manager_request r) = process_manager_list v.pipe v.buffer v.list_stack r
run_manager v unlock_box (request r) = process_manager_unlock v.worker v.pipe v.buffer v.stack r
run_manager v lock_box (request_new_password r) =
    process_manager_lock v.worker v.pipe v.buffer v.stack r
run_manager v h argument = not_defined
