-- ===== src/Broker/Manager.antt =====
-- The handlers of the managers' requests, but for the list (mbroker/mbroker.c): creating, removing,
-- unlocking and locking a box. `stack` is what the response's text holds before it is written.
use project_so.Prelude.{ℕ, ltb, Bool, not, Option, none, some, List, ◌==◌}
use project_so.Memory.Bytes.{Memory, minus_one}
use project_so.Memory.Scan.{first_index}
use project_so.Memory.Arrays.{CharArray, string_of, same_string, zeros, strcpy, is_terminated}
use project_so.Fs.Types.{update, Status, success, failure}
use project_so.Fs.Operations.{tfs_unlink}
use project_so.Wire.Pipeflow.{
  max_box_name, max_password, max_message, Request, ResponseManager, RequestNewPassword,
  response_manager,
}
use project_so.Wire.Writer.{writer_stc}
use project_so.Broker.Texts.{
  removal_failed, removal_wrong_password, no_such_box, wrong_password_text,
}
use project_so.Broker.Types.{
  Box, Broker, M, pure, exit, not_defined, choose, lift, ◌>>=◌, ◌>>◌, get, modify, Write, Pipe,
  lock, unlock, is_broken, write,
}

-- The test of the loops that look for a box, and what they find: the first index.
abbrev pub has_name : (ℕ → Box) → CharArray → ℕ → Bool
has_name boxes name i = same_string name (boxes i).box_name

abbrev pub find_box : Broker → CharArray → Option ℕ
find_box b name = first_index (has_name b.server_boxes name) 0 b.size_boxes

abbrev pub right_password : Broker → ℕ → CharArray → Bool
right_password b i password = same_string (b.server_boxes i).box_password password

-- Writes to the fields of `server_boxes[i]`, and `thread_pool[*index].index = i`.
abbrev pub set_box : ℕ → (Box → Box) → M (Unit {0})
set_box i f = modify λ b. record b { server_boxes = update b.server_boxes i (f (b.server_boxes i)) }

abbrev pub set_index : ℕ → ℕ → M (Unit {0})
set_index worker i = modify λ b. record b { thread_pool = update b.thread_pool worker i }

-- A write to `server_boxes[thread_pool[*index].index]`. C does not define one outside of the table.
unfoldable pub set_worker_box : ℕ → (Box → Box) → M (Unit {0})
set_worker_box worker f = do
  b ← get
  choose (ltb (b.thread_pool worker) b.size_boxes) (set_box (b.thread_pool worker) f) not_defined

-- The variable `tester` of the handlers that change a password: 0, -1 and 1.
pub data Tester : Type 0 where
  missing wrong_password found : Tester

abbrev pub accepted : ℕ → ResponseManager
accepted code = record { code = code; return_code = 0; error_message = zeros max_message }

abbrev pub refused : ℕ → CharArray → List ℕ → ResponseManager
refused code stack text = record {
  code = code;
  return_code = minus_one;
  error_message = strcpy stack text;
}

abbrev pub password_response : ℕ → CharArray → Tester → ResponseManager
password_response code stack found = accepted code
password_response code stack missing = refused code stack no_such_box
password_response code stack wrong_password = refused code stack wrong_password_text

-- writer_stc and the write of its buffer.
unfoldable pub send : CharArray → Write → Memory → ResponseManager → M (Unit {0})
send pipe_name w buffer response =
    elim (writer_stc (response_manager response) response.code buffer) [
      | none ↦ not_defined
      | some written ↦ write pipe_name w written
    ]

-- The search and the change under the lock, in the handlers that change a password.
unfoldable pub change_password :
    ℕ → CharArray → CharArray → (CharArray → CharArray) → Option ℕ → M Tester
change_password worker name password new none = pure missing
change_password worker name password new (some i) = do
  b ← get
  choose (not (right_password b i password)) (pure wrong_password) do
    set_index worker i
    set_box i (λ x. record x { box_password = new x.box_password })
    pure found

unfoldable pub password_handler :
    ℕ → ℕ → Pipe → Memory → CharArray → Request → (CharArray → CharArray) → M (Unit {0})
password_handler code worker pipe buffer stack r new = do
  lock
  b ← get
  tester ← change_password worker r.box_name r.box_password new (find_box b r.box_name)
  unlock
  choose pipe.opens (send r.pipe_name (pipe.writes 0) buffer (password_response code stack tester))
      (pure tt)

unfoldable pub process_manager_unlock : ℕ → Pipe → Memory → CharArray → Request → M (Unit {0})
process_manager_unlock worker pipe buffer stack r =
    password_handler 12 worker pipe buffer stack r (λ _. zeros max_password)

unfoldable pub process_manager_lock :
    ℕ → Pipe → Memory → CharArray → RequestNewPassword → M (Unit {0})
process_manager_lock worker pipe buffer stack r =
    password_handler 14 worker pipe buffer stack r.request_lock (λ old. strcpy old r.new_password)

-- my_open: a pipe that does not open ends the process.
unfoldable pub open_or_exit : Pipe → M (Unit {0}) → M (Unit {0})
open_or_exit pipe m = choose pipe.opens m exit

-- The box of `thread_pool[*index].index` becomes free.
abbrev pub emptied : Box → Box
emptied x = record x {
  free = 0;
  n_pub = 0;
  n_subs = 0;
  box_size = 0;
  box_name = zeros max_box_name;
  box_password = zeros max_password;
}

-- From the call of tfs_unlink on.
unfoldable pub removal_response : ℕ → CharArray → Status → M ResponseManager
removal_response worker stack failure = pure (refused 6 stack removal_failed)
removal_response worker stack success = do set_worker_box worker emptied; pure (accepted 6)

-- A name without its ending 0 is read past the end of its array, which C does not define.
unfoldable pub unlink_box : ℕ → Pipe → Memory → CharArray → Request → M (Unit {0})
unlink_box worker pipe buffer stack r = choose (not (is_terminated r.box_name)) not_defined do
  tester ← lift (tfs_unlink (some (string_of r.box_name)))
  response ← removal_response worker stack tester
  choose pipe.opens (send r.pipe_name (pipe.writes 0) buffer response) (pure tt)
  unlock

-- The answer to a wrong password; a write that fails with EPIPE ends the process.
unfoldable pub refuse_removal : Pipe → Memory → CharArray → Request → M (Unit {0})
refuse_removal pipe buffer stack r = do
  unlock
  open_or_exit pipe do
    send r.pipe_name (pipe.writes 0) buffer (refused 6 stack removal_wrong_password)
    choose (is_broken (pipe.writes 0)) exit (pure tt)

unfoldable pub remove_found : ℕ → Pipe → Memory → CharArray → Request → Option ℕ → M (Unit {0})
remove_found worker pipe buffer stack r none = unlink_box worker pipe buffer stack r
remove_found worker pipe buffer stack r (some i) = do
  b ← get
  choose ((b.server_boxes i).free == 0) unlock do
    choose (not (right_password b i r.box_password)) (refuse_removal pipe buffer stack r)
        do set_index worker i; unlink_box worker pipe buffer stack r

unfoldable pub process_manager_remove : ℕ → Pipe → Memory → CharArray → Request → M (Unit {0})
process_manager_remove worker pipe buffer stack r = do
  lock
  b ← get
  remove_found worker pipe buffer stack r (find_box b r.box_name)
