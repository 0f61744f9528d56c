-- ===== src/Broker/Create.antt =====
-- The handler that creates a box (mbroker/mbroker.c). `realloc` is what the call of realloc returns:
-- NULL, or memory whose part behind the old boxes holds the boxes given.
use project_so.Prelude.{
  ℕ, ◌*◌, ◌^◌, ◌&&◌, not, Bool, true, false, Option, none, some, ltb, ◌==◌, if◌then◌else◌,
}
use project_so.Memory.Bytes.{Memory}
use project_so.Memory.Scan.{first_index}
use project_so.Memory.Arrays.{CharArray, string_of, zeros, strcpy, strcpy_fits}
use project_so.Broker.Types.{
  Box, Broker, M, pure, exit, not_defined, choose, lift, ◌>>=◌, ◌>>◌, get, modify, Pipe, lock,
  unlock,
}
use project_so.Broker.Texts.{creation_failed}
use project_so.Fs.Types.{OpenMode}
use project_so.Fs.Operations.{tfs_open}
use project_so.Fs.Files.{tfs_close}
use project_so.Wire.Pipeflow.{max_box_name, max_password, Request, ResponseManager}
use project_so.Broker.Manager.{
  find_box, set_box, set_worker_box, set_index, accepted, refused, send, open_or_exit,
}

abbrev pub is_unused : (ℕ → Box) → ℕ → Bool
is_unused boxes i = (boxes i).free == 0

abbrev pub free_box : Broker → Option ℕ
free_box b = first_index (is_unused b.server_boxes) 0 b.size_boxes

-- The box gets the request's name and password; its other fields are left as they are.
abbrev pub claimed : Request → Box → Box
claimed r x = record x {
  free = 1;
  box_name = strcpy x.box_name r.box_name;
  box_password = strcpy x.box_password r.box_password;
}

-- The boxes after the table has doubled.
abbrev pub doubled : Broker → (ℕ → Box) → ℕ → Box
doubled b fresh i = if ltb i b.size_boxes then b.server_boxes i else record (fresh i) { free = 0 }

-- The two calls of strcpy into `server_boxes[i]`, whose arrays have to hold the strings.
unfoldable pub claim : ℕ → Request → M (Unit {0})
claim i r = do
  b ← get
  choose
      (strcpy_fits (b.server_boxes i).box_name r.box_name
        && strcpy_fits (b.server_boxes i).box_password r.box_password)
      (set_box i (claimed r)) not_defined

-- `size_boxes` is an int: C does not define its doubling beyond 2^31 - 1.
unfoldable pub grow : ℕ → Option (ℕ → Box) → Request → M (Unit {0})
grow worker none r = exit
grow worker (some fresh) r = do
  b ← get
  choose (not (ltb 0 b.size_boxes && ltb (2 * b.size_boxes) (2 ^ 31))) not_defined do
    modify λ c. record c { server_boxes = doubled b fresh }
    set_index worker b.size_boxes
    claim b.size_boxes r
    modify λ c. record c { size_boxes = 2 * b.size_boxes }

unfoldable pub claim_box : ℕ → Option (ℕ → Box) → Request → Option ℕ → M (Unit {0})
claim_box worker realloc r none = grow worker realloc r
claim_box worker realloc r (some i) = do set_index worker i; claim i r

-- `tfs_close(fd_tfs)`, where -1 is no handle.
unfoldable pub close_box : Option ℕ → M (Unit {0})
close_box none = pure tt
close_box (some fd) = do rc ← lift (tfs_close fd); pure tt

unfoldable pub creation_response : ℕ → CharArray → Option ℕ → M ResponseManager
creation_response worker stack none = do
  set_worker_box worker
      (λ x. record x { free = 0; box_name = zeros max_box_name; box_password = zeros max_password })
  pure (refused 4 stack creation_failed)
creation_response worker stack (some fd) = pure (accepted 4)

abbrev pub create_mode : OpenMode
create_mode = record { creat = true; trunc = false; append = false }

-- A new box, from the second loop on.
unfoldable pub create_box :
    ℕ → ℕ → Option (ℕ → Box) → Pipe → Memory → CharArray → Request → M (Unit {0})
create_box fuel worker realloc pipe buffer stack r = do
  b ← get
  claim_box worker realloc r (free_box b)
  fd_tfs ← lift (tfs_open fuel (some (string_of r.box_name)) create_mode)
  close_box fd_tfs
  open_or_exit pipe do
    response ← creation_response worker stack fd_tfs
    unlock
    send r.pipe_name (pipe.writes 0) buffer response

unfoldable pub create_found :
    ℕ → ℕ → Option (ℕ → Box) → Pipe → Memory → CharArray → Request → Option ℕ → M (Unit {0})
create_found fuel worker realloc pipe buffer stack r none =
    create_box fuel worker realloc pipe buffer stack r
create_found fuel worker realloc pipe buffer stack r (some i) =
    open_or_exit pipe
      do unlock; send r.pipe_name (pipe.writes 0) buffer (refused 4 stack creation_failed)

unfoldable pub process_manager_create :
    ℕ → ℕ → Option (ℕ → Box) → Pipe → Memory → CharArray → Request → M (Unit {0})
process_manager_create fuel worker realloc pipe buffer stack r = do
  lock
  b ← get
  create_found fuel worker realloc pipe buffer stack r (find_box b r.box_name)
