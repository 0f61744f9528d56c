-- ===== src/Broker/Types.antt =====
-- The broker's data (utils/server_structures.h and the global variables of mbroker/mbroker.c), and how
-- a handler runs: on the broker's state, with what the client's pipe answers as a parameter.
use project_so.Prelude.{ℕ, Bool, true, false, List, [], ◌∷◌, ◌++◌, if◌then◌else◌}
use project_so.Memory.Bytes.{Memory}
use project_so.Memory.Arrays.{CharArray}
use project_so.Fs.Types.{FsState}
use project_so.Fs.Monad as Fs

-- The ints are bit patterns. `free` is 0 if the box is free.
pub record Box : Type 0 where
  pub box_name : CharArray
  pub n_pub : ℕ
  pub n_subs : ℕ
  pub free : ℕ
  pub box_size : ℕ
  pub box_password : CharArray

-- `thread_pool` holds the field `index` of each worker. `sent` is what went into the clients' pipes:
-- the pipe's name and the buffer of MAX_LINE bytes, in order.
pub record Broker : Type 0 where
  pub fs : FsState
  pub server_boxes : ℕ → Box
  pub size_boxes : ℕ
  pub thread_pool : ℕ → ℕ
  pub box_size_lock : Bool
  pub sent : List (CharArray × Memory)

-- A handler ends, or the process ends in exit(), or a call of the file system does not return, or C
-- does not define what happens (here also a lock that its owner locks again).
pub data Outcome (A : Type 0) : Type 0 where
  done : A → Broker → Outcome A
  exited : Outcome A
  aborted : Outcome A
  undefined : Outcome A
  out_of_fuel : Outcome A

abbrev pub M : Type 0 → Type 0
M A = Broker → Outcome A

module _ {A : Type 0} where
  abbrev pub pure : A → M A
  pure a b = done a b

  abbrev pub exit : M A
  exit b = exited

  abbrev pub not_defined : M A
  not_defined b = undefined

  abbrev pub choose : Bool → M A → M A → M A
  choose c m k b = if c then m b else k b

  -- A call of fs/operations.c.
  abbrev pub lift : Fs.M A → M A
  lift m b = elim (m b.fs) [
    | Fs.done a t ↦ done a (record b { fs = t })
    | Fs.aborted ↦ aborted
    | Fs.undefined ↦ undefined
    | Fs.out_of_fuel ↦ out_of_fuel
  ]

infixl 5 ◌>>=◌ ◌>>◌
abbrev pub ◌>>=◌ : {A B : Type 0} → M A → (A → M B) → M B
◌>>=◌ m f b = elim (m b) [
  | done a b' ↦ f a b'
  | exited ↦ exited
  | aborted ↦ aborted
  | undefined ↦ undefined
  | out_of_fuel ↦ out_of_fuel
]

abbrev pub ◌>>◌ : {B : Type 0} → M (Unit {0}) → M B → M B
m >> k = m >>= λ _. k

abbrev pub get : M Broker
get b = done b b

abbrev pub modify : (Broker → Broker) → M (Unit {0})
modify f b = done tt (f b)

-- What a write of a whole buffer to a pipe answers: all bytes, fewer, EPIPE, or another error.
pub data Write : Type 0 where
  whole partial broken failed : Write

-- The client's pipe: whether open() succeeds, and the answer to each write.
pub record Pipe : Type 0 where
  pub opens : Bool
  pub writes : ℕ → Write

-- my_mutex_lock(&box_size_lock), my_mutex_unlock(&box_size_lock)
abbrev pub lock : M (Unit {0})
lock b = if b.box_size_lock then undefined else done tt (record b { box_size_lock = true })

abbrev pub unlock : M (Unit {0})
unlock b = done tt (record b { box_size_lock = false })

abbrev pub is_whole : Write → Bool
is_whole whole = true
is_whole partial = false
is_whole broken = false
is_whole failed = false

abbrev pub is_broken : Write → Bool
is_broken broken = true
is_broken whole = false
is_broken partial = false
is_broken failed = false

-- write(fd, buffer, sizeof(buffer))
abbrev pub write : CharArray → Write → Memory → M (Unit {0})
write pipe_name w buffer b =
    done tt (record b { sent = if is_whole w then b.sent ++ (pipe_name, buffer) ∷ [] else b.sent })
