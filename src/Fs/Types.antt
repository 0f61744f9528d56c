-- ===== src/Fs/Types.antt =====
-- The data of the file system: fs/state.h, fs/operations.h, fs/config.h and the static variables of
-- fs/state.c. The tables are functions from indices; an int that is -1 for "none" is an option.
use project_so.Prelude.{ℕ, ◌/◌, Bool, true, false, Option, ◌==◌, if◌then◌else◌}
use project_so.Memory.Bytes.{Memory}

abbrev pub root_dir_inum : ℕ
root_dir_inum = 0

abbrev pub max_file_name : ℕ
max_file_name = 40

pub record TfsParams : Type 0 where
  pub max_inode_count : ℕ
  pub max_block_count : ℕ
  pub max_open_files_count : ℕ
  pub block_size : ℕ

pub data InodeType : Type 0 where
  t_file t_directory t_soft_link : InodeType

pub data AllocationState : Type 0 where
  free taken : AllocationState

pub record Inode : Type 0 where
  pub i_node_type : InodeType
  pub i_size : ℕ
  pub i_data_block : Option ℕ
  pub i_count : ℕ

pub record OpenFileEntry : Type 0 where
  pub of_inumber : ℕ
  pub of_offset : ℕ

-- `inode_table != NULL` is `initialised`.
pub record FsState : Type 0 where
  pub fs_params : TfsParams
  pub open fs_params use *
  pub initialised : Bool
  pub inode_table : ℕ → Inode
  pub freeinode_ts : ℕ → AllocationState
  pub fs_data : Memory
  pub free_blocks : ℕ → AllocationState
  pub open_file_table : ℕ → OpenFileEntry
  pub free_open_file_entries : ℕ → AllocationState

-- `dir_entry_t` is 40 bytes of name and an int.
abbrev pub sizeof_dir_entry : ℕ
sizeof_dir_entry = 44

abbrev pub max_dir_entries : FsState → ℕ
max_dir_entries s = s.block_size / sizeof_dir_entry

-- A table with the entry at one index replaced.
abbrev pub update {ℓ} : {A : Type ℓ} → (ℕ → A) → ℕ → A → ℕ → A
update f i a j = if i == j then a else f j

abbrev pub is_free : AllocationState → Bool
is_free free = true
is_free taken = false

-- The modes of `tfs_open`, one for each bit.
pub record OpenMode : Type 0 where
  pub creat : Bool
  pub trunc : Bool
  pub append : Bool

-- Return codes 0 and -1.
pub data Status : Type 0 where
  success failure : Status
