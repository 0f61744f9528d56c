-- ===== src/Fs/State.antt =====
-- fs/state.c: set-up, inodes, data blocks and the open file table. A pointer to an inode or to an
-- open file entry is its index, a pointer into fs_data its address. The busy loops of insert_delay
-- have no effect on the state and are left out; calls run one at a time, without the locks.
use project_so.Prelude.{
  ℕ, zero, suc, ◌+◌, ◌*◌, Bool, true, false, not, ◌&&◌, Option, none, some, ltb, if◌then◌else◌,
}
use project_so.Memory.Bytes.{Memory, write_int, minus_one}
use project_so.Memory.Scan.{first_index}
use project_so.Fs.Types.{
  max_file_name, TfsParams, InodeType, t_file, t_directory, t_soft_link, AllocationState, free,
  taken, Inode, OpenFileEntry, FsState, sizeof_dir_entry, max_dir_entries, update, is_free, Status,
  success, failure,
}
use project_so.Fs.Monad.{done, aborted, M, pure, ◌>>=◌, ◌>>◌, get, modify, always_assert}

abbrev pub valid_inumber : FsState → ℕ → Bool
valid_inumber s inumber = ltb inumber s.max_inode_count

abbrev pub valid_block_number : FsState → Option ℕ → Bool
valid_block_number s none = false
valid_block_number s (some b) = ltb b s.max_block_count

abbrev pub valid_file_handle : FsState → ℕ → Bool
valid_file_handle s fhandle = ltb fhandle s.max_open_files_count

-- What the calls of malloc in `state_init` return: whether they succeed (that for the inode table
-- apart), and what the memory holds that they return.
pub record Malloc : Type 0 where
  pub inode_table_allocated : Bool
  pub others_allocated : Bool
  pub inodes : ℕ → Inode
  pub inode_states : ℕ → AllocationState
  pub bytes : Memory
  pub block_states : ℕ → AllocationState
  pub open_files : ℕ → OpenFileEntry
  pub open_file_states : ℕ → AllocationState

abbrev pub all_free : ℕ → (ℕ → AllocationState) → ℕ → AllocationState
all_free n t i = if ltb i n then free else t i

unfoldable pub state_init : Malloc → TfsParams → FsState → Status × FsState
state_init m params s =
    if s.initialised
    then (failure, record s { fs_params = params })
    else if m.inode_table_allocated && m.others_allocated
    then (
      success,
      record {
        fs_params = params;
        initialised = true;
        inode_table = m.inodes;
        freeinode_ts = all_free params.max_inode_count m.inode_states;
        fs_data = m.bytes;
        free_blocks = all_free params.max_block_count m.block_states;
        open_file_table = m.open_files;
        free_open_file_entries = all_free params.max_open_files_count m.open_file_states;
      },
    )
    else (
      failure,
      record {
        fs_params = params;
        initialised = m.inode_table_allocated;
        inode_table = m.inodes;
        freeinode_ts = m.inode_states;
        fs_data = m.bytes;
        free_blocks = m.block_states;
        open_file_table = m.open_files;
        free_open_file_entries = m.open_file_states;
      },
    )

unfoldable pub state_destroy : FsState → Status × FsState
state_destroy s = (success, record s { initialised = false })

unfoldable pub inode_alloc : M (Option ℕ)
inode_alloc s = elim (first_index (λ i. is_free (s.freeinode_ts i)) 0 s.max_inode_count) [
  | some inumber ↦
      done (some inumber) (record s { freeinode_ts = update s.freeinode_ts inumber taken })
  | none ↦ done none s
]

unfoldable pub data_block_alloc : M (Option ℕ)
data_block_alloc s = elim (first_index (λ i. is_free (s.free_blocks i)) 0 s.max_block_count) [
  | some b ↦ done (some b) (record s { free_blocks = update s.free_blocks b taken })
  | none ↦ done none s
]

unfoldable pub data_block_free : Option ℕ → M (Unit {0})
data_block_free none s = aborted
data_block_free (some b) s =
    if valid_block_number s (some b)
    then done tt (record s { free_blocks = update s.free_blocks b free })
    else aborted

unfoldable pub data_block_get : Option ℕ → M ℕ
data_block_get none s = aborted
data_block_get (some b) s =
    if valid_block_number s (some b) then done (b * s.block_size) s else aborted

-- Writes to the fields of `inode_table[inumber]`.
abbrev pub set_inode : ℕ → (Inode → Inode) → M (Unit {0})
set_inode n f s = done tt (record s { inode_table = update s.inode_table n (f (s.inode_table n)) })

abbrev pub free_inode : ℕ → M (Unit {0})
free_inode n s = done tt (record s { freeinode_ts = update s.freeinode_ts n free })

unfoldable pub inode_delete : ℕ → M (Unit {0})
inode_delete inumber = do
  s ← get
  always_assert (valid_inumber s inumber)
  always_assert (not (is_free (s.freeinode_ts inumber)))
  if ltb 0 (s.inode_table inumber).i_size
      then data_block_free (s.inode_table inumber).i_data_block
      else pure tt
  free_inode inumber

-- `dir_entry[i].d_inumber = -1` for the first `n` entries of the block at `base`.
unfoldable pub clear_inumbers : Memory → ℕ → ℕ → Memory
clear_inumbers m base zero = m
clear_inumbers m base (suc n) =
    write_int (clear_inumbers m base n) (base + n * sizeof_dir_entry + max_file_name) minus_one

-- The three cases of the switch, after the inode's type is set.
unfoldable pub create_directory : ℕ → Option ℕ → M (Option ℕ)
create_directory inumber none = do
  set_inode inumber (λ i. record i { i_size = 0; i_data_block = none })
  inode_delete inumber
  pure none
create_directory inumber (some b) = do
  s ← get
  set_inode inumber (λ i. record i { i_size = s.block_size; i_data_block = some b })
  dir_entry ← data_block_get (some b)
  modify λ t. record t { fs_data = clear_inumbers t.fs_data dir_entry (max_dir_entries t) }
  pure (some inumber)

unfoldable pub create_soft_link : ℕ → Option ℕ → M (Option ℕ)
create_soft_link inumber none = do
  set_inode inumber (λ i. record i { i_size = 0; i_data_block = none })
  inode_delete inumber
  pure none
create_soft_link inumber (some b) = do
  set_inode inumber λ i. record i { i_count = 1; i_size = max_file_name; i_data_block = some b }
  pure (some inumber)

unfoldable pub initialize : InodeType → ℕ → M (Option ℕ)
initialize t_directory inumber = do b ← data_block_alloc; create_directory inumber b
initialize t_file inumber = do
  set_inode inumber (λ i. record i { i_size = 0; i_data_block = none; i_count = 1 })
  pure (some inumber)
initialize t_soft_link inumber = do b ← data_block_alloc; create_soft_link inumber b

unfoldable pub initialize_new : InodeType → Option ℕ → M (Option ℕ)
initialize_new i_type none = pure none
initialize_new i_type (some inumber) = do
  set_inode inumber (λ i. record i { i_node_type = i_type })
  initialize i_type inumber

unfoldable pub inode_create : InodeType → M (Option ℕ)
inode_create i_type = do inumber ← inode_alloc; initialize_new i_type inumber

unfoldable pub inode_get : ℕ → M ℕ
inode_get inumber = do s ← get; always_assert (valid_inumber s inumber); pure inumber

unfoldable pub add_to_open_file_table : ℕ → ℕ → M (Option ℕ)
add_to_open_file_table inumber offset s =
    elim (first_index (λ i. is_free (s.free_open_file_entries i)) 0 s.max_open_files_count) [
      | none ↦ done none s
      | some i ↦ done (some i) (record s {
        free_open_file_entries = update s.free_open_file_entries i taken;
        open_file_table =
            update s.open_file_table i (record { of_inumber = inumber; of_offset = offset });
      })
    ]

unfoldable pub remove_from_open_file_table : ℕ → M (Unit {0})
remove_from_open_file_table fhandle = do
  s ← get
  always_assert (valid_file_handle s fhandle)
  always_assert (not (is_free (s.free_open_file_entries fhandle)))
  modify λ t. record t { free_open_file_entries = update t.free_open_file_entries fhandle free }

-- `none` is NULL.
unfoldable pub get_open_file_entry : ℕ → M (Option ℕ)
get_open_file_entry fhandle s =
    if not (valid_file_handle s fhandle)
    then done none s
    else if is_free (s.free_open_file_entries fhandle)
    then done none s
    else done (some fhandle) s
