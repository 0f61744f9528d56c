-- ===== src/Fs/Tests.antt =====
-- Runs of fs/operations.c on a file system of a few inodes and blocks.
use project_so.Prelude.{ℕ, ◌≡◌, refl, true, false, Option, none, some, List, [], ◌∷◌}
use project_so.Memory.Bytes.{store, load, store_list, byte_of, write_int, read_int}
use project_so.Memory.Names.{strcmp_eq, strncmp_eq, strncpy}
use project_so.Memory.Scan.{first_index}
use project_so.Fs.LinkChains.{get_path_recursive-cycle}
use project_so.Prelude.{inr}
use project_so.Fs.Types.{Status}
use project_so.Fs.Types.{TfsParams, t_file, taken, Inode, FsState, OpenMode}
use project_so.Fs.Monad.{Outcome, done, aborted, undefined, out_of_fuel, M, ◌>>=◌}
use project_so.Fs.State.{
  Malloc, state_init, state_destroy, inode_alloc, data_block_alloc, data_block_free, data_block_get,
  inode_delete, clear_inumbers, create_directory, create_soft_link, initialize, initialize_new,
  inode_create, inode_get, add_to_open_file_table, remove_from_open_file_table, get_open_file_entry,
}
use project_so.Fs.Directory.{
  erase_entry, clear_dir_entry, fill_entry, add_dir_entry, find_in_dir, c_string, follow_link,
  get_path_recursive,
}
use project_so.Fs.Operations.{
  create_root, tfs_init, tfs_destroy, valid_pathname, tfs_lookup, truncate, open_inode, open_target,
  open_existing, open_created, create_and_open, tfs_open, strcpy_into, link_created, tfs_sym_link,
  add_hard_link, tfs_link, drop_link, tfs_unlink,
}
use project_so.Fs.Files.{
  close_entry, tfs_close, clip, ensure_block, advance, copy_in, write_entry, tfs_write, set_offset,
  copy_out, read_size, read_entry, tfs_read, copy_loop, copy_to, tfs_copy_from_external_fs,
}

abbrev blank_inode : Inode
blank_inode = record { i_node_type = t_file; i_size = 0; i_data_block = none; i_count = 0 }

abbrev zeroed : Malloc
zeroed = record {
  inode_table_allocated = true;
  others_allocated = true;
  inodes = λ _. blank_inode;
  inode_states = λ _. taken;
  bytes = λ _. 0;
  block_states = λ _. taken;
  open_files = λ _. record { of_inumber = 0; of_offset = 0 };
  open_file_states = λ _. taken;
}

abbrev small : TfsParams
small = record {
  max_inode_count = 4;
  max_block_count = 3;
  max_open_files_count = 3;
  block_size = 88;
}

-- Before `tfs_init`.
abbrev unmounted : FsState
unmounted = record {
  fs_params = small;
  initialised = false;
  inode_table = λ _. blank_inode;
  freeinode_ts = λ _. taken;
  fs_data = λ _. 0;
  free_blocks = λ _. taken;
  open_file_table = λ _. record { of_inumber = 0; of_offset = 0 };
  free_open_file_entries = λ _. taken;
}

abbrev mode_create : OpenMode
mode_create = record { creat = true; trunc = false; append = false }

abbrev mode_plain : OpenMode
mode_plain = record { creat = false; trunc = false; append = false }

-- Opens every operation for evaluation.
all_operations : ℕ
unfolding store load store_list byte_of write_int read_int strcmp_eq strncmp_eq strncpy first_index
    state_init state_destroy inode_alloc data_block_alloc data_block_free data_block_get
    inode_delete clear_inumbers create_directory create_soft_link initialize initialize_new
    inode_create inode_get add_to_open_file_table remove_from_open_file_table get_open_file_entry
    erase_entry clear_dir_entry fill_entry add_dir_entry find_in_dir c_string follow_link
    get_path_recursive create_root tfs_init tfs_destroy valid_pathname tfs_lookup truncate
    open_inode open_target open_existing open_created create_and_open tfs_open strcpy_into
    link_created tfs_sym_link add_hard_link tfs_link drop_link tfs_unlink close_entry tfs_close clip
    ensure_block advance copy_in write_entry tfs_write set_offset copy_out read_size read_entry
    tfs_read copy_loop copy_to tfs_copy_from_external_fs
all_operations = 0

abbrev result_of : {A : Type 0} → Outcome A → Option A
result_of (done a s) = some a
result_of aborted = none
result_of undefined = none
result_of out_of_fuel = none

create_write_read : M (Option (List ℕ))
create_write_read = do
  rc ← tfs_init zeroed (some small)
  f ← tfs_open 5 (some (47 ∷ 97 ∷ [])) mode_create
  w ← tfs_write 0 (104 ∷ 105 ∷ []) 2
  c ← tfs_close 0
  l ← tfs_sym_link (some (47 ∷ 97 ∷ [])) (some (47 ∷ 98 ∷ []))
  g ← tfs_open 5 (some (47 ∷ 98 ∷ [])) mode_plain
  tfs_read 0 10

create_write_read_result : result_of (create_write_read unmounted) ≡ some (some (104 ∷ 105 ∷ []))
unfolding all_operations create_write_read
create_write_read_result = refl

-- A link to a file, and then, in place of the file, a link to that link.
create_cycle : M Status
create_cycle = do
  rc ← tfs_init zeroed (some small)
  f ← tfs_open 5 (some (47 ∷ 97 ∷ [])) mode_create
  l ← tfs_sym_link (some (47 ∷ 97 ∷ [])) (some (47 ∷ 98 ∷ []))
  u ← tfs_unlink (some (47 ∷ 97 ∷ []))
  tfs_sym_link (some (47 ∷ 98 ∷ [])) (some (47 ∷ 97 ∷ []))

abbrev state_of : {A : Type 0} → Outcome A → FsState
state_of (done a s) = s
state_of _ = unmounted

cyclic : FsState
cyclic = state_of (create_cycle unmounted)

from_first : follow_link 1 cyclic ≡ done (inr (some 2)) cyclic
unfolding all_operations create_cycle cyclic
from_first = refl

from_second : follow_link 2 cyclic ≡ done (inr (some 1)) cyclic
unfolding all_operations create_cycle cyclic
from_second = refl

get_path_recursive-cycle_example :
    (get_path_recursive 100 (some 1) cyclic ≡ out_of_fuel)
    × (get_path_recursive 100 (some 2) cyclic ≡ out_of_fuel)
get_path_recursive-cycle_example = get_path_recursive-cycle 100 1 2 cyclic from_first from_second
