-- ===== src/Fs/Invariant/Sample.antt =====
-- A small file system with one file, for the tests of the calls of fs/operations.c.
use project_so.Fs.Invariant.Blocks.{with_handle, IsWf-with_handle}
use project_so.Fs.Invariant.Opening.{FileOk-empty}
use project_so.Prelude.{ℕ, ◌≡◌, refl, true, false, none, some, [], ◌∷◌, arith}
use project_so.Memory.Bytes.{store, byte_of, write_int, read_int}
use project_so.Fs.Types.{TfsParams, t_file, taken, Inode, FsState}
use project_so.Fs.State.{Malloc, clear_inumbers}
use project_so.Fs.Directory.{d_inumber, is_soft_link, is_empty_entry}
use project_so.Fs.Invariant.Defs.{IsWf}
use project_so.Fs.Invariant.Links.{with_entry}
use project_so.Fs.Invariant.Root.{root_index}
use project_so.Fs.Invariant.Inodes.{with_inode, empty_file}
use project_so.Fs.Invariant.Steps.{IsWf-with_entry, IsWf-new_file}
use project_so.Fs.Invariant.Unlink.{IsPath}
use project_so.Fs.Invariant.Creating.{created_room}
use project_so.Fs.Invariant.Init.{ParamsOk, mounted, IsWf-mounted}

abbrev pub blank_inode : Inode
blank_inode = record { i_node_type = t_file; i_size = 0; i_data_block = none; i_count = 0 }

abbrev pub zeroed : Malloc
zeroed = record {
  inode_table_allocated = true;
  others_allocated = true;
  inodes = λ _. blank_inode;
  inode_states = λ _. taken;
  bytes = λ _. 0;
  block_states = λ _. taken;
  open_files = λ _. record { of_inumber = 0; of_offset = 0 };
  open_file_states = λ _. taken;
}

-- Two entries in the root directory.
abbrev pub small : TfsParams
small = record {
  max_inode_count = 4;
  max_block_count = 3;
  max_open_files_count = 3;
  block_size = 88;
}

pub small-ParamsOk : ParamsOk small
small-ParamsOk = record {
  some_inodes = omega arith;
  few_inodes = omega arith;
  some_blocks = omega arith;
  some_bytes = omega arith;
  small_data = omega arith;
}

-- A file system with one file, `a`, in its first entry.
abbrev pub with_file : FsState
with_file = with_entry (with_inode (mounted zeroed small) 1 empty_file) 0 (97 ∷ []) 1

empty-IsWf : IsWf (mounted zeroed small)
empty-IsWf = IsWf-mounted zeroed small small-ParamsOk (λ i lt. refl)

first_unused : is_empty_entry (mounted zeroed small).fs_data 0 0 ≡ true
unfolding store byte_of write_int read_int clear_inumbers
first_unused = refl

pub with_file-IsWf : IsWf with_file
with_file-IsWf =
    let s = with_inode (mounted zeroed small) 1 empty_file in
    let none_left =
      created_room (mounted zeroed small) 1 empty-IsWf (omega arith) (omega arith) refl in
    IsWf-with_entry s 0 (97 ∷ []) 1
      (IsWf-new_file (mounted zeroed small) 1 empty-IsWf (omega arith) refl) (omega arith)
      first_unused (omega arith) (omega arith) none_left.1

-- `/a`
abbrev pub a_path : IsPath (some (b'/' ∷ 97 ∷ []))
a_path = (refl, omega arith, (omega arith, tt))

pub no_soft_link :
    (k : ℕ)
    → root_index with_file (97 ∷ []) ≡ some k
    → is_soft_link (with_file.inode_table (d_inumber with_file.fs_data 0 k)).i_node_type ≡ false
no_soft_link k e = ground arith

-- Handle 2 is open on the file.
abbrev pub opened_file : FsState
opened_file = with_handle with_file 2 1 0

pub opened_file-IsWf : IsWf opened_file
opened_file-IsWf =
    IsWf-with_handle with_file 2 1 0 with_file-IsWf
      (FileOk-empty with_file 1 (omega arith) (omega arith) refl)
