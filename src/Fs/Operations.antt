-- ===== src/Fs/Operations.antt =====
-- fs/operations.c: set-up, paths, links and the table of open files. A path is the list of its bytes
-- (`none` is NULL). A call returns its state with its result; -1 is `none` or `failure`.
use project_so.Prelude.{
  ℕ, ◌+◌, ◌-◌, ◌*◌, ◌^◌, Bool, false, not, ◌&&◌, Option, none, some, List, [], ◌∷◌, ◌++◌, ltb, leb,
  ◌==◌, if◌then◌else◌, length,
}
use project_so.Memory.Bytes.{store_list}
use project_so.Fs.Monad.{when, choose}
use project_so.Fs.Types.{
  root_dir_inum, TfsParams, t_file, t_directory, t_soft_link, FsState, OpenMode, Status, success,
  failure,
}
use project_so.Fs.Monad.{done, undefined, M, pure, ◌>>=◌, ◌>>◌, get, defined_if}
use project_so.Fs.State.{
  Malloc, state_init, state_destroy, data_block_free, data_block_get, set_inode, inode_delete,
  inode_create, inode_get, add_to_open_file_table,
}
use project_so.Fs.Directory.{
  is_soft_link, clear_dir_entry, add_dir_entry, find_in_dir, get_path_recursive,
}

abbrev pub PathName : Type 0
PathName = Option (List ℕ)

abbrev pub tfs_default_params : TfsParams
tfs_default_params = record {
  max_inode_count = 64;
  max_block_count = 1024;
  max_open_files_count = 16;
  block_size = 1024;
}

abbrev pub params_or_default : Option TfsParams → TfsParams
params_or_default (some params) = params
params_or_default none = tfs_default_params

-- `root != ROOT_DIR_INUM` after the root directory is created.
abbrev pub root_created : Option ℕ → Status
root_created none = failure
root_created (some root) = if root == root_dir_inum then success else failure

unfoldable pub create_root : Status → M Status
create_root failure = pure failure
create_root success = do root ← inode_create t_directory; pure (root_created root)

unfoldable pub tfs_init : Malloc → Option TfsParams → M Status
tfs_init m params_ptr s =
    let (rc, t) = state_init m (params_or_default params_ptr) s in create_root rc t

unfoldable pub tfs_destroy : M Status
tfs_destroy s = let (rc, t) = state_destroy s in done rc t

unfoldable pub valid_pathname : PathName → Bool
valid_pathname none = false
valid_pathname (some []) = false
valid_pathname (some (c ∷ name)) = ltb 1 (length (c ∷ name)) && c == b'/'

-- `name + 1`, which C does not define at NULL and past the end of the empty string.
abbrev pub skip_slash : PathName → M (List ℕ)
skip_slash none s = undefined
skip_slash (some []) s = undefined
skip_slash (some (c ∷ name)) s = done name s

unfoldable pub tfs_lookup : PathName → ℕ → M (Option ℕ)
tfs_lookup name root_inode =
    choose (not (valid_pathname name)) (pure none)
      do name' ← skip_slash name; find_in_dir root_inode name'

unfoldable pub truncate : ℕ → M (Unit {0})
truncate inum = do
  s ← get
  when (ltb 0 (s.inode_table inum).i_size) do
    data_block_free (s.inode_table inum).i_data_block
    set_inode inum (λ i. record i { i_size = 0 })

-- The last steps on a file that exists, `inum` being no link.
unfoldable pub open_inode : OpenMode → ℕ → M (Option ℕ)
open_inode mode inum = do
  inode ← inode_get inum
  when mode.trunc (truncate inode)
  s ← get
  add_to_open_file_table inum (if mode.append then (s.inode_table inode).i_size else 0)

unfoldable pub open_target : OpenMode → Option ℕ → M (Option ℕ)
open_target mode none = pure none
open_target mode (some inum) = open_inode mode inum

unfoldable pub open_existing : ℕ → OpenMode → ℕ → M (Option ℕ)
open_existing fuel mode inum = do
  inode ← inode_get inum
  s ← get
  choose (is_soft_link (s.inode_table inode).i_node_type)
      (do target ← get_path_recursive fuel (some inum); open_target mode target)
      (open_inode mode inum)

-- The last steps on a new file.
unfoldable pub open_created : List ℕ → ℕ → Option ℕ → M (Option ℕ)
open_created name root none = pure none
open_created name root (some inum) = do
  rc ← add_dir_entry root name inum
  elim rc [ failure ↦ do inode_delete inum; pure none | success ↦ add_to_open_file_table inum 0 ]

unfoldable pub create_and_open : PathName → ℕ → OpenMode → M (Option ℕ)
create_and_open name root mode =
    choose mode.creat
      (do inum ← inode_create t_file; name' ← skip_slash name; open_created name' root inum)
      (pure none)

-- `inum >= 0`, of the bit pattern.
abbrev pub nonnegative : ℕ → Bool
nonnegative inum = ltb inum (2 ^ 31)

unfoldable pub tfs_open : ℕ → PathName → OpenMode → M (Option ℕ)
tfs_open fuel name mode = choose (not (valid_pathname name)) (pure none) do
  root ← inode_get root_dir_inum
  found ← tfs_lookup name root
  elim found [
    | some inum ↦
        choose (nonnegative inum) (open_existing fuel mode inum) (create_and_open name root mode)
    | none ↦ create_and_open name root mode
  ]

-- `strcpy(block, target)`: the bytes of the string and a 0.
abbrev pub fs_data_size : FsState → ℕ
fs_data_size s = s.max_block_count * s.block_size

unfoldable pub strcpy_into : ℕ → PathName → M (Unit {0})
strcpy_into block none s = undefined
strcpy_into block (some target) s =
    if leb (block + length target + 1) (fs_data_size s)
    then done tt (record s { fs_data = store_list s.fs_data block (target ++ 0 ∷ []) })
    else undefined

unfoldable pub link_created : PathName → PathName → ℕ → Option ℕ → M Status
link_created target link_name root none = pure failure
link_created target link_name root (some inumber) = do
  inode ← inode_get inumber
  s ← get
  block ← data_block_get (s.inode_table inode).i_data_block
  strcpy_into block target
  name ← skip_slash link_name
  rc ← add_dir_entry root name inumber
  pure success

unfoldable pub tfs_sym_link : PathName → PathName → M Status
tfs_sym_link target link_name = do
  root ← inode_get root_dir_inum
  inumber_target ← tfs_lookup target root
  elim inumber_target [
    | none ↦ pure failure
    | some t ↦ do inumber ← inode_create t_soft_link; link_created target link_name root inumber
  ]

unfoldable pub add_hard_link : PathName → ℕ → ℕ → M Status
add_hard_link link_name root inumber = do
  inode ← inode_get inumber
  s ← get
  choose (is_soft_link (s.inode_table inode).i_node_type) (pure failure) do
    defined_if (ltb ((s.inode_table inode).i_count + 1) (2 ^ 31))
    set_inode inode (λ i. record i { i_count = i.i_count + 1 })
    name ← skip_slash link_name
    rc ← add_dir_entry root name inumber
    pure success

unfoldable pub tfs_link : PathName → PathName → M Status
tfs_link target link_name = do
  root ← inode_get root_dir_inum
  found ← tfs_lookup target root
  elim found [ none ↦ pure failure | some inumber ↦ add_hard_link link_name root inumber ]

unfoldable pub drop_link : PathName → ℕ → ℕ → M Status
drop_link target root inumber = do
  inode ← inode_get inumber
  name ← skip_slash target
  rc ← clear_dir_entry root name
  s ← get
  choose (ltb 1 (s.inode_table inode).i_count)
      (set_inode inode (λ i. record i { i_count = i.i_count - 1 })) (inode_delete inumber)
  pure success

unfoldable pub tfs_unlink : PathName → M Status
tfs_unlink target = do
  root ← inode_get root_dir_inum
  found ← tfs_lookup target root
  elim found [ none ↦ pure failure | some inumber ↦ drop_link target root inumber ]
