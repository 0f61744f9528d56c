-- ===== src/Fs/Directory.antt =====
-- fs/state.c: the entries of a directory's block, and the chain of symbolic links.
use project_so.Prelude.{
  ℕ, zero, suc, ◌+◌, ◌-◌, ◌*◌, ◌⊎◌, inl, inr, Bool, true, false, not, ◌&&◌, ◌||◌, Option, none,
  some, List, [], ◌∷◌, ltb, ◌==◌, if◌then◌else◌, length,
}
use project_so.Memory.Bytes.{Memory, store, write_int, read_int, minus_one}
use project_so.Memory.Names.{strcmp_eq, strncmp_eq, strncpy}
use project_so.Memory.Scan.{first_index}
use project_so.Fs.Monad.{choose}
use project_so.Fs.Types.{
  root_dir_inum, max_file_name, InodeType, t_file, t_directory, t_soft_link, sizeof_dir_entry,
  max_dir_entries, Status, success, failure,
}
use project_so.Fs.Monad.{done, aborted, undefined, out_of_fuel, M, pure, ◌>>=◌, ◌>>◌, get, modify}
use project_so.Fs.State.{data_block_get, inode_get}

-- `&dir_entry[i]`, `dir_entry[i].d_inumber`
abbrev pub entry_at : ℕ → ℕ → ℕ
entry_at base i = base + i * sizeof_dir_entry

abbrev pub d_inumber : Memory → ℕ → ℕ → ℕ
d_inumber m base i = read_int m (entry_at base i + max_file_name)

abbrev pub is_directory : InodeType → Bool
is_directory t_directory = true
is_directory t_file = false
is_directory t_soft_link = false

abbrev pub is_soft_link : InodeType → Bool
is_soft_link t_soft_link = true
is_soft_link t_file = false
is_soft_link t_directory = false

-- The tests of the three loops over the entries.
abbrev pub is_empty_entry : Memory → ℕ → ℕ → Bool
is_empty_entry m base i = d_inumber m base i == minus_one

abbrev pub is_named : Memory → ℕ → List ℕ → ℕ → Bool
is_named m base sub_name i = strcmp_eq m (entry_at base i) sub_name

abbrev pub is_entry_for : Memory → ℕ → List ℕ → ℕ → Bool
is_entry_for m base sub_name i =
    not (is_empty_entry m base i) && strncmp_eq m (entry_at base i) sub_name max_file_name

-- `d_inumber = -1` and `memset(d_name, 0, MAX_FILE_NAME)`
unfoldable pub erase_entry : Memory → ℕ → ℕ → Memory
erase_entry m base i =
    store (write_int m (entry_at base i + max_file_name) minus_one) (entry_at base i) max_file_name
      (λ _. 0)

unfoldable pub clear_dir_entry : ℕ → List ℕ → M Status
clear_dir_entry inode sub_name = do
  s ← get
  choose (not (is_directory (s.inode_table inode).i_node_type)) (pure failure) do
    dir_entry ← data_block_get (s.inode_table inode).i_data_block
    elim (first_index (is_named s.fs_data dir_entry sub_name) 0 (max_dir_entries s)) [
      | some i ↦ do
        modify λ t. record t { fs_data = erase_entry t.fs_data dir_entry i }
        pure success
      | none ↦ pure failure
    ]

-- `d_inumber = sub_inumber`, `strncpy(d_name, sub_name, MAX_FILE_NAME - 1)` and the last byte's 0
unfoldable pub fill_entry : Memory → ℕ → ℕ → List ℕ → ℕ → Memory
fill_entry m base i sub_name sub_inumber =
    store
      (strncpy (write_int m (entry_at base i + max_file_name) sub_inumber) (entry_at base i)
        sub_name (max_file_name - 1))
      (entry_at base i + (max_file_name - 1)) 1 (λ _. 0)

unfoldable pub add_dir_entry : ℕ → List ℕ → ℕ → M Status
add_dir_entry inode sub_name sub_inumber = do
  s ← get
  choose (length sub_name == 0 || ltb (max_file_name - 1) (length sub_name)) (pure failure) do
    choose (not (is_directory (s.inode_table inode).i_node_type)) (pure failure) do
      dir_entry ← data_block_get (s.inode_table inode).i_data_block
      elim (first_index (is_empty_entry s.fs_data dir_entry) 0 (max_dir_entries s)) [
        | some i ↦ do
          modify λ t. record t { fs_data = fill_entry t.fs_data dir_entry i sub_name sub_inumber }
          pure success
        | none ↦ pure failure
      ]

unfoldable pub find_in_dir : ℕ → List ℕ → M (Option ℕ)
find_in_dir inode sub_name = do
  s ← get
  choose (not (is_directory (s.inode_table inode).i_node_type)) (pure none) do
    dir_entry ← data_block_get (s.inode_table inode).i_data_block
    elim (first_index (is_entry_for s.fs_data dir_entry sub_name) 0 (max_dir_entries s)) [
      | some i ↦ pure (some (d_inumber s.fs_data dir_entry i))
      | none ↦ pure none
    ]

-- The string at an address, cut at the `n` bytes that strncmp looks at.
unfoldable pub c_string : Memory → ℕ → ℕ → List ℕ
c_string m a zero = []
c_string m a (suc n) = if m a == 0 then [] else m a ∷ c_string m (suc a) n

-- One round of `get_path_recursive`: the inumber that it returns (`inl`), or the next link.
unfoldable pub follow_link : ℕ → M (ℕ ⊎ Option ℕ)
follow_link inumber = do
  inode ← inode_get inumber
  s ← get
  choose (not (is_soft_link (s.inode_table inode).i_node_type)) (pure (inl inumber)) do
    block ← data_block_get (s.inode_table inode).i_data_block
    root ← inode_get root_dir_inum
    inum ← find_in_dir root (c_string s.fs_data (suc block) max_file_name)
    pure (inr inum)

unfoldable pub get_path_recursive : ℕ → Option ℕ → M (Option ℕ)
get_path_recursive fuel none s = done none s
get_path_recursive zero (some inumber) s = out_of_fuel
get_path_recursive (suc fuel) (some inumber) s = elim (follow_link inumber s) [
  | done (inl found) t ↦ done (some found) t
  | done (inr inum) t ↦ get_path_recursive fuel inum t
  | aborted ↦ aborted
  | undefined ↦ undefined
  | out_of_fuel ↦ out_of_fuel
]
