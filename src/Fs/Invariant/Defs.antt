-- ===== src/Fs/Invariant/Defs.antt =====
-- The well-formedness of the file system's state (fs/state.c), in four parts: the root directory,
-- its entries, the blocks, and the open files.
use project_so.Prelude.{
  ℕ, zero, suc, ◌+◌, ◌-◌, ◌^◌, ◌≤◌, ◌<◌, ◌≡◌, refl, ap, ◌≢◌, inl, inr, true, false, not, ◌&&◌, none,
  some, arith, ltb, ◌==◌, if◌then◌else◌, Bool-cases,
}
use project_so.Memory.Bytes.{Memory, minus_one}
use project_so.Fs.Types.{
  max_file_name, t_directory, taken, FsState, max_dir_entries, update, is_free,
}
use project_so.Fs.Directory.{entry_at, d_inumber, is_empty_entry}
use project_so.Fs.Operations.{fs_data_size}

-- How many of the first `k` values of `f` are `n`.
unfoldable pub count : (ℕ → ℕ) → ℕ → ℕ → ℕ
count f n zero = 0
count f n (suc k) = (if f k == n then 1 else 0) + count f n k

pub count-congr :
    (f g : ℕ → ℕ) (n k : ℕ) → ((i : ℕ) → i < k → f i ≡ g i) → count f n k ≡ count g n k
unfolding count
count-congr f g n zero h = refl
count-congr f g n (suc k) h =
    ground (arith, h k (omega arith), count-congr f g n k (λ i lt. h i (omega arith)))

abbrev pub tally : ℕ → ℕ → ℕ
tally v n = if v == n then 1 else 0

count-update_above : (f : ℕ → ℕ) (i v n k : ℕ) → k ≤ i → count (update f i v) n k ≡ count f n k
unfolding count
count-update_above f i v n zero h = refl
count-update_above f i v n (suc k) h = ground (arith, count-update_above f i v n k)

pub count-update :
    (f : ℕ → ℕ) (i v n k : ℕ)
    → i < k
    → count (update f i v) n k + tally (f i) n ≡ count f n k + tally v n
unfolding count
count-update f i v n zero h = absurd (omega arith)
count-update f i v n (suc k) h = elim (Bool-cases (i == k)) [
  | inl same ↦
      let e : i ≡ k = ground arith in
      let written : update f i v k ≡ v = rw same in
      rw written (ground (arith, ap f e, count-update_above f i v n k (omega arith)))
  | inr other ↦ ground (arith, count-update f i v n k)
]

-- The links that the root directory holds to an inode.
abbrev pub links : FsState → ℕ → ℕ
links s n = count (d_inumber s.fs_data 0) n (max_dir_entries s)

-- The links that an inode may have: its counter, if it is in use and not the root.
abbrev pub allowed : FsState → ℕ → ℕ
allowed s n =
    if ltb 0 n && ltb n s.max_inode_count && not (is_free (s.freeinode_ts n))
    then (s.inode_table n).i_count
    else 0

-- These predicates are unnamed records, so that what a step does not touch stays proved.
abbrev pub RootOk : FsState → Type 0
RootOk s = record {
  some_inodes : 0 < s.max_inode_count;
  few_inodes : s.max_inode_count ≤ 2 ^ 31;
  some_blocks : 0 < s.max_block_count;
  small_data : fs_data_size s < 2 ^ 63;
  in_use : s.freeinode_ts 0 ≡ taken;
  type : (s.inode_table 0).i_node_type ≡ t_directory;
  block : (s.inode_table 0).i_data_block ≡ some 0;
  size : 0 < (s.inode_table 0).i_size;
  block_in_use : s.free_blocks 0 ≡ taken;
}

-- An entry in use ends its name, an unused one has none.
abbrev pub EntryOk : Memory → ℕ → Type 0
EntryOk m i =
    (is_empty_entry m 0 i ≡ true → m (entry_at 0 i) ≡ 0)
    × (is_empty_entry m 0 i ≡ false → m (entry_at 0 i + (max_file_name - 1)) ≡ 0)

abbrev pub DirOk : FsState → Type 0
DirOk s = record {
  names : (i : ℕ) → i < max_dir_entries s → EntryOk s.fs_data i;
  counted : (n : ℕ) → n ≢ minus_one → links s n ≤ allowed s n;
}

-- Inode `n` is in use and keeps its bytes in block `b`.
abbrev pub Owns : FsState → ℕ → ℕ → Type 0
Owns s n b = record {
  range : n < s.max_inode_count;
  in_use : s.freeinode_ts n ≡ taken;
  size : 0 < (s.inode_table n).i_size;
  block : (s.inode_table n).i_data_block ≡ some b;
}

abbrev pub BlocksOk : FsState → Type 0
BlocksOk s = record {
  owned : (n b : ℕ) → Owns s n b → (b < s.max_block_count) × (s.free_blocks b ≡ taken);
  sized :
      (n : ℕ)
      → n < s.max_inode_count
      → s.freeinode_ts n ≡ taken
      → 0 < (s.inode_table n).i_size
      → (s.inode_table n).i_data_block ≢ none;
  unique : (n m b : ℕ) → Owns s n b → Owns s m b → n ≡ m;
}

-- An inode that a file handle may name: not the root, and with a block behind the root's if it is
-- not empty. It need not be in use: a file stays open when it is deleted.
abbrev pub FileOk : FsState → ℕ → Type 0
FileOk s n = record {
  positive : 0 < n;
  range : n < s.max_inode_count;
  sized : 0 < (s.inode_table n).i_size → (s.inode_table n).i_data_block ≢ none;
  block :
      (b : ℕ)
      → 0 < (s.inode_table n).i_size
      → (s.inode_table n).i_data_block ≡ some b
      → (0 < b) × (b < s.max_block_count);
}

abbrev pub HandlesOk : FsState → Type 0
HandlesOk s =
    (h : ℕ)
    → h < s.max_open_files_count
    → s.free_open_file_entries h ≡ taken
    → FileOk s (s.open_file_table h).of_inumber

pub record IsWf (s : FsState) : Type 0 where
  pub root : RootOk s
  pub dir : DirOk s
  pub blocks : BlocksOk s
  pub handles : HandlesOk s
