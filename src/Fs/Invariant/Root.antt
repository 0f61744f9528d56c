-- ===== src/Fs/Invariant/Root.antt =====
-- What the directory calls of fs/state.c return on the root directory.
use project_so.Prelude.{
  ℕ, zero, suc, ◌-◌, ◌*◌, ◌<◌, ◌≡◌, sym, ap, ◌≢◌, inl, inr, Bool, true, false, not, ◌||◌, Option,
  none, some, List, ◌∷◌, arith, ltb, ◌==◌, Bool-cases, length,
}
use project_so.Memory.Bytes.{minus_one}
use project_so.Memory.Names.{IsCString, strncmp_eq-strcmp_eq, strcmp_eq_empty}
use project_so.Memory.Scan.{first_index, first_index-some, first_index-congr}
use project_so.Fs.Types.{max_file_name, taken, FsState, max_dir_entries, success, failure}
use project_so.Fs.Monad.{done}
use project_so.Fs.State.{data_block_get}
use project_so.Fs.Directory.{
  entry_at, d_inumber, is_empty_entry, is_named, is_entry_for, clear_dir_entry, add_dir_entry,
  find_in_dir,
}
use mathlib.Core.Option
use project_so.Fs.Invariant.Defs.{count, links, allowed, RootOk, DirOk}
use project_so.Fs.Invariant.Links.{with_entry, without_entry}

root_entries : (s : FsState) → RootOk s → data_block_get (s.inode_table 0).i_data_block s ≡ done 0 s
unfolding data_block_get
root_entries s r =
    let start : 0 * s.block_size ≡ 0 = omega arith in
    rw (r.block, data_block_get) (ground (arith, start))

pub root_index : FsState → List ℕ → Option ℕ
root_index s name = first_index (is_entry_for s.fs_data 0 name) 0 (max_dir_entries s)

pub find_in_dir-root :
    (s : FsState) (name : List ℕ)
    → RootOk s
    → find_in_dir 0 name s ≡ done (Option.map (d_inumber s.fs_data 0) (root_index s name)) s
unfolding find_in_dir root_index
find_in_dir-root s name r = ground (arith, root_entries s r)

-- A name that the directory can hold.
abbrev pub is_file_name : List ℕ → Bool
is_file_name name = not (length name == 0 || ltb (max_file_name - 1) (length name))

abbrev pub free_index : FsState → Option ℕ
free_index s = first_index (is_empty_entry s.fs_data 0) 0 (max_dir_entries s)

pub add_dir_entry-root :
    (s : FsState) (name : List ℕ) (v : ℕ)
    → RootOk s
    → is_file_name name ≡ true
    → add_dir_entry 0 name v s ≡ elim (free_index s) [
      | some k ↦ done success (with_entry s k name v)
      | none ↦ done failure s
    ]
unfolding add_dir_entry
add_dir_entry-root s name v r ok = ground (arith, root_entries s r)

pub add_dir_entry_refused :
    (s : FsState) (inode : ℕ) (name : List ℕ) (v : ℕ)
    → is_file_name name ≡ false
    → add_dir_entry inode name v s ≡ done failure s
unfolding add_dir_entry
add_dir_entry_refused s inode name v no_name = ground arith

abbrev pub named_index : FsState → List ℕ → Option ℕ
named_index s name = first_index (is_named s.fs_data 0 name) 0 (max_dir_entries s)

pub clear_dir_entry-root :
    (s : FsState) (name : List ℕ)
    → RootOk s
    → clear_dir_entry 0 name s ≡ elim (named_index s name) [
      | some k ↦ done success (without_entry s k)
      | none ↦ done failure s
    ]
unfolding clear_dir_entry
clear_dir_entry-root s name r = ground (arith, root_entries s r)

-- `clear_dir_entry`, which looks at the names alone, stops at the entry that `find_in_dir` finds.
pub named_index-eq-root_index :
    (s : FsState) (c : ℕ) (name : List ℕ)
    → DirOk s
    → IsCString (c ∷ name)
    → named_index s (c ∷ name) ≡ root_index s (c ∷ name)
unfolding root_index
named_index-eq-root_index s c name dir chars =
    first_index-congr _ _ 0 (max_dir_entries s) λ i lo hi.
      let ok = dir.names i (omega arith) in
      elim (Bool-cases (is_empty_entry s.fs_data 0 i)) [
        | inl empty ↦
            rw (empty) (strcmp_eq_empty s.fs_data (entry_at 0 i) c name (ok.0 empty) chars.0)
        | inr full ↦ rw (full) (
            sym (
              strncmp_eq-strcmp_eq s.fs_data (entry_at 0 i) (c ∷ name) (max_file_name - 1) chars
                (ok.1 full)))
      ]

-- What a successful search says of the entry.
pub root_index-some :
    (s : FsState) (name : List ℕ) {k : ℕ}
    → root_index s name ≡ some k
    → (k < max_dir_entries s) × (d_inumber s.fs_data 0 k ≢ minus_one)
unfolding root_index
root_index-some s name {k} e =
    let found = first_index-some _ 0 (max_dir_entries s) e in
    (omega (arith, found.1), (λ empty. ground (arith, found.2)))

-- The inode of an entry is in use, and not the root.
linked_count : (f : ℕ → ℕ) (k d : ℕ) → k < d → 0 < count f (f k) d
unfolding count
linked_count f k zero lt = absurd (omega arith)
linked_count f k (suc d) lt = elim (Bool-cases (k == d)) [
  | inl same ↦ let e : k ≡ d = ground arith in ground (arith, ap f e)
  | inr before ↦ let lt' : k < d = ground arith in omega (arith, linked_count f k d lt')
]

pub record IsLinked (s : FsState) (n : ℕ) : Type 0 where
  pub positive : 0 < n
  pub range : n < s.max_inode_count
  pub in_use : s.freeinode_ts n ≡ taken
  pub counted : 0 < links s n
  pub known : n ≢ minus_one

allowed_pos :
    (s : FsState) (n : ℕ)
    → 0 < allowed s n
    → (0 < n) × (n < s.max_inode_count) × (s.freeinode_ts n ≡ taken)
allowed_pos s n h = ground arith

pub IsLinked-entry :
    (s : FsState) (k : ℕ)
    → DirOk s
    → k < max_dir_entries s
    → d_inumber s.fs_data 0 k ≢ minus_one
    → IsLinked s (d_inumber s.fs_data 0 k)
IsLinked-entry s k dir lt ne =
    let one = linked_count (d_inumber s.fs_data 0) k (max_dir_entries s) lt in
    let pos =
      allowed_pos s (d_inumber s.fs_data 0 k)
        (omega (arith, one, dir.counted (d_inumber s.fs_data 0 k) ne)) in
    record { positive = pos.0; range = pos.1; in_use = pos.2; counted = one; known = ne }
