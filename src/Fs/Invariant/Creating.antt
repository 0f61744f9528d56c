-- ===== src/Fs/Invariant/Creating.antt =====
-- Creating a file: `tfs_open` (fs/operations.c) on a name that no entry has.
use project_so.Prelude.{
  ℕ, ◌%◌, ◌^◌, ◌<◌, ◌≡◌, refl, subst, ◌≢◌, inl, inr, Option, none, some, List, ◌∷◌, arith,
  Bool-cases, Option-cases,
}
use project_so.Memory.Bytes.{minus_one}
use project_so.Memory.Scan.{first_index-some}
use project_so.Fs.Types.{
  free, taken, FsState, max_dir_entries, is_free, OpenMode, Status, success, failure,
}
use project_so.Fs.Monad.{M, pure, ◌>>=◌, ◌>>◌, Returns-then, Returns}
use project_so.Fs.State.{inode_delete, add_to_open_file_table}
use project_so.Fs.Directory.{d_inumber, is_empty_entry, add_dir_entry}
use project_so.Fs.Operations.{open_created, create_and_open}
use project_so.Fs.Entries.{d_inumber-fill_entry}
use project_so.Fs.Invariant.Defs.{links, allowed, IsWf}
use project_so.Fs.Invariant.Links.{with_entry}
use project_so.Fs.Invariant.Root.{IsLinked-entry}
use project_so.Fs.Invariant.Inodes.{
  update_self, first_free, with_inode, empty_file, inode_create-file, inode_delete_empty,
}
use project_so.Fs.Invariant.Steps.{IsWf-new_file, IsWf-without_inode}
use project_so.Fs.Invariant.Linking.{Added, add_dir_entry-Added}
use project_so.Fs.Invariant.Opening.{Opened, FileOk-empty, add_to_open_file_table-Opened}

-- A new inode has no links, and its counter has room for one.
pub created_room :
    (s : FsState) (n : ℕ)
    → IsWf s
    → 0 < n
    → n < s.max_inode_count
    → s.freeinode_ts n ≡ free
    → (links s n ≡ 0)
      × (links (with_inode s n empty_file) n < allowed (with_inode s n empty_file) n)
created_room s n w pos lt unused =
    let known : n ≢ minus_one = let few = w.root.few_inodes in λ e. omega (arith, e, few) in
    let none_left = w.dir.counted n known in
    let taken_now = update_self s.freeinode_ts n taken in
    let file = update_self s.inode_table n empty_file in ground arith

links-added :
    (s : FsState) (k : ℕ) (name : List ℕ) (n : ℕ)
    → IsWf (with_entry s k name n)
    → k < max_dir_entries s
    → n < 2 ^ 31
    → 0 < links (with_entry s k name n) n
links-added s k name n w lt small =
    let n_fits : n % 2 ^ 32 ≡ n = omega arith in
    let e : d_inumber (with_entry s k name n).fs_data 0 k ≡ n =
      rw (d_inumber-fill_entry s.fs_data 0 k k name n) (ground arith) in
    let known : d_inumber (with_entry s k name n).fs_data 0 k ≢ minus_one =
      λ q. omega (arith, e, q) in
    subst (λ v. 0 < links (with_entry s k name n) v) e
      (IsLinked-entry (with_entry s k name n) k w.dir lt known).counted

abbrev pub with_name : ℕ → Status → M (Option ℕ)
with_name n rc = elim rc [
  | failure ↦ do inode_delete n; pure none
  | success ↦ add_to_open_file_table n 0
]

with_name-Opened :
    (s : FsState) (n : ℕ) (name : List ℕ) (rc : Status) (t : FsState)
    → IsWf s
    → 0 < n
    → n < s.max_inode_count
    → s.freeinode_ts n ≡ free
    → Added (with_inode s n empty_file) name n rc t
    → Returns (Opened s) (with_name n rc t)
with_name-Opened s n name rc t w pos lt unused (wt, inl (f, why, same)) =
    let s' = with_inode s n empty_file in
    let taken_now = update_self s.freeinode_ts n taken in
    let size : (s'.inode_table n).i_size ≡ 0 = rw (update_self s.inode_table n empty_file) in
    let room = created_room s n w pos lt unused in
    rw (f, same)
      (rw (inode_delete_empty s' n lt taken_now size, ◌>>=◌)
        (
          IsWf-without_inode s' n (IsWf-new_file s n w lt unused) pos room.0 size,
          (λ h no_handle. cc),
        ))
with_name-Opened s n name rc t w pos lt unused (wt, inr (f, (k, e, good, same))) =
    let s' = with_inode s n empty_file in
    let found = first_index-some (is_empty_entry s'.fs_data 0) 0 (max_dir_entries s') e in
    let small : n < 2 ^ 31 = let few = w.root.few_inodes in omega arith in
    let size : (s'.inode_table n).i_size ≡ 0 = rw (update_self s.inode_table n empty_file) in
    let wt' : IsWf (with_entry s' k name n) = rw same at wt in
    rw (f, same)
      (add_to_open_file_table-Opened s (with_entry s' k name n) n 0 wt'
        (FileOk-empty (with_entry s' k name n) n pos lt size)
        (links-added s' k name n wt' (omega (arith, found.1)) small) refl (λ h. refl))

open_created-Opened :
    (s : FsState) (n : ℕ) (name : List ℕ)
    → IsWf s
    → 0 < n
    → n < s.max_inode_count
    → s.freeinode_ts n ≡ free
    → Returns (Opened s) (open_created name 0 (some n) (with_inode s n empty_file))
unfolding open_created
open_created-Opened s n name w pos lt unused =
    let s' = with_inode s n empty_file in
    let w' = IsWf-new_file s n w lt unused in
    let room = created_room s n w pos lt unused in
    let small : n < 2 ^ 31 = let few = w.root.few_inodes in omega arith in
    let taken_now = update_self s.freeinode_ts n taken in
    let file = update_self s.inode_table n empty_file in
    Returns-then {P = Added s' name n} (Opened s) (add_dir_entry 0 name n s') (with_name n) s'
      (add_dir_entry-Added s' name n w' small room.1)
      (λ rc t. with_name-Opened s n name rc t w pos lt unused)

open_created-none :
    (s : FsState) (name : List ℕ) → IsWf s → Returns (Opened s) (open_created name 0 none s)
unfolding open_created
open_created-none s name w = (w, (λ h no_handle. cc))

pub create_and_open-Opened :
    (s : FsState) (c : ℕ) (name : List ℕ) (mode : OpenMode)
    → IsWf s
    → Returns (Opened s) (create_and_open (some (c ∷ name)) 0 mode s)
unfolding create_and_open
create_and_open-Opened s c name mode w = elim (Bool-cases mode.creat) [
  | inr off ↦ rw off (w, (λ h no_handle. cc))
  | inl wanted ↦ elim (Option-cases (first_free s)) [
    | inl e ↦ rw (wanted, inode_create-file s, ◌>>=◌) (rw e (open_created-none s name w))
    | inr (n, e) ↦
        let found = first_index-some (λ i. is_free (s.freeinode_ts i)) 0 s.max_inode_count e in
        let lt : n < s.max_inode_count = omega (arith, found.1) in
        let unused : s.freeinode_ts n ≡ free = ground (arith, found.2) in
        let pos : 0 < n = let in_use = w.root.in_use in ground arith in
        rw (wanted, inode_create-file s, ◌>>=◌)
          (rw (e, ◌>>=◌) (open_created-Opened s n name w pos lt unused))
  ]
]
