-- ===== src/Fs/Invariant/CreateMode.antt =====
-- `tfs_open` (fs/operations.c) in a mode that creates the file and neither truncates it nor appends:
-- what it leaves, exactly.
use project_so.Prelude.{◌⊎◌}
use project_so.Fs.Monad.{Returns-weaken, ◌>>=◌, Returns-then, Returns}
use project_so.Fs.Invariant.Opening.{
  first_handle, add_to_open_file_table_full, add_to_open_file_table_free,
}
use project_so.Fs.Invariant.Creating.{with_name, created_room}
use project_so.Fs.Invariant.OpenPath.{tfs_open_missing, tfs_open_found}
use project_so.Fs.Invariant.Blocks.{with_handle}
use project_so.Fs.Invariant.Inodes.{
  without_inode, update_self, first_free, with_inode, empty_file, inode_create-file,
  inode_delete_empty,
}
use project_so.Fs.Invariant.Root.{
  free_index, is_file_name, IsLinked-entry, root_index, root_index-some,
}
use project_so.Fs.Invariant.Linking.{Refused, Added, add_dir_entry-Added}
use project_so.Prelude.{
  ℕ, ◌^◌, ◌<◌, ◌≡◌, refl, inl, inr, Option, none, some, List, ◌∷◌, arith, Option-cases, true, false,
}
use project_so.Memory.Scan.{first_index-some}
use project_so.Fs.Types.{free, taken, FsState, is_free, OpenMode, Status}
use project_so.Fs.State.{add_to_open_file_table}
use project_so.Fs.Directory.{d_inumber, add_dir_entry, is_soft_link}
use project_so.Fs.Operations.{open_created, create_and_open, open_inode, tfs_open}
use project_so.Fs.Invariant.Defs.{IsWf}
use project_so.Fs.Invariant.Links.{with_entry}
use project_so.Fs.Invariant.Steps.{IsWf-new_file}
use project_so.Fs.Invariant.Unlink.{inode_get_valid, IsPath}

-- The first free handle is given out, if there is one.
abbrev pub HandleGiven : FsState → ℕ → Option ℕ → FsState → Type 0
HandleGiven s n fd t =
    ((first_handle s ≡ none) × (fd ≡ none) × (t ≡ s))
    ⊎ ((h : ℕ) × (first_handle s ≡ some h) × (fd ≡ some h) × (t ≡ with_handle s h n 0))

-- A file that was not there: no inode is left for it, or its name is refused, or it is an empty file
-- with an entry.
abbrev pub FileAdded : FsState → List ℕ → Option ℕ → FsState → Type 0
FileAdded s name fd t =
    ((first_free s ≡ none) × (fd ≡ none) × (t ≡ s))
    ⊎ ((n : ℕ) × (first_free s ≡ some n)
        × ((Refused (with_inode s n empty_file) name
              × (fd ≡ none)
              × (t ≡ without_inode (with_inode s n empty_file) n))
            ⊎ ((k : ℕ) × (free_index (with_inode s n empty_file) ≡ some k)
                × (is_file_name name ≡ true)
                × HandleGiven (with_entry (with_inode s n empty_file) k name n) n fd t)))

-- A file that is there is opened at its start, as it is.
abbrev pub FileOpened : FsState → List ℕ → Option ℕ → FsState → Type 0
FileOpened s name fd t =
    ((k : ℕ) × (root_index s name ≡ some k) × HandleGiven s (d_inumber s.fs_data 0 k) fd t)
    ⊎ ((root_index s name ≡ none) × FileAdded s name fd t)

add_to_open_file_table-HandleGiven :
    (s : FsState) (n : ℕ) → Returns (HandleGiven s n) (add_to_open_file_table n 0 s)
add_to_open_file_table-HandleGiven s n = elim (Option-cases (first_handle s)) [
  | inl e ↦ rw (add_to_open_file_table_full s n 0 e) (inl (e, refl, refl))
  | inr (h, e) ↦ rw (add_to_open_file_table_free s n 0 h e) (inr (h, e, refl, refl))
]

with_name-FileAdded :
    (s : FsState) (n : ℕ) (name : List ℕ) (rc : Status) (t : FsState)
    → n < s.max_inode_count
    → first_free s ≡ some n
    → Added (with_inode s n empty_file) name n rc t
    → Returns (FileAdded s name) (with_name n rc t)
with_name-FileAdded s n name rc t lt e (wt, inl (f, why, same)) =
    let s' = with_inode s n empty_file in
    let taken_now = update_self s.freeinode_ts n taken in
    let size : (s'.inode_table n).i_size ≡ 0 = rw (update_self s.inode_table n empty_file) in
    rw (f, same)
      (rw (inode_delete_empty s' n lt taken_now size, ◌>>=◌) (inr (n, e, inl (why, refl, refl))))
with_name-FileAdded s n name rc t lt e (wt, inr (f, (k, free_k, good, same))) =
    rw (f, same)
      (Returns-weaken (FileAdded s name)
        (add_to_open_file_table n 0 (with_entry (with_inode s n empty_file) k name n))
        (add_to_open_file_table-HandleGiven (with_entry (with_inode s n empty_file) k name n) n)
        (λ fd u h. inr (n, e, inr (k, free_k, good, h))))

open_created-FileAdded :
    (s : FsState) (n : ℕ) (name : List ℕ)
    → IsWf s
    → 0 < n
    → n < s.max_inode_count
    → s.freeinode_ts n ≡ free
    → first_free s ≡ some n
    → Returns (FileAdded s name) (open_created name 0 (some n) (with_inode s n empty_file))
unfolding open_created
open_created-FileAdded s n name w pos lt unused e =
    let s' = with_inode s n empty_file in
    let small : n < 2 ^ 31 = let few = w.root.few_inodes in omega arith in
    Returns-then {P = Added s' name n} (FileAdded s name) (add_dir_entry 0 name n s') (with_name n)
      s'
      (add_dir_entry-Added s' name n (IsWf-new_file s n w lt unused) small
        (created_room s n w pos lt unused).1)
      (λ rc t. with_name-FileAdded s n name rc t lt e)

open_created-no_inode :
    (s : FsState) (name : List ℕ)
    → first_free s ≡ none
    → Returns (FileAdded s name) (open_created name 0 none s)
unfolding open_created
open_created-no_inode s name e = inl (e, refl, refl)

create_and_open-FileAdded :
    (s : FsState) (c : ℕ) (name : List ℕ) (mode : OpenMode)
    → IsWf s
    → mode.creat ≡ true
    → Returns (FileAdded s name) (create_and_open (some (c ∷ name)) 0 mode s)
unfolding create_and_open
create_and_open-FileAdded s c name mode w wanted = elim (Option-cases (first_free s)) [
  | inl e ↦ rw (wanted, inode_create-file s, ◌>>=◌) (rw e (open_created-no_inode s name e))
  | inr (n, e) ↦
      let found = first_index-some (λ i. is_free (s.freeinode_ts i)) 0 s.max_inode_count e in
      let lt : n < s.max_inode_count = omega (arith, found.1) in
      let unused : s.freeinode_ts n ≡ free = ground (arith, found.2) in
      let pos : 0 < n = let in_use = w.root.in_use in ground arith in
      rw (wanted, inode_create-file s, ◌>>=◌)
        (rw (e, ◌>>=◌) (open_created-FileAdded s n name w pos lt unused e))
]

open_inode-HandleGiven :
    (s : FsState) (n : ℕ) (mode : OpenMode)
    → n < s.max_inode_count
    → mode.trunc ≡ false
    → mode.append ≡ false
    → Returns (HandleGiven s n) (open_inode mode n s)
unfolding open_inode
open_inode-HandleGiven s n mode lt kept start =
    rw (inode_get_valid s n lt, ◌>>=◌)
      (rw (kept, start, ◌>>=◌) (add_to_open_file_table-HandleGiven s n))

-- On a well-formed state, with a path of a slash and a name that is not the name of a soft link,
-- `tfs_open` in a mode that creates the file and neither truncates it nor appends returns the first
-- free handle, set to the start of the file, or fails if there is none. A file that is there stays as
-- it is. One that is not is an empty file in the first free inode, with an entry in the first free
-- place, also where there is then no handle; if no inode or no entry is free or the name is empty or
-- too long, the call fails, and no entry changes.
pub tfs_open-FileOpened :
    (fuel : ℕ) (s : FsState) (c : ℕ) (name : List ℕ) (mode : OpenMode)
    → IsWf s
    → IsPath (some (c ∷ name))
    → ((k : ℕ)
        → root_index s name ≡ some k
        → is_soft_link (s.inode_table (d_inumber s.fs_data 0 k)).i_node_type ≡ false)
    → mode.creat ≡ true
    → mode.trunc ≡ false
    → mode.append ≡ false
    → Returns (FileOpened s name) (tfs_open fuel (some (c ∷ name)) mode s)
tfs_open-FileOpened fuel s c name mode w p plain wanted kept start =
    elim (Option-cases (root_index s name)) [
      | inl e ↦ rw (tfs_open_missing fuel s c name mode w p e) (
          Returns-weaken (FileOpened s name) (create_and_open (some (c ∷ name)) 0 mode s)
            (create_and_open-FileAdded s c name mode w wanted) (λ fd u h. inr (e, h)))
      | inr (k, e) ↦
          let found = root_index-some s name e in
          let n = d_inumber s.fs_data 0 k in
          rw (tfs_open_found fuel s c name mode k w p e (plain k e)) (
            Returns-weaken (FileOpened s name) (open_inode mode n s)
              (open_inode-HandleGiven s n mode (IsLinked-entry s k w.dir found.0 found.1).range kept
                start)
              (λ fd u h. inl (k, e, h)))
    ]
