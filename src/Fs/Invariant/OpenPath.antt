-- ===== src/Fs/Invariant/OpenPath.antt =====
-- `tfs_open` (fs/operations.c) on a path that is no soft link.
use project_so.Prelude.{
  ℕ, suc, ◌≡◌, refl, inl, inr, Bool, true, false, none, some, List, ◌∷◌, arith, ltb, ◌==◌,
  if◌then◌else◌, Option-cases, length,
}
use project_so.Fs.Types.{FsState, OpenMode}
use project_so.Fs.Monad.{◌>>=◌, when, Returns-then, Returns}
use project_so.Fs.State.{add_to_open_file_table}
use project_so.Fs.Directory.{d_inumber, is_soft_link}
use project_so.Fs.Operations.{
  valid_pathname, truncate, open_inode, open_existing, create_and_open, nonnegative, tfs_open,
}
use project_so.Fs.Invariant.Defs.{links, FileOk, IsWf}
use project_so.Fs.Invariant.Root.{root_index, root_index-some, IsLinked, IsLinked-entry}
use project_so.Fs.Invariant.Unlink.{inode_get_valid, IsPath, tfs_lookup-root}
use project_so.Fs.Invariant.Opening.{
  Opened, FileOk-linked, add_to_open_file_table-Opened, truncate-Post,
}
use project_so.Fs.Invariant.Creating.{create_and_open-Opened}

-- What holds between the truncation, if the mode asks for it, and the new handle.
abbrev Ready : FsState → ℕ → Unit {0} → FsState → Type 0
Ready s n u t =
    IsWf t
    × FileOk t n
    × (links t n ≡ links s n)
    × (t.max_open_files_count ≡ s.max_open_files_count)
    × ((h : ℕ) → t.free_open_file_entries h ≡ s.free_open_file_entries h)

when-truncate-Ready :
    (s : FsState) (n : ℕ) (c : Bool)
    → IsWf s
    → IsLinked s n
    → Returns (Ready s n) (when c (truncate n) s)
when-truncate-Ready s n true w l = truncate-Post s n w l
when-truncate-Ready s n false w l = (w, FileOk-linked s n w l, refl, refl, (λ h. refl))

open_inode-Opened :
    (s : FsState) (n : ℕ) (mode : OpenMode)
    → IsWf s
    → IsLinked s n
    → Returns (Opened s) (open_inode mode n s)
unfolding open_inode
open_inode-Opened s n mode w l =
    rw (inode_get_valid s n l.range, ◌>>=◌)
      (Returns-then {P = Ready s n} (Opened s) (when mode.trunc (truncate n) s)
        (λ _ t. add_to_open_file_table n (if mode.append then (t.inode_table n).i_size else 0) t) s
        (when-truncate-Ready s n mode.trunc w l)
        (λ u t (wt, ok, same, size, table).
          add_to_open_file_table-Opened s t n (if mode.append then (t.inode_table n).i_size else 0)
            wt ok (rw same l.counted) size table))

pub tfs_open_missing :
    (fuel : ℕ) (s : FsState) (c : ℕ) (name : List ℕ) (mode : OpenMode)
    → IsWf s
    → IsPath (some (c ∷ name))
    → root_index s name ≡ none
    → tfs_open fuel (some (c ∷ name)) mode s ≡ create_and_open (some (c ∷ name)) 0 mode s
unfolding tfs_open valid_pathname
tfs_open_missing fuel s c name mode w p e =
    let long : ltb 1 (suc (length name)) ≡ true = ground arith in
    let slash : (c == b'/') ≡ true = ground arith in
    rw (long, slash, inode_get_valid s 0 w.root.some_inodes, ◌>>=◌)
      (rw (tfs_lookup-root s c name w p, ◌>>=◌) (rw e))

pub tfs_open_found :
    (fuel : ℕ) (s : FsState) (c : ℕ) (name : List ℕ) (mode : OpenMode) (k : ℕ)
    → IsWf s
    → IsPath (some (c ∷ name))
    → root_index s name ≡ some k
    → is_soft_link (s.inode_table (d_inumber s.fs_data 0 k)).i_node_type ≡ false
    → tfs_open fuel (some (c ∷ name)) mode s ≡ open_inode mode (d_inumber s.fs_data 0 k) s
unfolding tfs_open valid_pathname open_existing
tfs_open_found fuel s c name mode k w p e plain =
    let found = root_index-some s name e in
    let linked = IsLinked-entry s k w.dir found.0 found.1 in
    let long : ltb 1 (suc (length name)) ≡ true = ground arith in
    let slash : (c == b'/') ≡ true = ground arith in
    let positive : nonnegative (d_inumber s.fs_data 0 k) ≡ true =
      let a = linked.range in let b = w.root.few_inodes in ground arith in
    rw (long, slash, inode_get_valid s 0 w.root.some_inodes, ◌>>=◌)
      (rw (tfs_lookup-root s c name w p, ◌>>=◌)
        (rw (e, positive, inode_get_valid s (d_inumber s.fs_data 0 k) linked.range, ◌>>=◌)
          (rw plain)))

-- On a well-formed state, with a path of a slash and a name that is not the name of a soft link,
-- `tfs_open` returns in every mode and leaves a well-formed state; a handle that it returns was
-- unused and is in range, and names an inode with a link.
pub tfs_open-Opened :
    (fuel : ℕ) (s : FsState) (c : ℕ) (name : List ℕ) (mode : OpenMode)
    → IsWf s
    → IsPath (some (c ∷ name))
    → ((k : ℕ)
        → root_index s name ≡ some k
        → is_soft_link (s.inode_table (d_inumber s.fs_data 0 k)).i_node_type ≡ false)
    → Returns (Opened s) (tfs_open fuel (some (c ∷ name)) mode s)
tfs_open-Opened fuel s c name mode w p plain = elim (Option-cases (root_index s name)) [
  | inl e ↦ rw (tfs_open_missing fuel s c name mode w p e) (create_and_open-Opened s c name mode w)
  | inr (k, e) ↦
      let found = root_index-some s name e in
      rw (tfs_open_found fuel s c name mode k w p e (plain k e)) (
        open_inode-Opened s (d_inumber s.fs_data 0 k) mode w
          (IsLinked-entry s k w.dir found.0 found.1))
]
