-- ===== src/Fs/Invariant/Unlink.antt =====
-- `tfs_unlink` (fs/operations.c) on a well-formed state.
use project_so.Prelude.{
  ℕ, suc, ◌+◌, ◌-◌, ◌≤◌, ◌<◌, ◌≡◌, refl, ◌∙◌, ◌≢◌, ◌⊎◌, inl, inr, true, none, some, List, [], ◌∷◌,
  arith, ltb, ◌==◌, Bool-cases, Option-cases, length,
}
use project_so.Memory.Bytes.{minus_one}
use project_so.Memory.Names.{IsCString}
use project_so.Fs.Types.{taken, FsState, Status, success, failure}
use project_so.Fs.Monad.{done, pure, ◌>>=◌, Returns}
use project_so.Fs.State.{inode_delete, inode_get}
use project_so.Fs.Directory.{d_inumber, clear_dir_entry}
use project_so.Fs.Operations.{PathName, valid_pathname, tfs_lookup, drop_link, tfs_unlink}
use mathlib.Core.Option
use project_so.Fs.Invariant.Defs.{tally, links, allowed, Owns, IsWf}
use project_so.Fs.Invariant.Links.{without_entry, links-without_entry}
use project_so.Fs.Invariant.Root.{
  root_index, find_in_dir-root, clear_dir_entry-root, named_index-eq-root_index, root_index-some,
  IsLinked-entry,
}
use project_so.Fs.Invariant.Inodes.{inode_delete_empty, inode_delete_full}
use project_so.Fs.Invariant.Steps.{
  IsWf-without_entry, IsWf-with_count, IsWf-without_inode, IsWf-deleted,
}
use project_so.Fs.Monad.{Returns-then}

pub inode_get_valid : (s : FsState) (n : ℕ) → n < s.max_inode_count → inode_get n s ≡ done n s
unfolding inode_get
inode_get_valid s n lt = let valid : ltb n s.max_inode_count ≡ true = ground arith in rw valid

-- A path that names a file: a slash and a name of characters.
abbrev pub IsPath : PathName → Type 0
IsPath none = ⊥
IsPath (some []) = ⊥
IsPath (some (c ∷ name)) = (c ≡ b'/') × (0 < length name) × IsCString name

pub tfs_lookup-root :
    (s : FsState) (c : ℕ) (name : List ℕ)
    → IsWf s
    → IsPath (some (c ∷ name))
    → tfs_lookup (some (c ∷ name)) 0 s
      ≡ done (Option.map (d_inumber s.fs_data 0) (root_index s name)) s
unfolding tfs_lookup valid_pathname
tfs_lookup-root s c name w p =
    let long : ltb 1 (suc (length name)) ≡ true = ground arith in
    let slash : (c == b'/') ≡ true = ground arith in
    rw (long, slash) (find_in_dir-root s name w.root)

-- An inode without links goes, whatever it holds.
inode_delete-IsWf :
    (s : FsState) (n : ℕ)
    → IsWf s
    → 0 < n
    → n < s.max_inode_count
    → s.freeinode_ts n ≡ taken
    → links s n ≡ 0
    → Returns (λ _ t. IsWf t × ((m : ℕ) → links t m ≡ links s m)) (inode_delete n s)
inode_delete-IsWf s n w pos lt used none_left = elim (Bool-cases ((s.inode_table n).i_size == 0)) [
  | inl empty ↦
      let e : (s.inode_table n).i_size ≡ 0 = ground arith in
      rw (inode_delete_empty s n lt used e) (IsWf-without_inode s n w pos none_left e, (λ m. refl))
  | inr full ↦
      let p : 0 < (s.inode_table n).i_size = ground arith in
      elim (Option-cases (s.inode_table n).i_data_block) [
        | inl e ↦ absurd (w.blocks.sized n lt used p e)
        | inr (b, e) ↦
            let owner : Owns s n b = record { range = lt; in_use = used; size = p; block = e } in
            let held = w.blocks.owned n b owner in
            rw (inode_delete_full s n b lt used p e held.0)
              (IsWf-deleted s n w pos none_left b owner, (λ m. refl))
      ]
]

-- What `tfs_unlink` does: nothing if no entry has the name, and else one link less, of the entry that
-- is found.
abbrev pub Unlinked : FsState → List ℕ → Status → FsState → Type 0
Unlinked s name rc t =
    ((rc ≡ failure) × (root_index s name ≡ none) × (t ≡ s))
    ⊎ ((rc ≡ success)
        × ((k : ℕ) × (root_index s name ≡ some k)
            × ((m : ℕ)
                → m ≢ minus_one
                → links t m + tally (d_inumber s.fs_data 0 k) m ≡ links s m)))

abbrev Post : FsState → List ℕ → Status → FsState → Type 0
Post s name rc t = IsWf t × Unlinked s name rc t

drop_link-Post :
    (s : FsState) (c : ℕ) (name : List ℕ) (k : ℕ)
    → IsWf s
    → IsPath (some (c ∷ name))
    → root_index s name ≡ some k
    → Returns (Post s name) (drop_link (some (c ∷ name)) 0 (d_inumber s.fs_data 0 k) s)
unfolding drop_link
drop_link-Post s c [] k w p e = absurd (omega arith)
drop_link-Post s c (x ∷ name) k w p e =
    let found = root_index-some s (x ∷ name) e in
    let n = d_inumber s.fs_data 0 k in
    let linked = IsLinked-entry s k w.dir found.0 found.1 in
    let cleared : clear_dir_entry 0 (x ∷ name) s ≡ done success (without_entry s k) =
      clear_dir_entry-root s (x ∷ name) w.root
      ∙ rw (named_index-eq-root_index s x name w.dir p.2 ∙ e) in
    let w' = IsWf-without_entry s k w found.0 in
    let less = λ (m : ℕ) (ne : m ≢ minus_one). links-without_entry s k m found.0 ne in
    let one : tally n n ≡ 1 = ground arith in
    let counted = w.dir.counted n linked.known in
    let used = linked.in_use in
    let cap : allowed s n ≡ (s.inode_table n).i_count =
      let a = linked.positive in let b = linked.range in ground arith in
    let fewer : links (without_entry s k) n + 1 ≤ (s.inode_table n).i_count =
      omega (arith, less n linked.known, one, counted, cap) in
    rw (inode_get_valid s n linked.range, ◌>>=◌)
      (rw (cleared, ◌>>=◌)
        (elim (Bool-cases (ltb 1 (s.inode_table n).i_count)) [
          | inl more ↦ rw more (
            IsWf-with_count (without_entry s k) n ((s.inode_table n).i_count - 1) w'
                (omega (arith, fewer)),
            inr (refl, (k, e, less)),
          )
          | inr last ↦
              let small : (s.inode_table n).i_count ≤ 1 = ground arith in
              rw last (
                Returns-then
                  {P = λ _ t. IsWf t × ((m : ℕ) → links t m ≡ links (without_entry s k) m)}
                  (Post s (x ∷ name)) (inode_delete n (without_entry s k)) (λ _. pure success) s
                  (inode_delete-IsWf (without_entry s k) n w' linked.positive linked.range used
                    (omega (arith, fewer, small)))
                  (λ _ t post. (post.0, inr (refl, (k, e, (λ m ne. rw (post.1 m) (less m ne)))))))
        ]))

tfs_unlink_missing :
    (s : FsState) (c : ℕ) (name : List ℕ)
    → IsWf s
    → IsPath (some (c ∷ name))
    → root_index s name ≡ none
    → tfs_unlink (some (c ∷ name)) s ≡ done failure s
unfolding tfs_unlink
tfs_unlink_missing s c name w p e =
    rw (inode_get_valid s 0 w.root.some_inodes, ◌>>=◌)
      (rw (tfs_lookup-root s c name w p, ◌>>=◌) (rw e))

tfs_unlink_found :
    (s : FsState) (c : ℕ) (name : List ℕ) (k : ℕ)
    → IsWf s
    → IsPath (some (c ∷ name))
    → root_index s name ≡ some k
    → tfs_unlink (some (c ∷ name)) s ≡ drop_link (some (c ∷ name)) 0 (d_inumber s.fs_data 0 k) s
unfolding tfs_unlink
tfs_unlink_found s c name k w p e =
    rw (inode_get_valid s 0 w.root.some_inodes, ◌>>=◌)
      (rw (tfs_lookup-root s c name w p, ◌>>=◌) (rw e))

-- On a well-formed state `tfs_unlink` returns, whatever the path names, and leaves a well-formed
-- state: unchanged, with a failure, if no entry has the name, and else with exactly one link less, to
-- the inode of the entry that has it.
pub tfs_unlink-Unlinked :
    (s : FsState) (c : ℕ) (name : List ℕ)
    → IsWf s
    → IsPath (some (c ∷ name))
    → Returns (λ rc t. IsWf t × Unlinked s name rc t) (tfs_unlink (some (c ∷ name)) s)
tfs_unlink-Unlinked s c name w p = elim (Option-cases (root_index s name)) [
  | inl e ↦ rw (tfs_unlink_missing s c name w p e) (w, inl (refl, e, refl))
  | inr (k, e) ↦ rw (tfs_unlink_found s c name k w p e) (drop_link-Post s c name k w p e)
]
