-- ===== src/Fs/Invariant/Linking.antt =====
-- Creating hard links: `tfs_link` (fs/operations.c) on a well-formed state.
use project_so.Prelude.{
  ℕ, ◌+◌, ◌^◌, ◌<◌, ◌≡◌, refl, ◌⊎◌, inl, inr, true, false, none, some, List, ◌∷◌, arith, ltb,
  Bool-cases, Option-cases, length,
}
use project_so.Memory.Scan.{first_index-some}
use project_so.Fs.Types.{max_file_name, FsState, max_dir_entries, Status, success, failure}
use project_so.Fs.Monad.{done, pure, ◌>>=◌, Returns-then, Returns}
use project_so.Fs.Directory.{d_inumber, is_soft_link, is_empty_entry, add_dir_entry}
use project_so.Fs.Operations.{PathName, add_hard_link, tfs_link}
use project_so.Fs.Invariant.Defs.{links, allowed, IsWf}
use project_so.Fs.Invariant.Links.{with_entry}
use project_so.Fs.Invariant.Root.{
  root_index, is_file_name, free_index, add_dir_entry-root, add_dir_entry_refused, root_index-some,
  IsLinked, IsLinked-entry,
}
use project_so.Fs.Invariant.Steps.{IsWf-with_entry, with_count, IsWf-with_count}
use project_so.Fs.Invariant.Unlink.{inode_get_valid, IsPath, tfs_lookup-root}

-- Why no entry is added: the name is empty or too long, or there is no free entry.
abbrev pub Refused : FsState → List ℕ → Type 0
Refused s name = (is_file_name name ≡ false) ⊎ (free_index s ≡ none)

-- `add_dir_entry` on the root, for an inode with a link to spare.
abbrev pub Added : FsState → List ℕ → ℕ → Status → FsState → Type 0
Added s name v rc t =
    IsWf t
    × (((rc ≡ failure) × Refused s name × (t ≡ s))
        ⊎ ((rc ≡ success)
            × ((k : ℕ) × (free_index s ≡ some k)
                × (is_file_name name ≡ true)
                × (t ≡ with_entry s k name v))))

pub add_dir_entry-Added :
    (s : FsState) (name : List ℕ) (v : ℕ)
    → IsWf s
    → v < 2 ^ 31
    → links s v < allowed s v
    → Returns (Added s name v) (add_dir_entry 0 name v s)
add_dir_entry-Added s name v w small room = elim (Bool-cases (is_file_name name)) [
  | inr bad ↦ rw (add_dir_entry_refused s 0 name v bad) (w, inl (refl, inl bad, refl))
  | inl good ↦ elim (Option-cases (free_index s)) [
    | inl e ↦ rw (add_dir_entry-root s name v w.root good, e) (w, inl (refl, inr e, refl))
    | inr (k, e) ↦
        let found = first_index-some (is_empty_entry s.fs_data 0) 0 (max_dir_entries s) e in
        let short : length name < max_file_name = ground arith in
        rw (add_dir_entry-root s name v w.root good, e)
          (
            IsWf-with_entry s k name v w (omega (arith, found.1)) found.2 short small room,
            inr (refl, (k, e, good, refl)),
          )
  ]
]

-- An inode whose counter has just been raised.
abbrev pub counted_up : FsState → ℕ → FsState
counted_up s n = with_count s n ((s.inode_table n).i_count + 1)

module _ (s : FsState) (n : ℕ) (w : IsWf s) (linked : IsLinked s n) where
  counted_up-IsWf : IsWf (counted_up s n)
  counted_up-IsWf =
      let a = linked.positive in
      let b = linked.range in
      let c = linked.in_use in
      let fits = w.dir.counted n linked.known in
      IsWf-with_count s n ((s.inode_table n).i_count + 1) w (ground arith)

  counted_up_room : links s n < allowed (counted_up s n) n
  counted_up_room =
      let a = linked.positive in
      let b = linked.range in
      let c = linked.in_use in let fits = w.dir.counted n linked.known in ground arith

-- Nothing that a hard link can name: no entry, or a soft link.
abbrev pub NoTarget : FsState → List ℕ → Type 0
NoTarget s name =
    (root_index s name ≡ none)
    ⊎ ((k : ℕ) × (root_index s name ≡ some k)
        × (is_soft_link (s.inode_table (d_inumber s.fs_data 0 k)).i_node_type ≡ true))

-- What `tfs_link` does. It reports a success also where it could add no entry: only the counter has
-- then changed.
abbrev pub Linked : FsState → List ℕ → List ℕ → Status → FsState → Type 0
Linked s name link_name rc t =
    ((rc ≡ failure) × NoTarget s name × (t ≡ s))
    ⊎ ((rc ≡ success)
        × ((k : ℕ) × (root_index s name ≡ some k)
            × (is_soft_link (s.inode_table (d_inumber s.fs_data 0 k)).i_node_type ≡ false)
            × ((Refused s link_name × (t ≡ counted_up s (d_inumber s.fs_data 0 k)))
                ⊎ ((j : ℕ) × (free_index s ≡ some j)
                    × (is_file_name link_name ≡ true)
                    × (t
                        ≡ with_entry (counted_up s (d_inumber s.fs_data 0 k)) j link_name
                            (d_inumber s.fs_data 0 k))))))

abbrev Post : FsState → List ℕ → List ℕ → Status → FsState → Type 0
Post s name link_name rc t = IsWf t × Linked s name link_name rc t

after_link :
    (s : FsState) (name link_name : List ℕ) (k : ℕ) (rc : Status) (t : FsState)
    → root_index s name ≡ some k
    → is_soft_link (s.inode_table (d_inumber s.fs_data 0 k)).i_node_type ≡ false
    → Added (counted_up s (d_inumber s.fs_data 0 k)) link_name (d_inumber s.fs_data 0 k) rc t
    → Post s name link_name success t
after_link s name link_name k rc t e other (w, inl (f, why, same)) =
    (w, inr (refl, (k, e, other, inl (why, same))))
after_link s name link_name k rc t e other (w, inr (f, (j, g, h, same))) =
    (w, inr (refl, (k, e, other, inr (j, g, h, same))))

add_hard_link-Post :
    (s : FsState) (name : List ℕ) (d : ℕ) (link_name : List ℕ) (k : ℕ)
    → IsWf s
    → ((n : ℕ) → (s.inode_table n).i_count + 1 < 2 ^ 31)
    → root_index s name ≡ some k
    → Returns
        (Post s name link_name)
        (add_hard_link (some (d ∷ link_name)) 0 (d_inumber s.fs_data 0 k) s)
unfolding add_hard_link
add_hard_link-Post s name d link_name k w few e =
    let found = root_index-some s name e in
    let n = d_inumber s.fs_data 0 k in
    let linked = IsLinked-entry s k w.dir found.0 found.1 in
    let no_overflow : ltb ((s.inode_table n).i_count + 1) (2 ^ 31) ≡ true =
      let h = few n in ground arith in
    rw (inode_get_valid s n linked.range, ◌>>=◌)
      (elim (Bool-cases (is_soft_link (s.inode_table n).i_node_type)) [
        | inl soft ↦ rw soft (w, inl (refl, inr (k, e, soft), refl))
        | inr other ↦
            rw (other, ◌>>=◌)
              (rw (no_overflow, ◌>>=◌)
                (Returns-then {P = Added (counted_up s n) link_name n} (Post s name link_name)
                  (add_dir_entry 0 link_name n (counted_up s n)) (λ _. pure success) s
                  (add_dir_entry-Added (counted_up s n) link_name n (counted_up-IsWf s n w linked)
                    (let a = linked.range in let b = w.root.few_inodes in omega arith)
                    (counted_up_room s n w linked))
                  (λ rc t. after_link s name link_name k rc t e other)))
      ])

tfs_link_missing :
    (s : FsState) (c : ℕ) (name : List ℕ) (link_name : PathName)
    → IsWf s
    → IsPath (some (c ∷ name))
    → root_index s name ≡ none
    → tfs_link (some (c ∷ name)) link_name s ≡ done failure s
unfolding tfs_link
tfs_link_missing s c name link_name w p e =
    rw (inode_get_valid s 0 w.root.some_inodes, ◌>>=◌)
      (rw (tfs_lookup-root s c name w p, ◌>>=◌) (rw e))

tfs_link_found :
    (s : FsState) (c : ℕ) (name : List ℕ) (link_name : PathName) (k : ℕ)
    → IsWf s
    → IsPath (some (c ∷ name))
    → root_index s name ≡ some k
    → tfs_link (some (c ∷ name)) link_name s ≡ add_hard_link link_name 0 (d_inumber s.fs_data 0 k) s
unfolding tfs_link
tfs_link_found s c name link_name k w p e =
    rw (inode_get_valid s 0 w.root.some_inodes, ◌>>=◌)
      (rw (tfs_lookup-root s c name w p, ◌>>=◌) (rw e))

-- On a well-formed state, where no counter is at the largest int, `tfs_link` from a path of a slash
-- and a name to any path of at least one character returns and leaves a well-formed state. It fails
-- and changes nothing where the target has no entry or is a soft link; else it returns 0,
-- raises the target's counter and adds an entry for it, or no entry where the new name is empty or
-- too long or the directory is full.
pub tfs_link-Linked :
    (s : FsState) (c : ℕ) (name : List ℕ) (d : ℕ) (link_name : List ℕ)
    → IsWf s
    → IsPath (some (c ∷ name))
    → ((n : ℕ) → (s.inode_table n).i_count + 1 < 2 ^ 31)
    → Returns
        (λ rc t. IsWf t × Linked s name link_name rc t)
        (tfs_link (some (c ∷ name)) (some (d ∷ link_name)) s)
tfs_link-Linked s c name d link_name w p few = elim (Option-cases (root_index s name)) [
  | inl e ↦ rw (tfs_link_missing s c name (some (d ∷ link_name)) w p e) (w, inl (refl, inl e, refl))
  | inr (k, e) ↦
      rw (tfs_link_found s c name (some (d ∷ link_name)) k w p e)
        (add_hard_link-Post s name d link_name k w few e)
]
