-- ===== src/Fs/Invariant/SymLink.antt =====
-- `tfs_sym_link` (fs/operations.c) on a well-formed state.
use project_so.Prelude.{
  ℕ, ◌+◌, ◌≤◌, ◌<◌, ◌≡◌, refl, ◌≢◌, ◌⊎◌, inl, inr, true, Option, none, some, List, ◌∷◌, arith, ltb,
  Option-cases, length,
}
use project_so.Memory.Bytes.{minus_one}
use project_so.Memory.Scan.{first_index-some}
use project_so.Fs.Types.{
  max_file_name, t_soft_link, free, FsState, is_free, Status, success, failure,
}
use project_so.Fs.Monad.{done, pure, ◌>>=◌, Returns-then, Returns}
use project_so.Fs.State.{data_block_get, inode_create}
use project_so.Fs.Directory.{add_dir_entry}
use project_so.Fs.Operations.{PathName, link_created, tfs_sym_link}
use project_so.Fs.Invariant.Defs.{IsWf}
use project_so.Fs.Invariant.Root.{root_index}
use project_so.Fs.Invariant.Inodes.{
  update_self, first_free, first_free_block, with_inode, with_link, without_inode,
}
use project_so.Fs.Invariant.Steps.{IsWf-without_inode, IsWf-with_inode}
use project_so.Fs.Invariant.Blocks.{not_root_of_unused}
use project_so.Fs.Invariant.Unlink.{inode_get_valid, IsPath, tfs_lookup-root}
use project_so.Fs.Invariant.LinkInode.{
  unlinked_inode, inode_create-no_inode, inode_create-no_block, inode_create-soft_link, with_target,
  strcpy_into_block, IsWf-with_target, with_target_room,
}
use project_so.Fs.Invariant.Linking.{Added, add_dir_entry-Added}

-- What `tfs_sym_link` does. The result of `add_dir_entry` for the link is lost.
abbrev pub SymLinked : FsState → List ℕ → List ℕ → List ℕ → Status → FsState → Type 0
SymLinked s name target link_name rc t =
    ((rc ≡ failure)
      × ((root_index s name ≡ none) ⊎ (first_free s ≡ none) ⊎ (first_free_block s ≡ none)))
    ⊎ ((rc ≡ success)
        × ((k : ℕ) × (n : ℕ) × (b : ℕ) × (added : Status) × (root_index s name ≡ some k)
            × (first_free s ≡ some n)
            × (first_free_block s ≡ some b)
            × Added (with_target s n b target) link_name n added t))

abbrev Post : FsState → List ℕ → List ℕ → List ℕ → Status → FsState → Type 0
Post s name target link_name rc t = IsWf t × SymLinked s name target link_name rc t

module _ (s : FsState) (c : ℕ) (name : List ℕ) (d : ℕ) (link_name : List ℕ) (w : IsWf s) (n : ℕ)
    (e : first_free s ≡ some n) where
  abbrev target_path : List ℕ
  target_path = c ∷ name

  free_inode_facts : (0 < n) × (n < s.max_inode_count) × (s.freeinode_ts n ≡ free)
  free_inode_facts =
      let found = first_index-some (λ i. is_free (s.freeinode_ts i)) 0 s.max_inode_count e in
      let unused : s.freeinode_ts n ≡ free = ground (arith, found.2) in
      let apart = not_root_of_unused s n w unused in (omega arith, omega (arith, found.1), unused)

  link_created-Post :
      (k b : ℕ)
      → root_index s name ≡ some k
      → first_free_block s ≡ some b
      → length target_path + 1 ≤ s.block_size
      → Returns
          (Post s name target_path link_name)
          (link_created (some target_path) (some (d ∷ link_name)) 0 (some n) (with_link s n b))
  unfolding link_created data_block_get
  link_created-Post k b found_k f short =
      let found = first_index-some (λ i. is_free (s.free_blocks i)) 0 s.max_block_count f in
      let small : b < s.max_block_count = omega (arith, found.1) in
      let spare : s.free_blocks b ≡ free = ground (arith, found.2) in
      let (pos, lt, unused) = free_inode_facts in
      let valid : ltb b s.max_block_count ≡ true = ground arith in
      let t = with_target s n b target_path in
      rw (inode_get_valid (with_link s n b) n lt, ◌>>=◌)
        (rw
          (
            update_self s.inode_table n (record {
              i_node_type = t_soft_link;
              i_size = max_file_name;
              i_data_block = some b;
              i_count = 1;
            }),
            valid,
            ◌>>=◌,
          )
          (rw (strcpy_into_block s n b target_path small short, ◌>>=◌)
            (Returns-then {P = Added t link_name n} (Post s name target_path link_name)
              (add_dir_entry 0 link_name n t) (λ _. pure success) t
              (add_dir_entry-Added t link_name n
                (IsWf-with_target s n b target_path w lt unused small spare)
                (let few = w.root.few_inodes in omega arith)
                (with_target_room s n b target_path w pos lt unused small spare))
              (λ rc u h. (h.0, inr (refl, (k, n, b, rc, found_k, e, f, h)))))))

  no_block-Post :
      first_free_block s ≡ none
      → Post s name target_path link_name failure
          (without_inode (with_inode s n (unlinked_inode s n)) n)
  no_block-Post f =
      let (pos, lt, unused) = free_inode_facts in
      let t = with_inode s n (unlinked_inode s n) in
      let known : n ≢ minus_one = let few = w.root.few_inodes in λ q. omega (arith, q, few) in
      let none_left = w.dir.counted n known in
      let size : (t.inode_table n).i_size ≡ 0 =
        rw (update_self s.inode_table n (unlinked_inode s n)) in
      (
        IsWf-without_inode t n (IsWf-with_inode s n w lt unused (unlinked_inode s n) refl) pos
            (ground arith) size,
        inl (refl, inr (inr f)),
      )

tfs_sym_link_missing :
    (s : FsState) (c : ℕ) (name : List ℕ) (link_name : PathName)
    → IsWf s
    → IsPath (some (c ∷ name))
    → root_index s name ≡ none
    → tfs_sym_link (some (c ∷ name)) link_name s ≡ done failure s
unfolding tfs_sym_link
tfs_sym_link_missing s c name link_name w p e =
    rw (inode_get_valid s 0 w.root.some_inodes, ◌>>=◌)
      (rw (tfs_lookup-root s c name w p, ◌>>=◌) (rw e))

tfs_sym_link_found :
    (s : FsState) (c : ℕ) (name : List ℕ) (link_name : PathName) (k : ℕ) (r : Option ℕ)
    (t : FsState)
    → IsWf s
    → IsPath (some (c ∷ name))
    → root_index s name ≡ some k
    → inode_create t_soft_link s ≡ done r t
    → tfs_sym_link (some (c ∷ name)) link_name s ≡ link_created (some (c ∷ name)) link_name 0 r t
unfolding tfs_sym_link
tfs_sym_link_found s c name link_name k r t w p e f =
    rw (inode_get_valid s 0 w.root.some_inodes, ◌>>=◌)
      (rw (tfs_lookup-root s c name w p, ◌>>=◌) (rw (e, f, ◌>>=◌)))

link_created-refused :
    (path link_name : PathName) (root : ℕ) (t : FsState)
    → link_created path link_name root none t ≡ done failure t
unfolding link_created
link_created-refused path link_name root t = refl

-- On a well-formed state, with a target path of a slash and a name that fits in a block with its final
-- 0, and any link path of at least one character, `tfs_sym_link` returns and leaves a well-formed
-- state. It fails where the target has no entry, or no inode or no block is free; else it returns 0,
-- and the first free inode is a link whose block, the first free one, starts with the target's path,
-- with an entry under the link's name if that could be added.
pub tfs_sym_link-SymLinked :
    (s : FsState) (c : ℕ) (name : List ℕ) (d : ℕ) (link_name : List ℕ)
    → IsWf s
    → IsPath (some (c ∷ name))
    → length (c ∷ name) + 1 ≤ s.block_size
    → Returns
        (λ rc t. IsWf t × SymLinked s name (c ∷ name) link_name rc t)
        (tfs_sym_link (some (c ∷ name)) (some (d ∷ link_name)) s)
tfs_sym_link-SymLinked s c name d link_name w p short = elim (Option-cases (root_index s name)) [
  | inl e ↦ rw (tfs_sym_link_missing s c name (some (d ∷ link_name)) w p e) (w, inl (refl, inl e))
  | inr (k, e) ↦ elim (Option-cases (first_free s)) [
    | inl f ↦
        rw
          (
            tfs_sym_link_found s c name (some (d ∷ link_name)) k none s w p e
                (inode_create-no_inode s f),
            link_created-refused (some (c ∷ name)) (some (d ∷ link_name)) 0 s,
          )
          (w, inl (refl, inr (inl f)))
    | inr (n, f) ↦ elim (Option-cases (first_free_block s)) [
      | inl g ↦
          let t = without_inode (with_inode s n (unlinked_inode s n)) n in
          rw
            (
              tfs_sym_link_found s c name (some (d ∷ link_name)) k none t w p e
                  (inode_create-no_block s n f g),
              link_created-refused (some (c ∷ name)) (some (d ∷ link_name)) 0 t,
            )
            (no_block-Post s c name d link_name w n f g)
      | inr (b, g) ↦
          rw
            (tfs_sym_link_found s c name (some (d ∷ link_name)) k (some n) (with_link s n b) w p e
              (inode_create-soft_link s n b f g))
            (link_created-Post s c name d link_name w n f k b e g short)
    ]
  ]
]
