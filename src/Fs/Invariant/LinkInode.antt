-- ===== src/Fs/Invariant/LinkInode.antt =====
-- The inode and the block of a new symbolic link: `inode_create` (fs/state.c) and the copy of the
-- target's path in `tfs_sym_link` (fs/operations.c).
-- The inode that is given back when no block is left for the link.
use project_so.Prelude.{
  ℕ, ◌+◌, ◌*◌, ◌≤◌, ◌<◌, ◌≡◌, ◌≢◌, true, none, some, List, [], ◌∷◌, ◌++◌, arith, leb, length,
  get_or,
}
use project_so.Memory.Bytes.{store_below, store_list, minus_one}
use project_so.Memory.Scan.{first_index-some}
use project_so.Fs.Types.{t_soft_link, free, taken, Inode, FsState, is_free}
use project_so.Fs.Monad.{done, ◌>>=◌}
use project_so.Fs.State.{
  inode_alloc, data_block_alloc, create_soft_link, initialize, initialize_new, inode_create,
}
use project_so.Fs.Operations.{fs_data_size, strcpy_into}
use native.Mathlib.Nat.{mul-le-mul_right}
use project_so.Fs.Invariant.Defs.{links, allowed, IsWf}
use project_so.Fs.Invariant.Inodes.{
  update_self, update-update, first_free, first_free_block, with_inode, with_link, without_inode,
  inode_delete_empty,
}
use project_so.Fs.Invariant.Blocks.{not_root_of_free, IsWf-with_link, with_data, IsWf-with_data}
use project_so.Fs.Invariant.Blocks.{links-with_data}

abbrev pub unlinked_inode : FsState → ℕ → Inode
unlinked_inode s n = record (s.inode_table n) {
  i_node_type = t_soft_link;
  i_size = 0;
  i_data_block = none;
}

pub inode_create-no_inode :
    (s : FsState) → first_free s ≡ none → inode_create t_soft_link s ≡ done none s
unfolding inode_create inode_alloc initialize_new
inode_create-no_inode s e = rw (e, ◌>>=◌)

pub inode_create-no_block :
    (s : FsState) (n : ℕ)
    → first_free s ≡ some n
    → first_free_block s ≡ none
    → inode_create t_soft_link s ≡ done none (without_inode (with_inode s n (unlinked_inode s n)) n)
unfolding inode_create inode_alloc initialize_new initialize data_block_alloc create_soft_link
inode_create-no_block s n e f =
    let found = first_index-some (λ i. is_free (s.freeinode_ts i)) 0 s.max_inode_count e in
    let t = with_inode s n (unlinked_inode s n) in
    let taken_now = update_self s.freeinode_ts n taken in
    let typed = record (s.inode_table n) { i_node_type = t_soft_link } in
    let size : (t.inode_table n).i_size ≡ 0 =
      rw (update_self s.inode_table n (unlinked_inode s n)) in
    let deleted = inode_delete_empty t n (omega (arith, found.1)) taken_now size in
    rw (e, ◌>>=◌)
      (rw (f, ◌>>=◌)
        (simp update-update (
          rw (update_self s.inode_table n typed)
            (rw (deleted, ◌>>=◌) (rw (update-update s.freeinode_ts n taken free))))))

pub inode_create-soft_link :
    (s : FsState) (n b : ℕ)
    → first_free s ≡ some n
    → first_free_block s ≡ some b
    → inode_create t_soft_link s ≡ done (some n) (with_link s n b)
unfolding inode_create inode_alloc initialize_new initialize data_block_alloc create_soft_link
inode_create-soft_link s n b e f =
    let typed = record (s.inode_table n) { i_node_type = t_soft_link } in
    rw (e, ◌>>=◌) (rw (f, ◌>>=◌) (simp update-update (rw (update_self s.inode_table n typed))))

-- The state after the target's path is copied into the link's block.
abbrev pub with_target : FsState → ℕ → ℕ → List ℕ → FsState
with_target s n b target =
    with_data (with_link s n b) (store_list s.fs_data (b * s.block_size) (target ++ 0 ∷ []))

pub strcpy_into_block :
    (s : FsState) (n b : ℕ) (target : List ℕ)
    → b < s.max_block_count
    → length target + 1 ≤ s.block_size
    → strcpy_into (b * s.block_size) (some target) (with_link s n b)
      ≡ done tt (with_target s n b target)
unfolding strcpy_into
strcpy_into_block s n b target lt short =
    let fits : leb (b * s.block_size + length target + 1) (fs_data_size s) ≡ true =
      let room = mul-le-mul_right {m = b + 1} {n = s.max_block_count} s.block_size (omega arith) in
      ground (arith, room) in
    rw fits

pub IsWf-with_target :
    (s : FsState) (n b : ℕ) (target : List ℕ)
    → IsWf s
    → n < s.max_inode_count
    → s.freeinode_ts n ≡ free
    → b < s.max_block_count
    → s.free_blocks b ≡ free
    → IsWf (with_target s n b target)
unfolding store_list
IsWf-with_target s n b target w lt unused small spare =
    let pos = not_root_of_free s b w spare in
    let behind = mul-le-mul_right {m = 1} {n = b} s.block_size (omega arith) in
    IsWf-with_data (with_link s n b) _ (IsWf-with_link s n b w lt unused small spare) (λ x below.
      store_below s.fs_data (b * s.block_size) (length (target ++ 0 ∷ []))
        (λ j. get_or (target ++ 0 ∷ []) j 0) x (omega (arith, behind)))

pub with_target_room :
    (s : FsState) (n b : ℕ) (target : List ℕ)
    → IsWf s
    → 0 < n
    → n < s.max_inode_count
    → s.freeinode_ts n ≡ free
    → b < s.max_block_count
    → s.free_blocks b ≡ free
    → links (with_target s n b target) n < allowed (with_target s n b target) n
unfolding store_list
with_target_room s n b target w positive lt unused small spare =
    let known : n ≢ minus_one = let few = w.root.few_inodes in λ e. omega (arith, e, few) in
    let none_left = w.dir.counted n known in
    let pos = not_root_of_free s b w spare in
    let behind = mul-le-mul_right {m = 1} {n = b} s.block_size (omega arith) in
    let same =
      links-with_data (with_link s n b) _ (IsWf-with_link s n b w lt unused small spare)
        (λ x below.
          store_below s.fs_data (b * s.block_size) (length (target ++ 0 ∷ []))
            (λ j. get_or (target ++ 0 ∷ []) j 0) x (omega (arith, behind)))
        n in
    ground (arith, same)
