-- ===== src/Fs/Invariant/Inodes.antt =====
-- The states in which the calls of fs/state.c on inodes and blocks end.
use project_so.Prelude.{
  ℕ, ◌<◌, ◌≡◌, fun_ext, inl, inr, true, Option, none, some, arith, ltb, Option-cases,
}
use project_so.Memory.Scan.{first_index}
use project_so.Fs.Types.{
  max_file_name, t_file, t_soft_link, free, taken, Inode, FsState, update, is_free,
}
use project_so.Fs.Monad.{done, ◌>>=◌}
use project_so.Fs.State.{
  inode_alloc, data_block_free, inode_delete, initialize, initialize_new, inode_create,
}

module _ {A : Type 0} where
  pub update_self : (f : ℕ → A) (i : ℕ) (a : A) → update f i a i ≡ a
  update_self f i a = ground arith

  pub update-update : (f : ℕ → A) (i : ℕ) (a b : A) → update (update f i a) i b ≡ update f i b
  update-update f i a b = fun_ext λ j. ground arith

abbrev pub first_free : FsState → Option ℕ
first_free s = first_index (λ i. is_free (s.freeinode_ts i)) 0 s.max_inode_count

abbrev pub first_free_block : FsState → Option ℕ
first_free_block s = first_index (λ i. is_free (s.free_blocks i)) 0 s.max_block_count

-- Inode `n` taken, with the fields `i`.
abbrev pub with_inode : FsState → ℕ → Inode → FsState
with_inode s n i = record s {
  freeinode_ts = update s.freeinode_ts n taken;
  inode_table = update s.inode_table n i;
}

abbrev pub empty_file : Inode
empty_file = record { i_node_type = t_file; i_size = 0; i_data_block = none; i_count = 1 }

pub inode_create-file :
    (s : FsState)
    → inode_create t_file s ≡ elim (first_free s) [
      | some n ↦ done (some n) (with_inode s n empty_file)
      | none ↦ done none s
    ]
unfolding inode_create inode_alloc initialize_new initialize
inode_create-file s = elim (Option-cases (first_free s)) [
  | inl e ↦ rw (e, ◌>>=◌)
  | inr (n, e) ↦
      let typed = record (s.inode_table n) { i_node_type = t_file } in
      rw (e, ◌>>=◌) (simp update-update (ground (arith, update_self s.inode_table n typed)))
]

abbrev pub with_link : FsState → ℕ → ℕ → FsState
with_link s n b =
    record (with_inode s n (record {
      i_node_type = t_soft_link;
      i_size = max_file_name;
      i_data_block = some b;
      i_count = 1;
    })) { free_blocks = update s.free_blocks b taken }

-- Deleting an inode of size 0, and one with a block.
abbrev pub without_inode : FsState → ℕ → FsState
without_inode s n = record s { freeinode_ts = update s.freeinode_ts n free }

abbrev pub without_block : FsState → ℕ → FsState
without_block s b = record s { free_blocks = update s.free_blocks b free }

pub inode_delete_empty :
    (s : FsState) (n : ℕ)
    → n < s.max_inode_count
    → s.freeinode_ts n ≡ taken
    → (s.inode_table n).i_size ≡ 0
    → inode_delete n s ≡ done tt (without_inode s n)
unfolding inode_delete
inode_delete_empty s n lt used e =
    let valid : ltb n s.max_inode_count ≡ true = ground arith in rw (valid, used, e, ◌>>=◌)

pub inode_delete_full :
    (s : FsState) (n b : ℕ)
    → n < s.max_inode_count
    → s.freeinode_ts n ≡ taken
    → 0 < (s.inode_table n).i_size
    → (s.inode_table n).i_data_block ≡ some b
    → b < s.max_block_count
    → inode_delete n s ≡ done tt (without_inode (without_block s b) n)
unfolding inode_delete data_block_free
inode_delete_full s n b lt used pos e small =
    let valid : ltb n s.max_inode_count ≡ true = ground arith in
    let full : ltb 0 (s.inode_table n).i_size ≡ true = ground arith in
    let valid_block : ltb b s.max_block_count ≡ true = ground arith in
    rw (valid, used, full, e, ◌>>=◌) (rw (valid_block, ◌>>=◌))
