-- ===== src/Fs/Invariant/Init.antt =====
-- `tfs_init` (fs/operations.c), with state_init and inode_create of fs/state.c.
use project_so.Prelude.{
  ℕ, zero, suc, ◌+◌, ◌*◌, ◌/◌, ◌^◌, ◌≤◌, ◌<◌, ◌≡◌, refl, sym, ◌∙◌, ◌≢◌, inl, inr, true, false, some,
  arith, ltb, ◌==◌, Bool-cases,
}
use project_so.Memory.Bytes.{
  Memory, store, store_below, byte_of, write_int, minus_one, read_int-write_int, read_int-congr,
}
use project_so.Memory.Scan.{first_index, first_index_at}
use project_so.Fs.Types.{
  max_file_name, TfsParams, t_directory, AllocationState, taken, FsState, sizeof_dir_entry, update,
  is_free, success,
}
use project_so.Fs.Monad.{done, ◌>>=◌, Returns}
use project_so.Fs.State.{
  Malloc, all_free, state_init, inode_alloc, data_block_alloc, data_block_get, clear_inumbers,
  create_directory, initialize, initialize_new, inode_create,
}
use project_so.Fs.Directory.{entry_at, d_inumber}
use project_so.Fs.Operations.{create_root, tfs_init}
use project_so.Fs.Invariant.Defs.{count, count-congr, IsWf}
use project_so.Fs.Invariant.Inodes.{update-update}

clear_inumbers_frame :
    (m : Memory) (k i : ℕ) → clear_inumbers m 0 k (entry_at 0 i) ≡ m (entry_at 0 i)
unfolding clear_inumbers write_int store
clear_inumbers_frame m zero i = refl
clear_inumbers_frame m (suc k) i = let before = clear_inumbers_frame m k i in ground arith

d_inumber-clear_inumbers :
    (m : Memory) (k i : ℕ) → i < k → d_inumber (clear_inumbers m 0 k) 0 i ≡ minus_one
unfolding clear_inumbers write_int
d_inumber-clear_inumbers m zero i lt = absurd (omega arith)
d_inumber-clear_inumbers m (suc k) i lt = elim (Bool-cases (i == k)) [
  | inl same ↦
      let e : i ≡ k = ground arith in
      rw e (read_int-write_int (clear_inumbers m 0 k) (entry_at 0 k + max_file_name) minus_one)
  | inr other ↦
      let ne : i ≢ k = ground arith in
      read_int-congr _ (clear_inumbers m 0 k) (entry_at 0 i + max_file_name) (λ j small.
        store_below (clear_inumbers m 0 k) (entry_at 0 k + max_file_name) 4 (byte_of minus_one)
          (entry_at 0 i + max_file_name + j) (omega arith))
      ∙ d_inumber-clear_inumbers m k i (omega arith)
]

count-const : (v n k : ℕ) → v ≢ n → count (λ _. v) n k ≡ 0
unfolding count
count-const v n zero ne = refl
count-const v n (suc k) ne = let rest = count-const v n k ne in ground arith

-- What the memory must hold for the names of the root's entries, which `inode_create` leaves as
-- malloc returned them: no entry may look as if it had a name.
abbrev pub NamesClear : Malloc → TfsParams → Type 0
NamesClear m params =
    (i : ℕ) → i < params.block_size / sizeof_dir_entry → m.bytes (entry_at 0 i) ≡ 0

-- Parameters that the code can work with.
abbrev pub ParamsOk : TfsParams → Type 0
ParamsOk params = record {
  some_inodes : 0 < params.max_inode_count;
  few_inodes : params.max_inode_count ≤ 2 ^ 31;
  some_blocks : 0 < params.max_block_count;
  some_bytes : 0 < params.block_size;
  small_data : params.max_block_count * params.block_size < 2 ^ 63;
}

-- The state after a first `tfs_init`.
abbrev pub mounted : Malloc → TfsParams → FsState
mounted m params = record {
  fs_params = params;
  initialised = true;
  inode_table = update m.inodes 0 (record (m.inodes 0) {
    i_node_type = t_directory;
    i_size = params.block_size;
    i_data_block = some 0;
  });
  freeinode_ts = update (all_free params.max_inode_count m.inode_states) 0 taken;
  fs_data = clear_inumbers m.bytes 0 (params.block_size / sizeof_dir_entry);
  free_blocks = update (all_free params.max_block_count m.block_states) 0 taken;
  open_file_table = m.open_files;
  free_open_file_entries = all_free params.max_open_files_count m.open_file_states;
}

first_of_all_free :
    (n : ℕ) (t : ℕ → AllocationState)
    → 0 < n
    → first_index (λ i. is_free (all_free n t i)) 0 n ≡ some 0
first_of_all_free n t pos =
    first_index_at (λ i. is_free (all_free n t i)) 0 n 0 (omega arith) (omega arith) (ground arith)
      (λ j lo hi. absurd (omega arith))

tfs_init-mounted :
    (m : Malloc) (params : TfsParams) (s : FsState)
    → ParamsOk params
    → s.initialised ≡ false
    → m.inode_table_allocated ≡ true
    → m.others_allocated ≡ true
    → tfs_init m (some params) s ≡ done success (mounted m params)
unfolding tfs_init state_init create_root inode_create inode_alloc initialize_new initialize
    data_block_alloc create_directory data_block_get
tfs_init-mounted m params s ok fresh a b =
    let inode = first_of_all_free params.max_inode_count m.inode_states ok.some_inodes in
    let block = first_of_all_free params.max_block_count m.block_states ok.some_blocks in
    let valid : ltb 0 params.max_block_count ≡ true = let h = ok.some_blocks in ground arith in
    rw (fresh, a, b)
      (rw (inode, ◌>>=◌) (rw (block, ◌>>=◌) (rw (valid, ◌>>=◌, update-update) (ground arith))))

module _ (m : Malloc) (params : TfsParams) (ok : ParamsOk params)
    (clear : NamesClear m params) where
  pub IsWf-mounted : IsWf (mounted m params)
  IsWf-mounted = record {
    root =
        let a = ok.some_inodes in
        let b = ok.few_inodes in
        let c = ok.some_blocks in let d = ok.small_data in let e = ok.some_bytes in ground arith;
    dir = record {
      names = λ i lt. (
        (λ empty.
            clear_inumbers_frame m.bytes (params.block_size / sizeof_dir_entry) i ∙ clear i lt),
        (λ full.
            let e = d_inumber-clear_inumbers m.bytes (params.block_size / sizeof_dir_entry) i lt in
            ground arith),
      );
      counted = λ n ne.
          let entries = params.block_size / sizeof_dir_entry in
          let empty = d_inumber-clear_inumbers m.bytes entries in
          let none_left =
            count-congr (d_inumber (clear_inumbers m.bytes 0 entries) 0) (λ _. minus_one) n entries
              empty
            ∙ count-const minus_one n entries (λ e. ne (sym e)) in
          ground (arith, none_left);
    };
    blocks = record {
      owned = λ n b o. ground (arith, ok.some_blocks);
      sized = λ n r u p. ground arith;
      unique = λ n n' b o o'. ground arith;
    };
    handles = λ h r u. absurd (ground arith);
  }

-- A first `tfs_init` whose calls of malloc all succeed, with at least one inode and block, at most
-- 2^31 inodes, blocks of at least a byte and data below 2^63 bytes, returns 0; if the first byte of
-- each name in the root's block was 0 in the fresh memory, the file system is then well-formed.
pub tfs_init-IsWf :
    (m : Malloc) (params : TfsParams) (s : FsState)
    → ParamsOk params
    → NamesClear m params
    → s.initialised ≡ false
    → m.inode_table_allocated ≡ true
    → m.others_allocated ≡ true
    → Returns (λ rc t. (rc ≡ success) × IsWf t) (tfs_init m (some params) s)
tfs_init-IsWf m params s ok clear fresh a b =
    rw (tfs_init-mounted m params s ok fresh a b) (refl, IsWf-mounted m params ok clear)
