-- ===== src/Fs/Invariant/WriteFile.antt =====
-- The parts of `tfs_write` (fs/operations.c) on a well-formed state.
use project_so.Prelude.{
  ℕ, ◌+◌, ◌-◌, ◌*◌, ◌%◌, ◌^◌, ◌≤◌, ◌<◌, min, ◌≡◌, true, false, none, some, List, arith, ltb, leb,
  ◌==◌, if◌then◌else◌, length, get_or,
}
use project_so.Memory.Bytes.{Memory, store, store_below}
use project_so.Fs.Types.{free, FsState, success, failure}
use project_so.Fs.Monad.{done, ◌>>=◌}
use project_so.Fs.State.{data_block_alloc, data_block_get}
use project_so.Fs.Operations.{fs_data_size}
use project_so.Fs.Files.{clip, ensure_block, advance, copy_in}
use project_so.Fs.Invariant.Writing.{
  with_block, with_size, IsWf-with_size, IsWf-with_block, with_offset, IsWf-with_offset,
}
use native.Mathlib.Nat.{mul-le-mul_right}
use project_so.Fs.Invariant.Defs.{IsWf}
use project_so.Fs.Invariant.Inodes.{update_self, update-update, first_free_block}
use project_so.Fs.Invariant.Blocks.{not_root_of_free, with_data, IsWf-with_data}

-- The bytes that fit in the block behind the offset.
abbrev pub fitting : FsState → ℕ → ℕ → ℕ
fitting s h to_write = min to_write (s.block_size - (s.open_file_table h).of_offset)

pub clip-min :
    (bs offset to_write : ℕ)
    → offset ≤ bs
    → bs < 2 ^ 63
    → to_write < 2 ^ 63
    → clip bs offset to_write ≡ min to_write (bs - offset)
unfolding clip
clip-min bs offset to_write lt small small' =
    let sum : (to_write + offset) % 2 ^ 64 ≡ to_write + offset = omega arith in
    let left : (bs + 2 ^ 64 - offset) % 2 ^ 64 ≡ bs - offset = omega arith in
    rw (sum, left) (ground arith)

-- The state after the copy and the update of the offset and the size.
abbrev pub with_bytes : FsState → ℕ → ℕ → List ℕ → ℕ → FsState
with_bytes s h b buffer k =
    let entry = s.open_file_table h in
    let offset = entry.of_offset + k in
    let size = (s.inode_table entry.of_inumber).i_size in
    with_offset
      (with_size
        (with_data s
          (store s.fs_data (b * s.block_size + entry.of_offset) k (λ j. get_or buffer j 0)))
        entry.of_inumber (if ltb size offset then offset else size))
      h offset

pub copy_in-with_bytes :
    (s : FsState) (h b : ℕ) (buffer : List ℕ) (k : ℕ)
    → (s.inode_table (s.open_file_table h).of_inumber).i_data_block ≡ some b
    → b < s.max_block_count
    → k ≤ length buffer
    → (s.open_file_table h).of_offset + k ≤ s.block_size
    → s.block_size < 2 ^ 63
    → copy_in h (s.open_file_table h).of_inumber buffer k s
      ≡ done (some k) (with_bytes s h b buffer k)
unfolding copy_in data_block_get advance
copy_in-with_bytes s h b buffer k e lt long inside small =
    let valid : ltb b s.max_block_count ≡ true = ground arith in
    let enough : leb k (length buffer) ≡ true = ground arith in
    let room = mul-le-mul_right {m = b + 1} {n = s.max_block_count} s.block_size (omega arith) in
    let fits : leb (b * s.block_size + (s.open_file_table h).of_offset + k) (fs_data_size s)
        ≡ true =
      ground (arith, room) in
    let sum : ((s.open_file_table h).of_offset + k) % 2 ^ 64 ≡ (s.open_file_table h).of_offset + k =
      omega arith in
    rw (e, valid, ◌>>=◌) (rw (enough, ◌>>=◌) (rw (fits, ◌>>=◌) (rw (sum, e))))

pub ensure_block_full :
    (s : FsState) (n : ℕ) → 0 < (s.inode_table n).i_size → ensure_block n s ≡ done success s
unfolding ensure_block
ensure_block_full s n full =
    let other : ((s.inode_table n).i_size == 0) ≡ false = ground arith in rw other

pub ensure_block-no_block :
    (s : FsState) (n : ℕ)
    → (s.inode_table n).i_size ≡ 0
    → first_free_block s ≡ none
    → ensure_block n s ≡ done failure s
unfolding ensure_block data_block_alloc
ensure_block-no_block s n empty e =
    let same : ((s.inode_table n).i_size == 0) ≡ true = ground arith in rw (same, e, ◌>>=◌)

pub ensure_block-with_block :
    (s : FsState) (n b : ℕ)
    → (s.inode_table n).i_size ≡ 0
    → first_free_block s ≡ some b
    → ensure_block n s ≡ done success (with_block s n b (s.inode_table n).i_size)
unfolding ensure_block data_block_alloc
ensure_block-with_block s n b empty e =
    let same : ((s.inode_table n).i_size == 0) ≡ true = ground arith in rw (same, e, ◌>>=◌)

kept_root :
    (s : FsState) (m : Memory) (b offset k : ℕ) (f : ℕ → ℕ) (x : ℕ)
    → 0 < b
    → x < s.block_size
    → store m (b * s.block_size + offset) k f x ≡ m x
kept_root s m b offset k f x pos lt =
    let behind = mul-le-mul_right {m = 1} {n = b} s.block_size (omega arith) in
    store_below m (b * s.block_size + offset) k f x (omega (arith, behind))

pub IsWf-with_bytes_full :
    (s : FsState) (h b : ℕ) (buffer : List ℕ) (k : ℕ)
    → IsWf s
    → 0 < b
    → 0 < (s.inode_table (s.open_file_table h).of_inumber).i_size
    → IsWf (with_bytes s h b buffer k)
IsWf-with_bytes_full s h b buffer k w pos full =
    let entry = s.open_file_table h in
    let d = store s.fs_data (b * s.block_size + entry.of_offset) k (λ j. get_or buffer j 0) in
    let t = with_data s d in
    let size = (s.inode_table entry.of_inumber).i_size in
    let size' = if ltb size (entry.of_offset + k) then entry.of_offset + k else size in
    IsWf-with_offset (with_size t entry.of_inumber size') h (entry.of_offset + k) (
      IsWf-with_size t entry.of_inumber size'
        (IsWf-with_data s d w
          (λ x lt. kept_root s s.fs_data b entry.of_offset k (λ j. get_or buffer j 0) x pos lt))
        full (ground arith))

pub IsWf-with_bytes_new :
    (s : FsState) (h b : ℕ) (buffer : List ℕ) (k : ℕ)
    → IsWf s
    → 0 < (s.open_file_table h).of_inumber
    → b < s.max_block_count
    → s.free_blocks b ≡ free
    → IsWf (
        with_bytes
          (with_block s
            (s.open_file_table h).of_inumber
            b
            (s.inode_table (s.open_file_table h).of_inumber).i_size)
          h
          b
          buffer
          k)
IsWf-with_bytes_new s h b buffer k w positive small spare =
    let entry = s.open_file_table h in
    let n = entry.of_inumber in
    let d = store s.fs_data (b * s.block_size + entry.of_offset) k (λ j. get_or buffer j 0) in
    let t = with_data s d in
    let size = (s.inode_table n).i_size in
    let size' = if ltb size (entry.of_offset + k) then entry.of_offset + k else size in
    let apart = not_root_of_free s b w spare in
    let wt =
      IsWf-with_block t n b size'
        (IsWf-with_data s d w (λ x lt.
          kept_root s s.fs_data b entry.of_offset k (λ j. get_or buffer j 0) x (omega arith) lt))
        positive small spare in
    let self =
      update_self s.inode_table n
        (record (s.inode_table n) { i_data_block = some b; i_size = size }) in
    simp update-update
      (rw self (IsWf-with_offset (with_block t n b size') h (entry.of_offset + k) wt))
