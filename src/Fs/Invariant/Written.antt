-- ===== src/Fs/Invariant/Written.antt =====
-- What `tfs_write` (fs/operations.c) does, on each of its branches.
-- What a write leaves: the bytes behind the old offset, the offset, the size, and the open handles.
use project_so.Prelude.{
  ℕ, ◌+◌, ◌*◌, ◌≤◌, ◌<◌, max, ◌≡◌, refl, ◌⊎◌, inl, inr, true, false, Option, none, some, List,
  arith, ltb, if◌then◌else◌, get_or,
}
use project_so.Memory.Bytes.{store_hit, store_below, store_above}
use project_so.Fs.Types.{FsState}
use project_so.Fs.Invariant.Closing.{is_open}
use project_so.Fs.Invariant.WriteFile.{fitting, with_bytes}
use project_so.Fs.Invariant.Inodes.{update_self, first_free_block}

abbrev pub Wrote : FsState → ℕ → List ℕ → ℕ → ℕ → FsState → Type 0
Wrote s h buffer k b t =
    let entry = s.open_file_table h in
    ((t.inode_table entry.of_inumber).i_data_block ≡ some b)
    × ((j : ℕ) → j < k → t.fs_data (b * s.block_size + entry.of_offset + j) ≡ get_or buffer j 0)
    × ((x : ℕ)
        → (x < b * s.block_size + entry.of_offset) ⊎ (b * s.block_size + entry.of_offset + k ≤ x)
        → t.fs_data x ≡ s.fs_data x)
    × ((t.open_file_table h).of_offset ≡ entry.of_offset + k)
    × ((t.inode_table entry.of_inumber).i_size
        ≡ max (s.inode_table entry.of_inumber).i_size (entry.of_offset + k))
    × (t.fs_params ≡ s.fs_params)
    × (t.free_open_file_entries ≡ s.free_open_file_entries)

-- The block that a write uses: the file's, or the first free one for an empty file.
abbrev pub UsesBlock : FsState → ℕ → ℕ → Type 0
UsesBlock s n b =
    ((0 < (s.inode_table n).i_size) × ((s.inode_table n).i_data_block ≡ some b))
    ⊎ (((s.inode_table n).i_size ≡ 0) × (first_free_block s ≡ some b))

-- What `tfs_write` does: no handle or no block, nothing to write, or a write.
abbrev pub Written : FsState → ℕ → List ℕ → ℕ → Option ℕ → FsState → Type 0
Written s h buffer to_write r t =
    ((r ≡ none)
      × ((is_open s h ≡ false)
          ⊎ ((0 < fitting s h to_write)
              × ((s.inode_table (s.open_file_table h).of_inumber).i_size ≡ 0)
              × (first_free_block s ≡ none)))
      × (t ≡ s))
    ⊎ ((is_open s h ≡ true)
        × (r ≡ some (fitting s h to_write))
        × (fitting s h to_write ≡ 0)
        × (t ≡ s))
    ⊎ ((is_open s h ≡ true)
        × (r ≡ some (fitting s h to_write))
        × (0 < fitting s h to_write)
        × (b : ℕ) × UsesBlock s (s.open_file_table h).of_inumber b
        × Wrote s h buffer (fitting s h to_write) b t)

pub with_bytes-Wrote :
    (s : FsState) (h b : ℕ) (buffer : List ℕ) (k : ℕ)
    → (s.inode_table (s.open_file_table h).of_inumber).i_data_block ≡ some b
    → Wrote s h buffer k b (with_bytes s h b buffer k)
with_bytes-Wrote s h b buffer k e =
    let entry = s.open_file_table h in
    let n = entry.of_inumber in
    let size = (s.inode_table n).i_size in
    let offset = entry.of_offset + k in
    let grown =
      update_self s.inode_table n
        (record (s.inode_table n) { i_size = if ltb size offset then offset else size }) in
    let moved = update_self s.open_file_table h (record entry { of_offset = offset }) in
    (
      rw (grown, e),
      (λ j lt.
          store_hit s.fs_data (b * s.block_size + entry.of_offset) k (λ i. get_or buffer i 0) j lt),
      (λ x out. elim out [
        | inl below ↦
            store_below s.fs_data (b * s.block_size + entry.of_offset) k (λ i. get_or buffer i 0) x
              below
        | inr above ↦
            store_above s.fs_data (b * s.block_size + entry.of_offset) k (λ i. get_or buffer i 0) x
              above
      ]),
      rw moved,
      rw grown (ground arith),
      refl,
      refl,
    )
