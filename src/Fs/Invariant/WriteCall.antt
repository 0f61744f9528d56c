-- ===== src/Fs/Invariant/WriteCall.antt =====
-- `tfs_write` (fs/operations.c) as a whole.
use project_so.Prelude.{
  ℕ, ◌+◌, ◌^◌, ◌≤◌, ◌<◌, max, ◌≡◌, refl, ap, ◌∙◌, inl, inr, true, false, none, some, List, arith,
  ltb, if◌then◌else◌, Bool-cases, Option-cases, length,
}
use project_so.Memory.Scan.{first_index-some}
use project_so.Fs.Types.{free, FsState, is_free, success, failure}
use project_so.Fs.Monad.{done, pure, ◌>>=◌, Returns}
use project_so.Fs.State.{get_open_file_entry}
use project_so.Fs.Files.{ensure_block, copy_in, write_entry, tfs_write}
use project_so.Fs.Invariant.Closing.{is_open}
use project_so.Fs.Invariant.WriteFile.{
  fitting, clip-min, copy_in-with_bytes, ensure_block_full, ensure_block-no_block,
  ensure_block-with_block, IsWf-with_bytes_full, IsWf-with_bytes_new,
}
use project_so.Fs.Invariant.Writing.{with_block}
use native.Mathlib.Nat.{mul-le-mul_right}
use project_so.Fs.Invariant.Defs.{FileOk, IsWf}
use project_so.Fs.Invariant.Inodes.{update_self, first_free_block}
use project_so.Fs.Invariant.Unlink.{inode_get_valid}
use project_so.Fs.Invariant.Written.{Written, with_bytes-Wrote}

module _ (s : FsState) (h : ℕ) (buffer : List ℕ) (to_write : ℕ) (w : IsWf s)
    (opened : is_open s h ≡ true) (inside : (s.open_file_table h).of_offset ≤ s.block_size)
    (long : to_write ≤ length buffer) (small : to_write < 2 ^ 63) where
  abbrev inum : ℕ
  inum = (s.open_file_table h).of_inumber

  abbrev k : ℕ
  k = fitting s h to_write

  file_ok : FileOk s inum
  file_ok = w.handles h (ground arith) (ground arith)

  block_size_fits : s.block_size < 2 ^ 63
  block_size_fits =
      let one = mul-le-mul_right {m = 1} {n = s.max_block_count} s.block_size w.root.some_blocks in
      let bytes = w.root.small_data in omega arith

  write_entry-ensure : write_entry h buffer to_write s ≡ (
      if ltb 0 k
      then (ensure_block inum >>= λ rc. elim rc [
        | failure ↦ pure none
        | success ↦ copy_in h inum buffer k
      ])
          s
      else done (some k) s)
  unfolding write_entry
  write_entry-ensure =
      rw (inode_get_valid s inum file_ok.range, ◌>>=◌)
        (ap
          (λ n.
            (if ltb 0 n
              then (ensure_block inum >>= λ rc. elim rc [
                | failure ↦ pure none
                | success ↦ copy_in h inum buffer n
              ])
                  s
              else done (some n) s))
          (clip-min s.block_size (s.open_file_table h).of_offset to_write inside block_size_fits
            small))

  write_entry-Written :
      Returns (λ r t. IsWf t × Written s h buffer to_write r t) (write_entry h buffer to_write s)
  write_entry-Written = elim (Bool-cases (ltb 0 k)) [
    | inr nothing ↦
        let zero_left : k ≡ 0 = ground arith in
        rw (write_entry-ensure, nothing) (w, inr (inl (opened, refl, zero_left, refl)))
    | inl something ↦
        let some_bytes : 0 < k = ground arith in
        elim (Bool-cases (ltb 0 (s.inode_table inum).i_size)) [
          | inl full ↦
              let p : 0 < (s.inode_table inum).i_size = ground arith in
              elim (Option-cases (s.inode_table inum).i_data_block) [
                | inl e ↦ absurd (file_ok.sized p e)
                | inr (b, e) ↦
                    let (pos, lt) = file_ok.block b p e in
                    rw (write_entry-ensure, something, ensure_block_full s inum p, ◌>>=◌)
                      (rw
                        (copy_in-with_bytes s h b buffer k e lt (omega arith) (omega arith)
                          block_size_fits)
                        (
                          IsWf-with_bytes_full s h b buffer k w pos p,
                          inr (
                              inr (
                                opened,
                                refl,
                                some_bytes,
                                b,
                                inl (p, e),
                                with_bytes-Wrote s h b buffer k e,
                              )),
                        ))
              ]
          | inr empty ↦
              let z : (s.inode_table inum).i_size ≡ 0 = ground arith in
              elim (Option-cases (first_free_block s)) [
                | inl e ↦
                    rw (write_entry-ensure, something, ensure_block-no_block s inum z e, ◌>>=◌)
                      (w, inl (refl, inr (some_bytes, z, e), refl))
                | inr (b, e) ↦
                    let found =
                      first_index-some (λ i. is_free (s.free_blocks i)) 0 s.max_block_count e in
                    let lt : b < s.max_block_count = omega (arith, found.1) in
                    let spare : s.free_blocks b ≡ free = ground (arith, found.2) in
                    let s' = with_block s inum b (s.inode_table inum).i_size in
                    let self = update_self s.inode_table inum (record (s.inode_table inum) {
                      i_data_block = some b;
                      i_size = (s.inode_table inum).i_size;
                    }) in
                    let held : (s'.inode_table inum).i_data_block ≡ some b = rw self in
                    let size : (s'.inode_table inum).i_size ≡ (s.inode_table inum).i_size =
                      rw self in
                    let (e', bytes, others, offset, grown, params, handles) =
                      with_bytes-Wrote s' h b buffer k held in
                    rw (write_entry-ensure, something, ensure_block-with_block s inum b z e, ◌>>=◌)
                      (rw
                        (copy_in-with_bytes s' h b buffer k held lt (omega arith) (omega arith)
                          block_size_fits)
                        (
                          IsWf-with_bytes_new s h b buffer k w file_ok.positive lt spare,
                          inr (
                              inr (
                                opened,
                                refl,
                                some_bytes,
                                b,
                                inr (z, e),
                                (
                                  e',
                                  bytes,
                                  others,
                                  offset,
                                  grown
                                      ∙ ap (λ v. max v ((s.open_file_table h).of_offset + k)) size,
                                  params,
                                  handles,
                                ),
                              )),
                        ))
              ]
        ]
  ]

get_open_file_entry-is_open :
    (s : FsState) (h : ℕ) → get_open_file_entry h s ≡ done (if is_open s h then some h else none) s
unfolding get_open_file_entry
get_open_file_entry-is_open s h = ground arith

tfs_write_refused :
    (s : FsState) (h : ℕ) (buffer : List ℕ) (to_write : ℕ)
    → is_open s h ≡ false
    → tfs_write h buffer to_write s ≡ done none s
unfolding tfs_write
tfs_write_refused s h buffer to_write shut = rw (get_open_file_entry-is_open s h, shut, ◌>>=◌)

tfs_write_open :
    (s : FsState) (h : ℕ) (buffer : List ℕ) (to_write : ℕ)
    → is_open s h ≡ true
    → tfs_write h buffer to_write s ≡ write_entry h buffer to_write s
unfolding tfs_write
tfs_write_open s h buffer to_write opened = rw (get_open_file_entry-is_open s h, opened, ◌>>=◌)

-- On a well-formed state, with the handle's offset at most the block size if it is open, and with a
-- buffer of at least `to_write` bytes, less than 2^63, `tfs_write` returns and leaves a well-formed
-- state. It fails and changes nothing if the handle is not open, or the room behind the offset and
-- `to_write` are not 0, the file is empty and no block is free; else it returns the lesser of
-- `to_write` and the room behind the offset, and, if that is not 0, the file's block, which for an
-- empty file is the first free one, holds so many bytes of the buffer at the old offset, no other byte
-- has changed, the offset has moved behind them, the size is the greater of the old size and the new
-- offset, and the same handles are open; if it is 0, nothing changes.
pub tfs_write-Written :
    (s : FsState) (h : ℕ) (buffer : List ℕ) (to_write : ℕ)
    → IsWf s
    → (is_open s h ≡ true → (s.open_file_table h).of_offset ≤ s.block_size)
    → to_write ≤ length buffer
    → to_write < 2 ^ 63
    → Returns (λ r t. IsWf t × Written s h buffer to_write r t) (tfs_write h buffer to_write s)
tfs_write-Written s h buffer to_write w inside long small = elim (Bool-cases (is_open s h)) [
  | inr shut ↦ rw (tfs_write_refused s h buffer to_write shut) (w, inl (refl, inl shut, refl))
  | inl opened ↦
      rw (tfs_write_open s h buffer to_write opened)
        (write_entry-Written s h buffer to_write w opened (inside opened) long small)
]
