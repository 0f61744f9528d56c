-- ===== src/Fs/Files.antt =====
-- fs/operations.c: reading and writing open files, closing them, and copying a file in. Sums and
-- differences of size_t wrap at 2^64.
use project_so.Prelude.{
  ℕ, zero, suc, ◌+◌, ◌-◌, ◌%◌, ◌^◌, true, false, Option, none, some, List, [], ◌∷◌, ltb, leb, ◌==◌,
  if◌then◌else◌, length, get_or, take, drop,
}
use project_so.Memory.Bytes.{Memory, store, load}
use project_so.Memory.Scan.{first_index}
use project_so.Fs.Monad.{choose}
use project_so.Fs.Types.{FsState, update, Status, success, failure}
use project_so.Fs.Monad.{
  done, aborted, undefined, out_of_fuel, M, pure, ◌>>=◌, ◌>>◌, get, modify, defined_if,
}
use project_so.Fs.State.{
  data_block_alloc, data_block_get, set_inode, inode_get, remove_from_open_file_table,
  get_open_file_entry,
}
use project_so.Fs.Operations.{PathName, fs_data_size, tfs_open}

abbrev pub add_size : ℕ → ℕ → ℕ
add_size a b = (a + b) % 2 ^ 64

abbrev pub sub_size : ℕ → ℕ → ℕ
sub_size a b = (a + 2 ^ 64 - b) % 2 ^ 64

unfoldable pub close_entry : Option ℕ → M Status
close_entry none = pure failure
close_entry (some fhandle) = do remove_from_open_file_table fhandle; pure success

unfoldable pub tfs_close : ℕ → M Status
tfs_close fhandle = do file ← get_open_file_entry fhandle; close_entry file

-- How many bytes `tfs_write` writes.
unfoldable pub clip : ℕ → ℕ → ℕ → ℕ
clip block_size of_offset to_write =
    if ltb block_size (add_size to_write of_offset) then sub_size block_size of_offset else to_write

-- The block of an empty file, taken anew.
unfoldable pub ensure_block : ℕ → M Status
ensure_block inode = do
  s ← get
  choose ((s.inode_table inode).i_size == 0)
      (do
        bnum ← data_block_alloc
        elim bnum [
          | none ↦ pure failure
          | some b ↦ do set_inode inode (λ i. record i { i_data_block = some b }); pure success
        ])
      (pure success)

-- `file->of_offset += to_write`, and the file's size if that is past its end.
unfoldable pub advance : ℕ → ℕ → ℕ → FsState → FsState
advance file inode n s =
    let offset = add_size (s.open_file_table file).of_offset n in
    record s {
      open_file_table =
          update s.open_file_table file (record (s.open_file_table file) { of_offset = offset });
      inode_table = update s.inode_table inode (record (s.inode_table inode) {
        i_size =
            if ltb (s.inode_table inode).i_size offset
            then offset
            else (s.inode_table inode).i_size;
      });
    }

-- The copy from the buffer, which is read up to `n` bytes.
unfoldable pub copy_in : ℕ → ℕ → List ℕ → ℕ → M (Option ℕ)
copy_in file inode buffer n = do
  s ← get
  block ← data_block_get (s.inode_table inode).i_data_block
  defined_if (leb n (length buffer))
  defined_if (leb (block + (s.open_file_table file).of_offset + n) (fs_data_size s))
  modify λ t. record t {
    fs_data =
        store t.fs_data (block + (s.open_file_table file).of_offset) n (λ j. get_or buffer j 0);
  }
  modify (advance file inode n)
  pure (some n)

unfoldable pub write_entry : ℕ → List ℕ → ℕ → M (Option ℕ)
write_entry file buffer to_write = do
  s ← get
  inode ← inode_get (s.open_file_table file).of_inumber
  let n = clip s.block_size (s.open_file_table file).of_offset to_write
  choose (ltb 0 n)
      (do
        rc ← ensure_block inode
        elim rc [ failure ↦ pure none | success ↦ copy_in file inode buffer n ])
      (pure (some n))

unfoldable pub tfs_write : ℕ → List ℕ → ℕ → M (Option ℕ)
tfs_write fhandle buffer to_write = do
  file ← get_open_file_entry fhandle
  elim file [ none ↦ pure none | some f ↦ write_entry f buffer to_write ]

-- The first 0 among `n` bytes, by memchr.
abbrev pub memchr_zero : Memory → ℕ → ℕ → Option ℕ
memchr_zero m a n = first_index (λ j. m (a + j) == 0) 0 n

-- The bytes that memchr looks at, and those that are then copied.
abbrev pub scanned : Option ℕ → ℕ → ℕ
scanned none n = n
scanned (some j) n = suc j

abbrev pub copied : Option ℕ → ℕ → ℕ
copied none n = n
copied (some j) n = j

unfoldable pub set_offset : ℕ → ℕ → FsState → FsState
set_offset file offset s = record s {
  open_file_table =
      update s.open_file_table file (record (s.open_file_table file) { of_offset = offset });
}

-- `of_offset++` if the byte at the offset is 0, then the bytes up to the next 0.
unfoldable pub copy_out : ℕ → ℕ → ℕ → M (Option (List ℕ))
copy_out file block to_read = do
  s ← get
  let offset = (s.open_file_table file).of_offset
  defined_if (ltb (block + offset) (fs_data_size s))
  let start = if s.fs_data (block + offset) == 0 then add_size offset 1 else offset
  let zero_at = memchr_zero s.fs_data (block + start) to_read
  defined_if (leb (block + start + scanned zero_at to_read) (fs_data_size s))
  modify (set_offset file (add_size start (copied zero_at to_read)))
  pure (some (load s.fs_data (block + start) (copied zero_at to_read)))

unfoldable pub read_size : ℕ → ℕ → ℕ → ℕ
read_size i_size of_offset len =
    let to_read = sub_size i_size of_offset in if ltb len to_read then len else to_read

unfoldable pub read_entry : ℕ → ℕ → M (Option (List ℕ))
read_entry file len = do
  s ← get
  inode ← inode_get (s.open_file_table file).of_inumber
  let to_read = read_size (s.inode_table inode).i_size (s.open_file_table file).of_offset len
  choose (ltb 0 to_read)
      (do block ← data_block_get (s.inode_table inode).i_data_block; copy_out file block to_read)
      (pure (some []))

-- The bytes that are copied to the buffer, which has room for `len`; the call returns their number.
unfoldable pub tfs_read : ℕ → ℕ → M (Option (List ℕ))
tfs_read fhandle len = do
  file ← get_open_file_entry fhandle
  elim file [ none ↦ pure none | some f ↦ read_entry f len ]

abbrev pub buffer_size : ℕ
buffer_size = 1024

-- The loop over fread: `rest` is what is left of the source file.
unfoldable pub copy_loop : ℕ → ℕ → List ℕ → M Status
copy_loop fuel outd [] s = done success s
copy_loop zero outd (b ∷ rest) s = out_of_fuel
copy_loop (suc fuel) outd (b ∷ rest) s =
    let chunk = take buffer_size (b ∷ rest) in
    elim (tfs_write outd chunk (length chunk) s) [
      | done (some n) t ↦ elim (n == length chunk) [
        | true ↦ copy_loop fuel outd (drop buffer_size (b ∷ rest)) t
        | false ↦ done failure t
      ]
      | done none t ↦ done failure t
      | aborted ↦ aborted
      | undefined ↦ undefined
      | out_of_fuel ↦ out_of_fuel
    ]

unfoldable pub copy_to : ℕ → ℕ → List ℕ → M Status
copy_to fuel outd content = do
  rc ← copy_loop fuel outd content
  elim rc [ failure ↦ pure failure | success ↦ do closed ← tfs_close outd; pure success ]

-- `file` is what fopen finds at the source path: `none` if it returns NULL, else the file's bytes.
unfoldable pub tfs_copy_from_external_fs : ℕ → Option (List ℕ) → PathName → M Status
tfs_copy_from_external_fs fuel none dest_path = pure failure
tfs_copy_from_external_fs fuel (some content) dest_path = do
  outd ← tfs_open fuel dest_path (record { creat = true; trunc = true; append = false })
  elim outd [ none ↦ pure failure | some fhandle ↦ copy_to (suc (length content)) fhandle content ]
