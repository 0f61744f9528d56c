-- ===== src/Fs/Invariant/Links.antt =====
-- How the entries and the links change when fs/state.c fills or erases an entry.
use project_so.Prelude.{
  ℕ, ◌+◌, ◌-◌, ◌%◌, ◌^◌, ◌<◌, ◌≡◌, sym, ◌∙◌, ◌≢◌, inl, inr, true, List, arith, ◌==◌, Bool-cases,
  length, get_or_above,
}
use project_so.Memory.Bytes.{Memory, minus_one}
use project_so.Fs.Types.{max_file_name, FsState, max_dir_entries, update}
use project_so.Fs.Directory.{entry_at, d_inumber, is_empty_entry, erase_entry, fill_entry}
use project_so.Fs.Entries.{
  fill_entry_other, erase_entry_other, d_inumber-fill_entry, d_inumber-erase_entry, fill_entry_name,
  erase_entry_name,
}
use project_so.Fs.Invariant.Defs.{
  count, count-congr, tally, count-update, links, allowed, EntryOk, DirOk,
}

count-fill_entry :
    (m : Memory) (k d : ℕ) (name : List ℕ) (v n : ℕ)
    → k < d
    → v < 2 ^ 32
    → count (d_inumber (fill_entry m 0 k name v) 0) n d + tally (d_inumber m 0 k) n
      ≡ count (d_inumber m 0) n d + tally v n
count-fill_entry m k d name v n lt small =
    rw
      (count-congr (d_inumber (fill_entry m 0 k name v) 0) (update (d_inumber m 0) k v) n d
        λ i h. d_inumber-fill_entry m 0 k i name v ∙ (let e : v % 2 ^ 32 ≡ v = omega arith in rw e))
      (count-update (d_inumber m 0) k v n d lt)

count-erase_entry :
    (m : Memory) (k d n : ℕ)
    → k < d
    → count (d_inumber (erase_entry m 0 k) 0) n d + tally (d_inumber m 0 k) n
      ≡ count (d_inumber m 0) n d + tally minus_one n
count-erase_entry m k d n lt =
    rw
      (count-congr (d_inumber (erase_entry m 0 k) 0) (update (d_inumber m 0) k minus_one) n d
        λ i h. d_inumber-erase_entry m 0 k i)
      (count-update (d_inumber m 0) k minus_one n d lt)

abbrev pub with_entry : FsState → ℕ → List ℕ → ℕ → FsState
with_entry s k name v = record s { fs_data = fill_entry s.fs_data 0 k name v }

abbrev pub without_entry : FsState → ℕ → FsState
without_entry s k = record s { fs_data = erase_entry s.fs_data 0 k }

EntryOk-fill_entry :
    (m : Memory) (k i : ℕ) (name : List ℕ) (v : ℕ)
    → length name < max_file_name
    → v < minus_one
    → EntryOk m i
    → EntryOk (fill_entry m 0 k name v) i
EntryOk-fill_entry m k i name v short small ok = elim (Bool-cases (k == i)) [
  | inl same ↦
      let e : k ≡ i = ground arith in
      let held : d_inumber (fill_entry m 0 k name v) 0 k ≡ v =
        rw (d_inumber-fill_entry m 0 k k name v) (ground arith) in
      let ended = fill_entry_name m 0 k name v (max_file_name - 1) short (omega arith) in
      rw (← e) (
        (λ empty. ground (arith, held)),
        (λ _. ended ∙ get_or_above name (max_file_name - 1) 0 (omega arith)),
      )
  | inr other ↦
      let ne : i ≢ k = ground arith in
      let first = fill_entry_other m 0 k i 0 name v ne (omega arith) in
      let first' : fill_entry m 0 k name v (entry_at 0 i) ≡ m (entry_at 0 i) =
        let z : entry_at 0 i + 0 ≡ entry_at 0 i = omega arith in rw z at first in
      let last = fill_entry_other m 0 k i (max_file_name - 1) name v ne (omega arith) in
      let held : d_inumber (fill_entry m 0 k name v) 0 i ≡ d_inumber m 0 i =
        rw (d_inumber-fill_entry m 0 k i name v, other) in
      ((λ empty. first' ∙ ok.0 (rw held at empty)), (λ full. last ∙ ok.1 (rw held at full)))
]

EntryOk-erase_entry : (m : Memory) (k i : ℕ) → EntryOk m i → EntryOk (erase_entry m 0 k) i
EntryOk-erase_entry m k i ok = elim (Bool-cases (k == i)) [
  | inl same ↦
      let e : k ≡ i = ground arith in
      let first = erase_entry_name m 0 k 0 (omega arith) in
      let first' : erase_entry m 0 k (entry_at 0 k) ≡ 0 =
        let z : entry_at 0 k + 0 ≡ entry_at 0 k = omega arith in rw z at first in
      rw (← e) ((λ _. first'), (λ _. erase_entry_name m 0 k (max_file_name - 1) (omega arith)))
  | inr other ↦
      let ne : i ≢ k = ground arith in
      let first = erase_entry_other m 0 k i 0 ne (omega arith) in
      let first' : erase_entry m 0 k (entry_at 0 i) ≡ m (entry_at 0 i) =
        let z : entry_at 0 i + 0 ≡ entry_at 0 i = omega arith in rw z at first in
      let last = erase_entry_other m 0 k i (max_file_name - 1) ne (omega arith) in
      let held : d_inumber (erase_entry m 0 k) 0 i ≡ d_inumber m 0 i =
        rw (d_inumber-erase_entry m 0 k i, other) in
      ((λ empty. first' ∙ ok.0 (rw held at empty)), (λ full. last ∙ ok.1 (rw held at full)))
]

-- A new entry for an inode that may have one more link.
pub DirOk-with_entry :
    (s : FsState) (k : ℕ) (name : List ℕ) (v : ℕ)
    → DirOk s
    → k < max_dir_entries s
    → is_empty_entry s.fs_data 0 k ≡ true
    → length name < max_file_name
    → v < 2 ^ 31
    → links s v < allowed s v
    → DirOk (with_entry s k name v)
DirOk-with_entry s k name v dir lt empty short small room = record {
  names = λ i h. EntryOk-fill_entry s.fs_data k i name v short (omega arith) (dir.names i h);
  counted = λ n ne.
      let ne' : minus_one ≢ n = λ e. ne (sym e) in
      let before : d_inumber s.fs_data 0 k ≡ minus_one = ground arith in
      let sum = count-fill_entry s.fs_data k (max_dir_entries s) name v n lt (omega arith) in
      let old : tally (d_inumber s.fs_data 0 k) n ≡ 0 = rw before (ground arith) in
      let sum' : links (with_entry s k name v) n ≡ links s n + tally v n =
        omega (arith, sum, old) in
      elim (Bool-cases (v == n)) [
        | inl same ↦
            let e : v ≡ n = ground arith in
            let one : tally v n ≡ 1 = rw same in
            let room' : links s n < allowed s n = rw e at room in omega (arith, sum', one, room')
        | inr other ↦
            let zero_more : tally v n ≡ 0 = rw other in
            omega (arith, sum', zero_more, dir.counted n ne)
      ];
}

-- An entry is cleared: its inode has a link less.
pub links-without_entry :
    (s : FsState) (k n : ℕ)
    → k < max_dir_entries s
    → n ≢ minus_one
    → links (without_entry s k) n + tally (d_inumber s.fs_data 0 k) n ≡ links s n
links-without_entry s k n lt ne =
    let ne' : minus_one ≢ n = λ e. ne (sym e) in
    let none_added : tally minus_one n ≡ 0 = ground arith in
    omega (arith, count-erase_entry s.fs_data k (max_dir_entries s) n lt, none_added)

pub DirOk-without_entry :
    (s : FsState) (k : ℕ) → DirOk s → k < max_dir_entries s → DirOk (without_entry s k)
DirOk-without_entry s k dir lt = record {
  names = λ i h. EntryOk-erase_entry s.fs_data k i (dir.names i h);
  counted = λ n ne. omega (arith, links-without_entry s k n lt ne, dir.counted n ne);
}
