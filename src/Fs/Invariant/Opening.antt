-- ===== src/Fs/Invariant/Opening.antt =====
-- The last steps of `tfs_open` (fs/operations.c): the truncation and the new handle.
use project_so.Prelude.{
  ℕ, ◌<◌, ◌≡◌, refl, ap, ◌∙◌, inl, inr, true, Option, none, some, arith, ltb, Bool-cases,
  Option-cases,
}
use project_so.Memory.Scan.{first_index, first_index-some}
use project_so.Fs.Types.{free, taken, FsState, is_free}
use project_so.Fs.Monad.{done, ◌>>=◌, Returns}
use project_so.Fs.State.{data_block_free, add_to_open_file_table}
use project_so.Fs.Operations.{truncate}
use project_so.Fs.Invariant.Defs.{links, Owns, FileOk, IsWf}
use project_so.Fs.Invariant.Root.{IsLinked}
use project_so.Fs.Invariant.Inodes.{update_self}
use project_so.Fs.Invariant.Blocks.{truncated, IsWf-truncated, with_handle, IsWf-with_handle}

-- The handle that a call gives out was unused, and names an inode that has a link.
abbrev pub Opened : FsState → Option ℕ → FsState → Type 0
Opened s r t =
    IsWf t
    × ((h : ℕ)
        → r ≡ some h
        → (h < s.max_open_files_count)
          × (h < t.max_open_files_count)
          × (s.free_open_file_entries h ≡ free)
          × (t.free_open_file_entries h ≡ taken)
          × (0 < links t (t.open_file_table h).of_inumber))

pub FileOk-linked : (s : FsState) (n : ℕ) → IsWf s → IsLinked s n → FileOk s n
FileOk-linked s n w l = record {
  positive = l.positive;
  range = l.range;
  sized = w.blocks.sized n l.range l.in_use;
  block = λ b p e.
      let owner : Owns s n b = record { range = l.range; in_use = l.in_use; size = p; block = e } in
      let held = w.blocks.owned n b owner in (pos b owner, held.0);
}
  where
    pos : (b : ℕ) → Owns s n b → 0 < b
    pos b owner = elim (Bool-cases (ltb 0 b)) [
      | inl p ↦ ground arith
      | inr z ↦
          let e : 0 ≡ b = ground arith in
          let root : Owns s 0 b = record {
            range = w.root.some_inodes;
            in_use = w.root.in_use;
            size = w.root.size;
            block = w.root.block ∙ ap some e;
          } in
          let same = w.blocks.unique 0 n b root owner in let q = l.positive in absurd (omega arith)
    ]

pub FileOk-empty :
    (s : FsState) (n : ℕ)
    → 0 < n
    → n < s.max_inode_count
    → (s.inode_table n).i_size ≡ 0
    → FileOk s n
FileOk-empty s n pos lt empty = record {
  positive = pos;
  range = lt;
  sized = λ p. absurd (omega arith);
  block = λ b p e. absurd (omega arith);
}

abbrev pub first_handle : FsState → Option ℕ
first_handle t = first_index (λ i. is_free (t.free_open_file_entries i)) 0 t.max_open_files_count

pub add_to_open_file_table_full :
    (t : FsState) (n offset : ℕ)
    → first_handle t ≡ none
    → add_to_open_file_table n offset t ≡ done none t
unfolding add_to_open_file_table
add_to_open_file_table_full t n offset e = rw (e, add_to_open_file_table)

pub add_to_open_file_table_free :
    (t : FsState) (n offset i : ℕ)
    → first_handle t ≡ some i
    → add_to_open_file_table n offset t ≡ done (some i) (with_handle t i n offset)
unfolding add_to_open_file_table
add_to_open_file_table_free t n offset i e = rw (e, add_to_open_file_table)

pub add_to_open_file_table-Opened :
    (s t : FsState) (n offset : ℕ)
    → IsWf t
    → FileOk t n
    → 0 < links t n
    → t.max_open_files_count ≡ s.max_open_files_count
    → ((h : ℕ) → t.free_open_file_entries h ≡ s.free_open_file_entries h)
    → Returns (Opened s) (add_to_open_file_table n offset t)
add_to_open_file_table-Opened s t n offset w ok linked size table =
    elim (Option-cases (first_handle t)) [
      | inl e ↦ rw (add_to_open_file_table_full t n offset e) (w, (λ h no_handle. cc))
      | inr (i, e) ↦
          let found =
            first_index-some (λ i. is_free (t.free_open_file_entries i)) 0 t.max_open_files_count
              e in
          let entry =
            update_self t.open_file_table i (record { of_inumber = n; of_offset = offset }) in
          rw (add_to_open_file_table_free t n offset i e) (
            IsWf-with_handle t i n offset w ok,
            (λ h same.
                let e' : i ≡ h = ground arith in
                rw (← e') (
                  omega (arith, found.1, size),
                  omega (arith, found.1),
                  ground (arith, found.2, table i),
                  ground arith,
                  rw entry linked,
                )),
          )
    ]

pub truncate-Post :
    (s : FsState) (n : ℕ)
    → IsWf s
    → IsLinked s n
    → Returns
        (λ _ t.
          IsWf t
          × FileOk t n
          × (links t n ≡ links s n)
          × (t.max_open_files_count ≡ s.max_open_files_count)
          × ((h : ℕ) → t.free_open_file_entries h ≡ s.free_open_file_entries h))
        (truncate n s)
unfolding truncate data_block_free
truncate-Post s n w l = elim (Bool-cases (ltb 0 (s.inode_table n).i_size)) [
  | inr empty ↦ rw empty (w, FileOk-linked s n w l, refl, refl, (λ h. refl))
  | inl full ↦
      let p : 0 < (s.inode_table n).i_size = ground arith in
      elim (Option-cases (s.inode_table n).i_data_block) [
        | inl e ↦ absurd (w.blocks.sized n l.range l.in_use p e)
        | inr (b, e) ↦
            let owner : Owns s n b = record {
              range = l.range;
              in_use = l.in_use;
              size = p;
              block = e;
            } in
            let held = w.blocks.owned n b owner in
            let valid : ltb b s.max_block_count ≡ true = let h = held.0 in ground arith in
            rw (full, e, ◌>>=◌)
              (rw (valid, ◌>>=◌)
                (
                  IsWf-truncated s n b w l.positive owner,
                  FileOk-empty (truncated s n b) n l.positive l.range
                      (rw (update_self s.inode_table n (record (s.inode_table n) { i_size = 0 }))),
                  refl,
                  refl,
                  (λ h. refl),
                ))
      ]
]
