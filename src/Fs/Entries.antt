-- ===== src/Fs/Entries.antt =====
-- The entries of a directory's block after `fill_entry` and `erase_entry` (fs/state.c).
use project_so.Prelude.{
  ℕ, ◌+◌, ◌-◌, ◌%◌, ◌^◌, ◌≤◌, ◌<◌, ◌≡◌, ◌∙◌, ◌≢◌, ◌⊎◌, inl, inr, List, arith, ltb, ◌==◌,
  if◌then◌else◌, Bool-cases, length, get_or, get_or_above,
}
use project_so.Memory.Bytes.{
  Memory, store, store_hit, store_below, store_above, write_int, minus_one, read_int-write_int,
  read_int-congr,
}
use project_so.Memory.Names.{strncpy}
use project_so.Fs.Types.{max_file_name, sizeof_dir_entry}
use project_so.Fs.Directory.{entry_at, d_inumber, erase_entry, fill_entry}

-- Outside the entry nothing changes.
pub fill_entry_frame :
    (m : Memory) (base k : ℕ) (name : List ℕ) (v x : ℕ)
    → (x < entry_at base k) ⊎ (entry_at base k + sizeof_dir_entry ≤ x)
    → fill_entry m base k name v x ≡ m x
unfolding fill_entry strncpy write_int store
fill_entry_frame m base k name v x h = ground arith

pub erase_entry_frame :
    (m : Memory) (base k x : ℕ)
    → (x < entry_at base k) ⊎ (entry_at base k + sizeof_dir_entry ≤ x)
    → erase_entry m base k x ≡ m x
unfolding erase_entry write_int store
erase_entry_frame m base k x h = ground arith

-- Two entries do not overlap.
apart :
    (base k i j : ℕ)
    → i ≢ k
    → j < sizeof_dir_entry
    → (entry_at base i + j < entry_at base k)
      ⊎ (entry_at base k + sizeof_dir_entry ≤ entry_at base i + j)
apart base k i j ne h = omega arith

pub fill_entry_other :
    (m : Memory) (base k i j : ℕ) (name : List ℕ) (v : ℕ)
    → i ≢ k
    → j < sizeof_dir_entry
    → fill_entry m base k name v (entry_at base i + j) ≡ m (entry_at base i + j)
fill_entry_other m base k i j name v ne h =
    fill_entry_frame m base k name v _ (apart base k i j ne h)

pub erase_entry_other :
    (m : Memory) (base k i j : ℕ)
    → i ≢ k
    → j < sizeof_dir_entry
    → erase_entry m base k (entry_at base i + j) ≡ m (entry_at base i + j)
erase_entry_other m base k i j ne h = erase_entry_frame m base k _ (apart base k i j ne h)

d_inumber-congr :
    (m m' : Memory) (base i : ℕ)
    → ((j : ℕ) → j < sizeof_dir_entry → m (entry_at base i + j) ≡ m' (entry_at base i + j))
    → d_inumber m base i ≡ d_inumber m' base i
d_inumber-congr m m' base i h = read_int-congr m m' (entry_at base i + max_file_name) λ j lt.
    let e : entry_at base i + max_file_name + j ≡ entry_at base i + (max_file_name + j) =
      omega arith in
    rw e (h (max_file_name + j) (omega arith))

-- The inumbers of all entries.
pub d_inumber-fill_entry :
    (m : Memory) (base k i : ℕ) (name : List ℕ) (v : ℕ)
    → d_inumber (fill_entry m base k name v) base i
      ≡ (if k == i then v % 2 ^ 32 else d_inumber m base i)
unfolding fill_entry strncpy
d_inumber-fill_entry m base k i name v = elim (Bool-cases (k == i)) [
  | inl same ↦
      let e : k ≡ i = ground arith in
      rw (same, ← e)
        (read_int-congr _ (write_int m (entry_at base k + max_file_name) v)
            (entry_at base k + max_file_name)
            (λ j lt. store_above _ _ _ _ _ (omega arith) ∙ store_above _ _ _ _ _ (omega arith))
          ∙ read_int-write_int m (entry_at base k + max_file_name) v)
  | inr other ↦
      rw other (
        d_inumber-congr _ m base i (λ j lt. fill_entry_other m base k i j name v (ground arith) lt))
]

pub d_inumber-erase_entry :
    (m : Memory) (base k i : ℕ)
    → d_inumber (erase_entry m base k) base i ≡ (if k == i then minus_one else d_inumber m base i)
unfolding erase_entry
d_inumber-erase_entry m base k i = elim (Bool-cases (k == i)) [
  | inl same ↦
      let e : k ≡ i = ground arith in
      rw (same, ← e)
        (read_int-congr _ (write_int m (entry_at base k + max_file_name) minus_one)
            (entry_at base k + max_file_name) (λ j lt. store_above _ _ _ _ _ (omega arith))
          ∙ read_int-write_int m (entry_at base k + max_file_name) minus_one)
  | inr other ↦
      rw other
        (d_inumber-congr _ m base i (λ j lt. erase_entry_other m base k i j (ground arith) lt))
]

-- The name of the entry that is written, padded with 0.
pub fill_entry_name :
    (m : Memory) (base k : ℕ) (name : List ℕ) (v j : ℕ)
    → length name < max_file_name
    → j < max_file_name
    → fill_entry m base k name v (entry_at base k + j) ≡ get_or name j 0
unfolding fill_entry strncpy
fill_entry_name m base k name v j short lt = elim (Bool-cases (ltb j (max_file_name - 1))) [
  | inl inside ↦
      store_below _ _ _ _ _ (ground arith)
      ∙ store_hit _ (entry_at base k) (max_file_name - 1) (λ i. get_or name i 0) j (ground arith)
  | inr last ↦
      let e : j ≡ max_file_name - 1 = ground arith in
      rw e (
        ground (
          arith,
          store_hit
              (strncpy (write_int m (entry_at base k + max_file_name) v) (entry_at base k) name
                (max_file_name - 1))
              (entry_at base k + (max_file_name - 1)) 1 (λ _. 0) 0 (omega arith),
          get_or_above name (max_file_name - 1) 0 (omega arith),
        ))
]

pub erase_entry_name :
    (m : Memory) (base k j : ℕ) → j < max_file_name → erase_entry m base k (entry_at base k + j) ≡ 0
unfolding erase_entry
erase_entry_name m base k j lt = store_hit _ (entry_at base k) max_file_name (λ _. 0) j lt
