-- ===== src/Fs/Invariant/Blocks.antt =====
-- Steps of the calls of fs/operations.c on well-formed states: truncating a file, a new symbolic link, writes to blocks, and
-- the table of open files.
use project_so.Prelude.{
  ℕ, ◌+◌, ◌-◌, ◌<◌, ◌≡◌, sym, ap, ◌∙◌, ◌≢◌, ◌⊎◌, inl, inr, some, arith, ◌==◌, Bool-cases,
}
use project_so.Memory.Bytes.{Memory, read_int-congr}
use project_so.Fs.Types.{
  max_file_name, free, taken, FsState, sizeof_dir_entry, max_dir_entries, update,
}
use project_so.Fs.Directory.{entry_at, d_inumber}
use project_so.Fs.Invariant.Defs.{count-congr, links, Owns, FileOk, IsWf}
use project_so.Fs.Invariant.Inodes.{with_link, without_block}

pub not_root_of_unused : (s : FsState) (n : ℕ) → IsWf s → s.freeinode_ts n ≡ free → 0 ≢ n
not_root_of_unused s n w unused e = ground (arith, w.root.in_use, ap s.freeinode_ts e)

pub not_root_of_free : (s : FsState) (b : ℕ) → IsWf s → s.free_blocks b ≡ free → 0 ≢ b
not_root_of_free s b w unused e = ground (arith, w.root.block_in_use, ap s.free_blocks e)

-- A block that is free belongs to no inode.
pub not_owned : (s : FsState) (m b c : ℕ) → IsWf s → s.free_blocks b ≡ free → Owns s m c → c ≢ b
not_owned s m b c w unused o e =
    let held = w.blocks.owned m c o in ground (arith, ap s.free_blocks e)

-- The file's block is given back, and its size set to 0.
abbrev pub truncated : FsState → ℕ → ℕ → FsState
truncated s n b = record (without_block s b) {
  inode_table = update s.inode_table n (record (s.inode_table n) { i_size = 0 });
}

module _ (s : FsState) (n b : ℕ) (w : IsWf s) (pos : 0 < n) (owner : Owns s n b) where
  Owns-truncated : (m c : ℕ) → Owns (truncated s n b) m c → Owns s m c × (m ≢ n)
  Owns-truncated m c o = ground arith

  not_shared : (m c : ℕ) → Owns s m c → m ≢ n → c ≢ b
  not_shared m c o ne e =
      let o' : Owns s m b = record {
        range = o.range;
        in_use = o.in_use;
        size = o.size;
        block = o.block ∙ ap some e;
      } in
      ne (w.blocks.unique m n b o' owner)

  root_apart : 0 ≢ b
  root_apart e =
      let r : Owns s 0 b = record {
        range = w.root.some_inodes;
        in_use = w.root.in_use;
        size = w.root.size;
        block = w.root.block ∙ ap some e;
      } in
      let same = w.blocks.unique 0 n b r owner in omega arith

  pub IsWf-truncated : IsWf (truncated s n b)
  IsWf-truncated = record {
    root = let apart = root_apart in ground arith;
    dir = record { names = w.dir.names; counted = λ m ne. ground (arith, w.dir.counted m ne) };
    blocks = record {
      owned = λ m c o.
          let back = Owns-truncated m c o in
          let held = w.blocks.owned m c back.0 in
          (held.0, (let ne = not_shared m c back.0 back.1 in ground arith));
      sized = λ m r u p. ground (arith, w.blocks.sized m r);
      unique =
          λ m m' c o o'. w.blocks.unique m m' c (Owns-truncated m c o).0 (Owns-truncated m' c o').0;
    };
    handles = λ h r u.
        let ok = w.handles h r u in
        record {
          positive = ok.positive;
          range = ok.range;
          sized = λ p. ground (arith, ok.sized);
          block = λ c p e. ground (arith, ok.block c);
        };
  }

-- An unused inode and a free block become a symbolic link.
module _ (s : FsState) (n b : ℕ) (w : IsWf s) (lt : n < s.max_inode_count)
    (unused : s.freeinode_ts n ≡ free) (small : b < s.max_block_count)
    (spare : s.free_blocks b ≡ free) where
  Owns-with_link :
      (m c : ℕ) → Owns (with_link s n b) m c → (Owns s m c × (m ≢ n)) ⊎ ((m ≡ n) × (c ≡ b))
  Owns-with_link m c o = elim (Bool-cases (n == m)) [
    | inl same ↦ inr (ground arith, ground arith)
    | inr other ↦ inl (ground arith, ground arith)
  ]

  pub IsWf-with_link : IsWf (with_link s n b)
  IsWf-with_link = record {
    root =
        let apart = not_root_of_unused s n w unused in
        let apart' = not_root_of_free s b w spare in ground arith;
    dir = record { names = w.dir.names; counted = λ m ne. ground (arith, w.dir.counted m ne) };
    blocks = record {
      owned = λ m c o. elim (Owns-with_link m c o) [
        | inl (back, ne) ↦ let held = w.blocks.owned m c back in (held.0, ground arith)
        | inr (e, e') ↦ (omega arith, ground arith)
      ];
      sized = λ m r u p. ground (arith, w.blocks.sized m r);
      unique = λ m m' c o o'. elim (Owns-with_link m c o) [
        | inl (back, ne) ↦ elim (Owns-with_link m' c o') [
          | inl (back', ne') ↦ w.blocks.unique m m' c back back'
          | inr (e, e') ↦ absurd (not_owned s m b c w spare back e')
        ]
        | inr (e, e') ↦ elim (Owns-with_link m' c o') [
          | inl (back', ne') ↦ absurd (not_owned s m' b c w spare back' e')
          | inr (f, f') ↦ e ∙ sym f
        ]
      ];
    };
    handles = λ h r u.
        let ok = w.handles h r u in
        let apart' = not_root_of_free s b w spare in
        record {
          positive = ok.positive;
          range = ok.range;
          sized = λ p. ground (arith, ok.sized);
          block = λ c p e. ground (arith, ok.block c);
        };
  }

-- Bytes behind the root directory's block change.
abbrev pub with_data : FsState → Memory → FsState
with_data s m = record s { fs_data = m }

module _ (s : FsState) (m : Memory) (w : IsWf s)
    (kept : (x : ℕ) → x < s.block_size → m x ≡ s.fs_data x) where
  in_root_block :
      (i j : ℕ) → i < max_dir_entries s → j < sizeof_dir_entry → entry_at 0 i + j < s.block_size
  in_root_block i j lt h = omega arith

  d_inumber-with_data : (i : ℕ) → i < max_dir_entries s → d_inumber m 0 i ≡ d_inumber s.fs_data 0 i
  d_inumber-with_data i lt =
      read_int-congr m s.fs_data (entry_at 0 i + max_file_name)
        λ j h. kept (entry_at 0 i + max_file_name + j) (omega arith)

  pub links-with_data : (n : ℕ) → links (with_data s m) n ≡ links s n
  links-with_data n =
      count-congr (d_inumber m 0) (d_inumber s.fs_data 0) n (max_dir_entries s) d_inumber-with_data

  pub IsWf-with_data : IsWf (with_data s m)
  IsWf-with_data = record {
    root = w.root;
    dir = record {
      names = λ i lt.
          let ok = w.dir.names i lt in
          let same = d_inumber-with_data i lt in
          (
            (λ empty. kept (entry_at 0 i) (omega arith) ∙ ok.0 (rw same at empty)),
            (λ full.
                kept (entry_at 0 i + (max_file_name - 1)) (omega arith) ∙ ok.1 (rw same at full)),
          );
      counted = λ n ne. omega (arith, w.dir.counted n ne, links-with_data n);
    };
    blocks = w.blocks;
    handles = w.handles;
  }

-- A file handle is given out, or given back.
abbrev pub with_handle : FsState → ℕ → ℕ → ℕ → FsState
with_handle s h inumber offset = record s {
  free_open_file_entries = update s.free_open_file_entries h taken;
  open_file_table =
      update s.open_file_table h (record { of_inumber = inumber; of_offset = offset });
}

pub IsWf-with_handle :
    (s : FsState) (h n offset : ℕ) → IsWf s → FileOk s n → IsWf (with_handle s h n offset)
IsWf-with_handle s h n offset w ok = record {
  root = w.root;
  dir = w.dir;
  blocks = w.blocks;
  handles = λ k r u. elim (Bool-cases (h == k)) [
    | inl same ↦ rw same ok
    | inr other ↦ rw other (w.handles k r (rw other at u))
  ];
}

abbrev pub without_handle : FsState → ℕ → FsState
without_handle s h = record s { free_open_file_entries = update s.free_open_file_entries h free }

pub IsWf-without_handle : (s : FsState) (h : ℕ) → IsWf s → IsWf (without_handle s h)
IsWf-without_handle s h w = record {
  root = w.root;
  dir = w.dir;
  blocks = w.blocks;
  handles = λ k r u. w.handles k r (ground arith);
}
