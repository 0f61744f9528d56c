-- ===== src/Fs/Invariant/Writing.antt =====
-- Steps of `tfs_write` (fs/operations.c) on well-formed states: blocks, sizes and offsets.
use project_so.Prelude.{ℕ, ◌<◌, ◌≡◌, sym, ◌∙◌, ◌≢◌, ◌⊎◌, inl, inr, some, arith, ◌==◌, Bool-cases}
use project_so.Fs.Types.{free, taken, FsState, update}
use project_so.Fs.Invariant.Defs.{Owns, IsWf}
use project_so.Fs.Invariant.Blocks.{not_root_of_free, not_owned}

-- The first bytes of a file, in a block that was free; and a file that has a block, with another size.
abbrev pub with_block : FsState → ℕ → ℕ → ℕ → FsState
with_block s n b size = record s {
  inode_table =
      update s.inode_table n (record (s.inode_table n) { i_data_block = some b; i_size = size });
  free_blocks = update s.free_blocks b taken;
}

abbrev pub with_size : FsState → ℕ → ℕ → FsState
with_size s n size = record s {
  inode_table = update s.inode_table n (record (s.inode_table n) { i_size = size });
}

module _ (s : FsState) (n size : ℕ) (w : IsWf s) (full : 0 < (s.inode_table n).i_size)
    (pos : 0 < size) where
  Owns-with_size : (m c : ℕ) → Owns (with_size s n size) m c → Owns s m c
  Owns-with_size m c o = ground arith

  pub IsWf-with_size : IsWf (with_size s n size)
  IsWf-with_size = record {
    root = ground arith;
    dir = record { names = w.dir.names; counted = λ m ne. ground (arith, w.dir.counted m ne) };
    blocks = record {
      owned = λ m c o. w.blocks.owned m c (Owns-with_size m c o);
      sized = λ m r u p. ground (arith, w.blocks.sized m r);
      unique =
          λ m m' c o o'. w.blocks.unique m m' c (Owns-with_size m c o) (Owns-with_size m' c o');
    };
    handles = λ h r u.
        let ok = w.handles h r u in
        record {
          positive = ok.positive;
          range = ok.range;
          sized = λ p. ground (arith, ok.sized);
          block = λ c p e. ground (arith, ok.block c);
        };
  }

module _ (s : FsState) (n b size : ℕ) (w : IsWf s) (positive : 0 < n)
    (small : b < s.max_block_count) (spare : s.free_blocks b ≡ free) where
  Owns-with_block :
      (m c : ℕ) → Owns (with_block s n b size) m c → (Owns s m c × (m ≢ n)) ⊎ ((m ≡ n) × (c ≡ b))
  Owns-with_block m c o = elim (Bool-cases (n == m)) [
    | inl same ↦ inr (ground arith, ground arith)
    | inr other ↦ inl (ground arith, ground arith)
  ]

  pub IsWf-with_block : IsWf (with_block s n b size)
  IsWf-with_block = record {
    root = let apart' = not_root_of_free s b w spare in ground arith;
    dir = record { names = w.dir.names; counted = λ m ne. ground (arith, w.dir.counted m ne) };
    blocks = record {
      owned = λ m c o. elim (Owns-with_block m c o) [
        | inl (back, ne) ↦ let held = w.blocks.owned m c back in (held.0, ground arith)
        | inr (e, e') ↦ (omega arith, ground arith)
      ];
      sized = λ m r u p. ground (arith, w.blocks.sized m r);
      unique = λ m m' c o o'. elim (Owns-with_block m c o) [
        | inl (back, ne) ↦ elim (Owns-with_block m' c o') [
          | inl (back', ne') ↦ w.blocks.unique m m' c back back'
          | inr (e, e') ↦ absurd (not_owned s m b c w spare back e')
        ]
        | inr (e, e') ↦ elim (Owns-with_block m' c o') [
          | inl (back', ne') ↦ absurd (not_owned s m' b c w spare back' e')
          | inr (f, f') ↦ e ∙ sym f
        ]
      ];
    };
    handles = λ h r u.
        let ok = w.handles h r u in
        let apart' = not_root_of_free s b w spare in
        record {
          positive = ok.positive;
          range = ok.range;
          sized = λ p. ground (arith, ok.sized);
          block = λ c p e. ground (arith, ok.block c);
        };
  }

-- The offset of an open handle changes.
abbrev pub with_offset : FsState → ℕ → ℕ → FsState
with_offset s h offset = record s {
  open_file_table =
      update s.open_file_table h (record (s.open_file_table h) { of_offset = offset });
}

pub IsWf-with_offset : (s : FsState) (h offset : ℕ) → IsWf s → IsWf (with_offset s h offset)
IsWf-with_offset s h offset w = record {
  root = w.root;
  dir = w.dir;
  blocks = w.blocks;
  handles = λ k r u. elim (Bool-cases (h == k)) [
    | inl same ↦ let e : h ≡ k = ground arith in rw same (rw (← e) at (w.handles k r u))
    | inr other ↦ rw other (w.handles k r u)
  ];
}
