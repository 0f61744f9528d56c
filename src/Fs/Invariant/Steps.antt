-- ===== src/Fs/Invariant/Steps.antt =====
-- Steps of the calls of fs/operations.c on well-formed states: entries, counters and inodes.
use project_so.Prelude.{ℕ, ◌^◌, ◌≤◌, ◌<◌, ◌≡◌, refl, ap, ◌∙◌, ◌≢◌, true, some, List, arith, length}
use project_so.Fs.Types.{max_file_name, free, Inode, FsState, max_dir_entries, update}
use project_so.Fs.Directory.{is_empty_entry}
use project_so.Fs.Invariant.Defs.{links, allowed, Owns, IsWf}
use project_so.Fs.Invariant.Links.{with_entry, without_entry, DirOk-with_entry, DirOk-without_entry}
use project_so.Fs.Invariant.Inodes.{with_inode, empty_file, without_inode, without_block}

-- An entry is added or cleared.
pub IsWf-with_entry :
    (s : FsState) (k : ℕ) (name : List ℕ) (v : ℕ)
    → IsWf s
    → k < max_dir_entries s
    → is_empty_entry s.fs_data 0 k ≡ true
    → length name < max_file_name
    → v < 2 ^ 31
    → links s v < allowed s v
    → IsWf (with_entry s k name v)
IsWf-with_entry s k name v w lt empty short small room = record {
  root = w.root;
  dir = DirOk-with_entry s k name v w.dir lt empty short small room;
  blocks = w.blocks;
  handles = w.handles;
}

pub IsWf-without_entry :
    (s : FsState) (k : ℕ) → IsWf s → k < max_dir_entries s → IsWf (without_entry s k)
IsWf-without_entry s k w lt = record {
  root = w.root;
  dir = DirOk-without_entry s k w.dir lt;
  blocks = w.blocks;
  handles = w.handles;
}

-- An unused inode is taken, with a size of 0.
module _ (s : FsState) (n : ℕ) (w : IsWf s) (lt : n < s.max_inode_count)
    (unused : s.freeinode_ts n ≡ free) (i : Inode) (size : i.i_size ≡ 0) where
  not_root : 0 ≢ n
  not_root e = ground (arith, w.root.in_use, ap s.freeinode_ts e)

  Owns-with_inode : (m b : ℕ) → Owns (with_inode s n i) m b → Owns s m b
  Owns-with_inode m b o = ground arith

  pub IsWf-with_inode : IsWf (with_inode s n i)
  IsWf-with_inode = record {
    root = let apart = not_root in ground arith;
    dir = record { names = w.dir.names; counted = λ m ne. ground (arith, w.dir.counted m ne) };
    blocks = record {
      owned = λ m b o. w.blocks.owned m b (Owns-with_inode m b o);
      sized = λ m r u p. ground (arith, w.blocks.sized m r);
      unique =
          λ m m' b o o'. w.blocks.unique m m' b (Owns-with_inode m b o) (Owns-with_inode m' b o');
    };
    handles = λ h r u.
        let ok = w.handles h r u in
        record {
          positive = ok.positive;
          range = ok.range;
          sized = λ p. ground (arith, ok.sized);
          block = λ b p e. ground (arith, ok.block b);
        };
  }

pub IsWf-new_file :
    (s : FsState) (n : ℕ)
    → IsWf s
    → n < s.max_inode_count
    → s.freeinode_ts n ≡ free
    → IsWf (with_inode s n empty_file)
IsWf-new_file s n w lt unused = IsWf-with_inode s n w lt unused empty_file refl

links-same : (s : FsState) (n m : ℕ) → n ≡ m → links s n ≡ links s m
links-same s n m e = ap (links s) e

-- The counter of an inode changes, and still counts its links.
abbrev pub with_count : FsState → ℕ → ℕ → FsState
with_count s n c = record s {
  inode_table = update s.inode_table n (record (s.inode_table n) { i_count = c });
}

module _ (s : FsState) (n c : ℕ) (w : IsWf s) (fits : links s n ≤ c) where
  Owns-with_count : (m b : ℕ) → Owns (with_count s n c) m b → Owns s m b
  Owns-with_count m b o = ground arith

  pub IsWf-with_count : IsWf (with_count s n c)
  IsWf-with_count = record {
    root = ground arith;
    dir = record {
      names = w.dir.names;
      counted = λ m ne. ground (arith, w.dir.counted m ne, links-same s n m);
    };
    blocks = record {
      owned = λ m b o. w.blocks.owned m b (Owns-with_count m b o);
      sized = λ m r u p. ground (arith, w.blocks.sized m r);
      unique =
          λ m m' b o o'. w.blocks.unique m m' b (Owns-with_count m b o) (Owns-with_count m' b o');
    };
    handles = λ h r u.
        let ok = w.handles h r u in
        record {
          positive = ok.positive;
          range = ok.range;
          sized = λ p. ground (arith, ok.sized);
          block = λ b p e. ground (arith, ok.block b);
        };
  }

-- An inode without links is deleted, with its block or without one.
module _ (s : FsState) (n : ℕ) (w : IsWf s) (pos : 0 < n) (unlinked : links s n ≡ 0) where
  pub IsWf-without_inode : (s.inode_table n).i_size ≡ 0 → IsWf (without_inode s n)
  IsWf-without_inode empty = record {
    root = ground arith;
    dir = record {
      names = w.dir.names;
      counted = λ m ne. ground (arith, w.dir.counted m ne, links-same s n m);
    };
    blocks = record {
      owned = λ m b o. w.blocks.owned m b (ground arith);
      sized = λ m r u p. ground (arith, w.blocks.sized m r);
      unique = λ m m' b o o'. w.blocks.unique m m' b (ground arith) (ground arith);
    };
    handles = w.handles;
  }

  module _ (b : ℕ) (owner : Owns s n b) where
    not_shared : (m c : ℕ) → Owns s m c → m ≢ n → c ≢ b
    not_shared m c o ne e =
        let o' : Owns s m b = record {
          range = o.range;
          in_use = o.in_use;
          size = o.size;
          block = o.block ∙ ap some e;
        } in
        ne (w.blocks.unique m n b o' owner)

    Owns-deleted : (m c : ℕ) → Owns (without_inode (without_block s b) n) m c → Owns s m c × (m ≢ n)
    Owns-deleted m c o = ground arith

    root_apart : 0 ≢ b
    root_apart e =
        let r : Owns s 0 b = record {
          range = w.root.some_inodes;
          in_use = w.root.in_use;
          size = w.root.size;
          block = w.root.block ∙ ap some e;
        } in
        let same = w.blocks.unique 0 n b r owner in omega arith

    pub IsWf-deleted : IsWf (without_inode (without_block s b) n)
    IsWf-deleted = record {
      root = let apart = root_apart in ground arith;
      dir = record {
        names = w.dir.names;
        counted = λ m ne. ground (arith, w.dir.counted m ne, links-same s n m);
      };
      blocks = record {
        owned = λ m c o.
            let back = Owns-deleted m c o in
            let held = w.blocks.owned m c back.0 in
            (held.0, (let ne = not_shared m c back.0 back.1 in ground arith));
        sized = λ m r u p. ground (arith, w.blocks.sized m r);
        unique =
            λ m m' c o o'. w.blocks.unique m m' c (Owns-deleted m c o).0 (Owns-deleted m' c o').0;
      };
      handles = w.handles;
    }
