-- ===== src/Fs/Invariant/Tests.antt =====
-- The invariant and the calls of fs/operations.c on a file system of a few inodes and blocks.
use project_so.Fs.Invariant.Sample.{
  opened_file, opened_file-IsWf, blank_inode, zeroed, small, small-ParamsOk, with_file,
  with_file-IsWf, a_path, no_soft_link,
}
use project_so.Prelude.{ℕ, ◌+◌, ◌^◌, ◌<◌, ◌≡◌, refl, true, false, some, [], ◌∷◌, arith}
use project_so.Fs.Types.{taken, FsState, OpenMode, success}
use project_so.Fs.Monad.{Returns}
use project_so.Fs.Operations.{tfs_init, tfs_open, tfs_sym_link, tfs_link, tfs_unlink}
use project_so.Fs.Files.{tfs_close, tfs_write}
use project_so.Fs.Invariant.Defs.{IsWf}
use project_so.Fs.Invariant.Unlink.{Unlinked, tfs_unlink-Unlinked}
use project_so.Fs.Invariant.Linking.{Linked, tfs_link-Linked}
use project_so.Fs.Invariant.Opening.{Opened}
use project_so.Fs.Invariant.OpenPath.{tfs_open-Opened}
use project_so.Fs.Invariant.Closing.{Closed, tfs_close-Closed}
use project_so.Fs.Invariant.SymLink.{SymLinked, tfs_sym_link-SymLinked}
use project_so.Fs.Invariant.Init.{tfs_init-IsWf}
use project_so.Fs.Invariant.WriteCall.{tfs_write-Written}
use project_so.Fs.Invariant.CreateMode.{FileOpened, tfs_open-FileOpened}
use project_so.Fs.Invariant.Written.{Written}

-- Before `tfs_init`.
abbrev unmounted : FsState
unmounted = record {
  fs_params = small;
  initialised = false;
  inode_table = λ _. blank_inode;
  freeinode_ts = λ _. taken;
  fs_data = λ _. 0;
  free_blocks = λ _. taken;
  open_file_table = λ _. record { of_inumber = 0; of_offset = 0 };
  free_open_file_entries = λ _. taken;
}

tfs_init-IsWf_example :
    Returns (λ rc t. (rc ≡ success) × IsWf t) (tfs_init zeroed (some small) unmounted)
tfs_init-IsWf_example =
    tfs_init-IsWf zeroed small unmounted small-ParamsOk (λ i lt. refl) refl refl refl

tfs_unlink-Unlinked_example :
    Returns
      (λ rc t. IsWf t × Unlinked with_file (97 ∷ []) rc t)
      (tfs_unlink (some (b'/' ∷ 97 ∷ [])) with_file)
tfs_unlink-Unlinked_example = tfs_unlink-Unlinked with_file b'/' (97 ∷ []) with_file-IsWf a_path

few_links : (n : ℕ) → (with_file.inode_table n).i_count + 1 < 2 ^ 31
few_links n = ground arith

-- `/b`
tfs_link-Linked_example :
    Returns
      (λ rc t. IsWf t × Linked with_file (97 ∷ []) (98 ∷ []) rc t)
      (tfs_link (some (b'/' ∷ 97 ∷ [])) (some (b'/' ∷ 98 ∷ [])) with_file)
tfs_link-Linked_example =
    tfs_link-Linked with_file b'/' (97 ∷ []) b'/' (98 ∷ []) with_file-IsWf a_path few_links

abbrev create_and_append : OpenMode
create_and_append = record { creat = true; trunc = false; append = true }

tfs_open-Opened_example :
    Returns (Opened with_file) (tfs_open 5 (some (b'/' ∷ 97 ∷ [])) create_and_append with_file)
tfs_open-Opened_example =
    tfs_open-Opened 5 with_file b'/' (97 ∷ []) create_and_append with_file-IsWf a_path no_soft_link

abbrev create_only : OpenMode
create_only = record { creat = true; trunc = false; append = false }

tfs_open-FileOpened_example :
    Returns
      (FileOpened with_file (97 ∷ []))
      (tfs_open 5 (some (b'/' ∷ 97 ∷ [])) create_only with_file)
tfs_open-FileOpened_example =
    tfs_open-FileOpened 5 with_file b'/' (97 ∷ []) create_only with_file-IsWf a_path no_soft_link
      refl refl refl

tfs_sym_link-SymLinked_example :
    Returns
      (λ rc t. IsWf t × SymLinked with_file (97 ∷ []) (b'/' ∷ 97 ∷ []) (98 ∷ []) rc t)
      (tfs_sym_link (some (b'/' ∷ 97 ∷ [])) (some (b'/' ∷ 98 ∷ [])) with_file)
tfs_sym_link-SymLinked_example =
    tfs_sym_link-SymLinked with_file b'/' (97 ∷ []) b'/' (98 ∷ []) with_file-IsWf a_path
      (omega arith)

tfs_close-Closed_example :
    Returns (λ rc t. IsWf t × Closed opened_file 2 rc t) (tfs_close 2 opened_file)
tfs_close-Closed_example = tfs_close-Closed opened_file 2 opened_file-IsWf

-- `hi`, to be written through handle 2
tfs_write-Written_example :
    Returns
      (λ r t. IsWf t × Written opened_file 2 (104 ∷ 105 ∷ []) 2 r t)
      (tfs_write 2 (104 ∷ 105 ∷ []) 2 opened_file)
tfs_write-Written_example =
    tfs_write-Written opened_file 2 (104 ∷ 105 ∷ []) 2 opened_file-IsWf (λ _. omega arith)
      (omega arith) (omega arith)
