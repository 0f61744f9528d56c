-- ===== src/Fs/Invariant/Closing.antt =====
-- `tfs_close` (fs/operations.c).
use project_so.Prelude.{
  ℕ, ◌≡◌, refl, ◌⊎◌, inl, inr, Bool, true, false, not, ◌&&◌, arith, ltb, Bool-cases,
}
use project_so.Fs.Types.{FsState, is_free, Status, success, failure}
use project_so.Fs.Monad.{done, ◌>>=◌, Returns}
use project_so.Fs.State.{remove_from_open_file_table, get_open_file_entry}
use project_so.Fs.Files.{close_entry, tfs_close}
use project_so.Fs.Invariant.Defs.{IsWf}
use project_so.Fs.Invariant.Blocks.{without_handle, IsWf-without_handle}

-- A handle that is in range and open.
abbrev pub is_open : FsState → ℕ → Bool
is_open s h = ltb h s.max_open_files_count && not (is_free (s.free_open_file_entries h))

-- What `tfs_close` does.
abbrev pub Closed : FsState → ℕ → Status → FsState → Type 0
Closed s h rc t =
    ((rc ≡ failure) × (is_open s h ≡ false) × (t ≡ s))
    ⊎ ((rc ≡ success) × (is_open s h ≡ true) × (t ≡ without_handle s h))

pub tfs_close_open :
    (s : FsState) (h : ℕ) → is_open s h ≡ true → tfs_close h s ≡ done success (without_handle s h)
unfolding tfs_close get_open_file_entry close_entry remove_from_open_file_table
tfs_close_open s h e =
    let valid : ltb h s.max_open_files_count ≡ true = ground arith in
    let used : is_free (s.free_open_file_entries h) ≡ false = ground arith in
    rw (valid, used, ◌>>=◌) (rw (valid, used, ◌>>=◌))

tfs_close_refused : (s : FsState) (h : ℕ) → is_open s h ≡ false → tfs_close h s ≡ done failure s
unfolding tfs_close get_open_file_entry close_entry remove_from_open_file_table
tfs_close_refused s h e = elim (Bool-cases (ltb h s.max_open_files_count)) [
  | inr out ↦ rw (out, ◌>>=◌)
  | inl valid ↦
      let unused : is_free (s.free_open_file_entries h) ≡ true = ground arith in
      rw (valid, unused, ◌>>=◌)
]

-- On a well-formed state `tfs_close` returns and leaves a well-formed state: it fails and changes
-- nothing if the handle is out of range or not open, and else it returns 0 and frees the handle.
pub tfs_close-Closed :
    (s : FsState) (h : ℕ) → IsWf s → Returns (λ rc t. IsWf t × Closed s h rc t) (tfs_close h s)
tfs_close-Closed s h w = elim (Bool-cases (is_open s h)) [
  | inl opened ↦
      rw (tfs_close_open s h opened) (IsWf-without_handle s h w, inr (refl, opened, refl))
  | inr shut ↦ rw (tfs_close_refused s h shut) (w, inl (refl, shut, refl))
]
