-- ===== src/Fs/LinkChains.antt =====
-- Chains of symbolic links: `get_path_recursive` (fs/state.c), whose calls in C have no bound.
use project_so.Prelude.{ℕ, zero, suc, ◌≡◌, refl, inr, some}
use project_so.Fs.Types.{FsState}
use project_so.Fs.Monad.{done, out_of_fuel}
use project_so.Fs.Directory.{follow_link, get_path_recursive}

-- Where each of two links leads to the other, `get_path_recursive` from either one returns with no
-- number of calls.
pub get_path_recursive-cycle :
    (fuel n m : ℕ) (s : FsState)
    → follow_link n s ≡ done (inr (some m)) s
    → follow_link m s ≡ done (inr (some n)) s
    → (get_path_recursive fuel (some n) s ≡ out_of_fuel)
      × (get_path_recursive fuel (some m) s ≡ out_of_fuel)
unfolding get_path_recursive
get_path_recursive-cycle zero n m s e e' = (refl, refl)
get_path_recursive-cycle (suc fuel) n m s e e' =
    let rest = get_path_recursive-cycle fuel n m s e e' in
    (rw (get_path_recursive, e) rest.1, rw (get_path_recursive, e') rest.0)
