-- ===== src/Memory/Names.antt =====
-- C strings in memory: comparison with a string, and the copy with padding.
use project_so.Prelude.{
  ℕ, zero, suc, ◌+◌, ◌<◌, ◌≡◌, refl, Bool, true, false, ◌&&◌, List, [], ◌∷◌, arith, ◌==◌, get_or,
  All,
}
use project_so.Memory.Bytes.{Memory, store}

-- strcmp(m + a, s) == 0
unfoldable pub strcmp_eq : Memory → ℕ → List ℕ → Bool
strcmp_eq m a [] = m a == 0
strcmp_eq m a (c ∷ s) = (m a == c) && strcmp_eq m (suc a) s

-- strncmp(m + a, s, n) == 0
unfoldable pub strncmp_eq : Memory → ℕ → List ℕ → ℕ → Bool
strncmp_eq m a s zero = true
strncmp_eq m a [] (suc n) = m a == 0
strncmp_eq m a (c ∷ s) (suc n) = (m a == c) && strncmp_eq m (suc a) s n

-- strncpy(m + a, s, n): the string, cut at `n` bytes or padded with 0 up to them.
unfoldable pub strncpy : Memory → ℕ → List ℕ → ℕ → Memory
strncpy m a s n = store m a n (λ j. get_or s j 0)

abbrev pub IsCString : List ℕ → Type 0
IsCString = All (λ c. 0 < c)

-- On memory that ends a string within `n` bytes the two comparisons agree.
pub strncmp_eq-strcmp_eq :
    (m : Memory) (a : ℕ) (s : List ℕ) (n : ℕ)
    → IsCString s
    → m (a + n) ≡ 0
    → strncmp_eq m a s (suc n) ≡ strcmp_eq m a s
unfolding strncmp_eq strcmp_eq
strncmp_eq-strcmp_eq m a [] n c z = refl
strncmp_eq-strcmp_eq m a (x ∷ s) zero c z =
    let e : a + 0 ≡ a = omega arith in let z' : m a ≡ 0 = rw e at z in ground arith
strncmp_eq-strcmp_eq m a (x ∷ s) (suc n) c z =
    let e : a + suc n ≡ suc a + n = omega arith in
    ground (arith, strncmp_eq-strcmp_eq m (suc a) s n c.1 (rw e at z))

pub strcmp_eq-congr :
    (m m' : Memory) (a : ℕ) (s : List ℕ) (n : ℕ)
    → ((j : ℕ) → j < n → m (a + j) ≡ m' (a + j))
    → strncmp_eq m a s n ≡ strncmp_eq m' a s n
unfolding strncmp_eq
strcmp_eq-congr m m' a s zero h = refl
strcmp_eq-congr m m' a [] (suc n) h =
    let e : a + 0 ≡ a = omega arith in
    let h' : m a ≡ m' a = rw e at (h 0 (omega arith)) in ground arith
strcmp_eq-congr m m' a (x ∷ s) (suc n) h =
    let e : a + 0 ≡ a = omega arith in
    let h' : m a ≡ m' a = rw e at (h 0 (omega arith)) in
    ground (
      arith,
      strcmp_eq-congr m m' (suc a) s n
          λ j lt. let e' : suc a + j ≡ a + suc j = omega arith in rw e' (h (suc j) (omega arith)),
    )

-- A field of `n` bytes that holds `s`, padded with 0, compares equal to `s`.
pub strncmp_eq_self :
    (m : Memory) (a : ℕ) (s : List ℕ) (n : ℕ)
    → ((j : ℕ) → j < n → m (a + j) ≡ get_or s j 0)
    → strncmp_eq m a s n ≡ true
unfolding strncmp_eq
strncmp_eq_self m a s zero h = refl
strncmp_eq_self m a [] (suc n) h =
    let e : a + 0 ≡ a = omega arith in
    let h' : m a ≡ 0 = rw e at (h 0 (omega arith)) in ground arith
strncmp_eq_self m a (x ∷ s) (suc n) h =
    let e : a + 0 ≡ a = omega arith in
    let h' : m a ≡ x = rw e at (h 0 (omega arith)) in
    ground (
      arith,
      strncmp_eq_self m (suc a) s n
          λ j lt. let e' : suc a + j ≡ a + suc j = omega arith in rw e' (h (suc j) (omega arith)),
    )

-- An empty field compares unequal to every name with a character.
pub strcmp_eq_empty :
    (m : Memory) (a c : ℕ) (s : List ℕ) → m a ≡ 0 → 0 < c → strcmp_eq m a (c ∷ s) ≡ false
unfolding strcmp_eq
strcmp_eq_empty m a c s z h = ground arith
