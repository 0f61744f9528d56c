-- ===== src/Memory/Scan.antt =====
-- The search loop of the sources: the first of `left` indices from `i` on that passes a test.
use project_so.Prelude.{
  ℕ, zero, suc, ◌+◌, ◌≤◌, ◌<◌, ◌≡◌, refl, ◌≢◌, inl, inr, Bool, true, false, Option, none, some,
  arith, ltb, Bool-cases,
}

unfoldable pub first_index : (ℕ → Bool) → ℕ → ℕ → Option ℕ
first_index p i zero = none
first_index p i (suc left) = elim (p i) [ true ↦ some i | false ↦ first_index p (suc i) left ]

pub first_index-some :
    (p : ℕ → Bool) (i left : ℕ) {k : ℕ}
    → first_index p i left ≡ some k
    → (i ≤ k) × (k < i + left) × (p k ≡ true)
unfolding first_index
first_index-some p i zero e = cc
first_index-some p i (suc left) {k} e = elim (Bool-cases (p i)) [
  | inl t ↦ let e' : i ≡ k = ground arith in (omega arith, omega arith, rw (← e') t)
  | inr f ↦
      let r = first_index-some p (suc i) left {k = k} (ground arith) in
      (omega arith, omega arith, r.2)
]

-- No earlier index passes.
pub first_index_first :
    (p : ℕ → Bool) (i left : ℕ) {k : ℕ}
    → first_index p i left ≡ some k
    → (j : ℕ) → i ≤ j
    → j < k
    → p j ≡ false
unfolding first_index
first_index_first p i zero e j h h' = cc
first_index_first p i (suc left) {k} e j h h' = elim (Bool-cases (p i)) [
  | inl t ↦ let e' : i ≡ k = ground arith in absurd (omega arith)
  | inr f ↦ ground (arith, f, first_index_first p (suc i) left {k = k} (ground arith) j)
]

pub first_index-none :
    (p : ℕ → Bool) (i left : ℕ)
    → first_index p i left ≡ none
    → (j : ℕ) → i ≤ j
    → j < i + left
    → p j ≡ false
unfolding first_index
first_index-none p i zero e j h h' = absurd (omega arith)
first_index-none p i (suc left) e j h h' = elim (Bool-cases (p i)) [
  | inl t ↦ ground arith
  | inr f ↦ ground (arith, f, first_index-none p (suc i) left (ground arith) j)
]

pub first_index-congr :
    (p q : ℕ → Bool) (i left : ℕ)
    → ((j : ℕ) → i ≤ j → j < i + left → p j ≡ q j)
    → first_index p i left ≡ first_index q i left
unfolding first_index
first_index-congr p q i zero h = refl
first_index-congr p q i (suc left) h =
    let rest = first_index-congr p q (suc i) left (λ j lo hi. h j (omega arith) (omega arith)) in
    ground (arith, h i (omega arith) (omega arith), rest)

-- An index that passes, all earlier ones failing, is the one found.
pub first_index_at :
    (p : ℕ → Bool) (i left k : ℕ)
    → i ≤ k
    → k < i + left
    → p k ≡ true
    → ((j : ℕ) → i ≤ j → j < k → p j ≡ false)
    → first_index p i left ≡ some k
unfolding first_index
first_index_at p i zero k lo hi t f = absurd (omega arith)
first_index_at p i (suc left) k lo hi t f = elim (Bool-cases (p i)) [
  | inl here ↦
      let e : i ≡ k = elim (Bool-cases (ltb i k)) [
        | inl lt ↦ ground (arith, f i)
        | inr ge ↦ ground arith
      ] in
      ground arith
  | inr miss ↦
      let ne : i ≢ k = λ e. cc in
      ground (
        arith,
        miss,
        first_index_at p (suc i) left k (omega arith) (omega arith) t
            (λ j a b. f j (omega arith) b),
      )
]
