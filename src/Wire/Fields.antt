-- ===== src/Wire/Fields.antt =====
-- Fixed-size fields that lie one behind the other in a buffer, and numbers as their bytes.
use project_so.Prelude.{
  ℕ, zero, suc, ◌+◌, ◌*◌, ◌/◌, ◌%◌, ◌≤◌, ◌<◌, ◌≡◌, refl, sym, ap, ◌∙◌, List, [], ◌∷◌, arith, length,
  get_or,
}
use project_so.Memory.Bytes.{Memory, store, store_hit, store_below, store_above, load}
use project_so.Memory.Bytes.{load-get_or}
use project_so.Prelude.{subst}

-- memcpy(buffer + a, field, n)
abbrev pub memcpy : Memory → ℕ → ℕ → List ℕ → Memory
memcpy m a n bs = store m a n (λ j. get_or bs j 0)

-- The `n` bytes of a number, the least significant first, and back.
unfoldable pub to_bytes : ℕ → ℕ → List ℕ
to_bytes zero v = []
to_bytes (suc n) v = v % 256 ∷ to_bytes n (v / 256)

unfoldable pub from_bytes : List ℕ → ℕ
from_bytes [] = 0
from_bytes (b ∷ bs) = b + 256 * from_bytes bs

-- `v` has at most `n` bytes.
abbrev pub Fits : ℕ → ℕ → Type 0
Fits zero v = v ≡ 0
Fits (suc n) v = Fits n (v / 256)

pub length-to_bytes : (n v : ℕ) → length (to_bytes n v) ≡ n
unfolding to_bytes
length-to_bytes zero v = refl
length-to_bytes (suc n) v = ap suc (length-to_bytes n (v / 256))

pub from_bytes-to_bytes : (n v : ℕ) → Fits n v → from_bytes (to_bytes n v) ≡ v
unfolding from_bytes to_bytes
from_bytes-to_bytes zero v h = sym h
from_bytes-to_bytes (suc n) v h = omega (arith, from_bytes-to_bytes n (v / 256) h)

-- A field: its size in the buffer and its bytes.
abbrev pub Field : Type 0
Field = ℕ × List ℕ

unfoldable pub write_fields : Memory → ℕ → List Field → Memory
write_fields m a [] = m
write_fields m a ((n, bs) ∷ fs) = write_fields (memcpy m a n bs) (a + n) fs

unfoldable pub total_size : List Field → ℕ
total_size [] = 0
total_size ((n, bs) ∷ fs) = n + total_size fs

abbrev pub IsFull : Field → Type 0
IsFull (n, bs) = length bs ≡ n

pub write_fields_below :
    (m : Memory) (a : ℕ) (fs : List Field) (x : ℕ) → x < a → write_fields m a fs x ≡ m x
unfolding write_fields
write_fields_below m a [] x h = refl
write_fields_below m a ((n, bs) ∷ fs) x h =
    write_fields_below (memcpy m a n bs) (a + n) fs x (omega arith)
    ∙ store_below m a n (λ j. get_or bs j 0) x h

pub write_fields_above :
    (m : Memory) (a : ℕ) (fs : List Field) (x : ℕ)
    → a + total_size fs ≤ x
    → write_fields m a fs x ≡ m x
unfolding write_fields total_size
write_fields_above m a [] x h = refl
write_fields_above m a ((n, bs) ∷ fs) x h =
    write_fields_above (memcpy m a n bs) (a + n) fs x (omega arith)
    ∙ store_above m a n (λ j. get_or bs j 0) x (omega arith)

-- The first field is read back.
pub load-write_fields :
    (m : Memory) (a : ℕ) (bs : List ℕ) (fs : List Field)
    → load (write_fields m a ((length bs, bs) ∷ fs)) a (length bs) ≡ bs
unfolding write_fields
load-write_fields m a bs fs = load-get_or bs a _ λ j lt.
    write_fields_below (memcpy m a (length bs) bs) (a + length bs) fs (a + j) (omega arith)
    ∙ store_hit m a (length bs) (λ i. get_or bs i 0) j lt

pub load-field :
    (m : Memory) (a n : ℕ) (bs : List ℕ) (fs : List Field)
    → length bs ≡ n
    → load (write_fields m a ((n, bs) ∷ fs)) a n ≡ bs
load-field m a n bs fs h =
    subst (λ k. load (write_fields m a ((k, bs) ∷ fs)) a k ≡ bs) h (load-write_fields m a bs fs)

-- A number that is stored in `n` bytes is read back.
pub load-number :
    (m : Memory) (a n v : ℕ) (fs : List Field)
    → Fits n v
    → from_bytes (load (write_fields m a ((n, to_bytes n v) ∷ fs)) a n) ≡ v
load-number m a n v fs h =
    ap from_bytes (load-field m a n (to_bytes n v) fs (length-to_bytes n v))
    ∙ from_bytes-to_bytes n v h
