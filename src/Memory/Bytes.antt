-- ===== src/Memory/Bytes.antt =====
-- Reads and writes of bytes and of int objects.
use project_so.Prelude.{
  ℕ, zero, suc, ◌+◌, ◌-◌, ◌*◌, ◌/◌, ◌%◌, ◌^◌, ◌≤◌, ◌<◌, ◌≡◌, refl, ap, ◌&&◌, List, [], ◌∷◌, arith,
  ltb, leb, if◌then◌else◌, length, get_or,
}

abbrev pub Memory : Type 0
Memory = ℕ → ℕ

-- `n` bytes from address `a` on take the values of `f`.
unfoldable pub store : Memory → ℕ → ℕ → (ℕ → ℕ) → Memory
store m a n f x = if leb a x && ltb x (a + n) then f (x - a) else m x

pub store_hit : (m : Memory) (a n : ℕ) (f : ℕ → ℕ) (j : ℕ) → j < n → store m a n f (a + j) ≡ f j
unfolding store
store_hit m a n f j h = let e : a + j - a ≡ j = omega arith in rw e (ground arith)

pub store_below : (m : Memory) (a n : ℕ) (f : ℕ → ℕ) (x : ℕ) → x < a → store m a n f x ≡ m x
unfolding store
store_below m a n f x h = ground arith

pub store_above : (m : Memory) (a n : ℕ) (f : ℕ → ℕ) (x : ℕ) → a + n ≤ x → store m a n f x ≡ m x
unfolding store
store_above m a n f x h = ground arith

-- The first `n` bytes at `a`, in order.
unfoldable pub load : Memory → ℕ → ℕ → List ℕ
load m a zero = []
load m a (suc n) = m a ∷ load m (suc a) n

pub length-load : (m : Memory) (a n : ℕ) → length (load m a n) ≡ n
unfolding load
length-load m a zero = refl
length-load m a (suc n) = ap suc (length-load m (suc a) n)

pub load-congr :
    (m m' : Memory) (a a' n : ℕ)
    → ((j : ℕ) → j < n → m (a + j) ≡ m' (a' + j))
    → load m a n ≡ load m' a' n
unfolding load
load-congr m m' a a' zero h = refl
load-congr m m' a a' (suc n) h = ground (
  arith,
  h 0,
  load-congr m m' (suc a) (suc a') n λ j lt.
      let e : suc a + j ≡ a + suc j = omega arith in
      let e' : suc a' + j ≡ a' + suc j = omega arith in rw (e, e') (h (suc j) (omega arith)),
)

-- A write of the bytes of a list.
unfoldable pub store_list : Memory → ℕ → List ℕ → Memory
store_list m a bs = store m a (length bs) (λ j. get_or bs j 0)

pub load-get_or :
    (bs : List ℕ) (a : ℕ) (m : Memory)
    → ((j : ℕ) → j < length bs → m (a + j) ≡ get_or bs j 0)
    → load m a (length bs) ≡ bs
unfolding load
load-get_or [] a m h = refl
load-get_or (b ∷ bs) a m h = ground (
  arith,
  h 0,
  load-get_or bs (suc a) m
      λ j lt. let e : suc a + j ≡ a + suc j = omega arith in rw e (h (suc j) (omega arith)),
)

pub load-store_list :
    (m : Memory) (a : ℕ) (bs : List ℕ) → load (store_list m a bs) a (length bs) ≡ bs
unfolding store_list
load-store_list m a bs =
    load-get_or bs a _ (λ j lt. store_hit m a (length bs) (λ i. get_or bs i 0) j lt)

-- An int object, as the bit pattern of its value: -1 is 2^32 - 1.
unfoldable pub byte_of : ℕ → ℕ → ℕ
byte_of v zero = v % 256
byte_of v (suc j) = byte_of (v / 256) j

unfoldable pub write_int : Memory → ℕ → ℕ → Memory
write_int m a v = store m a 4 (byte_of v)

unfoldable pub read_int : Memory → ℕ → ℕ
read_int m a = m (a + 0) + 256 * m (a + 1) + 65536 * m (a + 2) + 16777216 * m (a + 3)

abbrev pub minus_one : ℕ
minus_one = 2 ^ 32 - 1

pub read_int-write_int : (m : Memory) (a v : ℕ) → read_int (write_int m a v) a ≡ v % 2 ^ 32
unfolding read_int write_int byte_of
read_int-write_int m a v = omega (
  arith,
  store_hit m a 4 (byte_of v) 0 (omega arith),
  store_hit m a 4 (byte_of v) 1 (omega arith),
  store_hit m a 4 (byte_of v) 2 (omega arith),
  store_hit m a 4 (byte_of v) 3 (omega arith),
)

pub read_int-congr :
    (m m' : Memory) (a : ℕ)
    → ((j : ℕ) → j < 4 → m (a + j) ≡ m' (a + j))
    → read_int m a ≡ read_int m' a
unfolding read_int
read_int-congr m m' a h =
    rw (h 0 (omega arith), h 1 (omega arith), h 2 (omega arith), h 3 (omega arith))
