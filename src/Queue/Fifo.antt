-- ===== src/Queue/Fifo.antt =====
-- producer-consumer/producer-consumer.c against a bounded first-in first-out queue.
use project_so.Prelude.{
  ℕ, zero, suc, ◌+◌, ◌-◌, ◌≤◌, ◌<◌, ◌≡◌, refl, ap, inl, inr, Option, none, some, List, [], ◌∷◌,
  ◌++◌, arith, ◌==◌, if◌then◌else◌, Bool-cases, length,
}
use mathlib.Core.Option
use project_so.Queue.Defs.{PcQueue, slots, write_slot, shift, pcq_enqueue, pcq_dequeue}

module _ {A : Type 0} where
  -- The elements lie between the head and the tail, inside the allocated slots.
  pub record IsValid (q : PcQueue A) : Type 0 where
    pub bounded : q.pcq_current_size ≤ q.pcq_capacity
    pub empty_tail : q.pcq_current_size ≡ 0 → q.pcq_tail ≡ q.pcq_head
    pub full_tail : 0 < q.pcq_current_size → q.pcq_tail + 1 ≡ q.pcq_head + q.pcq_current_size
    pub room : q.pcq_head ≤ q.pcq_capacity

  -- The `n` elements from `head` on, the oldest, which has the highest index, first.
  abbrev pub window : (ℕ → A) → ℕ → ℕ → List A
  window buf head zero = []
  window buf head (suc n) = buf (head + n) ∷ window buf head n

  abbrev pub contents : PcQueue A → List A
  contents q = window q.pcq_buffer q.pcq_head q.pcq_current_size

  -- The specification: a bounded list, oldest first.
  unfoldable pub push : ℕ → List A → A → Option (List A)
  push capacity xs a = if length xs == capacity then none else some (xs ++ a ∷ [])

  unfoldable pub pop : List A → Option (A × List A)
  pop [] = none
  pop (x ∷ xs) = some (x, xs)

  length-window : (buf : ℕ → A) (head n : ℕ) → length (window buf head n) ≡ n
  length-window buf head zero = refl
  length-window buf head (suc n) = ap suc (length-window buf head n)

  shift_below :
      (buf : ℕ → A) (head rounds x : ℕ) → head + rounds < x → shift buf head rounds x ≡ buf x
  unfolding shift
  shift_below buf head zero x h = refl
  shift_below buf head (suc rounds) x h = ground (
    arith,
    shift_below (write_slot buf (head + suc rounds) (buf (head + suc rounds - 1))) head rounds x,
  )

  shift_at :
      (buf : ℕ → A) (head rounds i : ℕ)
      → i < rounds
      → shift buf head rounds (head + suc i) ≡ buf (head + i)
  unfolding shift
  shift_at buf head zero i h = absurd (omega arith)
  shift_at buf head (suc rounds) i h = elim (Bool-cases (i == rounds)) [
    | inl last ↦
        let e : i ≡ rounds = ground arith in
        let e' : head + suc rounds - 1 ≡ head + rounds = omega arith in
        rw (e, e')
          (ground (
            arith,
            shift_below (write_slot buf (head + suc rounds) (buf (head + rounds))) head rounds
                (head + suc rounds),
          ))
    | inr before ↦ ground (
      arith,
      before,
      shift_at (write_slot buf (head + suc rounds) (buf (head + suc rounds - 1))) head rounds i,
    )
  ]

  window-enqueue :
      (buf buf' : ℕ → A) (head n : ℕ) (a : A)
      → buf' (head + 0) ≡ a
      → ((i : ℕ) → i < n → buf' (head + suc i) ≡ buf (head + i))
      → window buf' head (suc n) ≡ window buf head n ++ a ∷ []
  window-enqueue buf buf' head zero a h k = rw h
  window-enqueue buf buf' head (suc n) a h k =
      ground
        (arith, k n (omega arith), window-enqueue buf buf' head n a h (λ i lt. k i (omega arith)))

  -- The buffer after the shift and the write, at any size.
  window-written :
      (buf : ℕ → A) (head tail n : ℕ) (a : A)
      → (0 < n → tail + 1 ≡ head + n)
      → window
          (write_slot (if n == 0 then buf else shift buf head (tail + 1 - head)) head a)
          head
          (n + 1)
        ≡ window buf head n ++ a ∷ []
  window-written buf head tail zero a h = ground arith
  window-written buf head tail (suc n) a h =
      let e : suc n + 1 ≡ suc (suc n) = omega arith in
      let rounds : tail + 1 - head ≡ suc n = omega arith in
      rw e (
        window-enqueue buf
          (write_slot (if suc n == 0 then buf else shift buf head (tail + 1 - head)) head a) head
          (suc n) a (ground arith) (λ i lt. ground (arith, rounds, shift_at buf head (suc n) i lt)))

  window_of_pos :
      (buf : ℕ → A) (head n : ℕ)
      → 0 < n
      → window buf head n ≡ buf (head + n - 1) ∷ window buf head (n - 1)
  window_of_pos buf head zero h = absurd (omega arith)
  window_of_pos buf head (suc n) h =
      let e : head + suc n - 1 ≡ head + n = omega arith in
      let e' : suc n - 1 ≡ n = omega arith in rw (e, e')

  -- On a valid queue, `pcq_enqueue` waits exactly when the list of the elements has the queue's
  -- capacity, and else leaves that list with the new element at its end.
  pub enqueue_refines :
      {q : PcQueue A} (a : A)
      → IsValid q
      → Option.map contents (pcq_enqueue q a) ≡ push q.pcq_capacity (contents q) a
  unfolding pcq_enqueue push
  enqueue_refines {q} a v = elim (Bool-cases (q.pcq_current_size == q.pcq_capacity)) [
    | inl full ↦ rw (length-window q.pcq_buffer q.pcq_head q.pcq_current_size, full)
    | inr room ↦
        rw (length-window q.pcq_buffer q.pcq_head q.pcq_current_size, room)
          (ap some
            (window-written q.pcq_buffer q.pcq_head q.pcq_tail q.pcq_current_size a v.full_tail))
  ]

  pub enqueue-IsValid : {q r : PcQueue A} (a : A) → IsValid q → pcq_enqueue q a ≡ some r → IsValid r
  unfolding pcq_enqueue
  enqueue-IsValid {q} a v e = ground arith

  abbrev pub seen : A × PcQueue A → A × List A
  seen (a, q) = (a, contents q)

  -- On a valid queue, `pcq_dequeue` waits exactly when the list of the elements is empty, and else
  -- returns the first of it and leaves the rest.
  pub dequeue_refines :
      {q : PcQueue A} → IsValid q → Option.map seen (pcq_dequeue q) ≡ pop (contents q)
  unfolding pcq_dequeue pop
  dequeue_refines {q} v = elim (Bool-cases (q.pcq_current_size == 0)) [
    | inl empty ↦ let e : q.pcq_current_size ≡ 0 = ground arith in rw (empty, e)
    | inr some_left ↦
        let pos : 0 < q.pcq_current_size = ground arith in
        let last : q.pcq_tail ≡ q.pcq_head + q.pcq_current_size - 1 =
          omega (arith, v.full_tail pos) in
        rw (some_left, window_of_pos q.pcq_buffer q.pcq_head q.pcq_current_size pos, last)
  ]

  pub dequeue-IsValid :
      {q r : PcQueue A} {a : A} → IsValid q → pcq_dequeue q ≡ some (a, r) → IsValid r
  unfolding pcq_dequeue
  dequeue-IsValid {q} v e = ground arith

  pub capacity-enqueue :
      (q : PcQueue A) (a : A) {r : PcQueue A}
      → pcq_enqueue q a ≡ some r
      → r.pcq_capacity ≡ q.pcq_capacity
  unfolding pcq_enqueue
  capacity-enqueue q a e = ground arith

  pub capacity-dequeue :
      (q : PcQueue A) {a : A} {r : PcQueue A}
      → pcq_dequeue q ≡ some (a, r)
      → r.pcq_capacity ≡ q.pcq_capacity
  unfolding pcq_dequeue
  capacity-dequeue q e = ground arith

  -- On a valid queue, a `pcq_enqueue` that returns writes no index at or behind the number of
  -- allocated slots.
  pub enqueue_in_range :
      {q r : PcQueue A} (a : A) (j : ℕ)
      → IsValid q
      → pcq_enqueue q a ≡ some r
      → slots q ≤ j
      → r.pcq_buffer j ≡ q.pcq_buffer j
  unfolding pcq_enqueue
  enqueue_in_range {q} a j v e h =
      ground (arith, shift_below q.pcq_buffer q.pcq_head (q.pcq_tail + 1 - q.pcq_head) j)

  -- On a valid queue, the index that a `pcq_dequeue` reads is one of the allocated slots.
  pub dequeue_in_range :
      {q r : PcQueue A} {a : A} → IsValid q → pcq_dequeue q ≡ some (a, r) → q.pcq_tail < slots q
  unfolding pcq_dequeue
  dequeue_in_range {q} v e = ground arith
