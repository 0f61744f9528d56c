-- ===== src/Queue/Threads.antt =====
-- The calls of producer-consumer/producer-consumer.c by many threads, as steps. The work under
-- pcq_current_size_lock is one step, and so is a test of the size.
use project_so.Prelude.{ℕ, ◌≡◌, Bool, true, false, ◌&&◌, Option, none, some, ◌==◌, if◌then◌else◌}
use project_so.Queue.Defs.{PcQueue, pcq_enqueue, pcq_dequeue}

-- pcq_enqueue with the pusher's lock and condition variable, and pcq_dequeue with the popper's.
pub data Side : Type 0 where
  pusher popper : Side

abbrev pub same_side : Side → Side → Bool
same_side pusher pusher = true
same_side pusher popper = false
same_side popper pusher = false
same_side popper popper = true

-- Outside of the call, at the test of the while loop, in my_cond_wait, and behind the loop.
pub data Position : Type 0 where
  outside testing waiting working : Position

-- The thread has the lock of its side.
abbrev pub has_lock : Position → Bool
has_lock outside = false
has_lock testing = true
has_lock waiting = false
has_lock working = true

abbrev pub is_working : Position → Bool
is_working outside = false
is_working testing = false
is_working waiting = false
is_working working = true

-- Threads are numbers, on each side.
pub record Threads (A : Type 0) : Type 0 where
  pub queue : PcQueue A
  pub lock : Side → Option ℕ
  pub position : Side → ℕ → Position

abbrev pub set_position : (Side → ℕ → Position) → Side → ℕ → Position → Side → ℕ → Position
set_position position side i p side' j =
    if same_side side side' && (i == j) then p else position side' j

abbrev pub set_lock : (Side → Option ℕ) → Side → Option ℕ → Side → Option ℕ
set_lock lock side o side' = if same_side side side' then o else lock side'

module _ {A : Type 0} where
  -- The condition of the while loop.
  abbrev pub must_wait : PcQueue A → Side → Bool
  must_wait q pusher = q.pcq_current_size == q.pcq_capacity
  must_wait q popper = q.pcq_current_size == 0

  -- The lock is taken, and the test comes next.
  abbrev pub entered : Threads A → Side → ℕ → Threads A
  entered s side i = record s {
    lock = set_lock s.lock side (some i);
    position = set_position s.position side i testing;
  }

  -- The lock is given back.
  abbrev pub left : Threads A → Side → ℕ → Position → PcQueue A → Threads A
  left s side i p q = record s {
    queue = q;
    lock = set_lock s.lock side none;
    position = set_position s.position side i p;
  }

  pub data Step : Threads A → Threads A → Type 0 where
    calls :
        {s : Threads A} (side : Side) (i : ℕ)
        → s.position side i ≡ outside
        → s.lock side ≡ none
        → Step s (entered s side i)
    waits :
        {s : Threads A} (side : Side) (i : ℕ)
        → s.position side i ≡ testing
        → must_wait s.queue side ≡ true
        → Step s (left s side i waiting s.queue)
    wakes :
        {s : Threads A} (side : Side) (i : ℕ)
        → s.position side i ≡ waiting
        → s.lock side ≡ none
        → Step s (entered s side i)
    goes_on :
        {s : Threads A} (side : Side) (i : ℕ)
        → s.position side i ≡ testing
        → must_wait s.queue side ≡ false
        → Step s (record s { position = set_position s.position side i working })
    pushes :
        {s : Threads A} (i : ℕ) (a : A) (q : PcQueue A)
        → s.position pusher i ≡ working
        → pcq_enqueue s.queue a ≡ some q
        → Step s (left s pusher i outside q)
    pops :
        {s : Threads A} (i : ℕ) (a : A) (q : PcQueue A)
        → s.position popper i ≡ working
        → pcq_dequeue s.queue ≡ some (a, q)
        → Step s (left s popper i outside q)

  pub data Run : Threads A → Threads A → Type 0 where
    ends : {s : Threads A} → Run s s
    step_then : {s t u : Threads A} → Step s t → Run t u → Run s u
