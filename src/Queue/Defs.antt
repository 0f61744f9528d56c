-- ===== src/Queue/Defs.antt =====
-- producer-consumer/producer-consumer.c: the queue, and the work that `pcq_enqueue` and
-- `pcq_dequeue` do under `pcq_current_size_lock`. `none` is a call that has to wait.
use project_so.Prelude.{ℕ, zero, suc, ◌+◌, ◌-◌, ◌*◌, Option, none, some, ◌==◌, if◌then◌else◌}

-- The pointers of the buffer are the elements. It has room for `2 * pcq_capacity` of them:
-- `sizeof(task) * capacity` bytes are allocated, and a task is two pointers.
pub record PcQueue {ℓ} (A : Type ℓ) : Type ℓ where
  pub pcq_buffer : ℕ → A
  pub pcq_capacity : ℕ
  pub pcq_current_size : ℕ
  pub pcq_head : ℕ
  pub pcq_tail : ℕ

module _ {ℓ} {A : Type ℓ} where
  abbrev pub slots : PcQueue A → ℕ
  slots q = 2 * q.pcq_capacity

  -- The fields that the call does not write keep what the caller's memory holds.
  unfoldable pub pcq_create : (ℕ → A) → PcQueue A → ℕ → PcQueue A
  pcq_create allocated q capacity = record q { pcq_capacity = capacity; pcq_buffer = allocated }

  abbrev pub write_slot : (ℕ → A) → ℕ → A → ℕ → A
  write_slot buf i a j = if i == j then a else buf j

  -- `buffer[i] = buffer[i - 1]` for `i` from `head + rounds` down to `head + 1`.
  unfoldable pub shift : (ℕ → A) → ℕ → ℕ → ℕ → A
  shift buf head zero = buf
  shift buf head (suc rounds) =
      shift (write_slot buf (head + suc rounds) (buf (head + suc rounds - 1))) head rounds

  unfoldable pub pcq_enqueue : PcQueue A → A → Option (PcQueue A)
  pcq_enqueue q elem =
      if q.pcq_current_size == q.pcq_capacity
      then none
      else some (record q {
        pcq_buffer =
            write_slot
              (if q.pcq_current_size == 0
                then q.pcq_buffer
                else shift q.pcq_buffer q.pcq_head (q.pcq_tail + 1 - q.pcq_head))
              q.pcq_head elem;
        pcq_tail = if q.pcq_current_size == 0 then q.pcq_tail else q.pcq_tail + 1;
        pcq_current_size = q.pcq_current_size + 1;
      })

  unfoldable pub pcq_dequeue : PcQueue A → Option (A × PcQueue A)
  pcq_dequeue q =
      if q.pcq_current_size == 0
      then none
      else some (
        q.pcq_buffer q.pcq_tail,
        record q {
          pcq_tail = if q.pcq_tail == q.pcq_head then q.pcq_tail else q.pcq_tail - 1;
          pcq_current_size = q.pcq_current_size - 1;
        },
      )
