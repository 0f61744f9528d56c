-- ===== src/Queue/ThreadRuns.antt =====
-- Runs of many threads on the queue of producer-consumer/producer-consumer.c.
use project_so.Prelude.{◌∷◌}
use project_so.Prelude.{[]}
use project_so.Prelude.{ℕ, ◌≡◌, refl, sym, ap, subst, ◌∙◌, true, false, some, List}
use mathlib.Core.Option
use project_so.Queue.Defs.{PcQueue, pcq_enqueue, pcq_dequeue}
use project_so.Queue.Fifo.{
  IsValid, contents, push, pop, enqueue_refines, seen, dequeue_refines, capacity-enqueue,
  capacity-dequeue,
}
use project_so.Queue.Threads.{
  Side, pusher, popper, working, has_lock, Threads, must_wait, calls, waits, wakes, goes_on, pushes,
  pops, Run, ends, step_then,
}
use project_so.Queue.Exclusion.{
  Exclusive, one_holder, Step-Exclusive, Run-Exclusive, Idle, Idle-Exclusive,
}

-- What a run does to the queue: an element that a step of pcq_enqueue puts in, or that a step of
-- pcq_dequeue takes out. The other steps leave the queue alone.
pub data Event (A : Type 0) : Type 0 where
  pushed popped : A → Event A

module _ {A : Type 0} where
  enqueue_room :
      (q : PcQueue A) (a : A)
      → must_wait q pusher ≡ false
      → (r : PcQueue A) × (pcq_enqueue q a ≡ some r)
  unfolding pcq_enqueue
  enqueue_room q a go = rw go (_, refl)

  dequeue_some :
      (q : PcQueue A)
      → must_wait q popper ≡ false
      → (a : A) × (r : PcQueue A) × (pcq_dequeue q ≡ some (a, r))
  unfolding pcq_dequeue
  dequeue_some q go = rw go (_, _, refl)

  -- What holds in between: the queue is valid, a lock has one holder, and a thread that is past its
  -- loop finds room for its element, or an element.
  abbrev pub Safe : Threads A → Type 0
  Safe t =
      IsValid t.queue
      × ((side : Side) (i j : ℕ)
          → has_lock (t.position side i) ≡ true
          → has_lock (t.position side j) ≡ true
          → i ≡ j)
      × ((i : ℕ) (a : A)
          → t.position pusher i ≡ working
          → (q : PcQueue A) × (pcq_enqueue t.queue a ≡ some q))
      × ((i : ℕ)
          → t.position popper i ≡ working
          → (a : A) × (q : PcQueue A) × (pcq_dequeue t.queue ≡ some (a, q)))

  -- From a valid queue that no thread uses, threads that call pcq_enqueue and pcq_dequeue in any order,
  -- with any wake-ups of those that wait, only reach states with a valid queue, in which two threads
  -- of a side do not have its lock at once, and in which a thread that has passed its loop finds room for
  -- its element, or an element to take.
  pub Run-Safe : (s t : Threads A) → IsValid s.queue → Idle s → Run s t → Safe t
  Run-Safe s t valid idle run =
      let inv = Run-Exclusive (Idle-Exclusive s valid idle) run in
      (
        inv.valid,
        (λ side i j a b. one_holder t side i j inv a b),
        (λ i a e. enqueue_room t.queue a (inv.may_work pusher i (rw e))),
        (λ i e. dequeue_some t.queue (inv.may_work popper i (rw e))),
      )

  abbrev pub events : {s t : Threads A} → Run s t → List (Event A)
  events ends = []
  events (step_then (calls side i e o) run) = events run
  events (step_then (waits side i e m) run) = events run
  events (step_then (wakes side i e o) run) = events run
  events (step_then (goes_on side i e m) run) = events run
  events (step_then (pushes i a q e done_push) run) = pushed a ∷ events run
  events (step_then (pops i a q e done_pop) run) = popped a ∷ events run

  -- The events, done one after the other on a list of at most `capacity` elements, the oldest first,
  -- all have room or an element, take the elements they name, and lead from `xs` to `ys`.
  abbrev pub Replays : ℕ → List A → List (Event A) → List A → Type 0
  Replays capacity xs [] ys = xs ≡ ys
  Replays capacity xs (pushed a ∷ es) ys =
      (zs : List A) × (push capacity xs a ≡ some zs) × Replays capacity zs es ys
  Replays capacity xs (popped a ∷ es) ys =
      (zs : List A) × (pop xs ≡ some (a, zs)) × Replays capacity zs es ys

  Run-Replays :
      (capacity : ℕ) {s t : Threads A}
      → s.queue.pcq_capacity ≡ capacity
      → Exclusive s
      → (run : Run s t) → Replays capacity (contents s.queue) (events run) (contents t.queue)
  Run-Replays capacity same inv ends = refl
  Run-Replays capacity same inv (step_then (calls side i e o) run) =
      Run-Replays capacity same (Step-Exclusive inv (calls side i e o)) run
  Run-Replays capacity same inv (step_then (waits side i e m) run) =
      Run-Replays capacity same (Step-Exclusive inv (waits side i e m)) run
  Run-Replays capacity same inv (step_then (wakes side i e o) run) =
      Run-Replays capacity same (Step-Exclusive inv (wakes side i e o)) run
  Run-Replays capacity same inv (step_then (goes_on side i e m) run) =
      Run-Replays capacity same (Step-Exclusive inv (goes_on side i e m)) run
  Run-Replays capacity {s = s} same inv (step_then (pushes i a q e done_push) run) = (
    contents q,
    subst (λ k. push k (contents s.queue) a ≡ some (contents q)) same
        (sym (enqueue_refines a inv.valid) ∙ ap (Option.map contents) done_push),
    Run-Replays capacity (capacity-enqueue s.queue a done_push ∙ same)
        (Step-Exclusive inv (pushes i a q e done_push)) run,
  )
  Run-Replays capacity {s = s} same inv (step_then (pops i a q e done_pop) run) = (
    contents q,
    sym (dequeue_refines inv.valid) ∙ ap (Option.map seen) done_pop,
    Run-Replays capacity (capacity-dequeue s.queue done_pop ∙ same)
        (Step-Exclusive inv (pops i a q e done_pop)) run,
  )

  -- From a valid queue that no thread uses, the elements that the steps of a run of threads put into and
  -- take out of the queue, in the order of the steps, are those that a list of at most the queue's
  -- capacity takes at its end and gives from its front: no push is without room, each pop gives the
  -- element that the run took, and the list ends as the queue's elements.
  pub threads_refine :
      (s t : Threads A)
      → IsValid s.queue
      → Idle s
      → (run : Run s t)
      → Replays s.queue.pcq_capacity (contents s.queue) (events run) (contents t.queue)
  threads_refine s t valid idle run =
      Run-Replays s.queue.pcq_capacity refl (Idle-Exclusive s valid idle) run
