-- ===== src/Queue/Runs.antt =====
-- Sequences of calls of producer-consumer/producer-consumer.c, against the same calls on a bounded
-- list. A call that has to wait returns nothing and changes nothing.
use project_so.Prelude.{
  ℕ, arith, ◌≡◌, refl, sym, ap, ◌∙◌, inl, inr, Option, none, some, List, [], ◌∷◌, Option-cases,
}
use mathlib.Core.Option
use project_so.Queue.Defs.{PcQueue, pcq_create, pcq_enqueue, pcq_dequeue}
use project_so.Queue.Fifo.{
  IsValid, contents, push, pop, enqueue_refines, enqueue-IsValid, seen, dequeue_refines,
  dequeue-IsValid, capacity-enqueue, capacity-dequeue,
}

pub data Call (A : Type 0) : Type 0 where
  enqueue : A → Call A
  dequeue : Call A

abbrev pub after_enqueue : {S : Type 0} → S → Option S → S
after_enqueue s none = s
after_enqueue s (some s') = s'

abbrev pub after_dequeue : {A S : Type 0} → S → Option (A × S) → Option A × S
after_dequeue s none = (none, s)
after_dequeue s (some (a, s')) = (some a, s')

module _ {A : Type 0} where
  unfoldable pub run : PcQueue A → List (Call A) → List (Option A)
  run q [] = []
  run q (enqueue a ∷ cs) = run (after_enqueue q (pcq_enqueue q a)) cs
  run q (dequeue ∷ cs) = let (out, q') = after_dequeue q (pcq_dequeue q) in out ∷ run q' cs

  unfoldable pub run_list : ℕ → List A → List (Call A) → List (Option A)
  run_list capacity xs [] = []
  run_list capacity xs (enqueue a ∷ cs) =
      run_list capacity (after_enqueue xs (push capacity xs a)) cs
  run_list capacity xs (dequeue ∷ cs) =
      let (out, xs') = after_dequeue xs (pop xs) in out ∷ run_list capacity xs' cs

  -- From a valid queue, what any sequence of calls returns is what the same calls return on a list of
  -- at most the queue's capacity that starts as the queue's elements.
  pub run_refines :
      (cs : List (Call A)) {q : PcQueue A}
      → IsValid q
      → run q cs ≡ run_list q.pcq_capacity (contents q) cs
  unfolding run run_list
  run_refines [] v = refl
  run_refines (enqueue a ∷ cs) {q} v = elim (Option-cases (pcq_enqueue q a)) [
    | inl e ↦
        let spec : push q.pcq_capacity (contents q) a ≡ none =
          sym (enqueue_refines a v) ∙ ap (Option.map contents) e in
        rw (e, spec) (run_refines cs v)
    | inr (r, e) ↦
        let spec : push q.pcq_capacity (contents q) a ≡ some (contents r) =
          sym (enqueue_refines a v) ∙ ap (Option.map contents) e in
        rw (e, spec)
          (run_refines cs (enqueue-IsValid a v e)
            ∙ ap (λ k. run_list k (contents r) cs) (capacity-enqueue q a e))
  ]
  run_refines (dequeue ∷ cs) {q} v = elim (Option-cases (pcq_dequeue q)) [
    | inl e ↦
        let spec : pop (contents q) ≡ none = sym (dequeue_refines v) ∙ ap (Option.map seen) e in
        rw (e, spec) (ap (◌∷◌ none) (run_refines cs v))
    | inr ((a, r), e) ↦
        let spec : pop (contents q) ≡ some (a, contents r) =
          sym (dequeue_refines v) ∙ ap (Option.map seen) e in
        rw (e, spec)
          (ap (◌∷◌ (some a)) (
            run_refines cs (dequeue-IsValid v e)
            ∙ ap (λ k. run_list k (contents r) cs) (capacity-dequeue q e)))
  ]

  -- If the fields for the size, the head and the tail were 0 before `pcq_create`, what any sequence
  -- of calls returns is what the same calls return on an empty list of at most the capacity.
  pub pcq_create-run :
      (allocated : ℕ → A) (q : PcQueue A) (capacity : ℕ) (cs : List (Call A))
      → q.pcq_current_size ≡ 0
      → q.pcq_head ≡ 0
      → q.pcq_tail ≡ 0
      → run (pcq_create allocated q capacity) cs ≡ run_list capacity [] cs
  unfolding pcq_create
  pcq_create-run allocated q capacity cs size head tail =
      let v : IsValid (pcq_create allocated q capacity) = record {
        bounded = omega (arith, size);
        empty_tail = λ _. tail ∙ sym head;
        full_tail = λ pos. absurd (omega (arith, size));
        room = omega (arith, head);
      } in
      let e : contents (pcq_create allocated q capacity) ≡ [] = rw size in
      run_refines cs v ∙ ap (λ xs. run_list capacity xs cs) e
