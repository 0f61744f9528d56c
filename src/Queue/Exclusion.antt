-- ===== src/Queue/Exclusion.antt =====
-- Threads that push to and pop from the queue of producer-consumer/producer-consumer.c in any order.
use project_so.Prelude.{
  ℕ, ◌≡◌, refl, sym, ap, subst, ◌∙◌, inl, inr, true, false, ◌&&◌, none, some, arith, ◌==◌,
  Bool-cases,
}
use project_so.Queue.Defs.{PcQueue, pcq_enqueue, pcq_dequeue}
use project_so.Queue.Fifo.{IsValid, enqueue-IsValid, dequeue-IsValid}
use project_so.Queue.Threads.{
  Side, pusher, popper, same_side, Position, outside, testing, waiting, working, has_lock,
  is_working, Threads, must_wait, set_position, entered, left, Step, calls, waits, wakes, goes_on,
  pushes, pops, Run, ends, step_then,
}

works_with_lock : (p : Position) → is_working p ≡ true → has_lock p ≡ true
works_with_lock working e = refl
works_with_lock outside e = cc
works_with_lock testing e = cc
works_with_lock waiting e = cc

same_side-eq : (x y : Side) → same_side x y ≡ true → x ≡ y
same_side-eq pusher pusher e = refl
same_side-eq pusher popper e = cc
same_side-eq popper pusher e = cc
same_side-eq popper popper e = refl

module _ {A : Type 0} where
  -- Who has a lock is its holder, and who works does not have to wait.
  pub record Exclusive (s : Threads A) : Type 0 where
    pub valid : IsValid s.queue
    pub held : (side : Side) (i : ℕ) → has_lock (s.position side i) ≡ true → s.lock side ≡ some i
    pub may_work :
        (side : Side) (i : ℕ)
        → is_working (s.position side i) ≡ true
        → must_wait s.queue side ≡ false

  -- Two threads of a side do not have the lock at once.
  pub one_holder :
      (s : Threads A) (side : Side) (i j : ℕ)
      → Exclusive s
      → has_lock (s.position side i) ≡ true
      → has_lock (s.position side j) ≡ true
      → i ≡ j
  one_holder s side i j inv a b =
      let x = inv.held side i a in let y = inv.held side j b in ground (arith, x, y)

  entered-Exclusive :
      (s : Threads A) (side : Side) (i : ℕ)
      → Exclusive s
      → s.lock side ≡ none
      → Exclusive (entered s side i)
  entered-Exclusive s side i inv open_lock = record {
    valid = inv.valid;
    held = λ side' j h. elim (Bool-cases (same_side side side' && (i == j))) [
      | inl both ↦
          let same : same_side side side' ≡ true = ground (arith, both) in
          let here : i ≡ j = ground (arith, both) in rw (same, here)
      | inr differ ↦
          let x = inv.held side' j (rw differ at h) in
          elim (Bool-cases (same_side side side')) [
            | inr other ↦ rw other x
            | inl same ↦
                let e = ap s.lock (same_side-eq side side' same) in
                absurd (ground (arith, x, open_lock, e))
          ]
    ];
    may_work = λ side' j h. elim (Bool-cases (same_side side side' && (i == j))) [
      | inl both ↦ absurd (ground (arith, rw both at h))
      | inr differ ↦ inv.may_work side' j (rw differ at h)
    ];
  }

  -- A thread that gives its lock back, with a queue for which all others may go on.
  left-Exclusive :
      (s : Threads A) (side : Side) (i : ℕ) (p : Position) (q : PcQueue A)
      → Exclusive s
      → has_lock (s.position side i) ≡ true
      → has_lock p ≡ false
      → IsValid q
      → ((side' : Side)
          → same_side side side' ≡ false
          → must_wait s.queue side' ≡ false
          → must_wait q side' ≡ false)
      → Exclusive (left s side i p q)
  left-Exclusive s side i p q inv holds gives_back valid others = record {
    valid = valid;
    held = λ side' j h. elim (Bool-cases (same_side side side' && (i == j))) [
      | inl both ↦ absurd (ground (arith, rw both at h, gives_back))
      | inr differ ↦
          let h' = rw differ at h in
          let x = inv.held side' j h' in
          elim (Bool-cases (same_side side side')) [
            | inr other ↦ rw other x
            | inl same ↦
                let e = ap s.lock (same_side-eq side side' same) in
                let y = inv.held side i holds in absurd (ground (arith, x, y, e, differ))
          ]
    ];
    may_work = λ side' j h. elim (Bool-cases (same_side side side' && (i == j))) [
      | inl both ↦ absurd (ground (arith, works_with_lock p (rw both at h), gives_back))
      | inr differ ↦
          let h' = rw differ at h in
          let x = inv.held side' j (works_with_lock (s.position side' j) h') in
          elim (Bool-cases (same_side side side')) [
            | inr other ↦ others side' other (inv.may_work side' j h')
            | inl same ↦
                let e = ap s.lock (same_side-eq side side' same) in
                let y = inv.held side i holds in absurd (ground (arith, x, y, e, differ))
          ]
    ];
  }

  went_on-Exclusive :
      (s : Threads A) (side : Side) (i : ℕ)
      → Exclusive s
      → s.position side i ≡ testing
      → must_wait s.queue side ≡ false
      → Exclusive (record s { position = set_position s.position side i working })
  went_on-Exclusive s side i inv e go = record {
    valid = inv.valid;
    held = λ side' j h. elim (Bool-cases (same_side side side' && (i == j))) [
      | inl both ↦
          let same : same_side side side' ≡ true = ground (arith, both) in
          let here : i ≡ j = ground (arith, both) in
          let x = inv.held side i (rw e) in
          sym (ap s.lock (same_side-eq side side' same)) ∙ x ∙ ap some here
      | inr differ ↦ inv.held side' j (rw differ at h)
    ];
    may_work = λ side' j h. elim (Bool-cases (same_side side side' && (i == j))) [
      | inl both ↦
          let same : same_side side side' ≡ true = ground (arith, both) in
          subst (λ x. must_wait s.queue x ≡ false) (same_side-eq side side' same) go
      | inr differ ↦ inv.may_work side' j (rw differ at h)
    ];
  }

  enqueue-filled :
      (q : PcQueue A) {r : PcQueue A} (a : A)
      → pcq_enqueue q a ≡ some r
      → must_wait r popper ≡ false
  unfolding pcq_enqueue
  enqueue-filled q a e = ground arith

  dequeue-room :
      (q : PcQueue A) {r : PcQueue A} {a : A}
      → IsValid q
      → pcq_dequeue q ≡ some (a, r)
      → must_wait r pusher ≡ false
  unfolding pcq_dequeue
  dequeue-room q v e = let le = v.bounded in ground arith

  pub Step-Exclusive : {s t : Threads A} → Exclusive s → Step s t → Exclusive t
  Step-Exclusive {s = s} inv (calls side i e open_lock) = entered-Exclusive s side i inv open_lock
  Step-Exclusive {s = s} inv (waits side i e full) =
      left-Exclusive s side i waiting s.queue inv (rw e) refl inv.valid (λ side' other x. x)
  Step-Exclusive {s = s} inv (wakes side i e open_lock) = entered-Exclusive s side i inv open_lock
  Step-Exclusive {s = s} inv (goes_on side i e go) = went_on-Exclusive s side i inv e go
  Step-Exclusive {s = s} inv (pushes i a q e done_push) =
      left-Exclusive s pusher i outside q inv (rw e) refl (enqueue-IsValid a inv.valid done_push)
        (λ side' other x. after_push side' other)
    where
      after_push : (side' : Side) → same_side pusher side' ≡ false → must_wait q side' ≡ false
      after_push pusher other = cc
      after_push popper other = enqueue-filled s.queue a done_push
  Step-Exclusive {s = s} inv (pops i a q e done_pop) =
      left-Exclusive s popper i outside q inv (rw e) refl (dequeue-IsValid inv.valid done_pop)
        (λ side' other x. after_pop side' other)
    where
      after_pop : (side' : Side) → same_side popper side' ≡ false → must_wait q side' ≡ false
      after_pop popper other = cc
      after_pop pusher other = dequeue-room s.queue inv.valid done_pop

  pub Run-Exclusive : {s t : Threads A} → Exclusive s → Run s t → Exclusive t
  Run-Exclusive inv ends = inv
  Run-Exclusive inv (step_then step run) = Run-Exclusive (Step-Exclusive inv step) run

  -- Nobody is in a call.
  abbrev pub Idle : Threads A → Type 0
  Idle s = (side : Side) (i : ℕ) → s.position side i ≡ outside

  pub Idle-Exclusive : (s : Threads A) → IsValid s.queue → Idle s → Exclusive s
  Idle-Exclusive s valid idle = record {
    valid = valid;
    held = λ side i h. let e = idle side i in absurd (ground (arith, e, h));
    may_work = λ side i h. let e = idle side i in absurd (ground (arith, e, h));
  }
