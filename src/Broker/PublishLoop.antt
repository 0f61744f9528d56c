-- ===== src/Broker/PublishLoop.antt =====
-- The loop of process_pub of mbroker/mbroker.c, and what follows it.

use project_so.Broker.PublishWrites.{
  GoodRead, write_keeps, TableOk-with_ints, Publishing, sized, Publishing-sized, Stopped,
  after_write, publish_received, add_size_of-sized,
}
use project_so.Broker.CreateBox.{then_done, lift_done}
use project_so.Fs.Files.{tfs_close}
use project_so.Fs.Invariant.Closing.{tfs_close_open, is_open}
use project_so.Fs.Invariant.Blocks.{without_handle, IsWf-without_handle}
use project_so.Broker.Ready.{Ready}
use project_so.Prelude.{
  ℕ, suc, ◌≡◌, refl, sym, subst, inl, inr, Bool, true, false, Option, none, some, List, [], ◌∷◌,
  Bool-cases, length, All, ◌<◌, ltb, arith,
}
use project_so.Memory.Arrays.{string_of}
use project_so.Broker.Types.{Broker, done, M, pure, choose, lift, ◌>>=◌}
use project_so.Fs.Types.{success, free}
use project_so.Wire.Pipeflow.{max_message}
use project_so.Broker.Manager.{set_worker_box}
use project_so.Broker.Answer.{Returns, Returns-then}
use project_so.Broker.Publish.{Read, received, failed_read, Source, publish, publish_session}
use project_so.Fs.Invariant.Inodes.{update_self}

after_write-Stopped :
    (worker fd i : ℕ) (ended : ℕ → Bool) (k : ℕ) (reads : List Read) (message : List ℕ)
    (n : Option ℕ) (b : Broker)
    → length message < max_message
    → Publishing worker fd i (suc (length reads)) b
    → ((c : Broker)
        → Publishing worker fd i (length reads) c
        → Returns (Stopped worker fd i ended) (publish worker fd ended (suc k) reads c))
    → Returns (Stopped worker fd i ended) (after_write worker fd ended k reads message n b)
after_write-Stopped worker fd i ended k reads message none b short
      (table, holds, free_lock, same, lt, room) rest =
    (table, holds, free_lock, same, lt, λ never. refl)
after_write-Stopped worker fd i ended k reads message (some n) b short
      (table, holds, free_lock, same, lt, room) rest =
    subst (Returns (Stopped worker fd i ended))
      (sym (
        add_size_of-sized b worker i message (publish worker fd ended (suc k) reads) same lt
          (omega (arith, room, short))))
      (rest (sized b i message) (
        Publishing-sized worker fd i (length reads) message b short
          (table, holds, free_lock, same, lt, room)))

publish_stopped :
    (worker fd : ℕ) (ended : ℕ → Bool) (k : ℕ) (reads : List Read) (b : Broker)
    → ended k ≡ true
    → publish worker fd ended k reads b ≡ done false b
unfolding publish
publish_stopped worker fd ended k [] b stop = rw (publish, stop)
publish_stopped worker fd ended k (failed_read ∷ reads) b stop = rw (publish, stop)
publish_stopped worker fd ended k (received m ∷ reads) b stop = rw (publish, stop)

stop_early :
    (worker fd i left : ℕ) (ended : ℕ → Bool) (k : ℕ) (reads : List Read) (b : Broker)
    → ended k ≡ true
    → Publishing worker fd i left b
    → Returns (Stopped worker fd i ended) (publish worker fd ended k reads b)
stop_early worker fd i left ended k reads b stop (table, holds, free_lock, same, lt, room) =
    subst (Returns (Stopped worker fd i ended))
      (sym (publish_stopped worker fd ended k reads b stop))
      (table, holds, free_lock, same, lt, λ never. absurd (ground (arith, stop, never k)))

publish_closed :
    (worker fd : ℕ) (ended : ℕ → Bool) (k : ℕ) (b : Broker)
    → ended k ≡ false
    → publish worker fd ended k [] b ≡ done true b
unfolding publish
publish_closed worker fd ended k b go = rw (publish, go)

publish_failed :
    (worker fd : ℕ) (ended : ℕ → Bool) (k : ℕ) (reads : List Read) (b : Broker)
    → ended k ≡ false
    → publish worker fd ended k (failed_read ∷ reads) b ≡ publish worker fd ended (suc k) reads b
unfolding publish
publish_failed worker fd ended k reads b go = rw (publish, go)

publish-Stopped :
    (worker fd i : ℕ) (ended : ℕ → Bool) (k : ℕ) (reads : List Read) (b : Broker)
    → Publishing worker fd i (length reads) b
    → All GoodRead reads
    → Returns (Stopped worker fd i ended) (publish worker fd ended k reads b)
publish-Stopped worker fd i ended k [] b (table, holds, free_lock, same, lt, room) good =
    elim (Bool-cases (ended k)) [
      | inl stop ↦
          stop_early worker fd i 0 ended k [] b stop (table, holds, free_lock, same, lt, room)
      | inr go ↦
          subst (Returns (Stopped worker fd i ended)) (sym (publish_closed worker fd ended k b go))
            (table, holds, free_lock, same, lt, λ never. refl)
    ]
publish-Stopped worker fd i ended k (failed_read ∷ reads) b
      (table, holds, free_lock, same, lt, room) (one, good) =
    elim (Bool-cases (ended k)) [
      | inl stop ↦
          stop_early worker fd i (suc (length reads)) ended k (failed_read ∷ reads) b stop
            (table, holds, free_lock, same, lt, room)
      | inr go ↦
          subst (Returns (Stopped worker fd i ended))
            (sym (publish_failed worker fd ended k reads b go))
            (publish-Stopped worker fd i ended (suc k) reads b
              (table, holds, free_lock, same, lt, omega (arith, room)) good)
    ]
publish-Stopped worker fd i ended k (received m ∷ reads) b (table, holds, free_lock, same, lt, room)
      ((r, e, array), good) =
    let (n, t, w, holds') = write_keeps b.fs fd (string_of r.message) holds array.terminated in
    elim (Bool-cases (ended k)) [
      | inl stop ↦
          stop_early worker fd i (suc (length reads)) ended k (received m ∷ reads) b stop
            (table, holds, free_lock, same, lt, room)
      | inr go ↦
          subst (Returns (Stopped worker fd i ended))
            (sym (publish_received b worker fd ended k reads m r n t go e array w))
            (after_write-Stopped worker fd i ended k reads (string_of r.message) n
              (record b { fs = t }) array.terminated (table, holds', free_lock, same, lt, room)
              (λ c going. publish-Stopped worker fd i ended (suc k) reads c going good))
    ]

-- What follows the loop.
abbrev finish : ℕ → Bool → M (Unit {0})
finish worker broke = choose broke (set_worker_box worker (λ x. record x { n_pub = 0 })) (pure tt)

-- The session has ended: its handle is closed and, if `status` never becomes END, its box is free for
-- another publisher.
abbrev pub SessionDone : ℕ → ℕ → (ℕ → Bool) → Unit {0} → Broker → Type 0
SessionDone fd i ended u d =
    Ready d
    × (is_open d.fs fd ≡ false)
    × (((k : ℕ) → ended k ≡ false) → (d.server_boxes i).n_pub ≡ 0)

finish-SessionDone :
    (b : Broker) (worker fd i : ℕ) (ended : ℕ → Bool) (broke : Bool)
    → Ready b
    → is_open b.fs fd ≡ false
    → b.thread_pool worker ≡ i
    → i < b.size_boxes
    → (((k : ℕ) → ended k ≡ false) → broke ≡ true)
    → Returns (SessionDone fd i ended) (finish worker broke b)
unfolding set_worker_box
finish-SessionDone b worker fd i ended false ready shut same lt breaks =
    (ready, shut, λ never. absurd (ground (arith, breaks never)))
finish-SessionDone b worker fd i ended true (table, w, free_lock) shut same lt breaks =
    let inside : ltb i b.size_boxes ≡ true = ground arith in
    let x = record (b.server_boxes i) { n_pub = 0 } in
    let self = update_self b.server_boxes i x in
    rw (same, inside)
      (
        (TableOk-with_ints b i 0 (b.server_boxes i).box_size table, w, free_lock),
        shut,
        (λ never. rw self),
      )

session_end :
    (b : Broker) (worker fd i : ℕ) (ended : ℕ → Bool) (broke : Bool)
    → Stopped worker fd i ended broke b
    → Returns (SessionDone fd i ended) (◌>>=◌ (lift (tfs_close fd)) (λ rc. finish worker broke) b)
session_end b worker fd i ended broke (table, (w, opened, inside), free_lock, same, lt, breaks) =
    let t = without_handle b.fs fd in
    let unused = update_self b.fs.free_open_file_entries fd free in
    let shut : is_open t fd ≡ false = ground (arith, unused) in
    subst (Returns (SessionDone fd i ended))
      (sym (
        then_done (lift (tfs_close fd)) (λ rc. finish worker broke) b (record b { fs = t }) success
          (lift_done (tfs_close fd) b success t (tfs_close_open b.fs fd opened))))
      (finish-SessionDone (record b { fs = t }) worker fd i ended broke
        (table, IsWf-without_handle b.fs fd w, free_lock) shut same lt breaks)

-- With a well-formed table that is not locked, a well-formed file system, a handle that is open at an
-- offset of at most the block size, the worker's index `i` in the table, reads that fail or bring
-- messages whose strings end in their arrays, and a size of the worker's box below 2^31 by 1024 for each
-- read, the rest of process_pub after tfs_open ends, whenever `status` becomes END, and leaves a
-- well-formed table that is not locked and a well-formed file system in which the handle is closed. If
-- `status` never becomes END, the box has no publisher then.
pub publish_session-Ready :
    (b : Broker) (worker fd i : ℕ) (source : Source)
    → Publishing worker fd i (length source.reads) b
    → All GoodRead source.reads
    → Returns (SessionDone fd i source.ended) (publish_session worker source (some fd) b)
unfolding publish_session
publish_session-Ready b worker fd i source going good =
    Returns-then {P = Stopped worker fd i source.ended} (SessionDone fd i source.ended)
      (publish worker fd source.ended 0 source.reads b)
      (λ broke. ◌>>=◌ (lift (tfs_close fd)) (λ rc. finish worker broke)) b
      (publish-Stopped worker fd i source.ended 0 source.reads b going good)
      (λ broke c h. session_end c worker fd i source.ended broke h)
