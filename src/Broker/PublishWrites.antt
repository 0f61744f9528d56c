-- ===== src/Broker/PublishWrites.antt =====
-- The writes of process_pub of mbroker/mbroker.c, over tfs_write of fs/operations.c.
use project_so.Fs.Monad as Fs
use project_so.Fs.Files.{tfs_write}
use project_so.Fs.Types.{TfsParams, AllocationState, FsState}
use project_so.Fs.Invariant.Defs.{IsWf}
use project_so.Fs.Invariant.Closing.{is_open}
use project_so.Fs.Invariant.WriteCall.{tfs_write-Written}
use project_so.Prelude.{
  ℕ, ◌+◌, ◌%◌, ◌^◌, ◌≤◌, ◌<◌, ◌≡◌, sym, ap, subst, inl, inr, true, false, Option, List, [], ◌∷◌,
  ◌++◌, arith, length, length-append, suc, ◌*◌, Bool, ◌∙◌, none, some, ltb,
}
use project_so.Memory.Arrays.{IsArray, string_of, is_terminated}
use project_so.Broker.Types.{Broker, M, pure, lift, ◌>>=◌, ◌>>◌}
use project_so.Wire.Pipeflow.{max_message, MessagesPipe, messages_pipe}
use project_so.Wire.Reader.{reader_stc}
use project_so.Broker.Table.{TableOk, with_box}
use project_so.Broker.Publish.{Read, received, failed_read, add_size_of, publish, int_overflow}
use project_so.Fs.Invariant.Inodes.{update_self}
use project_so.Broker.CreateBox.{then_done, lift_done}
use project_so.Memory.Bytes.{Memory}
use project_so.Broker.Manager.{set_worker_box}
use project_so.Fs.Invariant.Written.{Written}

-- The handle is open, at an offset in its block.
abbrev pub Holds : FsState → ℕ → Type 0
Holds s fd = IsWf s × (is_open s fd ≡ true) × ((s.open_file_table fd).of_offset ≤ s.block_size)

-- What is read is a message whose string ends in its array.
abbrev pub GoodRead : Read → Type 0
GoodRead (received m) =
    (r : MessagesPipe) × (reader_stc m ≡ messages_pipe r) × IsArray max_message r.message
GoodRead failed_read = Unit

pub write_keeps :
    (s : FsState) (fd : ℕ) (text : List ℕ)
    → Holds s fd
    → length text < max_message
    → (n : Option ℕ) × (t : FsState) × (tfs_write fd (text ++ 0 ∷ []) (length text + 1) s
        ≡ Fs.done n t)
      × Holds t fd
write_keeps s fd text (w, opened, inside) short =
    let bytes = text ++ 0 ∷ [] in
    let size : length bytes ≡ length text + 1 = length-append text (0 ∷ []) in
    let (n, t, e, (wt, written)) =
      Fs.Returns-done (λ r t. IsWf t × Written s fd bytes (length text + 1) r t)
        (tfs_write fd bytes (length text + 1) s)
        (tfs_write-Written s fd bytes (length text + 1) w (λ _. inside) (omega (arith, size))
          (omega arith)) in
    let (still_open, still_inside) = after n t written in (n, t, e, (wt, still_open, still_inside))
  where
    after :
        (n : Option ℕ) (t : FsState)
        → Written s fd (text ++ 0 ∷ []) (length text + 1) n t
        → (is_open t fd ≡ true) × ((t.open_file_table fd).of_offset ≤ t.block_size)
    after n t (inl (none_written, why, same)) =
        subst (λ x. (is_open x fd ≡ true) × ((x.open_file_table fd).of_offset ≤ x.block_size))
          (sym same) (opened, inside)
    after n t (inr (inl (still_open, some_written, zero_left, same))) =
        subst (λ x. (is_open x fd ≡ true) × ((x.open_file_table fd).of_offset ≤ x.block_size))
          (sym same) (opened, inside)
    after n t
          (inr (
            inr (
              still_open,
              some_written,
              pos,
              b,
              uses,
              (e, bytes, others, offset, grown, params, handles),
            ))) =
        let files = ap (λ (p : TfsParams). p.max_open_files_count) params in
        let blocks = ap (λ (p : TfsParams). p.block_size) params in
        let entry = ap (λ (f : ℕ → AllocationState). f fd) handles in
        (ground (arith, opened, files, entry), omega (arith, offset, blocks, inside))

-- A box whose ints change.
pub TableOk-with_ints :
    (b : Broker) (i p v : ℕ)
    → TableOk b
    → TableOk (with_box b i (record (b.server_boxes i) { n_pub = p; box_size = v }))
TableOk-with_ints b i p v ok = record {
  some_boxes = ok.some_boxes;
  names = λ k lt. ground (arith, ok.names k lt);
  passwords = λ k lt. ground (arith, ok.passwords k lt);
  unused = λ k lt z. ground (arith, ok.unused k lt);
  used = λ k lt nz. ground (arith, ok.used k lt);
  distinct = λ k l lt lt' nz same. ground (arith, ok.distinct k l lt lt');
}

-- A publisher's loop runs, with this handle and this box, whose size has room for so many messages.
abbrev pub Publishing : ℕ → ℕ → ℕ → ℕ → Broker → Type 0
Publishing worker fd i left b =
    TableOk b
    × Holds b.fs fd
    × (b.box_size_lock ≡ false)
    × (b.thread_pool worker ≡ i)
    × (i < b.size_boxes)
    × ((b.server_boxes i).box_size + left * max_message < 2 ^ 31)

-- The loop has ended, in a break if `status` never becomes END.
abbrev pub Stopped : ℕ → ℕ → ℕ → (ℕ → Bool) → Bool → Broker → Type 0
Stopped worker fd i ended broke c =
    TableOk c
    × Holds c.fs fd
    × (c.box_size_lock ≡ false)
    × (c.thread_pool worker ≡ i)
    × (i < c.size_boxes)
    × (((k : ℕ) → ended k ≡ false) → broke ≡ true)

abbrev pub sized : Broker → ℕ → List ℕ → Broker
sized b i message = with_box b i (record (b.server_boxes i) {
  box_size = ((b.server_boxes i).box_size + length message % 2 ^ 32) % 2 ^ 32;
})

pub Publishing-sized :
    (worker fd i left : ℕ) (message : List ℕ) (b : Broker)
    → length message < max_message
    → Publishing worker fd i (suc left) b
    → Publishing worker fd i left (sized b i message)
Publishing-sized worker fd i left message b short (table, holds, free_lock, same, lt, room) =
    let v = ((b.server_boxes i).box_size + length message % 2 ^ 32) % 2 ^ 32 in
    let self = update_self b.server_boxes i (record (b.server_boxes i) { box_size = v }) in
    (
      TableOk-with_ints b i (b.server_boxes i).n_pub v table,
      holds,
      free_lock,
      same,
      lt,
      rw self (omega (arith, room, short)),
    )

-- The loop after a message that was written, if it was.
abbrev pub after_write : ℕ → ℕ → (ℕ → Bool) → ℕ → List Read → List ℕ → Option ℕ → M Bool
after_write worker fd ended k reads message none = pure true
after_write worker fd ended k reads message (some n) =
    add_size_of worker message >> publish worker fd ended (suc k) reads

pub publish_received :
    (b : Broker) (worker fd : ℕ) (ended : ℕ → Bool) (k : ℕ) (reads : List Read) (m : Memory)
    (r : MessagesPipe) (n : Option ℕ) (t : FsState)
    → ended k ≡ false
    → reader_stc m ≡ messages_pipe r
    → IsArray max_message r.message
    → tfs_write fd (string_of r.message ++ 0 ∷ []) (length (string_of r.message) + 1) b.fs
      ≡ Fs.done n t
    → publish worker fd ended k (received m ∷ reads) b
      ≡ after_write worker fd ended k reads (string_of r.message) n (record b { fs = t })
unfolding publish
publish_received b worker fd ended k reads m r n t go e array w =
    let terminated : is_terminated r.message ≡ true =
      ground (arith, array.size, array.terminated) in
    let text = string_of r.message in
    let writing = lift (tfs_write fd (text ++ 0 ∷ []) (length text + 1)) in
    let step : publish worker fd ended k (received m ∷ reads) b
        ≡ ◌>>=◌ writing (after_write worker fd ended k reads text) b =
      rw (publish, go, e, terminated) in
    step
    ∙ then_done writing (after_write worker fd ended k reads text) b (record b { fs = t }) n
        (lift_done (tfs_write fd (text ++ 0 ∷ []) (length text + 1)) b n t w)

pub add_size_of-sized :
    (b : Broker) (worker i : ℕ) (message : List ℕ) (rest : M Bool)
    → b.thread_pool worker ≡ i
    → i < b.size_boxes
    → (b.server_boxes i).box_size + length message < 2 ^ 31
    → (add_size_of worker message >> rest) b ≡ rest (sized b i message)
unfolding add_size_of set_worker_box
add_size_of-sized b worker i message rest same lt room =
    let fits : int_overflow (b.server_boxes i).box_size (length message) ≡ false = ground arith in
    let inside : ltb i b.size_boxes ≡ true = ground arith in rw (same, fits, inside, ◌>>=◌)
