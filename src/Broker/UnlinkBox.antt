-- ===== src/Broker/UnlinkBox.antt =====
-- The second half of process_manager_remove (mbroker/mbroker.c): tfs_unlink and the answer.
use project_so.Prelude.{true}
use project_so.Fs.Monad as Fs
use project_so.Prelude.{
  ℕ, ◌≡◌, refl, sym, ap, subst, inl, inr, Bool, false, some, List, ◌∷◌, arith, length, ◌<◌, ltb,
}
use project_so.Memory.Bytes.{Memory}
use project_so.Memory.Arrays.{CharArray, string_of, is_terminated}
use project_so.Broker.Types.{Broker, pure, choose, ◌>>=◌, ◌>>◌, Pipe, unlock}
use project_so.Broker.Texts.{removal_failed}
use project_so.Fs.Types.{FsState, update, Status, success, failure}
use project_so.Fs.Operations.{tfs_unlink}
use project_so.Wire.Pipeflow.{max_message, Request, ResponseManager, response_manager}
use project_so.Wire.Dispatch.{IsMessage}
use project_so.Broker.Manager.{
  accepted, refused, send, emptied, removal_response, unlink_box, set_worker_box,
}
use project_so.Broker.Answer.{
  Returns, Returns-then, Answered, takes, choose-send-Answered, accepted-IsMessage,
  refused-IsMessage,
}
use project_so.Fs.Invariant.Defs.{IsWf}
use project_so.Fs.Invariant.Unlink.{IsPath, Unlinked, tfs_unlink-Unlinked}

Answered-unlocked :
    (c : Broker) (pipe_name : CharArray) (written : Bool) (response : ResponseManager) (d : Broker)
    → Answered c pipe_name written response d
    → Answered
        (record c { box_size_lock = false })
        pipe_name
        written
        response
        (record d { box_size_lock = false })
Answered-unlocked c pipe_name written response d (inl (n, e)) =
    inl (n, ap (λ (x : Broker). record x { box_size_lock = false }) e)
Answered-unlocked c pipe_name written response d (inr (y, m, e, back)) =
    inr (y, m, ap (λ (x : Broker). record x { box_size_lock = false }) e, back)

-- The response and the table after tfs_unlink.
abbrev pub response_to : CharArray → Status → ResponseManager
response_to stack success = accepted 6
response_to stack failure = refused 6 stack removal_failed

abbrev pub removed : Broker → ℕ → Status → FsState → Broker
removed b i success t = record b {
  fs = t;
  server_boxes = update b.server_boxes i (emptied (b.server_boxes i));
}
removed b i failure t = record b { fs = t }

response_to-IsMessage :
    (stack : CharArray) (rc : Status)
    → length stack ≡ max_message
    → IsMessage (response_manager (response_to stack rc))
unfolding string_of
response_to-IsMessage stack success size = accepted-IsMessage 6 refl
response_to-IsMessage stack failure size =
    refused-IsMessage 6 stack removal_failed refl size (omega arith)

-- The handler from tfs_unlink on.
abbrev pub UnlinkDone :
    Broker → ℕ → Pipe → CharArray → Request → List ℕ → Unit {0} → Broker → Type 0
UnlinkDone b i pipe stack r name u d =
    (rc : Status) × (t : FsState) × IsWf t
    × Unlinked b.fs name rc t
    × Answered (removed (record b { box_size_lock = false }) i rc t) r.pipe_name (takes pipe)
        (response_to stack rc) d

unlink_box-removed :
    (b : Broker) (worker : ℕ) (pipe : Pipe) (buffer : Memory) (stack : CharArray) (r : Request)
    (rc : Status) (t : FsState)
    → length (string_of r.box_name) < length r.box_name
    → b.thread_pool worker < b.size_boxes
    → tfs_unlink (some (string_of r.box_name)) b.fs ≡ Fs.done rc t
    → unlink_box worker pipe buffer stack r b
      ≡ (choose pipe.opens
              (send r.pipe_name (pipe.writes 0) buffer (response_to stack rc))
              (pure tt)
            >> unlock)
          (removed b (b.thread_pool worker) rc t)
unfolding unlink_box removal_response set_worker_box
unlink_box-removed b worker pipe buffer stack r success t ends lt e =
    let terminated : is_terminated r.box_name ≡ true = ground arith in
    let inside : ltb (b.thread_pool worker) b.size_boxes ≡ true = ground arith in
    rw (terminated, e, inside, ◌>>=◌)
unlink_box-removed b worker pipe buffer stack r failure t ends lt e =
    let terminated : is_terminated r.box_name ≡ true = ground arith in rw (terminated, e, ◌>>=◌)

removed-unlocked :
    (b : Broker) (i : ℕ) (rc : Status) (t : FsState)
    → record (removed b i rc t) { box_size_lock = false }
      ≡ removed (record b { box_size_lock = false }) i rc t
removed-unlocked b i success t = refl
removed-unlocked b i failure t = refl

pub unlink_box-UnlinkDone :
    (b : Broker) (worker : ℕ) (pipe : Pipe) (buffer : Memory) (stack : CharArray) (r : Request)
    (c : ℕ) (name : List ℕ)
    → IsWf b.fs
    → string_of r.box_name ≡ c ∷ name
    → IsPath (some (c ∷ name))
    → length stack ≡ max_message
    → length (string_of r.box_name) < length r.box_name
    → b.thread_pool worker < b.size_boxes
    → Returns
        (UnlinkDone b (b.thread_pool worker) pipe stack r name)
        (unlink_box worker pipe buffer stack r b)
unlink_box-UnlinkDone b worker pipe buffer stack r c name w e p size ends lt =
    let post = λ (rc : Status) (t : FsState). IsWf t × Unlinked b.fs name rc t in
    let (rc, t, q, (wt, u)) =
      Fs.Returns-done post (tfs_unlink (some (c ∷ name)) b.fs)
        (tfs_unlink-Unlinked b.fs c name w p) in
    let q' : tfs_unlink (some (string_of r.box_name)) b.fs ≡ Fs.done rc t = rw e q in
    let i = b.thread_pool worker in
    let done_box = removed b i rc t in
    let answer =
      choose pipe.opens (send r.pipe_name (pipe.writes 0) buffer (response_to stack rc))
        (pure tt) in
    subst (Returns (UnlinkDone b i pipe stack r name))
      (sym (unlink_box-removed b worker pipe buffer stack r rc t ends lt q'))
      (Returns-then {P = λ _. Answered done_box r.pipe_name (takes pipe) (response_to stack rc)}
        (UnlinkDone b i pipe stack r name) (answer done_box) (λ _. unlock) done_box
        (choose-send-Answered done_box r.pipe_name pipe buffer (response_to stack rc)
          (response_to-IsMessage stack rc size))
        (λ _ d h. (
          rc,
          t,
          wt,
          u,
          subst
              (λ x.
                Answered x r.pipe_name (takes pipe) (response_to stack rc)
                  (record d { box_size_lock = false }))
              (removed-unlocked b i rc t)
              (Answered-unlocked done_box r.pipe_name (takes pipe) (response_to stack rc) d h),
        )))
