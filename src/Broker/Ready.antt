-- ===== src/Broker/Ready.antt =====
-- The broker between two requests (mbroker/mbroker.c), with the handlers run one after the other.
use project_so.Prelude.{ℕ, ◌≡◌, refl, sym, subst, inl, inr, Bool, false, Option, none, some, List}
use project_so.Memory.Arrays.{CharArray, zeros}
use project_so.Broker.Types.{Box, Broker, Pipe}
use project_so.Broker.Texts.{removal_wrong_password, creation_failed}
use project_so.Fs.Types.{FsState, update, Status, success, failure}
use project_so.Wire.Pipeflow.{max_box_name, max_password, Request, ResponseManager}
use project_so.Broker.Manager.{refused, emptied}
use project_so.Broker.Answer.{locked, Answered, takes}
use project_so.Broker.Table.{TableOk, IsBoxRequest, TableOk-with_free}
use project_so.Fs.Invariant.Defs.{IsWf}
use project_so.Broker.ClaimSteps.{ReallocOk, Claimed-TableOk, created, response_about}
use project_so.Broker.Creation.{CreationDone}
use project_so.Broker.UnlinkBox.{removed, response_to, UnlinkDone}
use project_so.Broker.Removal.{RemovalDone}

-- The table and the file system are well-formed, and nobody holds the lock.
abbrev pub Ready : Broker → Type 0
Ready b = TableOk b × IsWf b.fs × (b.box_size_lock ≡ false)

pub Ready-Answered :
    (b : Broker) (pipe_name : CharArray) (written : Bool) (response : ResponseManager) (d : Broker)
    → Ready b
    → Answered b pipe_name written response d
    → Ready d
Ready-Answered b pipe_name written response d ready (inl (n, e)) = subst Ready (sym e) ready
Ready-Answered b pipe_name written response d ready (inr (y, m, e, back)) =
    subst Ready (sym e) ready

Ready-created :
    (c : Broker) (i : ℕ) (fd : Option ℕ) (t : FsState)
    → TableOk c
    → IsWf t
    → Ready (record (created c i fd t) { box_size_lock = false })
Ready-created c i (some h) t table w = (table, w, refl)
Ready-created c i none t table w = (
  TableOk-with_free c i
      (record (c.server_boxes i) {
        free = 0;
        box_name = zeros max_box_name;
        box_password = zeros max_password;
      })
      table refl refl refl,
  w,
  refl,
)

Ready-removed :
    (b : Broker) (i : ℕ) (rc : Status) (t : FsState)
    → TableOk b
    → IsWf t
    → Ready (removed (record b { box_size_lock = false }) i rc t)
Ready-removed b i failure t table w = (table, w, refl)
Ready-removed b i success t table w =
    (TableOk-with_free b i (emptied (b.server_boxes i)) table refl refl refl, w, refl)

Ready-UnlinkDone :
    (b : Broker) (i : ℕ) (pipe : Pipe) (stack : CharArray) (r : Request) (name : List ℕ)
    (d : Broker)
    → TableOk b
    → UnlinkDone b i pipe stack r name tt d
    → Ready d
Ready-UnlinkDone b i pipe stack r name d table (rc, t, w, unlinked, answered) =
    Ready-Answered (removed (record b { box_size_lock = false }) i rc t) r.pipe_name (takes pipe)
      (response_to stack rc) d (Ready-removed b i rc t table w) answered

pub Ready-RemovalDone :
    (b : Broker) (worker : ℕ) (pipe : Pipe) (stack : CharArray) (r : Request) (name : List ℕ)
    (d : Broker)
    → Ready b
    → RemovalDone b worker pipe stack r name tt d
    → Ready d
Ready-RemovalDone b worker pipe stack r name d ready (inl (i, e, wrong, answered)) =
    Ready-Answered b r.pipe_name (takes pipe) (refused 6 stack removal_wrong_password) d ready
      answered
Ready-RemovalDone b worker pipe stack r name d ready (inr (inl (i, e, right, h))) =
    Ready-UnlinkDone (record b { thread_pool = update b.thread_pool worker i }) i pipe stack r name
      d ready.0 h
Ready-RemovalDone b worker pipe stack r name d ready (inr (inr (absent, h))) =
    Ready-UnlinkDone b (b.thread_pool worker) pipe stack r name d ready.0 h

pub Ready-CreationDone :
    (b : Broker) (worker : ℕ) (realloc : Option (ℕ → Box)) (pipe : Pipe) (stack : CharArray)
    (r : Request) (name : List ℕ) (d : Broker)
    → Ready b
    → ReallocOk (locked b) realloc
    → IsBoxRequest r
    → CreationDone b worker realloc pipe stack r name tt d
    → Ready d
Ready-CreationDone b worker realloc pipe stack r name d ready memory req (inl (i, e, answered)) =
    Ready-Answered b r.pipe_name (takes pipe) (refused 4 stack creation_failed) d ready answered
Ready-CreationDone b worker realloc pipe stack r name d ready memory req
      (inr (absent, (i, c, taken_box, fd, t, closed, w, answered))) =
    let table =
      Claimed-TableOk (locked b) worker realloc r i c ready.0 memory req absent taken_box in
    Ready-Answered (record (created c i fd t) { box_size_lock = false }) r.pipe_name (takes pipe)
      (response_about stack fd) d (Ready-created c i fd t table w) answered
