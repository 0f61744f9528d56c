-- ===== src/Broker/CreateBox.antt =====
-- The second half of process_manager_create (mbroker/mbroker.c): the box, the file and the answer.
use project_so.Fs.Monad as Fs
use project_so.Prelude.{
  ℕ, ◌≡◌, refl, sym, subst, ◌∙◌, true, false, Option, none, some, List, ◌∷◌, arith, length, ◌<◌,
  ltb,
}
use project_so.Memory.Bytes.{Memory}
use project_so.Memory.Arrays.{CharArray, string_of}
use project_so.Broker.Types.{Box, Broker, done, M, lift, ◌>>=◌, ◌>>◌, Pipe, unlock, is_whole}
use project_so.Broker.Texts.{creation_failed}
use project_so.Fs.Types.{FsState}
use project_so.Fs.Operations.{tfs_open}
use project_so.Wire.Pipeflow.{max_message, Request, response_manager}
use project_so.Wire.Dispatch.{IsMessage}
use project_so.Broker.Manager.{refused, send, open_or_exit, set_worker_box}
use project_so.Broker.Create.{
  free_box, claim_box, close_box, creation_response, create_mode, create_box, create_found,
}
use project_so.Broker.Answer.{
  Returns, Returns-weaken, locked, Answered, send-Answered, takes, accepted-IsMessage,
  refused-IsMessage,
}
use project_so.Broker.Table.{TableOk, IsBoxRequest}
use project_so.Fs.Invariant.Defs.{IsWf}
use project_so.Fs.Invariant.Unlink.{IsPath}
use project_so.Fs.Invariant.Root.{root_index}
use project_so.Fs.Invariant.Opening.{Opened}
use project_so.Fs.Invariant.OpenPath.{tfs_open-Opened}
use project_so.Fs.Directory.{is_soft_link, d_inumber}
use project_so.Broker.ClaimSteps.{
  Claimed, ReallocOk, claim_box-Claimed, Claimed-fs, OpenedClosed, created, response_about,
  close_box-closed,
}
use project_so.Fs.Invariant.CreateMode.{FileOpened, tfs_open-FileOpened}

response_about-IsMessage :
    (stack : CharArray) (fd : Option ℕ)
    → length stack ≡ max_message
    → IsMessage (response_manager (response_about stack fd))
unfolding string_of
response_about-IsMessage stack (some h) size = accepted-IsMessage 4 refl
response_about-IsMessage stack none size =
    refused-IsMessage 4 stack creation_failed refl size (omega arith)

-- The last steps of the handler, with the pipe open.
abbrev answer : ℕ → Pipe → Memory → CharArray → Request → Option ℕ → M (Unit {0})
answer worker pipe buffer stack r fd = open_or_exit pipe do
  response ← creation_response worker stack fd
  unlock
  send r.pipe_name (pipe.writes 0) buffer response

answer-sends :
    (c : Broker) (worker i : ℕ) (pipe : Pipe) (buffer : Memory) (stack : CharArray) (r : Request)
    (fd : Option ℕ) (t : FsState)
    → pipe.opens ≡ true
    → c.thread_pool worker ≡ i
    → i < c.size_boxes
    → answer worker pipe buffer stack r fd (record c { fs = t })
      ≡ send r.pipe_name
          (pipe.writes 0)
          buffer
          (response_about stack fd)
          (record (created c i fd t) { box_size_lock = false })
unfolding creation_response set_worker_box open_or_exit
answer-sends c worker i pipe buffer stack r none t opens same lt =
    let inside : ltb i c.size_boxes ≡ true = ground arith in rw (opens, same, inside, ◌>>=◌)
answer-sends c worker i pipe buffer stack r (some h) t opens same lt = rw (opens, ◌>>=◌)

-- A step that ends hands its result on.
pub then_done :
    {A B : Type 0} (m : M A) (f : A → M B) (b c : Broker) (a : A)
    → m b ≡ done a c
    → ◌>>=◌ m f b ≡ f a c
then_done m f b c a e = rw (e, ◌>>=◌)

pub lift_done :
    {A : Type 0} (m : Fs.M A) (c : Broker) (a : A) (u : FsState)
    → m c.fs ≡ Fs.done a u
    → lift m c ≡ done a (record c { fs = u })
lift_done m c a u e = rw (e, lift)

-- What the handler does where no box has the name, from the state `b` with the lock held.
abbrev pub CreateDone :
    Broker → ℕ → Option (ℕ → Box) → Pipe → CharArray → Request → List ℕ → Unit {0} → Broker → Type 0
CreateDone b worker realloc pipe stack r name u d =
    (i : ℕ) × (c : Broker) × Claimed b worker realloc r i c
    × (fd : Option ℕ) × (t : FsState) × OpenedClosed b.fs name fd t
    × IsWf t
    × Answered (record (created c i fd t) { box_size_lock = false }) r.pipe_name (takes pipe)
        (response_about stack fd) d

module _ (b : Broker) (fuel worker : ℕ) (realloc : Option (ℕ → Box)) (pipe : Pipe) (buffer : Memory)
    (stack : CharArray) (r : Request) (opens : pipe.opens ≡ true)
    (size : length stack ≡ max_message) where
  pub create_box-CreateDone :
      (c : ℕ) (name : List ℕ)
      → TableOk b
      → ReallocOk b realloc
      → IsBoxRequest r
      → IsWf b.fs
      → string_of r.box_name ≡ c ∷ name
      → IsPath (some (c ∷ name))
      → ((k : ℕ)
          → root_index b.fs name ≡ some k
          → is_soft_link (b.fs.inode_table (d_inumber b.fs.fs_data 0 k)).i_node_type ≡ false)
      → Returns
          (CreateDone b worker realloc pipe stack r name)
          (create_box fuel worker realloc pipe buffer stack r b)
  unfolding create_box
  create_box-CreateDone k name table memory req w e p plain =
      let (i, c, eq, lt, claimed_box) = claim_box-Claimed b worker realloc r table memory req in
      let (same_fs, index, same_lock) = Claimed-fs b worker realloc r i c claimed_box in
      let opening_file = tfs_open fuel (some (k ∷ name)) create_mode b.fs in
      let (fd, u, q, (opened, file)) =
        Fs.Returns-done (λ fd u. Opened b.fs fd u × FileOpened b.fs name fd u) opening_file
          (Fs.Returns-both (Opened b.fs) (FileOpened b.fs name) opening_file
            (tfs_open-Opened fuel b.fs k name create_mode w p plain)
            (tfs_open-FileOpened fuel b.fs k name create_mode w p plain refl refl refl)) in
      let q' : tfs_open fuel (some (string_of r.box_name)) create_mode c.fs ≡ Fs.done fd u =
        rw (e, same_fs) q in
      let (t, closed_eq, closed, wt) = close_box-closed c b.fs u name fd opened file in
      let opening = lift (tfs_open fuel (some (string_of r.box_name)) create_mode) in
      let finish : (h : Option ℕ) → M (Unit {0}) =
        λ h. close_box h >> answer worker pipe buffer stack r h in
      let run : create_box fuel worker realloc pipe buffer stack r b
          ≡ answer worker pipe buffer stack r fd (record c { fs = t }) =
        then_done (claim_box worker realloc r (free_box b)) (λ _. opening >>= finish) b c tt eq
        ∙ then_done opening finish c (record c { fs = u }) fd
            (lift_done (tfs_open fuel (some (string_of r.box_name)) create_mode) c fd u q')
        ∙ then_done (close_box fd) (λ _. answer worker pipe buffer stack r fd) (record c { fs = u })
            (record c { fs = t }) tt closed_eq in
      let last = record (created c i fd t) { box_size_lock = false } in
      let all : is_whole (pipe.writes 0) ≡ takes pipe = rw opens in
      let response = response_about stack fd in
      subst (Returns (CreateDone b worker realloc pipe stack r name))
        (sym (run ∙ answer-sends c worker i pipe buffer stack r fd t opens index lt))
        (Returns-weaken {P = λ _. Answered last r.pipe_name (is_whole (pipe.writes 0)) response}
          (CreateDone b worker realloc pipe stack r name)
          (send r.pipe_name (pipe.writes 0) buffer response last)
          (send-Answered last r.pipe_name (pipe.writes 0) buffer response
            (response_about-IsMessage stack fd size))
          (λ _ d h. (
            i,
            c,
            claimed_box,
            fd,
            t,
            closed,
            wt,
            subst (λ x. Answered last r.pipe_name x response d) all h,
          )))

  pub create_found-none :
      create_found fuel worker realloc pipe buffer stack r none b
      ≡ create_box fuel worker realloc pipe buffer stack r b
  unfolding create_found
  create_found-none = refl

  pub create_found-some :
      (i : ℕ)
      → create_found fuel worker realloc pipe buffer stack r (some i) (locked b)
        ≡ send r.pipe_name
            (pipe.writes 0)
            buffer
            (refused 4 stack creation_failed)
            (record b { box_size_lock = false })
  unfolding create_found open_or_exit
  create_found-some i = rw (opens, ◌>>=◌)
