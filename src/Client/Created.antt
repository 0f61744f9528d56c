-- ===== src/Client/Created.antt =====
-- What manager/manager.c prints after process_manager_create of mbroker/mbroker.c.
use project_so.Client.Boxes.{Answered-Prints}
use project_so.Client.Printed.{
  Printed, ok, error, manager_create_remove, Prints, accepted_printed, refused_printed,
}
use project_so.Prelude.{
  ℕ, ◌≡◌, refl, sym, ap, subst, ◌∙◌, ◌⊎◌, inl, inr, true, false, Option, none, some, List, ◌∷◌,
  length,
}
use project_so.Memory.Bytes.{Memory}
use project_so.Memory.Arrays.{CharArray, string_of}
use project_so.Broker.Types.{Box, Broker, whole, Pipe}
use project_so.Broker.Texts.{creation_failed}
use project_so.Fs.Types.{FsState}
use project_so.Wire.Pipeflow.{max_message, Request, response_manager}
use project_so.Wire.Reader.{reader_stc}
use project_so.Broker.Manager.{find_box, refused}
use project_so.Broker.Create.{process_manager_create}
use project_so.Broker.Answer.{Returns, Returns-weaken, locked, Answered, takes}
use project_so.Broker.Table.{TableOk, IsBoxRequest}
use project_so.Fs.Invariant.Defs.{IsWf}
use project_so.Fs.Invariant.Unlink.{IsPath}
use project_so.Fs.Invariant.Root.{root_index}
use project_so.Fs.Directory.{is_soft_link, d_inumber}
use project_so.Broker.ClaimSteps.{Claimed, ReallocOk, OpenedClosed, created, response_about}
use project_so.Broker.CreateBox.{CreateDone}
use project_so.Broker.Creation.{CreationDone, process_manager_create-CreationDone}

abbrev pub open_printed : Option ℕ → Printed
open_printed (some fd) = ok
open_printed none = error creation_failed

open_printed_lem :
    (stack : CharArray) (fd : Option ℕ) (m : Memory)
    → reader_stc m ≡ response_manager (response_about stack fd)
    → manager_create_remove m ≡ some (open_printed fd)
unfolding string_of
open_printed_lem stack (some h) m e = accepted_printed 4 m e
open_printed_lem stack none m e = refused_printed 4 stack creation_failed m e

there_lem :
    (stack : CharArray) (m : Memory)
    → reader_stc m ≡ response_manager (refused 4 stack creation_failed)
    → manager_create_remove m ≡ some (error creation_failed)
unfolding string_of
there_lem stack m e = refused_printed 4 stack creation_failed m e

-- The manager is told that there was an error, and no file changes, or how tfs_open ended.
abbrev pub CreationPrinted : Broker → Request → List ℕ → Broker → Type 0
CreationPrinted b r name d =
    ((i : ℕ) × (find_box b r.box_name ≡ some i)
      × (d.fs ≡ b.fs)
      × Prints b r.pipe_name (error creation_failed) d)
    ⊎ ((find_box b r.box_name ≡ none)
        × (fd : Option ℕ) × OpenedClosed b.fs name fd d.fs
        × Prints b r.pipe_name (open_printed fd) d)

created-fs :
    (c : Broker) (i : ℕ) (fd : Option ℕ) (t : FsState)
    → ((created c i fd t).fs ≡ t) × ((created c i fd t).sent ≡ c.sent)
created-fs c i (some h) t = (refl, refl)
created-fs c i none t = (refl, refl)

Claimed-sent :
    (b : Broker) (worker : ℕ) (realloc : Option (ℕ → Box)) (r : Request) (i : ℕ) (c : Broker)
    → Claimed b worker realloc r i c
    → c.sent ≡ b.sent
Claimed-sent b worker realloc r i c (inl (e, same)) = ap (λ (x : Broker). x.sent) same
Claimed-sent b worker realloc r i c (inr (e, at_end, fresh, got, same)) =
    ap (λ (x : Broker). x.sent) same

CreateDone-Prints :
    (b : Broker) (worker : ℕ) (realloc : Option (ℕ → Box)) (pipe : Pipe) (stack : CharArray)
    (r : Request) (name : List ℕ) (d : Broker)
    → takes pipe ≡ true
    → CreateDone (locked b) worker realloc pipe stack r name tt d
    → (fd : Option ℕ) × OpenedClosed b.fs name fd d.fs × Prints b r.pipe_name (open_printed fd) d
CreateDone-Prints b worker realloc pipe stack r name d all
      (i, c, taken_box, fd, t, closed, w, answered) =
    let (fs_after, sent_after) = created-fs c i fd t in
    let (fs_last, prints) =
      Answered-Prints b (record (created c i fd t) { box_size_lock = false }) r.pipe_name
        (response_about stack fd) (open_printed fd) d
        (sent_after ∙ Claimed-sent (locked b) worker realloc r i c taken_box)
        (open_printed_lem stack fd)
        (subst
          (λ x.
            Answered (record (created c i fd t) { box_size_lock = false }) r.pipe_name x
              (response_about stack fd) d)
          all answered) in
    (fd, subst (λ x. OpenedClosed b.fs name fd x) (sym (fs_last ∙ fs_after)) closed, prints)

CreationDone-Printed :
    (b : Broker) (worker : ℕ) (realloc : Option (ℕ → Box)) (pipe : Pipe) (stack : CharArray)
    (r : Request) (name : List ℕ) (d : Broker)
    → takes pipe ≡ true
    → CreationDone b worker realloc pipe stack r name tt d
    → CreationPrinted b r name d
CreationDone-Printed b worker realloc pipe stack r name d all (inl (i, e, answered)) =
    let response = refused 4 stack creation_failed in
    let (fs_last, prints) =
      Answered-Prints b b r.pipe_name response (error creation_failed) d refl (there_lem stack)
        (subst (λ x. Answered b r.pipe_name x response d) all answered) in
    inl (i, e, fs_last, prints)
CreationDone-Printed b worker realloc pipe stack r name d all (inr (absent, h)) =
    let (fd, closed, prints) = CreateDone-Prints b worker realloc pipe stack r name d all h in
    inr (absent, fd, closed, prints)

-- With a well-formed table that is not locked, a well-formed file system, a pipe that opens and takes
-- the response, a text of the response of its full size, and a request whose name and password are
-- strings that end in arrays of a box's sizes and whose box name is a slash and a name that is no soft
-- link's, and, where no box is free, fewer than 2^30 boxes and memory from realloc that happens to hold
-- strings in the new boxes' arrays, the empty one as their names, process_manager_create ends and sends
-- one buffer. If a box has the name, no file changes and the manager prints the error for the creation.
-- Else a file of that name is left as it was; if there was none, an empty one is added, unless no inode
-- or no entry is free or the name is refused; and the manager prints OK if there is then a file and a
-- handle was free for it, and the same error if not.
pub process_manager_create-Printed :
    (b : Broker) (fuel worker : ℕ) (realloc : Option (ℕ → Box)) (pipe : Pipe) (buffer : Memory)
    (stack : CharArray) (r : Request) (c : ℕ) (name : List ℕ)
    → TableOk b
    → ReallocOk (locked b) realloc
    → IsBoxRequest r
    → IsWf b.fs
    → b.box_size_lock ≡ false
    → pipe.opens ≡ true
    → pipe.writes 0 ≡ whole
    → length stack ≡ max_message
    → string_of r.box_name ≡ c ∷ name
    → IsPath (some (c ∷ name))
    → ((k : ℕ)
        → root_index b.fs name ≡ some k
        → is_soft_link (b.fs.inode_table (d_inumber b.fs.fs_data 0 k)).i_node_type ≡ false)
    → Returns
        (λ _ d. CreationPrinted b r name d)
        (process_manager_create fuel worker realloc pipe buffer stack r b)
process_manager_create-Printed b fuel worker realloc pipe buffer stack r c name table memory req wf
      free_lock opens w size e p plain =
    Returns-weaken (λ _ d. CreationPrinted b r name d)
      (process_manager_create fuel worker realloc pipe buffer stack r b)
      (process_manager_create-CreationDone b fuel worker realloc pipe buffer stack r c name table
        memory req wf free_lock opens size e p plain)
      (λ u d h. CreationDone-Printed b worker realloc pipe stack r name d (rw (opens, w)) h)
