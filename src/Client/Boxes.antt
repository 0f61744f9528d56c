-- ===== src/Client/Boxes.antt =====
-- What manager/manager.c prints after process_manager_remove of mbroker/mbroker.c.
use project_so.Client.Printed.{
  Printed, ok, error, manager_create_remove, Prints, accepted_printed, refused_printed,
}
use project_so.Prelude.{
  ℕ, ◌≡◌, refl, sym, ap, subst, ◌∙◌, ◌⊎◌, inl, inr, true, false, some, List, [], ◌∷◌, ◌++◌, arith,
  length, ◌<◌, none,
}
use project_so.Memory.Bytes.{Memory}
use project_so.Memory.Arrays.{CharArray, string_of}
use project_so.Broker.Types.{Broker, whole, Pipe}
use project_so.Broker.Texts.{removal_failed, removal_wrong_password}
use project_so.Fs.Types.{FsState, update, Status, success, failure}
use project_so.Wire.Pipeflow.{max_message, Request, ResponseManager, response_manager}
use project_so.Wire.Reader.{reader_stc}
use project_so.Broker.Manager.{find_box, right_password, refused, process_manager_remove}
use project_so.Broker.Answer.{Returns, Returns-weaken, Answered, takes}
use project_so.Broker.Table.{TableOk}
use project_so.Fs.Invariant.Defs.{IsWf}
use project_so.Fs.Invariant.Unlink.{IsPath, Unlinked}
use project_so.Broker.UnlinkBox.{removed, response_to, UnlinkDone}
use project_so.Broker.Removal.{RemovalDone, process_manager_remove-RemovalDone}

-- The response that was sent is the one that the manager prints.
pub Answered-Prints :
    (b c : Broker) (pipe_name : CharArray) (response : ResponseManager) (printed : Printed)
    (d : Broker)
    → c.sent ≡ b.sent
    → ((m : Memory)
        → reader_stc m ≡ response_manager response
        → manager_create_remove m ≡ some printed)
    → Answered c pipe_name true response d
    → (d.fs ≡ c.fs) × Prints b pipe_name printed d
Answered-Prints b c pipe_name response printed d same prints (inl (n, e)) =
    absurd (ground (arith, n))
Answered-Prints b c pipe_name response printed d same prints (inr (y, m, e, back)) = (
  ap (λ (x : Broker). x.fs) e,
  (m, ap (λ (x : Broker). x.sent) e ∙ ap (λ l. l ++ (pipe_name, m) ∷ []) same, prints m back),
)

abbrev pub unlink_printed : Status → Printed
unlink_printed success = ok
unlink_printed failure = error removal_failed

unlink_printed_lem :
    (stack : CharArray) (rc : Status) (m : Memory)
    → reader_stc m ≡ response_manager (response_to stack rc)
    → manager_create_remove m ≡ some (unlink_printed rc)
unfolding string_of
unlink_printed_lem stack success m e = accepted_printed 6 m e
unlink_printed_lem stack failure m e = refused_printed 6 stack removal_failed m e

wrong_password_lem :
    (stack : CharArray) (m : Memory)
    → reader_stc m ≡ response_manager (refused 6 stack removal_wrong_password)
    → manager_create_remove m ≡ some (error removal_wrong_password)
unfolding string_of
wrong_password_lem stack m e = refused_printed 6 stack removal_wrong_password m e

-- The manager is told that the password is wrong, and no file changes, or how tfs_unlink ended.
abbrev pub RemovalPrinted : Broker → Request → List ℕ → Broker → Type 0
RemovalPrinted b r name d =
    ((i : ℕ) × (find_box b r.box_name ≡ some i)
      × (right_password b i r.box_password ≡ false)
      × (d.fs ≡ b.fs)
      × Prints b r.pipe_name (error removal_wrong_password) d)
    ⊎ (((find_box b r.box_name ≡ none)
          ⊎ ((i : ℕ) × (find_box b r.box_name ≡ some i)
              × (right_password b i r.box_password ≡ true)))
        × (rc : Status) × Unlinked b.fs name rc d.fs
        × Prints b r.pipe_name (unlink_printed rc) d)

removed-fs :
    (b : Broker) (i : ℕ) (rc : Status) (t : FsState)
    → ((removed b i rc t).fs ≡ t) × ((removed b i rc t).sent ≡ b.sent)
removed-fs b i success t = (refl, refl)
removed-fs b i failure t = (refl, refl)

UnlinkDone-Prints :
    (b c : Broker) (i : ℕ) (pipe : Pipe) (stack : CharArray) (r : Request) (name : List ℕ)
    (d : Broker)
    → takes pipe ≡ true
    → c.fs ≡ b.fs
    → c.sent ≡ b.sent
    → UnlinkDone c i pipe stack r name tt d
    → (rc : Status) × Unlinked b.fs name rc d.fs × Prints b r.pipe_name (unlink_printed rc) d
UnlinkDone-Prints b c i pipe stack r name d all same_fs same_sent (rc, t, w, unlinked, answered) =
    let after = removed (record c { box_size_lock = false }) i rc t in
    let (fs_after, sent_after) = removed-fs (record c { box_size_lock = false }) i rc t in
    let (fs_last, prints) =
      Answered-Prints b after r.pipe_name (response_to stack rc) (unlink_printed rc) d
        (sent_after ∙ same_sent) (unlink_printed_lem stack rc)
        (subst (λ x. Answered after r.pipe_name x (response_to stack rc) d) all answered) in
    (
      rc,
      subst (λ x. Unlinked b.fs name rc x) (sym (fs_last ∙ fs_after))
          (subst (λ x. Unlinked x name rc t) same_fs unlinked),
      prints,
    )

pub RemovalDone-Printed :
    (b : Broker) (worker : ℕ) (pipe : Pipe) (stack : CharArray) (r : Request) (name : List ℕ)
    (d : Broker)
    → takes pipe ≡ true
    → RemovalDone b worker pipe stack r name tt d
    → RemovalPrinted b r name d
RemovalDone-Printed b worker pipe stack r name d all (inl (i, e, wrong, answered)) =
    let (fs_last, prints) =
      Answered-Prints b b r.pipe_name (refused 6 stack removal_wrong_password)
        (error removal_wrong_password) d refl (wrong_password_lem stack)
        (subst (λ x. Answered b r.pipe_name x (refused 6 stack removal_wrong_password) d) all
          answered) in
    inl (i, e, wrong, fs_last, prints)
RemovalDone-Printed b worker pipe stack r name d all (inr (inl (i, e, right, h))) =
    let (rc, unlinked, prints) =
      UnlinkDone-Prints b (record b { thread_pool = update b.thread_pool worker i }) i pipe stack r
        name d all refl refl h in
    inr (inr (i, e, right), rc, unlinked, prints)
RemovalDone-Printed b worker pipe stack r name d all (inr (inr (absent, h))) =
    let (rc, unlinked, prints) =
      UnlinkDone-Prints b b (b.thread_pool worker) pipe stack r name d all refl refl h in
    inr (inl absent, rc, unlinked, prints)

-- With a well-formed table that is not locked, a well-formed file system, a pipe that opens and takes
-- the response, a text of the response of its full size and a box name of a slash and a file's name
-- that ends in its array, and, where no box has the name, with the index that the worker last set in
-- the table, process_manager_remove ends and sends one buffer. If a box has the name and another
-- password, no file changes and the manager prints the error for a wrong password; else the files are as tfs_unlink
-- leaves them, and the manager prints OK if it has succeeded, and the error for the removal if not.
pub process_manager_remove-Printed :
    (b : Broker) (worker : ℕ) (pipe : Pipe) (buffer : Memory) (stack : CharArray) (r : Request)
    (c : ℕ) (name : List ℕ)
    → b.box_size_lock ≡ false
    → pipe.opens ≡ true
    → pipe.writes 0 ≡ whole
    → length stack ≡ max_message
    → TableOk b
    → IsWf b.fs
    → string_of r.box_name ≡ c ∷ name
    → IsPath (some (c ∷ name))
    → length (string_of r.box_name) < length r.box_name
    → (find_box b r.box_name ≡ none → b.thread_pool worker < b.size_boxes)
    → Returns
        (λ _ d. RemovalPrinted b r name d)
        (process_manager_remove worker pipe buffer stack r b)
process_manager_remove-Printed b worker pipe buffer stack r c name free_lock opens w size table wf e
      p ends last_used =
    Returns-weaken (λ _ d. RemovalPrinted b r name d)
      (process_manager_remove worker pipe buffer stack r b)
      (process_manager_remove-RemovalDone b worker pipe buffer stack r free_lock opens (rw w) size c
        name table wf e p ends last_used)
      (λ u d h. RemovalDone-Printed b worker pipe stack r name d (rw (opens, w)) h)
