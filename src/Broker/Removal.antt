-- ===== src/Broker/Removal.antt =====
-- The handler of mbroker/mbroker.c that removes a box, over tfs_unlink of fs/operations.c.
use project_so.Prelude.{
  ℕ, ◌≡◌, refl, sym, ap, subst, ◌∙◌, ◌≢◌, ◌⊎◌, inl, inr, true, false, Option, none, some, List, [],
  ◌∷◌, arith, ◌==◌, Bool-cases, Option-cases, length, ◌<◌,
}
use project_so.Memory.Bytes.{Memory}
use project_so.Memory.Arrays.{CharArray, string_of}
use project_so.Broker.Types.{
  Broker, Outcome, done, M, pure, exit, choose, ◌>>=◌, ◌>>◌, get, Pipe, is_whole, is_broken,
}
use project_so.Broker.Texts.{removal_wrong_password}
use project_so.Fs.Types.{update}
use project_so.Wire.Pipeflow.{max_message, Request}
use project_so.Broker.Manager.{
  find_box, right_password, refused, send, open_or_exit, unlink_box, refuse_removal, remove_found,
  process_manager_remove,
}
use project_so.Broker.Answer.{
  Returns, Returns-then, Returns-weaken, locked, lock-then, unlocked_again, Answered, send-Answered,
  takes, refused-IsMessage,
}
use project_so.Broker.Table.{TableOk, find_box-used, find_box-some}
use project_so.Fs.Invariant.Defs.{IsWf}
use project_so.Fs.Invariant.Inodes.{update_self}
use project_so.Fs.Invariant.Unlink.{IsPath}
use project_so.Broker.UnlinkBox.{UnlinkDone, unlink_box-UnlinkDone}

-- What the handler does, from the unlocked state `b`: a refusal, or the removal of the file. The box that
-- is then freed is the one found, or the one that the worker used last if there is none.
abbrev pub RemovalDone :
    Broker → ℕ → Pipe → CharArray → Request → List ℕ → Unit {0} → Broker → Type 0
RemovalDone b worker pipe stack r name u d =
    ((i : ℕ) × (find_box b r.box_name ≡ some i)
      × (right_password b i r.box_password ≡ false)
      × Answered b r.pipe_name (takes pipe) (refused 6 stack removal_wrong_password) d)
    ⊎ ((i : ℕ) × (find_box b r.box_name ≡ some i)
        × (right_password b i r.box_password ≡ true)
        × UnlinkDone (record b { thread_pool = update b.thread_pool worker i }) i pipe stack r name
            u d)
    ⊎ ((find_box b r.box_name ≡ none) × UnlinkDone b (b.thread_pool worker) pipe stack r name u d)

module _ (b : Broker) (worker : ℕ) (pipe : Pipe) (buffer : Memory) (stack : CharArray) (r : Request)
    (open_lock : b.box_size_lock ≡ false) (opens : pipe.opens ≡ true)
    (listens : is_broken (pipe.writes 0) ≡ false) (size : length stack ≡ max_message) where
  finish_lem : (d : Broker) → choose (is_broken (pipe.writes 0)) exit (pure tt) d ≡ done (tt {0}) d
  finish_lem d = rw listens

  refuse_removal-sends :
      refuse_removal pipe buffer stack r (locked b)
      ≡ (send r.pipe_name (pipe.writes 0) buffer (refused 6 stack removal_wrong_password)
            >> choose (is_broken (pipe.writes 0)) exit (pure tt))
          (record b { box_size_lock = false })
  unfolding refuse_removal open_or_exit
  refuse_removal-sends = rw (refuse_removal, open_or_exit, opens)

  refuse_removal-Answered :
      Returns
        (λ _. Answered b r.pipe_name (takes pipe) (refused 6 stack removal_wrong_password))
        (refuse_removal pipe buffer stack r (locked b))
  unfolding string_of
  refuse_removal-Answered =
      let bu = record b { box_size_lock = false } in
      let response = refused 6 stack removal_wrong_password in
      let post = λ (x : Broker) (u : Unit {0}). Answered x r.pipe_name (takes pipe) response in
      let finish : (u : Unit {0}) → M (Unit {0}) =
        λ u. choose (is_broken (pipe.writes 0)) exit (pure tt) in
      let all : is_whole (pipe.writes 0) ≡ takes pipe = rw opens in
      let ok = refused-IsMessage 6 stack removal_wrong_password refl size (omega arith) in
      let sent_it =
        subst
          (λ x.
            Returns (λ _. Answered bu r.pipe_name x response)
              (send r.pipe_name (pipe.writes 0) buffer response bu))
          all (send-Answered bu r.pipe_name (pipe.writes 0) buffer response ok) in
      subst (λ x. Returns (post x) (refuse_removal pipe buffer stack r (locked b)))
        (unlocked_again b open_lock)
        (subst (Returns (post bu)) (sym refuse_removal-sends) (
          Returns-then {P = post bu} (post bu) (send r.pipe_name (pipe.writes 0) buffer response bu)
            finish bu sent_it (λ u d h. subst (Returns (post bu)) (sym (finish_lem d)) h)))

  remove_found-wrong :
      (i : ℕ)
      → (b.server_boxes i).free ≡ 1
      → right_password b i r.box_password ≡ false
      → remove_found worker pipe buffer stack r (some i) (locked b)
        ≡ refuse_removal pipe buffer stack r (locked b)
  unfolding remove_found
  remove_found-wrong i used wrong =
      let busy : ((b.server_boxes i).free == 0) ≡ false = ground arith in rw (busy, wrong)

  remove_found-right :
      (i : ℕ)
      → (b.server_boxes i).free ≡ 1
      → right_password b i r.box_password ≡ true
      → remove_found worker pipe buffer stack r (some i) (locked b)
        ≡ unlink_box worker pipe buffer stack r
            (locked (record b { thread_pool = update b.thread_pool worker i }))
  unfolding remove_found
  remove_found-right i used right =
      let busy : ((b.server_boxes i).free == 0) ≡ false = ground arith in rw (busy, right)

  remove_found-none :
      remove_found worker pipe buffer stack r none (locked b)
      ≡ unlink_box worker pipe buffer stack r (locked b)
  unfolding remove_found
  remove_found-none = refl

  remove_found-RemovalDone :
      (c : ℕ) (name : List ℕ)
      → TableOk b
      → IsWf b.fs
      → string_of r.box_name ≡ c ∷ name
      → IsPath (some (c ∷ name))
      → length (string_of r.box_name) < length r.box_name
      → (find_box b r.box_name ≡ none → b.thread_pool worker < b.size_boxes)
      → Returns
          (RemovalDone b worker pipe stack r name)
          (remove_found worker pipe buffer stack r (find_box b r.box_name) (locked b))
  remove_found-RemovalDone c name table w e p ends last_used =
      let post = RemovalDone b worker pipe stack r name in
      let run : Option ℕ → Outcome (Unit {0}) =
        λ o. remove_found worker pipe buffer stack r o (locked b) in
      elim (Option-cases (find_box b r.box_name)) [
        | inl absent ↦ subst (Returns post) (sym (ap run absent ∙ remove_found-none)) (
            Returns-weaken post (unlink_box worker pipe buffer stack r (locked b))
              (unlink_box-UnlinkDone (locked b) worker pipe buffer stack r c name w e p size ends
                (last_used absent))
              (λ u d h. inr (inr (absent, h))))
        | inr (i, q) ↦
            let named : string_of r.box_name ≢ [] = λ z. cc in
            let used = find_box-used b r.box_name table named q in
            elim (Bool-cases (right_password b i r.box_password)) [
              | inl right ↦
                  let b' = record b { thread_pool = update b.thread_pool worker i } in
                  let self = update_self b.thread_pool worker i in
                  subst (Returns post) (sym (ap run q ∙ remove_found-right i used right)) (
                    Returns-weaken post (unlink_box worker pipe buffer stack r (locked b'))
                      (unlink_box-UnlinkDone (locked b') worker pipe buffer stack r c name w e p
                        size ends (let lt = (find_box-some b r.box_name q).0 in rw self lt))
                      (λ u d h. inr (
                        inl (
                          i,
                          q,
                          right,
                          subst (λ k. UnlinkDone b' k pipe stack r name u d) self h,
                        ))))
              | inr wrong ↦
                  subst (Returns post) (sym (ap run q ∙ remove_found-wrong i used wrong)) (
                    Returns-weaken post (refuse_removal pipe buffer stack r (locked b))
                      refuse_removal-Answered (λ u d h. inl (i, q, wrong, h)))
            ]
      ]

  -- With a well-formed table that is not locked, a well-formed file system, a pipe that opens and is
  -- not broken, a text of the response of its full size and a box name of a slash and a file's name
  -- that ends in its array, and, where no box has the name, with the index that the worker last set
  -- in the table, process_manager_remove ends. If a box has the name and another password, nothing changes. Else the
  -- file is unlinked; if that succeeds, the box with the name is freed or, if there is none, the box
  -- that the worker last used. The client is told which it was, if its pipe takes the response.
  pub process_manager_remove-RemovalDone :
      (c : ℕ) (name : List ℕ)
      → TableOk b
      → IsWf b.fs
      → string_of r.box_name ≡ c ∷ name
      → IsPath (some (c ∷ name))
      → length (string_of r.box_name) < length r.box_name
      → (find_box b r.box_name ≡ none → b.thread_pool worker < b.size_boxes)
      → Returns
          (RemovalDone b worker pipe stack r name)
          (process_manager_remove worker pipe buffer stack r b)
  unfolding process_manager_remove
  process_manager_remove-RemovalDone c name table w e p ends last_used =
      subst (Returns (RemovalDone b worker pipe stack r name))
        (sym (
          lock-then (get >>= λ x. remove_found worker pipe buffer stack r (find_box x r.box_name)) b
            open_lock))
        (remove_found-RemovalDone c name table w e p ends last_used)
