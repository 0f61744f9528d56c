-- ===== src/Broker/Creation.antt =====
-- The handler process_manager_create of mbroker/mbroker.c as a whole.
use project_so.Broker.CreateBox.{
  CreateDone, create_box-CreateDone, create_found-none, create_found-some,
}
use project_so.Prelude.{
  ℕ, ◌≡◌, refl, sym, ap, subst, ◌∙◌, ◌⊎◌, inl, inr, true, false, Option, none, some, List, ◌∷◌,
  arith, Option-cases, length,
}
use project_so.Memory.Bytes.{Memory}
use project_so.Memory.Arrays.{CharArray, string_of}
use project_so.Broker.Types.{Box, Broker, Outcome, ◌>>=◌, get, Pipe, is_whole}
use project_so.Broker.Texts.{creation_failed}
use project_so.Wire.Pipeflow.{max_message, Request}
use project_so.Broker.Manager.{find_box, refused, send}
use project_so.Broker.Create.{create_box, create_found, process_manager_create}
use project_so.Broker.Answer.{
  Returns, Returns-weaken, locked, lock-then, unlocked_again, Answered, send-Answered, takes,
  refused-IsMessage,
}
use project_so.Broker.Table.{TableOk, IsBoxRequest}
use project_so.Fs.Invariant.Defs.{IsWf}
use project_so.Fs.Invariant.Unlink.{IsPath}
use project_so.Fs.Invariant.Root.{root_index}
use project_so.Fs.Directory.{is_soft_link, d_inumber}
use project_so.Broker.ClaimSteps.{ReallocOk}

-- What process_manager_create does, from the unlocked state `b`.
abbrev pub CreationDone :
    Broker → ℕ → Option (ℕ → Box) → Pipe → CharArray → Request → List ℕ → Unit {0} → Broker → Type 0
CreationDone b worker realloc pipe stack r name u d =
    ((i : ℕ) × (find_box b r.box_name ≡ some i)
      × Answered b r.pipe_name (takes pipe) (refused 4 stack creation_failed) d)
    ⊎ ((find_box b r.box_name ≡ none) × CreateDone (locked b) worker realloc pipe stack r name u d)

create_refused :
    (b : Broker) (pipe : Pipe) (buffer : Memory) (stack : CharArray) (r : Request)
    → b.box_size_lock ≡ false
    → pipe.opens ≡ true
    → length stack ≡ max_message
    → Returns
        (λ _. Answered b r.pipe_name (takes pipe) (refused 4 stack creation_failed))
        (send r.pipe_name
          (pipe.writes 0)
          buffer
          (refused 4 stack creation_failed)
          (record b { box_size_lock = false }))
unfolding string_of
create_refused b pipe buffer stack r free_lock opens size =
    let response = refused 4 stack creation_failed in
    let all : is_whole (pipe.writes 0) ≡ takes pipe = rw opens in
    let ok = refused-IsMessage 4 stack creation_failed refl size (omega arith) in
    subst
      (λ x.
        Returns (λ _. Answered b r.pipe_name x response)
          (send r.pipe_name (pipe.writes 0) buffer response (record b { box_size_lock = false })))
      all
      (subst
        (λ x.
          Returns (λ _. Answered b r.pipe_name (is_whole (pipe.writes 0)) response)
            (send r.pipe_name (pipe.writes 0) buffer response x))
        (sym (unlocked_again b free_lock))
        (send-Answered b r.pipe_name (pipe.writes 0) buffer response ok))

pub process_manager_create-CreationDone :
    (b : Broker) (fuel worker : ℕ) (realloc : Option (ℕ → Box)) (pipe : Pipe) (buffer : Memory)
    (stack : CharArray) (r : Request) (c : ℕ) (name : List ℕ)
    → TableOk b
    → ReallocOk (locked b) realloc
    → IsBoxRequest r
    → IsWf b.fs
    → b.box_size_lock ≡ false
    → pipe.opens ≡ true
    → length stack ≡ max_message
    → string_of r.box_name ≡ c ∷ name
    → IsPath (some (c ∷ name))
    → ((k : ℕ)
        → root_index b.fs name ≡ some k
        → is_soft_link (b.fs.inode_table (d_inumber b.fs.fs_data 0 k)).i_node_type ≡ false)
    → Returns
        (CreationDone b worker realloc pipe stack r name)
        (process_manager_create fuel worker realloc pipe buffer stack r b)
unfolding process_manager_create
process_manager_create-CreationDone b fuel worker realloc pipe buffer stack r c name table memory
      req w free_lock opens size e p plain =
    let post = CreationDone b worker realloc pipe stack r name in
    let run : Option ℕ → Outcome (Unit {0}) =
      λ o. create_found fuel worker realloc pipe buffer stack r o (locked b) in
    let started =
      lock-then
        (get >>= λ x. create_found fuel worker realloc pipe buffer stack r (find_box x r.box_name))
        b free_lock in
    subst (Returns post) (sym started) (elim (Option-cases (find_box b r.box_name)) [
      | inl absent ↦
          subst (Returns post)
            (sym (
              ap run absent
              ∙ create_found-none (locked b) fuel worker realloc pipe buffer stack r opens size))
            (Returns-weaken {P = CreateDone (locked b) worker realloc pipe stack r name} post
              (create_box fuel worker realloc pipe buffer stack r (locked b))
              (create_box-CreateDone (locked b) fuel worker realloc pipe buffer stack r opens size c
                name table memory req w e p plain)
              (λ u d h. inr (absent, h)))
      | inr (i, q) ↦
          subst (Returns post)
            (sym
              (ap run q ∙ create_found-some b fuel worker realloc pipe buffer stack r opens size i))
            (Returns-weaken post
              (send r.pipe_name (pipe.writes 0) buffer (refused 4 stack creation_failed)
                (record b { box_size_lock = false }))
              (create_refused b pipe buffer stack r free_lock opens size) (λ u d h. inl (i, q, h)))
    ])
