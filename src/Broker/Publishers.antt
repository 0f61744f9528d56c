-- ===== src/Broker/Publishers.antt =====
-- Which publishers process_pub of mbroker/mbroker.c lets in.
use project_so.Fs.Monad as Fs
use project_so.Fs.Invariant.Inodes.{update_self}
use project_so.Prelude.{
  ℕ, ◌≡◌, ap, ◌∙◌, ◌≢◌, ◌⊎◌, inl, inr, true, false, none, some, arith, ◌==◌, Bool-cases,
  Option-cases,
}
use project_so.Memory.Scan.{first_index-congr}
use project_so.Memory.Arrays.{CharArray, string_of}
use project_so.Broker.Types.{Broker, done, exited, M, pure, lift, ◌>>=◌, get, unlock}
use project_so.Fs.Types.{FsState, update}
use project_so.Fs.Operations.{tfs_open}
use project_so.Wire.Pipeflow.{Request}
use project_so.Broker.Manager.{has_name, find_box, right_password}
use project_so.Broker.Answer.{locked, lock-then, unlocked_again}
use project_so.Broker.Publish.{
  Source, publish_mode, open_source, publish_session, turn_away, publisher_found, process_pub,
}

-- No box has the name, or it has a publisher or another password.
abbrev pub TurnedAway : Broker → Request → Type 0
TurnedAway b r =
    (find_box b r.box_name ≡ none)
    ⊎ ((i : ℕ) × (find_box b r.box_name ≡ some i)
        × (((b.server_boxes i).n_pub ≡ 1) ⊎ (right_password b i r.box_password ≡ false)))

-- The first box with the name has no publisher, and the request has its password.
abbrev pub LetIn : Broker → Request → ℕ → Type 0
LetIn b r i =
    (find_box b r.box_name ≡ some i)
    × ((b.server_boxes i).n_pub ≢ 1)
    × (right_password b i r.box_password ≡ true)

abbrev pub with_publisher : Broker → ℕ → ℕ → Broker
with_publisher b worker i = record b {
  thread_pool = update b.thread_pool worker i;
  server_boxes = update b.server_boxes i (record (b.server_boxes i) { n_pub = 1; box_size = 0 });
}

publisher_found_busy :
    (b : Broker) (fuel worker : ℕ) (source : Source) (r : Request) (i : ℕ)
    → (b.server_boxes i).n_pub ≡ 1
    → publisher_found fuel worker source r (some i) (locked b)
      ≡ open_source source (pure tt) (record b { box_size_lock = false })
unfolding publisher_found
publisher_found_busy b fuel worker source r i one =
    let busy : ((b.server_boxes i).n_pub == 1) ≡ true = ground arith in rw busy

publisher_found_wrong :
    (b : Broker) (fuel worker : ℕ) (source : Source) (r : Request) (i : ℕ)
    → (b.server_boxes i).n_pub ≢ 1
    → right_password b i r.box_password ≡ false
    → publisher_found fuel worker source r (some i) (locked b)
      ≡ open_source source unlock (locked b)
unfolding publisher_found turn_away
publisher_found_wrong b fuel worker source r i more wrong =
    let idle : ((b.server_boxes i).n_pub == 1) ≡ false = ground arith in rw (idle, wrong)

publisher_found_right :
    (b : Broker) (fuel worker : ℕ) (source : Source) (r : Request) (i : ℕ)
    → (b.server_boxes i).n_pub ≢ 1
    → right_password b i r.box_password ≡ true
    → publisher_found fuel worker source r (some i) (locked b)
      ≡ open_source source
          (lift (tfs_open fuel (some (string_of r.box_name)) publish_mode)
            >>= publish_session worker source)
          (record (with_publisher b worker i) { box_size_lock = false })
unfolding publisher_found
publisher_found_right b fuel worker source r i more right =
    let idle : ((b.server_boxes i).n_pub == 1) ≡ false = ground arith in rw (idle, right)

started :
    (b : Broker) (fuel worker : ℕ) (source : Source) (r : Request)
    → b.box_size_lock ≡ false
    → process_pub fuel worker source r b
      ≡ publisher_found fuel worker source r (find_box b r.box_name) (locked b)
unfolding process_pub
started b fuel worker source r free_lock =
    lock-then (get >>= λ x. publisher_found fuel worker source r (find_box x r.box_name)) b
      free_lock

opened_lem :
    (source : Source) (m : M (Unit {0})) (b : Broker)
    → source.opens ≡ true
    → open_source source m b ≡ m b
opened_lem source m b e = rw e

process_pub_busy :
    (b : Broker) (fuel worker : ℕ) (source : Source) (r : Request) (i : ℕ)
    → b.box_size_lock ≡ false
    → source.opens ≡ true
    → find_box b r.box_name ≡ some i
    → (b.server_boxes i).n_pub ≡ 1
    → process_pub fuel worker source r b ≡ done tt b
process_pub_busy b fuel worker source r i free_lock opens e one =
    started b fuel worker source r free_lock
    ∙ ap (λ o. publisher_found fuel worker source r o (locked b)) e
    ∙ publisher_found_busy b fuel worker source r i one
    ∙ opened_lem source (pure tt) (record b { box_size_lock = false }) opens
    ∙ ap (done tt) (unlocked_again b free_lock)

-- The names do not change.
find_box-with_publisher :
    (b : Broker) (worker i : ℕ) (t : FsState) (name : CharArray)
    → find_box (record (with_publisher b worker i) { fs = t; box_size_lock = false }) name
      ≡ find_box b name
find_box-with_publisher b worker i t name =
    first_index-congr
      (has_name (update b.server_boxes i (record (b.server_boxes i) { n_pub = 1; box_size = 0 }))
        name)
      (has_name b.server_boxes name) 0 b.size_boxes
      (λ j lo hi. elim (Bool-cases (i == j)) [
        | inl same ↦ let e : i ≡ j = ground arith in rw (same, e)
        | inr other ↦ rw other
      ])

-- With the lock free, and where no box has the name, or the box has a publisher or another password
-- than the request, process_pub ends and nothing has changed, if the publisher's pipe opens.
pub process_pub-TurnedAway :
    (b : Broker) (fuel worker : ℕ) (source : Source) (r : Request)
    → b.box_size_lock ≡ false
    → source.opens ≡ true
    → TurnedAway b r
    → process_pub fuel worker source r b ≡ done tt b
unfolding publisher_found turn_away
process_pub-TurnedAway b fuel worker source r free_lock opens (inl absent) =
    started b fuel worker source r free_lock
    ∙ ap (λ o. publisher_found fuel worker source r o (locked b)) absent
    ∙ opened_lem source unlock (locked b) opens
    ∙ ap (done tt) (unlocked_again b free_lock)
process_pub-TurnedAway b fuel worker source r free_lock opens (inr (i, e, inl one)) =
    process_pub_busy b fuel worker source r i free_lock opens e one
process_pub-TurnedAway b fuel worker source r free_lock opens (inr (i, e, inr wrong)) =
    elim (Bool-cases ((b.server_boxes i).n_pub == 1)) [
      | inl one ↦ process_pub_busy b fuel worker source r i free_lock opens e (ground arith)
      | inr more ↦
          started b fuel worker source r free_lock
          ∙ ap (λ o. publisher_found fuel worker source r o (locked b)) e
          ∙ publisher_found_wrong b fuel worker source r i (λ one. ground arith) wrong
          ∙ opened_lem source unlock (locked b) opens
          ∙ ap (done tt) (unlocked_again b free_lock)
    ]

-- With the lock free and a publisher's pipe that does not open, process_pub ends the broker's process,
-- whatever boxes there are and whatever the request's name and password.
pub process_pub-exited :
    (b : Broker) (fuel worker : ℕ) (source : Source) (r : Request)
    → b.box_size_lock ≡ false
    → source.opens ≡ false
    → process_pub fuel worker source r b ≡ exited
unfolding publisher_found turn_away
process_pub-exited b fuel worker source r free_lock shut =
    started b fuel worker source r free_lock ∙ elim (Option-cases (find_box b r.box_name)) [
      | inl absent ↦ rw (absent, shut)
      | inr (i, e) ↦
          ap (λ o. publisher_found fuel worker source r o (locked b)) e
          ∙ elim (Bool-cases ((b.server_boxes i).n_pub == 1)) [
            | inl one ↦ publisher_found_busy b fuel worker source r i (ground arith) ∙ rw shut
            | inr more ↦ elim (Bool-cases (right_password b i r.box_password)) [
              | inr wrong ↦
                  publisher_found_wrong b fuel worker source r i (λ one. ground arith) wrong
                  ∙ rw shut
              | inl right ↦
                  publisher_found_right b fuel worker source r i (λ one. ground arith) right
                  ∙ rw shut
            ]
          ]
    ]

-- With the lock free, a publisher's pipe that opens, a box without a publisher that has the name and the
-- request's password, and a file of the box that tfs_open does not open, process_pub ends with the
-- lock free and in a state in which every request to publish with this box name is turned away, though
-- nobody publishes.
pub process_pub_without_file :
    (b : Broker) (fuel worker : ℕ) (source : Source) (r : Request) (i : ℕ) (t : FsState)
    → b.box_size_lock ≡ false
    → source.opens ≡ true
    → LetIn b r i
    → tfs_open fuel (some (string_of r.box_name)) publish_mode b.fs ≡ Fs.done none t
    → (process_pub fuel worker source r b
        ≡ done tt (record (with_publisher b worker i) { fs = t; box_size_lock = false }))
      × ((next : Request)
          → next.box_name ≡ r.box_name
          → TurnedAway (record (with_publisher b worker i) { fs = t; box_size_lock = false }) next)
unfolding publish_session
process_pub_without_file b fuel worker source r i t free_lock opens (e, idle, right) no_file =
    let c = record (with_publisher b worker i) { box_size_lock = false } in
    let rest =
      lift (tfs_open fuel (some (string_of r.box_name)) publish_mode)
      >>= publish_session worker source in
    let ends : rest c ≡ done tt (record c { fs = t }) = rw (no_file, ◌>>=◌) in
    (
      started b fuel worker source r free_lock
          ∙ ap (λ o. publisher_found fuel worker source r o (locked b)) e
          ∙ publisher_found_right b fuel worker source r i idle right
          ∙ opened_lem source rest c opens
          ∙ ends,
      (λ next same. inr (
        i,
        find_box-with_publisher b worker i t next.box_name ∙ ap (find_box b) same ∙ e,
        inl (
            rw (
              update_self b.server_boxes i
                (record (b.server_boxes i) { n_pub = 1; box_size = 0 }))),
      )),
    )
