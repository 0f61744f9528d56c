-- ===== src/Broker/ClaimSteps.antt =====
-- The steps of process_manager_create (mbroker/mbroker.c): the box that is taken, and the file.
use project_so.Prelude.{
  ℕ, ◌<◌, ◌≡◌, refl, sym, ap, subst, ◌∙◌, ◌⊎◌, inl, inr, true, Option, none, some, arith,
  Option-cases, ◌*◌, ◌^◌, ltb, List,
}
use project_so.Memory.Scan.{first_index-some}
use project_so.Memory.Arrays.{CharArray, zeros, IsArray, strcpy_fits}
use project_so.Broker.Types.{Box, Broker, done, ◌>>=◌}
use project_so.Broker.Texts.{creation_failed}
use project_so.Fs.Types.{FsState, update}
use project_so.Wire.Pipeflow.{max_box_name, max_password, Request, ResponseManager}
use project_so.Broker.Manager.{find_box, accepted, refused}
use project_so.Broker.Create.{
  is_unused, free_box, claimed, doubled, grow, claim_box, close_box, claim,
}
use project_so.Broker.Table.{TableOk, IsBoxRequest, with_box}
use project_so.Broker.Claims.{
  TableOk-claimed, FreshOk, with_doubled, TableOk-with_doubled, find_box-with_doubled,
}
use project_so.Fs.Invariant.Defs.{IsWf}
use project_so.Fs.Invariant.Inodes.{update_self}
use project_so.Fs.Invariant.Blocks.{without_handle, IsWf-without_handle}
use project_so.Fs.Invariant.Closing.{is_open, tfs_close_open}
use project_so.Fs.Invariant.Opening.{Opened}
use project_so.Fs.Invariant.CreateMode.{FileOpened}

-- The box that is taken: the first free one, or the first one behind the old table.
abbrev pub Claimed : Broker → ℕ → Option (ℕ → Box) → Request → ℕ → Broker → Type 0
Claimed b worker realloc r i c =
    ((free_box b ≡ some i)
      × (c ≡ record b {
        thread_pool = update b.thread_pool worker i;
        server_boxes = update b.server_boxes i (claimed r (b.server_boxes i));
      }))
    ⊎ ((free_box b ≡ none)
        × (i ≡ b.size_boxes)
        × (fresh : ℕ → Box) × (realloc ≡ some fresh)
        × (c ≡ record (with_doubled b fresh) {
          thread_pool = update b.thread_pool worker i;
          server_boxes = update (doubled b fresh) i (claimed r (doubled b fresh i));
        }))

-- What realloc has to return where it is called, and the room that is left in the int `size_boxes`:
-- memory that already holds arrays with strings, the names' empty ones, behind the old boxes.
abbrev pub ReallocOk : Broker → Option (ℕ → Box) → Type 0
ReallocOk b realloc =
    free_box b ≡ none
    → (2 * b.size_boxes < 2 ^ 31) × (fresh : ℕ → Box) × (realloc ≡ some fresh) × FreshOk b fresh

-- A box of the table has room for the strings of a request for a box.
claim-claimed :
    (b : Broker) (i : ℕ) (r : Request)
    → IsBoxRequest r
    → IsArray max_box_name (b.server_boxes i).box_name
    → IsArray max_password (b.server_boxes i).box_password
    → claim i r b ≡ done tt (with_box b i (claimed r (b.server_boxes i)))
unfolding claim
claim-claimed b i r req name password =
    let name_fits : strcpy_fits (b.server_boxes i).box_name r.box_name ≡ true =
      ground (arith, name.size, req.name_array.size, req.name_array.terminated) in
    let password_fits : strcpy_fits (b.server_boxes i).box_password r.box_password ≡ true =
      ground (arith, password.size, req.password_array.size, req.password_array.terminated) in
    rw (name_fits, password_fits)

claim_box-free :
    (b : Broker) (worker : ℕ) (realloc : Option (ℕ → Box)) (r : Request) (i : ℕ)
    → TableOk b
    → IsBoxRequest r
    → i < b.size_boxes
    → claim_box worker realloc r (some i) b
      ≡ done tt (record b {
        thread_pool = update b.thread_pool worker i;
        server_boxes = update b.server_boxes i (claimed r (b.server_boxes i));
      })
unfolding claim_box
claim_box-free b worker realloc r i table req lt =
    claim-claimed (record b { thread_pool = update b.thread_pool worker i }) i r req
      (table.names i lt) (table.passwords i lt)

claim_box-grown :
    (b : Broker) (worker : ℕ) (fresh : ℕ → Box) (r : Request)
    → TableOk b
    → FreshOk b fresh
    → IsBoxRequest r
    → 2 * b.size_boxes < 2 ^ 31
    → claim_box worker (some fresh) r none b
      ≡ done tt (record (with_doubled b fresh) {
        thread_pool = update b.thread_pool worker b.size_boxes;
        server_boxes =
            update (doubled b fresh) b.size_boxes (claimed r (doubled b fresh b.size_boxes));
      })
unfolding claim_box grow
claim_box-grown b worker fresh r table ok req few =
    let pos = table.some_boxes in
    let some_boxes : ltb 0 b.size_boxes ≡ true = ground arith in
    let fits : ltb (2 * b.size_boxes) (2 ^ 31) ≡ true = ground arith in
    let table' = TableOk-with_doubled b fresh table ok in
    let lt : b.size_boxes < 2 * b.size_boxes = omega arith in
    let taken_one =
      claim-claimed
        (record b {
          server_boxes = doubled b fresh;
          thread_pool = update b.thread_pool worker b.size_boxes;
        })
        b.size_boxes r req (table'.names b.size_boxes lt) (table'.passwords b.size_boxes lt) in
    rw (some_boxes, fits, taken_one, ◌>>=◌)

-- The end of the claim, as an equation.
pub claim_box-Claimed :
    (b : Broker) (worker : ℕ) (realloc : Option (ℕ → Box)) (r : Request)
    → TableOk b
    → ReallocOk b realloc
    → IsBoxRequest r
    → (i : ℕ) × (c : Broker) × (claim_box worker realloc r (free_box b) b ≡ done tt c)
      × (i < c.size_boxes)
      × Claimed b worker realloc r i c
claim_box-Claimed b worker realloc r table memory req = elim (Option-cases (free_box b)) [
  | inr (i, e) ↦
      let found = first_index-some (is_unused b.server_boxes) 0 b.size_boxes e in
      let lt : i < b.size_boxes = omega (arith, found.1) in
      (
        i,
        _,
        ap (λ o. claim_box worker realloc r o b) e
            ∙ claim_box-free b worker realloc r i table req lt,
        lt,
        inl (e, refl),
      )
  | inl e ↦
      let (few, fresh, same, ok) = memory e in
      let pos = table.some_boxes in
      (
        b.size_boxes,
        _,
        ap (λ o. claim_box worker realloc r o b) e
            ∙ ap (λ m. claim_box worker m r none b) same
            ∙ claim_box-grown b worker fresh r table ok req few,
        (let le : b.size_boxes < 2 * b.size_boxes = omega arith in le),
        inr (e, refl, fresh, same, refl),
      )
]

pub Claimed-TableOk :
    (b : Broker) (worker : ℕ) (realloc : Option (ℕ → Box)) (r : Request) (i : ℕ) (c : Broker)
    → TableOk b
    → ReallocOk b realloc
    → IsBoxRequest r
    → find_box b r.box_name ≡ none
    → Claimed b worker realloc r i c
    → TableOk c
Claimed-TableOk b worker realloc r i c table memory named absent (inl (e, same)) =
    let lt = first_index-some (is_unused b.server_boxes) 0 b.size_boxes e in
    subst TableOk (sym same) (TableOk-claimed b i r table named (omega (arith, lt.1)) absent)
Claimed-TableOk b worker realloc r i c table memory named absent
      (inr (e, at_end, fresh, got, same)) =
    let (few, fresh', got', ok) = memory e in
    let one : fresh' ≡ fresh = ground (arith, got, got') in
    let ok' : FreshOk b fresh = subst (FreshOk b) one ok in
    let pos = table.some_boxes in
    subst TableOk (sym same) (
      TableOk-claimed (with_doubled b fresh) i r (TableOk-with_doubled b fresh table ok') named
        (omega arith) (find_box-with_doubled b fresh table ok' r.box_name named.named absent))

pub Claimed-fs :
    (b : Broker) (worker : ℕ) (realloc : Option (ℕ → Box)) (r : Request) (i : ℕ) (c : Broker)
    → Claimed b worker realloc r i c
    → (c.fs ≡ b.fs) × (c.thread_pool worker ≡ i) × (c.box_size_lock ≡ b.box_size_lock)
Claimed-fs b worker realloc r i c (inl (e, same)) = (
  ap (λ (x : Broker). x.fs) same,
  ap (λ (x : Broker). x.thread_pool worker) same ∙ update_self b.thread_pool worker i,
  ap (λ (x : Broker). x.box_size_lock) same,
)
Claimed-fs b worker realloc r i c (inr (e, at_end, fresh, got, same)) = (
  ap (λ (x : Broker). x.fs) same,
  ap (λ (x : Broker). x.thread_pool worker) same ∙ update_self b.thread_pool worker i,
  ap (λ (x : Broker). x.box_size_lock) same,
)

-- The file system after tfs_open and tfs_close, and the result of the first: the file that was there
-- as it was, or an empty one, and no handle more.
abbrev pub OpenedClosed : FsState → List ℕ → Option ℕ → FsState → Type 0
OpenedClosed s name fd t =
    (u : FsState) × Opened s fd u
    × FileOpened s name fd u
    × (((fd ≡ none) × (t ≡ u)) ⊎ ((h : ℕ) × (fd ≡ some h) × (t ≡ without_handle u h)))

-- The state in which the answer is sent: the file system's, and the box freed again if there is no file.
abbrev pub created : Broker → ℕ → Option ℕ → FsState → Broker
created c i (some fd) t = record c { fs = t }
created c i none t = record c {
  fs = t;
  server_boxes = update c.server_boxes i (record (c.server_boxes i) {
    free = 0;
    box_name = zeros max_box_name;
    box_password = zeros max_password;
  });
}

abbrev pub response_about : CharArray → Option ℕ → ResponseManager
response_about stack (some fd) = accepted 4
response_about stack none = refused 4 stack creation_failed

pub close_box-closed :
    (c : Broker) (s u : FsState) (name : List ℕ) (fd : Option ℕ)
    → Opened s fd u
    → FileOpened s name fd u
    → (t : FsState) × (close_box fd (record c { fs = u }) ≡ done tt (record c { fs = t }))
      × OpenedClosed s name fd t
      × IsWf t
unfolding close_box
close_box-closed c s u name none opened file =
    (u, refl, (u, opened, file, inl (refl, refl)), opened.0)
close_box-closed c s u name (some h) opened file =
    let (below, lt, unused, in_use, linked) = opened.1 h refl in
    let is_open_now : is_open u h ≡ true = ground (arith, lt, in_use) in
    (
      without_handle u h,
      rw (tfs_close_open u h is_open_now, ◌>>=◌),
      (u, opened, file, inr (h, refl, refl)),
      IsWf-without_handle u h opened.0,
    )
