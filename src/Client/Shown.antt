-- ===== src/Client/Shown.antt =====
-- A manager's listing from the broker's table (mbroker/mbroker.c) to the names that manager/manager.c
-- prints.
use project_so.Prelude.{
  if◌then◌else◌, ℕ, zero, suc, ◌+◌, ◌≤◌, ◌≡◌, refl, sym, ap, subst, ◌∙◌, inl, inr, true, false,
  List, [], ◌∷◌, ◌++◌, arith, ◌==◌, Bool-cases, All, ◌<◌, ltb, ◌-◌, ◌^◌,
}
use project_so.Memory.Bytes.{Memory}
use project_so.Memory.Arrays.{CharArray, zeros, string_of-strcpy}
use project_so.Broker.Types.{Box, Broker, Pipe}
use project_so.Wire.Pipeflow.{max_box_name, ListManagerResponse, ListManagerRequest}
use project_so.Broker.Listing.{
  boxes_to_send, or_empty, mark_last, process_manager_list, listed, sign_extend,
}
use project_so.Broker.Answer.{Returns, Returns-weaken}
use project_so.Broker.Table.{TableOk}
use project_so.Broker.ListSent.{Delivered, one_read, TakesAll, all_read}
use project_so.Broker.Responses.{
  IntsOk, StackOk, process_manager_list-ListSent, boxes_to_send_used, boxes_to_send_unused,
}
use project_so.Client.Listing.{
  manager_list, buffers, used_rows, rows_of, Shows, manager_list_last, Plain,
  manager_list-mark_last, row_of, row_of_box,
}

boxes_to_send-Plain :
    (b : Broker) (stack : ℕ → ListManagerResponse) (i left counter : ℕ)
    → TableOk b
    → i + left ≤ b.size_boxes
    → All Plain (boxes_to_send b.server_boxes stack i left counter)
unfolding boxes_to_send
boxes_to_send-Plain b stack i zero counter table le = tt
boxes_to_send-Plain b stack i (suc left) counter table le =
    elim (Bool-cases ((b.server_boxes i).free == 1)) [
      | inl used ↦
          let name_of = string_of-strcpy (stack counter).box_name (b.server_boxes i).box_name in
          let named = (table.used i (omega arith) (ground arith)).1 in
          subst (All Plain) (sym (boxes_to_send_used b.server_boxes stack i left counter used)) (
            (refl, λ empty. named (sym name_of ∙ empty)),
            boxes_to_send-Plain b stack (suc i) left (suc counter) table (omega arith),
          )
      | inr unused ↦
          subst (All Plain) (sym (boxes_to_send_unused b.server_boxes stack i left counter unused))
            (boxes_to_send-Plain b stack (suc i) left counter table (omega arith))
    ]

row_of-listed :
    (x : Box) (old : ListManagerResponse)
    → x.box_size < 2 ^ 32
    → row_of (listed x old) ≡ row_of_box x
row_of-listed x old int =
    let name = string_of-strcpy old.box_name x.box_name in
    let password = string_of-strcpy old.box_password x.box_password in
    let size : sign_extend x.box_size
        ≡ (if ltb x.box_size (2 ^ 31) then x.box_size else 2 ^ 64 - (2 ^ 32 - x.box_size)) =
      ground arith in
    rw (name, password, size)

-- The collected responses are the rows of the used boxes, in the order of the table.
rows_of-boxes_to_send :
    (b : Broker) (stack : ℕ → ListManagerResponse) (i left counter : ℕ)
    → IntsOk b
    → i + left ≤ b.size_boxes
    → rows_of (boxes_to_send b.server_boxes stack i left counter) ≡ used_rows b.server_boxes i left
unfolding boxes_to_send
rows_of-boxes_to_send b stack i zero counter ints le = refl
rows_of-boxes_to_send b stack i (suc left) counter ints le =
    elim (Bool-cases ((b.server_boxes i).free == 1)) [
      | inl used ↦
          let (pubs, subs, size) = ints i (omega arith) in
          let row = row_of-listed (b.server_boxes i) (stack counter) size in
          let rest = rows_of-boxes_to_send b stack (suc i) left (suc counter) ints (omega arith) in
          ap rows_of (boxes_to_send_used b.server_boxes stack i left counter used)
          ∙ rw (used, row, rest)
      | inr unused ↦
          let rest = rows_of-boxes_to_send b stack (suc i) left counter ints (omega arith) in
          ap rows_of (boxes_to_send_unused b.server_boxes stack i left counter unused)
          ∙ rw (unused, rest)
    ]

Delivered-pipe_name :
    {pipe_name : CharArray} {xs : List ListManagerResponse} {ms : List (CharArray × Memory)}
    → Delivered pipe_name xs ms
    → All (λ x. x.0 ≡ pipe_name) ms
Delivered-pipe_name all_read = tt
Delivered-pipe_name (one_read m e more) = (refl, Delivered-pipe_name more)

rows_of-mark_last : (xs : List ListManagerResponse) → rows_of (mark_last xs) ≡ rows_of xs
unfolding mark_last
rows_of-mark_last [] = refl
rows_of-mark_last (x ∷ []) = refl
rows_of-mark_last (x ∷ y ∷ xs) = ap (λ ns. row_of x ∷ ns) (rows_of-mark_last (y ∷ xs))

manager_list-Shows :
    (pipe_name : CharArray) (old : ListManagerResponse) (xs : List ListManagerResponse)
    (ms : List (CharArray × Memory))
    → All Plain xs
    → Delivered pipe_name (mark_last (or_empty old xs)) ms
    → Shows (rows_of xs) (manager_list (buffers ms))
unfolding mark_last zeros
manager_list-Shows pipe_name old [] ms tt (one_read {ms = rest} m e more) =
    manager_list_last m (buffers rest)
      (record old { code = 8; box_name = zeros max_box_name; last = 1 }) e refl
manager_list-Shows pipe_name old (x ∷ xs) ms plain delivered = (
  mark_last (x ∷ xs),
  manager_list-mark_last pipe_name x xs ms plain delivered,
  rows_of-mark_last (x ∷ xs),
)

-- What one listing does: only buffers for the client's pipe are sent, from which the manager gets the
-- rows of the used boxes.
abbrev pub Listed : Broker → CharArray → Broker → Type 0
Listed b pipe_name d =
    (ms : List (CharArray × Memory)) × (d ≡ record b { sent = b.sent ++ ms })
    × All (λ x. x.0 ≡ pipe_name) ms
    × Shows (used_rows b.server_boxes 0 b.size_boxes) (manager_list (buffers ms))

-- With a well-formed table that is not locked, boxes whose ints are 32 bits, an array of responses with
-- fields of their types' sizes, and a pipe that opens and takes all that is written,
-- process_manager_list ends and only puts buffers into the client's pipe, from which manager_list of
-- the manager gets the used boxes in the order of the table, each with its name, its size as 64 bits,
-- its numbers of publishers and subscribers and its password, or that there are none.
pub process_manager_list-Shows :
    (b : Broker) (pipe : Pipe) (buffer : Memory) (stack : ℕ → ListManagerResponse)
    (r : ListManagerRequest)
    → TableOk b
    → b.box_size_lock ≡ false
    → IntsOk b
    → StackOk stack
    → pipe.opens ≡ true
    → TakesAll pipe
    → Returns (λ _ d. Listed b r.pipe_name d) (process_manager_list pipe buffer stack r b)
process_manager_list-Shows b pipe buffer stack r table free_lock ints ok opens takes_all =
    let xs = boxes_to_send b.server_boxes stack 0 b.size_boxes 0 in
    Returns-weaken (λ _ d. Listed b r.pipe_name d) (process_manager_list pipe buffer stack r b)
      (process_manager_list-ListSent b pipe buffer stack r table free_lock ints ok opens takes_all)
      (λ u d (ms, delivered, same). (
        ms,
        same,
        Delivered-pipe_name delivered,
        subst (λ ns. Shows ns (manager_list (buffers ms)))
            (rows_of-boxes_to_send b stack 0 b.size_boxes 0 ints (omega arith))
            (manager_list-Shows r.pipe_name (stack 0) xs ms
              (boxes_to_send-Plain b stack 0 b.size_boxes 0 table (omega arith)) delivered),
      ))
