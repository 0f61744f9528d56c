-- ===== src/Broker/Responses.antt =====
-- The responses that process_manager_list of mbroker/mbroker.c makes of the boxes.
use project_so.Prelude.{
  ℕ, zero, suc, ◌+◌, ◌^◌, ◌≤◌, ◌<◌, ◌≡◌, refl, sym, ap, subst, ◌∙◌, inl, inr, true, false, List, [],
  ◌∷◌, arith, ◌==◌, Bool-cases, All,
}
use project_so.Memory.Bytes.{Memory}
use project_so.Memory.Arrays.{length-zeros, length-strcpy}
use project_so.Broker.Types.{Box, Broker, Pipe}
use project_so.Wire.Pipeflow.{
  max_box_name, max_password, ListManagerResponse, ListManagerRequest, list_manager_response,
}
use project_so.Wire.Roundtrip.{IsListResponse}
use project_so.Wire.Dispatch.{IsMessage}
use project_so.Broker.Listing.{
  listed, boxes_to_send, or_empty, mark_last, send_list, process_manager_list,
}
use project_so.Broker.Answer.{Returns, unlocked_again}
use project_so.Broker.Table.{TableOk}
use project_so.Broker.ListSent.{ListSent, TakesAll, send_list-ListSent}

-- The ints of the boxes, and the array of responses before it is written.
abbrev pub IntsOk : Broker → Type 0
IntsOk b =
    (i : ℕ)
    → i < b.size_boxes
    → ((b.server_boxes i).n_pub < 2 ^ 32)
      × ((b.server_boxes i).n_subs < 2 ^ 32)
      × ((b.server_boxes i).box_size < 2 ^ 32)

abbrev pub StackOk : (ℕ → ListManagerResponse) → Type 0
StackOk stack = (k : ℕ) → IsListResponse (stack k)

abbrev pub responses : Broker → (ℕ → ListManagerResponse) → List ListManagerResponse
responses b stack =
    mark_last (or_empty (stack 0) (boxes_to_send b.server_boxes stack 0 b.size_boxes 0))

-- A response that writer_stc writes as it is.
abbrev pub IsResponse : ListManagerResponse → Type 0
IsResponse x = IsMessage (list_manager_response x)

listed-IsResponse :
    (b : Broker) (i : ℕ) (old : ListManagerResponse)
    → TableOk b
    → IntsOk b
    → i < b.size_boxes
    → IsListResponse old
    → IsResponse (listed (b.server_boxes i) old)
listed-IsResponse b i old table ints lt ok =
    let (pubs, subs, size) = ints i lt in
    let name =
      length-strcpy old.box_name (b.server_boxes i).box_name max_box_name ok.name_size
        (table.names i lt).terminated in
    let password =
      length-strcpy old.box_password (b.server_boxes i).box_password max_password ok.password_size
        (table.passwords i lt).terminated in
    (
      refl,
      record {
        code_fits = omega arith;
        last_fits = omega arith;
        name_size = name;
        size_fits = ground (arith, size);
        pubs_fit = omega (arith, pubs);
        subs_fit = omega (arith, subs);
        password_size = password;
      },
    )

pub boxes_to_send_used :
    (boxes : ℕ → Box) (stack : ℕ → ListManagerResponse) (i left counter : ℕ)
    → ((boxes i).free == 1) ≡ true
    → boxes_to_send boxes stack i (suc left) counter
      ≡ listed (boxes i) (stack counter) ∷ boxes_to_send boxes stack (suc i) left (suc counter)
unfolding boxes_to_send
boxes_to_send_used boxes stack i left counter e = rw (boxes_to_send, e)

pub boxes_to_send_unused :
    (boxes : ℕ → Box) (stack : ℕ → ListManagerResponse) (i left counter : ℕ)
    → ((boxes i).free == 1) ≡ false
    → boxes_to_send boxes stack i (suc left) counter
      ≡ boxes_to_send boxes stack (suc i) left counter
unfolding boxes_to_send
boxes_to_send_unused boxes stack i left counter e = rw (boxes_to_send, e)

boxes_to_send-IsResponse :
    (b : Broker) (stack : ℕ → ListManagerResponse) (i left counter : ℕ)
    → TableOk b
    → IntsOk b
    → StackOk stack
    → i + left ≤ b.size_boxes
    → All IsResponse (boxes_to_send b.server_boxes stack i left counter)
unfolding boxes_to_send
boxes_to_send-IsResponse b stack i zero counter table ints ok le = tt
boxes_to_send-IsResponse b stack i (suc left) counter table ints ok le =
    elim (Bool-cases ((b.server_boxes i).free == 1)) [
      | inl used ↦
          subst (All IsResponse) (sym (boxes_to_send_used b.server_boxes stack i left counter used))
            (
              listed-IsResponse b i (stack counter) table ints (omega arith) (ok counter),
              boxes_to_send-IsResponse b stack (suc i) left (suc counter) table ints ok
                  (omega arith),
            )
      | inr unused ↦
          subst (All IsResponse)
            (sym (boxes_to_send_unused b.server_boxes stack i left counter unused))
            (boxes_to_send-IsResponse b stack (suc i) left counter table ints ok (omega arith))
    ]

or_empty-IsResponse :
    (old : ListManagerResponse) (xs : List ListManagerResponse)
    → IsListResponse old
    → All IsResponse xs
    → All IsResponse (or_empty old xs)
or_empty-IsResponse old [] ok tt = (
  (
    refl,
    record {
      code_fits = omega arith;
      last_fits = ok.last_fits;
      name_size = length-zeros max_box_name;
      size_fits = ok.size_fits;
      pubs_fit = ok.pubs_fit;
      subs_fit = ok.subs_fit;
      password_size = ok.password_size;
    },
  ),
  tt,
)
or_empty-IsResponse old (x ∷ xs) ok all = all

mark_last-IsResponse :
    (xs : List ListManagerResponse) → All IsResponse xs → All IsResponse (mark_last xs)
unfolding mark_last
mark_last-IsResponse [] all = tt
mark_last-IsResponse (x ∷ []) ((code, one), all) = (
  (
    code,
    record {
      code_fits = one.code_fits;
      last_fits = omega arith;
      name_size = one.name_size;
      size_fits = one.size_fits;
      pubs_fit = one.pubs_fit;
      subs_fit = one.subs_fit;
      password_size = one.password_size;
    },
  ),
  tt,
)
mark_last-IsResponse (x ∷ y ∷ xs) (one, all) = (one, mark_last-IsResponse (y ∷ xs) all)

responses-IsResponse :
    (b : Broker) (stack : ℕ → ListManagerResponse)
    → TableOk b
    → IntsOk b
    → StackOk stack
    → All IsResponse (responses b stack)
responses-IsResponse b stack table ints ok =
    mark_last-IsResponse (or_empty (stack 0) (boxes_to_send b.server_boxes stack 0 b.size_boxes 0))
      (or_empty-IsResponse (stack 0) (boxes_to_send b.server_boxes stack 0 b.size_boxes 0) (ok 0)
        (boxes_to_send-IsResponse b stack 0 b.size_boxes 0 table ints ok (omega arith)))

process_manager_list-run :
    (b : Broker) (pipe : Pipe) (buffer : Memory) (stack : ℕ → ListManagerResponse)
    (r : ListManagerRequest)
    → b.box_size_lock ≡ false
    → 0 < b.size_boxes
    → pipe.opens ≡ true
    → process_manager_list pipe buffer stack r b
      ≡ send_list r.pipe_name pipe buffer 0 (responses b stack) (record b { box_size_lock = false })
unfolding process_manager_list
process_manager_list-run b pipe buffer stack r free_lock pos opens =
    let some_boxes : (b.size_boxes == 0) ≡ false = ground arith in rw (free_lock, some_boxes, opens)

-- With a well-formed table that is not locked, boxes whose ints are 32 bits, an array of responses with
-- fields of their types' sizes, and a pipe that opens and takes all that is written,
-- process_manager_list ends, and nothing has changed but that the responses are in the client's pipe,
-- each in a buffer that `reader_stc` reads as it.
pub process_manager_list-ListSent :
    (b : Broker) (pipe : Pipe) (buffer : Memory) (stack : ℕ → ListManagerResponse)
    (r : ListManagerRequest)
    → TableOk b
    → b.box_size_lock ≡ false
    → IntsOk b
    → StackOk stack
    → pipe.opens ≡ true
    → TakesAll pipe
    → Returns
        (ListSent b r.pipe_name (responses b stack))
        (process_manager_list pipe buffer stack r b)
process_manager_list-ListSent b pipe buffer stack r table free_lock ints ok opens takes_all =
    subst (Returns (ListSent b r.pipe_name (responses b stack)))
      (sym (
        process_manager_list-run b pipe buffer stack r free_lock table.some_boxes opens
        ∙ ap (send_list r.pipe_name pipe buffer 0 (responses b stack))
            (unlocked_again b free_lock)))
      (send_list-ListSent r.pipe_name pipe buffer 0 (responses b stack) b takes_all
        (responses-IsResponse b stack table ints ok))
