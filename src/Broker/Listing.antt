-- ===== src/Broker/Listing.antt =====
-- The handler that lists the boxes (mbroker/mbroker.c). `stack` is what the array `boxes_to_send` holds
-- before it is written.
use project_so.Prelude.{
  ℕ, zero, suc, ◌+◌, ◌-◌, ◌^◌, true, false, none, some, List, [], ◌∷◌, ltb, ◌==◌, if◌then◌else◌,
}
use project_so.Memory.Bytes.{Memory}
use project_so.Memory.Arrays.{CharArray, zeros, strcpy}
use project_so.Broker.Types.{
  Box, done, undefined, M, pure, not_defined, choose, ◌>>=◌, ◌>>◌, get, Pipe, lock, unlock,
  is_broken, write,
}
use project_so.Wire.Pipeflow.{
  max_box_name, ListManagerResponse, ListManagerRequest, list_manager_response,
}
use project_so.Wire.Writer.{writer_stc}

-- (uint64_t) of an int.
abbrev pub sign_extend : ℕ → ℕ
sign_extend v = if ltb v (2 ^ 31) then v else v + (2 ^ 64 - 2 ^ 32)

abbrev pub listed : Box → ListManagerResponse → ListManagerResponse
listed x old = record {
  code = 8;
  last = 0;
  box_name = strcpy old.box_name x.box_name;
  box_size = sign_extend x.box_size;
  n_pubs = x.n_pub;
  n_subs = x.n_subs;
  box_password = strcpy old.box_password x.box_password;
}

-- The loop over the boxes from `i` on, `left` of them, with `counter` boxes found.
unfoldable pub boxes_to_send :
    (ℕ → Box) → (ℕ → ListManagerResponse) → ℕ → ℕ → ℕ → List ListManagerResponse
boxes_to_send boxes stack i zero counter = []
boxes_to_send boxes stack i (suc left) counter = elim ((boxes i).free == 1) [
  | true ↦ listed (boxes i) (stack counter) ∷ boxes_to_send boxes stack (suc i) left (suc counter)
  | false ↦ boxes_to_send boxes stack (suc i) left counter
]

-- With no box, one response with an empty name.
abbrev pub or_empty : ListManagerResponse → List ListManagerResponse → List ListManagerResponse
or_empty old [] = record old { code = 8; box_name = zeros max_box_name } ∷ []
or_empty old (x ∷ xs) = x ∷ xs

-- `boxes_to_send[counter - 1].last = 1`
unfoldable pub mark_last : List ListManagerResponse → List ListManagerResponse
mark_last [] = []
mark_last (x ∷ []) = record x { last = 1 } ∷ []
mark_last (x ∷ y ∷ xs) = x ∷ mark_last (y ∷ xs)

-- The loop of writes, the `k`-th write first.
unfoldable pub send_list : CharArray → Pipe → Memory → ℕ → List ListManagerResponse → M (Unit {0})
send_list pipe_name pipe buffer k [] b = done tt b
send_list pipe_name pipe buffer k (x ∷ xs) b =
    elim (writer_stc (list_manager_response x) x.code buffer) [
      | none ↦ undefined
      | some written ↦ elim (is_broken (pipe.writes k)) [
        | true ↦ done tt b
        | false ↦
            (write pipe_name (pipe.writes k) written >> send_list pipe_name pipe buffer (suc k) xs)
              b
      ]
    ]

unfoldable pub process_manager_list :
    Pipe → Memory → (ℕ → ListManagerResponse) → ListManagerRequest → M (Unit {0})
process_manager_list pipe buffer stack r = do
  lock
  b ← get
  unlock
  choose (b.size_boxes == 0) not_defined (
      choose pipe.opens
        (send_list r.pipe_name pipe buffer 0
          (mark_last (or_empty (stack 0) (boxes_to_send b.server_boxes stack 0 b.size_boxes 0))))
        (pure tt))
