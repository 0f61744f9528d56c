-- ===== src/Wire/Dispatch.antt =====
-- `writer_stc` and `reader_stc` as a whole, over all types of messages.
use project_so.Prelude.{
  ℕ, ◌^◌, ◌≤◌, ◌<◌, ◌≡◌, ap, ◌∙◌, Bool, true, not, ◌||◌, some, List, [], ◌∷◌, ◌++◌, arith, ◌==◌,
  length,
}
use project_so.Memory.Bytes.{Memory, store, store_above, load}
use project_so.Wire.Fields.{
  to_bytes, from_bytes, Field, write_fields, total_size, write_fields_above, load-number,
}
use project_so.Wire.Pipeflow.{
  max_pipe_name, max_box_name, max_line, max_password, max_message, Request, ListManagerResponse,
  Message, request, messages_pipe, response_manager, list_manager_response, list_manager_request,
  request_new_password,
}
use project_so.Wire.Writer.{
  writer_stc_request, writer_stc_response_manager, writer_stc_list_request,
  writer_stc_list_response, writer_stc_message, writer_stc_new_password, writer_stc,
}
use project_so.Wire.Reader.{reader_stc}
use project_so.Wire.Roundtrip.{
  IsRequest, IsResponse, IsListResponse, request_roundtrip, response_roundtrip,
  list_request_roundtrip, message_roundtrip, list_response_roundtrip, new_password_roundtrip,
}
use mathlib.Core.Option

-- The codes that utils/writer_stc.c gives to one type of message; all others are requests.
abbrev pub is_response_code : ℕ → Bool
is_response_code c = c == 4 || c == 6 || c == 12 || c == 14

abbrev pub is_message_code : ℕ → Bool
is_message_code c = c == 9 || c == 10

abbrev pub is_request_code : ℕ → Bool
is_request_code c = not (is_response_code c || is_message_code c || c == 7 || c == 8 || c == 13)

abbrev pub code_of : Message → ℕ
code_of (request r) = r.code
code_of (messages_pipe r) = r.code
code_of (response_manager r) = r.code
code_of (list_manager_response r) = r.code
code_of (list_manager_request r) = r.code
code_of (request_new_password r) = r.request_lock.code

-- A message with a code of its type, and with fields of their sizes.
abbrev pub IsMessage : Message → Type 0
IsMessage (request r) = (is_request_code r.code ≡ true) × IsRequest r
IsMessage (messages_pipe r) = (is_message_code r.code ≡ true) × (length r.message ≡ max_message)
IsMessage (response_manager r) = (is_response_code r.code ≡ true) × IsResponse r
IsMessage (list_manager_response r) = (r.code ≡ 8) × IsListResponse r
IsMessage (list_manager_request r) = (r.code ≡ 7) × (length r.pipe_name ≡ max_pipe_name)
IsMessage (request_new_password r) =
    (r.request_lock.code ≡ 13) × IsRequest r.request_lock × (length r.new_password ≡ max_password)

-- The first byte is the code.
first_byte :
    (m : Memory) (c : ℕ) (fs : List Field)
    → c < 2 ^ 8
    → from_bytes (load (write_fields m 0 ((1, to_bytes 1 c) ∷ fs)) 0 1) ≡ c
first_byte m c fs h = load-number m 0 1 c fs (omega arith)

abbrev request_rest : Request → List Field
request_rest r =
    (max_pipe_name, r.pipe_name) ∷ (max_box_name, r.box_name) ∷ (max_password, r.box_password) ∷ []

abbrev list_response_rest : ListManagerResponse → List Field
list_response_rest r =
    (1, to_bytes 1 r.last)
    ∷ (max_box_name, r.box_name)
    ∷ (8, to_bytes 8 r.box_size)
    ∷ (8, to_bytes 8 r.n_pubs)
    ∷ (8, to_bytes 8 r.n_subs)
    ∷ (max_password, r.box_password)
    ∷ []

-- The fields of a message, in the order in which they lie in the buffer.
abbrev fields_of : Message → List Field
fields_of (request r) = (1, to_bytes 1 r.code) ∷ request_rest r
fields_of (messages_pipe r) = (1, to_bytes 1 r.code) ∷ (max_message, r.message) ∷ []
fields_of (response_manager r) =
    (1, to_bytes 1 r.code) ∷ (4, to_bytes 4 r.return_code) ∷ (max_message, r.error_message) ∷ []
fields_of (list_manager_response r) = (1, to_bytes 1 r.code) ∷ list_response_rest r
fields_of (list_manager_request r) = (1, to_bytes 1 r.code) ∷ (max_pipe_name, r.pipe_name) ∷ []
fields_of (request_new_password r) =
    (1, to_bytes 1 r.request_lock.code)
    ∷ (max_pipe_name, r.request_lock.pipe_name)
    ∷ (max_box_name, r.request_lock.box_name)
    ∷ (max_password, r.request_lock.box_password)
    ∷ (max_password, r.new_password)
    ∷ []

cleared : Memory → Memory
cleared m = store m 0 max_line (λ _. 0)

-- Each writer lays the fields of its type one behind the other.
writer_stc-fields :
    (msg : Message) (m : Memory)
    → IsMessage msg
    → writer_stc msg (code_of msg) m ≡ some (write_fields (cleared m) 0 (fields_of msg))
unfolding writer_stc write_fields cleared writer_stc_request writer_stc_message
    writer_stc_response_manager writer_stc_list_response writer_stc_list_request
    writer_stc_new_password
writer_stc-fields (request r) m v = ground arith
writer_stc-fields (messages_pipe r) m v = ground arith
writer_stc-fields (response_manager r) m v = ground arith
writer_stc-fields (list_manager_response r) m v = ground arith
writer_stc-fields (list_manager_request r) m v = ground arith
writer_stc-fields (request_new_password r) m v = ground arith

total_size-fields : (msg : Message) → total_size (fields_of msg) ≤ max_line
unfolding total_size
total_size-fields (request r) = omega arith
total_size-fields (messages_pipe r) = omega arith
total_size-fields (response_manager r) = omega arith
total_size-fields (list_manager_response r) = omega arith
total_size-fields (list_manager_request r) = omega arith
total_size-fields (request_new_password r) = omega arith

-- The switch of the reader goes to the reader of the message's type.
read_back :
    (msg : Message) (m : Memory)
    → IsMessage msg
    → reader_stc (write_fields m 0 (fields_of msg)) ≡ msg
unfolding reader_stc write_fields writer_stc_request writer_stc_message writer_stc_response_manager
    writer_stc_list_response writer_stc_list_request writer_stc_new_password
read_back (request r) m v =
    ground (arith, first_byte m r.code (request_rest r) v.1.code_fits, request_roundtrip r m v.1)
read_back (messages_pipe r) m v =
    let small : r.code < 2 ^ 8 = ground arith in
    ground (
      arith,
      first_byte m r.code ((max_message, r.message) ∷ []) small,
      message_roundtrip r m small v.1,
    )
read_back (response_manager r) m v = ground (
  arith,
  first_byte m r.code ((4, to_bytes 4 r.return_code) ∷ (max_message, r.error_message) ∷ [])
      v.1.code_fits,
  response_roundtrip r m v.1,
)
read_back (list_manager_response r) m v = ground (
  arith,
  first_byte m r.code (list_response_rest r) v.1.code_fits,
  list_response_roundtrip r m v.1,
)
read_back (list_manager_request r) m v =
    let small : r.code < 2 ^ 8 = omega arith in
    ground (
      arith,
      first_byte m r.code ((max_pipe_name, r.pipe_name) ∷ []) small,
      list_request_roundtrip r m small v.1,
    )
read_back (request_new_password r) m v = ground (
  arith,
  first_byte m r.request_lock.code
      (request_rest r.request_lock ++ (max_password, r.new_password) ∷ []) v.1.code_fits,
  new_password_roundtrip r m v.1 v.2,
)

-- A message with a code of its type, arrays of their declared sizes and numbers in the range of their
-- types is read back by `reader_stc` as `writer_stc` was given it, whatever the buffer held before.
pub reader_stc-writer_stc :
    (msg : Message) (m : Memory)
    → IsMessage msg
    → Option.map reader_stc (writer_stc msg (code_of msg) m) ≡ some msg
reader_stc-writer_stc msg m v =
    rw (writer_stc-fields msg m v) (ap some (read_back msg (cleared m) v))

-- `writer_stc` of a message with a code of its type and fields of their sizes and ranges changes no
-- byte at or behind MAX_LINE.
pub writer_stc_in_buffer :
    (msg : Message) (m : Memory) (x : ℕ)
    → IsMessage msg
    → max_line ≤ x
    → Option.map (λ (b : Memory). b x) (writer_stc msg (code_of msg) m) ≡ some (m x)
unfolding cleared
writer_stc_in_buffer msg m x v h = rw (writer_stc-fields msg m v) (
    ap some (
      write_fields_above (cleared m) 0 (fields_of msg) x (omega (arith, total_size-fields msg))
      ∙ store_above m 0 max_line (λ _. 0) x (omega arith)))
