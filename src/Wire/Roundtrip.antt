-- ===== src/Wire/Roundtrip.antt =====
-- utils/reader_stc.c after utils/writer_stc.c, for each type of message.
use project_so.Prelude.{◌+◌, ◌^◌, ◌<◌, ◌≡◌, List, [], ◌∷◌, arith, length}
use project_so.Memory.Bytes.{Memory, load}
use project_so.Wire.Fields.{
  memcpy, to_bytes, from_bytes, Field, write_fields, load-field, load-number,
}
use project_so.Wire.Pipeflow.{
  max_pipe_name, max_box_name, max_password, max_message, Request, ResponseManager,
  ListManagerResponse,
}
use project_so.Wire.Writer.{writer_stc_request}
use project_so.Wire.Reader.{reader_stc_request}
use project_so.Wire.Reader.{reader_stc_response_manager}
use project_so.Wire.Reader.{reader_stc_new_password}
use project_so.Wire.Reader.{reader_stc_message}
use project_so.Wire.Reader.{reader_stc_list_response}
use project_so.Wire.Reader.{reader_stc_list_request}
use project_so.Wire.Writer.{writer_stc_response_manager}
use project_so.Wire.Writer.{writer_stc_new_password}
use project_so.Wire.Writer.{writer_stc_message}
use project_so.Wire.Writer.{writer_stc_list_response}
use project_so.Wire.Writer.{writer_stc_list_request}
use project_so.Wire.Pipeflow.{RequestNewPassword}
use project_so.Wire.Pipeflow.{MessagesPipe}
use project_so.Wire.Pipeflow.{ListManagerRequest}
use project_so.Prelude.{drop}

-- The arrays have their declared sizes and the numbers those of their types.
pub record IsRequest (r : Request) : Type 0 where
  pub code_fits : r.code < 2 ^ 8
  pub pipe_size : length r.pipe_name ≡ max_pipe_name
  pub box_size : length r.box_name ≡ max_box_name
  pub password_size : length r.box_password ≡ max_password

pub record IsResponse (r : ResponseManager) : Type 0 where
  pub code_fits : r.code < 2 ^ 8
  pub return_fits : r.return_code < 2 ^ 32
  pub message_size : length r.error_message ≡ max_message

pub record IsListResponse (r : ListManagerResponse) : Type 0 where
  pub code_fits : r.code < 2 ^ 8
  pub last_fits : r.last < 2 ^ 8
  pub name_size : length r.box_name ≡ max_box_name
  pub size_fits : r.box_size < 2 ^ 64
  pub pubs_fit : r.n_pubs < 2 ^ 64
  pub subs_fit : r.n_subs < 2 ^ 64
  pub password_size : length r.box_password ≡ max_password

pub request_roundtrip :
    (r : Request) (m : Memory)
    → IsRequest r
    → reader_stc_request (from_bytes (load (writer_stc_request r m) 0 1)) (writer_stc_request r m)
      ≡ r
unfolding reader_stc_request writer_stc_request write_fields
request_roundtrip r m v =
    let b1 = memcpy m 0 1 (to_bytes 1 r.code) in
    let b2 = memcpy b1 1 max_pipe_name r.pipe_name in
    let b3 = memcpy b2 (1 + max_pipe_name) max_box_name r.box_name in
    ground (
      arith,
      load-number m 0 1 r.code
          ((max_pipe_name, r.pipe_name)
            ∷ (max_box_name, r.box_name)
            ∷ (max_password, r.box_password)
            ∷ [])
          (omega arith),
      load-field b1 1 max_pipe_name r.pipe_name
          ((max_box_name, r.box_name) ∷ (max_password, r.box_password) ∷ []) v.pipe_size,
      load-field b2 (1 + max_pipe_name) max_box_name r.box_name
          ((max_password, r.box_password) ∷ []) v.box_size,
      load-field b3 (1 + max_pipe_name + max_box_name) max_password r.box_password []
          v.password_size,
    )

pub response_roundtrip :
    (r : ResponseManager) (m : Memory)
    → IsResponse r
    → reader_stc_response_manager
        (from_bytes (load (writer_stc_response_manager r m) 0 1))
        (writer_stc_response_manager r m)
      ≡ r
unfolding reader_stc_response_manager writer_stc_response_manager write_fields
response_roundtrip r m v =
    let b1 = memcpy m 0 1 (to_bytes 1 r.code) in
    let b2 = memcpy b1 1 4 (to_bytes 4 r.return_code) in
    ground (
      arith,
      load-number m 0 1 r.code ((4, to_bytes 4 r.return_code) ∷ (max_message, r.error_message) ∷ [])
          (omega arith),
      load-number b1 1 4 r.return_code ((max_message, r.error_message) ∷ []) (omega arith),
      load-field b2 (1 + 4) max_message r.error_message [] v.message_size,
    )

pub list_request_roundtrip :
    (r : ListManagerRequest) (m : Memory)
    → r.code < 2 ^ 8
    → length r.pipe_name ≡ max_pipe_name
    → reader_stc_list_request
        (from_bytes (load (writer_stc_list_request r m) 0 1))
        (writer_stc_list_request r m)
      ≡ r
unfolding reader_stc_list_request writer_stc_list_request write_fields
list_request_roundtrip r m c n = ground (
  arith,
  load-number m 0 1 r.code ((max_pipe_name, r.pipe_name) ∷ []) (omega arith),
  load-field (memcpy m 0 1 (to_bytes 1 r.code)) 1 max_pipe_name r.pipe_name [] n,
)

pub message_roundtrip :
    (r : MessagesPipe) (m : Memory)
    → r.code < 2 ^ 8
    → length r.message ≡ max_message
    → reader_stc_message (from_bytes (load (writer_stc_message r m) 0 1)) (writer_stc_message r m)
      ≡ r
unfolding reader_stc_message writer_stc_message write_fields
message_roundtrip r m c n = ground (
  arith,
  load-number m 0 1 r.code ((max_message, r.message) ∷ []) (omega arith),
  load-field (memcpy m 0 1 (to_bytes 1 r.code)) 1 max_message r.message [] n,
)

module _ (r : ListManagerResponse) (m : Memory) where
  abbrev list_fields : List Field
  list_fields =
      (1, to_bytes 1 r.code)
      ∷ (1, to_bytes 1 r.last)
      ∷ (max_box_name, r.box_name)
      ∷ (8, to_bytes 8 r.box_size)
      ∷ (8, to_bytes 8 r.n_pubs)
      ∷ (8, to_bytes 8 r.n_subs)
      ∷ (max_password, r.box_password)
      ∷ []

  pub list_response_roundtrip :
      IsListResponse r
      → reader_stc_list_response
          (from_bytes (load (writer_stc_list_response r m) 0 1))
          (writer_stc_list_response r m)
        ≡ r
  unfolding reader_stc_list_response writer_stc_list_response write_fields
  list_response_roundtrip v =
      let b1 = memcpy m 0 1 (to_bytes 1 r.code) in
      let b2 = memcpy b1 1 1 (to_bytes 1 r.last) in
      let b3 = memcpy b2 2 max_box_name r.box_name in
      let b4 = memcpy b3 (2 + max_box_name) 8 (to_bytes 8 r.box_size) in
      let b5 = memcpy b4 (2 + max_box_name + 8) 8 (to_bytes 8 r.n_pubs) in
      let b6 = memcpy b5 (2 + max_box_name + 8 + 8) 8 (to_bytes 8 r.n_subs) in
      ground (
        arith,
        load-number m 0 1 r.code (drop 1 list_fields) (omega arith),
        load-number b1 1 1 r.last (drop 2 list_fields) (omega arith),
        load-field b2 2 max_box_name r.box_name (drop 3 list_fields) v.name_size,
        load-number b3 (2 + max_box_name) 8 r.box_size (drop 4 list_fields) (omega arith),
        load-number b4 (2 + max_box_name + 8) 8 r.n_pubs (drop 5 list_fields) (omega arith),
        load-number b5 (2 + max_box_name + 8 + 8) 8 r.n_subs (drop 6 list_fields) (omega arith),
        load-field b6 (2 + max_box_name + 8 + 8 + 8) max_password r.box_password [] v.password_size,
      )

pub new_password_roundtrip :
    (r : RequestNewPassword) (m : Memory)
    → IsRequest r.request_lock
    → length r.new_password ≡ max_password
    → reader_stc_new_password
        (from_bytes (load (writer_stc_new_password r m) 0 1))
        (writer_stc_new_password r m)
      ≡ r
unfolding reader_stc_new_password reader_stc_request writer_stc_new_password writer_stc_request
    write_fields
new_password_roundtrip r m v n =
    let q = r.request_lock in
    let b1 = memcpy m 0 1 (to_bytes 1 q.code) in
    let b2 = memcpy b1 1 max_pipe_name q.pipe_name in
    let b3 = memcpy b2 (1 + max_pipe_name) max_box_name q.box_name in
    let b4 = memcpy b3 (1 + max_pipe_name + max_box_name) max_password q.box_password in
    ground (
      arith,
      load-number m 0 1 q.code
          ((max_pipe_name, q.pipe_name)
            ∷ (max_box_name, q.box_name)
            ∷ (max_password, q.box_password)
            ∷ (max_password, r.new_password)
            ∷ [])
          (omega arith),
      load-field b1 1 max_pipe_name q.pipe_name
          ((max_box_name, q.box_name)
            ∷ (max_password, q.box_password)
            ∷ (max_password, r.new_password)
            ∷ [])
          v.pipe_size,
      load-field b2 (1 + max_pipe_name) max_box_name q.box_name
          ((max_password, q.box_password) ∷ (max_password, r.new_password) ∷ []) v.box_size,
      load-field b3 (1 + max_pipe_name + max_box_name) max_password q.box_password
          ((max_password, r.new_password) ∷ []) v.password_size,
      load-field b4 (1 + max_pipe_name + max_box_name + max_password) max_password r.new_password []
          n,
    )
