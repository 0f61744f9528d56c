-- ===== src/Wire/Writer.antt =====
-- utils/writer_stc.c: a message laid out in a buffer of MAX_LINE bytes. A message of another type
-- than its code says is `none`: the cast of the pointer is then undefined.
use project_so.Prelude.{ℕ, ◌+◌, ◌||◌, Option, none, some, ◌==◌, if◌then◌else◌}
use project_so.Memory.Bytes.{Memory, store}
use project_so.Wire.Fields.{memcpy, to_bytes}
use project_so.Wire.Pipeflow.{
  max_pipe_name, max_box_name, max_line, max_password, max_message, Request, MessagesPipe,
  ResponseManager, ListManagerResponse, ListManagerRequest, RequestNewPassword, Message, request,
  messages_pipe, response_manager, list_manager_response, list_manager_request,
  request_new_password,
}

unfoldable pub writer_stc_request : Request → Memory → Memory
writer_stc_request r buffer =
    let b1 = memcpy buffer 0 1 (to_bytes 1 r.code) in
    let b2 = memcpy b1 1 max_pipe_name r.pipe_name in
    let b3 = memcpy b2 (1 + max_pipe_name) max_box_name r.box_name in
    memcpy b3 (1 + max_pipe_name + max_box_name) max_password r.box_password

unfoldable pub writer_stc_response_manager : ResponseManager → Memory → Memory
writer_stc_response_manager r buffer =
    let b1 = memcpy buffer 0 1 (to_bytes 1 r.code) in
    let b2 = memcpy b1 1 4 (to_bytes 4 r.return_code) in
    memcpy b2 (1 + 4) max_message r.error_message

unfoldable pub writer_stc_list_request : ListManagerRequest → Memory → Memory
writer_stc_list_request r buffer =
    let b1 = memcpy buffer 0 1 (to_bytes 1 r.code) in memcpy b1 1 max_pipe_name r.pipe_name

unfoldable pub writer_stc_list_response : ListManagerResponse → Memory → Memory
writer_stc_list_response r buffer =
    let b1 = memcpy buffer 0 1 (to_bytes 1 r.code) in
    let b2 = memcpy b1 1 1 (to_bytes 1 r.last) in
    let b3 = memcpy b2 2 max_box_name r.box_name in
    let b4 = memcpy b3 (2 + max_box_name) 8 (to_bytes 8 r.box_size) in
    let b5 = memcpy b4 (2 + max_box_name + 8) 8 (to_bytes 8 r.n_pubs) in
    let b6 = memcpy b5 (2 + max_box_name + 8 + 8) 8 (to_bytes 8 r.n_subs) in
    memcpy b6 (2 + max_box_name + 8 + 8 + 8) max_password r.box_password

unfoldable pub writer_stc_message : MessagesPipe → Memory → Memory
writer_stc_message r buffer =
    let b1 = memcpy buffer 0 1 (to_bytes 1 r.code) in memcpy b1 1 max_message r.message

unfoldable pub writer_stc_new_password : RequestNewPassword → Memory → Memory
writer_stc_new_password r buffer =
    memcpy (writer_stc_request r.request_lock buffer)
      (1 + max_pipe_name + max_box_name + max_password) max_password r.new_password

-- The casts of the switch.
abbrev pub as_response : Message → Memory → Option Memory
as_response (response_manager r) buffer = some (writer_stc_response_manager r buffer)
as_response _ buffer = none

abbrev pub as_list_request : Message → Memory → Option Memory
as_list_request (list_manager_request r) buffer = some (writer_stc_list_request r buffer)
as_list_request _ buffer = none

abbrev pub as_list_response : Message → Memory → Option Memory
as_list_response (list_manager_response r) buffer = some (writer_stc_list_response r buffer)
as_list_response _ buffer = none

abbrev pub as_message : Message → Memory → Option Memory
as_message (messages_pipe r) buffer = some (writer_stc_message r buffer)
as_message _ buffer = none

abbrev pub as_new_password : Message → Memory → Option Memory
as_new_password (request_new_password r) buffer = some (writer_stc_new_password r buffer)
as_new_password _ buffer = none

abbrev pub as_request : Message → Memory → Option Memory
as_request (request r) buffer = some (writer_stc_request r buffer)
as_request _ buffer = none

unfoldable pub writer_stc : Message → ℕ → Memory → Option Memory
writer_stc m code_pipe buffer =
    let cleared = store buffer 0 max_line (λ _. 0) in
    if code_pipe == 4 || code_pipe == 6 || code_pipe == 12 || code_pipe == 14
    then as_response m cleared
    else if code_pipe == 7
    then as_list_request m cleared
    else if code_pipe == 8
    then as_list_response m cleared
    else if code_pipe == 9 || code_pipe == 10
    then as_message m cleared
    else if code_pipe == 13
    then as_new_password m cleared
    else as_request m cleared
