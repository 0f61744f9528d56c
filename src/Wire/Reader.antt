-- ===== src/Wire/Reader.antt =====
-- utils/reader_stc.c: the message that a buffer holds.
use project_so.Prelude.{ℕ, ◌+◌, ◌==◌, if◌then◌else◌}
use project_so.Memory.Bytes.{Memory, load}
use project_so.Wire.Fields.{from_bytes}
use project_so.Wire.Pipeflow.{
  max_pipe_name, max_box_name, max_password, max_message, Request, MessagesPipe, ResponseManager,
  ListManagerResponse, ListManagerRequest, RequestNewPassword, Message, request, messages_pipe,
  response_manager, list_manager_response, list_manager_request, request_new_password,
}

unfoldable pub reader_stc_request : ℕ → Memory → Request
reader_stc_request code_pipe buffer = record {
  code = code_pipe;
  pipe_name = load buffer 1 max_pipe_name;
  box_name = load buffer (1 + max_pipe_name) max_box_name;
  box_password = load buffer (1 + max_pipe_name + max_box_name) max_password;
}

unfoldable pub reader_stc_response_manager : ℕ → Memory → ResponseManager
reader_stc_response_manager code_pipe buffer = record {
  code = code_pipe;
  return_code = from_bytes (load buffer 1 4);
  error_message = load buffer (1 + 4) max_message;
}

unfoldable pub reader_stc_list_response : ℕ → Memory → ListManagerResponse
reader_stc_list_response code_pipe buffer = record {
  code = code_pipe;
  last = from_bytes (load buffer 1 1);
  box_name = load buffer 2 max_box_name;
  box_size = from_bytes (load buffer (2 + max_box_name) 8);
  n_pubs = from_bytes (load buffer (2 + max_box_name + 8) 8);
  n_subs = from_bytes (load buffer (2 + max_box_name + 8 + 8) 8);
  box_password = load buffer (2 + max_box_name + 8 + 8 + 8) max_password;
}

unfoldable pub reader_stc_list_request : ℕ → Memory → ListManagerRequest
reader_stc_list_request code_pipe buffer = record {
  code = code_pipe;
  pipe_name = load buffer 1 max_pipe_name;
}

unfoldable pub reader_stc_message : ℕ → Memory → MessagesPipe
reader_stc_message code_pipe buffer = record {
  code = code_pipe;
  message = load buffer 1 max_message;
}

unfoldable pub reader_stc_new_password : ℕ → Memory → RequestNewPassword
reader_stc_new_password code_pipe buffer = record {
  request_lock = reader_stc_request code_pipe buffer;
  new_password = load buffer (1 + max_pipe_name + max_box_name + max_password) max_password;
}

unfoldable pub reader_stc : Memory → Message
reader_stc buffer =
    let code_pipe = from_bytes (load buffer 0 1) in
    if code_pipe == 4
    then response_manager (reader_stc_response_manager code_pipe buffer)
    else if code_pipe == 6
    then response_manager (reader_stc_response_manager code_pipe buffer)
    else if code_pipe == 7
    then list_manager_request (reader_stc_list_request code_pipe buffer)
    else if code_pipe == 8
    then list_manager_response (reader_stc_list_response code_pipe buffer)
    else if code_pipe == 9
    then messages_pipe (reader_stc_message code_pipe buffer)
    else if code_pipe == 10
    then messages_pipe (reader_stc_message code_pipe buffer)
    else if code_pipe == 12
    then response_manager (reader_stc_response_manager code_pipe buffer)
    else if code_pipe == 13
    then request_new_password (reader_stc_new_password code_pipe buffer)
    else if code_pipe == 14
    then response_manager (reader_stc_response_manager code_pipe buffer)
    else request (reader_stc_request code_pipe buffer)
