-- ===== src/Wire/Pipeflow.antt =====
-- utils/pipeflow.h: the messages and the sizes of their fields. A char array is the list of all its
-- bytes, an int32_t its bit pattern.
use project_so.Prelude.{ℕ, List}

abbrev pub max_pipe_name : ℕ
max_pipe_name = 256

abbrev pub max_box_name : ℕ
max_box_name = 32

abbrev pub max_line : ℕ
max_line = 1029

abbrev pub max_password : ℕ
max_password = 5

abbrev pub max_message : ℕ
max_message = 1024

pub record Request : Type 0 where
  pub code : ℕ
  pub pipe_name : List ℕ
  pub box_name : List ℕ
  pub box_password : List ℕ

pub record MessagesPipe : Type 0 where
  pub code : ℕ
  pub message : List ℕ

pub record ResponseManager : Type 0 where
  pub code : ℕ
  pub return_code : ℕ
  pub error_message : List ℕ

pub record ListManagerResponse : Type 0 where
  pub code : ℕ
  pub last : ℕ
  pub box_name : List ℕ
  pub box_size : ℕ
  pub n_pubs : ℕ
  pub n_subs : ℕ
  pub box_password : List ℕ

pub record ListManagerRequest : Type 0 where
  pub code : ℕ
  pub pipe_name : List ℕ

pub record RequestNewPassword : Type 0 where
  pub request_lock : Request
  pub new_password : List ℕ

-- What a `void *` message points to.
pub data Message : Type 0 where
  request : Request → Message
  messages_pipe : MessagesPipe → Message
  response_manager : ResponseManager → Message
  list_manager_response : ListManagerResponse → Message
  list_manager_request : ListManagerRequest → Message
  request_new_password : RequestNewPassword → Message
