-- ===== src/Broker/RunTests.antt =====
-- Runs of the broker of mbroker/mbroker.c on a small state.
use project_so.Fs.Monad as Fs
use project_so.Memory.Arrays.{
  string_of-strcpy, length-strcpy, string_of, same_bytes, zeros, strcpy, length-zeros, IsArray,
}
use project_so.Broker.Sample.{
  one_box-TableOk, one_box-Ready, box_a, one_box, request_a, text, blank, new_boxes, name_a-IsArray,
  blank_response,
}
use project_so.Prelude.{
  ◌∷◌, length, false, [], ◌∙◌, sym, subst, none, ap, ◌≡◌, refl, true, some, arith,
}
use project_so.Broker.Answer.{Returns}
use project_so.Fs.Invariant.Sample.{opened_file, opened_file-IsWf, zeroed, small}
use project_so.Broker.PublishLoop.{publish_session-Ready, SessionDone}
use project_so.Broker.Publish.{
  publish_session, received, failed_read, Source, process_pub, publish_mode,
}
use project_so.Wire.Writer.{writer_stc_message, writer_stc_request, writer_stc}
use project_so.Wire.Pipeflow.{
  MessagesPipe, messages_pipe, max_pipe_name, max_line, max_password, max_message, Request, request,
}
use project_so.Wire.Reader.{reader_stc}
use project_so.Wire.Dispatch.{reader_stc-writer_stc}
use project_so.Fs.State.{data_block_get, clear_inumbers, inode_get}
use project_so.Memory.Bytes.{read_int, write_int, byte_of, Memory, store}
use project_so.Fs.Types.{update}
use project_so.Broker.Serving.{EnvironmentOk, Served, Reaches, no_task, one_task, Reaches-Ready}
use project_so.Fs.Invariant.Init.{mounted}
use project_so.Broker.Ready.{Ready}
use project_so.Broker.Tasks.{Task, unlock_box, process_manager, new_task, Environment, run_manager}
use project_so.Broker.Publishers.{TurnedAway, LetIn, with_publisher, process_pub_without_file}
use project_so.Fs.Operations.{tfs_open, tfs_lookup, valid_pathname, create_and_open}
use project_so.Fs.Directory.{find_in_dir}
use project_so.Memory.Scan.{first_index}
use project_so.Broker.Types.{Broker, done, partial, Pipe}
use project_so.Broker.Manager.{send, change_password, password_handler, process_manager_unlock}
use project_so.Broker.Dispatch.{new_task-writer_stc}

-- The pipe opens, and takes only a part of the response.
abbrev slow_pipe : Pipe
slow_pipe = record { opens = true; writes = λ _. partial }

abbrev slow_environment : Environment
slow_environment = record {
  fuel = 5;
  worker = 0;
  realloc = new_boxes;
  pipe = slow_pipe;
  buffer = blank;
  stack = text;
  list_stack = λ _. blank_response;
}

slow_environment-EnvironmentOk : EnvironmentOk slow_environment
slow_environment-EnvironmentOk = record {
  opens = refl;
  listens = refl;
  size = length-zeros max_message;
}

-- A manager's request to unlock the box, in the buffer that main reads.
abbrev unlock_a : Request
unlock_a = record request_a { code = 11 }

abbrev unlock_buffer : Memory
unlock_buffer = writer_stc_request unlock_a (store blank 0 max_line (λ _. 0))

unlock_task :
    new_task unlock_buffer
    ≡ record { function = some (process_manager unlock_box); argument = request unlock_a }
unfolding writer_stc
unlock_task =
    let all = new_task-writer_stc (request unlock_a) blank (
      refl,
      record {
        code_fits = omega arith;
        pipe_size = length-zeros max_pipe_name;
        box_size = name_a-IsArray.size;
        password_size = length-zeros max_password;
      },
    ) in
    ground (arith, all)

abbrev unlocked_box : Broker
unlocked_box = record one_box {
  thread_pool = update one_box.thread_pool 0 0;
  server_boxes = update one_box.server_boxes 0 (record box_a { box_password = zeros max_password });
}

unlock_run :
    run_manager slow_environment unlock_box (request unlock_a) one_box ≡ done tt unlocked_box
unfolding run_manager process_manager_unlock password_handler change_password send writer_stc
    first_index string_of same_bytes strcpy zeros
unlock_run = refl

-- The broker after the task.
one_task_run : Reaches one_box unlocked_box
one_task_run =
    one_task slow_environment unlock_buffer unlock_box (ap (λ (t : Task). t.function) unlock_task)
      slow_environment-EnvironmentOk
      (subst (Served one_box slow_environment unlock_box)
        (sym (ap (λ (t : Task). t.argument) unlock_task)) tt)
      (ap (λ (t : Task). run_manager slow_environment unlock_box t.argument one_box) unlock_task
        ∙ unlock_run)
      no_task

Reaches-Ready_example : Ready unlocked_box
Reaches-Ready_example = Reaches-Ready one_box unlocked_box one_box-Ready one_task_run

-- The box is in the table, and there is no file of its name.
abbrev no_file : Broker
no_file = record one_box { fs = mounted zeroed small }

not_opened :
    tfs_open 5 (some (string_of request_a.box_name)) publish_mode no_file.fs
    ≡ Fs.done none no_file.fs
unfolding string_of strcpy zeros tfs_open tfs_lookup valid_pathname find_in_dir inode_get
    create_and_open data_block_get first_index read_int clear_inumbers write_int store byte_of
not_opened = refl

abbrev publisher : Source
publisher = record { opens = true; reads = []; ended = λ k. false }

let_in : LetIn no_file request_a 0
unfolding first_index string_of same_bytes strcpy zeros
let_in = (refl, omega arith, refl)

process_pub_without_file_example :
    (process_pub 5 0 publisher request_a no_file
      ≡ done tt (record (with_publisher no_file 0 0) { box_size_lock = false }))
    × ((next : Request)
        → next.box_name ≡ request_a.box_name
        → TurnedAway (record (with_publisher no_file 0 0) { box_size_lock = false }) next)
process_pub_without_file_example =
    process_pub_without_file no_file 5 0 publisher request_a 0 no_file.fs refl refl let_in
      not_opened

-- "hi", in the buffer that a publisher writes.
abbrev hello : MessagesPipe
hello = record { code = 9; message = strcpy (zeros max_message) (104 ∷ 105 ∷ 0 ∷ []) }

abbrev hello_buffer : Memory
hello_buffer = writer_stc_message hello (store blank 0 max_line (λ _. 0))

hello_text : string_of hello.message ≡ 104 ∷ 105 ∷ []
unfolding string_of
hello_text = string_of-strcpy (zeros max_message) (104 ∷ 105 ∷ 0 ∷ [])

hello_size : length hello.message ≡ max_message
unfolding string_of
hello_size =
    length-strcpy (zeros max_message) (104 ∷ 105 ∷ 0 ∷ []) max_message (length-zeros max_message)
      (omega arith)

hello-IsArray : IsArray max_message hello.message
hello-IsArray = record { size = hello_size; terminated = rw hello_text (omega arith) }

hello_read : reader_stc hello_buffer ≡ messages_pipe hello
unfolding writer_stc
hello_read =
    let all = reader_stc-writer_stc (messages_pipe hello) blank (refl, hello_size) in
    ground (arith, all)

abbrev one_message : Source
one_message = record {
  opens = true;
  reads = failed_read ∷ received hello_buffer ∷ [];
  ended = λ k. false;
}

publish_session-Ready_example :
    Returns
      (SessionDone 2 0 one_message.ended)
      (publish_session 0 one_message (some 2) (record one_box { fs = opened_file }))
publish_session-Ready_example =
    publish_session-Ready (record one_box { fs = opened_file }) 0 2 0 one_message
      (one_box-TableOk, (opened_file-IsWf, refl, omega arith), refl, refl, omega arith, omega arith)
      (tt, ((hello, hello_read, hello-IsArray), tt))
