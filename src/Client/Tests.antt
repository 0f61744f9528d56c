-- ===== src/Client/Tests.antt =====
-- The clients of manager/manager.c on small inputs.
use mathlib.Core.Option
use project_so.Wire.Pipeflow.{
  max_message, RequestNewPassword, max_pipe_name, max_password, Request, request,
}
use project_so.Client.Boxes.{RemovalPrinted, process_manager_remove-Printed}
use project_so.Client.Created.{CreationPrinted, process_manager_create-Printed}
use project_so.Broker.Create.{process_manager_create}
use project_so.Broker.Manager.{process_manager_remove, process_manager_unlock, process_manager_lock}
use project_so.Fs.Invariant.Sample.{with_file-IsWf, a_path, no_soft_link}
use project_so.Broker.Sample.{
  new_boxes, new_boxes-ReallocOk, named_a, text, one_box, request_a, good_pipe, blank,
  name_a-IsArray, one_box-TableOk, blank_response, one_box-IntsOk, blank_responses-StackOk,
  a_terminated, request_a-IsBoxRequest,
}
use project_so.Prelude.{◌<◌, length, ◌≡◌, refl, some, List, [], ◌∷◌, arith}
use project_so.Broker.Listing.{process_manager_list}
use project_so.Client.Managing.{ArgsOk, Asks, manager_main-new_task}
use project_so.Client.Shown.{process_manager_list-Shows, Listed}
use project_so.Client.Requests.{pub_main, sub_main, create_word, sends, manager_main}
use project_so.Client.Session.{SessionArgs, StartsSession, main-StartsSession}
use project_so.Broker.Tasks.{process_pub, process_sub, create, process_manager, new_task}
use project_so.Client.Printed.{password_printed, Prints, password_handlers-Prints}
use project_so.Memory.Arrays.{CharArray, string_of, zeros, length-zeros}
use project_so.Wire.Writer.{writer_stc}
use project_so.Broker.Answer.{Returns}
use project_so.Broker.Table.{IsBoxRequest}

process_manager_list-Shows_example :
    Returns
      (λ _ d. Listed one_box (zeros max_pipe_name) d)
      (process_manager_list good_pipe blank
        (λ _. blank_response)
        (record { code = 7; pipe_name = zeros max_pipe_name })
        one_box)
process_manager_list-Shows_example =
    process_manager_list-Shows one_box good_pipe blank (λ _. blank_response)
      (record { code = 7; pipe_name = zeros max_pipe_name }) one_box-TableOk refl one_box-IntsOk
      blank_responses-StackOk refl (λ k. refl)

-- manager /tmp/s p create a
abbrev command_line : List CharArray
command_line = (109 ∷ 0 ∷ []) ∷ (115 ∷ 0 ∷ []) ∷ (112 ∷ 0 ∷ []) ∷ create_word ∷ (97 ∷ 0 ∷ []) ∷ []

command_line-ArgsOk : ArgsOk command_line
unfolding string_of
command_line-ArgsOk = record {
  count = (omega arith, omega arith);
  pipe = omega arith;
  name = omega arith;
  password = omega arith;
}

manager_main-new_task_example :
    (r : Request) × (manager_main command_line (zeros max_password) request_a (zeros max_pipe_name)
      ≡ sends (request r))
    × IsBoxRequest r
    × Asks command_line r
    × (Option.map new_task (writer_stc (request r) r.code blank)
        ≡ some (record { function = some (process_manager create); argument = request r }))
manager_main-new_task_example =
    manager_main-new_task command_line (zeros max_password) request_a (zeros max_pipe_name)
      command_line-ArgsOk
      (record {
        code_fits = omega arith;
        pipe_size = length-zeros max_pipe_name;
        box_size = name_a-IsArray.size;
        password_size = length-zeros max_password;
      })
      create blank refl refl

-- pub /tmp/s p a x, with the password x
abbrev session_line : List CharArray
session_line =
    (112 ∷ 0 ∷ []) ∷ (115 ∷ 0 ∷ []) ∷ (112 ∷ 0 ∷ []) ∷ (97 ∷ 0 ∷ []) ∷ (120 ∷ 0 ∷ []) ∷ []

session_line-SessionArgs : SessionArgs session_line
unfolding string_of
session_line-SessionArgs = record {
  count = (omega arith, omega arith);
  pipe = omega arith;
  name = omega arith;
  password = omega arith;
}

main-StartsSession_example :
    StartsSession 1 process_pub session_line (pub_main session_line request_a) blank
    × StartsSession 2 process_sub session_line (sub_main session_line request_a) blank
main-StartsSession_example =
    main-StartsSession session_line request_a session_line-SessionArgs
      (record {
        code_fits = omega arith;
        pipe_size = length-zeros max_pipe_name;
        box_size = name_a-IsArray.size;
        password_size = length-zeros max_password;
      })
      blank

-- The new password is "ab".
abbrev lock_request_a : RequestNewPassword
lock_request_a = record { request_lock = request_a; new_password = 97 ∷ 98 ∷ 0 ∷ 0 ∷ 0 ∷ [] }

short_one : length (string_of lock_request_a.new_password) < max_password
unfolding string_of
short_one = omega arith

password_handlers-Prints_example :
    Returns
      (λ _ d. Prints one_box request_a.pipe_name (password_printed one_box request_a) d)
      (process_manager_unlock 0 good_pipe blank text request_a one_box)
    × Returns
        (λ _ d. Prints one_box request_a.pipe_name (password_printed one_box request_a) d)
        (process_manager_lock 0 good_pipe blank text lock_request_a one_box)
password_handlers-Prints_example =
    password_handlers-Prints one_box 0 good_pipe blank text lock_request_a one_box-TableOk refl
      (length-zeros max_message) refl short_one

process_manager_remove-Printed_example :
    Returns
      (λ _ d. RemovalPrinted one_box request_a (97 ∷ []) d)
      (process_manager_remove 0 good_pipe blank text request_a one_box)
process_manager_remove-Printed_example =
    process_manager_remove-Printed one_box 0 good_pipe blank text request_a 47 (97 ∷ []) refl refl
      refl (length-zeros max_message) one_box-TableOk with_file-IsWf named_a a_path a_terminated
      (λ absent. omega arith)

process_manager_create-Printed_example :
    Returns
      (λ _ d. CreationPrinted one_box request_a (97 ∷ []) d)
      (process_manager_create 5 0 new_boxes good_pipe blank text request_a one_box)
process_manager_create-Printed_example =
    process_manager_create-Printed one_box 5 0 new_boxes good_pipe blank text request_a 47 (97 ∷ [])
      one_box-TableOk new_boxes-ReallocOk request_a-IsBoxRequest with_file-IsWf refl refl refl
      (length-zeros max_message) named_a a_path no_soft_link
