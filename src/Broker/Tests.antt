-- ===== src/Broker/Tests.antt =====
-- The handlers of mbroker/mbroker.c on a small broker.

use project_so.Broker.Sample.{
  one_box-Ready, one_box, request_a, text, good_pipe, blank, new_boxes, named_a, one_box-TableOk,
  blank_response, a_terminated,
}
use project_so.Broker.Removal.{RemovalDone, process_manager_remove-RemovalDone}
use project_so.Broker.Passwords.{
  PasswordPost, process_manager_unlock-PasswordPost, process_manager_lock-PasswordPost,
}
use project_so.Broker.Serving.{EnvironmentOk, run_manager-Ready}
use project_so.Broker.Publishers.{process_pub-TurnedAway, process_pub-exited}
use project_so.Prelude.{◌<◌, ◌≡◌, refl, inr, true, false, some, [], ◌∷◌, arith, length}
use project_so.Memory.Scan.{first_index}
use project_so.Memory.Arrays.{string_of, same_bytes, zeros, strcpy, length-zeros}
use project_so.Broker.Types.{done, exited}
use project_so.Wire.Pipeflow.{max_password, max_message, Request, RequestNewPassword, request}
use project_so.Broker.Manager.{
  find_box, right_password, process_manager_unlock, process_manager_lock, process_manager_remove,
}
use project_so.Broker.Answer.{Returns}
use project_so.Broker.Publish.{Source, process_pub}
use project_so.Broker.Tasks.{remove, Environment, run_manager}
use project_so.Broker.Ready.{Ready}
use project_so.Fs.Invariant.Sample.{with_file-IsWf, a_path, no_soft_link}

process_manager_remove-RemovalDone_example :
    Returns
      (RemovalDone one_box 0 good_pipe text request_a (97 ∷ []))
      (process_manager_remove 0 good_pipe blank text request_a one_box)
process_manager_remove-RemovalDone_example =
    process_manager_remove-RemovalDone one_box 0 good_pipe blank text request_a refl refl refl
      (length-zeros max_message) 47 (97 ∷ []) one_box-TableOk with_file-IsWf named_a a_path
      a_terminated (λ absent. omega arith)

process_manager_unlock-PasswordPost_example :
    Returns
      (PasswordPost one_box 0 good_pipe text request_a (λ _. zeros max_password) 12)
      (process_manager_unlock 0 good_pipe blank text request_a one_box)
process_manager_unlock-PasswordPost_example =
    process_manager_unlock-PasswordPost one_box 0 good_pipe blank text request_a one_box-TableOk
      refl (length-zeros max_message)

-- The new password is "ab".
abbrev lock_a : RequestNewPassword
lock_a = record { request_lock = request_a; new_password = 97 ∷ 98 ∷ 0 ∷ 0 ∷ 0 ∷ [] }

short_password : length (string_of lock_a.new_password) < max_password
unfolding string_of
short_password = omega arith

process_manager_lock-PasswordPost_example :
    Returns
      (PasswordPost one_box 0 good_pipe text request_a (λ old. strcpy old lock_a.new_password) 14)
      (process_manager_lock 0 good_pipe blank text lock_a one_box)
process_manager_lock-PasswordPost_example =
    process_manager_lock-PasswordPost one_box 0 good_pipe blank text lock_a one_box-TableOk refl
      (length-zeros max_message) short_password

abbrev environment : Environment
environment = record {
  fuel = 5;
  worker = 0;
  realloc = new_boxes;
  pipe = good_pipe;
  buffer = blank;
  stack = text;
  list_stack = λ _. blank_response;
}

environment-EnvironmentOk : EnvironmentOk environment
environment-EnvironmentOk = record { opens = refl; listens = refl; size = length-zeros max_message }

run_manager-Ready_example :
    Returns (λ _ d. Ready d) (run_manager environment remove (request request_a) one_box)
run_manager-Ready_example =
    run_manager-Ready one_box environment remove (request request_a) one_box-Ready
      environment-EnvironmentOk
      ((47, 97 ∷ [], named_a, a_path, no_soft_link), a_terminated, λ absent. omega arith)

abbrev publisher : Source
publisher = record { opens = true; reads = []; ended = λ k. false }

abbrev no_publisher : Source
no_publisher = record { opens = false; reads = []; ended = λ k. false }

-- The box's password is empty, and the request's is "x".
abbrev wrong_request : Request
wrong_request = record request_a { box_password = 120 ∷ 0 ∷ 0 ∷ 0 ∷ 0 ∷ [] }

first_box : find_box one_box request_a.box_name ≡ some 0
unfolding first_index string_of same_bytes strcpy zeros
first_box = refl

wrong_one : right_password one_box 0 wrong_request.box_password ≡ false
unfolding string_of same_bytes strcpy zeros
wrong_one = refl

right_one : right_password one_box 0 request_a.box_password ≡ true
unfolding string_of same_bytes strcpy zeros
right_one = refl

process_pub-TurnedAway_example : process_pub 5 0 publisher wrong_request one_box ≡ done tt one_box
process_pub-TurnedAway_example =
    process_pub-TurnedAway one_box 5 0 publisher wrong_request refl refl
      (inr (0, first_box, inr wrong_one))

process_pub-exited_example : process_pub 5 0 no_publisher request_a one_box ≡ exited
process_pub-exited_example = process_pub-exited one_box 5 0 no_publisher request_a refl refl
