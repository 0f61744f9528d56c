-- ===== src/Broker/Passwords.antt =====
-- The handlers of mbroker/mbroker.c that unlock and lock a box, as a whole.
use project_so.Prelude.{ℕ, ◌<◌, ◌≡◌, refl, ◌∙◌, true, false, arith, length}
use project_so.Memory.Bytes.{Memory}
use project_so.Memory.Arrays.{
  CharArray, string_of, zeros, strcpy, IsArray, IsArray-strcpy, IsArray-zeros,
}
use project_so.Broker.Types.{Broker, Pipe}
use project_so.Wire.Pipeflow.{max_password, max_message, Request, RequestNewPassword}
use project_so.Wire.Dispatch.{is_response_code}
use project_so.Broker.Manager.{
  password_response, password_handler, process_manager_unlock, process_manager_lock,
}
use project_so.Broker.Answer.{Returns, Returns-weaken, Answered-same, takes}
use project_so.Broker.Table.{TableOk, TableOk-Answered}
use project_so.Broker.ChangePassword.{
  PasswordDone, password_handler-PasswordDone, Changed-TableOk, Changed-same,
}

abbrev pub PasswordPost :
    Broker
    → ℕ
    → Pipe
    → CharArray
    → Request
    → (CharArray → CharArray)
    → ℕ
    → Unit {0}
    → Broker
    → Type 0
PasswordPost b worker pipe stack r new code u d =
    TableOk d
    × (d.box_size_lock ≡ false)
    × (d.fs ≡ b.fs)
    × PasswordDone b worker pipe stack r new code u d

password_handler-PasswordPost :
    (b : Broker) (code worker : ℕ) (pipe : Pipe) (buffer : Memory) (stack : CharArray) (r : Request)
    (new : CharArray → CharArray)
    → is_response_code code ≡ true
    → length stack ≡ max_message
    → b.box_size_lock ≡ false
    → TableOk b
    → ((old : CharArray) → IsArray max_password old → IsArray max_password (new old))
    → Returns
        (PasswordPost b worker pipe stack r new code)
        (password_handler code worker pipe buffer stack r new b)
password_handler-PasswordPost b code worker pipe buffer stack r new ok size open_lock table array =
    Returns-weaken (PasswordPost b worker pipe stack r new code)
      (password_handler code worker pipe buffer stack r new b)
      (password_handler-PasswordDone b code worker pipe buffer stack r new ok size open_lock)
      (λ u d (tester, c, changed, answered).
        let response = password_response code stack tester in
        (
          TableOk-Answered c r.pipe_name (takes pipe) response d
              (Changed-TableOk b worker r.box_name r.box_password new tester c table array changed)
              answered,
          Answered-same (λ x. x.box_size_lock) c r.pipe_name (takes pipe) response d (λ m. refl)
                answered
              ∙ Changed-same b worker r.box_name r.box_password new tester c (λ x. x.box_size_lock)
                  (λ t boxes. refl) changed
              ∙ open_lock,
          Answered-same (λ x. x.fs) c r.pipe_name (takes pipe) response d (λ m. refl) answered
              ∙ Changed-same b worker r.box_name r.box_password new tester c (λ x. x.fs)
                  (λ t boxes. refl) changed,
          (tester, c, changed, answered),
        ))

-- With a table that is well-formed and not locked, and with a text of the response of its full size,
-- process_manager_unlock ends and leaves the table well-formed and not locked and the file system as
-- it was: if no box has the name, or its password is not the request's, no box changes, and else the
-- first box with the name has no password. The client's pipe gets the response for this or, where it
-- does not open or the write fails, nothing.
pub process_manager_unlock-PasswordPost :
    (b : Broker) (worker : ℕ) (pipe : Pipe) (buffer : Memory) (stack : CharArray) (r : Request)
    → TableOk b
    → b.box_size_lock ≡ false
    → length stack ≡ max_message
    → Returns
        (PasswordPost b worker pipe stack r (λ _. zeros max_password) 12)
        (process_manager_unlock worker pipe buffer stack r b)
unfolding process_manager_unlock
process_manager_unlock-PasswordPost b worker pipe buffer stack r table open_lock size =
    password_handler-PasswordPost b 12 worker pipe buffer stack r (λ _. zeros max_password) refl
      size open_lock table (λ old array. IsArray-zeros max_password (omega arith))

-- With a table that is well-formed and not locked, a text of the response of its full size and a new
-- password that fits, process_manager_lock ends and leaves the table well-formed and not locked and
-- the file system as it was: if no box has the name, or its password is not the request's, no box
-- changes, and else the first box with the name has the new password. The client's pipe gets the
-- response for this or, where it does not open or the write fails, nothing.
pub process_manager_lock-PasswordPost :
    (b : Broker) (worker : ℕ) (pipe : Pipe) (buffer : Memory) (stack : CharArray)
    (r : RequestNewPassword)
    → TableOk b
    → b.box_size_lock ≡ false
    → length stack ≡ max_message
    → length (string_of r.new_password) < max_password
    → Returns
        (PasswordPost b worker pipe stack r.request_lock (λ old. strcpy old r.new_password) 14)
        (process_manager_lock worker pipe buffer stack r b)
unfolding process_manager_lock
process_manager_lock-PasswordPost b worker pipe buffer stack r table open_lock size short =
    password_handler-PasswordPost b 14 worker pipe buffer stack r.request_lock
      (λ old. strcpy old r.new_password) refl size open_lock table
      (λ old array. IsArray-strcpy max_password old r.new_password array.size short)
