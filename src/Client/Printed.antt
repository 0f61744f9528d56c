-- ===== src/Client/Printed.antt =====
-- What manager/manager.c prints for the response of mbroker/mbroker.c.
use project_so.Broker.Passwords.{
  PasswordPost, process_manager_unlock-PasswordPost, process_manager_lock-PasswordPost,
}
use project_so.Prelude.{
  ℕ, ◌<◌, ◌≡◌, refl, sym, ap, ◌∙◌, inl, inr, true, false, Option, none, some, List, [], ◌∷◌, ◌++◌,
  arith, ◌==◌, if◌then◌else◌, length,
}
use project_so.Memory.Bytes.{Memory, minus_one}
use project_so.Memory.Arrays.{CharArray, string_of, zeros, strcpy, string_of-strcpy}
use project_so.Broker.Types.{Broker, Pipe}
use project_so.Broker.Texts.{no_such_box, wrong_password_text}
use project_so.Wire.Pipeflow.{
  max_password, max_message, Request, RequestNewPassword, request, messages_pipe, response_manager,
  list_manager_response, list_manager_request, request_new_password,
}
use project_so.Wire.Reader.{reader_stc}
use project_so.Broker.Manager.{
  find_box, right_password, Tester, missing, wrong_password, found, accepted, refused,
  password_response, process_manager_unlock, process_manager_lock,
}
use project_so.Broker.Answer.{Returns, Returns-weaken, takes}
use project_so.Broker.Table.{TableOk}
use project_so.Broker.ChangePassword.{Changed, Changed-same}

-- "OK", or "ERROR" and a text.
pub data Printed : Type 0 where
  ok : Printed
  error : List ℕ → Printed

-- From the buffer that is read on; none where it is no response.
unfoldable pub manager_create_remove : Memory → Option Printed
manager_create_remove message = elim (reader_stc message) [
  | response_manager r ↦
      some (if r.return_code == minus_one then error (string_of r.error_message) else ok)
  | request r ↦ none
  | messages_pipe r ↦ none
  | list_manager_response r ↦ none
  | list_manager_request r ↦ none
  | request_new_password r ↦ none
]

-- A password is changed where the box has the name, and its password is the request's.
abbrev pub printed_for : Broker → Request → Option ℕ → Printed
printed_for b r none = error no_such_box
printed_for b r (some i) =
    if right_password b i r.box_password then ok else error wrong_password_text

abbrev pub password_printed : Broker → Request → Printed
password_printed b r = printed_for b r (find_box b r.box_name)

-- One buffer more was sent, for which the manager prints this.
abbrev pub Prints : Broker → CharArray → Printed → Broker → Type 0
Prints b pipe_name printed d =
    (m : Memory) × (d.sent ≡ b.sent ++ (pipe_name, m) ∷ [])
    × (manager_create_remove m ≡ some printed)

pub accepted_printed :
    (code : ℕ) (m : Memory)
    → reader_stc m ≡ response_manager (accepted code)
    → manager_create_remove m ≡ some ok
unfolding manager_create_remove
accepted_printed code m e = rw (manager_create_remove, e)

pub refused_printed :
    (code : ℕ) (stack : CharArray) (text : List ℕ) (m : Memory)
    → reader_stc m ≡ response_manager (refused code stack text)
    → manager_create_remove m ≡ some (error (string_of text))
unfolding manager_create_remove
refused_printed code stack text m e =
    rw (manager_create_remove, e) (ap (λ t. some (error t)) (string_of-strcpy stack text))

abbrev tester_printed : Tester → Printed
tester_printed found = ok
tester_printed missing = error no_such_box
tester_printed wrong_password = error wrong_password_text

password_response-printed :
    (code : ℕ) (stack : CharArray) (tester : Tester) (m : Memory)
    → reader_stc m ≡ response_manager (password_response code stack tester)
    → manager_create_remove m ≡ some (tester_printed tester)
unfolding string_of
password_response-printed code stack found m e = accepted_printed code m e
password_response-printed code stack missing m e = refused_printed code stack no_such_box m e
password_response-printed code stack wrong_password m e =
    refused_printed code stack wrong_password_text m e

tester-password_printed :
    (b : Broker) (worker : ℕ) (r : Request) (new : CharArray → CharArray) (tester : Tester)
    (c : Broker)
    → Changed b worker r.box_name r.box_password new tester c
    → tester_printed tester ≡ password_printed b r
tester-password_printed b worker r new tester c (inl (t, e, same)) =
    rw t (sym (ap (printed_for b r) e))
tester-password_printed b worker r new tester c (inr (i, e, inl (t, wrong, same))) =
    let branch : printed_for b r (some i) ≡ error wrong_password_text = rw wrong in
    rw t (sym (ap (printed_for b r) e ∙ branch))
tester-password_printed b worker r new tester c (inr (i, e, inr (t, right, same))) =
    let branch : printed_for b r (some i) ≡ ok = rw right in
    rw t (sym (ap (printed_for b r) e ∙ branch))

PasswordPost-Prints :
    (b : Broker) (worker : ℕ) (pipe : Pipe) (stack : CharArray) (r : Request)
    (new : CharArray → CharArray) (code : ℕ) (u : Unit {0}) (d : Broker)
    → takes pipe ≡ true
    → PasswordPost b worker pipe stack r new code u d
    → Prints b r.pipe_name (password_printed b r) d
PasswordPost-Prints b worker pipe stack r new code u d all
      (table, free_lock, same_fs, (tester, c, changed, inl (n, same))) =
    absurd (ground (arith, all, n))
PasswordPost-Prints b worker pipe stack r new code u d all
      (table, free_lock, same_fs, (tester, c, changed, inr (y, m, same, back))) =
    let sent =
      Changed-same b worker r.box_name r.box_password new tester c (λ x. x.sent) (λ t boxes. refl)
        changed in
    (
      m,
      ap (λ (x : Broker). x.sent) same ∙ ap (λ l. l ++ (r.pipe_name, m) ∷ []) sent,
      password_response-printed code stack tester m back
          ∙ ap some (tester-password_printed b worker r new tester c changed),
    )

-- With a well-formed table that is not locked, a text of the response of its full size, a pipe that takes
-- the response and, for a new password, one that fits, process_manager_unlock and process_manager_lock
-- end and send one buffer, for which the manager prints OK if a box has the name and the first one
-- with it has the request's password, and else the error for the one or the other.
pub password_handlers-Prints :
    (b : Broker) (worker : ℕ) (pipe : Pipe) (buffer : Memory) (stack : CharArray)
    (r : RequestNewPassword)
    → TableOk b
    → b.box_size_lock ≡ false
    → length stack ≡ max_message
    → takes pipe ≡ true
    → length (string_of r.new_password) < max_password
    → Returns
        (λ _ d. Prints b r.request_lock.pipe_name (password_printed b r.request_lock) d)
        (process_manager_unlock worker pipe buffer stack r.request_lock b)
      × Returns
          (λ _ d. Prints b r.request_lock.pipe_name (password_printed b r.request_lock) d)
          (process_manager_lock worker pipe buffer stack r b)
password_handlers-Prints b worker pipe buffer stack r table free_lock size all short =
    let post : Unit {0} → Broker → Type 0 =
      λ _ d. Prints b r.request_lock.pipe_name (password_printed b r.request_lock) d in
    (
      Returns-weaken post (process_manager_unlock worker pipe buffer stack r.request_lock b)
          (process_manager_unlock-PasswordPost b worker pipe buffer stack r.request_lock table
            free_lock size)
          (λ u d h.
            PasswordPost-Prints b worker pipe stack r.request_lock (λ _. zeros max_password) 12 u d
              all h),
      Returns-weaken post (process_manager_lock worker pipe buffer stack r b)
          (process_manager_lock-PasswordPost b worker pipe buffer stack r table free_lock size
            short)
          (λ u d h.
            PasswordPost-Prints b worker pipe stack r.request_lock
              (λ old. strcpy old r.new_password) 14 u d all h),
    )
