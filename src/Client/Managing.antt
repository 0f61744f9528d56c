-- ===== src/Client/Managing.antt =====
-- From a manager's command line (manager/manager.c) to the task of the broker (mbroker/mbroker.c).
use mathlib.Core.Option
use project_so.Wire.Dispatch.{is_request_code}
use project_so.Prelude.{
  ℕ, ◌+◌, ◌^◌, ◌≤◌, ◌<◌, ◌≡◌, refl, sym, ap, ◌∙◌, inl, inr, Bool, true, false, ◌||◌, some, List, [],
  ◌∷◌, ◌++◌, arith, ◌==◌, Bool-cases, length, get_or_above,
}
use project_so.Memory.Bytes.{Memory}
use project_so.Memory.Arrays.{
  CharArray, string_of, same_bytes, zeros, strcpy, strcat, IsArray, string_of-strcpy,
  string_of-zeros, length-zeros, length-strcpy, string_of-strcat, length-strcat, IsArray-strcpy,
}
use project_so.Wire.Pipeflow.{max_pipe_name, max_box_name, max_password, Request, request}
use project_so.Wire.Writer.{writer_stc}
use project_so.Wire.Roundtrip.{IsRequest}
use project_so.Broker.Tasks.{
  ManagerHandler, create, remove, list, unlock_box, lock_box, process_manager, handler_of, new_task,
}
use project_so.Broker.Dispatch.{new_task-writer_stc}
use project_so.Client.Requests.{
  arg, create_word, remove_word, unlock_word, lock_word, box_name_slash, sends, new_request,
  box_request, manager_main,
}
use project_so.Broker.Table.{IsBoxRequest}

-- The command whose request the handler answers.
abbrev pub word : ManagerHandler → CharArray
word create = create_word
word remove = remove_word
word unlock_box = unlock_word
word lock_box = lock_word
word list = []

abbrev pub code_of_word : ManagerHandler → ℕ
code_of_word create = 3
code_of_word remove = 5
code_of_word unlock_box = 11
code_of_word lock_box = 13
code_of_word list = 7

abbrev pub names_box : ManagerHandler → Bool
names_box create = true
names_box remove = true
names_box unlock_box = true
names_box lock_box = false
names_box list = false

-- Arguments that fit into the request's arrays, with room for the slash and the ending 0.
abbrev pub ArgsOk : List CharArray → Type 0
ArgsOk argv = record {
  count : (5 ≤ length argv) × (length argv ≤ 7);
  pipe : length (string_of (arg argv 2)) < max_pipe_name;
  name : 1 + length (string_of (arg argv 4)) < max_box_name;
  password : length (string_of (arg argv 5)) < max_password;
}

-- The request has the arguments in its arrays: no password is an empty one.
pub record Asks (argv : List CharArray) (r : Request) : Type 0 where
  pub pipe : string_of r.pipe_name ≡ string_of (arg argv 2)
  pub name : string_of r.box_name ≡ 47 ∷ string_of (arg argv 4)
  pub password : string_of r.box_password ≡ string_of (arg argv 5)

pub box_name_slash-IsArray :
    (name : CharArray)
    → 1 + length (string_of name) < max_box_name
    → (string_of (box_name_slash name) ≡ 47 ∷ string_of name)
      × IsArray max_box_name (box_name_slash name)
unfolding box_name_slash string_of
box_name_slash-IsArray name short =
    let slash : CharArray = 47 ∷ 0 ∷ [] in
    let started = strcpy (zeros max_box_name) slash in
    let begins : string_of started ≡ 47 ∷ [] = string_of-strcpy (zeros max_box_name) slash in
    let size =
      length-strcpy (zeros max_box_name) slash max_box_name (length-zeros max_box_name)
        (omega arith) in
    let whole_name : string_of (strcat started name) ≡ 47 ∷ string_of name =
      string_of-strcat started name ∙ ap (λ x. x ++ string_of name) begins in
    (
      whole_name,
      record {
        size = length-strcat started name max_box_name size (rw begins (omega (arith, short)));
        terminated = rw whole_name (omega (arith, short));
      },
    )

module _ (argv : List CharArray) (stack : CharArray) (request_stack : Request)
    (list_stack : CharArray) (ok : ArgsOk argv) (sizes : IsRequest request_stack) where
  abbrev with_code : ℕ → Request
  with_code code = record (new_request argv request_stack) { code = code }

  manager_main-box_request :
      manager_main argv stack request_stack list_stack
      ≡ box_request argv stack (new_request argv request_stack)
  unfolding manager_main
  manager_main-box_request =
      let (low, high) = ok.count in
      let some_box : (length argv == 5 || length argv == 6 || length argv == 7) ≡ true =
        ground arith in
      rw some_box

  box_password-Asks :
      (code : ℕ)
      → (string_of (with_code code).box_password ≡ string_of (arg argv 5))
        × IsArray max_password (with_code code).box_password
  unfolding new_request string_of
  box_password-Asks code = elim (Bool-cases (length argv == 5)) [
    | inl five ↦
        let behind : string_of (arg argv 5) ≡ [] =
          ap string_of (get_or_above argv 5 [] (ground arith)) in
        let empty : string_of (strcpy request_stack.box_password (zeros max_password)) ≡ [] =
          string_of-strcpy request_stack.box_password (zeros max_password)
          ∙ string_of-zeros max_password in
        rw five (
          empty ∙ sym behind,
          IsArray-strcpy max_password request_stack.box_password (zeros max_password)
              sizes.password_size (rw (string_of-zeros max_password) (omega arith)),
        )
    | inr more ↦ rw more (
      string_of-strcpy (zeros max_password) (arg argv 5),
      IsArray-strcpy max_password (zeros max_password) (arg argv 5) (length-zeros max_password)
          ok.password,
    )
  ]

  box_name-Asks :
      (code : ℕ)
      → (string_of (with_code code).box_name ≡ 47 ∷ string_of (arg argv 4))
        × IsArray max_box_name (with_code code).box_name
  unfolding new_request
  box_name-Asks code =
      let (name, array) = box_name_slash-IsArray (arg argv 4) ok.name in
      (
        string_of-strcpy request_stack.box_name (box_name_slash (arg argv 4)) ∙ name,
        IsArray-strcpy max_box_name request_stack.box_name (box_name_slash (arg argv 4))
            sizes.box_size array.terminated,
      )

  with_code-Asks :
      (code : ℕ)
      → code < 2 ^ 8
      → IsRequest (with_code code) × IsBoxRequest (with_code code) × Asks argv (with_code code)
  unfolding new_request
  with_code-Asks code small =
      let (name, name_array) = box_name-Asks code in
      let (password, password_array) = box_password-Asks code in
      (
        record {
          code_fits = small;
          pipe_size =
              length-strcpy request_stack.pipe_name (arg argv 2) max_pipe_name sizes.pipe_size
                ok.pipe;
          box_size = name_array.size;
          password_size = password_array.size;
        },
        record { name_array = name_array; password_array = password_array; named = λ e. cc },
        record {
          pipe = string_of-strcpy request_stack.pipe_name (arg argv 2);
          name = name;
          password = password;
        },
      )

  box_request-sends :
      (h : ManagerHandler)
      → names_box h ≡ true
      → string_of (arg argv 3) ≡ string_of (word h)
      → box_request argv stack (new_request argv request_stack)
        ≡ sends (request (with_code (code_of_word h)))
  unfolding box_request string_of same_bytes
  box_request-sends create n e = rw e
  box_request-sends remove n e = rw e
  box_request-sends unlock_box n e = rw e
  box_request-sends lock_box n e = cc
  box_request-sends list n e = cc

  handler_lem :
      (h : ManagerHandler)
      → names_box h ≡ true
      → (handler_of (code_of_word h) ≡ some (process_manager h))
        × (is_request_code (code_of_word h) ≡ true)
        × (code_of_word h < 2 ^ 8)
  handler_lem create n = (refl, refl, omega arith)
  handler_lem remove n = (refl, refl, omega arith)
  handler_lem unlock_box n = (refl, refl, omega arith)
  handler_lem lock_box n = cc
  handler_lem list n = cc

  -- With 5 to 7 arguments that fit into the request's arrays, and `create`, `remove` or `unlock` as the
  -- third, a manager's first message is a request whose strings are the arguments, with a slash before
  -- the box's name and no password where none is given; and main of the broker makes of the buffer
  -- that the manager writes for it a task with the handler of this command and with the same request.
  pub manager_main-new_task :
      (h : ManagerHandler) (m : Memory)
      → names_box h ≡ true
      → string_of (arg argv 3) ≡ string_of (word h)
      → (r : Request) × (manager_main argv stack request_stack list_stack ≡ sends (request r))
        × IsBoxRequest r
        × Asks argv r
        × (Option.map new_task (writer_stc (request r) r.code m)
            ≡ some (record { function = some (process_manager h); argument = request r }))
  manager_main-new_task h m n e =
      let (function, code_ok, small) = handler_lem h n in
      let (is_request, box_request_ok, asks) = with_code-Asks (code_of_word h) small in
      let r = with_code (code_of_word h) in
      (
        r,
        manager_main-box_request ∙ box_request-sends h n e,
        box_request_ok,
        asks,
        new_task-writer_stc (request r) m (code_ok, is_request)
            ∙ ap (λ f. some (record { function = f; argument = request r })) function,
      )
