-- ===== src/Client/Session.antt =====
-- From the command line of a publisher (publisher/pub.c) or a subscriber (subscriber/sub.c) to the task
-- of the broker (mbroker/mbroker.c).
use mathlib.Core.Option
use project_so.Wire.Dispatch.{is_request_code}
use project_so.Client.Managing.{box_name_slash-IsArray}
use project_so.Prelude.{
  ℕ, ◌+◌, ◌-◌, ◌^◌, ◌≤◌, ◌<◌, ◌≡◌, refl, sym, ap, ◌∙◌, inl, inr, true, false, some, List, [], ◌∷◌,
  arith, ltb, ◌==◌, Bool-cases, length, get_or_above,
}
use project_so.Memory.Bytes.{Memory}
use project_so.Memory.Arrays.{
  CharArray, string_of, zeros, IsArray, string_of-strcpy, string_of-zeros, length-strcpy,
  IsArray-strcpy,
}
use project_so.Wire.Pipeflow.{max_pipe_name, max_box_name, max_password, Request, request}
use project_so.Wire.Writer.{writer_stc}
use project_so.Wire.Roundtrip.{IsRequest}
use project_so.Broker.Tasks.{Handler, process_pub, process_sub, handler_of, new_task}
use project_so.Broker.Dispatch.{new_task-writer_stc}
use project_so.Client.Requests.{
  arg, box_name_slash, Start, sends, session_request, session_main, pub_main, sub_main,
}
use project_so.Broker.Table.{IsBoxRequest}

-- 4 or 5 arguments that fit into the request's arrays, with room for the slash and the ending 0.
abbrev pub SessionArgs : List CharArray → Type 0
SessionArgs argv = record {
  count : (4 ≤ length argv) × (length argv ≤ 5);
  pipe : length (string_of (arg argv 2)) < max_pipe_name;
  name : 1 + length (string_of (arg argv 3)) < max_box_name;
  password : length (string_of (arg argv 4)) < max_password;
}

-- The request has the arguments in its arrays: no password is an empty one.
pub record AsksSession (argv : List CharArray) (r : Request) : Type 0 where
  pub pipe : string_of r.pipe_name ≡ string_of (arg argv 2)
  pub name : string_of r.box_name ≡ 47 ∷ string_of (arg argv 3)
  pub password : string_of r.box_password ≡ string_of (arg argv 4)

-- What a client starts with, and what the broker makes of it.
abbrev pub StartsSession : ℕ → Handler → List CharArray → Start → Memory → Type 0
StartsSession code h argv start m =
    (r : Request) × (start ≡ sends (request r))
    × AsksSession argv r
    × IsBoxRequest r
    × (Option.map new_task (writer_stc (request r) r.code m)
        ≡ some (record { function = some h; argument = request r }))

module _ (argv : List CharArray) (stack : Request) (ok : SessionArgs argv)
    (sizes : IsRequest stack) where
  session_password :
      (code : ℕ)
      → (string_of (session_request code argv stack).box_password ≡ string_of (arg argv 4))
        × IsArray max_password (session_request code argv stack).box_password
  unfolding session_request string_of
  session_password code = elim (Bool-cases (length argv == 4)) [
    | inl four ↦
        let behind : string_of (arg argv 4) ≡ [] =
          ap string_of (get_or_above argv 4 [] (ground arith)) in
        let empty = string_of-zeros max_password in
        rw four (
          string_of-strcpy stack.box_password (zeros max_password) ∙ empty ∙ sym behind,
          IsArray-strcpy max_password stack.box_password (zeros max_password) sizes.password_size
              (rw empty (omega arith)),
        )
    | inr more ↦
        let (low, high) = ok.count in
        let last_one : length argv - 1 ≡ 4 = ground arith in
        rw (more, last_one)
          (
            string_of-strcpy stack.box_password (arg argv 4),
            IsArray-strcpy max_password stack.box_password (arg argv 4) sizes.password_size
                ok.password,
          )
  ]

  session_main-StartsSession :
      (code : ℕ) (h : Handler) (m : Memory)
      → code < 2 ^ 8
      → is_request_code code ≡ true
      → handler_of code ≡ some h
      → StartsSession code h argv (session_main code argv stack) m
  unfolding session_request session_main
  session_main-StartsSession code h m small code_ok function =
      let r = session_request code argv stack in
      let (low, high) = ok.count in
      let (name, name_array) = box_name_slash-IsArray (arg argv 3) ok.name in
      let (password, password_array) = session_password code in
      let enough : ltb (length argv) 4 ≡ false = ground arith in
      let named = string_of-strcpy stack.box_name (box_name_slash (arg argv 3)) ∙ name in
      let array =
        IsArray-strcpy max_box_name stack.box_name (box_name_slash (arg argv 3)) sizes.box_size
          name_array.terminated in
      let fits : IsRequest r = record {
        code_fits = small;
        pipe_size =
            length-strcpy stack.pipe_name (arg argv 2) max_pipe_name sizes.pipe_size ok.pipe;
        box_size = array.size;
        password_size = password_array.size;
      } in
      (
        r,
        rw enough,
        record {
          pipe = string_of-strcpy stack.pipe_name (arg argv 2);
          name = named;
          password = password;
        },
        record { name_array = array; password_array = password_array; named = λ e. cc },
        new_task-writer_stc (request r) m (code_ok, fits)
            ∙ ap (λ f. some (record { function = f; argument = request r })) function,
      )

  -- With 4 or 5 arguments that fit into the request's arrays, a publisher's first message is a request
  -- whose strings are the arguments, with a slash before the box's name and no password where none is
  -- given, and main of the broker makes of the buffer written for it a task with process_pub and the
  -- same request; and so is a subscriber's, with process_sub.
  pub main-StartsSession :
      (m : Memory)
      → StartsSession 1 process_pub argv (pub_main argv stack) m
        × StartsSession 2 process_sub argv (sub_main argv stack) m
  main-StartsSession m = (
    session_main-StartsSession 1 process_pub m (omega arith) refl refl,
    session_main-StartsSession 2 process_sub m (omega arith) refl refl,
  )
