-- ===== src/Client/Requests.antt =====
-- How the clients' main functions make their first message of the command line (manager/manager.c,
-- publisher/pub.c, subscriber/sub.c). `argv` is the list of the arguments, each one an array; `stack`
-- is what the local request holds before it is written.
use project_so.Prelude.{ℕ, ◌-◌, ◌||◌, List, [], ◌∷◌, ltb, ◌==◌, if◌then◌else◌, length, get_or}
use project_so.Memory.Arrays.{CharArray, same_string, zeros, strcpy, strcat}
use project_so.Wire.Pipeflow.{
  max_box_name, max_password, Request, Message, request, list_manager_request, request_new_password,
}

-- `argv[i]` where it is there.
abbrev pub arg : List CharArray → ℕ → CharArray
arg argv i = get_or argv i []

-- "create", "remove", "unlock" and "lock".
abbrev pub create_word : CharArray
create_word = 99 ∷ 114 ∷ 101 ∷ 97 ∷ 116 ∷ 101 ∷ 0 ∷ []

abbrev pub remove_word : CharArray
remove_word = 114 ∷ 101 ∷ 109 ∷ 111 ∷ 118 ∷ 101 ∷ 0 ∷ []

abbrev pub unlock_word : CharArray
unlock_word = 117 ∷ 110 ∷ 108 ∷ 111 ∷ 99 ∷ 107 ∷ 0 ∷ []

abbrev pub lock_word : CharArray
lock_word = 108 ∷ 111 ∷ 99 ∷ 107 ∷ 0 ∷ []

-- `box_name_slash`
unfoldable pub box_name_slash : CharArray → CharArray
box_name_slash name = strcat (strcpy (zeros max_box_name) (47 ∷ 0 ∷ [])) name

-- A client's first message, or none where it ends before, or C does not define what it does.
pub data Start : Type 0 where
  sends : Message → Start
  usage : Start
  undefined : Start

-- The request of a publisher (code 1) and of a subscriber (code 2), with 4 or 5 arguments.
unfoldable pub session_request : ℕ → List CharArray → Request → Request
session_request code argv stack = record {
  code = code;
  pipe_name = strcpy stack.pipe_name (arg argv 2);
  box_name = strcpy stack.box_name (box_name_slash (arg argv 3));
  box_password =
      strcpy stack.box_password
        (if length argv == 4 then zeros max_password else arg argv (length argv - 1));
}

unfoldable pub session_main : ℕ → List CharArray → Request → Start
session_main code argv stack =
    if ltb (length argv) 4 then undefined else sends (request (session_request code argv stack))

-- The request of a manager, but for its code, with 5, 6 or 7 arguments.
unfoldable pub new_request : List CharArray → Request → Request
new_request argv stack = record stack {
  pipe_name = strcpy stack.pipe_name (arg argv 2);
  box_name = strcpy stack.box_name (box_name_slash (arg argv 4));
  box_password =
      if length argv == 5
      then strcpy stack.box_password (zeros max_password)
      else strcpy (zeros max_password) (arg argv 5);
}

-- The request for a new password. The password is the argument 5 if there are 6 arguments, and else
-- the argument 6, which is not there if there are 5.
unfoldable pub lock_request : List CharArray → CharArray → Request → Start
lock_request argv stack r =
    if length argv == 5
    then undefined
    else if length argv == 6
    then sends (
        request_new_password (record {
          request_lock = record r { code = 13; box_password = zeros max_password };
          new_password = strcpy stack r.box_password;
        }))
    else sends (
        request_new_password (record {
          request_lock = record r { code = 13 };
          new_password = strcpy stack (arg argv 6);
        }))

-- Without one of the four words the code is what it was.
unfoldable pub box_request : List CharArray → CharArray → Request → Start
box_request argv stack r =
    if same_string (arg argv 3) create_word
    then sends (request (record r { code = 3 }))
    else if same_string (arg argv 3) remove_word
    then sends (request (record r { code = 5 }))
    else if same_string (arg argv 3) unlock_word
    then sends (request (record r { code = 11 }))
    else if same_string (arg argv 3) lock_word
    then lock_request argv stack r
    else sends (request r)

-- main of manager/manager.c up to the first message.
unfoldable pub manager_main : List CharArray → CharArray → Request → CharArray → Start
manager_main argv stack request_stack list_stack =
    if length argv == 5 || length argv == 6 || length argv == 7
    then box_request argv stack (new_request argv request_stack)
    else if length argv == 4
    then sends (
        list_manager_request
          (record { code = 7; pipe_name = strcpy list_stack (arg argv (length argv - 2)) }))
    else usage

-- main of publisher/pub.c and of subscriber/sub.c up to the first message.
abbrev pub pub_main : List CharArray → Request → Start
pub_main = session_main 1

abbrev pub sub_main : List CharArray → Request → Start
sub_main = session_main 2
