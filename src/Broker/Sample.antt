-- ===== src/Broker/Sample.antt =====
-- A small broker with one box, for the tests of the handlers of mbroker/mbroker.c.
use project_so.Broker.Ready.{Ready}
use project_so.Fs.Invariant.Sample.{with_file-IsWf, with_file}
use project_so.Prelude.{
  ℕ, ◌≡◌, refl, sym, ◌∙◌, inl, inr, true, false, Option, some, [], ◌∷◌, arith, ◌==◌, if◌then◌else◌,
  Bool-cases, ◌<◌, length,
}
use project_so.Memory.Bytes.{Memory}
use project_so.Memory.Arrays.{
  CharArray, string_of, zeros, strcpy, IsArray, string_of-strcpy, string_of-zeros, length-zeros,
  IsArray-strcpy, IsArray-zeros,
}
use project_so.Broker.Types.{Box, Broker, whole, Pipe}
use project_so.Wire.Pipeflow.{
  max_pipe_name, max_box_name, max_password, max_message, Request, ListManagerResponse,
}
use project_so.Broker.Answer.{locked}
use project_so.Broker.Table.{TableOk, IsBoxRequest}
use project_so.Broker.ClaimSteps.{ReallocOk}
use project_so.Broker.Responses.{IntsOk, StackOk}

-- "/a"
abbrev pub name_a : CharArray
name_a = 47 ∷ 97 ∷ 0 ∷ []

abbrev pub box_a : Box
box_a = record {
  box_name = strcpy (zeros max_box_name) name_a;
  n_pub = 0;
  n_subs = 0;
  free = 1;
  box_size = 0;
  box_password = zeros max_password;
}

abbrev pub free_one : Box
free_one = record {
  box_name = zeros max_box_name;
  n_pub = 0;
  n_subs = 0;
  free = 0;
  box_size = 0;
  box_password = zeros max_password;
}

abbrev pub one_box : Broker
one_box = record {
  fs = with_file;
  server_boxes = λ i. if i == 0 then box_a else free_one;
  size_boxes = 2;
  thread_pool = λ _. 0;
  box_size_lock = false;
  sent = [];
}

abbrev pub request_a : Request
request_a = record {
  code = 3;
  pipe_name = zeros max_pipe_name;
  box_name = strcpy (zeros max_box_name) name_a;
  box_password = zeros max_password;
}

abbrev pub text : CharArray
text = zeros max_message

abbrev pub good_pipe : Pipe
good_pipe = record { opens = true; writes = λ _. whole }

abbrev pub blank : Memory
blank = λ _. 0

abbrev pub new_boxes : Option (ℕ → Box)
new_boxes = some (λ _. free_one)

pub named_a : string_of (strcpy (zeros max_box_name) name_a) ≡ 47 ∷ 97 ∷ []
unfolding string_of
named_a = string_of-strcpy (zeros max_box_name) name_a

pub name_a-IsArray : IsArray max_box_name (strcpy (zeros max_box_name) name_a)
unfolding string_of
name_a-IsArray =
    IsArray-strcpy max_box_name (zeros max_box_name) name_a (length-zeros max_box_name)
      (omega arith)

-- The name ends in its array.
pub a_terminated : length (string_of request_a.box_name) < length request_a.box_name
a_terminated = let size = name_a-IsArray.size in let ends = name_a-IsArray.terminated in omega arith

password-IsArray : IsArray max_password (zeros max_password)
password-IsArray = IsArray-zeros max_password (omega arith)

pub one_box-TableOk : TableOk one_box
one_box-TableOk = record {
  some_boxes = omega arith;
  names = λ k lt. elim (Bool-cases (k == 0)) [
    | inl same ↦ rw same name_a-IsArray
    | inr other ↦ rw other (IsArray-zeros max_box_name (omega arith))
  ];
  passwords = λ k lt. elim (Bool-cases (k == 0)) [
    | inl same ↦ rw same password-IsArray
    | inr other ↦ rw other password-IsArray
  ];
  unused = λ k lt z. elim (Bool-cases (k == 0)) [
    | inl same ↦ absurd (ground (arith, same))
    | inr other ↦ rw other (string_of-zeros max_box_name)
  ];
  used = λ k lt nz. elim (Bool-cases (k == 0)) [
    | inl same ↦ rw same (refl, rw named_a (λ e. cc))
    | inr other ↦ absurd (ground (arith, other))
  ];
  distinct = λ k l lt lt' nz same. elim (Bool-cases (k == 0)) [
    | inr other ↦ absurd (ground (arith, other))
    | inl here ↦ elim (Bool-cases (l == 0)) [
      | inl there ↦ ground arith
      | inr other ↦
          let e : 47 ∷ 97 ∷ [] ≡ [] =
            sym named_a ∙ rw (here, other) at same ∙ string_of-zeros max_box_name in
          absurd cc
    ]
  ];
}

pub request_a-IsBoxRequest : IsBoxRequest request_a
request_a-IsBoxRequest = record {
  name_array = name_a-IsArray;
  password_array = password-IsArray;
  named = rw named_a (λ e. cc);
}

pub new_boxes-ReallocOk : ReallocOk (locked one_box) new_boxes
new_boxes-ReallocOk absent = (
  omega arith,
  λ _. free_one,
  refl,
  record {
    names = λ i lo hi. IsArray-zeros max_box_name (omega arith);
    passwords = λ i lo hi. password-IsArray;
    clear = λ i lo hi. string_of-zeros max_box_name;
  },
)

abbrev pub blank_response : ListManagerResponse
blank_response = record {
  code = 8;
  last = 0;
  box_name = zeros max_box_name;
  box_size = 0;
  n_pubs = 0;
  n_subs = 0;
  box_password = zeros max_password;
}

pub one_box-IntsOk : IntsOk one_box
one_box-IntsOk i lt = elim (Bool-cases (i == 0)) [
  | inl same ↦ rw same (omega arith, omega arith, omega arith)
  | inr other ↦ rw other (omega arith, omega arith, omega arith)
]

pub blank_responses-StackOk : StackOk (λ _. blank_response)
blank_responses-StackOk k = record {
  code_fits = omega arith;
  last_fits = omega arith;
  name_size = length-zeros max_box_name;
  size_fits = omega arith;
  pubs_fit = omega arith;
  subs_fit = omega arith;
  password_size = length-zeros max_password;
}

pub one_box-Ready : Ready one_box
one_box-Ready = (one_box-TableOk, with_file-IsWf, refl)
