-- ===== src/Broker/Table.antt =====
-- The table of boxes of mbroker/mbroker.c: its well-formedness.
use project_so.Prelude.{
  ℕ, ◌<◌, ◌≡◌, sym, ap, subst, ◌∙◌, ◌≢◌, inl, inr, Bool, none, some, [], arith, ◌==◌, Bool-cases,
}
use project_so.Memory.Scan.{first_index-some, first_index-none}
use project_so.Memory.Arrays.{
  CharArray, string_of, same_bytes, zeros, IsArray, same_bytes_self, same_bytes-eq, string_of-zeros,
  IsArray-zeros,
}
use project_so.Broker.Types.{Box, Broker}
use project_so.Fs.Types.{update}
use project_so.Wire.Pipeflow.{max_box_name, max_password, Request, ResponseManager}
use project_so.Broker.Manager.{has_name, find_box}
use project_so.Broker.Answer.{Answered}

-- The arrays hold strings; a free box has no name, a used one has; no two boxes have one name.
pub record BoxesOk (server_boxes : ℕ → Box) (size_boxes : ℕ) : Type 0 where
  pub some_boxes : 0 < size_boxes
  pub names : (i : ℕ) → i < size_boxes → IsArray max_box_name (server_boxes i).box_name
  pub passwords : (i : ℕ) → i < size_boxes → IsArray max_password (server_boxes i).box_password
  pub unused :
      (i : ℕ)
      → i < size_boxes
      → (server_boxes i).free ≡ 0
      → string_of (server_boxes i).box_name ≡ []
  pub used :
      (i : ℕ)
      → i < size_boxes
      → (server_boxes i).free ≢ 0
      → ((server_boxes i).free ≡ 1) × (string_of (server_boxes i).box_name ≢ [])
  pub distinct :
      (i j : ℕ)
      → i < size_boxes
      → j < size_boxes
      → (server_boxes i).free ≢ 0
      → string_of (server_boxes i).box_name ≡ string_of (server_boxes j).box_name
      → i ≡ j

abbrev pub TableOk : Broker → Type 0
TableOk b = BoxesOk b.server_boxes b.size_boxes

-- A request that names a box: with a slash, as the clients write it, and a password.
pub record IsBoxRequest (r : Request) : Type 0 where
  pub name_array : IsArray max_box_name r.box_name
  pub password_array : IsArray max_password r.box_password
  pub named : string_of r.box_name ≢ []

-- The box that is found has the name, and is used.
pub find_box-some :
    (b : Broker) (name : CharArray) {i : ℕ}
    → find_box b name ≡ some i
    → (i < b.size_boxes) × (string_of name ≡ string_of (b.server_boxes i).box_name)
find_box-some b name {i} e =
    let found = first_index-some (has_name b.server_boxes name) 0 b.size_boxes e in
    (
      omega (arith, found.1),
      same_bytes-eq (string_of name) (string_of (b.server_boxes i).box_name) found.2,
    )

pub find_box-none :
    (b : Broker) (name : CharArray) (i : ℕ)
    → find_box b name ≡ none
    → i < b.size_boxes
    → string_of name ≢ string_of (b.server_boxes i).box_name
find_box-none b name i e lt same =
    let f =
      first_index-none (has_name b.server_boxes name) 0 b.size_boxes e i (omega arith)
        (omega arith) in
    let t = same_bytes_self (string_of name) in
    ground (arith, ap (same_bytes (string_of name)) same)

pub find_box-used :
    (b : Broker) (name : CharArray) {i : ℕ}
    → TableOk b
    → string_of name ≢ []
    → find_box b name ≡ some i
    → (b.server_boxes i).free ≡ 1
find_box-used b name {i} ok named e =
    let found = find_box-some b name e in
    elim (Bool-cases ((b.server_boxes i).free == 0)) [
      | inl z ↦ absurd (named (found.1 ∙ ok.unused i found.0 (ground arith)))
      | inr nz ↦ (ok.used i found.0 (ground arith)).0
    ]

-- A box that changes to another, in the ways of the handlers.
abbrev pub with_box : Broker → ℕ → Box → Broker
with_box b i x = record b { server_boxes = update b.server_boxes i x }

-- Its name stays.
pub TableOk-with_password :
    (b : Broker) (i : ℕ) (password : CharArray)
    → TableOk b
    → IsArray max_password password
    → TableOk (with_box b i (record (b.server_boxes i) { box_password = password }))
TableOk-with_password b i password ok array = record {
  some_boxes = ok.some_boxes;
  names = λ k lt. ground (arith, ok.names k lt);
  passwords = λ k lt. elim (Bool-cases (i == k)) [
    | inl same ↦ rw same array
    | inr other ↦ rw other (ok.passwords k lt)
  ];
  unused = λ k lt z. ground (arith, ok.unused k lt);
  used = λ k lt nz. ground (arith, ok.used k lt);
  distinct = λ k l lt lt' nz same. ground (arith, ok.distinct k l lt lt');
}

-- It becomes free.
pub TableOk-with_free :
    (b : Broker) (i : ℕ) (x : Box)
    → TableOk b
    → x.free ≡ 0
    → x.box_name ≡ zeros max_box_name
    → x.box_password ≡ zeros max_password
    → TableOk (with_box b i x)
TableOk-with_free b i x ok z name password = record {
  some_boxes = ok.some_boxes;
  names = λ k lt. elim (Bool-cases (i == k)) [
    | inl same ↦ rw (same, name) (IsArray-zeros max_box_name (omega arith))
    | inr other ↦ rw other (ok.names k lt)
  ];
  passwords = λ k lt. elim (Bool-cases (i == k)) [
    | inl same ↦ rw (same, password) (IsArray-zeros max_password (omega arith))
    | inr other ↦ rw other (ok.passwords k lt)
  ];
  unused = λ k lt z'. elim (Bool-cases (i == k)) [
    | inl same ↦ rw (same, name) (string_of-zeros max_box_name)
    | inr other ↦ ground (arith, other, ok.unused k lt)
  ];
  used = λ k lt nz. ground (arith, ok.used k lt);
  distinct = λ k l lt lt' nz same. elim (Bool-cases (i == k)) [
    | inl here ↦ absurd (ground (arith, here))
    | inr other ↦ elim (Bool-cases (i == l)) [
      | inl there ↦
          let empty : string_of (b.server_boxes k).box_name ≡ [] =
            rw (there, other, name, string_of-zeros max_box_name) at same in
          absurd ((ok.used k lt (rw other at nz)).1 empty)
      | inr other' ↦ ok.distinct k l lt lt' (rw other at nz) (rw (other, other') at same)
    ]
  ];
}

pub TableOk-Answered :
    (b : Broker) (pipe_name : CharArray) (written : Bool) (response : ResponseManager) (c : Broker)
    → TableOk b
    → Answered b pipe_name written response c
    → TableOk c
TableOk-Answered b pipe_name written response c ok (inl (n, e)) = subst TableOk (sym e) ok
TableOk-Answered b pipe_name written response c ok (inr (y, m, e, back)) = subst TableOk (sym e) ok
