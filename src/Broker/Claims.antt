-- ===== src/Broker/Claims.antt =====
-- Boxes of mbroker/mbroker.c that get a name: a free one, or one behind a table that has doubled.
use project_so.Prelude.{
  ℕ, ◌*◌, ◌≤◌, ◌<◌, ◌≡◌, refl, sym, ◌∙◌, ◌≢◌, inl, inr, none, [], arith, ltb, ◌==◌, Bool-cases,
  Option-cases,
}
use project_so.Memory.Arrays.{CharArray, string_of, IsArray, string_of-strcpy, IsArray-strcpy}
use project_so.Broker.Types.{Box, Broker}
use project_so.Wire.Pipeflow.{max_box_name, max_password, Request}
use project_so.Broker.Manager.{find_box}
use project_so.Broker.Create.{claimed, doubled}
use project_so.Broker.Table.{TableOk, IsBoxRequest, find_box-some, find_box-none, with_box}

-- It gets a name that no box has.
pub TableOk-claimed :
    (b : Broker) (i : ℕ) (r : Request)
    → TableOk b
    → IsBoxRequest r
    → i < b.size_boxes
    → find_box b r.box_name ≡ none
    → TableOk (with_box b i (claimed r (b.server_boxes i)))
TableOk-claimed b i r ok req lt absent = record {
  some_boxes = ok.some_boxes;
  names = λ k lt'. elim (Bool-cases (i == k)) [
    | inl same ↦ rw same (
        IsArray-strcpy max_box_name (b.server_boxes i).box_name r.box_name (ok.names i lt).size
          req.name_array.terminated)
    | inr other ↦ rw other (ok.names k lt')
  ];
  passwords = λ k lt'. elim (Bool-cases (i == k)) [
    | inl same ↦ rw same (
        IsArray-strcpy max_password (b.server_boxes i).box_password r.box_password
          (ok.passwords i lt).size req.password_array.terminated)
    | inr other ↦ rw other (ok.passwords k lt')
  ];
  unused = λ k lt' z. ground (arith, ok.unused k lt');
  used = λ k lt' nz. elim (Bool-cases (i == k)) [
    | inl same ↦
        rw same (refl, rw (string_of-strcpy (b.server_boxes i).box_name r.box_name) req.named)
    | inr other ↦ rw other (ok.used k lt' (rw other at nz))
  ];
  distinct = λ k l lt' lt'' nz same. elim (Bool-cases (i == k)) [
    | inl here ↦ elim (Bool-cases (i == l)) [
      | inl there ↦ ground arith
      | inr other ↦
          let e = string_of-strcpy (b.server_boxes i).box_name r.box_name in
          absurd (find_box-none b r.box_name l absent lt'' (sym e ∙ rw (here, other) at same))
    ]
    | inr other ↦ elim (Bool-cases (i == l)) [
      | inl there ↦
          let e = string_of-strcpy (b.server_boxes i).box_name r.box_name in
          absurd (find_box-none b r.box_name k absent lt' (sym (rw (there, other) at same ∙ e)))
      | inr other' ↦ ok.distinct k l lt' lt'' (rw other at nz) (rw (other, other') at same)
    ]
  ];
}

-- What realloc returns behind the old boxes: arrays whose names are empty.
abbrev pub FreshOk : Broker → (ℕ → Box) → Type 0
FreshOk b fresh = record {
  names :
      (i : ℕ) → b.size_boxes ≤ i → i < 2 * b.size_boxes → IsArray max_box_name (fresh i).box_name;
  passwords :
      (i : ℕ)
      → b.size_boxes ≤ i
      → i < 2 * b.size_boxes
      → IsArray max_password (fresh i).box_password;
  clear : (i : ℕ) → b.size_boxes ≤ i → i < 2 * b.size_boxes → string_of (fresh i).box_name ≡ [];
}

abbrev pub with_doubled : Broker → (ℕ → Box) → Broker
with_doubled b fresh = record b { server_boxes = doubled b fresh; size_boxes = 2 * b.size_boxes }

module _ (b : Broker) (fresh : ℕ → Box) (ok : TableOk b) (clear : FreshOk b fresh) where
  pub TableOk-with_doubled : TableOk (with_doubled b fresh)
  TableOk-with_doubled = record {
    some_boxes = let p = ok.some_boxes in omega arith;
    names = λ k lt. elim (Bool-cases (ltb k b.size_boxes)) [
      | inl old ↦ rw old (ok.names k (ground arith))
      | inr new ↦ rw new (clear.names k (ground arith) lt)
    ];
    passwords = λ k lt. elim (Bool-cases (ltb k b.size_boxes)) [
      | inl old ↦ rw old (ok.passwords k (ground arith))
      | inr new ↦ rw new (clear.passwords k (ground arith) lt)
    ];
    unused = λ k lt z. elim (Bool-cases (ltb k b.size_boxes)) [
      | inl old ↦ rw old (ok.unused k (ground arith) (rw old at z))
      | inr new ↦ rw new (clear.clear k (ground arith) lt)
    ];
    used = λ k lt nz. elim (Bool-cases (ltb k b.size_boxes)) [
      | inl old ↦ rw old (ok.used k (ground arith) (rw old at nz))
      | inr new ↦ absurd (ground (arith, new))
    ];
    distinct = λ k l lt lt' nz same. elim (Bool-cases (ltb k b.size_boxes)) [
      | inr new ↦ absurd (ground (arith, new))
      | inl old ↦ elim (Bool-cases (ltb l b.size_boxes)) [
        | inl old' ↦
            ok.distinct k l (ground arith) (ground arith) (rw old at nz) (rw (old, old') at same)
        | inr new ↦ absurd (
            (ok.used k (ground arith) (rw old at nz)).1
              (rw (old, new) at same ∙ clear.clear l (ground arith) lt'))
      ]
    ];
  }

  pub find_box-with_doubled :
      (name : CharArray)
      → string_of name ≢ []
      → find_box b name ≡ none
      → find_box (with_doubled b fresh) name ≡ none
  find_box-with_doubled name named absent =
      elim (Option-cases (find_box (with_doubled b fresh) name)) [
        | inl e ↦ e
        | inr (i, e) ↦
            let (lt, same) = find_box-some (with_doubled b fresh) name e in
            elim (Bool-cases (ltb i b.size_boxes)) [
              | inl old ↦ absurd (find_box-none b name i absent (ground arith) (rw old at same))
              | inr new ↦ absurd (named (rw new at same ∙ clear.clear i (ground arith) lt))
            ]
      ]
