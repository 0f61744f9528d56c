-- ===== src/Client/Listing.antt =====
-- How manager/manager.c reads the list of boxes that process_manager_list of mbroker/mbroker.c sends.
use mathlib.Core.Option
use project_so.Prelude.{
  ◌-◌, ◌^◌, ltb, ℕ, zero, suc, ◌≡◌, refl, ap, ◌∙◌, ◌≢◌, inl, inr, Bool, true, false, Option, none,
  some, List, [], ◌∷◌, arith, ◌==◌, if◌then◌else◌, Bool-cases, get_or, All,
}
use project_so.Memory.Bytes.{Memory}
use project_so.Memory.Arrays.{CharArray, string_of}
use project_so.Broker.Types.{Box}
use project_so.Wire.Pipeflow.{
  ListManagerResponse, request, messages_pipe, response_manager, list_manager_response,
  list_manager_request, request_new_password,
}
use project_so.Wire.Reader.{reader_stc}
use project_so.Broker.ListSent.{Delivered, one_read}
use project_so.Broker.Listing.{mark_last}

-- What is printed: that there is no box, or the boxes, which qsort then sorts by name.
pub data BoxList : Type 0 where
  no_boxes : BoxList
  boxes : List ListManagerResponse → BoxList

abbrev pub also : ListManagerResponse → BoxList → BoxList
also x no_boxes = no_boxes
also x (boxes xs) = boxes (x ∷ xs)

-- `box_name[0] == '\0'`
abbrev pub has_no_name : ListManagerResponse → Bool
has_no_name x = get_or x.box_name 0 0 == 0

-- The loop of manager_list over the buffers that read() fills, with the memory that realloc has to
-- give for the list; none where the reads do not come to an end, or bring another type of message.
unfoldable pub manager_list : List Memory → Option BoxList
manager_list [] = none
manager_list (m ∷ ms) = elim (reader_stc m) [
  | list_manager_response x ↦
      if x.last == 1
      then some (if has_no_name x then no_boxes else boxes (x ∷ []))
      else Option.map (also x) (manager_list ms)
  | request r ↦ none
  | messages_pipe r ↦ none
  | response_manager r ↦ none
  | list_manager_request r ↦ none
  | request_new_password r ↦ none
]

-- The buffers in the pipe, in order.
abbrev pub buffers : List (CharArray × Memory) → List Memory
buffers [] = []
buffers ((name, m) ∷ ms) = m ∷ buffers ms

-- What a manager is told of a box, with the password's text. The size is a 64-bit pattern.
pub record Row : Type 0 where
  pub name : List ℕ
  pub size : ℕ
  pub pubs : ℕ
  pub subs : ℕ
  pub password : List ℕ

-- The int `box_size` as 64 bits: a negative one counts down from 2^64.
abbrev pub row_of_box : Box → Row
row_of_box x = record {
  name = string_of x.box_name;
  size = if ltb x.box_size (2 ^ 31) then x.box_size else 2 ^ 64 - (2 ^ 32 - x.box_size);
  pubs = x.n_pub;
  subs = x.n_subs;
  password = string_of x.box_password;
}

-- The rows of the used boxes, the `left` ones from `i` on.
abbrev pub used_rows : (ℕ → Box) → ℕ → ℕ → List Row
used_rows server_boxes i zero = []
used_rows server_boxes i (suc left) =
    let rest = used_rows server_boxes (suc i) left in
    if (server_boxes i).free == 1 then row_of_box (server_boxes i) ∷ rest else rest

abbrev pub row_of : ListManagerResponse → Row
row_of x = record {
  name = string_of x.box_name;
  size = x.box_size;
  pubs = x.n_pubs;
  subs = x.n_subs;
  password = string_of x.box_password;
}

abbrev pub rows_of : List ListManagerResponse → List Row
rows_of [] = []
rows_of (x ∷ xs) = row_of x ∷ rows_of xs

-- A manager sees the rows, or that there are none.
abbrev pub Shows : List Row → Option BoxList → Type 0
Shows [] o = o ≡ some no_boxes
Shows (n ∷ ns) o = (xs : List ListManagerResponse) × (o ≡ some (boxes xs)) × (rows_of xs ≡ n ∷ ns)

pub manager_list_last :
    (m : Memory) (ms : List Memory) (x : ListManagerResponse)
    → reader_stc m ≡ list_manager_response x
    → x.last ≡ 1
    → manager_list (m ∷ ms) ≡ some (if has_no_name x then no_boxes else boxes (x ∷ []))
unfolding manager_list
manager_list_last m ms x e l = rw (manager_list, e, l)

pub manager_list_more :
    (m : Memory) (ms : List Memory) (x : ListManagerResponse)
    → reader_stc m ≡ list_manager_response x
    → x.last ≡ 0
    → manager_list (m ∷ ms) ≡ Option.map (also x) (manager_list ms)
unfolding manager_list
manager_list_more m ms x e l = rw (manager_list, e, l)

string_of-empty : (a : CharArray) → (get_or a 0 0 == 0) ≡ true → string_of a ≡ []
unfolding string_of
string_of-empty [] z = refl
string_of-empty (c ∷ cs) z = ground (arith, z)

pub has_no_name-named :
    (x : ListManagerResponse) → string_of x.box_name ≢ [] → has_no_name x ≡ false
has_no_name-named x n = elim (Bool-cases (has_no_name x)) [
  | inr e ↦ e
  | inl e ↦ absurd (n (string_of-empty x.box_name e))
]

-- Responses that are not the last, and whose boxes have names.
abbrev pub Plain : ListManagerResponse → Type 0
Plain x = (x.last ≡ 0) × (string_of x.box_name ≢ [])

pub manager_list-mark_last :
    (pipe_name : CharArray) (x : ListManagerResponse) (xs : List ListManagerResponse)
    (ms : List (CharArray × Memory))
    → All Plain (x ∷ xs)
    → Delivered pipe_name (mark_last (x ∷ xs)) ms
    → manager_list (buffers ms) ≡ some (boxes (mark_last (x ∷ xs)))
unfolding mark_last
manager_list-mark_last pipe_name x [] ms ((zero_last, named), tt) (one_read {ms = rest} m e more) =
    let last_one = record x { last = 1 } in
    manager_list_last m (buffers rest) last_one e refl ∙ rw (has_no_name-named last_one named)
manager_list-mark_last pipe_name x (y ∷ ys) ms ((zero_last, named), plain)
      (one_read {ms = rest} m e more) =
    manager_list_more m (buffers rest) x e zero_last
    ∙ ap (Option.map (also x)) (manager_list-mark_last pipe_name y ys rest plain more)
