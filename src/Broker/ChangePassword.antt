-- ===== src/Broker/ChangePassword.antt =====
-- The handlers of mbroker/mbroker.c that change a box's password.
use project_so.Prelude.{
  ℕ, ◌≡◌, refl, sym, ap, subst, ◌∙◌, ◌⊎◌, inl, inr, Bool, true, false, none, some, arith,
  Bool-cases, Option-cases, length,
}
use project_so.Memory.Bytes.{Memory}
use project_so.Memory.Arrays.{CharArray, string_of, IsArray}
use project_so.Broker.Types.{Box, Broker, pure, choose, ◌>>=◌, ◌>>◌, get, Pipe, unlock}
use project_so.Broker.Texts.{no_such_box, wrong_password_text}
use project_so.Fs.Types.{update}
use project_so.Wire.Pipeflow.{max_password, max_message, Request, response_manager}
use project_so.Wire.Dispatch.{is_response_code, IsMessage}
use project_so.Broker.Manager.{
  find_box, right_password, Tester, missing, wrong_password, found, password_response, send,
  change_password, password_handler,
}
use project_so.Broker.Answer.{
  Returns, Returns-then, Returns-weaken, locked, lock-then, unlocked_again, Answered, takes,
  choose-send-Answered, accepted-IsMessage, refused-IsMessage,
}
use project_so.Broker.Table.{TableOk, find_box-some, TableOk-with_password}

-- What the search and the change under the lock do.
abbrev pub Changed :
    Broker → ℕ → CharArray → CharArray → (CharArray → CharArray) → Tester → Broker → Type 0
Changed b worker name password new tester c =
    ((tester ≡ missing) × (find_box b name ≡ none) × (c ≡ b))
    ⊎ ((i : ℕ) × (find_box b name ≡ some i)
        × (((tester ≡ wrong_password) × (right_password b i password ≡ false) × (c ≡ b))
            ⊎ ((tester ≡ found)
                × (right_password b i password ≡ true)
                × (c ≡ record b {
                  thread_pool = update b.thread_pool worker i;
                  server_boxes = update b.server_boxes i (record (b.server_boxes i) {
                    box_password = new (b.server_boxes i).box_password;
                  });
                }))))

change_password-Changed :
    (b : Broker) (worker : ℕ) (name password : CharArray) (new : CharArray → CharArray)
    → Returns
        (Changed b worker name password new)
        (change_password worker name password new (find_box b name) b)
unfolding change_password
change_password-Changed b worker name password new = elim (Option-cases (find_box b name)) [
  | inl e ↦ rw (e, change_password) (inl (refl, e, refl))
  | inr (i, e) ↦ elim (Bool-cases (right_password b i password)) [
    | inl right ↦ rw (e, change_password, right) (inr (i, e, inr (refl, right, refl)))
    | inr wrong ↦ rw (e, change_password, wrong) (inr (i, e, inl (refl, wrong, refl)))
  ]
]

password_response-IsMessage :
    (code : ℕ) (stack : CharArray) (tester : Tester)
    → is_response_code code ≡ true
    → length stack ≡ max_message
    → IsMessage (response_manager (password_response code stack tester))
unfolding string_of
password_response-IsMessage code stack found ok size = accepted-IsMessage code ok
password_response-IsMessage code stack missing ok size =
    refused-IsMessage code stack no_such_box ok size (omega arith)
password_response-IsMessage code stack wrong_password ok size =
    refused-IsMessage code stack wrong_password_text ok size (omega arith)

-- The handler as a whole: the change, and then the answer that tells it.
abbrev pub PasswordDone :
    Broker
    → ℕ
    → Pipe
    → CharArray
    → Request
    → (CharArray → CharArray)
    → ℕ
    → Unit {0}
    → Broker
    → Type 0
PasswordDone b worker pipe stack r new code u d =
    (tester : Tester) × (c : Broker) × Changed b worker r.box_name r.box_password new tester c
    × Answered c r.pipe_name (takes pipe) (password_response code stack tester) d

Changed-unlocked :
    (b : Broker) (worker : ℕ) (name password : CharArray) (new : CharArray → CharArray)
    (tester : Tester) (c : Broker)
    → b.box_size_lock ≡ false
    → Changed (locked b) worker name password new tester c
    → Changed b worker name password new tester (record c { box_size_lock = false })
Changed-unlocked b worker name password new tester c o (inl (t, e, same)) =
    inl (t, e, ap (λ (x : Broker). record x { box_size_lock = false }) same ∙ unlocked_again b o)
Changed-unlocked b worker name password new tester c o (inr (i, e, inl (t, wrong, same))) = inr (
  i,
  e,
  inl (t, wrong, ap (λ (x : Broker). record x { box_size_lock = false }) same ∙ unlocked_again b o),
)
Changed-unlocked b worker name password new tester c o (inr (i, e, inr (t, right, same))) = inr (
  i,
  e,
  inr (
    t,
    right,
    ap (λ (x : Broker). record x { box_size_lock = false }) same
        ∙ ap {A = Bool} {B = Broker}
            (λ x. record b {
              thread_pool = update b.thread_pool worker i;
              server_boxes = update b.server_boxes i (record (b.server_boxes i) {
                box_password = new (b.server_boxes i).box_password;
              });
              box_size_lock = x;
            })
            (sym o),
  ),
)

pub password_handler-PasswordDone :
    (b : Broker) (code worker : ℕ) (pipe : Pipe) (buffer : Memory) (stack : CharArray) (r : Request)
    (new : CharArray → CharArray)
    → is_response_code code ≡ true
    → length stack ≡ max_message
    → b.box_size_lock ≡ false
    → Returns
        (PasswordDone b worker pipe stack r new code)
        (password_handler code worker pipe buffer stack r new b)
unfolding password_handler
password_handler-PasswordDone b code worker pipe buffer stack r new ok size open_lock =
    let bl = locked b in
    let rest = λ (x : Tester).
      unlock
      >> choose pipe.opens
          (send r.pipe_name (pipe.writes 0) buffer (password_response code stack x)) (pure tt) in
    let body = get >>= λ x.
    change_password worker r.box_name r.box_password new (find_box x r.box_name) >>= rest in
    subst (Returns (PasswordDone b worker pipe stack r new code)) (sym (lock-then body b open_lock))
      (Returns-then {P = Changed bl worker r.box_name r.box_password new}
        (PasswordDone b worker pipe stack r new code)
        (change_password worker r.box_name r.box_password new (find_box bl r.box_name) bl) rest bl
        (change_password-Changed bl worker r.box_name r.box_password new)
        (λ tester c h.
          let free_again = record c { box_size_lock = false } in
          Returns-weaken (PasswordDone b worker pipe stack r new code)
            (choose pipe.opens
              (send r.pipe_name (pipe.writes 0) buffer (password_response code stack tester))
              (pure tt) free_again)
            (choose-send-Answered free_again r.pipe_name pipe buffer
              (password_response code stack tester)
              (password_response-IsMessage code stack tester ok size))
            (λ u d answered. (
              tester,
              free_again,
              Changed-unlocked b worker r.box_name r.box_password new tester c open_lock h,
              answered,
            ))))

module _ (b : Broker) (worker : ℕ) (name password : CharArray) (new : CharArray → CharArray)
    (tester : Tester) (c : Broker) where
  pub Changed-same :
      {A : Type 0} (f : Broker → A)
      → ((t : ℕ → ℕ) (boxes : ℕ → Box)
          → f (record b { thread_pool = t; server_boxes = boxes }) ≡ f b)
      → Changed b worker name password new tester c
      → f c ≡ f b
  Changed-same f same (inl (t, e, q)) = ap f q
  Changed-same f same (inr (i, e, inl (t, wrong, q))) = ap f q
  Changed-same f same (inr (i, e, inr (t, right, q))) = ap f q ∙ same _ _

  pub Changed-TableOk :
      TableOk b
      → ((old : CharArray) → IsArray max_password old → IsArray max_password (new old))
      → Changed b worker name password new tester c
      → TableOk c
  Changed-TableOk ok array (inl (t, e, q)) = subst TableOk (sym q) ok
  Changed-TableOk ok array (inr (i, e, inl (t, wrong, q))) = subst TableOk (sym q) ok
  Changed-TableOk ok array (inr (i, e, inr (t, right, q))) =
      let lt = (find_box-some b name e).0 in
      subst TableOk (sym q) (
        TableOk-with_password b i (new (b.server_boxes i).box_password) ok
          (array (b.server_boxes i).box_password (ok.passwords i lt)))
