-- ===== src/Broker/Answer.antt =====
-- What a client gets from its pipe after a handler of mbroker/mbroker.c.
use project_so.Prelude.{
  ℕ, ◌<◌, ◌≡◌, refl, sym, ap, ◌∙◌, ◌⊎◌, inl, inr, Bool, true, false, ◌&&◌, some, List, [], ◌∷◌,
  ◌++◌, arith, Bool-cases, Option-cases, length,
}
use project_so.Memory.Bytes.{Memory}
use project_so.Memory.Arrays.{CharArray, string_of, length-zeros, length-strcpy}
use project_so.Broker.Types.{
  Broker, Outcome, done, exited, aborted, undefined, out_of_fuel, M, pure, choose, ◌>>=◌, ◌>>◌,
  Write, Pipe, lock, is_whole,
}
use project_so.Wire.Pipeflow.{max_message, ResponseManager, Message, response_manager}
use project_so.Wire.Writer.{writer_stc}
use project_so.Wire.Reader.{reader_stc}
use project_so.Wire.Dispatch.{is_response_code, code_of, IsMessage, reader_stc-writer_stc}
use project_so.Broker.Manager.{accepted, refused, send}

-- The handler ends, and its final state satisfies `P`.
abbrev pub Returns : {A : Type 0} → (A → Broker → Type 0) → Outcome A → Type 0
Returns P (done a b) = P a b
Returns P exited = ⊥
Returns P aborted = ⊥
Returns P undefined = ⊥
Returns P out_of_fuel = ⊥

pub Returns-then :
    {A B : Type 0} {P : A → Broker → Type 0} (Q : B → Broker → Type 0) (o : Outcome A) (f : A → M B)
    (b : Broker)
    → Returns P o
    → ((a : A) (c : Broker) → P a c → Returns Q (f a c))
    → Returns Q (◌>>=◌ (λ _. o) f b)
Returns-then Q (done a c) f b h k = k a c h
Returns-then Q exited f b h k = absurd h
Returns-then Q aborted f b h k = absurd h
Returns-then Q undefined f b h k = absurd h
Returns-then Q out_of_fuel f b h k = absurd h

pub Returns-weaken :
    {A : Type 0} {P : A → Broker → Type 0} (Q : A → Broker → Type 0) (o : Outcome A)
    → Returns P o
    → ((a : A) (c : Broker) → P a c → Q a c)
    → Returns Q o
Returns-weaken Q (done a c) h k = k a c h
Returns-weaken Q exited h k = absurd h
Returns-weaken Q aborted h k = absurd h
Returns-weaken Q undefined h k = absurd h
Returns-weaken Q out_of_fuel h k = absurd h

-- A lock that is free is taken.
abbrev pub locked : Broker → Broker
locked b = record b { box_size_lock = true }

pub lock-then :
    {A : Type 0} (m : M A) (b : Broker) → b.box_size_lock ≡ false → (lock >> m) b ≡ m (locked b)
lock-then m b o = rw o

pub unlocked_again : (b : Broker) → b.box_size_lock ≡ false → record b { box_size_lock = false } ≡ b
unlocked_again b e = ap (λ (x : Bool). record b { box_size_lock = x }) (sym e)

-- One more buffer in the clients' pipes.
abbrev pub with_sent : Broker → CharArray → Memory → Broker
with_sent b pipe_name m = record b { sent = b.sent ++ (pipe_name, m) ∷ [] }

-- From state `b` on only an answer was sent: nothing where the write fails, and else a buffer that
-- `reader_stc` reads as the response.
abbrev pub Answered : Broker → CharArray → Bool → ResponseManager → Broker → Type 0
Answered b pipe_name written response c =
    ((written ≡ false) × (c ≡ b))
    ⊎ ((written ≡ true)
        × (m : Memory) × (c ≡ with_sent b pipe_name m)
        × (reader_stc m ≡ response_manager response))

pub written_buffer :
    (msg : Message) (buffer : Memory)
    → IsMessage msg
    → (m : Memory) × (writer_stc msg (code_of msg) buffer ≡ some m) × (reader_stc m ≡ msg)
written_buffer msg buffer ok =
    let back = reader_stc-writer_stc msg buffer ok in
    elim (Option-cases (writer_stc msg (code_of msg) buffer)) [
      | inl e ↦ absurd (ground (arith, back, e))
      | inr (m, e) ↦ (m, e, ground (arith, rw e at back))
    ]

pub send-Answered :
    (b : Broker) (pipe_name : CharArray) (w : Write) (buffer : Memory) (response : ResponseManager)
    → IsMessage (response_manager response)
    → Returns (λ _. Answered b pipe_name (is_whole w) response) (send pipe_name w buffer response b)
unfolding send
send-Answered b pipe_name w buffer response ok =
    let (m, e, back) = written_buffer (response_manager response) buffer ok in
    elim (Bool-cases (is_whole w)) [
      | inl all ↦ rw (send, e, all) (inr (refl, m, refl, back))
      | inr none_sent ↦ rw (send, e, none_sent) (inl (refl, refl))
    ]

-- Whether the pipe takes the first buffer.
abbrev pub takes : Pipe → Bool
takes pipe = pipe.opens && is_whole (pipe.writes 0)

pub choose-send-Answered :
    (b : Broker) (pipe_name : CharArray) (pipe : Pipe) (buffer : Memory)
    (response : ResponseManager)
    → IsMessage (response_manager response)
    → Returns
        (λ _. Answered b pipe_name (takes pipe) response)
        (choose pipe.opens (send pipe_name (pipe.writes 0) buffer response) (pure tt) b)
choose-send-Answered b pipe_name pipe buffer response ok = elim (Bool-cases pipe.opens) [
  | inl opened ↦ rw opened (send-Answered b pipe_name (pipe.writes 0) buffer response ok)
  | inr shut ↦ rw shut (inl (refl, refl))
]

-- The responses of the handlers are messages with fields of their sizes.
pub accepted-IsMessage :
    (code : ℕ) → is_response_code code ≡ true → IsMessage (response_manager (accepted code))
accepted-IsMessage code ok = (
  ok,
  record {
    code_fits = ground arith;
    return_fits = omega arith;
    message_size = length-zeros max_message;
  },
)

pub refused-IsMessage :
    (code : ℕ) (stack : CharArray) (text : List ℕ)
    → is_response_code code ≡ true
    → length stack ≡ max_message
    → length (string_of text) < max_message
    → IsMessage (response_manager (refused code stack text))
refused-IsMessage code stack text ok size short = (
  ok,
  record {
    code_fits = ground arith;
    return_fits = omega arith;
    message_size = length-strcpy stack text max_message size short;
  },
)

-- An answer changes nothing but what was sent.
pub Answered-same :
    {A : Type 0} (f : Broker → A) (b : Broker) (pipe_name : CharArray) (written : Bool)
    (response : ResponseManager) (c : Broker)
    → ((m : Memory) → f (with_sent b pipe_name m) ≡ f b)
    → Answered b pipe_name written response c
    → f c ≡ f b
Answered-same f b pipe_name written response c same (inl (n, e)) = ap f e
Answered-same f b pipe_name written response c same (inr (y, m, e, back)) = ap f e ∙ same m
