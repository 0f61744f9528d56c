-- ===== src/Broker/ListSent.antt =====
-- What process_manager_list of mbroker/mbroker.c puts into the client's pipe.
use mathlib.Core.List.{append_assoc, append-nil}
use project_so.Prelude.{ℕ, suc, ◌≡◌, sym, ap, subst, ◌∙◌, false, some, List, [], ◌∷◌, ◌++◌, All}
use project_so.Memory.Bytes.{Memory}
use project_so.Memory.Arrays.{CharArray}
use project_so.Broker.Types.{Broker, M, ◌>>◌, Write, whole, Pipe, is_broken, write}
use project_so.Wire.Pipeflow.{ListManagerResponse, list_manager_response}
use project_so.Wire.Writer.{writer_stc}
use project_so.Wire.Reader.{reader_stc}
use project_so.Wire.Dispatch.{IsMessage}
use project_so.Broker.Listing.{send_list}
use project_so.Broker.Answer.{Returns, Returns-weaken, with_sent}
use project_so.Broker.Answer.{written_buffer}

-- Buffers in the pipe that `reader_stc` reads as the responses.
pub data Delivered (pipe_name : CharArray)
    : List ListManagerResponse → List (CharArray × Memory) → Type 0 where
  all_read : Delivered pipe_name [] []
  one_read :
      {x : ListManagerResponse} {xs : List ListManagerResponse} {ms : List (CharArray × Memory)}
      (m : Memory)
      → reader_stc m ≡ list_manager_response x
      → Delivered pipe_name xs ms
      → Delivered pipe_name (x ∷ xs) ((pipe_name, m) ∷ ms)

-- From `b` on only the responses were sent.
abbrev pub ListSent : Broker → CharArray → List ListManagerResponse → Unit {0} → Broker → Type 0
ListSent b pipe_name xs u d =
    (ms : List (CharArray × Memory)) × Delivered pipe_name xs ms
    × (d ≡ record b { sent = b.sent ++ ms })

-- Every write is of a whole buffer.
abbrev pub TakesAll : Pipe → Type 0
TakesAll pipe = (k : ℕ) → pipe.writes k ≡ whole

write_whole :
    (pipe_name : CharArray) (w : Write) (m : Memory) (rest : M (Unit {0})) (b : Broker)
    → w ≡ whole
    → (write pipe_name w m >> rest) b ≡ rest (with_sent b pipe_name m)
write_whole pipe_name w m rest b e = rw e

send_list-cons :
    (pipe_name : CharArray) (pipe : Pipe) (buffer : Memory) (k : ℕ) (x : ListManagerResponse)
    (xs : List ListManagerResponse) (m : Memory) (b : Broker)
    → TakesAll pipe
    → writer_stc (list_manager_response x) x.code buffer ≡ some m
    → send_list pipe_name pipe buffer k (x ∷ xs) b
      ≡ send_list pipe_name pipe buffer (suc k) xs (with_sent b pipe_name m)
unfolding send_list
send_list-cons pipe_name pipe buffer k x xs m b takes_all e =
    let open_end : is_broken (pipe.writes k) ≡ false = rw (takes_all k) in
    let step : send_list pipe_name pipe buffer k (x ∷ xs) b
        ≡ (write pipe_name (pipe.writes k) m >> send_list pipe_name pipe buffer (suc k) xs) b =
      rw (send_list, e, open_end) in
    step
    ∙ write_whole pipe_name (pipe.writes k) m (send_list pipe_name pipe buffer (suc k) xs) b
        (takes_all k)

pub send_list-ListSent :
    (pipe_name : CharArray) (pipe : Pipe) (buffer : Memory) (k : ℕ) (xs : List ListManagerResponse)
    (b : Broker)
    → TakesAll pipe
    → All (λ x. IsMessage (list_manager_response x)) xs
    → Returns (ListSent b pipe_name xs) (send_list pipe_name pipe buffer k xs b)
unfolding send_list
send_list-ListSent pipe_name pipe buffer k [] b takes_all ok =
    ([], all_read, ap (λ l. record b { sent = l }) (sym (append-nil b.sent)))
send_list-ListSent pipe_name pipe buffer k (x ∷ xs) b takes_all (one, rest) =
    let (m, e, back) = written_buffer (list_manager_response x) buffer one in
    let b' = with_sent b pipe_name m in
    subst (Returns (ListSent b pipe_name (x ∷ xs)))
      (sym (send_list-cons pipe_name pipe buffer k x xs m b takes_all e))
      (Returns-weaken (ListSent b pipe_name (x ∷ xs))
        (send_list pipe_name pipe buffer (suc k) xs b')
        (send_list-ListSent pipe_name pipe buffer (suc k) xs b' takes_all rest)
        (λ u d (ms, delivered, same). (
          (pipe_name, m) ∷ ms,
          one_read m back delivered,
          same ∙ ap (λ l. record b { sent = l }) (append_assoc b.sent ((pipe_name, m) ∷ []) ms),
        )))
