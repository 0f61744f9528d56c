-- ===== src/Broker/Dispatch.antt =====
-- From the message that a client writes to the task that main of mbroker/mbroker.c makes of it.
use mathlib.Core.Option
use project_so.Prelude.{◌≡◌, inl, inr, some, arith, Option-cases}
use project_so.Memory.Bytes.{Memory, load}
use project_so.Wire.Fields.{from_bytes}
use project_so.Wire.Pipeflow.{Message}
use project_so.Wire.Writer.{writer_stc}
use project_so.Wire.Reader.{
  reader_stc_request, reader_stc_response_manager, reader_stc_list_request,
  reader_stc_list_response, reader_stc_message, reader_stc_new_password, reader_stc,
}
use project_so.Wire.Dispatch.{IsMessage, code_of, reader_stc-writer_stc}
use project_so.Broker.Tasks.{handler_of, new_task}

code_of-reader_stc : (m : Memory) → code_of (reader_stc m) ≡ from_bytes (load m 0 1)
unfolding reader_stc reader_stc_request reader_stc_response_manager reader_stc_list_request
    reader_stc_list_response reader_stc_message reader_stc_new_password
code_of-reader_stc m = ground arith

-- For every message with a code of its type and with fields of their sizes and ranges, whatever is in
-- the writer's buffer before, main makes of the written buffer a task whose argument is the message
-- and whose function is the handler of its code.
pub new_task-writer_stc :
    (msg : Message) (m : Memory)
    → IsMessage msg
    → Option.map new_task (writer_stc msg (code_of msg) m)
      ≡ some (record { function = handler_of (code_of msg); argument = msg })
unfolding new_task
new_task-writer_stc msg m ok = elim (Option-cases (writer_stc msg (code_of msg) m)) [
  | inl e ↦ let back = reader_stc-writer_stc msg m ok in absurd (ground (arith, back, e))
  | inr (b, e) ↦
      let back : reader_stc b ≡ msg =
        let all = reader_stc-writer_stc msg m ok in ground (arith, rw e at all) in
      rw (e, ← code_of-reader_stc b, back)
]
