-- ===== src/Wire/Tests.antt =====
-- Messages of utils/pipeflow.h, written and read.
use project_so.Prelude.{ℕ, zero, suc, ◌≡◌, refl, ap, some, List, [], ◌∷◌, arith, length}
use project_so.Memory.Bytes.{Memory}
use project_so.Wire.Pipeflow.{max_line, Message, request}
use project_so.Wire.Writer.{writer_stc}
use project_so.Wire.Reader.{reader_stc}
use project_so.Wire.Dispatch.{code_of, IsMessage, reader_stc-writer_stc, writer_stc_in_buffer}
use mathlib.Core.Option

-- A char array with one character, padded with 0.
abbrev zeros : ℕ → List ℕ
zeros zero = []
zeros (suc n) = 0 ∷ zeros n

length-zeros : (n : ℕ) → length (zeros n) ≡ n
length-zeros zero = refl
length-zeros (suc n) = ap suc (length-zeros n)

abbrev create_a : Message
create_a = request (record {
  code = 3;
  pipe_name = 112 ∷ zeros 255;
  box_name = 98 ∷ zeros 31;
  box_password = zeros 5;
})

create_a-IsMessage : IsMessage create_a
create_a-IsMessage = (
  refl,
  record {
    code_fits = omega arith;
    pipe_size = ap suc (length-zeros 255);
    box_size = ap suc (length-zeros 31);
    password_size = length-zeros 5;
  },
)

-- A buffer that holds other bytes before.
abbrev used_buffer : Memory
used_buffer = λ _. 7

reader_stc-writer_stc_example :
    Option.map reader_stc (writer_stc create_a (code_of create_a) used_buffer) ≡ some create_a
reader_stc-writer_stc_example = reader_stc-writer_stc create_a used_buffer create_a-IsMessage

writer_stc_in_buffer_example :
    Option.map (λ (b : Memory). b max_line) (writer_stc create_a (code_of create_a) used_buffer)
    ≡ some 7
writer_stc_in_buffer_example =
    writer_stc_in_buffer create_a used_buffer max_line create_a-IsMessage (omega arith)
