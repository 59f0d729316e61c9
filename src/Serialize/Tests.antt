-- ===== src/Serialize/Tests.antt =====
-- The round trips at concrete inputs.
use so_tp_2024_2c_the_last_o.Prelude.{ℕ, ◌≡◌, refl, Bool, true, false, ◌==◌, some, [], ◌∷◌, arith}
use so_tp_2024_2c_the_last_o.Prelude.Int.{ℤ, pos, negsuc}
use so_tp_2024_2c_the_last_o.Payload.Defs.{◌>>=◌, pure}
use so_tp_2024_2c_the_last_o.Payload.Cursor.{cursor}
use so_tp_2024_2c_the_last_o.Payload.Tests.{ample, ample-Reallocs, ample-Grants}
use so_tp_2024_2c_the_last_o.Serialize.Scalars.{
  cpu_opcode_serialize, cpu_opcode_deserialize, CpuOpcode, io, set, opcode_number, result_serialize,
  result_deserialize,
}
use so_tp_2024_2c_the_last_o.Serialize.Context.{
  ExecContext, exec_context_serialize, exec_context_deserialize,
}
use so_tp_2024_2c_the_last_o.Serialize.Blocks.{
  data_serialize, data_deserialize, text_serialize, text_deserialize, subpayload_serialize,
  subpayload_deserialize, list_serialize, list_deserialize,
}
use so_tp_2024_2c_the_last_o.Serialize.Transfer.{Reads-map}
use so_tp_2024_2c_the_last_o.Serialize.RoundTrip.{
  Travels, cpu_opcode-Travels, result-Travels, FitsContext, exec_context-Travels,
}
use so_tp_2024_2c_the_last_o.Serialize.BlockTrip.{
  data-Travels, text-Travels, subpayload-Travels, list-Travels,
}

abbrev plenty : ℕ → Bool
plenty n = true

has_memory : (n : ℕ) → plenty n ≡ true
has_memory n = refl

abbrev context : ExecContext
context = record {
  cpu_registers = record {
    pc = 3;
    ax = 1;
    bx = 2;
    cx = 0;
    dx = 70000;
    ex = 0;
    fx = 0;
    gx = 0;
    hx = 9;
  };
  base = 64;
  limit = 32;
}

context-Fits : FitsContext context
context-Fits = record {
  pc = omega arith;
  ax = omega arith;
  bx = omega arith;
  cx = omega arith;
  dx = omega arith;
  ex = omega arith;
  fx = omega arith;
  gx = omega arith;
  hx = omega arith;
  base = omega arith;
  limit = omega arith;
}

result_example : Travels (result_serialize ample (negsuc 0)) (result_deserialize ample) (negsuc 0)
result_example =
    result-Travels ample ample-Reallocs ample-Grants (negsuc 0) (omega arith) (omega arith)

exec_context_example :
    Travels (exec_context_serialize ample context) (exec_context_deserialize ample) context
exec_context_example = exec_context-Travels ample ample-Reallocs ample-Grants context context-Fits

data_example :
    Travels
      (data_serialize ample plenty (some (7 ∷ (8 ∷ []))) 2)
      (data_deserialize ample plenty)
      (some (7 ∷ (8 ∷ [])))
data_example =
    data-Travels ample plenty ample-Reallocs ample-Grants has_memory (7 ∷ (8 ∷ [])) (omega arith)
      (omega arith)

text_example :
    Travels
      (text_serialize ample plenty (some (72 ∷ (73 ∷ []))))
      (text_deserialize ample plenty)
      (some (72 ∷ (73 ∷ (0 ∷ []))))
text_example =
    text-Travels ample plenty ample-Reallocs ample-Grants has_memory (72 ∷ (73 ∷ [])) (omega arith)

subpayload_example :
    Travels
      (subpayload_serialize ample plenty (cursor (1 ∷ []) (2 ∷ [])))
      (subpayload_deserialize ample plenty (cursor [] []))
      (record { size = 2; stream = 1 ∷ (2 ∷ []); offset = 0 })
subpayload_example =
    subpayload-Travels ample plenty ample-Reallocs ample-Grants has_memory
      (cursor (1 ∷ []) (2 ∷ [])) (cursor [] []) refl (omega arith)

-- Two opcodes stand for the truth values, so that a list of these has an element that arrives.
abbrev opcode_of : Bool → CpuOpcode
opcode_of true = io
opcode_of false = set

abbrev is_io : ℤ → Bool
is_io (pos n) = n == 17
is_io (negsuc n) = false

flag-Travels :
    (b : Bool)
    → Travels
        (cpu_opcode_serialize ample (opcode_of b))
        (cpu_opcode_deserialize ample >>= λ z. pure (is_io z))
        b
unfolding opcode_number
flag-Travels true =
    let (bytes, w, r) = cpu_opcode-Travels ample ample-Reallocs ample-Grants io in
    (bytes, w, Reads-map is_io r)
flag-Travels false =
    let (bytes, w, r) = cpu_opcode-Travels ample ample-Reallocs ample-Grants set in
    (bytes, w, Reads-map is_io r)

list_example :
    Travels
      (list_serialize ample plenty
        (λ b. cpu_opcode_serialize ample (opcode_of b))
        (true ∷ (false ∷ [])))
      (list_deserialize ample plenty (cpu_opcode_deserialize ample >>= λ z. pure (is_io z)))
      (true ∷ (false ∷ []))
list_example =
    list-Travels ample plenty ample-Reallocs ample-Grants has_memory
      (λ b. cpu_opcode_serialize ample (opcode_of b))
      (cpu_opcode_deserialize ample >>= λ z. pure (is_io z)) flag-Travels (true ∷ (false ∷ []))
      (omega arith)
