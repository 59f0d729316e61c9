-- ===== src/Cpu/State.antt =====
-- The state of the CPU module, the globals of src/cpu/src/cpu.c, and how an operation ends.
use so_tp_2024_2c_the_last_o.Prelude.{
  ℕ, ◌+◌, ◌%◌, ◌^◌, Bool, true, false, ◌||◌, not, Option, none, some, List, [], ◌∷◌, if◌then◌else◌,
}
use so_tp_2024_2c_the_last_o.Payload.Defs.{Payload, M, Result, ok, err}
use so_tp_2024_2c_the_last_o.Serialize.Scalars.{EvictionReason, unexpected_error}
use so_tp_2024_2c_the_last_o.Serialize.Context.{CpuRegisters, ExecContext}
use so_tp_2024_2c_the_last_o.Memory.Types.{Memory}

pub record Cpu : Type 0 where
  pub pid : ℕ
  pub tid : ℕ
  pub exec_context : ExecContext
  pub eviction_reason : EvictionReason
  pub syscall_called : Bool
  pub syscall_instruction : Payload

-- An operation returns 0 or -1, ends the module by exit_sigint, or runs into undefined behaviour.
-- The memory is that of the memory module, which answers the CPU's requests.
pub data Step : Type 0 where
  returns : (failed : Bool) → Cpu → Memory → Step
  exits : Step
  crashes : Step

abbrev pub with_registers : CpuRegisters → Cpu → Cpu
with_registers registers cpu = record cpu {
  exec_context = record (cpu.exec_context) { cpu_registers = registers };
}

abbrev pub registers_of : Cpu → CpuRegisters
registers_of cpu = cpu.exec_context.cpu_registers

-- EXEC_CONTEXT.cpu_registers.PC++.
abbrev pub advance : Cpu → Cpu
advance cpu =
    with_registers (record (registers_of cpu) { pc = ((registers_of cpu).pc + 1) % 2 ^ 32 }) cpu

-- The failing end of an operation, with its reason.
abbrev pub fails : EvictionReason → Cpu → Memory → Step
fails reason cpu m = returns true (record cpu { eviction_reason = reason }) m

abbrev pub unexpected : Cpu → Memory → Step
unexpected = fails unexpected_error

-- The good ends: of an instruction, and of a system call.
abbrev pub done : Cpu → Memory → Step
done cpu m = returns false (record (advance cpu) { syscall_called = false }) m

abbrev pub calls : Cpu → Memory → Step
calls cpu m = returns false (record cpu { syscall_called = true }) m

-- A step that writes to SYSCALL_INSTRUCTION: exit_sigint when that fails.
abbrev pub written : Result (Unit {0}) × Payload → Cpu → (Cpu → Step) → Step
written (ok _, p) cpu next = next (record cpu { syscall_instruction = p })
written (err e, p) cpu next = exits

abbrev pub writes : M (Unit {0}) → Cpu → (Cpu → Step) → Step
writes call cpu next = written (call cpu.syscall_instruction) cpu next

-- A value that was parsed or looked up, or the failing end.
abbrev pub given : {A : Type 0} → Option A → Cpu → Memory → (A → Step) → Step
given none cpu m next = unexpected cpu m
given (some a) cpu m next = next a

abbrev is_empty_text : List ℕ → Bool
is_empty_text [] = true
is_empty_text (c ∷ cs) = false

-- str_to_uint32, str_to_pc, str_to_tid, str_to_priority and str_to_size: strtoul gives the value
-- and what is left of the text, and the cast keeps `width` bits.
unfoldable pub str_to_word : (List ℕ → ℕ × List ℕ) → ℕ → List ℕ → Option ℕ
str_to_word strtoul width text =
    let (value, rest) = strtoul text in
    if is_empty_text text || not (is_empty_text rest) then none else some (value % 2 ^ width)
