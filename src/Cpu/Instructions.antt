-- ===== src/Cpu/Instructions.antt =====
-- The operations of src/cpu/src/opcodes.c on registers and on the user space.
use so_tp_2024_2c_the_last_o.Prelude.{
  ℕ, ◌+◌, ◌-◌, ◌%◌, ◌^◌, false, Option, none, some, List, [], ◌∷◌, ◌==◌, length, if◌then◌else◌,
}
use so_tp_2024_2c_the_last_o.Payload.Defs.{Result, ok, err, Errno, efault}
use so_tp_2024_2c_the_last_o.Serialize.Bytes.{to_bytes, of_bytes}
use so_tp_2024_2c_the_last_o.Serialize.Scalars.{
  segmentation_fault, unexpected_error, EvictionReason,
}
use so_tp_2024_2c_the_last_o.Memory.Types.{Memory}
use so_tp_2024_2c_the_last_o.Memory.Processes.{
  Outcome, replies, thread_ends, undefined, Reply, success, failure,
}
use so_tp_2024_2c_the_last_o.Memory.UserSpace.{read_memory, write_memory}
use so_tp_2024_2c_the_last_o.Cpu.Registers.{
  CpuRegister, decode_register, get_register_value, set_register_value, get_register_size,
}
use so_tp_2024_2c_the_last_o.Cpu.Mmu.{mmu}
use so_tp_2024_2c_the_last_o.Cpu.State.{
  Cpu, Step, exits, returns, crashes, with_registers, registers_of, fails, unexpected, done, given,
  str_to_word,
}

-- The name of the instruction is the first argument, and argc the length of the list.
module _ (strtoul : List ℕ → ℕ × List ℕ) where
  unfoldable pub set_cpu_operation : List (List ℕ) → Cpu → Memory → Step
  unfolding decode_register str_to_word set_register_value
  set_cpu_operation (_ ∷ (destination ∷ (text ∷ []))) cpu m =
      given (decode_register destination) cpu m (λ r.
        given (str_to_word strtoul 32 text) cpu m
          (λ value. done (with_registers (set_register_value (registers_of cpu) r value) cpu) m))
  set_cpu_operation argv cpu m = unexpected cpu m

  unfoldable pub jnz_cpu_operation : List (List ℕ) → Cpu → Memory → Step
  unfolding decode_register str_to_word get_register_value
  jnz_cpu_operation (_ ∷ (tested ∷ (text ∷ []))) cpu m = given (decode_register tested) cpu m (λ r.
      given (str_to_word strtoul 32 text) cpu m (λ instruction.
        if get_register_value (registers_of cpu) r == 0
        then done cpu m
        else returns false
            (record (with_registers (record (registers_of cpu) { pc = instruction }) cpu) {
              syscall_called = false;
            })
            m))
  jnz_cpu_operation argv cpu m = unexpected cpu m

-- SUM and SUB, with the arithmetic of uint32_t.
unfoldable pub arithmetic_operation : (ℕ → ℕ → ℕ) → List (List ℕ) → Cpu → Memory → Step
unfolding decode_register get_register_value set_register_value
arithmetic_operation combine (_ ∷ (destination ∷ (origin ∷ []))) cpu m =
    given (decode_register destination) cpu m (λ d. given (decode_register origin) cpu m (λ o.
      let value =
        combine (get_register_value (registers_of cpu) d)
          (get_register_value (registers_of cpu) o) in
      done (with_registers (set_register_value (registers_of cpu) d value) cpu) m))
arithmetic_operation combine argv cpu m = unexpected cpu m

abbrev pub sum_cpu_operation : List (List ℕ) → Cpu → Memory → Step
sum_cpu_operation = arithmetic_operation (λ d o. (d + o) % 2 ^ 32)

abbrev pub sub_cpu_operation : List (List ℕ) → Cpu → Memory → Step
sub_cpu_operation = arithmetic_operation (λ d o. (d + 2 ^ 32 - o) % 2 ^ 32)

unfoldable pub log_cpu_operation : List (List ℕ) → Cpu → Memory → Step
unfolding decode_register
log_cpu_operation (_ ∷ (logged ∷ [])) cpu m = given (decode_register logged) cpu m (λ r. done cpu m)
log_cpu_operation argv cpu m = unexpected cpu m

-- errno after a failed mmu decides the reason.
abbrev pub mmu_failure : Errno → EvictionReason
mmu_failure efault = segmentation_fault
mmu_failure e = unexpected_error

abbrev pub translated : Result ℕ → Cpu → Memory → (ℕ → Step) → Step
translated (ok physical_address) cpu m next = next physical_address
translated (err e) cpu m next = fails (mmu_failure e) cpu m

-- The answer of the memory module: the bytes go to the register when they are as many as were asked
-- for.
abbrev pub loaded : CpuRegister → Cpu → Outcome (Option (List ℕ)) → Step
loaded r cpu (replies none m) = unexpected cpu m
loaded r cpu (replies (some bytes) m) =
    if length bytes == get_register_size r
    then done (with_registers (set_register_value (registers_of cpu) r (of_bytes bytes)) cpu) m
    else unexpected cpu m
loaded r cpu (thread_ends m) = exits
loaded r cpu undefined = crashes

-- The request carries the address as uint32_t.
unfoldable pub read_mem_cpu_operation : List (List ℕ) → Cpu → Memory → Step
unfolding decode_register get_register_value mmu read_memory
read_mem_cpu_operation (_ ∷ (destination ∷ (address ∷ []))) cpu m =
    given (decode_register destination) cpu m (λ d. given (decode_register address) cpu m (λ a.
      translated
        (mmu cpu.exec_context (get_register_value (registers_of cpu) a) (get_register_size d)) cpu m
        (λ physical.
          loaded d cpu (read_memory cpu.pid cpu.tid (physical % 2 ^ 32) (get_register_size d) m))))
read_mem_cpu_operation argv cpu m = unexpected cpu m

abbrev pub stored : Cpu → Outcome Reply → Step
stored cpu (replies success m) = done cpu m
stored cpu (replies failure m) = unexpected cpu m
stored cpu (thread_ends m) = exits
stored cpu undefined = crashes

unfoldable pub write_mem_cpu_operation : List (List ℕ) → Cpu → Memory → Step
unfolding decode_register get_register_value mmu write_memory
write_mem_cpu_operation (_ ∷ (address ∷ (source ∷ []))) cpu m =
    given (decode_register address) cpu m (λ a. given (decode_register source) cpu m (λ s.
      translated
        (mmu cpu.exec_context (get_register_value (registers_of cpu) a) (get_register_size s)) cpu m
        (λ physical. stored cpu (
          write_memory cpu.pid cpu.tid (physical % 2 ^ 32)
            (to_bytes (get_register_size s) (get_register_value (registers_of cpu) s)) m))))
write_mem_cpu_operation argv cpu m = unexpected cpu m
