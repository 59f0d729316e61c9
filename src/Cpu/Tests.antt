-- ===== src/Cpu/Tests.antt =====
-- The theorems on the CPU at concrete states.
use mathlib.Core.Logic.{◌↔◌}
use so_tp_2024_2c_the_last_o.Prelude.{
  ℕ, ◌+◌, ◌<◌, ◌≡◌, ◌≢◌, refl, Bool, true, false, none, some, List, [], ◌∷◌, arith, ◌==◌,
}
use so_tp_2024_2c_the_last_o.Payload.Defs.{ok, err, efault, payload_init}
use so_tp_2024_2c_the_last_o.Payload.Tests.{ample}
use so_tp_2024_2c_the_last_o.Serialize.Scalars.{
  sum, process_exit, thread_exit, none_interrupt, unexpected_error, exit,
}
use so_tp_2024_2c_the_last_o.Memory.Tests.{
  live_memory, live_memory-Valid, live_process, live_thread, number,
}
use so_tp_2024_2c_the_last_o.Memory.Scenes.{
  live_context, live_access, live_context_sent, memory_length,
}
use so_tp_2024_2c_the_last_o.Memory.Processes.{replies, lookup_process, lookup_slot}
use so_tp_2024_2c_the_last_o.Memory.UserSpace.{seek_instruccion, access}
use so_tp_2024_2c_the_last_o.Cpu.State.{Cpu}
use so_tp_2024_2c_the_last_o.Cpu.Mmu.{mmu, mmu_inside, mmu_complete, mmu_last_byte}
use so_tp_2024_2c_the_last_o.Cpu.Instructions.{write_mem_cpu_operation}
use so_tp_2024_2c_the_last_o.Cpu.Confinement.{Confines, write_mem_cpu_operation-Confines}
use so_tp_2024_2c_the_last_o.Cpu.Cycle.{split_words, evicts_for, run_instruction, check_interrupts}
use so_tp_2024_2c_the_last_o.Cpu.Interrupts.{run_instruction-full, check_interrupts-none}

abbrev idle_cpu : Cpu
idle_cpu = record {
  pid = 0;
  tid = 0;
  exec_context = live_context;
  eviction_reason = exit;
  syscall_called = false;
  syscall_instruction = payload_init;
}

mmu_at_2 : mmu live_context 2 4 ≡ ok 2
unfolding mmu
mmu_at_2 = refl

mmu_inside_example : (2 ≡ 0 + 2) × (2 + 4 < 0 + 8)
mmu_inside_example = mmu_inside live_context 2 4 2 mmu_at_2

mmu_complete_example : mmu live_context 3 4 ≡ ok (0 + 3)
mmu_complete_example = mmu_complete live_context 3 4 (omega arith) (omega arith)

mmu_last_byte_example : mmu live_context 4 4 ≡ err efault
mmu_last_byte_example = mmu_last_byte live_context 4 4 (omega arith) (omega arith)

-- WRITE_MEM AX BX.
write_mem_example : Confines 0 live_memory (
    write_mem_cpu_operation
      ((87 ∷ []) ∷ ((65 ∷ (88 ∷ [])) ∷ ((66 ∷ (88 ∷ [])) ∷ [])))
      idle_cpu
      live_memory)
write_mem_example =
    write_mem_cpu_operation-Confines 32 ((87 ∷ []) ∷ ((65 ∷ (88 ∷ [])) ∷ ((66 ∷ (88 ∷ [])) ∷ [])))
      idle_cpu live_memory live_process live_thread live_context live_memory-Valid memory_length
      (omega arith) live_access live_context_sent refl refl

abbrev plenty : ℕ → Bool
plenty n = true

abbrev blank : ℕ → Bool
blank c = c == 32

abbrev four_words : List (List ℕ)
four_words = [] ∷ ([] ∷ ([] ∷ ([] ∷ [])))

line_fetched : seek_instruccion 0 0 0 live_memory ≡ replies (some (73 ∷ [])) live_memory
unfolding seek_instruccion access lookup_process lookup_slot
line_fetched = refl

line_split : split_words blank (73 ∷ []) [] ≡ (73 ∷ []) ∷ []
unfolding split_words
line_split = refl

run_instruction_example :
    run_instruction ample plenty number blank 4 none_interrupt four_words idle_cpu live_memory
    ≡ evicts_for unexpected_error idle_cpu live_memory four_words
run_instruction_example =
    run_instruction-full ample plenty number blank 4 none_interrupt four_words idle_cpu live_memory
      (73 ∷ []) (73 ∷ []) [] refl line_fetched line_split

check_interrupts_example : (check_interrupts none_interrupt sum false ≡ none) ↔ (
    (none_interrupt ≡ none_interrupt)
    × (false ≡ false)
    × (sum ≢ process_exit)
    × (sum ≢ thread_exit))
check_interrupts_example = check_interrupts-none none_interrupt sum false
