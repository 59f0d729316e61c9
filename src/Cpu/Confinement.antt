-- ===== src/Cpu/Confinement.antt =====
-- WRITE_MEM, from the CPU's registers to the bytes of MAIN_MEMORY.
use mathlib.Core.Path.{subst}
use so_tp_2024_2c_the_last_o.Prelude.{
  ℕ, ◌%◌, ◌^◌, ◌≤◌, ◌<◌, ◌≡◌, refl, sym, ap, ◌∙◌, Option, none, some, List, [], ◌∷◌, arith, length,
}
use so_tp_2024_2c_the_last_o.Payload.Defs.{Result, ok, err}
use so_tp_2024_2c_the_last_o.Serialize.Bytes.{to_bytes, length-to_bytes}
use so_tp_2024_2c_the_last_o.Serialize.Context.{ExecContext}
use so_tp_2024_2c_the_last_o.Memory.Types.{MemoryThread, MemoryProcess, Memory}
use so_tp_2024_2c_the_last_o.Memory.Processes.{replies}
use so_tp_2024_2c_the_last_o.Memory.Invariant.{Valid}
use so_tp_2024_2c_the_last_o.Memory.UserSpace.{found, access, seek_cpu_context, write_memory}
use so_tp_2024_2c_the_last_o.Memory.Confined.{OthersKept, write_memory-confined}
use so_tp_2024_2c_the_last_o.Cpu.Mmu.{mmu}
use so_tp_2024_2c_the_last_o.Cpu.Registers.{
  CpuRegister, decode_register, get_register_value, get_register_size,
}
use so_tp_2024_2c_the_last_o.Cpu.State.{Cpu, Step, returns, exits, crashes, registers_of, given}
use so_tp_2024_2c_the_last_o.Cpu.Instructions.{translated, stored, write_mem_cpu_operation}

-- An operation that returns leaves the bytes of all other processes; it does not crash.
abbrev pub Confines : ℕ → Memory → Step → Type 0
Confines pid m (returns failed cpu m') = OthersKept pid m m'
Confines pid m exits = Unit {0}
Confines pid m crashes = ⊥

OthersKept-refl : (pid : ℕ) (m : Memory) → OthersKept pid m m
OthersKept-refl pid m = record { kept = λ j r home i f other at_home from below. refl }

given-Confines :
    {A : Type 0} (pid : ℕ) (m : Memory) (cpu : Cpu) (o : Option A) (next : A → Step)
    → ((a : A) → Confines pid m (next a))
    → Confines pid m (given o cpu m next)
given-Confines pid m cpu none next h = OthersKept-refl pid m
given-Confines pid m cpu (some a) next h = h a

translated-Confines :
    (pid : ℕ) (m : Memory) (cpu : Cpu) (r : Result ℕ) (next : ℕ → Step)
    → ((a : ℕ) → r ≡ ok a → Confines pid m (next a))
    → Confines pid m (translated r cpu m next)
translated-Confines pid m cpu (ok a) next h = h a refl
translated-Confines pid m cpu (err e) next h = OthersKept-refl pid m

-- WRITE_MEM with any arguments, in a valid state of a memory below 2 ^ 32 bytes that holds the
-- partitions, run by a CPU with the base and the limit that the memory module sent for a live
-- thread of its process, does not crash and changes no byte of the partition of another process.
pub write_mem_cpu_operation-Confines :
    (total : ℕ) (argv : List (List ℕ)) (cpu : Cpu) (m : Memory) (q : MemoryProcess)
    (thread : MemoryThread) (start : ExecContext)
    → Valid total m
    → total ≤ length m.main_memory
    → total < 2 ^ 32
    → access cpu.pid cpu.tid m ≡ found q thread
    → seek_cpu_context cpu.pid cpu.tid m ≡ replies (some start) m
    → cpu.exec_context.base ≡ start.base
    → cpu.exec_context.limit ≡ start.limit
    → Confines cpu.pid m (write_mem_cpu_operation argv cpu m)
unfolding write_mem_cpu_operation
write_mem_cpu_operation-Confines total [] cpu m q thread start v fits small e sent base limit =
    OthersKept-refl cpu.pid m
write_mem_cpu_operation-Confines total (_ ∷ []) cpu m q thread start v fits small e sent base
      limit =
    OthersKept-refl cpu.pid m
write_mem_cpu_operation-Confines total (_ ∷ (_ ∷ [])) cpu m q thread start v fits small e sent base
      limit =
    OthersKept-refl cpu.pid m
write_mem_cpu_operation-Confines total (_ ∷ (_ ∷ (_ ∷ (_ ∷ _)))) cpu m q thread start v fits small e
      sent base limit =
    OthersKept-refl cpu.pid m
write_mem_cpu_operation-Confines total (_ ∷ (address ∷ (source ∷ []))) cpu m q thread start v fits
      small e sent base limit =
    given-Confines cpu.pid m cpu (decode_register address) _ (λ a.
      given-Confines cpu.pid m cpu (decode_register source) _ (λ s.
        translated-Confines cpu.pid m cpu
          (mmu cpu.exec_context (get_register_value (registers_of cpu) a) (get_register_size s)) _
          (λ physical k. stores a s physical k)))
  where
    stores :
        (a s : CpuRegister) (physical : ℕ)
        → mmu cpu.exec_context (get_register_value (registers_of cpu) a) 4 ≡ ok physical
        → Confines cpu.pid m (
            stored cpu (
              write_memory cpu.pid cpu.tid
                (physical % 2 ^ 32)
                (to_bytes 4 (get_register_value (registers_of cpu) s))
                m))
    stores a s physical k =
        let bytes : List ℕ = to_bytes 4 (get_register_value (registers_of cpu) s) in
        let four : length bytes ≡ 4 = length-to_bytes 4 (get_register_value (registers_of cpu) s) in
        let (m', within, written, read, kept) =
          write_memory-confined total cpu.pid cpu.tid (get_register_value (registers_of cpu) a)
            physical bytes m q thread start cpu.exec_context v fits small e sent base limit
            (ap (mmu cpu.exec_context (get_register_value (registers_of cpu) a)) four ∙ k) in
        let cut : physical % 2 ^ 32 ≡ physical = omega (arith, within, small) in
        subst (λ o. Confines cpu.pid m (stored cpu o))
          (sym (ap (λ b. write_memory cpu.pid cpu.tid b bytes m) cut ∙ written)) kept
