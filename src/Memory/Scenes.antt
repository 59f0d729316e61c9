-- ===== src/Memory/Scenes.antt =====
-- The user space and the partition table at concrete states.
use so_tp_2024_2c_the_last_o.Prelude.{
  ℕ, ◌+◌, ◌≤◌, ◌≡◌, refl, true, false, some, List, [], ◌∷◌, arith, length,
}
use so_tp_2024_2c_the_last_o.Payload.Defs.{ok}
use so_tp_2024_2c_the_last_o.Serialize.Context.{ExecContext}
use so_tp_2024_2c_the_last_o.Cpu.Mmu.{mmu}
use so_tp_2024_2c_the_last_o.Memory.Types.{dynamic, best_fit, Partition, Memory}
use so_tp_2024_2c_the_last_o.Memory.Partitions.{
  find, update, insert_at, search, fit_loop, split_partition, allocate_found, allocate_partition,
  verify_and_join_splited_partitions,
}
use so_tp_2024_2c_the_last_o.Memory.Processes.{
  replies, success, occupy, lookup_process, lookup_slot, zero_registers,
}
use so_tp_2024_2c_the_last_o.Memory.Shapes.{Placed, allocate-Placed}
use so_tp_2024_2c_the_last_o.Memory.Joining.{Joined, verify_and_join-Joined}
use so_tp_2024_2c_the_last_o.Memory.UserSpace.{
  access, found, seek_cpu_context, read_memory, write_memory,
}
use so_tp_2024_2c_the_last_o.Memory.Boot.{zeros}
use so_tp_2024_2c_the_last_o.Memory.Confined.{OthersKept, write_memory-confined}
use so_tp_2024_2c_the_last_o.Memory.Tests.{
  live_memory, live_memory-Valid, live_process, live_thread,
}

abbrev pub live_context : ExecContext
live_context = record { cpu_registers = zero_registers; base = 0; limit = 8 }

pub live_access : access 0 0 live_memory ≡ found live_process live_thread
unfolding access lookup_process lookup_slot
live_access = refl

pub live_context_sent : seek_cpu_context 0 0 live_memory ≡ replies (some live_context) live_memory
unfolding seek_cpu_context access lookup_process lookup_slot find
live_context_sent = refl

mmu_at_2 : mmu live_context 2 2 ≡ ok 2
unfolding mmu
mmu_at_2 = refl

pub memory_length : 32 ≤ length live_memory.main_memory
unfolding zeros
memory_length = omega arith

write_memory_example :
    (m' : Memory) × (2 + 2 ≤ 32)
    × (write_memory 0 0 2 (5 ∷ (6 ∷ [])) live_memory ≡ replies success m')
    × (read_memory 0 0 2 2 m' ≡ replies (some (5 ∷ (6 ∷ []))) m')
    × OthersKept 0 live_memory m'
write_memory_example =
    write_memory-confined 32 0 0 2 2 (5 ∷ (6 ∷ [])) live_memory live_process live_thread
      live_context live_context live_memory-Valid memory_length (omega arith) live_access
      live_context_sent refl refl mmu_at_2

abbrev occupied_at : ℕ → ℕ → ℕ → Partition
occupied_at address size base = record {
  address = address;
  size = size;
  base = base;
  occupied = true;
  pid = 0;
}

abbrev free_at : ℕ → ℕ → ℕ → Partition
free_at address size base = record {
  address = address;
  size = size;
  base = base;
  occupied = false;
  pid = 0;
}

abbrev two_partitions : List Partition
two_partitions = occupied_at 0 8 0 ∷ (free_at 1 24 8 ∷ [])

abbrev cut_partitions : List Partition
cut_partitions =
    occupied_at 0 8 0
    ∷ (record { address = 1; size = 10; base = 8; occupied = false; pid = 0 }
        ∷ (free_at 2 14 18 ∷ []))

cut_partitions_made :
    allocate_partition dynamic best_fit 2 two_partitions 10 ≡ (some 1, cut_partitions, 3)
unfolding allocate_partition search fit_loop allocate_found split_partition insert_at
cut_partitions_made = refl

allocate_example : Placed 4 10 2 two_partitions (update 1 (occupy 4) cut_partitions) 3 1
allocate_example =
    allocate-Placed dynamic best_fit 4 2 10 1 3 two_partitions cut_partitions
      ((λ e. absurd (omega (arith, e)), tt), (tt, tt)) cut_partitions_made

join_example :
    (t' : List Partition) × (verify_and_join_splited_partitions 1
        (free_at 0 8 0 ∷ (free_at 1 4 8 ∷ (free_at 2 20 12 ∷ [])))
      ≡ some t')
    × Joined (free_at 0 8 0 ∷ []) (free_at 1 4 8) (free_at 2 20 12 ∷ []) t'
join_example =
    verify_and_join-Joined 1 (free_at 0 8 0 ∷ []) (free_at 1 4 8) (free_at 2 20 12 ∷ [])
      (λ e. absurd (omega (arith, e)), tt) refl
