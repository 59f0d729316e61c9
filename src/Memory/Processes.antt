-- ===== src/Memory/Processes.antt =====
-- The requests of the kernel that create and destroy processes and threads:
-- attend_process_create, attend_process_destroy, attend_thread_create and attend_thread_destroy of
-- src/memoria/src/client_kernel.c, on the fields of their payloads, with memory_process_create and
-- memory_thread_create of memoria.c. The lines of a thread are those that parse_pseudocode_file
-- gives.
use so_tp_2024_2c_the_last_o.Prelude.{
  ℕ, zero, suc, ◌%◌, ◌^◌, true, false, Option, none, some, List, [], ◌∷◌, ◌++◌, ◌==◌, leb,
  if◌then◌else◌, length, set, take,
}
use so_tp_2024_2c_the_last_o.Serialize.Context.{CpuRegisters}
use so_tp_2024_2c_the_last_o.Memory.Types.{
  Scheme, fixed, dynamic, Partition, MemoryThread, Slot, null, uninit, live, MemoryProcess, Memory,
}
use so_tp_2024_2c_the_last_o.Memory.Partitions.{
  update, allocate_partition, verify_and_join_splited_partitions,
}

-- How a request ends: with an answer that is sent back, with the end of the thread that serves the
-- client, or with undefined behaviour (a NULL pointer followed, an access outside a block).
pub data Outcome (A : Type 0) : Type 0 where
  replies : A → Memory → Outcome A
  thread_ends : Memory → Outcome A
  undefined : Outcome A

-- The `result` that the handlers send: 0 or -1.
pub data Reply : Type 0 where
  success failure : Reply

-- ARRAY_PROCESS_MEMORY[pid], or `none` where the guard `pid >= PID_COUNT || … == NULL` holds.
unfoldable pub lookup_process : ℕ → List (Option MemoryProcess) → Option MemoryProcess
lookup_process pid [] = none
lookup_process zero (p ∷ ps) = p
lookup_process (suc pid) (p ∷ ps) = lookup_process pid ps

abbrev pub occupy : ℕ → Partition → Partition
occupy pid p = record p { occupied = true; pid = pid }

abbrev pub release : Partition → Partition
release p = record p { occupied = false }

abbrev pub memory_process_create : ℕ → ℕ → ℕ → MemoryProcess
memory_process_create pid size partition = record {
  pid = pid;
  size = size;
  partition = partition;
  threads = [];
}

-- add_element_to_array_process: the new process goes to index PID_COUNT, whatever its pid is.
-- PID_COUNT has 16 bits: after 65535 it is 0, and the next realloc cuts the block to one entry, so
-- that no entry is left.
abbrev pub add_element_to_array_process :
    MemoryProcess → List (Option MemoryProcess) → List (Option MemoryProcess)
add_element_to_array_process process processes =
    take (suc (length processes) % 2 ^ 16) (processes ++ (some process ∷ []))

abbrev pub place_process : ℕ → ℕ → Memory → Option ℕ × List Partition × ℕ → Outcome Reply
place_process pid size m (none, table, next) =
    replies failure (record m { table = table; next_address = next })
place_process pid size m (some a, table, next) = replies success (record m {
  table = update a (occupy pid) table;
  next_address = next;
  processes = add_element_to_array_process (memory_process_create pid size a) m.processes;
})

unfoldable pub process_create : ℕ → ℕ → Memory → Outcome Reply
unfolding allocate_partition lookup_process
process_create pid size m = elim (lookup_process pid m.processes) [
  | some _ ↦ replies failure m
  | none ↦
      place_process pid size m (allocate_partition m.scheme m.algorithm m.next_address m.table size)
]

abbrev pub joined_table : Memory → Option (List Partition) → Outcome Reply
joined_table m none = undefined
joined_table m (some table) = replies success (record m { table = table })

-- Only the dynamic scheme joins.
abbrev pub join_freed : Scheme → Memory → ℕ → List Partition → Outcome Reply
join_freed fixed m a table = replies success (record m { table = table })
join_freed dynamic m a table = joined_table m (verify_and_join_splited_partitions a table)

-- array_memory_threads_destroy: memory_thread_destroy passes over NULL and gives 0 otherwise; an
-- entry that nothing wrote is followed, without a result.
unfoldable pub array_memory_threads_destroy : List Slot → Option (Unit {0})
array_memory_threads_destroy [] = some tt
array_memory_threads_destroy (null ∷ slots) = array_memory_threads_destroy slots
array_memory_threads_destroy (uninit ∷ slots) = none
array_memory_threads_destroy (live _ ∷ slots) = array_memory_threads_destroy slots

-- memory_process_destroy, where pthread_rwlock_destroy gives `status`; a result other than 0 ends
-- the thread that serves the client.
abbrev pub memory_process_destroy : ℕ → Memory → Option (Unit {0}) → Outcome Reply
memory_process_destroy status m none = undefined
memory_process_destroy status m (some _) = if status == 0 then replies success m else thread_ends m

abbrev pub free_process : ℕ → MemoryProcess → Outcome Reply → Outcome Reply
free_process status process (replies _ m) =
    memory_process_destroy status m (array_memory_threads_destroy process.threads)
free_process status process (thread_ends m) = thread_ends m
free_process status process undefined = undefined

-- The process's block is freed after its partition.
unfoldable pub process_destroy : ℕ → ℕ → Memory → Outcome Reply
unfolding verify_and_join_splited_partitions lookup_process array_memory_threads_destroy
process_destroy status pid m = elim (lookup_process pid m.processes) [
  | none ↦ replies failure m
  | some process ↦ free_process status process (
      join_freed m.scheme (record m { processes = set m.processes pid none }) process.partition
        (update process.partition release m.table))
]

abbrev pub zero_registers : CpuRegisters
zero_registers = record { pc = 0; ax = 0; bx = 0; cx = 0; dx = 0; ex = 0; fx = 0; gx = 0; hx = 0 }

abbrev pub memory_thread_create : ℕ → List (List ℕ) → MemoryThread
memory_thread_create tid instructions = record {
  tid = tid;
  registers = zero_registers;
  instructions = instructions;
}

-- array_memory_threads[tid] of a process, or `none` where the guard on tid_count holds.
unfoldable pub lookup_slot : ℕ → List Slot → Option Slot
lookup_slot tid [] = none
lookup_slot zero (s ∷ ss) = some s
lookup_slot (suc tid) (s ∷ ss) = lookup_slot tid ss

abbrev pub set_process : ℕ → MemoryProcess → Memory → Memory
set_process pid process m = record m { processes = set m.processes pid (some process) }

-- realloc makes room for tid_count + 1 entries and leaves the new one unwritten; a tid above
-- tid_count is written outside the block. tid_count has 16 bits, and no entry is left after 65535.
abbrev add_thread : ℕ → MemoryProcess → MemoryThread → Memory → Outcome Reply
add_thread pid process thread m =
    let n = length process.threads in
    if leb thread.tid n
    then replies success (
        set_process pid
          (record process {
            threads =
                take (suc n % 2 ^ 16)
                  (set (process.threads ++ (uninit ∷ [])) thread.tid (live thread));
          })
          m)
    else undefined

abbrev pub create_in_slot : ℕ → MemoryThread → Memory → MemoryProcess → Option Slot → Outcome Reply
create_in_slot pid thread m process none = add_thread pid process thread m
create_in_slot pid thread m process (some null) = add_thread pid process thread m
create_in_slot pid thread m process (some uninit) = undefined
create_in_slot pid thread m process (some (live _)) = replies failure m

unfoldable pub thread_create : ℕ → ℕ → List (List ℕ) → Memory → Outcome Reply
unfolding lookup_process lookup_slot
thread_create pid tid [] m = replies failure m
thread_create pid tid (i ∷ is) m = elim (lookup_process pid m.processes) [
  | none ↦ replies failure m
  | some process ↦
      create_in_slot pid (memory_thread_create tid (i ∷ is)) m process
        (lookup_slot tid process.threads)
]

abbrev pub destroy_in_slot : ℕ → ℕ → Memory → MemoryProcess → Option Slot → Outcome Reply
destroy_in_slot pid tid m process none = replies failure m
destroy_in_slot pid tid m process (some null) = replies failure m
destroy_in_slot pid tid m process (some uninit) = undefined
destroy_in_slot pid tid m process (some (live _)) =
    replies success (set_process pid (record process { threads = set process.threads tid null }) m)

unfoldable pub thread_destroy : ℕ → ℕ → Memory → Outcome Reply
unfolding lookup_process lookup_slot
thread_destroy pid tid m = elim (lookup_process pid m.processes) [
  | none ↦ replies failure m
  | some process ↦ destroy_in_slot pid tid m process (lookup_slot tid process.threads)
]
