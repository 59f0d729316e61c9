-- ===== src/Memory/UserSpace.antt =====
-- The requests of the CPU: seek_cpu_context, update_cpu_context, seek_instruccion, read_memory and
-- write_memory of src/memoria/src/client_cpu.c, on the fields of their payloads.
use so_tp_2024_2c_the_last_o.Prelude.{
  ℕ, ◌+◌, ◌%◌, ◌^◌, Option, none, some, List, leb, if◌then◌else◌, length, get_elem?, set, take,
  drop,
}
use so_tp_2024_2c_the_last_o.Prelude.Buffer.{write_at}
use so_tp_2024_2c_the_last_o.Serialize.Context.{ExecContext}
use so_tp_2024_2c_the_last_o.Memory.Types.{
  Partition, MemoryThread, null, uninit, live, Slot, MemoryProcess, Memory,
}
use so_tp_2024_2c_the_last_o.Memory.Partitions.{find}
use so_tp_2024_2c_the_last_o.Memory.Processes.{
  Outcome, replies, undefined, Reply, success, failure, lookup_process, lookup_slot, set_process,
}

-- What stands behind a pid and a tid; `wild` is an entry that nothing wrote.
pub data Access : Type 0 where
  no_process no_thread wild : Access
  found : MemoryProcess → MemoryThread → Access

abbrev pub access_slot : MemoryProcess → Option Slot → Access
access_slot process none = no_thread
access_slot process (some null) = no_thread
access_slot process (some uninit) = wild
access_slot process (some (live thread)) = found process thread

abbrev pub access_process : ℕ → Option MemoryProcess → Access
access_process tid none = no_process
access_process tid (some process) = access_slot process (lookup_slot tid process.threads)

unfoldable pub access : ℕ → ℕ → Memory → Access
access pid tid m = access_process tid (lookup_process pid m.processes)

-- The base and the size of the partition are size_t, the fields of the context uint32_t.
abbrev pub context_of : MemoryThread → Partition → ExecContext
context_of thread p = record {
  cpu_registers = thread.registers;
  base = p.base % 2 ^ 32;
  limit = p.size % 2 ^ 32;
}

abbrev pub seek_in : Memory → MemoryThread → Option Partition → Outcome (Option ExecContext)
seek_in m thread none = undefined
seek_in m thread (some p) = replies (some (context_of thread p)) m

-- `none` is the result -1, after which no context is sent.
unfoldable pub seek_cpu_context : ℕ → ℕ → Memory → Outcome (Option ExecContext)
seek_cpu_context pid tid m = elim (access pid tid m) [
  | no_process ↦ replies none m
  | no_thread ↦ replies none m
  | wild ↦ undefined
  | found process thread ↦ seek_in m thread (find process.partition m.table)
]

-- A missing process leaves the result 0.
unfoldable pub update_cpu_context : ℕ → ℕ → ExecContext → Memory → Outcome Reply
update_cpu_context pid tid context m = elim (access pid tid m) [
  | no_process ↦ replies success m
  | no_thread ↦ replies failure m
  | wild ↦ undefined
  | found process thread ↦ replies success (
      set_process pid
        (record process {
          threads =
              set process.threads tid (live (record thread { registers = context.cpu_registers }));
        })
        m)
]

-- The line of code at `pc`, or NULL.
unfoldable pub seek_instruccion : ℕ → ℕ → ℕ → Memory → Outcome (Option (List ℕ))
seek_instruccion pid tid pc m = elim (access pid tid m) [
  | no_process ↦ replies none m
  | no_thread ↦ replies none m
  | wild ↦ undefined
  | found process thread ↦ replies (get_elem? thread.instructions pc) m
]

abbrev pub read_in : ℕ → ℕ → Memory → Option Partition → Outcome (Option (List ℕ))
read_in physical_address bytes m none = undefined
read_in physical_address bytes m (some p) =
    if leb (physical_address + bytes) (length m.main_memory)
    then replies (some (take bytes (drop physical_address m.main_memory))) m
    else undefined

-- Neither handler compares the address with the partition: an access that ends behind MAIN_MEMORY
-- is undefined. The partition is only locked.
unfoldable pub read_memory : ℕ → ℕ → ℕ → ℕ → Memory → Outcome (Option (List ℕ))
read_memory pid tid physical_address bytes m = elim (access pid tid m) [
  | no_process ↦ replies none m
  | no_thread ↦ replies none m
  | wild ↦ undefined
  | found process thread ↦ read_in physical_address bytes m (find process.partition m.table)
]

abbrev pub write_in : ℕ → List ℕ → Memory → Option Partition → Outcome Reply
write_in physical_address data_bytes m none = undefined
write_in physical_address data_bytes m (some p) =
    if leb (physical_address + length data_bytes) (length m.main_memory)
    then replies success
        (record m { main_memory = write_at m.main_memory physical_address data_bytes })
    else undefined

unfoldable pub write_memory : ℕ → ℕ → ℕ → List ℕ → Memory → Outcome Reply
write_memory pid tid physical_address data_bytes m = elim (access pid tid m) [
  | no_process ↦ replies failure m
  | no_thread ↦ replies failure m
  | wild ↦ undefined
  | found process thread ↦ write_in physical_address data_bytes m (find process.partition m.table)
]
