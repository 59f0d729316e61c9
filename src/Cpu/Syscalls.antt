-- ===== src/Cpu/Syscalls.antt =====
-- The operations of src/cpu/src/opcodes.c that call the system. Each advances PC first and writes
-- its opcode and arguments to SYSCALL_INSTRUCTION; a bad argument is found after that.
use so_tp_2024_2c_the_last_o.Prelude.{ℕ, ◌*◌, Bool, some, List, [], ◌∷◌}
use so_tp_2024_2c_the_last_o.Payload.Defs.{Realloc}
use so_tp_2024_2c_the_last_o.Serialize.Scalars.{
  CpuOpcode, process_create, process_exit, thread_create, thread_join, thread_cancel, thread_exit,
  mutex_create, mutex_lock, mutex_unlock, dump_memory, io, add_word, size_serialize,
  cpu_opcode_serialize,
}
use so_tp_2024_2c_the_last_o.Serialize.Blocks.{text_serialize}
use so_tp_2024_2c_the_last_o.Memory.Types.{Memory}
use so_tp_2024_2c_the_last_o.Cpu.State.{
  Cpu, Step, advance, unexpected, calls, writes, given, str_to_word,
}

module _ (realloc : Realloc) (malloc : ℕ → Bool) (strtoul : List ℕ → ℕ × List ℕ) where
  -- PROCESS_EXIT, THREAD_EXIT and DUMP_MEMORY have no argument.
  unfoldable pub plain_call : CpuOpcode → List (List ℕ) → Cpu → Memory → Step
  plain_call opcode (_ ∷ []) cpu m =
      writes (cpu_opcode_serialize realloc opcode) (advance cpu) (λ c. calls c m)
  plain_call opcode argv cpu m = unexpected cpu m

  abbrev pub process_exit_cpu_operation : List (List ℕ) → Cpu → Memory → Step
  process_exit_cpu_operation = plain_call process_exit

  abbrev pub thread_exit_cpu_operation : List (List ℕ) → Cpu → Memory → Step
  thread_exit_cpu_operation = plain_call thread_exit

  abbrev pub dump_memory_cpu_operation : List (List ℕ) → Cpu → Memory → Step
  dump_memory_cpu_operation = plain_call dump_memory

  -- MUTEX_CREATE, MUTEX_LOCK and MUTEX_UNLOCK have the name of a resource.
  unfoldable pub resource_call : CpuOpcode → List (List ℕ) → Cpu → Memory → Step
  resource_call opcode (_ ∷ (resource ∷ [])) cpu m =
      writes (cpu_opcode_serialize realloc opcode) (advance cpu)
        (λ c. writes (text_serialize realloc malloc (some resource)) c (λ d. calls d m))
  resource_call opcode argv cpu m = unexpected cpu m

  abbrev pub mutex_create_cpu_operation : List (List ℕ) → Cpu → Memory → Step
  mutex_create_cpu_operation = resource_call mutex_create

  abbrev pub mutex_lock_cpu_operation : List (List ℕ) → Cpu → Memory → Step
  mutex_lock_cpu_operation = resource_call mutex_lock

  abbrev pub mutex_unlock_cpu_operation : List (List ℕ) → Cpu → Memory → Step
  mutex_unlock_cpu_operation = resource_call mutex_unlock

  -- THREAD_JOIN and THREAD_CANCEL have a tid, of 2 bytes, and IO a time, of 8.
  unfoldable pub number_call : CpuOpcode → ℕ → List (List ℕ) → Cpu → Memory → Step
  unfolding str_to_word
  number_call opcode width (_ ∷ (text ∷ [])) cpu m =
      writes (cpu_opcode_serialize realloc opcode) (advance cpu) (λ c.
        given (str_to_word strtoul (8 * width) text) c m
          (λ value. writes (add_word realloc width value) c (λ d. calls d m)))
  number_call opcode width argv cpu m = unexpected cpu m

  abbrev pub thread_join_cpu_operation : List (List ℕ) → Cpu → Memory → Step
  thread_join_cpu_operation = number_call thread_join 2

  abbrev pub thread_cancel_cpu_operation : List (List ℕ) → Cpu → Memory → Step
  thread_cancel_cpu_operation = number_call thread_cancel 2

  abbrev pub io_cpu_operation : List (List ℕ) → Cpu → Memory → Step
  io_cpu_operation = number_call io 8

  unfoldable pub thread_create_cpu_operation : List (List ℕ) → Cpu → Memory → Step
  unfolding str_to_word
  thread_create_cpu_operation (_ ∷ (path ∷ (text ∷ []))) cpu m =
      writes (cpu_opcode_serialize realloc thread_create) (advance cpu) (λ c.
        writes (text_serialize realloc malloc (some path)) c (λ d.
          given (str_to_word strtoul 32 text) d m
            (λ priority. writes (add_word realloc 4 priority) d (λ e. calls e m))))
  thread_create_cpu_operation argv cpu m = unexpected cpu m

  unfoldable pub process_create_cpu_operation : List (List ℕ) → Cpu → Memory → Step
  unfolding str_to_word
  process_create_cpu_operation (_ ∷ (path ∷ (size_text ∷ (text ∷ [])))) cpu m =
      writes (cpu_opcode_serialize realloc process_create) (advance cpu) (λ c.
        writes (text_serialize realloc malloc (some path)) c (λ d.
          given (str_to_word strtoul 64 size_text) d m (λ size.
            writes (size_serialize realloc size) d (λ e.
              given (str_to_word strtoul 32 text) e m
                (λ priority. writes (add_word realloc 4 priority) e (λ f. calls f m))))))
  process_create_cpu_operation argv cpu m = unexpected cpu m
