-- ===== src/Cpu/Cycle.antt =====
-- The instruction cycle of src/cpu/src/cpu.c: fetch, decode, execute, and the check of the
-- interrupts, with decode_instruction and CPU_OPERATIONS of opcodes.c and arguments_use of
-- src/utils/src/utils/arguments.c.
use so_tp_2024_2c_the_last_o.Prelude.{
  ℕ, Bool, true, false, Option, none, some, List, [], ◌∷◌, ◌++◌, ltb, length, take, if◌then◌else◌,
}
use so_tp_2024_2c_the_last_o.Payload.Defs.{Realloc}
use so_tp_2024_2c_the_last_o.Serialize.Scalars.{
  CpuOpcode, set, read_mem, write_mem, sum, sub, jnz, log, process_create, process_exit,
  thread_create, thread_join, thread_cancel, thread_exit, mutex_create, mutex_lock, mutex_unlock,
  dump_memory, io, KernelInterrupt, none_interrupt, quantum_interrupt, kill_interrupt,
  EvictionReason, unexpected_error, exit, kill, syscall, quantum_kernel_interrupt,
}
use so_tp_2024_2c_the_last_o.Memory.Types.{Memory}
use so_tp_2024_2c_the_last_o.Memory.Processes.{Outcome, replies, thread_ends, undefined}
use so_tp_2024_2c_the_last_o.Memory.UserSpace.{seek_instruccion}
use so_tp_2024_2c_the_last_o.Cpu.State.{Cpu, Step, returns, exits, crashes, registers_of}
use so_tp_2024_2c_the_last_o.Cpu.Registers.{find_name}
use so_tp_2024_2c_the_last_o.Cpu.Instructions.{
  set_cpu_operation, read_mem_cpu_operation, write_mem_cpu_operation, sum_cpu_operation,
  sub_cpu_operation, jnz_cpu_operation, log_cpu_operation,
}
use so_tp_2024_2c_the_last_o.Cpu.Syscalls.{
  process_create_cpu_operation, process_exit_cpu_operation, thread_create_cpu_operation,
  thread_join_cpu_operation, thread_cancel_cpu_operation, thread_exit_cpu_operation,
  mutex_create_cpu_operation, mutex_lock_cpu_operation, mutex_unlock_cpu_operation,
  dump_memory_cpu_operation, io_cpu_operation,
}

-- CPU_OPCODE_NAMES, in ASCII.
abbrev pub cpu_opcode_names : List (List ℕ × CpuOpcode)
cpu_opcode_names =
    (83 ∷ (69 ∷ (84 ∷ [])), set)
    ∷ ((82 ∷ (69 ∷ (65 ∷ (68 ∷ (95 ∷ (77 ∷ (69 ∷ (77 ∷ []))))))), read_mem)
        ∷ ((87 ∷ (82 ∷ (73 ∷ (84 ∷ (69 ∷ (95 ∷ (77 ∷ (69 ∷ (77 ∷ [])))))))), write_mem)
            ∷ ((83 ∷ (85 ∷ (77 ∷ [])), sum)
                ∷ ((83 ∷ (85 ∷ (66 ∷ [])), sub)
                    ∷ ((74 ∷ (78 ∷ (90 ∷ [])), jnz)
                        ∷ ((76 ∷ (79 ∷ (71 ∷ [])), log)
                            ∷ ((
                              80
                                  ∷ (82
                                      ∷ (79
                                          ∷ (67
                                              ∷ (69
                                                  ∷ (83
                                                      ∷ (83
                                                          ∷ (95
                                                            ∷ (67
                                                            ∷ (82
                                                            ∷ (69
                                                            ∷ (65 ∷ (84 ∷ (69 ∷ []))))))))))))),
                              process_create,
                            )
                                ∷ ((
                                  80
                                      ∷ (82
                                          ∷ (79
                                              ∷ (67
                                                  ∷ (69
                                                      ∷ (83
                                                          ∷ (83
                                                            ∷ (95
                                                            ∷ (69 ∷ (88 ∷ (73 ∷ (84 ∷ []))))))))))),
                                  process_exit,
                                )
                                    ∷ ((
                                      84
                                          ∷ (72
                                              ∷ (82
                                                  ∷ (69
                                                      ∷ (65
                                                          ∷ (68
                                                            ∷ (95
                                                            ∷ (67
                                                            ∷ (82
                                                            ∷ (69
                                                            ∷ (65 ∷ (84 ∷ (69 ∷ [])))))))))))),
                                      thread_create,
                                    )
                                        ∷ ((
                                          84
                                              ∷ (72
                                                  ∷ (82
                                                      ∷ (69
                                                          ∷ (65
                                                            ∷ (68
                                                            ∷ (95
                                                            ∷ (74 ∷ (79 ∷ (73 ∷ (78 ∷ [])))))))))),
                                          thread_join,
                                        )
                                            ∷ ((
                                              84
                                                  ∷ (72
                                                      ∷ (82
                                                          ∷ (69
                                                            ∷ (65
                                                            ∷ (68
                                                            ∷ (95
                                                            ∷ (67
                                                            ∷ (65
                                                            ∷ (78
                                                            ∷ (67 ∷ (69 ∷ (76 ∷ [])))))))))))),
                                              thread_cancel,
                                            )
                                                ∷ ((
                                                  84
                                                      ∷ (72
                                                          ∷ (82
                                                            ∷ (69
                                                            ∷ (65
                                                            ∷ (68
                                                            ∷ (95
                                                            ∷ (69 ∷ (88 ∷ (73 ∷ (84 ∷ [])))))))))),
                                                  thread_exit,
                                                )
                                                    ∷ ((
                                                      77
                                                          ∷ (85
                                                            ∷ (84
                                                            ∷ (69
                                                            ∷ (88
                                                            ∷ (95
                                                            ∷ (67
                                                            ∷ (82
                                                            ∷ (69 ∷ (65 ∷ (84 ∷ (69 ∷ []))))))))))),
                                                      mutex_create,
                                                    )
                                                        ∷ ((
                                                          77
                                                            ∷ (85
                                                            ∷ (84
                                                            ∷ (69
                                                            ∷ (88
                                                            ∷ (95
                                                            ∷ (76 ∷ (79 ∷ (67 ∷ (75 ∷ []))))))))),
                                                          mutex_lock,
                                                        )
                                                            ∷ ((
                                                            77
                                                            ∷ (85
                                                            ∷ (84
                                                            ∷ (69
                                                            ∷ (88
                                                            ∷ (95
                                                            ∷ (85
                                                            ∷ (78
                                                            ∷ (76 ∷ (79 ∷ (67 ∷ (75 ∷ []))))))))))),
                                                            mutex_unlock,
                                                            )
                                                            ∷ ((
                                                            68
                                                            ∷ (85
                                                            ∷ (77
                                                            ∷ (80
                                                            ∷ (95
                                                            ∷ (77
                                                            ∷ (69
                                                            ∷ (77 ∷ (79 ∷ (82 ∷ (89 ∷ [])))))))))),
                                                            dump_memory,
                                                            )
                                                            ∷ ((73 ∷ (79 ∷ []), io)
                                                            ∷ [])))))))))))))))))

unfoldable pub decode_instruction : List ℕ → Option CpuOpcode
unfolding find_name
decode_instruction name = find_name cpu_opcode_names name

-- The words of a line between the characters that isspace accepts; `word` is the one begun.
unfoldable pub split_words : (ℕ → Bool) → List ℕ → List ℕ → List (List ℕ)
split_words isspace [] [] = []
split_words isspace [] (c ∷ cs) = (c ∷ cs) ∷ []
split_words isspace (x ∷ xs) [] =
    let skipped = split_words isspace xs [] in
    let begun = split_words isspace xs (x ∷ []) in if isspace x then skipped else begun
split_words isspace (x ∷ xs) (c ∷ cs) =
    let ended = (c ∷ cs) ∷ split_words isspace xs [] in
    let longer = split_words isspace xs ((c ∷ cs) ++ (x ∷ [])) in
    if isspace x then ended else longer

-- The words are appended to the arguments that are there already; the flag is the error E2BIG.
unfoldable pub arguments_use : (ℕ → Bool) → ℕ → List (List ℕ) → List ℕ → Bool × List (List ℕ)
unfolding split_words
arguments_use isspace max_argc argv line =
    let all = argv ++ split_words isspace line [] in (ltb max_argc (length all), take max_argc all)

-- What the check of the interrupts decides: the reason to evict, or none to go on. EXIT comes before
-- everything, then the kill, the system call and the end of the quantum.
unfoldable pub check_interrupts : KernelInterrupt → CpuOpcode → Bool → Option EvictionReason
check_interrupts interrupt process_exit called = some exit
check_interrupts interrupt thread_exit called = some exit
check_interrupts kill_interrupt opcode called = some kill
check_interrupts interrupt opcode true = some syscall
check_interrupts quantum_interrupt opcode false = some quantum_kernel_interrupt
check_interrupts none_interrupt opcode false = none

-- The end of an instruction in the loop: the next one, an eviction, the end of the module, or
-- undefined behaviour. The arguments are those left in t_Arguments.
pub data Turn : Type 0 where
  goes_on : Cpu → Memory → List (List ℕ) → Turn
  evicts : Cpu → Memory → List (List ℕ) → Turn
  stops : Turn
  breaks : Turn

abbrev pub evicts_for : EvictionReason → Cpu → Memory → List (List ℕ) → Turn
evicts_for reason cpu m argv = evicts (record cpu { eviction_reason = reason }) m argv

abbrev pub decide : Option EvictionReason → Cpu → Memory → Turn
decide none cpu m = goes_on cpu m []
decide (some reason) cpu m = evicts_for reason cpu m []

abbrev pub executed : KernelInterrupt → CpuOpcode → Step → Turn
executed interrupt opcode (returns true cpu m) = evicts cpu m []
executed interrupt opcode (returns false cpu m) =
    decide (check_interrupts interrupt opcode cpu.syscall_called) cpu m
executed interrupt opcode exits = stops
executed interrupt opcode crashes = breaks

module _ (realloc : Realloc) (malloc : ℕ → Bool) (strtoul : List ℕ → ℕ × List ℕ)
    (isspace : ℕ → Bool) (max_argc : ℕ) where
  abbrev pub execute : CpuOpcode → List (List ℕ) → Cpu → Memory → Step
  execute set = set_cpu_operation strtoul
  execute read_mem = read_mem_cpu_operation
  execute write_mem = write_mem_cpu_operation
  execute sum = sum_cpu_operation
  execute sub = sub_cpu_operation
  execute jnz = jnz_cpu_operation strtoul
  execute log = log_cpu_operation
  execute process_create = process_create_cpu_operation realloc malloc strtoul
  execute process_exit = process_exit_cpu_operation realloc malloc strtoul
  execute thread_create = thread_create_cpu_operation realloc malloc strtoul
  execute thread_join = thread_join_cpu_operation realloc malloc strtoul
  execute thread_cancel = thread_cancel_cpu_operation realloc malloc strtoul
  execute thread_exit = thread_exit_cpu_operation realloc malloc strtoul
  execute mutex_create = mutex_create_cpu_operation realloc malloc strtoul
  execute mutex_lock = mutex_lock_cpu_operation realloc malloc strtoul
  execute mutex_unlock = mutex_unlock_cpu_operation realloc malloc strtoul
  execute dump_memory = dump_memory_cpu_operation realloc malloc strtoul
  execute io = io_cpu_operation realloc malloc strtoul

  abbrev pub decoded : KernelInterrupt → List (List ℕ) → Option CpuOpcode → Cpu → Memory → Turn
  decoded interrupt argv none cpu m = evicts_for unexpected_error cpu m []
  decoded interrupt argv (some opcode) cpu m = executed interrupt opcode (execute opcode argv cpu m)

  -- After E2BIG the loop leaves the arguments as they are: arguments_remove is not yet pushed.
  abbrev pub parsed : KernelInterrupt → Bool × List (List ℕ) → Cpu → Memory → Turn
  parsed interrupt (true, argv) cpu m = evicts_for unexpected_error cpu m argv
  parsed interrupt (false, []) cpu m = breaks
  parsed interrupt (false, name ∷ argv) cpu m =
      decoded interrupt (name ∷ argv) (decode_instruction name) cpu m

  abbrev pub fetched : KernelInterrupt → List (List ℕ) → Cpu → Outcome (Option (List ℕ)) → Turn
  fetched interrupt argv cpu (replies none m) = evicts_for unexpected_error cpu m argv
  fetched interrupt argv cpu (replies (some line) m) =
      parsed interrupt (arguments_use isspace max_argc argv line) cpu m
  fetched interrupt argv cpu (thread_ends m) = stops
  fetched interrupt argv cpu undefined = breaks

  unfoldable pub run_instruction : KernelInterrupt → List (List ℕ) → Cpu → Memory → Turn
  run_instruction interrupt argv cpu m =
      fetched interrupt argv cpu (seek_instruccion cpu.pid cpu.tid (registers_of cpu).pc m)
