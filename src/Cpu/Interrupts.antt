-- ===== src/Cpu/Interrupts.antt =====
-- The end of a turn of the instruction cycle, and its arguments.
use mathlib.Core.List.{append-nil}
use mathlib.Core.Logic.{◌↔◌}
use so_tp_2024_2c_the_last_o.Prelude.{
  ℕ, ◌≡◌, ◌≢◌, ap, ◌∙◌, Bool, true, false, none, some, List, [], ◌∷◌, ◌++◌, arith, ltb, length,
  take, length-append,
}
use so_tp_2024_2c_the_last_o.Prelude.Buffer.{take-append}
use so_tp_2024_2c_the_last_o.Payload.Defs.{Realloc}
use so_tp_2024_2c_the_last_o.Serialize.Scalars.{
  CpuOpcode, KernelInterrupt, none_interrupt, unexpected_error, process_exit, thread_exit,
}
use so_tp_2024_2c_the_last_o.Memory.Types.{Memory}
use so_tp_2024_2c_the_last_o.Memory.Processes.{replies}
use so_tp_2024_2c_the_last_o.Memory.UserSpace.{seek_instruccion}
use so_tp_2024_2c_the_last_o.Cpu.State.{Cpu, registers_of}
use so_tp_2024_2c_the_last_o.Cpu.Cycle.{
  split_words, arguments_use, evicts_for, run_instruction, parsed, fetched, check_interrupts,
}

-- Full arguments stay as they are, and any further word is the error E2BIG.
arguments_use-full :
    (isspace : ℕ → Bool) (max_argc : ℕ) (argv : List (List ℕ)) (line word : List ℕ)
    (words : List (List ℕ))
    → length argv ≡ max_argc
    → split_words isspace line [] ≡ word ∷ words
    → arguments_use isspace max_argc argv line ≡ (true, argv)
unfolding arguments_use
arguments_use-full isspace max_argc argv line word words full e =
    ap (λ all. (ltb max_argc (length (argv ++ all)), take max_argc (argv ++ all))) e
    ∙ ap (λ b. (b, take max_argc (argv ++ (word ∷ words)))) over
    ∙ ap (λ k. (true, k)) kept
  where
    over : ltb max_argc (length (argv ++ (word ∷ words))) ≡ true
    over = ground (arith, length-append argv (word ∷ words), full)

    kept : take max_argc (argv ++ (word ∷ words)) ≡ argv
    kept = take-append argv (word ∷ words) max_argc 0 (omega (arith, full)) ∙ append-nil argv

-- When t_Arguments is full as the turn starts and the line that is fetched has a word, the turn
-- evicts the thread for an unexpected error, whatever the instruction is, and leaves t_Arguments
-- full.
pub run_instruction-full :
    (realloc : Realloc) (malloc : ℕ → Bool) (strtoul : List ℕ → ℕ × List ℕ) (isspace : ℕ → Bool)
    (max_argc : ℕ) (interrupt : KernelInterrupt) (argv : List (List ℕ)) (cpu : Cpu) (m : Memory)
    (line word : List ℕ) (words : List (List ℕ))
    → length argv ≡ max_argc
    → seek_instruccion cpu.pid cpu.tid (registers_of cpu).pc m ≡ replies (some line) m
    → split_words isspace line [] ≡ word ∷ words
    → run_instruction realloc malloc strtoul isspace max_argc interrupt argv cpu m
      ≡ evicts_for unexpected_error cpu m argv
unfolding run_instruction
run_instruction-full realloc malloc strtoul isspace max_argc interrupt argv cpu m line word words
      full f e =
    ap (fetched realloc malloc strtoul isspace max_argc interrupt argv cpu) f
    ∙ ap (λ k. parsed realloc malloc strtoul isspace max_argc interrupt k cpu m)
        (arguments_use-full isspace max_argc argv line word words full e)

-- The CPU goes on with the same thread exactly if there is no interrupt and the instruction calls
-- no system call and is neither PROCESS_EXIT nor THREAD_EXIT.
pub check_interrupts-none :
    (interrupt : KernelInterrupt) (opcode : CpuOpcode) (called : Bool)
    → (check_interrupts interrupt opcode called ≡ none) ↔ (
        (interrupt ≡ none_interrupt)
        × (called ≡ false)
        × (opcode ≢ process_exit)
        × (opcode ≢ thread_exit))
unfolding check_interrupts
check_interrupts-none interrupt opcode called = ground arith
