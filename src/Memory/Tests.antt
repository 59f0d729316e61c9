-- ===== src/Memory/Tests.antt =====
-- The theorems on the memory module at concrete states: a memory of 32 bytes, and a process with a
-- thread in it.
use mathlib.Core.Path.{subst}
use so_tp_2024_2c_the_last_o.Prelude.{
  ℕ, ◌+◌, ◌-◌, ◌^◌, ◌<◌, none, arith, ◌*◌, ◌≡◌, refl, true, false, some, List, [], ◌∷◌, ltb, ◌&&◌,
  if◌then◌else◌,
}
use so_tp_2024_2c_the_last_o.Memory.Types.{
  fixed, dynamic, first_fit, best_fit, MemoryProcess, MemoryThread, live, Memory,
}
use so_tp_2024_2c_the_last_o.Memory.Partitions.{
  update, insert_at, search, fit_loop, split_partition, allocate_found, allocate_partition,
}
use so_tp_2024_2c_the_last_o.Memory.Processes.{
  replies, Reply, success, lookup_process, lookup_slot, process_create, process_destroy,
  thread_create, memory_thread_create, set_process, zero_registers,
}
use so_tp_2024_2c_the_last_o.Memory.Threads.{thread_create-append}
use so_tp_2024_2c_the_last_o.Memory.Search.{Finds, search-Finds}
use so_tp_2024_2c_the_last_o.Memory.Invariant.{Valid, After}
use so_tp_2024_2c_the_last_o.Memory.Requests.{
  Request, create_process, create_thread, creations, handle, serve,
}
use so_tp_2024_2c_the_last_o.Memory.Boot.{
  partition_create, started, zeros, fixed_partitions, initial_table, module_start,
}
use so_tp_2024_2c_the_last_o.Memory.Start.{module_start-Valid}
use so_tp_2024_2c_the_last_o.Memory.Reachable.{started-Valid, serve-Valid, process_create-answers}
use so_tp_2024_2c_the_last_o.Memory.Service.{Written, process_destroy-Valid}

-- The digits of a text in base 10, as strtoul reads them.
abbrev digits : ℕ → List ℕ → ℕ × List ℕ
digits value [] = (value, [])
digits value (c ∷ cs) =
    let more = digits (value * 10 + (c - 48)) cs in
    if ltb 47 c && ltb c 58 then more else (value, c ∷ cs)

abbrev pub number : List ℕ → ℕ × List ℕ
number text = digits 0 text

abbrev fixed_memory : Memory
fixed_memory = started fixed first_fit 32 (partition_create 0 16 0 ∷ (partition_create 1 8 16 ∷ []))

fixed_memory_starts :
    module_start number fixed first_fit ((49 ∷ (54 ∷ [])) ∷ ((56 ∷ []) ∷ [])) 32 ≡ some fixed_memory
unfolding module_start initial_table fixed_partitions
fixed_memory_starts = refl

started_example :
    (total : ℕ) × ((rs : List Request)
      → creations rs < 2 ^ 16
      → After (Valid total) (serve rs fixed_memory))
    × (fixed ≡ dynamic → total ≡ 32)
started_example =
    started-Valid number fixed first_fit ((49 ∷ (54 ∷ [])) ∷ ((56 ∷ []) ∷ [])) 32 fixed_memory
      (λ h. omega arith) fixed_memory_starts

abbrev empty_memory : Memory
empty_memory = started dynamic best_fit 32 (partition_create 0 32 0 ∷ [])

empty_memory_starts : module_start number dynamic best_fit [] 32 ≡ some empty_memory
unfolding module_start initial_table
empty_memory_starts = refl

empty_memory-Valid : Valid 32 empty_memory
empty_memory-Valid =
    let (total, valid, whole, none_yet) =
      module_start-Valid number dynamic best_fit [] 32 empty_memory (λ h. omega arith)
        empty_memory_starts in
    subst (λ t. Valid t empty_memory) (whole refl) valid

abbrev pub live_thread : MemoryThread
live_thread = record { tid = 0; registers = zero_registers; instructions = (73 ∷ []) ∷ [] }

abbrev pub live_process : MemoryProcess
live_process = record { pid = 0; size = 8; partition = 0; threads = live live_thread ∷ [] }

abbrev pub live_memory : Memory
live_memory = record {
  scheme = dynamic;
  algorithm = best_fit;
  table =
      record { address = 0; size = 8; base = 0; occupied = true; pid = 0 }
      ∷ (record { address = 1; size = 24; base = 8; occupied = false; pid = 0 } ∷ []);
  next_address = 2;
  processes = some live_process ∷ [];
  main_memory = zeros 32;
}

abbrev two_requests : List Request
two_requests = create_process 0 8 ∷ (create_thread 0 0 ((73 ∷ []) ∷ []) ∷ [])

live_memory_served :
    serve two_requests empty_memory ≡ replies (success ∷ (success ∷ [])) live_memory
unfolding serve handle process_create thread_create allocate_partition search fit_loop
    allocate_found split_partition insert_at update lookup_process lookup_slot
live_memory_served = refl

serve_example : After (Valid 32) (serve two_requests empty_memory)
serve_example = serve-Valid 32 two_requests empty_memory empty_memory-Valid (omega arith)

pub live_memory-Valid : Valid 32 live_memory
live_memory-Valid =
    subst (After (Valid 32)) live_memory_served
      (serve-Valid 32 two_requests empty_memory empty_memory-Valid (omega arith))

live_found : lookup_process 0 live_memory.processes ≡ some live_process
unfolding lookup_process
live_found = refl

process_create_example :
    (x : Reply) × (m' : Memory) × (process_create 1 24 live_memory ≡ replies x m') × Valid 32 m'
process_create_example = process_create-answers 32 1 24 live_memory live_memory-Valid (omega arith)

live_threads-Written :
    (q : MemoryProcess) → lookup_process 0 live_memory.processes ≡ some q → Written q.threads
unfolding lookup_process
live_threads-Written q e =
    let same : live_process ≡ q = ground (arith, e) in subst (λ p. Written p.threads) same tt

process_destroy_example :
    (x : Reply) × (m' : Memory) × (process_destroy 0 0 live_memory ≡ replies x m')
    × Valid 32 m'
    × (lookup_process 0 m'.processes ≡ none)
process_destroy_example =
    process_destroy-Valid 32 0 live_memory live_memory-Valid live_threads-Written

search_example : Finds best_fit live_memory.table 4 (search best_fit live_memory.table 4)
search_example = search-Finds best_fit live_memory.table 4

thread_create_example :
    thread_create 0 1 ((74 ∷ []) ∷ []) live_memory
    ≡ replies success (
        set_process 0
          (record live_process {
            threads = live live_thread ∷ (live (memory_thread_create 1 ((74 ∷ []) ∷ [])) ∷ []);
          })
          live_memory)
thread_create_example =
    thread_create-append 0 (74 ∷ []) [] live_memory live_process live_found (omega arith)
