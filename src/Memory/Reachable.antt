-- ===== src/Memory/Reachable.antt =====
-- The states that the memory module reaches from its start by requests of the kernel.
use so_tp_2024_2c_the_last_o.Prelude.{
  ℕ, ◌+◌, ◌^◌, ◌<◌, ◌≡◌, refl, ap, ◌∙◌, arith, length, inl, inr, Option, none, some, List, [], ◌∷◌,
  Option-cases,
}
use so_tp_2024_2c_the_last_o.Memory.Types.{Scheme, fixed, dynamic, Algorithm, Partition, Memory}
use so_tp_2024_2c_the_last_o.Memory.Partitions.{allocate_partition}
use so_tp_2024_2c_the_last_o.Memory.Processes.{
  Outcome, replies, thread_ends, undefined, Reply, success, failure, lookup_process, place_process,
  process_create,
}
use so_tp_2024_2c_the_last_o.Memory.Invariant.{Valid, Roomy, After}
use so_tp_2024_2c_the_last_o.Memory.Requests.{Request, handle, creations, serve}
use so_tp_2024_2c_the_last_o.Memory.Service.{place-Valid, create_absent, create_present}
use so_tp_2024_2c_the_last_o.Memory.Handling.{handle-Valid}
use so_tp_2024_2c_the_last_o.Memory.Boot.{total_size, module_start}
use so_tp_2024_2c_the_last_o.Memory.Start.{module_start-Valid}

place-answers :
    (P : Memory → Type 0) (pid size : ℕ) (m : Memory) (alloc : Option ℕ × List Partition × ℕ)
    → After P (place_process pid size m alloc)
    → (x : Reply) × (m' : Memory) × (place_process pid size m alloc ≡ replies x m') × P m'
place-answers P pid size m (none, t, next) h = (failure, _, refl, h)
place-answers P pid size m (some a, t, next) h = (success, _, refl, h)

-- In a valid state with fewer than 65535 entries in ARRAY_PROCESS_MEMORY, PROCESS_CREATE, for any
-- pid and size, is answered and does not run into undefined behaviour, and the state after it is
-- valid.
pub process_create-answers :
    (total pid size : ℕ) (m : Memory)
    → Valid total m
    → length m.processes < 65535
    → (x : Reply) × (m' : Memory) × (process_create pid size m ≡ replies x m') × Valid total m'
process_create-answers total pid size m v few =
    elim (Option-cases (lookup_process pid m.processes)) [
      | inl absent ↦
          let (x, m', e, (valid, room)) =
            place-answers (Roomy total 0) pid size m
              (allocate_partition m.scheme m.algorithm m.next_address m.table size)
              (place-Valid total 0 pid size m
                (allocate_partition m.scheme m.algorithm m.next_address m.table size) refl v
                (omega (arith, few))) in
          (x, m', create_absent pid size m absent ∙ e, valid)
      | inr (q, present) ↦ (failure, m, create_present pid size m q present, v)
    ]

After-step :
    (P Q : Memory → Type 0) (rs : List Request) (o : Outcome Reply)
    → ((m : Memory) → P m → After Q (serve rs m))
    → ((m : Memory) → P m → Q m)
    → After P o
    → After Q (elim o [
      | replies x m' ↦ elim (serve rs m') [
        | replies xs m'' ↦ replies (x ∷ xs) m''
        | thread_ends m'' ↦ thread_ends m''
        | undefined ↦ undefined
      ]
      | thread_ends m' ↦ thread_ends m'
      | undefined ↦ undefined
    ])
After-step P Q rs (thread_ends m) h k p = k m p
After-step P Q rs undefined h k p = tt
After-step P Q rs (replies x m) h k p = later (serve rs m) (h m p)
  where
    later :
        (o : Outcome (List Reply))
        → After Q o
        → After Q (elim o [
          | replies xs m'' ↦ replies (x ∷ xs) m''
          | thread_ends m'' ↦ thread_ends m''
          | undefined ↦ undefined
        ])
    later (replies xs m'') k = k
    later (thread_ends m'') k = k
    later undefined k = tt

serve-Roomy :
    (total n : ℕ) (rs : List Request) (m : Memory)
    → Roomy total (creations rs + n) m
    → After (Roomy total n) (serve rs m)
unfolding serve
serve-Roomy total n [] m (v, room) = (v, omega (arith, room))
serve-Roomy total n (r ∷ rs) m (v, room) =
    After-step (Roomy total (creations rs + n)) (Roomy total n) rs (handle r m)
      (λ m' v'. serve-Roomy total n rs m' v') (λ m' p. (p.0, omega (arith, p.1)))
      (handle-Valid total (creations rs + n) r m (v, omega (arith, room)))

After-weaker :
    {A : Type 0} (P Q : Memory → Type 0) (o : Outcome A)
    → ((m : Memory) → P m → Q m)
    → After P o
    → After Q o
After-weaker P Q (replies x m) h p = h m p
After-weaker P Q (thread_ends m) h p = h m p
After-weaker P Q undefined h p = tt

-- From a valid state, each list of requests to create and destroy processes and threads whose
-- creations of processes, with the entries that ARRAY_PROCESS_MEMORY has, are fewer than 2 ^ 16,
-- and that does not run into undefined behaviour, leaves a valid state, with the partitions tiling
-- the same total.
pub serve-Valid :
    (total : ℕ) (rs : List Request) (m : Memory)
    → Valid total m
    → length m.processes + creations rs < 2 ^ 16
    → After (Valid total) (serve rs m)
serve-Valid total rs m v room =
    After-weaker (Roomy total 0) (Valid total) (serve rs m) (λ m' p. p.0)
      (serve-Roomy total 0 rs m (v, omega (arith, room)))

-- From each state that the start of the module leaves, where under the fixed scheme the sizes in
-- PARTICIONES add up to less than 2 ^ 64, each list of requests of the kernel to create and
-- destroy processes and threads, with fewer than 2 ^ 16 creations of processes, that does not run
-- into undefined behaviour leaves a valid state: the partitions tile the memory, under the dynamic
-- scheme no two neighbours are free, each process has an occupied partition of its own that holds
-- it, and none is occupied without a process. The total that they tile is the same for all lists,
-- and under the dynamic scheme it is TAM_MEMORIA.
pub started-Valid :
    (strtoul : List ℕ → ℕ × List ℕ) (scheme : Scheme) (algorithm : Algorithm)
    (texts : List (List ℕ)) (memory_size : ℕ) (m : Memory)
    → (scheme ≡ fixed → total_size strtoul texts < 2 ^ 64)
    → module_start strtoul scheme algorithm texts memory_size ≡ some m
    → (total : ℕ) × ((rs : List Request) → creations rs < 2 ^ 16 → After (Valid total) (serve rs m))
      × (scheme ≡ dynamic → total ≡ memory_size)
started-Valid strtoul scheme algorithm texts memory_size m small e =
    let (total, valid, whole, none_yet) =
      module_start-Valid strtoul scheme algorithm texts memory_size m small e in
    (
      total,
      (λ rs few. serve-Valid total rs m valid (omega (arith, few, ap length none_yet))),
      whole,
    )
