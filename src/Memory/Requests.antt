-- ===== src/Memory/Requests.antt =====
-- The requests of the kernel that change the state, one after another: listen_kernel of
-- src/memoria/src/client_kernel.c. Its fifth request, a dump, is in Memory/Dumping.
use so_tp_2024_2c_the_last_o.Prelude.{ℕ, ◌+◌, List, [], ◌∷◌}
use so_tp_2024_2c_the_last_o.Memory.Types.{Memory}
use so_tp_2024_2c_the_last_o.Memory.Processes.{
  Outcome, replies, thread_ends, undefined, Reply, process_create, process_destroy, thread_create,
  thread_destroy,
}

-- A request to destroy a process has what pthread_rwlock_destroy will give for its lock.
pub data Request : Type 0 where
  create_process : (pid size : ℕ) → Request
  destroy_process : (status pid : ℕ) → Request
  create_thread : (pid tid : ℕ) (instructions : List (List ℕ)) → Request
  destroy_thread : (pid tid : ℕ) → Request

unfoldable pub handle : Request → Memory → Outcome Reply
unfolding process_create process_destroy thread_create thread_destroy
handle (create_process pid size) m = process_create pid size m
handle (destroy_process status pid) m = process_destroy status pid m
handle (create_thread pid tid instructions) m = thread_create pid tid instructions m
handle (destroy_thread pid tid) m = thread_destroy pid tid m

-- How many entries a request may add to ARRAY_PROCESS_MEMORY.
abbrev pub creations_of : Request → ℕ
creations_of (create_process pid size) = 1
creations_of (destroy_process status pid) = 0
creations_of (create_thread pid tid instructions) = 0
creations_of (destroy_thread pid tid) = 0

abbrev pub creations : List Request → ℕ
creations [] = 0
creations (r ∷ rs) = creations_of r + creations rs

-- The state after a list of requests, as long as none runs into undefined behaviour.
unfoldable pub serve : List Request → Memory → Outcome (List Reply)
serve [] m = replies [] m
serve (r ∷ rs) m = elim (handle r m) [
  | replies x m' ↦ elim (serve rs m') [
    | replies xs m'' ↦ replies (x ∷ xs) m''
    | thread_ends m'' ↦ thread_ends m''
    | undefined ↦ undefined
  ]
  | thread_ends m' ↦ thread_ends m'
  | undefined ↦ undefined
]
