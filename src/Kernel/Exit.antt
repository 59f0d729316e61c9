-- ===== src/Kernel/Exit.antt =====
-- The end of a thread: resources_unassign of src/kernel/src/resources.c, and join_threads and the
-- part of insert_state_exit of transitions.c that ends the thread itself.
use so_tp_2024_2c_the_last_o.Prelude.{ℕ, Option, none, some, List, [], ◌∷◌, Bool, set}
use so_tp_2024_2c_the_last_o.Prelude.Text.{Text}
use so_tp_2024_2c_the_last_o.Kernel.Types.{
  exit_state, Resource, Kernel, ◌>>=◌, set_tcb, set_state, update_at, put_resource,
}
use so_tp_2024_2c_the_last_o.Kernel.Transitions.{pop, insert_state_ready}
use so_tp_2024_2c_the_last_o.Kernel.Syscalls.{increment, positive, wake_holder}
use so_tp_2024_2c_the_last_o.Prelude.{if◌then◌else◌}

-- One turn of the loop of resources_unassign: what becomes of tcb_unblock, which keeps its value
-- when the mutex has no waiter, and of the resource.
abbrev pub unassigned : Option ℕ → Resource → Option ℕ × Resource
unassigned tcb_unblock r =
    if positive r.instances
    then (tcb_unblock, r)
    else (let p = pop r.list_blocked in (p.0, record r { list_blocked = p.1 }))

-- The names in the order in which the hash table of the assigned resources is walked.
unfoldable pub unassign_loop : ℕ → List Text → Option ℕ → Kernel → Option Kernel
unassign_loop pid [] tcb_unblock k = some k
unassign_loop pid (name ∷ names) tcb_unblock k = elim (k.resources pid name) [
  | none ↦ none
  | some r ↦
      let u = unassigned tcb_unblock (record r { instances = increment r.instances }) in
      wake_holder u.0 name (put_resource pid name (some u.1) k) >>= unassign_loop pid names u.0
]

-- The loop of join_threads, over the list of the threads that wait for `t`.
unfoldable pub join_loop : ℕ → List ℕ → Kernel → Option Kernel
join_loop t [] k = some k
join_loop t (w ∷ ws) k =
    insert_state_ready w (set_tcb t (record (k.tcbs t) { blocked_thread_join = ws }) k)
    >>= join_loop t ws

abbrev pub join_threads : ℕ → Kernel → Option Kernel
join_threads t k = join_loop t (k.tcbs t).blocked_thread_join k

-- tid_release: the entry of the thread becomes NULL.
abbrev pub tid_release : ℕ → ℕ → Kernel → Kernel
tid_release pid tid k = record k {
  threads = update_at pid (set (k.threads pid) tid none) k.threads;
}

module _ (walk : (Text → Bool) → List Text) where
  abbrev pub resources_unassign : ℕ → Kernel → Option Kernel
  resources_unassign t k = unassign_loop (k.tcbs t).pid (walk (k.tcbs t).assigned) none k

  -- Up to the end of the thread; the end of its process is not modelled.
  abbrev pub insert_state_exit : ℕ → Kernel → Option Kernel
  insert_state_exit t k =
      resources_unassign t (set_state t exit_state k) >>= (λ k'. join_threads t k') >>= λ k'.
      some (tid_release (k.tcbs t).pid (k.tcbs t).tid k')
