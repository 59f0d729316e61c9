-- ===== src/Kernel/Transitions.antt =====
-- The moves of a thread between its states: get_state_ready, get_state_exec,
-- get_state_blocked_join, get_state_blocked_mutex and the insert_state_ functions of
-- src/kernel/src/transitions.c.
--
-- An access to ARRAY_READY outside its PRIORITY_COUNT queues has no result: it is undefined
-- behaviour.
use so_tp_2024_2c_the_last_o.Prelude.{ℕ, zero, suc, Option, none, some, List, [], ◌∷◌, ◌++◌}
use so_tp_2024_2c_the_last_o.Kernel.Types.{
  ready_state, exec_state, blocked_join_state, blocked_mutex_state, blocked_io_ready_state,
  SchedulingAlgorithm, fifo, priorities, mlq, Resource, Tcb, Kernel, ◌>>=◌, set_tcb, set_state,
  put_resource,
}

-- list_remove(list, 0), or NULL for an empty list.
abbrev pub pop : List ℕ → Option ℕ × List ℕ
pop [] = (none, [])
pop (t ∷ ts) = (some t, ts)

-- The loop over the priorities of get_state_ready.
unfoldable pub pop_priority : List (List ℕ) → Option ℕ × List (List ℕ)
pop_priority [] = (none, [])
pop_priority ([] ∷ queues) = let rest = pop_priority queues in (rest.0, [] ∷ rest.1)
pop_priority ((t ∷ queue) ∷ queues) = (some t, queue ∷ queues)

abbrev pub pop_ready : SchedulingAlgorithm → List (List ℕ) → Option (Option ℕ × List (List ℕ))
pop_ready fifo [] = none
pop_ready fifo (queue ∷ queues) = let r = pop queue in some (r.0, r.1 ∷ queues)
pop_ready priorities queues = some (pop_priority queues)
pop_ready mlq queues = some (pop_priority queues)

abbrev pub get_state_ready : Kernel → Option (Option ℕ × Kernel)
get_state_ready k =
    pop_ready k.algorithm k.array_ready >>= λ r. some (r.0, record k { array_ready = r.1 })

abbrev pub get_state_exec : Kernel → Option ℕ × Kernel
get_state_exec k = (k.tcb_exec, record k { tcb_exec = none })

-- get_state_exec(&TCB_EXEC): the pointer that was cleared is written back into TCB_EXEC.
abbrev pub hold_exec : Kernel → Kernel
hold_exec k = let r = get_state_exec k in record r.1 { tcb_exec = r.0 }

-- The queue of ARRAY_READY that a thread is added to.
abbrev pub ready_index : SchedulingAlgorithm → ℕ → ℕ
ready_index fifo priority = 0
ready_index priorities priority = priority
ready_index mlq priority = priority

unfoldable pub add_ready : ℕ → ℕ → List (List ℕ) → Option (List (List ℕ))
add_ready i t [] = none
add_ready zero t (queue ∷ queues) = some ((queue ++ (t ∷ [])) ∷ queues)
add_ready (suc i) t (queue ∷ queues) = add_ready i t queues >>= λ rest. some (queue ∷ rest)

abbrev pub with_ready : Kernel → Option (List (List ℕ)) → Option Kernel
with_ready k none = none
with_ready k (some queues) = some (record k { array_ready = queues })

abbrev pub insert_state_ready : ℕ → Kernel → Option Kernel
insert_state_ready t k =
    with_ready (set_state t ready_state k)
      (add_ready (ready_index k.algorithm (k.tcbs t).priority) t k.array_ready)

abbrev pub insert_state_exec : ℕ → Kernel → Kernel
insert_state_exec t k = record (set_state t exec_state k) { tcb_exec = some t }

-- The thread `t` waits for the end of `target`.
abbrev pub insert_state_blocked_join : ℕ → ℕ → Kernel → Kernel
insert_state_blocked_join t target k =
    let k' : Kernel = set_state t blocked_join_state k in
    let tcb : Tcb = k'.tcbs target in
    set_tcb target (record tcb { blocked_thread_join = tcb.blocked_thread_join ++ (t ∷ []) }) k'

-- The resource `r` of the process `pid` under `name`.
abbrev pub insert_state_blocked_mutex : ℕ → ℕ → List ℕ → Resource → Kernel → Kernel
insert_state_blocked_mutex t pid name r k =
    put_resource pid name (some (record r { list_blocked = r.list_blocked ++ (t ∷ []) }))
      (set_state t blocked_mutex_state k)

abbrev pub insert_state_blocked_io_ready : ℕ → Kernel → Kernel
insert_state_blocked_io_ready t k = record (set_state t blocked_io_ready_state k) {
  blocked_io_ready = k.blocked_io_ready ++ (t ∷ []);
}
