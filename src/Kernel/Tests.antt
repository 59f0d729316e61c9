-- ===== src/Kernel/Tests.antt =====
-- The theorems on the kernel at concrete states.
use so_tp_2024_2c_the_last_o.Prelude.{
  ℕ, ◌≡◌, refl, true, false, Option, none, some, List, [], ◌∷◌, arith, if◌then◌else◌,
}
use so_tp_2024_2c_the_last_o.Prelude.Int.{pos, negsuc}
use so_tp_2024_2c_the_last_o.Prelude.Text.{Text, same_text}
use so_tp_2024_2c_the_last_o.Kernel.Types.{
  new_state, unexpected_error_exit, fifo, priorities, Tcb, Kernel, from_some,
}
use so_tp_2024_2c_the_last_o.Kernel.Transitions.{pop_priority, add_ready}
use so_tp_2024_2c_the_last_o.Kernel.Syscalls.{
  Returned, goes_on, mutex_create_kernel_syscall, mutex_lock_kernel_syscall,
}
use so_tp_2024_2c_the_last_o.Kernel.Exit.{unassign_loop, join_loop}
use so_tp_2024_2c_the_last_o.Kernel.Scheduler.{
  mutex_create_call, mutex_lock_call, syscall_execute, dispatch, preempt,
}
use so_tp_2024_2c_the_last_o.Kernel.Ownership.{Owned}
use so_tp_2024_2c_the_last_o.Kernel.Steps.{
  Steps, here, next, dispatches, preempts, calls, Fresh, Steps-Owned,
}
use so_tp_2024_2c_the_last_o.Kernel.Queues.{Pops, pop_priority-Pops, Joined, join_loop-Joined}
use so_tp_2024_2c_the_last_o.Kernel.Unassigning.{WokenTwice, resources_unassign-WokenTwice}
use so_tp_2024_2c_the_last_o.Kernel.Priorities.{
  MadeReady, make_ready, make_ready-MadeReady, thread_create_kernel_syscall,
}
use so_tp_2024_2c_the_last_o.Kernel.Identifiers.{
  id_manager_init, IdEvent, starts, leaves, id_run, id_step, id_assign, id_release, Rising,
  id_run-Rising,
}

abbrev thread : ℕ → Tcb
thread t = record {
  pid = 0;
  tid = t;
  priority = 0;
  current_state = new_state;
  blocked_thread_join = [];
  assigned = λ n. false;
  exit_reason = unexpected_error_exit;
}

-- Two threads of one process, both ready.
abbrev two_ready : Kernel
two_ready = record {
  algorithm = fifo;
  tcbs = thread;
  threads = λ p. some 0 ∷ (some 1 ∷ []);
  resources = λ p n. none;
  array_ready = (0 ∷ (1 ∷ [])) ∷ [];
  tcb_exec = none;
  blocked_io_ready = [];
  should_redispatch = false;
}

two_ready-Fresh : Fresh two_ready
two_ready-Fresh = record { no_resources = λ p n. refl; no_assigned = λ t n. refl }

abbrev m : Text
m = 109 ∷ []

abbrev n : Text
n = 110 ∷ []

abbrev answered : Kernel → Option (Returned × Kernel) → Kernel
answered k none = k
answered k (some (returned, k')) = k'

abbrev running : Kernel
unfolding dispatch
running = from_some two_ready (dispatch two_ready)

abbrev created : Kernel
unfolding mutex_create_kernel_syscall
created = answered running (mutex_create_kernel_syscall m running)

abbrev locked : Kernel
unfolding mutex_lock_kernel_syscall
locked = answered created (mutex_lock_kernel_syscall m created)

abbrev preempted : Kernel
unfolding preempt
preempted = from_some locked (preempt locked)

abbrev other_running : Kernel
unfolding dispatch
other_running = from_some preempted (dispatch preempted)

abbrev waiting : Kernel
unfolding mutex_lock_kernel_syscall
waiting = answered other_running (mutex_lock_kernel_syscall m other_running)

-- The first thread takes the mutex and is preempted; the second one then waits for it.
lock_and_wait : Steps two_ready waiting
unfolding dispatch preempt syscall_execute mutex_create_kernel_syscall mutex_lock_kernel_syscall
    add_ready same_text
lock_and_wait =
    next other_running waiting
      (next preempted other_running
        (next locked preempted
          (next created locked
            (next running created (next two_ready running here (dispatches refl))
              (calls (mutex_create_call m) goes_on refl))
            (calls (mutex_lock_call m) goes_on refl))
          (preempts refl))
        (dispatches refl))
      (calls (mutex_lock_call m) goes_on refl)

mutexes_example : Owned waiting
mutexes_example = Steps-Owned two_ready waiting two_ready-Fresh lock_and_wait

pop_example : Pops ([] ∷ ((3 ∷ (4 ∷ [])) ∷ [])) (pop_priority ([] ∷ ((3 ∷ (4 ∷ [])) ∷ [])))
pop_example = pop_priority-Pops ([] ∷ ((3 ∷ (4 ∷ [])) ∷ []))

join_threads_example :
    Joined (0 ∷ (1 ∷ [])) [] (3 ∷ (2 ∷ [])) 5 (join_loop 5 (3 ∷ (2 ∷ [])) two_ready)
join_threads_example = join_loop-Joined 5 (3 ∷ (2 ∷ [])) two_ready (0 ∷ (1 ∷ [])) [] refl refl

-- The thread 0 has both mutexes; the thread 1 waits for the first.
abbrev two_mutexes : Kernel
two_mutexes = record two_ready {
  resources = λ p name.
      if same_text name m
      then some (record { instances = negsuc 0; list_blocked = 1 ∷ [] })
      else some (record { instances = pos 0; list_blocked = [] });
  array_ready = [] ∷ [];
}

unassign_example : WokenTwice 1 0 n [] [] (unassign_loop 0 (m ∷ (n ∷ [])) none two_mutexes)
unfolding same_text
unassign_example =
    resources_unassign-WokenTwice 0 1 0 [] m n two_mutexes [] [] refl refl refl refl refl

abbrev id_events : List (IdEvent ℕ)
id_events = starts 7 ∷ (leaves 0 ∷ (starts 8 ∷ []))

-- The id of the first thread is not given again.
id_run_of_events :
    id_run (λ size. true) id_events id_manager_init
    ≡ some (0 ∷ (1 ∷ []), record { size = 2; array = none ∷ (some 8 ∷ []); counter = 1 })
unfolding id_run id_step id_assign id_release
id_run_of_events = refl

id_run_example :
    Rising {A = ℕ} 0 (0 ∷ (1 ∷ [])) (record { size = 2; array = none ∷ (some 8 ∷ []); counter = 1 })
id_run_example =
    id_run-Rising (λ size. true) id_events id_manager_init
      (0 ∷ (1 ∷ []), record { size = 2; array = none ∷ (some 8 ∷ []); counter = 1 }) refl
      (omega arith) id_run_of_events

abbrev by_priority : Kernel
by_priority = record two_ready {
  algorithm = priorities;
  tcbs = λ t. record (thread t) { priority = 2 };
}

make_ready_example : MadeReady 5 by_priority (make_ready 4 5 by_priority)
make_ready_example = make_ready-MadeReady 4 5 by_priority (omega arith) (omega arith)

abbrev entries_of : Option (Returned × Kernel) → List (Option ℕ)
entries_of none = []
entries_of (some (returned, k)) = k.threads 0

-- A thread that the memory module refuses keeps its entry.
refused_thread :
    entries_of (thread_create_kernel_syscall 4 9 1 false running)
    ≡ some 0 ∷ (some 1 ∷ (some 9 ∷ []))
unfolding thread_create_kernel_syscall dispatch
refused_thread = refl
