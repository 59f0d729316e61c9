-- ===== src/Kernel/Scheduler.antt =====
-- The loop of short_term_scheduler of src/kernel/src/scheduler.c, with syscall_execute of
-- syscalls.c: a thread is dispatched, and each time that the CPU evicts it the reason decides what
-- becomes of it. A system call stands for the instruction that the CPU sent, read.
use so_tp_2024_2c_the_last_o.Prelude.{
  ℕ, Option, none, some, List, Bool, true, false, ◌&&◌, if◌then◌else◌,
}
use so_tp_2024_2c_the_last_o.Prelude.Text.{Text}
use so_tp_2024_2c_the_last_o.Serialize.Scalars.{
  EvictionReason, unexpected_error, segmentation_fault, exit, kill, syscall,
  quantum_kernel_interrupt,
}
use so_tp_2024_2c_the_last_o.Kernel.Types.{
  ExitReason, unexpected_error_exit, segmentation_fault_exit, Kernel, ◌>>=◌,
}
use so_tp_2024_2c_the_last_o.Kernel.Transitions.{
  get_state_ready, hold_exec, insert_state_ready, insert_state_exec,
}
use so_tp_2024_2c_the_last_o.Kernel.Syscalls.{
  Returned, goes_on, ends, set_exit_reason, redispatch, mutex_create_kernel_syscall,
  mutex_lock_kernel_syscall, mutex_unlock_kernel_syscall, thread_join_kernel_syscall,
  thread_exit_kernel_syscall, io_kernel_syscall,
}
use so_tp_2024_2c_the_last_o.Kernel.Exit.{insert_state_exit}

pub data Syscall : Type 0 where
  mutex_create_call mutex_lock_call mutex_unlock_call : Text → Syscall
  thread_join_call : ℕ → Syscall
  thread_exit_call io_call : Syscall

unfoldable pub syscall_execute : Syscall → Kernel → Option (Returned × Kernel)
syscall_execute (mutex_create_call name) k = mutex_create_kernel_syscall name k
syscall_execute (mutex_lock_call name) k = mutex_lock_kernel_syscall name k
syscall_execute (mutex_unlock_call name) k = mutex_unlock_kernel_syscall name k
syscall_execute (thread_join_call tid) k = thread_join_kernel_syscall tid k
syscall_execute thread_exit_call k = thread_exit_kernel_syscall k
syscall_execute io_call k = io_kernel_syscall k

-- The head of the loop: without a ready thread the state stays.
abbrev pub dispatched : Option ℕ × Kernel → Kernel
dispatched (none, k) = k
dispatched (some t, k) = redispatch true (insert_state_exec t k)

unfoldable pub dispatch : Kernel → Option Kernel
dispatch k = get_state_ready k >>= λ r. some (dispatched r)

-- The thread of TCB_EXEC goes back to the ready queue.
unfoldable pub preempt : Kernel → Option Kernel
preempt k =
    k.tcb_exec >>= λ t. insert_state_ready t (hold_exec k) >>= λ k'. some (redispatch false k')

module _ (walk : (Text → Bool) → List Text) where
  -- The thread of TCB_EXEC ends; its exit reason is set before.
  abbrev pub leave : Kernel → Option Kernel
  leave k = k.tcb_exec >>= λ t.
      insert_state_exit walk t (hold_exec k) >>= λ k'. some (redispatch false k')

  abbrev pub leave_for : ExitReason → Kernel → Option Kernel
  leave_for reason k = k.tcb_exec >>= λ t. leave (set_exit_reason t reason k)

  abbrev pub after_call : Returned × Kernel → Option Kernel
  after_call (goes_on, k) = some k
  after_call (ends, k) = leave k

  -- The switch on the eviction reason, with KILL_EXEC_TCB and KILL_EXIT_REASON.
  abbrev pub evicted : EvictionReason → Bool → ExitReason → Syscall → Kernel → Option Kernel
  evicted unexpected_error killed reason call k = leave_for unexpected_error_exit k
  evicted segmentation_fault killed reason call k = leave_for segmentation_fault_exit k
  evicted exit killed reason call k = syscall_execute call k >>= after_call
  evicted kill killed reason call k = leave_for reason k
  evicted syscall true reason call k = leave_for reason k
  evicted syscall false reason call k = syscall_execute call k >>= after_call
  evicted quantum_kernel_interrupt true reason call k = leave_for reason k
  evicted quantum_kernel_interrupt false reason call k = preempt k

  -- The end of the turn: a thread that goes on but whose quantum is over is preempted.
  abbrev pub turn_end : Bool → Kernel → Option Kernel
  turn_end quantum_expired k = if k.should_redispatch && quantum_expired then preempt k else some k

  unfoldable pub turn : EvictionReason → Bool → ExitReason → Bool → Syscall → Kernel → Option Kernel
  turn eviction killed reason quantum_expired call k =
      evicted eviction killed reason call k >>= turn_end quantum_expired
