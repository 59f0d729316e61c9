-- ===== src/Kernel/Steps.antt =====
-- The kernel over time: the steps of short_term_scheduler of src/kernel/src/scheduler.c in any
-- order, as long as no thread ends.
use mathlib.Core.Path.{subst}
use so_tp_2024_2c_the_last_o.Prelude.{
  ℕ, ◌≡◌, refl, sym, ap, ◌∙◌, inl, inr, Bool, true, false, Option, none, some, ◌==◌, ◌++◌, [], ◌∷◌,
  Bool-cases,
}
use so_tp_2024_2c_the_last_o.Prelude.Text.{Text}
use so_tp_2024_2c_the_last_o.Kernel.Types.{
  blocked_join_state, blocked_io_ready_state, thread_exit_exit, Tcb, Kernel, bind_split, from_some,
  set_state,
}
use so_tp_2024_2c_the_last_o.Kernel.Transitions.{
  pop_ready, get_state_ready, insert_state_ready, insert_state_exec, insert_state_blocked_join,
  insert_state_blocked_io_ready,
}
use so_tp_2024_2c_the_last_o.Kernel.Syscalls.{
  Returned, redispatch, thread_at, join_in, join_from, thread_join_kernel_syscall,
  thread_exit_kernel_syscall, io_kernel_syscall,
}
use so_tp_2024_2c_the_last_o.Kernel.Scheduler.{
  Syscall, mutex_create_call, mutex_lock_call, mutex_unlock_call, thread_join_call,
  thread_exit_call, io_call, syscall_execute, dispatched, dispatch, preempt,
}
use so_tp_2024_2c_the_last_o.Kernel.Ownership.{
  OwnedAs, Owned, Same, Same-then, Same-Owned, set_tcb-Same,
}
use so_tp_2024_2c_the_last_o.Kernel.Mutexes.{
  Same-fields, set_state-Same, set_exit_reason-Same, insert_state_exec-Same,
  insert_state_ready-Same, mutex_lock-Owned, answer_or,
}
use so_tp_2024_2c_the_last_o.Kernel.Unlocking.{mutex_unlock-Owned, mutex_create-Owned}

-- A thread is dispatched, or goes back to its queue, or calls the system, whatever the call returns.
pub data Step (k k' : Kernel) : Type 0 where
  dispatches : dispatch k ≡ some k' → Step k k'
  preempts : preempt k ≡ some k' → Step k k'
  calls :
      (call : Syscall) (returned : Returned)
      → syscall_execute call k ≡ some (returned, k')
      → Step k k'

pub data Steps (k : Kernel) : Kernel → Type 0 where
  here : Steps k k
  next : (k' k'' : Kernel) → Steps k k' → Step k' k'' → Steps k k''

-- A state in which no process has a mutex yet.
pub record Fresh (k : Kernel) : Type 0 where
  pub no_resources : (pid : ℕ) (name : Text) → k.resources pid name ≡ none
  pub no_assigned : (t : ℕ) (name : Text) → (k.tcbs t).assigned name ≡ false

Fresh-Owned : (k : Kernel) → Fresh k → Owned k
Fresh-Owned k f pid name =
    subst (OwnedAs k pid name) (sym (f.no_resources pid name)) (λ u h. f.no_assigned u name)

redispatch-Same : (b : Bool) (k : Kernel) → Same k (redispatch b k)
redispatch-Same b k = Same-fields k (redispatch b k) refl refl

blocked_join-Same : (t target : ℕ) (k : Kernel) → Same k (insert_state_blocked_join t target k)
blocked_join-Same t target k =
    let k1 : Kernel = set_state t blocked_join_state k in
    let tcb : Tcb = k1.tcbs target in
    Same-then (set_state-Same t blocked_join_state k) (
      set_tcb-Same target (record tcb { blocked_thread_join = tcb.blocked_thread_join ++ (t ∷ []) })
        k1 refl (λ n. refl))

join_in-Same : (t : ℕ) (k : Kernel) (o : Option ℕ) → Same k (join_in t k o)
join_in-Same t k none = redispatch-Same true k
join_in-Same t k (some target) =
    Same-then (redispatch-Same false k) (blocked_join-Same t target (redispatch false k))

join_from-Same : (t tid : ℕ) (k : Kernel) → Same k (join_from t tid k)
join_from-Same t tid k = elim (Bool-cases (tid == (k.tcbs t).tid)) [
  | inl h ↦ rw h (redispatch-Same true k)
  | inr h ↦ rw h (join_in-Same t k (thread_at tid (k.threads (k.tcbs t).pid)))
]

thread_join-Same :
    (tid : ℕ) (k k' : Kernel) (returned : Returned)
    → thread_join_kernel_syscall tid k ≡ some (returned, k')
    → Same k k'
unfolding thread_join_kernel_syscall
thread_join-Same tid k k' returned e =
    let (t, x, g) = bind_split k.tcb_exec _ (returned, k') e in
    subst (Same k) (ap (answer_or k) g) (join_from-Same t tid k)

thread_exit-Same :
    (k k' : Kernel) (returned : Returned)
    → thread_exit_kernel_syscall k ≡ some (returned, k')
    → Same k k'
unfolding thread_exit_kernel_syscall
thread_exit-Same k k' returned e =
    let (t, x, g) = bind_split k.tcb_exec _ (returned, k') e in
    subst (Same k) (ap (answer_or k) g) (set_exit_reason-Same t thread_exit_exit k)

io-Same :
    (k k' : Kernel) (returned : Returned) → io_kernel_syscall k ≡ some (returned, k') → Same k k'
unfolding io_kernel_syscall
io-Same k k' returned e =
    let (t, x, g) = bind_split k.tcb_exec _ (returned, k') e in
    let blocked : Kernel = set_state t blocked_io_ready_state k in
    subst (Same k) (ap (answer_or k) g) (
      Same-then (set_state-Same t blocked_io_ready_state k)
        (Same-fields blocked (redispatch false (insert_state_blocked_io_ready t k)) refl refl))

dispatched-Same : (o : Option ℕ) (k : Kernel) → Same k (dispatched (o, k))
dispatched-Same none k = Same-fields k k refl refl
dispatched-Same (some t) k =
    Same-then (insert_state_exec-Same t k) (redispatch-Same true (insert_state_exec t k))

dispatch-Same : (k k' : Kernel) → dispatch k ≡ some k' → Same k k'
unfolding dispatch
dispatch-Same k k' e =
    let (r, x, g) = bind_split (get_state_ready k) _ k' e in
    let (q, y, h) = bind_split (pop_ready k.algorithm k.array_ready) _ r x in
    let taken : Kernel = record k { array_ready = q.1 } in
    subst (Same k) (ap dispatched (ap (from_some r) h) ∙ ap (from_some k) g)
      (Same-then (Same-fields k taken refl refl) (dispatched-Same q.0 taken))

preempt-Same : (k k' : Kernel) → preempt k ≡ some k' → Same k k'
unfolding preempt
preempt-Same k k' e =
    let (t, x, g) = bind_split k.tcb_exec _ k' e in
    let (k1, y, h) = bind_split (insert_state_ready t k) _ k' g in
    subst (Same k) (ap (from_some k) h)
      (Same-then (insert_state_ready-Same t k k1 y) (redispatch-Same false k1))

syscall-Owned :
    (call : Syscall) (k k' : Kernel) (returned : Returned)
    → Owned k
    → syscall_execute call k ≡ some (returned, k')
    → Owned k'
unfolding syscall_execute
syscall-Owned (mutex_create_call name) k k' returned o e = mutex_create-Owned name k k' returned o e
syscall-Owned (mutex_lock_call name) k k' returned o e = mutex_lock-Owned name k k' returned o e
syscall-Owned (mutex_unlock_call name) k k' returned o e = mutex_unlock-Owned name k k' returned o e
syscall-Owned (thread_join_call tid) k k' returned o e =
    Same-Owned k k' (thread_join-Same tid k k' returned e) o
syscall-Owned thread_exit_call k k' returned o e =
    Same-Owned k k' (thread_exit-Same k k' returned e) o
syscall-Owned io_call k k' returned o e = Same-Owned k k' (io-Same k k' returned e) o

Step-Owned : (k k' : Kernel) → Step k k' → Owned k → Owned k'
Step-Owned k k' (dispatches e) o = Same-Owned k k' (dispatch-Same k k' e) o
Step-Owned k k' (preempts e) o = Same-Owned k k' (preempt-Same k k' e) o
Step-Owned k k' (calls call returned e) o = syscall-Owned call k k' returned o e

-- From a state without mutexes, after any dispatches, preemptions and system calls on mutexes,
-- joins, the device and the end of a thread, up to where the ending of a thread would begin: each
-- mutex of each process is either free, with one instance, nobody waiting and assigned to no
-- thread of the process, or assigned to exactly one of its threads, with its instances the negated
-- number of those that wait, all of the process; and no thread has an assigned name without a
-- mutex.
pub Steps-Owned : (k k' : Kernel) → Fresh k → Steps k k' → Owned k'
Steps-Owned k k' f here = Fresh-Owned k f
Steps-Owned k _ f (next k' k'' steps step) = Step-Owned k' k'' step (Steps-Owned k k' f steps)
