-- ===== src/Kernel/Syscalls.antt =====
-- The system calls of src/kernel/src/syscalls.c that act on the mutexes, the joins and the device,
-- with resource_create of resources.c, on the arguments that their deserializers read. Where
-- TCB_EXEC is NULL a call has no result: the code follows the pointer.
use so_tp_2024_2c_the_last_o.Prelude.{
  ℕ, zero, suc, Option, none, some, List, [], ◌∷◌, Bool, true, false, ◌==◌, if◌then◌else◌,
}
use so_tp_2024_2c_the_last_o.Prelude.Int.{ℤ, pos, negsuc}
use so_tp_2024_2c_the_last_o.Prelude.Text.{Text}
use so_tp_2024_2c_the_last_o.Kernel.Types.{
  ExitReason, thread_exit_exit, invalid_resource_exit, Resource, Kernel, ◌>>=◌, set_tcb,
  put_resource, set_assigned,
}
use so_tp_2024_2c_the_last_o.Kernel.Transitions.{
  pop, hold_exec, insert_state_ready, insert_state_exec, insert_state_blocked_join,
  insert_state_blocked_mutex, insert_state_blocked_io_ready,
}

-- What a system call returns: 0, or -1, after which the thread ends.
pub data Returned : Type 0 where
  goes_on ends : Returned

-- `instances++` and `instances--`.
abbrev pub increment : ℤ → ℤ
increment (pos n) = pos (suc n)
increment (negsuc zero) = pos 0
increment (negsuc (suc n)) = negsuc n

abbrev pub decrement : ℤ → ℤ
decrement (pos zero) = negsuc 0
decrement (pos (suc n)) = pos n
decrement (negsuc n) = negsuc (suc n)

abbrev pub negative : ℤ → Bool
negative (pos n) = false
negative (negsuc n) = true

abbrev pub positive : ℤ → Bool
positive (pos zero) = false
positive (pos (suc n)) = true
positive (negsuc n) = false

abbrev pub resource_create : ℤ → Resource
resource_create instances = record { instances = instances; list_blocked = [] }

abbrev pub set_exit_reason : ℕ → ExitReason → Kernel → Kernel
set_exit_reason t reason k = set_tcb t (record (k.tcbs t) { exit_reason = reason }) k

abbrev pub invalid_resource : ℕ → Kernel → Option (Returned × Kernel)
invalid_resource t k = some (ends, set_exit_reason t invalid_resource_exit k)

abbrev pub redispatch : Bool → Kernel → Kernel
redispatch b k = record k { should_redispatch = b }

abbrev pub create_in : ℕ → Text → Kernel → Option Resource → Option (Returned × Kernel)
create_in t name k (some r) = invalid_resource t k
create_in t name k none =
    some (
      goes_on,
      redispatch true (put_resource (k.tcbs t).pid name (some (resource_create (pos 1))) k),
    )

unfoldable pub mutex_create_kernel_syscall : Text → Kernel → Option (Returned × Kernel)
mutex_create_kernel_syscall name k =
    k.tcb_exec >>= λ t. create_in t name k (k.resources (k.tcbs t).pid name)

-- The mutex is there: `r` with one instance fewer.
abbrev pub lock_taken : ℕ → Text → Resource → Kernel → Kernel
lock_taken t name r k =
    if negative r.instances
    then redispatch false (insert_state_blocked_mutex t (k.tcbs t).pid name r k)
    else insert_state_exec t
        (set_assigned t name true (put_resource (k.tcbs t).pid name (some r) k))

abbrev pub lock_in : ℕ → Text → Kernel → Option Resource → Option (Returned × Kernel)
lock_in t name k none = invalid_resource t k
lock_in t name k (some r) =
    some (goes_on, lock_taken t name (record r { instances = decrement r.instances }) (hold_exec k))

unfoldable pub mutex_lock_kernel_syscall : Text → Kernel → Option (Returned × Kernel)
mutex_lock_kernel_syscall name k =
    k.tcb_exec >>= λ t. lock_in t name (redispatch true k) (k.resources (k.tcbs t).pid name)

-- The thread that was waiting, if any, gets the mutex and is ready.
abbrev pub wake_holder : Option ℕ → Text → Kernel → Option Kernel
wake_holder none name k = some k
wake_holder (some w) name k = insert_state_ready w (set_assigned w name true k)

-- `r` with one instance more: the thread that it wakes and what is left of it.
abbrev pub released : Resource → Option ℕ × Resource
released r =
    if positive r.instances
    then (none, r)
    else (let p = pop r.list_blocked in (p.0, record r { list_blocked = p.1 }))

abbrev pub going_on : Option Kernel → Option (Returned × Kernel)
going_on none = none
going_on (some k) = some (goes_on, k)

abbrev pub unlock_with : ℕ → Text → Kernel → Option ℕ × Resource → Option (Returned × Kernel)
unlock_with t name k (w, r) =
    going_on (wake_holder w name (put_resource (k.tcbs t).pid name (some r) k))

abbrev pub unlock_assigned : ℕ → Text → Resource → Kernel → Bool → Option (Returned × Kernel)
unlock_assigned t name r k false = invalid_resource t k
unlock_assigned t name r k true =
    unlock_with t name (redispatch true (set_assigned t name false k))
      (released (record r { instances = increment r.instances }))

abbrev pub unlock_in : ℕ → Text → Kernel → Option Resource → Option (Returned × Kernel)
unlock_in t name k none = invalid_resource t k
unlock_in t name k (some r) = unlock_assigned t name r k ((k.tcbs t).assigned name)

unfoldable pub mutex_unlock_kernel_syscall : Text → Kernel → Option (Returned × Kernel)
mutex_unlock_kernel_syscall name k =
    k.tcb_exec >>= λ t. unlock_in t name k (k.resources (k.tcbs t).pid name)

-- The entry of the array of threads at a tid, or NULL for one at or behind its size.
abbrev pub thread_at : ℕ → List (Option ℕ) → Option ℕ
thread_at tid [] = none
thread_at zero (t ∷ ts) = t
thread_at (suc tid) (t ∷ ts) = thread_at tid ts

abbrev pub join_in : ℕ → Kernel → Option ℕ → Kernel
join_in t k none = redispatch true k
join_in t k (some target) = insert_state_blocked_join t target (hold_exec (redispatch false k))

-- A thread does not wait for itself, nor for one that is not there.
abbrev pub join_from : ℕ → ℕ → Kernel → Kernel
join_from t tid k =
    if tid == (k.tcbs t).tid
    then redispatch true k
    else join_in t k (thread_at tid (k.threads (k.tcbs t).pid))

unfoldable pub thread_join_kernel_syscall : ℕ → Kernel → Option (Returned × Kernel)
thread_join_kernel_syscall tid k = k.tcb_exec >>= λ t. some (goes_on, join_from t tid k)

unfoldable pub thread_exit_kernel_syscall : Kernel → Option (Returned × Kernel)
thread_exit_kernel_syscall k = k.tcb_exec >>= λ t. some (ends, set_exit_reason t thread_exit_exit k)

unfoldable pub io_kernel_syscall : Kernel → Option (Returned × Kernel)
io_kernel_syscall k = k.tcb_exec >>= λ t.
    some (goes_on, redispatch false (insert_state_blocked_io_ready t (hold_exec k)))
