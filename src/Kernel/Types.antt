-- ===== src/Kernel/Types.antt =====
-- The state of the kernel: the enumerations and structures of src/kernel/src/kernel.h and
-- resources.h, and the globals of scheduler.c that the transitions read and write.
--
-- A TCB is known by a number, its address. A dictionary of the commons library is the function from
-- its keys; that of a thread's assigned resources has the keys only, since its values are the
-- resources that the dictionary of the process has under the same names.
use so_tp_2024_2c_the_last_o.Prelude.{
  ◌≡◌, refl, arith, ℕ, Bool, Option, none, some, List, ◌==◌, if◌then◌else◌,
}
use so_tp_2024_2c_the_last_o.Prelude.Text.{Text, same_text}
use so_tp_2024_2c_the_last_o.Prelude.Int.{ℤ}

pub data ProcessState : Type 0 where
  new_state ready_state exec_state blocked_join_state blocked_mutex_state : ProcessState
  blocked_dump_state blocked_io_ready_state blocked_io_exec_state exit_state : ProcessState

pub data ExitReason : Type 0 where
  unexpected_error_exit segmentation_fault_exit process_exit_exit thread_exit_exit : ExitReason
  thread_cancel_exit dump_memory_error_exit invalid_resource_exit : ExitReason

pub data SchedulingAlgorithm : Type 0 where
  fifo priorities mlq : SchedulingAlgorithm

-- A semaphore of value 1 - the threads that hold or wait for it, and those that wait.
pub record Resource : Type 0 where
  pub instances : ℤ
  pub list_blocked : List ℕ

pub record Tcb : Type 0 where
  pub pid : ℕ
  pub tid : ℕ
  pub priority : ℕ
  pub current_state : ProcessState
  pub blocked_thread_join : List ℕ
  pub assigned : Text → Bool
  pub exit_reason : ExitReason

-- `threads pid` is the array of the thread manager of a process, `resources pid` its dictionary.
pub record Kernel : Type 0 where
  pub algorithm : SchedulingAlgorithm
  pub tcbs : ℕ → Tcb
  pub threads : ℕ → List (Option ℕ)
  pub resources : ℕ → Text → Option Resource
  pub array_ready : List (List ℕ)
  pub tcb_exec : Option ℕ
  pub blocked_io_ready : List ℕ
  pub should_redispatch : Bool

-- A step of the kernel that ends without undefined behaviour.
infixl 5 ◌>>=◌
abbrev pub ◌>>=◌ : {A B : Type 0} → Option A → (A → Option B) → Option B
none >>= f = none
some a >>= f = f a

pub bind_split :
    {A B : Type 0} (o : Option A) (f : A → Option B) (b : B)
    → o >>= f ≡ some b
    → (a : A) × (o ≡ some a) × (f a ≡ some b)
bind_split none f b e = absurd (ground (arith, e))
bind_split (some a) f b e = (a, refl, e)

abbrev pub from_some : {A : Type 0} → A → Option A → A
from_some d none = d
from_some d (some a) = a

-- A table with one entry changed.
abbrev pub update_at : {A : Type 0} → ℕ → A → (ℕ → A) → ℕ → A
update_at i v f j = if i == j then v else f j

abbrev pub set_tcb : ℕ → Tcb → Kernel → Kernel
set_tcb t tcb k = record k { tcbs = update_at t tcb k.tcbs }

abbrev pub set_state : ℕ → ProcessState → Kernel → Kernel
set_state t s k = set_tcb t (record (k.tcbs t) { current_state = s }) k

-- dictionary_put.
abbrev pub dictionary_put : {A : Type 0} → Text → A → (Text → A) → Text → A
dictionary_put name v d other = if same_text name other then v else d other

abbrev pub put_resource : ℕ → Text → Option Resource → Kernel → Kernel
put_resource pid name r k = record k {
  resources = update_at pid (dictionary_put name r (k.resources pid)) k.resources;
}

abbrev pub set_assigned : ℕ → Text → Bool → Kernel → Kernel
set_assigned t name b k =
    set_tcb t (record (k.tcbs t) { assigned = dictionary_put name b (k.tcbs t).assigned }) k
