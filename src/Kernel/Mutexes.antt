-- ===== src/Kernel/Mutexes.antt =====
-- That the calls on mutexes of src/kernel/src/syscalls.c keep the account of who holds them.
use mathlib.Core.Path.{subst}
use so_tp_2024_2c_the_last_o.Prelude.{
  ℕ, zero, suc, ◌≡◌, ◌≢◌, refl, sym, ap, ◌∙◌, inl, inr, Bool, true, false, Option, none, some, List,
  [], ◌∷◌, ◌++◌, arith, length, length-append, ◌==◌, Bool-cases,
}
use so_tp_2024_2c_the_last_o.Prelude.Int.{pos, negsuc}
use so_tp_2024_2c_the_last_o.Prelude.Text.{Text}
use so_tp_2024_2c_the_last_o.Kernel.Types.{
  ProcessState, ready_state, exec_state, blocked_mutex_state, ExitReason, invalid_resource_exit,
  ◌>>=◌, from_some, Resource, Kernel, set_state, put_resource, set_assigned,
}
use so_tp_2024_2c_the_last_o.Kernel.Transitions.{
  with_ready, add_ready, ready_index, insert_state_ready, insert_state_exec,
}
use so_tp_2024_2c_the_last_o.Kernel.Syscalls.{
  Returned, decrement, set_exit_reason, invalid_resource, redispatch, lock_taken, lock_in,
  mutex_lock_kernel_syscall,
}
use so_tp_2024_2c_the_last_o.Kernel.Ownership.{
  minus, AllOf, AllOf-view, OwnedAs, Owned, Change, Change-then, Same, Same-Change, Same-then,
  set_tcb-Same, OwnedAs-view, Change-Owned, Same-Owned, set_assigned-Change, set_assigned_self,
  set_assigned_other, put_resource-Change, put_resource_self,
}

pub Same-fields : (k k' : Kernel) → k'.tcbs ≡ k.tcbs → k'.resources ≡ k.resources → Same k k'
Same-fields k k' e f = record {
  pids = λ u. ap (λ g. (g u).pid) e;
  assigned = λ u n. ap (λ g. (g u).assigned n) e;
  resources = λ p n. ap (λ g. g p n) f;
}

pub set_state-Same : (t : ℕ) (s : ProcessState) (k : Kernel) → Same k (set_state t s k)
set_state-Same t s k = set_tcb-Same t (record (k.tcbs t) { current_state = s }) k refl (λ n. refl)

pub set_exit_reason-Same :
    (t : ℕ) (reason : ExitReason) (k : Kernel) → Same k (set_exit_reason t reason k)
set_exit_reason-Same t reason k =
    set_tcb-Same t (record (k.tcbs t) { exit_reason = reason }) k refl (λ n. refl)

pub insert_state_exec-Same : (t : ℕ) (k : Kernel) → Same k (insert_state_exec t k)
insert_state_exec-Same t k =
    let s = set_state-Same t exec_state k in
    Same-then s (Same-fields (set_state t exec_state k) (insert_state_exec t k) refl refl)

pub insert_state_ready-Same : (t : ℕ) (k k' : Kernel) → insert_state_ready t k ≡ some k' → Same k k'
insert_state_ready-Same t k k' =
    by_queues (add_ready (ready_index k.algorithm (k.tcbs t).priority) t k.array_ready)
  where
    by_queues :
        (o : Option (List (List ℕ)))
        → with_ready (set_state t ready_state k) o ≡ some k'
        → Same k k'
    by_queues none e = absurd (ground (arith, e))
    by_queues (some queues) e = subst (Same k) (ap (from_some k) e) (
        Same-then (set_state-Same t ready_state k) (
          Same-fields (set_state t ready_state k)
            (record (set_state t ready_state k) { array_ready = queues }) refl refl))

-- A resource that is put back, with the holder that it has.
pub put-Owned :
    (pid : ℕ) (name : Text) (k k0 : Kernel) (r : Resource)
    → Change pid name k k0
    → Owned k
    → OwnedAs k0 pid name (some r)
    → Owned (put_resource pid name (some r) k0)
put-Owned pid name k k0 r c o own =
    let k1 : Kernel = put_resource pid name (some r) k0 in
    Change-Owned pid name k k1 (Change-then c (put_resource-Change pid name (some r) k0)) o (
      subst (OwnedAs k1 pid name) (sym (put_resource_self pid name (some r) k0))
        (OwnedAs-view k0 k1 pid name (some r) (λ u. refl) (λ u h. refl) own))

-- The thread `w` gets a mutex that no other thread has.
pub give-Owned :
    (pid : ℕ) (name : Text) (k k0 : Kernel) (r : Resource) (w : ℕ)
    → Change pid name k k0
    → Owned k
    → (k0.tcbs w).pid ≡ pid
    → ((u : ℕ) → (k0.tcbs u).pid ≡ pid → w ≢ u → (k0.tcbs u).assigned name ≡ false)
    → r.instances ≡ minus (length r.list_blocked)
    → AllOf k0 pid r.list_blocked
    → Owned (set_assigned w name true (put_resource pid name (some r) k0))
give-Owned pid name k k0 r w c o own others waiting waiters =
    let k1 : Kernel = put_resource pid name (some r) k0 in
    let k2 : Kernel = set_assigned w name true k1 in
    let given : Change pid name k1 k2 =
      subst (λ q. Change q name k1 k2) own (set_assigned-Change w name true k1) in
    Change-Owned pid name k k2
      (Change-then c (Change-then (put_resource-Change pid name (some r) k0) given)) o
      (subst (OwnedAs k2 pid name) (sym (put_resource_self pid name (some r) k0)) (
        inr (record {
          holder = w;
          own = given.pids w ∙ own;
          assigned = set_assigned_self w name true k1;
          only = λ u h a. elim (Bool-cases (w == u)) [
            | inl e ↦ ground (arith, e)
            | inr e ↦
                let other : w ≢ u = λ q. absurd (ground (arith, e, q)) in
                let free : (k0.tcbs u).assigned name ≡ false =
                  others u (sym (given.pids u) ∙ h) other in
                let kept = set_assigned_other w name true k1 u other in absurd (cc (a, kept, free))
          ];
          waiting = waiting;
          waiters = AllOf-view k0 k2 pid r.list_blocked given.pids waiters;
        })))

AllOf-add :
    (k : Kernel) (pid t : ℕ) (ts : List ℕ)
    → (k.tcbs t).pid ≡ pid
    → AllOf k pid ts
    → AllOf k pid (ts ++ (t ∷ []))
AllOf-add k pid t [] e a = (e, tt)
AllOf-add k pid t (u ∷ ts) e a = (a.0, AllOf-add k pid t ts e a.1)

decrement-minus : (n : ℕ) → decrement (minus n) ≡ negsuc n
decrement-minus zero = refl
decrement-minus (suc n) = refl

minus-length : (ts : List ℕ) (t : ℕ) → negsuc (length ts) ≡ minus (length (ts ++ (t ∷ [])))
minus-length ts t =
    let e : suc (length ts) ≡ length (ts ++ (t ∷ [])) = omega (arith, length-append ts (t ∷ [])) in
    ap minus e

pub Change-none : (pid : ℕ) (name : Text) (k : Kernel) → Change pid name k k
Change-none pid name k = Same-Change (Same-fields k k refl refl)

-- A thread that takes a mutex: it gets the free one, or waits.
lock_taken-Owned :
    (t : ℕ) (name : Text) (r : Resource) (k : Kernel)
    → Owned k
    → OwnedAs k (k.tcbs t).pid name (some r)
    → Owned (lock_taken t name (record r { instances = decrement r.instances }) k)
lock_taken-Owned t name r k o (inl f) =
    let pid : ℕ = (k.tcbs t).pid in
    let r' : Resource = record { instances = pos 0; list_blocked = r.list_blocked } in
    let given : Kernel = set_assigned t name true (put_resource pid name (some r') k) in
    let none_left : pos 0 ≡ minus (length r.list_blocked) =
      sym (ap (λ ts. minus (length ts)) f.nobody) in
    subst (λ i. Owned (lock_taken t name (record r { instances = i }) k)) (sym (ap decrement f.one))
      (Same-Owned given (insert_state_exec t given) (insert_state_exec-Same t given) (
        give-Owned pid name k k r' t (Change-none pid name k) o refl (λ u h d. f.unassigned u h)
          none_left (subst (AllOf k pid) (sym f.nobody) tt)))
lock_taken-Owned t name r k o (inr h) =
    let pid : ℕ = (k.tcbs t).pid in
    let n : ℕ = length r.list_blocked in
    let r' : Resource = record {
      instances = negsuc n;
      list_blocked = r.list_blocked ++ (t ∷ []);
    } in
    let blocked : Kernel = set_state t blocked_mutex_state k in
    let s = set_state-Same t blocked_mutex_state k in
    let after : Kernel = put_resource pid name (some r') blocked in
    subst (λ i. Owned (lock_taken t name (record r { instances = i }) k))
      (sym (ap decrement h.waiting ∙ decrement-minus n))
      (Same-Owned after (redispatch false after)
        (Same-fields after (redispatch false after) refl refl)
        (put-Owned pid name k blocked r' (Same-Change s) o (
          OwnedAs-view k blocked pid name (some r') s.pids (λ u q. s.assigned u name)
            (inr (record {
              holder = h.holder;
              own = h.own;
              assigned = h.assigned;
              only = h.only;
              waiting = minus-length r.list_blocked t;
              waiters = AllOf-add k pid t r.list_blocked refl h.waiters;
            })))))

-- The state in an answer, or `k` where there is none.
abbrev pub answer_or : Kernel → Option (Returned × Kernel) → Kernel
answer_or k none = k
answer_or k (some (returned, k')) = k'

pub invalid_resource-Owned :
    (t : ℕ) (k k' : Kernel) (returned : Returned)
    → Owned k
    → invalid_resource t k ≡ some (returned, k')
    → Owned k'
invalid_resource-Owned t k k' returned o e = subst Owned (ap (answer_or k) e) (
    Same-Owned k (set_exit_reason t invalid_resource_exit k)
      (set_exit_reason-Same t invalid_resource_exit k) o)

pub redispatch-Owned : (b : Bool) (k : Kernel) → Owned k → Owned (redispatch b k)
redispatch-Owned b k = Same-Owned k (redispatch b k) (Same-fields k (redispatch b k) refl refl)

pub mutex_lock-Owned :
    (name : Text) (k k' : Kernel) (returned : Returned)
    → Owned k
    → mutex_lock_kernel_syscall name k ≡ some (returned, k')
    → Owned k'
unfolding mutex_lock_kernel_syscall
mutex_lock-Owned name k k' returned o = by_exec k.tcb_exec
  where
    k1 : Kernel
    k1 = redispatch true k

    by_resource :
        (t : ℕ) (r : Option Resource)
        → OwnedAs k1 (k1.tcbs t).pid name r
        → lock_in t name k1 r ≡ some (returned, k')
        → Owned k'
    by_resource t none own e = invalid_resource-Owned t k1 k' returned (redispatch-Owned true k o) e
    by_resource t (some r) own e =
        subst Owned (ap (answer_or k1) e)
          (lock_taken-Owned t name r k1 (redispatch-Owned true k o) own)

    by_exec :
        (exec : Option ℕ)
        → (exec >>= λ t. lock_in t name (redispatch true k) (k.resources (k.tcbs t).pid name))
          ≡ some (returned, k')
        → Owned k'
    by_exec none e = absurd (ground (arith, e))
    by_exec (some t) e =
        by_resource t (k.resources (k.tcbs t).pid name)
          (redispatch-Owned true k o (k.tcbs t).pid name) e
