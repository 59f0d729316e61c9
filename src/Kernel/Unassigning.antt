-- ===== src/Kernel/Unassigning.antt =====
-- What resources_unassign of src/kernel/src/resources.c does with the mutexes of a thread that ends,
-- tcb_unblock keeping its value from one turn of the loop to the next.
use so_tp_2024_2c_the_last_o.Prelude.{
  ℕ, ◌≡◌, refl, ap, ◌∙◌, inr, true, false, Option, none, some, List, [], ◌∷◌, ◌++◌,
}
use so_tp_2024_2c_the_last_o.Prelude.Int.{pos, negsuc}
use so_tp_2024_2c_the_last_o.Prelude.Text.{Text, same_text}
use so_tp_2024_2c_the_last_o.Kernel.Types.{
  fifo, ready_state, Resource, Kernel, ◌>>=◌, set_state, put_resource, set_assigned,
}
use so_tp_2024_2c_the_last_o.Kernel.Syscalls.{increment, wake_holder}
use so_tp_2024_2c_the_last_o.Kernel.Exit.{unassigned, unassign_loop}
use so_tp_2024_2c_the_last_o.Kernel.Ownership.{
  minus, put_resource-Change, put_resource_self, set_assigned_self,
}
use so_tp_2024_2c_the_last_o.Kernel.Mutexes.{set_state-Same}
use so_tp_2024_2c_the_last_o.Kernel.Unlocking.{increment-negsuc, released-waiting}
use so_tp_2024_2c_the_last_o.Kernel.Queues.{insert_state_ready-fifo}

-- The thread `w` at the end of the ready queue, with the mutex.
abbrev pub woken : ℕ → Text → List ℕ → List (List ℕ) → Kernel → Kernel
woken w name queue queues k = record (set_state w ready_state (set_assigned w name true k)) {
  array_ready = (queue ++ (w ∷ [])) ∷ queues;
}

wake_holder-fifo :
    (w : ℕ) (name : Text) (k : Kernel) (queue : List ℕ) (queues : List (List ℕ))
    → k.algorithm ≡ fifo
    → k.array_ready ≡ queue ∷ queues
    → wake_holder (some w) name k ≡ some (woken w name queue queues k)
wake_holder-fifo w name k queue queues e f =
    insert_state_ready-fifo w (set_assigned w name true k) queue queues e f

-- One turn of the loop.
unassign_loop-next :
    (pid : ℕ) (name : Text) (names : List Text) (u : Option ℕ) (k : Kernel) (r r' : Resource)
    (u' : Option ℕ)
    → k.resources pid name ≡ some r
    → unassigned u (record r { instances = increment r.instances }) ≡ (u', r')
    → unassign_loop pid (name ∷ names) u k
      ≡ (wake_holder u' name (put_resource pid name (some r') k) >>= unassign_loop pid names u')
unfolding unassign_loop
unassign_loop-next pid name names u k r r' u' e f =
    rw (e, unassign_loop)
      (ap
        (λ q.
          wake_holder q.0 name (put_resource pid name (some q.1) k) >>= unassign_loop pid names q.0)
        f)

unassign_loop-nil : (pid : ℕ) (u : Option ℕ) (k : Kernel) → unassign_loop pid [] u k ≡ some k
unfolding unassign_loop
unassign_loop-nil pid u k = refl

-- Twice in the ready queue, with a mutex that nobody gave up to it and that counts as free.
pub record WokenTwice (w pid : ℕ) (second : Text) (queue : List ℕ) (queues : List (List ℕ))
    (r : Option Kernel) : Type 0 where
  pub after : Kernel
  pub result : r ≡ some after
  pub ready : after.array_ready ≡ ((queue ++ (w ∷ [])) ++ (w ∷ [])) ∷ queues
  pub free : after.resources pid second ≡ some (record { instances = pos 1; list_blocked = [] })
  pub assigned : (after.tcbs w).assigned second ≡ true

-- Under FIFO, when a thread that ends has two mutexes and only the first that the walk meets has
-- waiters, resources_unassign puts the first of them twice at the end of the ready queue and
-- assigns it the second mutex as well, which counts as free.
pub resources_unassign-WokenTwice :
    (pid w n : ℕ) (ws : List ℕ) (first second : Text) (k : Kernel) (queue : List ℕ)
    (queues : List (List ℕ))
    → k.algorithm ≡ fifo
    → k.array_ready ≡ queue ∷ queues
    → same_text first second ≡ false
    → k.resources pid first ≡ some (record { instances = negsuc n; list_blocked = w ∷ ws })
    → k.resources pid second ≡ some (record { instances = pos 0; list_blocked = [] })
    → WokenTwice w pid second queue queues (unassign_loop pid (first ∷ (second ∷ [])) none k)
resources_unassign-WokenTwice pid w n ws first second k queue queues algorithm ready differ e f =
    let r : Resource = record { instances = minus n; list_blocked = ws } in
    let r1 : Resource = record { instances = pos 1; list_blocked = [] } in
    let k1 : Kernel = put_resource pid first (some r) k in
    let k2 : Kernel = woken w first queue queues k1 in
    let k3 : Kernel = put_resource pid second (some r1) k2 in
    let k4 : Kernel = woken w second (queue ++ (w ∷ [])) queues k3 in
    let one : unassigned none (record { instances = increment (negsuc n); list_blocked = w ∷ ws })
        ≡ (some w, r) =
      ap (λ i. unassigned none (record { instances = i; list_blocked = w ∷ ws }))
        (increment-negsuc n)
      ∙ released-waiting n w ws in
    let kept : k2.resources pid second ≡ some (record { instances = pos 0; list_blocked = [] }) =
      (put_resource-Change pid first (some r) k).others_resources pid second (inr differ) ∙ f in
    record {
      after = k4;
      result =
          unassign_loop-next pid first (second ∷ []) none k
            (record { instances = negsuc n; list_blocked = w ∷ ws }) r (some w) e one
          ∙ ap (λ o. o >>= unassign_loop pid (second ∷ []) (some w))
              (wake_holder-fifo w first k1 queue queues algorithm ready)
          ∙ unassign_loop-next pid second [] (some w) k2
              (record { instances = pos 0; list_blocked = [] }) r1 (some w) kept refl
          ∙ ap (λ o. o >>= unassign_loop pid [] (some w))
              (wake_holder-fifo w second k3 (queue ++ (w ∷ [])) queues algorithm refl)
          ∙ unassign_loop-nil pid (some w) k4;
      ready = refl;
      free = put_resource_self pid second (some r1) k2;
      assigned =
          (set_state-Same w ready_state (set_assigned w second true k3)).assigned w second
          ∙ set_assigned_self w second true k3;
    }
