-- ===== src/Kernel/Priorities.antt =====
-- The ready queues that are made for new priorities: array_ready_init, array_ready_update and
-- array_ready_resize of src/kernel/src/kernel.c. The allocations of the queues succeed.
use so_tp_2024_2c_the_last_o.Prelude.{
  ℕ, zero, suc, ◌+◌, ◌-◌, ◌<◌, ◌≡◌, ◌≢◌, refl, ap, ◌∙◌, inl, inr, Bool, true, false, Option, none,
  some, List, [], ◌∷◌, ◌++◌, arith, length, length-append, ltb, leb, ◌==◌, if◌then◌else◌,
  Bool-cases,
}
use so_tp_2024_2c_the_last_o.Kernel.Types.{
  fifo, priorities, mlq, SchedulingAlgorithm, ready_state, Kernel, set_state, set_tcb, update_at,
  new_state, unexpected_error_exit, ◌>>=◌,
}
use so_tp_2024_2c_the_last_o.Kernel.Transitions.{
  add_ready, with_ready, ready_index, insert_state_ready,
}
use so_tp_2024_2c_the_last_o.Kernel.Syscalls.{Returned, goes_on, redispatch}
use so_tp_2024_2c_the_last_o.Kernel.Ownership.{update_at-same}
use so_tp_2024_2c_the_last_o.Kernel.Identifiers.{id_max}

-- `n` queues without threads.
abbrev pub empty_queues : ℕ → List (List ℕ)
empty_queues zero = []
empty_queues (suc n) = [] ∷ empty_queues n

module _ (priority_limit : ℕ) where
  -- Without a result the call fails with ERANGE.
  unfoldable pub array_ready_resize : ℕ → List (List ℕ) → Option (List (List ℕ))
  array_ready_resize priority queues =
      if ltb priority (length queues)
      then some queues
      else if leb priority_limit priority
      then none
      else some (queues ++ empty_queues (priority + 1 - length queues))

  abbrev pub array_ready_init : Option (List (List ℕ))
  array_ready_init = array_ready_resize 0 []

  abbrev pub array_ready_update : SchedulingAlgorithm → ℕ → List (List ℕ) → Option (List (List ℕ))
  array_ready_update fifo priority queues = some queues
  array_ready_update priorities priority queues = array_ready_resize priority queues
  array_ready_update mlq priority queues = array_ready_resize priority queues

-- The queue of a priority, that of one without a queue yet being empty.
abbrev pub queue_at : ℕ → List (List ℕ) → List ℕ
queue_at i [] = []
queue_at zero (queue ∷ queues) = queue
queue_at (suc i) (queue ∷ queues) = queue_at i queues

length-empty_queues : (n : ℕ) → length (empty_queues n) ≡ n
length-empty_queues zero = refl
length-empty_queues (suc n) = ap suc (length-empty_queues n)

queue_at-empty_queues : (i n : ℕ) → queue_at i (empty_queues n) ≡ []
queue_at-empty_queues i zero = refl
queue_at-empty_queues zero (suc n) = refl
queue_at-empty_queues (suc i) (suc n) = queue_at-empty_queues i n

queue_at-append :
    (i : ℕ) (queues : List (List ℕ)) (n : ℕ)
    → queue_at i (queues ++ empty_queues n) ≡ queue_at i queues
queue_at-append i [] n = queue_at-empty_queues i n
queue_at-append zero (queue ∷ queues) n = refl
queue_at-append (suc i) (queue ∷ queues) n = queue_at-append i queues n

-- Adding to a queue that is there adds at its end, and to no other.
pub record Added (i t : ℕ) (queues : List (List ℕ)) (r : Option (List (List ℕ))) : Type 0 where
  pub after : List (List ℕ)
  pub result : r ≡ some after
  pub own : queue_at i after ≡ queue_at i queues ++ (t ∷ [])
  pub others : (j : ℕ) → i ≢ j → queue_at j after ≡ queue_at j queues

others_first :
    (front front' : List ℕ) (queues : List (List ℕ)) (j : ℕ)
    → 0 ≢ j
    → queue_at j (front ∷ queues) ≡ queue_at j (front' ∷ queues)
others_first front front' queues zero d = absurd (d refl)
others_first front front' queues (suc j) d = refl

others_later :
    (front : List ℕ) (queues queues' : List (List ℕ)) (i j : ℕ)
    → ((j : ℕ) → i ≢ j → queue_at j queues' ≡ queue_at j queues)
    → suc i ≢ j
    → queue_at j (front ∷ queues') ≡ queue_at j (front ∷ queues)
others_later front queues queues' i zero h d = refl
others_later front queues queues' i (suc j) h d = h j (λ e. d (ap suc e))

add_ready-Added :
    (i t : ℕ) (queues : List (List ℕ)) → i < length queues → Added i t queues (add_ready i t queues)
unfolding add_ready
add_ready-Added i t [] h = absurd (omega arith)
add_ready-Added zero t (queue ∷ queues) h = record {
  after = (queue ++ (t ∷ [])) ∷ queues;
  result = refl;
  own = refl;
  others = λ j. others_first (queue ++ (t ∷ [])) queue queues j;
}
add_ready-Added (suc i) t (queue ∷ queues) h =
    let rest = add_ready-Added i t queues (omega arith) in
    record {
      after = queue ∷ rest.after;
      result = ap (λ o. o >>= λ more. some (queue ∷ more)) rest.result;
      own = rest.own;
      others = λ j. others_later queue queues rest.after i j rest.others;
    }

-- Below the limit the queue is there after the update, and all queues hold what they held.
pub record Resized (priority : ℕ) (queues : List (List ℕ)) (r : Option (List (List ℕ)))
    : Type 0 where
  pub after : List (List ℕ)
  pub result : r ≡ some after
  pub there : priority < length after
  pub same : (j : ℕ) → queue_at j after ≡ queue_at j queues

array_ready_resize-Resized :
    (priority_limit priority : ℕ) (queues : List (List ℕ))
    → priority < priority_limit
    → Resized priority queues (array_ready_resize priority_limit priority queues)
unfolding array_ready_resize
array_ready_resize-Resized priority_limit priority queues h =
    elim (Bool-cases (ltb priority (length queues))) [
      | inl l ↦ record {
        after = queues;
        result = rw (l, array_ready_resize) refl;
        there = ground (arith, l);
        same = λ j. refl;
      }
      | inr l ↦
          let n : ℕ = priority + 1 - length queues in
          let below : leb priority_limit priority ≡ false = ground (arith, h) in
          record {
            after = queues ++ empty_queues n;
            result = rw (l, below, array_ready_resize) refl;
            there = ground (arith, l, length-append queues (empty_queues n), length-empty_queues n);
            same = λ j. queue_at-append j queues n;
          }
    ]

-- The thread is ready at the end of its queue, and the other queues are as they were.
pub record MadeReady (t : ℕ) (k : Kernel) (r : Option Kernel) : Type 0 where
  pub after : Kernel
  pub result : r ≡ some after
  pub state : (after.tcbs t).current_state ≡ ready_state
  pub own :
      queue_at (ready_index k.algorithm (k.tcbs t).priority) after.array_ready
      ≡ queue_at (ready_index k.algorithm (k.tcbs t).priority) k.array_ready ++ (t ∷ [])
  pub others :
      (j : ℕ)
      → ready_index k.algorithm (k.tcbs t).priority ≢ j
      → queue_at j after.array_ready ≡ queue_at j k.array_ready

module _ (priority_limit : ℕ) where
  -- array_ready_update and insert_state_ready, as they follow each other where a thread starts.
  abbrev pub make_ready : ℕ → Kernel → Option Kernel
  make_ready t k =
      array_ready_update priority_limit k.algorithm (k.tcbs t).priority k.array_ready >>= λ queues.
      insert_state_ready t (record k { array_ready = queues })

  array_ready_update-Resized :
      (algorithm : SchedulingAlgorithm) (priority : ℕ) (queues : List (List ℕ))
      → 0 < length queues
      → priority < priority_limit
      → Resized
          (ready_index algorithm priority)
          queues
          (array_ready_update priority_limit algorithm priority queues)
  array_ready_update-Resized fifo priority queues h l = record {
    after = queues;
    result = refl;
    there = h;
    same = λ j. refl;
  }
  array_ready_update-Resized priorities priority queues h l =
      array_ready_resize-Resized priority_limit priority queues l
  array_ready_update-Resized mlq priority queues h l =
      array_ready_resize-Resized priority_limit priority queues l

  -- When there is at least one ready queue and the priority of the thread is below PRIORITY_LIMIT,
  -- array_ready_update followed by insert_state_ready ends without undefined behaviour under all
  -- three algorithms: the thread is in the ready state and at the end of the queue of the
  -- algorithm, a queue that was not there yet counting as empty, and all other queues hold what
  -- they held.
  pub make_ready-MadeReady :
      (t : ℕ) (k : Kernel)
      → 0 < length k.array_ready
      → (k.tcbs t).priority < priority_limit
      → MadeReady t k (make_ready t k)
  make_ready-MadeReady t k h l =
      let i : ℕ = ready_index k.algorithm (k.tcbs t).priority in
      let u = array_ready_update-Resized k.algorithm (k.tcbs t).priority k.array_ready h l in
      let k1 : Kernel = record k { array_ready = u.after } in
      let a = add_ready-Added i t u.after u.there in
      record {
        after = record (set_state t ready_state k1) { array_ready = a.after };
        result =
            ap (λ o. o >>= λ queues. insert_state_ready t (record k { array_ready = queues }))
              u.result
            ∙ ap (with_ready (set_state t ready_state k1)) a.result;
        state =
            ap (λ tcb. tcb.current_state)
              (update_at-same t (record (k.tcbs t) { current_state = ready_state }) k.tcbs);
        own = a.own ∙ ap (λ queue. queue ++ (t ∷ [])) (u.same i);
        others = λ j d. a.others j d ∙ u.same j;
      }

  -- tcb_create: the address `t` that malloc gives the new thread; without a free id the program
  -- exits.
  abbrev pub tcb_create : ℕ → ℕ → ℕ → Kernel → Option Kernel
  tcb_create t pid priority k =
      if length (k.threads pid) == id_max
      then none
      else some
          (record (set_tcb t
            (record {
              pid = pid;
              tid = length (k.threads pid);
              priority = priority;
              current_state = new_state;
              blocked_thread_join = [];
              assigned = λ name. false;
              exit_reason = unexpected_error_exit;
            })
            k) { threads = update_at pid (k.threads pid ++ (some t ∷ [])) k.threads })

  -- What follows the answer of the memory module to the request for a thread: a thread that it
  -- refuses keeps its entry in the thread manager.
  abbrev pub after_request : ℕ → Bool → Kernel → Option (Returned × Kernel)
  after_request t false k = some (goes_on, redispatch true k)
  after_request t true k = make_ready t k >>= λ k'. some (goes_on, redispatch true k')

  unfoldable pub thread_create_kernel_syscall : ℕ → ℕ → Bool → Kernel → Option (Returned × Kernel)
  thread_create_kernel_syscall t priority accepted k = k.tcb_exec >>= λ exec.
      tcb_create t (k.tcbs exec).pid priority k >>= λ k'. after_request t accepted k'
