-- ===== src/Kernel/Queues.antt =====
-- The order in which threads leave the ready queues of src/kernel/src/transitions.c, and in which
-- join_threads puts those that waited into them.
use mathlib.Core.List.{append-nil, append_assoc}
use so_tp_2024_2c_the_last_o.Prelude.{
  ℕ, ◌≡◌, refl, sym, ap, ◌∙◌, Option, none, some, List, [], ◌∷◌, ◌++◌,
}
use so_tp_2024_2c_the_last_o.Kernel.Types.{ready_state, fifo, Kernel, set_tcb, set_state, ◌>>=◌}
use so_tp_2024_2c_the_last_o.Kernel.Transitions.{
  pop_priority, add_ready, with_ready, ready_index, insert_state_ready,
}
use so_tp_2024_2c_the_last_o.Kernel.Exit.{join_loop}

abbrev pub AllEmpty : List (List ℕ) → Type 0
AllEmpty [] = Unit {0}
AllEmpty (queue ∷ queues) = (queue ≡ []) × AllEmpty queues

-- The first thread of the first queue that has one.
pub record Head (queues : List (List ℕ)) (t : ℕ) (left : List (List ℕ)) : Type 0 where
  pub before : List (List ℕ)
  pub queue : List ℕ
  pub after : List (List ℕ)
  pub found : queues ≡ before ++ ((t ∷ queue) ∷ after)
  pub empty : AllEmpty before
  pub rest : left ≡ before ++ (queue ∷ after)

abbrev pub Pops : List (List ℕ) → Option ℕ × List (List ℕ) → Type 0
Pops queues (none, left) = AllEmpty queues × (left ≡ queues)
Pops queues (some t, left) = Head queues t left

Pops-skip :
    (queues : List (List ℕ)) (r : Option ℕ × List (List ℕ))
    → Pops queues r
    → Pops ([] ∷ queues) (r.0, [] ∷ r.1)
Pops-skip queues (none, left) h = ((refl, h.0), ap (◌∷◌ []) h.1)
Pops-skip queues (some t, left) h = record {
  before = [] ∷ h.before;
  queue = h.queue;
  after = h.after;
  found = ap (◌∷◌ []) h.found;
  empty = (refl, h.empty);
  rest = ap (◌∷◌ []) h.rest;
}

-- The search of get_state_ready under priorities and multilevel queues takes the first thread of
-- the first queue that is not empty, and leaves all else as it was; it finds none only if all
-- queues are empty.
pub pop_priority-Pops : (queues : List (List ℕ)) → Pops queues (pop_priority queues)
unfolding pop_priority
pop_priority-Pops [] = (tt, refl)
pop_priority-Pops ([] ∷ queues) = Pops-skip queues (pop_priority queues) (pop_priority-Pops queues)
pop_priority-Pops ((t ∷ queue) ∷ queues) = record {
  before = [];
  queue = queue;
  after = queues;
  found = refl;
  empty = tt;
  rest = refl;
}

-- Under FIFO every thread goes to the end of the one queue.
pub insert_state_ready-fifo :
    (t : ℕ) (k : Kernel) (queue : List ℕ) (queues : List (List ℕ))
    → k.algorithm ≡ fifo
    → k.array_ready ≡ queue ∷ queues
    → insert_state_ready t k
      ≡ some (record (set_state t ready_state k) { array_ready = (queue ++ (t ∷ [])) ∷ queues })
unfolding add_ready
insert_state_ready-fifo t k queue queues e f = ap (with_ready (set_state t ready_state k)) (
    ap (λ a. add_ready (ready_index a (k.tcbs t).priority) t k.array_ready) e
    ∙ ap (add_ready 0 t) f)

-- Those that waited for the thread are ready, in the order in which they joined it.
pub record Joined (queue : List ℕ) (queues : List (List ℕ)) (ws : List ℕ) (t : ℕ)
    (r : Option Kernel) : Type 0 where
  pub after : Kernel
  pub result : r ≡ some after
  pub ready : after.array_ready ≡ (queue ++ ws) ∷ queues

-- Under FIFO, the loop of join_threads ends without undefined behaviour and puts all the threads
-- that it is given at the end of the ready queue, in their order.
pub join_loop-Joined :
    (t : ℕ) (ws : List ℕ) (k : Kernel) (queue : List ℕ) (queues : List (List ℕ))
    → k.algorithm ≡ fifo
    → k.array_ready ≡ queue ∷ queues
    → Joined queue queues ws t (join_loop t ws k)
unfolding join_loop
join_loop-Joined t [] k queue queues e f = record {
  after = k;
  result = refl;
  ready = f ∙ ap (λ q. q ∷ queues) (sym (append-nil queue));
}
join_loop-Joined t (w ∷ ws) k queue queues e f =
    let k1 : Kernel = set_tcb t (record (k.tcbs t) { blocked_thread_join = ws }) k in
    let k2 : Kernel = record (set_state w ready_state k1) {
      array_ready = (queue ++ (w ∷ [])) ∷ queues;
    } in
    let rest = join_loop-Joined t ws k2 (queue ++ (w ∷ [])) queues e refl in
    record {
      after = rest.after;
      result =
          ap (λ o. o >>= join_loop t ws) (insert_state_ready-fifo w k1 queue queues e f)
          ∙ rest.result;
      ready = rest.ready ∙ ap (λ q. q ∷ queues) (append_assoc queue (w ∷ []) ws);
    }
