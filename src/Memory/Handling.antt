-- ===== src/Memory/Handling.antt =====
-- The requests on threads, and any request, keep the invariant of the memory module.
use mathlib.Core.Path.{subst}
use so_tp_2024_2c_the_last_o.Prelude.{
  ℕ, ◌+◌, ◌≡◌, refl, sym, arith, length-set, inl, inr, Bool, true, false, Option, none, some, List,
  [], ◌∷◌, length, Option-cases, leb, if◌then◌else◌,
}
use so_tp_2024_2c_the_last_o.Memory.Types.{
  Slot, null, uninit, live, MemoryThread, MemoryProcess, Memory,
}
use so_tp_2024_2c_the_last_o.Memory.Processes.{
  Outcome, replies, Reply, failure, lookup_process, memory_thread_create, lookup_slot, set_process,
  create_in_slot, destroy_in_slot, thread_create, thread_destroy,
}
use so_tp_2024_2c_the_last_o.Memory.Invariant.{Roomy, After}
use so_tp_2024_2c_the_last_o.Memory.Changes.{Threads-Housing}
use so_tp_2024_2c_the_last_o.Memory.Requests.{
  Request, create_process, destroy_process, create_thread, destroy_thread, handle, creations_of,
}
use so_tp_2024_2c_the_last_o.Memory.Service.{process_create-Valid, process_destroy-After}

thread_set-Valid :
    (total n pid : ℕ) (m : Memory) (q : MemoryProcess) (threads : List Slot)
    → lookup_process pid m.processes ≡ some q
    → Roomy total n m
    → Roomy total n (set_process pid (record q { threads = threads }) m)
thread_set-Valid total n pid m q threads e (v, room) = (
  record {
    layout = v.layout;
    separated = v.separated;
    housing =
        Threads-Housing pid q (record q { threads = threads }) m.table m.processes e refl refl refl
          v.housing;
  },
  omega (arith, room, length-set m.processes pid (some (record q { threads = threads }))),
)

After-if :
    (P : Memory → Type 0) (b : Bool) (x y : Outcome Reply)
    → After P x
    → After P y
    → After P (if b then x else y)
After-if P true x y p q = p
After-if P false x y p q = q

create_in_slot-Valid :
    (total n pid : ℕ) (thread : MemoryThread) (m : Memory) (q : MemoryProcess) (slot : Option Slot)
    → lookup_process pid m.processes ≡ some q
    → Roomy total n m
    → After (Roomy total n) (create_in_slot pid thread m q slot)
create_in_slot-Valid total n pid thread m q none e v =
    After-if _ (leb thread.tid (length q.threads)) _ _ (thread_set-Valid total n pid m q _ e v) tt
create_in_slot-Valid total n pid thread m q (some null) e v =
    After-if _ (leb thread.tid (length q.threads)) _ _ (thread_set-Valid total n pid m q _ e v) tt
create_in_slot-Valid total n pid thread m q (some uninit) e v = tt
create_in_slot-Valid total n pid thread m q (some (live t)) e v = v

destroy_in_slot-Valid :
    (total n pid tid : ℕ) (m : Memory) (q : MemoryProcess) (slot : Option Slot)
    → lookup_process pid m.processes ≡ some q
    → Roomy total n m
    → After (Roomy total n) (destroy_in_slot pid tid m q slot)
destroy_in_slot-Valid total n pid tid m q none e v = v
destroy_in_slot-Valid total n pid tid m q (some null) e v = v
destroy_in_slot-Valid total n pid tid m q (some uninit) e v = tt
destroy_in_slot-Valid total n pid tid m q (some (live t)) e v =
    thread_set-Valid total n pid m q _ e v

pub create_found :
    (pid tid : ℕ) (i : List ℕ) (is : List (List ℕ)) (m : Memory) (found : Option MemoryProcess)
    → lookup_process pid m.processes ≡ found
    → thread_create pid tid (i ∷ is) m ≡ elim found [
      | none ↦ replies failure m
      | some q ↦
          create_in_slot pid (memory_thread_create tid (i ∷ is)) m q (lookup_slot tid q.threads)
    ]
unfolding thread_create
create_found pid tid i is m found e = rw (e, thread_create)

destroy_found :
    (pid tid : ℕ) (m : Memory) (found : Option MemoryProcess)
    → lookup_process pid m.processes ≡ found
    → thread_destroy pid tid m ≡ elim found [
      | none ↦ replies failure m
      | some q ↦ destroy_in_slot pid tid m q (lookup_slot tid q.threads)
    ]
unfolding thread_destroy
destroy_found pid tid m found e = rw (e, thread_destroy)

thread_create-Valid :
    (total n pid tid : ℕ) (instructions : List (List ℕ)) (m : Memory)
    → Roomy total n m
    → After (Roomy total n) (thread_create pid tid instructions m)
unfolding thread_create
thread_create-Valid total n pid tid [] m v = v
thread_create-Valid total n pid tid (i ∷ is) m v =
    elim (Option-cases (lookup_process pid m.processes)) [
      | inl absent ↦ subst (After (Roomy total n)) (sym (create_found pid tid i is m none absent)) v
      | inr (q, present) ↦
          subst (After (Roomy total n)) (sym (create_found pid tid i is m (some q) present)) (
            create_in_slot-Valid total n pid (memory_thread_create tid (i ∷ is)) m q
              (lookup_slot tid q.threads) present v)
    ]

thread_destroy-Valid :
    (total n pid tid : ℕ) (m : Memory)
    → Roomy total n m
    → After (Roomy total n) (thread_destroy pid tid m)
thread_destroy-Valid total n pid tid m v = elim (Option-cases (lookup_process pid m.processes)) [
  | inl absent ↦ subst (After (Roomy total n)) (sym (destroy_found pid tid m none absent)) v
  | inr (q, present) ↦
      subst (After (Roomy total n)) (sym (destroy_found pid tid m (some q) present))
        (destroy_in_slot-Valid total n pid tid m q (lookup_slot tid q.threads) present v)
]

-- Each request keeps the invariant, whatever its answer.
pub handle-Valid :
    (total n : ℕ) (r : Request) (m : Memory)
    → Roomy total (creations_of r + n) m
    → After (Roomy total n) (handle r m)
unfolding handle
handle-Valid total n (create_process pid size) m (v, room) =
    process_create-Valid total n pid size m v (omega (arith, room))
handle-Valid total n (destroy_process status pid) m (v, room) =
    process_destroy-After (Roomy total n) total status pid m v (v, omega (arith, room))
      (λ m' valid same. (valid, omega (arith, room, same)))
handle-Valid total n (create_thread pid tid instructions) m (v, room) =
    thread_create-Valid total n pid tid instructions m (v, omega (arith, room))
handle-Valid total n (destroy_thread pid tid) m (v, room) =
    thread_destroy-Valid total n pid tid m (v, omega (arith, room))
