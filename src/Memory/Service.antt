-- ===== src/Memory/Service.antt =====
-- The requests of the kernel keep the invariant of the memory module.
use mathlib.Core.Path.{subst}
use so_tp_2024_2c_the_last_o.Prelude.{
  ℕ, suc, ◌+◌, ◌^◌, ◌<◌, ◌≡◌, refl, sym, ap, ◌∙◌, ◌⊎◌, inl, inr, true, Option, none, some, List, [],
  ◌∷◌, ◌++◌, arith, set, length, length-set, Option-cases, Bool-cases, ◌==◌,
}
use so_tp_2024_2c_the_last_o.Memory.Types.{
  Scheme, fixed, dynamic, Partition, Slot, null, uninit, live, MemoryProcess, Memory,
}
use so_tp_2024_2c_the_last_o.Memory.Partitions.{update, search, allocate_partition, allocate_found}
use so_tp_2024_2c_the_last_o.Memory.Processes.{
  replies, Reply, success, failure, lookup_process, occupy, release, place_process, process_create,
  joined_table, join_freed, process_destroy, memory_process_create, array_memory_threads_destroy,
  memory_process_destroy, free_process,
}
use so_tp_2024_2c_the_last_o.Memory.Shapes.{
  NotAt, Distinct-front, Placed, allocate-Placed, update-front,
}
use so_tp_2024_2c_the_last_o.Memory.Joining.{verify_and_join-Joined}
use so_tp_2024_2c_the_last_o.Memory.Layout.{Layout, Placed-Layout, Joined-Layout, released-Layout}
use so_tp_2024_2c_the_last_o.Memory.Separation.{Separated, Placed-Separated, Joined-Separated}
use so_tp_2024_2c_the_last_o.Memory.Tenants.{tenant_split, Placed-Settles, Leaves}
use so_tp_2024_2c_the_last_o.Memory.Leaving.{Joined-Leaves, released-Leaves}
use so_tp_2024_2c_the_last_o.Memory.Invariant.{Valid, Roomy, Housing, After, Settles-Housing}
use so_tp_2024_2c_the_last_o.Memory.Registry.{added_lem, length-added}
use so_tp_2024_2c_the_last_o.Memory.Changes.{Leaves-Housing, lookup_process-here}

-- A search that finds nothing leaves the table.
allocate_none :
    (scheme : Scheme) (new required next : ℕ) (t u : List Partition)
    (found : Option (ℕ × Partition))
    → allocate_found scheme new t required found ≡ (none, u, next)
    → (u ≡ t) × (next ≡ new)
unfolding allocate_found
allocate_none scheme new required next t u none e = (ground arith, ground arith)
allocate_none fixed new required next t u (some (i, p)) e = absurd (ground arith)
allocate_none dynamic new required next t u (some (i, p)) e = absurd (ground arith)

pub place-Valid :
    (total n pid size : ℕ) (m : Memory) (alloc : Option ℕ × List Partition × ℕ)
    → allocate_partition m.scheme m.algorithm m.next_address m.table size ≡ alloc
    → Valid total m
    → length m.processes + suc n < 2 ^ 16
    → After (Roomy total n) (place_process pid size m alloc)
unfolding allocate_partition
place-Valid total n pid size m (none, u, next) e v few =
    let (same, still) =
      allocate_none m.scheme m.next_address size next m.table u (search m.algorithm m.table size)
        e in
    (
      record {
        layout = rw (same, still) v.layout;
        separated = λ k. rw same (v.separated k);
        housing = rw same v.housing;
      },
      omega (arith, few),
    )
place-Valid total n pid size m (some a, u, next) e v few =
    let placed : Placed pid size m.next_address m.table (update a (occupy pid) u) next a =
      allocate-Placed m.scheme m.algorithm pid m.next_address size a next m.table u
        v.layout.distinct e in
    (
      record {
        layout = Placed-Layout placed v.layout;
        separated = λ k. Placed-Separated placed (v.separated k);
        housing =
            subst (Housing (update a (occupy pid) u))
              (sym (added_lem (memory_process_create pid size a) m.processes (omega (arith, few))))
              (Settles-Housing pid size a m.table (update a (occupy pid) u) m.processes
                (Placed-Settles placed v.layout.distinct) v.housing);
      },
      omega (arith, few, length-added (memory_process_create pid size a) m.processes),
    )

-- The branches of the two handlers of processes.
pub create_absent :
    (pid size : ℕ) (m : Memory)
    → lookup_process pid m.processes ≡ none
    → process_create pid size m
      ≡ place_process pid size m
          (allocate_partition m.scheme m.algorithm m.next_address m.table size)
unfolding process_create
create_absent pid size m e = rw (e, process_create)

pub create_present :
    (pid size : ℕ) (m : Memory) (q : MemoryProcess)
    → lookup_process pid m.processes ≡ some q
    → process_create pid size m ≡ replies failure m
unfolding process_create
create_present pid size m q e = rw (e, process_create)

destroy_absent :
    (status pid : ℕ) (m : Memory)
    → lookup_process pid m.processes ≡ none
    → process_destroy status pid m ≡ replies failure m
unfolding process_destroy
destroy_absent status pid m e = rw (e, process_destroy)

destroy_present :
    (status pid : ℕ) (m : Memory) (q : MemoryProcess)
    → lookup_process pid m.processes ≡ some q
    → process_destroy status pid m
      ≡ free_process status q (
          join_freed m.scheme
            (record m { processes = set m.processes pid none })
            q.partition
            (update q.partition release m.table))
unfolding process_destroy
destroy_present status pid m q e = rw (e, process_destroy)

Scheme-cases : (s : Scheme) → (s ≡ fixed) ⊎ (s ≡ dynamic)
Scheme-cases fixed = inl refl
Scheme-cases dynamic = inr refl

pub process_create-Valid :
    (total n pid size : ℕ) (m : Memory)
    → Valid total m
    → length m.processes + suc n < 2 ^ 16
    → After (Roomy total n) (process_create pid size m)
process_create-Valid total n pid size m v few =
    elim (Option-cases (lookup_process pid m.processes)) [
      | inl absent ↦ subst (After (Roomy total n)) (sym (create_absent pid size m absent)) (
          place-Valid total n pid size m
            (allocate_partition m.scheme m.algorithm m.next_address m.table size) refl v few)
      | inr (q, present) ↦
          subst (After (Roomy total n)) (sym (create_present pid size m q present))
            (v, omega (arith, few))
    ]

-- The state after the partition at the process's pointer was given up.
join_freed-Valid :
    (total pid : ℕ) (m : Memory) (q : MemoryProcess) (front back : List Partition) (p : Partition)
    → lookup_process pid m.processes ≡ some q
    → m.table ≡ front ++ (p ∷ back)
    → p.address ≡ q.partition
    → Valid total m
    → (m' : Memory) × (join_freed m.scheme
          (record m { processes = set m.processes pid none })
          q.partition
          (update q.partition release m.table)
        ≡ replies success m')
      × Valid total m'
      × (m'.processes ≡ set m.processes pid none)
join_freed-Valid total pid m q front back p e te pa v =
    let laid : Layout total m.next_address (front ++ (p ∷ back)) =
      subst (Layout total m.next_address) te v.layout in
    let clear : NotAt q.partition front =
      subst (λ a. NotAt a front) pa (Distinct-front front p back laid.distinct) in
    let freed : update q.partition release m.table ≡ front ++ (release p ∷ back) =
      ap (update q.partition release) te ∙ update-front q.partition release front p back clear pa in
    let emptied : (t' : List Partition)
        → Leaves p.address (front ++ (p ∷ back)) t'
        → Housing t' (set m.processes pid none) =
      λ t' l.
        Leaves-Housing pid q m.table t' m.processes e
          (subst (λ t. Leaves q.partition t t') (sym te)
            (subst (λ a. Leaves a (front ++ (p ∷ back)) t') pa l))
          v.housing in
    elim (Scheme-cases m.scheme) [
      | inl is_fixed ↦ (
        record m { processes = set m.processes pid none; table = front ++ (release p ∷ back) },
        ap (λ s. join_freed s emptied_memory q.partition (update q.partition release m.table))
              is_fixed
            ∙ ap (λ t. join_freed fixed emptied_memory q.partition t) freed,
        record {
          layout = released-Layout front p back total m.next_address laid;
          separated = λ k. absurd (ground (arith, is_fixed, k));
          housing = emptied _ (released-Leaves front p back laid.distinct);
        },
        refl,
      )
      | inr is_dynamic ↦
          let (t', joined, shape) =
            verify_and_join-Joined q.partition front (release p) back clear pa in
          (
            record m { processes = set m.processes pid none; table = t' },
            ap (λ s. join_freed s emptied_memory q.partition (update q.partition release m.table))
                  is_dynamic
                ∙ ap (λ t. join_freed dynamic emptied_memory q.partition t) freed
                ∙ ap (joined_table emptied_memory) joined,
            record {
              layout = Joined-Layout shape (released-Layout front p back total m.next_address laid);
              separated = λ k. Joined-Separated p shape (subst (Separated true) te (v.separated k));
              housing = emptied t' (Joined-Leaves p laid.distinct shape);
            },
            refl,
          )
    ]
  where
    emptied_memory : Memory
    emptied_memory = record m { processes = set m.processes pid none }

-- What is left of the request once the partition was given up.
destroy_joined :
    (total status pid : ℕ) (m : Memory) (q : MemoryProcess)
    → lookup_process pid m.processes ≡ some q
    → Valid total m
    → (m' : Memory) × (process_destroy status pid m
        ≡ memory_process_destroy status m' (array_memory_threads_destroy q.threads))
      × Valid total m'
      × (m'.processes ≡ set m.processes pid none)
destroy_joined total status pid m q present v =
    let home = v.housing.housed pid q present in
    let (front, back, te, pa, occupied) = tenant_split q.partition m.table home.home home.lives in
    let (m', answer, valid, rest) =
      join_freed-Valid total pid m q front back home.home present te pa v in
    (m', destroy_present status pid m q present ∙ ap (free_process status q) answer, valid, rest)

-- No entry of an array of threads was left unwritten.
abbrev pub Written : List Slot → Type 0
Written [] = Unit {0}
Written (null ∷ slots) = Written slots
Written (uninit ∷ slots) = ⊥
Written (live _ ∷ slots) = Written slots

threads_destroyed :
    (slots : List Slot) → Written slots → array_memory_threads_destroy slots ≡ some tt
unfolding array_memory_threads_destroy
threads_destroyed [] w = refl
threads_destroyed (null ∷ slots) w = threads_destroyed slots w
threads_destroyed (uninit ∷ slots) w = absurd w
threads_destroyed (live _ ∷ slots) w = threads_destroyed slots w

-- In a valid state PROCESS_DESTROY, for any pid, is answered and does not run into undefined
-- behaviour, when no entry of the threads of that process was left unwritten and
-- pthread_rwlock_destroy succeeds; the state after it is valid and has no process at that pid.
pub process_destroy-Valid :
    (total pid : ℕ) (m : Memory)
    → Valid total m
    → ((q : MemoryProcess) → lookup_process pid m.processes ≡ some q → Written q.threads)
    → (x : Reply) × (m' : Memory) × (process_destroy 0 pid m ≡ replies x m')
      × Valid total m'
      × (lookup_process pid m'.processes ≡ none)
process_destroy-Valid total pid m v written = elim (Option-cases (lookup_process pid m.processes)) [
  | inl absent ↦ (failure, m, destroy_absent 0 pid m absent, v, absent)
  | inr (q, present) ↦
      let (m', answer, valid, rest) = destroy_joined total 0 pid m q present v in
      (
        success,
        m',
        answer ∙ ap (memory_process_destroy 0 m') (threads_destroyed q.threads (written q present)),
        valid,
        ap (lookup_process pid) rest ∙ lookup_process-here m.processes pid pid none q present refl,
      )
]

-- Whatever the entries of the threads are and pthread_rwlock_destroy gives.
pub process_destroy-After :
    (P : Memory → Type 0) (total status pid : ℕ) (m : Memory)
    → Valid total m
    → P m
    → ((m' : Memory) → Valid total m' → length m'.processes ≡ length m.processes → P m')
    → After P (process_destroy status pid m)
process_destroy-After P total status pid m v p h =
    elim (Option-cases (lookup_process pid m.processes)) [
      | inl absent ↦ subst (After P) (sym (destroy_absent status pid m absent)) p
      | inr (q, present) ↦
          let (m', answer, valid, rest) = destroy_joined total status pid m q present v in
          subst (After P) (sym answer) (
            ended m' (array_memory_threads_destroy q.threads)
              (h m' valid (ap length rest ∙ length-set m.processes pid none)))
    ]
  where
    ended :
        (m' : Memory) (o : Option (Unit {0})) → P m' → After P (memory_process_destroy status m' o)
    ended m' none k = tt
    ended m' (some t) k = elim (Bool-cases (status == 0)) [ inl e ↦ rw e k | inr e ↦ rw e k ]
