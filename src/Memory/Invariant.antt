-- ===== src/Memory/Invariant.antt =====
-- The invariant of the memory module: the state that ties PARTITION_TABLE to
-- ARRAY_PROCESS_MEMORY.
use mathlib.Core.Path.{subst}
use so_tp_2024_2c_the_last_o.Prelude.{
  ℕ, ◌+◌, ◌^◌, ◌<◌, ◌≤◌, ◌≡◌, ◌≢◌, sym, ap, ◌∙◌, ◌⊎◌, inl, inr, Option, none, some, List, [], ◌∷◌,
  ◌++◌, arith, length, ◌==◌, true, Bool-cases,
}
use so_tp_2024_2c_the_last_o.Memory.Types.{dynamic, Partition, MemoryProcess, Memory}
use so_tp_2024_2c_the_last_o.Memory.Processes.{
  Outcome, replies, thread_ends, undefined, lookup_process, memory_process_create,
}
use so_tp_2024_2c_the_last_o.Memory.Layout.{Layout}
use so_tp_2024_2c_the_last_o.Memory.Separation.{Separated}
use so_tp_2024_2c_the_last_o.Memory.Tenants.{tenant, Settles}
use so_tp_2024_2c_the_last_o.Memory.Registry.{
  lookup_process-add, lookup_process-old, lookup_process-new,
}

-- A process has an occupied partition of its own pid, which holds it.
pub record Housed (t : List Partition) (q : MemoryProcess) : Type 0 where
  pub home : Partition
  pub lives : tenant q.partition t ≡ some home
  pub owner : home.pid ≡ q.pid
  pub room : q.size ≤ home.size

-- A live process that has the partition at an address.
pub record HasOwner (ps : List (Option MemoryProcess)) (a : ℕ) : Type 0 where
  pub index : ℕ
  pub process : MemoryProcess
  pub alive : lookup_process index ps ≡ some process
  pub owns : process.partition ≡ a

-- The processes and the partitions belong together: each process is housed, no two share a
-- partition, and no partition is occupied without a process.
pub record Housing (t : List Partition) (ps : List (Option MemoryProcess)) : Type 0 where
  pub housed : (i : ℕ) (q : MemoryProcess) → lookup_process i ps ≡ some q → Housed t q
  pub exclusive :
      (i j : ℕ) (q r : MemoryProcess)
      → lookup_process i ps ≡ some q
      → lookup_process j ps ≡ some r
      → q.partition ≡ r.partition
      → i ≡ j
  pub no_leak : (a : ℕ) (p : Partition) → tenant a t ≡ some p → HasOwner ps a

-- The state between two requests, for a memory of `total` bytes.
pub record Valid (total : ℕ) (m : Memory) : Type 0 where
  pub layout : Layout total m.next_address m.table
  pub separated : m.scheme ≡ dynamic → Separated true m.table
  pub housing : Housing m.table m.processes

-- A valid state with room for `n` more entries of ARRAY_PROCESS_MEMORY.
abbrev pub Roomy : ℕ → ℕ → Memory → Type 0
Roomy total n m = Valid total m × (length m.processes + n < 2 ^ 16)

-- What holds after a request that did not run into undefined behaviour.
abbrev pub After : {A : Type 0} → (Memory → Type 0) → Outcome A → Type 0
After P (replies x m) = P m
After P (thread_ends m) = P m
After P undefined = Unit {0}

pub same_or_other : (a b : ℕ) → (a ≡ b) ⊎ (a ≢ b)
same_or_other a b = elim (Bool-cases (a == b)) [
  | inl e ↦ inl (ground (arith, e))
  | inr e ↦ inr (λ same. absurd (ground (arith, e, same)))
]

pub stays-Housed :
    (t t' : List Partition) (q : MemoryProcess)
    → tenant q.partition t' ≡ tenant q.partition t
    → Housed t q
    → Housed t' q
stays-Housed t t' q e h = record {
  home = h.home;
  lives = e ∙ h.lives;
  owner = h.owner;
  room = h.room;
}

not_free :
    (a b : ℕ) (t : List Partition) (p : Partition) → tenant a t ≡ none → tenant b t ≡ some p → a ≢ b
not_free a b t p e h same = absurd (ground (arith, sym e ∙ ap (λ k. tenant k t) same ∙ h))

-- A new process moves into a partition that was free.
pub Settles-Housing :
    (pid size a : ℕ) (t t' : List Partition) (ps : List (Option MemoryProcess))
    → Settles pid size a t t'
    → Housing t ps
    → Housing t' (ps ++ (some (memory_process_create pid size a) ∷ []))
Settles-Housing pid size a t t' ps s h = record {
  housed = λ i q e. elim (lookup_process-add ps new q i e) [
    | inl old ↦ kept q (h.housed i q old)
    | inr (at_end, same) ↦
        subst (Housed t') same
          (record { home = s.tenant'; lives = s.here; owner = s.owner; room = s.room })
  ];
  exclusive = λ i j q r e f same. elim (lookup_process-add ps new q i e) [
    | inl old ↦ elim (lookup_process-add ps new r j f) [
      | inl old' ↦ h.exclusive i j q r old old' same
      | inr (at_end, isnew) ↦
          absurd (apart q (h.housed i q old) (sym (same ∙ ap (λ k. k.partition) (sym isnew))))
    ]
    | inr (at_end, isnew) ↦ elim (lookup_process-add ps new r j f) [
      | inl old' ↦ absurd (apart r (h.housed j r old') (ap (λ k. k.partition) isnew ∙ same))
      | inr (at_end', isnew') ↦ at_end ∙ sym at_end'
    ]
  ];
  no_leak = λ b p e. elim (same_or_other a b) [
    | inl same ↦ record {
      index = length ps;
      process = new;
      alive = lookup_process-new ps new;
      owns = same;
    }
    | inr other ↦
        let o = h.no_leak b p (sym (s.others b other) ∙ e) in
        record {
          index = o.index;
          process = o.process;
          alive = lookup_process-old ps new o.process o.index o.alive;
          owns = o.owns;
        }
  ];
}
  where
    new : MemoryProcess
    new = memory_process_create pid size a

    apart : (q : MemoryProcess) → Housed t q → a ≢ q.partition
    apart q k = not_free a q.partition t k.home s.before k.lives

    kept : (q : MemoryProcess) → Housed t q → Housed t' q
    kept q k = stays-Housed t t' q (s.others q.partition (apart q k)) k
