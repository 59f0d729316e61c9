-- ===== src/Memory/Isolation.antt =====
-- What a process writes through the CPU's mmu lands in its own partition.
use mathlib.Core.Path.{subst}
use so_tp_2024_2c_the_last_o.Prelude.{
  ℕ, ◌≡◌, ap, ◌∙◌, Option, none, some, List, [], ◌∷◌, ◌++◌, arith,
}
use so_tp_2024_2c_the_last_o.Memory.Types.{
  Partition, MemoryThread, Slot, null, uninit, live, MemoryProcess, Memory,
}
use so_tp_2024_2c_the_last_o.Memory.Partitions.{find}
use so_tp_2024_2c_the_last_o.Memory.Processes.{replies, lookup_process, lookup_slot}
use so_tp_2024_2c_the_last_o.Memory.Shapes.{NotAt, Distinct, Distinct-front}
use so_tp_2024_2c_the_last_o.Memory.Tenants.{tenant, tenant_split}
use so_tp_2024_2c_the_last_o.Memory.Invariant.{Valid}
use so_tp_2024_2c_the_last_o.Memory.UserSpace.{
  found, access, access_process, access_slot, context_of, seek_in, seek_cpu_context, read_in,
  read_memory, write_in, write_memory,
}

find-front :
    (a : ℕ) (front : List Partition) (p : Partition) (back : List Partition)
    → NotAt a front
    → p.address ≡ a
    → find a (front ++ (p ∷ back)) ≡ some p
unfolding find
find-front a [] p back n e = ground (arith, e)
find-front a (x ∷ front) p back n e = ground (arith, n.0, find-front a front p back n.1 e)

pub access-lookup :
    (pid tid : ℕ) (m : Memory) (q : MemoryProcess) (thread : MemoryThread)
    → access pid tid m ≡ found q thread
    → lookup_process pid m.processes ≡ some q
unfolding access
access-lookup pid tid m q thread e = by_process (lookup_process pid m.processes) e
  where
    by_slot :
        (process : MemoryProcess) (slot : Option Slot)
        → access_slot process slot ≡ found q thread
        → some process ≡ some q
    by_slot process none e = absurd (ground (arith, e))
    by_slot process (some null) e = absurd (ground (arith, e))
    by_slot process (some uninit) e = absurd (ground (arith, e))
    by_slot process (some (live t)) e = ground (arith, e)

    by_process : (o : Option MemoryProcess) → access_process tid o ≡ found q thread → o ≡ some q
    by_process none e = absurd (ground (arith, e))
    by_process (some process) e = by_slot process (lookup_slot tid process.threads) e

-- The partition of a process stands in the table.
pub Valid-find :
    (total pid : ℕ) (m : Memory) (q : MemoryProcess)
    → Valid total m
    → lookup_process pid m.processes ≡ some q
    → (home : Partition) × (tenant q.partition m.table ≡ some home)
      × (find q.partition m.table ≡ some home)
Valid-find total pid m q v e =
    let h = v.housing.housed pid q e in
    let (front, back, te, pa, full) = tenant_split q.partition m.table h.home h.lives in
    let clear =
      subst (λ a. NotAt a front) pa
        (Distinct-front front h.home back (subst Distinct te v.layout.distinct)) in
    (h.home, h.lives, ap (find q.partition) te ∙ find-front q.partition front h.home back clear pa)

-- The handlers for a thread that is there.
pub seek_found :
    (pid tid : ℕ) (m : Memory) (q : MemoryProcess) (thread : MemoryThread) (home : Partition)
    → access pid tid m ≡ found q thread
    → find q.partition m.table ≡ some home
    → seek_cpu_context pid tid m ≡ replies (some (context_of thread home)) m
unfolding seek_cpu_context
seek_found pid tid m q thread home e f = rw (e, seek_cpu_context) (ap (seek_in m thread) f)

pub write_found :
    (pid tid a : ℕ) (bytes : List ℕ) (m : Memory) (q : MemoryProcess) (thread : MemoryThread)
    (home : Partition)
    → access pid tid m ≡ found q thread
    → find q.partition m.table ≡ some home
    → write_memory pid tid a bytes m ≡ write_in a bytes m (some home)
unfolding write_memory
write_found pid tid a bytes m q thread home e f = rw (e, write_memory) (ap (write_in a bytes m) f)

pub read_found :
    (pid tid a bytes : ℕ) (m : Memory) (q : MemoryProcess) (thread : MemoryThread)
    (home : Partition)
    → access pid tid m ≡ found q thread
    → find q.partition m.table ≡ some home
    → read_memory pid tid a bytes m ≡ read_in a bytes m (some home)
unfolding read_memory
read_found pid tid a bytes m q thread home e f = rw (e, read_memory) (ap (read_in a bytes m) f)
