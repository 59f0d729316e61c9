-- ===== src/Memory/Confined.antt =====
-- Writes to the user space stay in the partition of the process that writes.
use so_tp_2024_2c_the_last_o.Prelude.{
  ℕ, ◌+◌, ◌%◌, ◌^◌, ◌≤◌, ◌<◌, ◌≡◌, ◌≢◌, ◌⊎◌, inl, inr, sym, ap, ◌∙◌, some, List, arith, length,
  get_elem?, take, drop,
}
use so_tp_2024_2c_the_last_o.Prelude.Buffer.{
  write_at, length-write_at, get_elem?-write_at, read-write_at,
}
use so_tp_2024_2c_the_last_o.Payload.Defs.{ok}
use so_tp_2024_2c_the_last_o.Serialize.Context.{ExecContext}
use so_tp_2024_2c_the_last_o.Cpu.Mmu.{mmu, mmu_inside}
use so_tp_2024_2c_the_last_o.Memory.Types.{Partition, MemoryThread, MemoryProcess, Memory}
use so_tp_2024_2c_the_last_o.Memory.Partitions.{find}
use so_tp_2024_2c_the_last_o.Memory.Processes.{replies, success, lookup_process}
use so_tp_2024_2c_the_last_o.Memory.Tenants.{tenant}
use so_tp_2024_2c_the_last_o.Memory.Invariant.{Valid}
use so_tp_2024_2c_the_last_o.Memory.Disjoint.{Apart, tenant-within, tenants-Apart}
use so_tp_2024_2c_the_last_o.Memory.UserSpace.{
  found, access, context_of, seek_cpu_context, read_in, read_memory, write_in, write_memory,
}
use so_tp_2024_2c_the_last_o.Memory.Isolation.{
  access-lookup, Valid-find, seek_found, write_found, read_found,
}

-- The bytes of the partition of every process but the one at `pid` are the same in both states.
pub record OthersKept (pid : ℕ) (m m' : Memory) : Type 0 where
  pub kept :
      (j : ℕ) (r : MemoryProcess) (home : Partition) (i : ℕ)
      → lookup_process j m.processes ≡ some r
      → j ≢ pid
      → find r.partition m.table ≡ some home
      → home.base ≤ i
      → i < home.base + home.size
      → get_elem? m'.main_memory i ≡ get_elem? m.main_memory i

-- The context of a process whose partition ends below 2 ^ 32 is that of the partition.
translated :
    (home : Partition) (thread : MemoryThread) (start context : ExecContext) (m : Memory)
    (logical n physical : ℕ)
    → home.base + home.size < 2 ^ 32
    → replies (some (context_of thread home)) m ≡ replies (some start) m
    → context.base ≡ start.base
    → context.limit ≡ start.limit
    → mmu context logical n ≡ ok physical
    → (home.base ≤ physical) × (physical + n < home.base + home.size)
translated home thread start context m logical n physical small sent base limit e =
    let same : context_of thread home ≡ start = ground (arith, sent) in
    let b : home.base % 2 ^ 32 ≡ start.base = ap (λ k. k.base) same in
    let l : home.size % 2 ^ 32 ≡ start.limit = ap (λ k. k.limit) same in
    let (place, inside) = mmu_inside context logical n physical e in
    (omega (arith, place, b, base, small), omega (arith, inside, b, l, base, limit, small))

write_done :
    (a : ℕ) (bytes : List ℕ) (m : Memory) (home : Partition)
    → a + length bytes ≤ length m.main_memory
    → write_in a bytes m (some home)
      ≡ replies success (record m { main_memory = write_at m.main_memory a bytes })
write_done a bytes m home h = ground (arith, h)

read_done :
    (a n : ℕ) (m : Memory) (home : Partition)
    → a + n ≤ length m.main_memory
    → read_in a n m (some home) ≡ replies (some (take n (drop a m.main_memory))) m
read_done a n m home h = ground (arith, h)

others_kept :
    (total pid a : ℕ) (bytes : List ℕ) (m : Memory) (q : MemoryProcess) (home : Partition)
    → Valid total m
    → lookup_process pid m.processes ≡ some q
    → tenant q.partition m.table ≡ some home
    → home.base ≤ a
    → a + length bytes < home.base + home.size
    → OthersKept pid m (record m { main_memory = write_at m.main_memory a bytes })
others_kept total pid a bytes m q home v e t low high = record {
  kept = λ j r home' i f other at_home from below.
      let (house, lives, stands) = Valid-find total j m r v f in
      let same : house ≡ home' = ground (arith, sym stands ∙ at_home) in
      let b : house.base ≡ home'.base = ap (λ k. k.base) same in
      let s : house.size ≡ home'.size = ap (λ k. k.size) same in
      let apart : Apart home house =
        tenants-Apart q.partition r.partition m.table 0 total home house
          (λ k. other (sym (v.housing.exclusive pid j q r e f k))) v.layout.tiled t lives in
      get_elem?-write_at m.main_memory a bytes i (outside i house home' apart b s from below);
}
  where
    outside :
        (i : ℕ) (house home' : Partition)
        → Apart home house
        → house.base ≡ home'.base
        → house.size ≡ home'.size
        → home'.base ≤ i
        → i < home'.base + home'.size
        → (i < a) ⊎ (a + length bytes ≤ i)
    outside i house home' (inl before) b s from below =
        inr (omega (arith, before, b, s, from, low, high))
    outside i house home' (inr behind) b s from below =
        inl (omega (arith, behind, b, s, below, low, high))

-- In a valid state of a memory below 2 ^ 32 bytes that holds the partitions, a write at an address
-- that the mmu translated, under the base and the limit that the memory module sent for a live
-- thread, ends inside the memory and succeeds; a read of the same bytes gives them back; and no
-- byte of the partition of another process changes.
pub write_memory-confined :
    (total pid tid logical physical : ℕ) (bytes : List ℕ) (m : Memory) (q : MemoryProcess)
    (thread : MemoryThread) (start context : ExecContext)
    → Valid total m
    → total ≤ length m.main_memory
    → total < 2 ^ 32
    → access pid tid m ≡ found q thread
    → seek_cpu_context pid tid m ≡ replies (some start) m
    → context.base ≡ start.base
    → context.limit ≡ start.limit
    → mmu context logical (length bytes) ≡ ok physical
    → (m' : Memory) × (physical + length bytes ≤ total)
      × (write_memory pid tid physical bytes m ≡ replies success m')
      × (read_memory pid tid physical (length bytes) m' ≡ replies (some bytes) m')
      × OthersKept pid m m'
unfolding access
write_memory-confined total pid tid logical physical bytes m q thread start context v fits small e
      sent base limit translate =
    let mine = access-lookup pid tid m q thread e in
    let (home, lives, stands) = Valid-find total pid m q v mine in
    let (from, to) = tenant-within q.partition m.table 0 total home v.layout.tiled lives in
    let (low, high) =
      translated home thread start context m logical (length bytes) physical
        (omega (arith, to, small)) (sym (seek_found pid tid m q thread home e stands) ∙ sent) base
        limit translate in
    let room : physical + length bytes ≤ length m.main_memory = omega (arith, to, fits, high) in
    let m' : Memory = record m { main_memory = write_at m.main_memory physical bytes } in
    let room' : physical + length bytes ≤ length m'.main_memory =
      omega (arith, room, length-write_at m.main_memory physical bytes) in
    (
      m',
      omega (arith, to, high),
      write_found pid tid physical bytes m q thread home e stands
          ∙ write_done physical bytes m home room,
      read_found pid tid physical (length bytes) m' q thread home e stands
          ∙ read_done physical (length bytes) m' home room'
          ∙ ap (λ k. replies (some k) m') (read-write_at m.main_memory physical bytes room),
      others_kept total pid physical bytes m q home v mine lives low high,
    )
