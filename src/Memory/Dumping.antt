-- ===== src/Memory/Dumping.antt =====
-- The request of the kernel to dump a process: attend_dump_memory of
-- src/memoria/src/client_kernel.c, on the fields of its payload. The pid and the tid in base 10
-- with their dashes and the time of the day come from string_from_format and
-- temporal_get_string_time, which give NULL or a text; `exchange` is what comes back from the file
-- system for a name and the bytes, or nothing where one of the two messages fails.
use so_tp_2024_2c_the_last_o.Prelude.{
  ℕ, ◌+◌, ◌≤◌, ◌≡◌, sym, ap, ◌∙◌, Option, none, some, List, [], ◌∷◌, ◌++◌, arith, leb,
  if◌then◌else◌, length, length-take, length-drop, take, drop,
}
use so_tp_2024_2c_the_last_o.Prelude.Int.{ℤ, negsuc}
use so_tp_2024_2c_the_last_o.Memory.Types.{Partition, MemoryThread, MemoryProcess, Memory}
use so_tp_2024_2c_the_last_o.Memory.Partitions.{find}
use so_tp_2024_2c_the_last_o.Memory.Processes.{Outcome, replies, thread_ends, undefined}
use so_tp_2024_2c_the_last_o.Memory.UserSpace.{Access, no_process, no_thread, wild, found, access}
use so_tp_2024_2c_the_last_o.Memory.Invariant.{Valid}
use so_tp_2024_2c_the_last_o.Memory.Disjoint.{tenant-within}
use so_tp_2024_2c_the_last_o.Memory.Isolation.{access-lookup, Valid-find}

abbrev pub Exchange : Type 0
Exchange = List ℕ → List ℕ → Option ℤ

-- ".dmp"
abbrev dmp_suffix : List ℕ
dmp_suffix = 46 ∷ (100 ∷ (109 ∷ (112 ∷ [])))

abbrev pub dump_name : List ℕ → List ℕ → List ℕ
dump_name ids time = (ids ++ time) ++ dmp_suffix

-- The `result` of the file system is passed on to the kernel.
abbrev pub passed_on : Memory → Option ℤ → Outcome ℤ
passed_on m none = thread_ends m
passed_on m (some result) = replies result m

-- The bytes of the process, from the base of its partition on.
abbrev pub bytes_in : Memory → MemoryProcess → Option Partition → List ℕ
bytes_in m process none = []
bytes_in m process (some p) = take process.size (drop p.base m.main_memory)

abbrev pub process_bytes : Memory → MemoryProcess → List ℕ
process_bytes m process = bytes_in m process (find process.partition m.table)

abbrev dump_in : Exchange → List ℕ → Memory → MemoryProcess → Option Partition → Outcome ℤ
dump_in exchange filename m process none = undefined
dump_in exchange filename m process (some p) =
    if leb (p.base + process.size) (length m.main_memory)
    then passed_on m (exchange filename (bytes_in m process (some p)))
    else undefined

abbrev dump_access : Exchange → List ℕ → Memory → Access → Outcome ℤ
dump_access exchange filename m no_process = replies (negsuc 0) m
dump_access exchange filename m no_thread = replies (negsuc 0) m
dump_access exchange filename m wild = undefined
dump_access exchange filename m (found process thread) =
    dump_in exchange filename m process (find process.partition m.table)

unfoldable pub attend_dump_memory :
    Option (List ℕ) → Option (List ℕ) → Exchange → ℕ → ℕ → Memory → Outcome ℤ
attend_dump_memory none time exchange pid tid m = thread_ends m
attend_dump_memory (some ids) none exchange pid tid m = thread_ends m
attend_dump_memory (some ids) (some time) exchange pid tid m =
    dump_access exchange (dump_name ids time) m (access pid tid m)

inside :
    (exchange : Exchange) (filename : List ℕ) (m : Memory) (q : MemoryProcess) (home : Partition)
    → home.base + q.size ≤ length m.main_memory
    → dump_in exchange filename m q (some home)
      ≡ passed_on m (exchange filename (bytes_in m q (some home)))
inside exchange filename m q home h = ground (arith, h)

pub attend_dump_memory-asks :
    (total pid tid : ℕ) (ids time : List ℕ) (exchange : Exchange) (m : Memory) (q : MemoryProcess)
    (thread : MemoryThread)
    → Valid total m
    → total ≤ length m.main_memory
    → access pid tid m ≡ found q thread
    → (attend_dump_memory (some ids) (some time) exchange pid tid m
        ≡ passed_on m (exchange (dump_name ids time) (process_bytes m q)))
      × (length (process_bytes m q) ≡ q.size)
unfolding attend_dump_memory
attend_dump_memory-asks total pid tid ids time exchange m q thread v fits e =
    let name = dump_name ids time in
    let mine = access-lookup pid tid m q thread e in
    let (home, lives, stands) = Valid-find total pid m q v mine in
    let (from, to) = tenant-within q.partition m.table 0 total home v.layout.tiled lives in
    let house = v.housing.housed pid q mine in
    let same : house.home ≡ home = ground (arith, sym house.lives ∙ lives) in
    let s : house.home.size ≡ home.size = ap (λ k. k.size) same in
    let room : home.base + q.size ≤ length m.main_memory = omega (arith, to, fits, house.room, s) in
    (
      ap (dump_access exchange name m) e
          ∙ ap (dump_in exchange name m q) stands
          ∙ inside exchange name m q home room
          ∙ ap (λ p. passed_on m (exchange name (bytes_in m q p))) (sym stands),
      ap (λ p. length (bytes_in m q p)) stands
          ∙ omega (
            arith,
            length-take q.size (drop home.base m.main_memory),
            length-drop home.base m.main_memory,
            room,
          ),
    )
