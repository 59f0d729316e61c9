-- ===== src/Memory/Boot.antt =====
-- The partition table that read_module_config of src/memoria/src/memoria.c makes, and the start of
-- module(), which zeroes the memory.
use so_tp_2024_2c_the_last_o.Prelude.{
  ℕ, zero, suc, ◌+◌, ◌%◌, ◌^◌, Bool, true, false, ◌||◌, not, Option, none, some, List, [], ◌∷◌,
  ◌==◌, if◌then◌else◌, length,
}
use so_tp_2024_2c_the_last_o.Memory.Types.{Scheme, fixed, dynamic, Algorithm, Partition, Memory}

abbrev pub partition_create : ℕ → ℕ → ℕ → Partition
partition_create address size base = record {
  address = address;
  size = size;
  base = base;
  occupied = false;
  pid = 0;
}

abbrev is_empty : List ℕ → Bool
is_empty [] = true
is_empty (c ∷ cs) = false

-- `strtoul` gives the value and what is left of the text. A partition has a size above 0.
abbrev pub partition_size : (List ℕ → ℕ × List ℕ) → List ℕ → Option ℕ
partition_size strtoul text =
    let (size, rest) = strtoul text in
    if is_empty text || not (is_empty rest) || (size == 0) then none else some size

-- The loop over the entries of PARTICIONES; `base` is a size_t.
unfoldable pub fixed_partitions :
    (List ℕ → ℕ × List ℕ) → List (List ℕ) → ℕ → ℕ → Option (List Partition)
fixed_partitions strtoul [] address base = some []
fixed_partitions strtoul (text ∷ texts) address base = elim (partition_size strtoul text) [
  | none ↦ none
  | some size ↦ elim (fixed_partitions strtoul texts (suc address) ((base + size) % 2 ^ 64)) [
    | none ↦ none
    | some table ↦ some (partition_create address size base ∷ table)
  ]
]

-- What the sizes in PARTICIONES add up to.
abbrev pub total_size : (List ℕ → ℕ × List ℕ) → List (List ℕ) → ℕ
total_size strtoul [] = 0
total_size strtoul (text ∷ texts) = (strtoul text).0 + total_size strtoul texts

abbrev pub nonempty : Option (List Partition) → Option (List Partition)
nonempty none = none
nonempty (some []) = none
nonempty (some (p ∷ ps)) = some (p ∷ ps)

unfoldable pub initial_table :
    (List ℕ → ℕ × List ℕ) → Scheme → List (List ℕ) → ℕ → Option (List Partition)
initial_table strtoul fixed texts memory_size = nonempty (fixed_partitions strtoul texts 0 0)
initial_table strtoul dynamic texts memory_size = some (partition_create 0 memory_size 0 ∷ [])

unfoldable pub zeros : ℕ → List ℕ
zeros zero = []
zeros (suc n) = 0 ∷ zeros n

-- The state when the server starts to take clients.
abbrev pub started : Scheme → Algorithm → ℕ → List Partition → Memory
started scheme algorithm memory_size table = record {
  scheme = scheme;
  algorithm = algorithm;
  table = table;
  next_address = length table;
  processes = [];
  main_memory = zeros memory_size;
}

unfoldable pub module_start :
    (List ℕ → ℕ × List ℕ) → Scheme → Algorithm → List (List ℕ) → ℕ → Option Memory
unfolding initial_table
module_start strtoul scheme algorithm texts memory_size =
    elim (initial_table strtoul scheme texts memory_size) [
      | none ↦ none
      | some table ↦ some (started scheme algorithm memory_size table)
    ]
