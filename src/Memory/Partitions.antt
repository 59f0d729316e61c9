-- ===== src/Memory/Partitions.antt =====
-- allocate_partition, split_partition and verify_and_join_splited_partitions of
-- src/memoria/src/client_kernel.c, on PARTITION_TABLE.
use so_tp_2024_2c_the_last_o.Prelude.{
  ℕ, zero, suc, ◌+◌, ◌-◌, Bool, true, false, ◌&&◌, not, Option, none, some, List, [], ◌∷◌, ltb, leb,
  ◌==◌, if◌then◌else◌, length, get_elem?, set,
}
use so_tp_2024_2c_the_last_o.Memory.Types.{
  Scheme, fixed, dynamic, Algorithm, first_fit, best_fit, worst_fit, Partition,
}

-- list_add_in_index and list_remove of the commons library, at an index in range.
unfoldable pub insert_at {ℓ} : {A : Type ℓ} → List A → ℕ → A → List A
insert_at xs zero v = v ∷ xs
insert_at [] (suc i) v = v ∷ []
insert_at (x ∷ xs) (suc i) v = x ∷ insert_at xs i v

unfoldable pub remove_at {ℓ} : {A : Type ℓ} → List A → ℕ → List A
remove_at [] i = []
remove_at (x ∷ xs) zero = xs
remove_at (x ∷ xs) (suc i) = x ∷ remove_at xs i

-- The partition behind a pointer, and a write to it.
unfoldable pub find : ℕ → List Partition → Option Partition
find a [] = none
find a (p ∷ ps) = if p.address == a then some p else find a ps

unfoldable pub update : ℕ → (Partition → Partition) → List Partition → List Partition
update a f [] = []
update a f (p ∷ ps) = if p.address == a then f p ∷ ps else p ∷ update a f ps

-- A free partition of at least the required size.
abbrev pub fits : ℕ → Partition → Bool
fits required p = not p.occupied && leb required p.size

-- The loops over the table from index `i` on, with the candidate found so far.
unfoldable pub first_fit_loop : List Partition → ℕ → ℕ → Option (ℕ × Partition)
first_fit_loop [] i required = none
first_fit_loop (p ∷ ps) i required =
    let rest = first_fit_loop ps (i + 1) required in if fits required p then some (i, p) else rest

abbrev pub better : (ℕ → ℕ → Bool) → Option (ℕ × Partition) → ℕ → Partition → Option (ℕ × Partition)
better wins none i p = some (i, p)
better wins (some (j, q)) i p = if wins p.size q.size then some (i, p) else some (j, q)

unfoldable pub fit_loop :
    (ℕ → ℕ → Bool) → List Partition → ℕ → ℕ → Option (ℕ × Partition) → Option (ℕ × Partition)
fit_loop wins [] i required candidate = candidate
fit_loop wins (p ∷ ps) i required candidate =
    fit_loop wins ps (i + 1) required
      (if fits required p then better wins candidate i p else candidate)

-- Best fit changes its candidate for a smaller partition, worst fit for a larger one.
unfoldable pub search : Algorithm → List Partition → ℕ → Option (ℕ × Partition)
search first_fit table required = first_fit_loop table 0 required
search best_fit table required = fit_loop ltb table 0 required none
search worst_fit table required = fit_loop (λ a b. ltb b a) table 0 required none

-- The table after the split, with the new partition at `new_address`, and whether it was created.
unfoldable pub split_partition : ℕ → ℕ → ℕ → List Partition → List Partition × Bool
split_partition new_address index required table = elim (get_elem? table index) [
  | none ↦ (table, false)
  | some old ↦
      if old.size == required
      then (table, false)
      else (let new : Partition = record {
        address = new_address;
        size = old.size - required;
        base = old.base + required;
        occupied = false;
        pid = 0;
      } in
          (insert_at (set table index (record old { size = required })) (index + 1) new, true))
]

abbrev after_split : ℕ → List Partition × Bool → List Partition × ℕ
after_split new_address (table, true) = (table, suc new_address)
after_split new_address (table, false) = (table, new_address)

-- The second half of allocate_partition, on what the search found: the pointer to the partition, the
-- table, which the dynamic scheme splits, and the next free address.
unfoldable pub allocate_found :
    Scheme → ℕ → List Partition → ℕ → Option (ℕ × Partition) → Option ℕ × List Partition × ℕ
unfolding split_partition
allocate_found scheme new_address table required none = (none, table, new_address)
allocate_found fixed new_address table required (some (index, p)) =
    (some p.address, table, new_address)
allocate_found dynamic new_address table required (some (index, p)) =
    let (table', next) =
      after_split new_address (split_partition new_address index required table) in
    (some p.address, table', next)

unfoldable pub allocate_partition :
    Scheme → Algorithm → ℕ → List Partition → ℕ → Option ℕ × List Partition × ℕ
unfolding search allocate_found
allocate_partition scheme algorithm new_address table required =
    allocate_found scheme new_address table required (search algorithm table required)

-- The loop that looks for the partition's place; `none` is where it would run off the list.
unfoldable pub index_of : ℕ → List Partition → Option ℕ
index_of a [] = none
index_of a (p ∷ ps) =
    let rest = index_of a ps in
    if p.address == a then some 0 else elim rest [ none ↦ none | some i ↦ some (suc i) ]

-- The partition at `i` takes in the one at `j`, if that is free, and `gone` is taken off the list.
unfoldable absorb : List Partition → ℕ → Option Partition → Option Partition → ℕ → List Partition
absorb table into (some p) (some q) gone =
    remove_at (set table into (record p { size = p.size + q.size })) gone
absorb table into p q gone = table

abbrev is_free : Option Partition → Bool
is_free none = false
is_free (some p) = not p.occupied

unfoldable pub join_right : ℕ → List Partition → List Partition
unfolding absorb
join_right i table =
    if is_free (get_elem? table (i + 1))
    then absorb table i (get_elem? table i) (get_elem? table (i + 1)) (i + 1)
    else table

unfoldable pub join_left : ℕ → List Partition → List Partition
unfolding absorb
join_left i table =
    if is_free (get_elem? table (i - 1))
    then absorb table (i - 1) (get_elem? table (i - 1)) (get_elem? table i) i
    else table

unfoldable pub join_at : ℕ → List Partition → List Partition
join_at i table =
    let last = i == length table - 1 in
    if not (i == 0) && not last
    then join_left i (join_right i table)
    else if (i == 0) && not last
    then join_right i table
    else if not (i == 0) && last
    then join_left i table
    else table

unfoldable pub verify_and_join_splited_partitions : ℕ → List Partition → Option (List Partition)
unfolding index_of
verify_and_join_splited_partitions a table = elim (index_of a table) [
  | none ↦ none
  | some i ↦ some (join_at i table)
]
