-- ===== src/Memory/Start.antt =====
-- The state in which the memory module starts.
use mathlib.Core.Path.{subst}
use so_tp_2024_2c_the_last_o.Prelude.{
  ℕ, suc, ◌+◌, ◌%◌, ◌^◌, ap, ◌<◌, ◌≡◌, inl, inr, refl, sym, ◌∙◌, true, false, Option, none, some,
  List, [], ◌∷◌, arith, length, Option-cases,
}
use so_tp_2024_2c_the_last_o.Memory.Types.{Scheme, fixed, dynamic, Algorithm, Partition, Memory}
use so_tp_2024_2c_the_last_o.Memory.Boot.{
  total_size, partition_create, partition_size, fixed_partitions, nonempty, initial_table, started,
  module_start,
}
use so_tp_2024_2c_the_last_o.Memory.Processes.{lookup_process}
use so_tp_2024_2c_the_last_o.Memory.Shapes.{NotAt, Distinct}
use so_tp_2024_2c_the_last_o.Memory.Layout.{Tiles, Below, Below-mono}
use so_tp_2024_2c_the_last_o.Memory.Separation.{Separated}
use so_tp_2024_2c_the_last_o.Memory.Tenants.{tenant}
use so_tp_2024_2c_the_last_o.Memory.Invariant.{Valid}

-- Where the addresses of a table lie, counted from `address`.
abbrev Counted : ℕ → List Partition → Type 0
Counted address [] = Unit {0}
Counted address (p ∷ ps) = (p.address ≡ address) × (p.occupied ≡ false) × Counted (suc address) ps

Counted-NotAt : (a address : ℕ) (t : List Partition) → a < address → Counted address t → NotAt a t
Counted-NotAt a address [] h c = tt
Counted-NotAt a address (p ∷ t) h c =
    ((λ e. absurd (omega (arith, c.0, e))), Counted-NotAt a (suc address) t (omega arith) c.2)

Counted-Distinct : (address : ℕ) (t : List Partition) → Counted address t → Distinct t
Counted-Distinct address [] c = tt
Counted-Distinct address (p ∷ t) c = (
  Counted-NotAt p.address (suc address) t (omega (arith, c.0)) c.2,
  Counted-Distinct (suc address) t c.2,
)

Counted-Below :
    (address : ℕ) (t : List Partition) → Counted address t → Below (address + length t) t
Counted-Below address [] c = tt
Counted-Below address (p ∷ t) c =
    (omega (arith, c.0), Below-mono t (omega arith) (Counted-Below (suc address) t c.2))

Counted-Below-all : (t : List Partition) → Counted 0 t → Below (length t) t
Counted-Below-all t c = Below-mono t (omega arith) (Counted-Below 0 t c)

lookup_process-nil : (i : ℕ) → lookup_process i [] ≡ none
unfolding lookup_process
lookup_process-nil i = refl

Counted-tenant : (a address : ℕ) (t : List Partition) → Counted address t → tenant a t ≡ none
unfolding tenant
Counted-tenant a address [] c = refl
Counted-tenant a address (p ∷ t) c = ground (arith, c.1, Counted-tenant a (suc address) t c.2)

fixed_partitions-cons :
    (strtoul : List ℕ → ℕ × List ℕ) (text : List ℕ) (texts : List (List ℕ)) (address base : ℕ)
    (found : Option ℕ)
    → partition_size strtoul text ≡ found
    → fixed_partitions strtoul (text ∷ texts) address base ≡ elim found [
      | none ↦ none
      | some size ↦ elim (fixed_partitions strtoul texts (suc address) ((base + size) % 2 ^ 64)) [
        | none ↦ none
        | some table ↦ some (partition_create address size base ∷ table)
      ]
    ]
unfolding fixed_partitions
fixed_partitions-cons strtoul text texts address base found e = rw (e, fixed_partitions)

prepend-cases :
    (p : Partition) (made : Option (List Partition)) (t : List Partition)
    → elim made [ none ↦ none | some table ↦ some (p ∷ table) ] ≡ some t
    → (table : List Partition) × (made ≡ some table) × (t ≡ p ∷ table)
prepend-cases p none t e = absurd (ground (arith, e))
prepend-cases p (some table) t e = (table, refl, ground (arith, e))

size_read :
    (strtoul : List ℕ → ℕ × List ℕ) (text : List ℕ) (size : ℕ)
    → partition_size strtoul text ≡ some size
    → (strtoul text).0 ≡ size
size_read strtoul text size e = ground (arith, e)

-- The partitions of the configuration stand one behind the other.
fixed_partitions-Tiles :
    (strtoul : List ℕ → ℕ × List ℕ) (texts : List (List ℕ)) (address base : ℕ) (t : List Partition)
    → base + total_size strtoul texts < 2 ^ 64
    → fixed_partitions strtoul texts address base ≡ some t
    → Counted address t × ((total : ℕ) × Tiles base t total)
unfolding fixed_partitions
fixed_partitions-Tiles strtoul [] address base t small e =
    let same : t ≡ [] = ground (arith, e) in rw same (tt, (base, refl))
fixed_partitions-Tiles strtoul (text ∷ texts) address base t small e =
    elim (Option-cases (partition_size strtoul text)) [
      | inl bad ↦
          let k = sym (fixed_partitions-cons strtoul text texts address base none bad) ∙ e in
          absurd (ground (arith, k))
      | inr (size, good) ↦
          let read = size_read strtoul text size good in
          let whole : (base + size) % 2 ^ 64 ≡ base + size = omega (arith, small, read) in
          let (table, made, same) =
            prepend-cases (partition_create address size base)
              (fixed_partitions strtoul texts (suc address) ((base + size) % 2 ^ 64)) t
              (sym (fixed_partitions-cons strtoul text texts address base (some size) good) ∙ e) in
          let (counted, (total, tiles)) =
            fixed_partitions-Tiles strtoul texts (suc address) (base + size) table
              (omega (arith, small, read))
              (ap (fixed_partitions strtoul texts (suc address)) (sym whole) ∙ made) in
          rw same ((refl, refl, counted), (total, (refl, tiles)))
    ]

initial-shape :
    (strtoul : List ℕ → ℕ × List ℕ) (scheme : Scheme) (texts : List (List ℕ)) (memory_size : ℕ)
    (t : List Partition)
    → (scheme ≡ fixed → total_size strtoul texts < 2 ^ 64)
    → initial_table strtoul scheme texts memory_size ≡ some t
    → Counted 0 t
      × ((total : ℕ) × Tiles 0 t total
          × (scheme ≡ dynamic → (total ≡ memory_size) × Separated true t))
unfolding initial_table
initial-shape strtoul fixed texts memory_size t small e =
    let full : fixed_partitions strtoul texts 0 0 ≡ some t =
      nonempty_same (fixed_partitions strtoul texts 0 0) t e in
    let (counted, (total, tiles)) =
      fixed_partitions-Tiles strtoul texts 0 0 t (omega (arith, small refl)) full in
    (counted, (total, tiles, λ k. absurd (ground (arith, k))))
  where
    nonempty_same :
        (o : Option (List Partition)) (t : List Partition) → nonempty o ≡ some t → o ≡ some t
    nonempty_same none t e = e
    nonempty_same (some []) t e = absurd (ground (arith, e))
    nonempty_same (some (p ∷ ps)) t e = e
initial-shape strtoul dynamic texts memory_size t small e =
    let same : t ≡ partition_create 0 memory_size 0 ∷ [] = ground (arith, e) in
    rw same ((refl, refl, tt), (memory_size, (refl, omega arith), λ k. (refl, (inl refl, tt))))

-- The server starts in a state that keeps the invariant. Under the dynamic scheme the partitions
-- cover the memory; under the fixed scheme they cover what the sizes in PARTICIONES add up to.
pub module_start-Valid :
    (strtoul : List ℕ → ℕ × List ℕ) (scheme : Scheme) (algorithm : Algorithm)
    (texts : List (List ℕ)) (memory_size : ℕ) (m : Memory)
    → (scheme ≡ fixed → total_size strtoul texts < 2 ^ 64)
    → module_start strtoul scheme algorithm texts memory_size ≡ some m
    → (total : ℕ) × Valid total m × (scheme ≡ dynamic → total ≡ memory_size) × (m.processes ≡ [])
unfolding module_start
module_start-Valid strtoul scheme algorithm texts memory_size m small e =
    let (t, made, same) = started_cases (initial_table strtoul scheme texts memory_size) e in
    let (counted, (total, tiles, whole)) =
      initial-shape strtoul scheme texts memory_size t small made in
    (
      total,
      subst (Valid total) (sym same) (valid t total counted tiles (λ k. (whole k).1)),
      (λ k. (whole k).0),
      ap (λ x. x.processes) same,
    )
  where
    started_cases :
        (made : Option (List Partition))
        → elim made [ none ↦ none | some table ↦ some (started scheme algorithm memory_size table) ]
          ≡ some m
        → (t : List Partition) × (made ≡ some t) × (m ≡ started scheme algorithm memory_size t)
    started_cases none e = absurd (ground (arith, e))
    started_cases (some t) e = (t, refl, ground (arith, e))

    valid :
        (t : List Partition) (total : ℕ)
        → Counted 0 t
        → Tiles 0 t total
        → (scheme ≡ dynamic → Separated true t)
        → Valid total (started scheme algorithm memory_size t)
    valid t total counted tiles separated = record {
      layout = record {
        tiled = tiles;
        distinct = Counted-Distinct 0 t counted;
        below = Counted-Below-all t counted;
      };
      separated = separated;
      housing = record {
        housed = λ i q k. absurd (ground (arith, k, lookup_process-nil i));
        exclusive = λ i j q r k l same. absurd (ground (arith, k, lookup_process-nil i));
        no_leak = λ a p k. absurd (ground (arith, k, Counted-tenant a 0 t counted));
      };
    }
