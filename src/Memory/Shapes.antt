-- ===== src/Memory/Shapes.antt =====
-- What placing a process and freeing a partition do to the table, seen around the partition.
use so_tp_2024_2c_the_last_o.Prelude.{
  ℕ, suc, ◌+◌, ◌-◌, ◌<◌, ◌≡◌, ◌≢◌, sym, ap, ◌∙◌, inl, inr, true, false, Option, none, some, List,
  [], ◌∷◌, ◌++◌, arith, ◌==◌, if◌then◌else◌, length, Bool-cases,
}
use mathlib.Core.Path.{subst}
use so_tp_2024_2c_the_last_o.Memory.Types.{Scheme, fixed, dynamic, Algorithm, Partition}
use so_tp_2024_2c_the_last_o.Memory.Partitions.{
  insert_at, update, search, split_partition, allocate_partition, allocate_found, index_of,
}
use so_tp_2024_2c_the_last_o.Memory.Processes.{occupy}
use so_tp_2024_2c_the_last_o.Memory.Places.{
  get_elem?-append, set-append, insert_at-append, split_at,
}
use so_tp_2024_2c_the_last_o.Memory.Search.{Suits, Finds, search-Finds}

-- No partition of the list is at the address.
abbrev pub NotAt : ℕ → List Partition → Type 0
NotAt a [] = Unit {0}
NotAt a (p ∷ ps) = (p.address ≢ a) × NotAt a ps

-- The addresses are those of different blocks.
abbrev pub Distinct : List Partition → Type 0
Distinct [] = Unit {0}
Distinct (p ∷ ps) = NotAt p.address ps × Distinct ps

pub Distinct-front :
    (front : List Partition) (p : Partition) (back : List Partition)
    → Distinct (front ++ (p ∷ back))
    → NotAt p.address front
Distinct-front [] p back d = tt
Distinct-front (q ∷ front) p back d =
    (λ e. other front d.0 (sym e), Distinct-front front p back d.1)
  where
    other : (front : List Partition) → NotAt q.address (front ++ (p ∷ back)) → p.address ≢ q.address
    other [] n = n.0
    other (x ∷ front) n = other front n.1

-- A write through the pointer changes the partition, and nothing before or behind it.
pub update-front :
    (a : ℕ) (f : Partition → Partition) (front : List Partition) (p : Partition)
    (back : List Partition)
    → NotAt a front
    → p.address ≡ a
    → update a f (front ++ (p ∷ back)) ≡ front ++ (f p ∷ back)
unfolding update
update-front a f [] p back n e = ground (arith, e)
update-front a f (q ∷ front) p back n e = ground (arith, update-front a f front p back n.1 e)

pub index_of-front :
    (a : ℕ) (front : List Partition) (p : Partition) (back : List Partition)
    → NotAt a front
    → p.address ≡ a
    → index_of a (front ++ (p ∷ back)) ≡ some (length front)
unfolding index_of
index_of-front a [] p back n e = ground arith
index_of-front a (q ∷ front) p back n e = ground (arith, index_of-front a front p back n.1 e)

-- The rest of a split.
abbrev pub remainder : ℕ → ℕ → Partition → Partition
remainder new required p = record {
  address = new;
  size = p.size - required;
  base = p.base + required;
  occupied = false;
  pid = 0;
}

-- The tables before and after a process was placed at `a`: it took over a whole partition, or the
-- front of one that was split.
pub data Placed (pid required new : ℕ) (t t' : List Partition) (next a : ℕ) : Type 0 where
  whole :
      (front back : List Partition) (p : Partition)
      → t ≡ front ++ (p ∷ back)
      → Suits required p
      → p.address ≡ a
      → next ≡ new
      → t' ≡ front ++ (occupy pid p ∷ back)
      → Placed pid required new t t' next a
  cut :
      (front back : List Partition) (p : Partition)
      → t ≡ front ++ (p ∷ back)
      → Suits required p
      → required < p.size
      → p.address ≡ a
      → next ≡ suc new
      → t'
        ≡ front ++ (occupy pid (record p { size = required }) ∷ (remainder new required p ∷ back))
      → Placed pid required new t t' next a

split_lem :
    (new required : ℕ) (front back : List Partition) (p : Partition)
    → split_partition new (length front) required (front ++ (p ∷ back)) ≡ (
        if p.size == required
        then (front ++ (p ∷ back), false)
        else (front ++ (record p { size = required } ∷ (remainder new required p ∷ back)), true))
unfolding split_partition insert_at
split_lem new required front back p =
    rw (get_elem?-append front (p ∷ back) (length front) 0 (omega arith), split_partition)
      (rw (
        set-append front (p ∷ back) (length front) 0 (record p { size = required }) (omega arith),
        insert_at-append front (record p { size = required } ∷ back) (length front + 1) 1
            (remainder new required p) (omega arith),
      ))

found-Placed :
    (scheme : Scheme) (algorithm : Algorithm) (pid new required a next : ℕ) (t u : List Partition)
    (found : Option (ℕ × Partition))
    → Distinct t
    → Finds algorithm t required found
    → allocate_found scheme new t required found ≡ (some a, u, next)
    → Placed pid required new t (update a (occupy pid) u) next a
unfolding allocate_found
found-Placed scheme algorithm pid new required a next t u none d f e = absurd (some_none e)
  where
    some_none : ◌≡◌ {A = Option ℕ × List Partition × ℕ} (none, t, new) (some a, u, next) → ⊥
    some_none e = ground arith
found-Placed fixed algorithm pid new required a next t u (some (i, p)) d f e =
    let (front, back, same, place) = split_at t i p f.at in
    let pa : p.address ≡ a = ground arith in
    let tu : u ≡ t = ground arith in
    whole front back p same f.suits pa (ground arith) (
      rw (tu, same)
        (update-front a (occupy pid) front p back
          (rw pa at (Distinct-front front p back (subst Distinct same d))) pa))
found-Placed dynamic algorithm pid new required a next t u (some (i, p)) d f e =
    let (front, back, same, place) = split_at t i p f.at in
    let clear : Distinct (front ++ (p ∷ back)) = subst Distinct same d in
    let made : split_partition new i required t ≡ (
        if p.size == required
        then (front ++ (p ∷ back), false)
        else (front ++ (record p { size = required } ∷ (remainder new required p ∷ back)), true)) =
      ap (λ k. split_partition new k required t) (sym place)
      ∙ ap (split_partition new (length front) required) same
      ∙ split_lem new required front back p in
    elim (Bool-cases (p.size == required)) [
      | inl exact ↦
          let done = rw (made, allocate_found, exact) at e in
          let pa : p.address ≡ a = ground (arith, done) in
          let tu : u ≡ front ++ (p ∷ back) = ground (arith, done) in
          whole front back p same f.suits pa (ground (arith, done)) (
            rw tu (
              update-front a (occupy pid) front p back
                (rw pa at (Distinct-front front p back clear)) pa))
      | inr more ↦
          let done = rw (made, allocate_found, more) at e in
          let pa : p.address ≡ a = ground (arith, done) in
          let tu : u ≡ front ++ (record p { size = required } ∷ (remainder new required p ∷ back)) =
            ground (arith, done) in
          cut front back p same f.suits (ground (arith, more, f.suits.enough)) pa
            (ground (arith, done))
            (rw tu (
              update-front a (occupy pid) front (record p { size = required })
                (remainder new required p ∷ back) (rw pa at (Distinct-front front p back clear))
                pa))
    ]

-- In a table of different addresses, an allocation that succeeds, with the marking that follows
-- it, occupies one free partition of at least the required size: the whole of it, or its front
-- when it is larger and the scheme splits it, with the rest as a new free partition behind; all
-- others stay.
pub allocate-Placed :
    (scheme : Scheme) (algorithm : Algorithm) (pid new required a next : ℕ) (t u : List Partition)
    → Distinct t
    → allocate_partition scheme algorithm new t required ≡ (some a, u, next)
    → Placed pid required new t (update a (occupy pid) u) next a
unfolding allocate_partition
allocate-Placed scheme algorithm pid new required a next t u d e =
    found-Placed scheme algorithm pid new required a next t u (search algorithm t required) d
      (search-Finds algorithm t required) e
