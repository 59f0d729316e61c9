-- ===== src/Memory/Layout.antt =====
-- The layout of PARTITION_TABLE: the partitions cover the memory one behind the other, and their
-- addresses are all different.
use mathlib.Core.List.{append_assoc}
use mathlib.Core.Path.{subst}
use native.Mathlib.Nat.{add_assoc}
use so_tp_2024_2c_the_last_o.Prelude.{ℕ, suc, ◌+◌, ◌-◌, ◌≤◌, ◌<◌, ◌≡◌, List, [], ◌∷◌, ◌++◌, arith}
use so_tp_2024_2c_the_last_o.Memory.Types.{Partition}
use so_tp_2024_2c_the_last_o.Memory.Processes.{occupy, release}
use so_tp_2024_2c_the_last_o.Memory.Shapes.{NotAt, Distinct, Placed, whole, cut, remainder}
use so_tp_2024_2c_the_last_o.Memory.Joining.{Joined, alone, with_right, with_left, with_both, grow}

-- The partitions follow one another from `from` up to `to`, with no gap and no overlap.
abbrev pub Tiles : ℕ → List Partition → ℕ → Type 0
Tiles from [] to = from ≡ to
Tiles from (p ∷ ps) to = (p.base ≡ from) × Tiles (from + p.size) ps to

-- The addresses were all given out before `next`.
abbrev pub Below : ℕ → List Partition → Type 0
Below next [] = Unit {0}
Below next (p ∷ ps) = (p.address < next) × Below next ps

Tiles-swap :
    (front xs ys : List Partition) (from to : ℕ)
    → ((a : ℕ) → Tiles a xs to → Tiles a ys to)
    → Tiles from (front ++ xs) to
    → Tiles from (front ++ ys) to
Tiles-swap [] xs ys from to f t = f from t
Tiles-swap (p ∷ front) xs ys from to f t = (t.0, Tiles-swap front xs ys (from + p.size) to f t.1)

pub Below-mono : (ps : List Partition) {m n : ℕ} → m ≤ n → Below m ps → Below n ps
Below-mono [] h b = tt
Below-mono (p ∷ ps) h b = (omega arith, Below-mono ps h b.1)

Below-swap :
    (front xs ys : List Partition) (n : ℕ)
    → (Below n xs → Below n ys)
    → Below n (front ++ xs)
    → Below n (front ++ ys)
Below-swap [] xs ys n f b = f b
Below-swap (p ∷ front) xs ys n f b = (b.0, Below-swap front xs ys n f b.1)

NotAt-swap :
    (a : ℕ) (front xs ys : List Partition)
    → (NotAt a xs → NotAt a ys)
    → NotAt a (front ++ xs)
    → NotAt a (front ++ ys)
NotAt-swap a [] xs ys f n = f n
NotAt-swap a (p ∷ front) xs ys f n = (n.0, NotAt-swap a front xs ys f n.1)

Distinct-swap :
    (front xs ys : List Partition) (n : ℕ)
    → Below n front
    → ((a : ℕ) → a < n → NotAt a xs → NotAt a ys)
    → (Distinct xs → Distinct ys)
    → Distinct (front ++ xs)
    → Distinct (front ++ ys)
Distinct-swap [] xs ys n b f g d = g d
Distinct-swap (p ∷ front) xs ys n b f g d = (
  NotAt-swap p.address front xs ys (f p.address b.0) d.0,
  Distinct-swap front xs ys n b.1 f g d.1,
)

Below-front : (front xs : List Partition) (n : ℕ) → Below n (front ++ xs) → Below n front
Below-front [] xs n b = tt
Below-front (p ∷ front) xs n b = (b.0, Below-front front xs n b.1)

Below-back : (front xs : List Partition) (n : ℕ) → Below n (front ++ xs) → Below n xs
Below-back [] xs n b = b
Below-back (p ∷ front) xs n b = Below-back front xs n b.1

-- An address not given out is that of no partition.
Below-NotAt : (ps : List Partition) (n a : ℕ) → n ≤ a → Below n ps → NotAt a ps
Below-NotAt [] n a h b = tt
Below-NotAt (p ∷ ps) n a h b = (omega arith, Below-NotAt ps n a h b.1)

-- The partitions tile the memory, and no two stand at the same address.
pub record Layout (total next : ℕ) (t : List Partition) : Type 0 where
  pub tiled : Tiles 0 t total
  pub distinct : Distinct t
  pub below : Below next t

-- The back of a table changed.
Layout-swap :
    (front xs ys : List Partition) (total n m : ℕ)
    → n ≤ m
    → ((a : ℕ) → Tiles a xs total → Tiles a ys total)
    → ((a : ℕ) → a < n → NotAt a xs → NotAt a ys)
    → (Distinct xs → Below n xs → Distinct ys)
    → (Below n xs → Below m ys)
    → Layout total n (front ++ xs)
    → Layout total m (front ++ ys)
Layout-swap front xs ys total n m h tiles not_at distinct below l = record {
  tiled = Tiles-swap front xs ys 0 total tiles l.tiled;
  distinct =
      Distinct-swap front xs ys n (Below-front front xs n l.below) not_at
        (λ d. distinct d (Below-back front xs n l.below)) l.distinct;
  below = below-swap front l.below;
}
  where
    below-swap : (front : List Partition) → Below n (front ++ xs) → Below m (front ++ ys)
    below-swap [] b = below b
    below-swap (p ∷ front) b = (omega arith, below-swap front b.1)

-- Placing a process keeps the layout.
pub Placed-Layout :
    {pid required new next a total : ℕ} {t t' : List Partition}
    → Placed pid required new t t' next a
    → Layout total new t
    → Layout total next t'
Placed-Layout {pid} {new = new} {total = total} (whole front back p te suits pa ne t'e) l =
    rw (t'e, ne)
      (Layout-swap front (p ∷ back) (occupy pid p ∷ back) total new new (omega arith) (λ b h. h)
        (λ b h k. k) (λ d k. d) (λ b. b) (subst (Layout total new) te l))
Placed-Layout {pid} {required} {new} {total = total} (cut front back p te suits small pa ne t'e) l =
    rw (t'e, ne)
      (Layout-swap front (p ∷ back)
        (occupy pid (record p { size = required }) ∷ (remainder new required p ∷ back)) total new
        (suc new) (omega arith)
        (λ b h. (h.0, (omega (arith, h.0), subst (λ k. Tiles k back total) (end b) h.1)))
        (λ b h k. (k.0, (omega arith, k.1)))
        (λ d k. ((omega (arith, k.0), d.0), (Below-NotAt back new new (omega arith) k.1, d.1)))
        (λ b. (omega (arith, b.0), (omega arith, Below-mono back (omega arith) b.1)))
        (subst (Layout total new) te l))
  where
    end : (b : ℕ) → b + p.size ≡ b + required + (p.size - required)
    end b = omega arith

grown-Layout :
    (front : List Partition) (p r : Partition) (rest : List Partition) (total next : ℕ)
    → Layout total next (front ++ (p ∷ (r ∷ rest)))
    → Layout total next (front ++ (grow p r ∷ rest))
grown-Layout front p r rest total next =
    Layout-swap front (p ∷ (r ∷ rest)) (grow p r ∷ rest) total next next (omega arith)
      (λ b h. (h.0, subst (λ k. Tiles k rest total) (add_assoc b p.size r.size) h.1.1))
      (λ b h k. (k.0, k.1.1)) (λ d k. (d.0.1, d.1.1)) (λ b. (b.0, b.1.1))

-- The partition before `p`, taken out of the front.
gather :
    {front : List Partition} (f : List Partition) (q p : Partition) (back : List Partition)
    {total next : ℕ}
    → front ≡ f ++ (q ∷ [])
    → Layout total next (front ++ (p ∷ back))
    → Layout total next (f ++ (q ∷ (p ∷ back)))
gather f q p back {total} {next} e l =
    subst (Layout total next) (append_assoc f (q ∷ []) (p ∷ back))
      (subst (λ b. Layout total next (b ++ (p ∷ back))) e l)

-- Freeing the partition and joining it with its neighbours keep the layout.
pub Joined-Layout :
    {front back t' : List Partition} {p : Partition} {total next : ℕ}
    → Joined front p back t'
    → Layout total next (front ++ (p ∷ back))
    → Layout total next t'
Joined-Layout (alone fo bo e) l = rw e l
Joined-Layout {front} {p = p} {total} {next} (with_right r rest fo be rf e) l = rw e (
    grown-Layout front p r rest total next (subst (λ b. Layout total next (front ++ (p ∷ b))) be l))
Joined-Layout {back = back} {p = p} {total} {next} (with_left f q fe qf bo e) l =
    rw e (grown-Layout f q p back total next (gather f q p back fe l))
Joined-Layout {front} {p = p} {total} {next} (with_both f q r rest fe qf be rf e) l = rw e (
    grown-Layout f q (grow p r) rest total next (
      gather f q (grow p r) rest fe (
        grown-Layout front p r rest total next
          (subst (λ b. Layout total next (front ++ (p ∷ b))) be l))))

-- Freeing a partition without joining.
pub released-Layout :
    (front : List Partition) (p : Partition) (back : List Partition) (total next : ℕ)
    → Layout total next (front ++ (p ∷ back))
    → Layout total next (front ++ (release p ∷ back))
released-Layout front p back total next =
    Layout-swap front (p ∷ back) (release p ∷ back) total next next (omega arith) (λ b h. h)
      (λ b h k. k) (λ d k. d) (λ b. b)
