-- ===== src/Memory/Separation.antt =====
-- No two neighbours of PARTITION_TABLE are both free, under the dynamic scheme.
use mathlib.Core.List.{append_assoc}
use mathlib.Core.Path.{subst}
use so_tp_2024_2c_the_last_o.Prelude.{
  ℕ, ◌≡◌, refl, sym, ◌∙◌, ◌⊎◌, inl, inr, Bool, true, false, List, [], ◌∷◌, ◌++◌,
}
use so_tp_2024_2c_the_last_o.Memory.Types.{Partition}
use so_tp_2024_2c_the_last_o.Memory.Processes.{release}
use so_tp_2024_2c_the_last_o.Memory.Shapes.{Placed, whole, cut}
use so_tp_2024_2c_the_last_o.Memory.Joining.{
  Joined, alone, with_right, with_left, with_both, StartsOccupied, EndsOccupied,
}

-- No two neighbours are both free; `before` says whether the partition before the list is occupied.
abbrev pub Separated : Bool → List Partition → Type 0
Separated before [] = Unit {0}
Separated before (p ∷ ps) = ((before ≡ true) ⊎ (p.occupied ≡ true)) × Separated p.occupied ps

Separated-swap :
    (front xs ys : List Partition) (before : Bool)
    → ((b : Bool) → Separated b xs → Separated b ys)
    → Separated before (front ++ xs)
    → Separated before (front ++ ys)
Separated-swap [] xs ys before f s = f before s
Separated-swap (p ∷ front) xs ys before f s = (s.0, Separated-swap front xs ys p.occupied f s.1)

Separated-occupied : (b c : Bool) (ps : List Partition) → b ≡ true → Separated c ps → Separated b ps
Separated-occupied b c [] e s = tt
Separated-occupied b c (p ∷ ps) e s = (inl e, s.1)

-- Behind an occupied neighbour or the start of the table, the rest may be replaced.
Separated-behind :
    (front xs ys : List Partition) (before : Bool)
    → before ≡ true
    → EndsOccupied front
    → ((b : Bool) → b ≡ true → Separated b xs → Separated b ys)
    → Separated before (front ++ xs)
    → Separated before (front ++ ys)
Separated-behind front xs ys before e (inl none_) f s =
    rw none_ (f before e (subst (λ k. Separated before (k ++ xs)) none_ s))
Separated-behind front xs ys before e (inr (before_last, l, same, full)) f s =
    rw (same, append_assoc before_last (l ∷ []) ys)
      (Separated-swap before_last (l ∷ xs) (l ∷ ys) before (λ b k. (k.0, f l.occupied full k.1))
        (subst (Separated before) (append_assoc before_last (l ∷ []) xs)
          (subst (λ k. Separated before (k ++ xs)) same s)))

Separated-start :
    (b c : Bool) (ps : List Partition) → StartsOccupied ps → Separated b ps → Separated c ps
Separated-start b c [] o s = tt
Separated-start b c (p ∷ ps) o s = (inr o, s.1)

pub Placed-Separated :
    {pid required new next a : ℕ} {t t' : List Partition}
    → Placed pid required new t t' next a
    → Separated true t
    → Separated true t'
Placed-Separated (whole front back p te suits pa ne t'e) s = rw t'e (
    Separated-swap front (p ∷ back) _ true
      (λ b k. (inr refl, Separated-occupied true p.occupied back refl k.1))
      (subst (Separated true) te s))
Placed-Separated (cut front back p te suits small pa ne t'e) s = rw t'e (
    Separated-swap front (p ∷ back) _ true
      (λ b k. (inr refl, (inl refl, subst (λ c. Separated c back) suits.free k.1)))
      (subst (Separated true) te s))

gather_pair :
    {front : List Partition} (f : List Partition) (q p : Partition) (back : List Partition)
    → front ≡ f ++ (q ∷ [])
    → Separated true (front ++ (p ∷ back))
    → Separated true (f ++ (q ∷ (p ∷ back)))
gather_pair f q p back e s =
    subst (Separated true) (append_assoc f (q ∷ []) (p ∷ back))
      (subst (λ b. Separated true (b ++ (p ∷ back))) e s)

-- Freeing a partition and joining it leaves no two free neighbours.
pub Joined-Separated :
    {front back t' : List Partition} (p : Partition)
    → Joined front (release p) back t'
    → Separated true (front ++ (p ∷ back))
    → Separated true t'
Joined-Separated {front} {back} p (alone fo bo e) s = rw e (
    Separated-behind front (p ∷ back) (release p ∷ back) true refl fo
      (λ b h k. (inl h, Separated-start p.occupied false back bo k.1)) s)
Joined-Separated {front} p (with_right r rest fo be rf e) s = rw e (
    Separated-behind front (p ∷ (r ∷ rest)) _ true refl fo
      (λ b h k. (inl h, subst (λ c. Separated c rest) rf k.1.1))
      (subst (λ b. Separated true (front ++ (p ∷ b))) be s))
Joined-Separated {back = back} p (with_left f q fe qf bo e) s = rw e (
    Separated-swap f (q ∷ (p ∷ back)) _ true
      (λ b k. (k.0, Separated-start p.occupied q.occupied back bo k.1.1))
      (gather_pair f q p back fe s))
Joined-Separated {front} p (with_both f q r rest fe qf be rf e) s = rw e (
    Separated-swap f (q ∷ (p ∷ (r ∷ rest))) _ true
      (λ b k. (k.0, subst (λ c. Separated c rest) (rf ∙ sym qf) k.1.1.1))
      (gather_pair f q p (r ∷ rest) fe (subst (λ b. Separated true (front ++ (p ∷ b))) be s)))
