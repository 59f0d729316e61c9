-- ===== src/Memory/Joining.antt =====
-- What verify_and_join_splited_partitions does around the partition that it is called for.
use mathlib.Core.List.{append_assoc}
use so_tp_2024_2c_the_last_o.Prelude.{
  ℕ, ◌+◌, ◌-◌, ◌≡◌, refl, ap, ◌∙◌, ◌⊎◌, inl, inr, Bool, true, false, not, some, List, [], ◌∷◌, ◌++◌,
  arith, if◌then◌else◌, length, length-append, Bool-cases,
}
use so_tp_2024_2c_the_last_o.Memory.Types.{Partition}
use so_tp_2024_2c_the_last_o.Memory.Partitions.{
  remove_at, join_right, join_left, join_at, verify_and_join_splited_partitions,
}
use so_tp_2024_2c_the_last_o.Memory.Places.{
  get_elem?-append, set-append, remove_at-append, last_cases,
}
use so_tp_2024_2c_the_last_o.Memory.Shapes.{NotAt, index_of-front}

-- A partition that took in the one behind it.
abbrev pub grow : Partition → Partition → Partition
grow p q = record p { size = p.size + q.size }

abbrev pub StartsOccupied : List Partition → Type 0
StartsOccupied [] = Unit {0}
StartsOccupied (q ∷ qs) = q.occupied ≡ true

abbrev pub EndsOccupied : List Partition → Type 0
EndsOccupied ps =
    (ps ≡ [])
    ⊎ ((front : List Partition) × (l : Partition) × (ps ≡ front ++ (l ∷ [])) × (l.occupied ≡ true))

-- The table after the partition `p` between `front` and `back` took in its free neighbours.
pub data Joined (front : List Partition) (p : Partition) (back t' : List Partition) : Type 0 where
  alone :
      EndsOccupied front → StartsOccupied back → t' ≡ front ++ (p ∷ back) → Joined front p back t'
  with_right :
      (r : Partition) (rest : List Partition)
      → EndsOccupied front
      → back ≡ r ∷ rest
      → r.occupied ≡ false
      → t' ≡ front ++ (grow p r ∷ rest)
      → Joined front p back t'
  with_left :
      (f : List Partition) (l : Partition)
      → front ≡ f ++ (l ∷ [])
      → l.occupied ≡ false
      → StartsOccupied back
      → t' ≡ f ++ (grow l p ∷ back)
      → Joined front p back t'
  with_both :
      (f : List Partition) (l r : Partition) (rest : List Partition)
      → front ≡ f ++ (l ∷ [])
      → l.occupied ≡ false
      → back ≡ r ∷ rest
      → r.occupied ≡ false
      → t' ≡ f ++ (grow l (grow p r) ∷ rest)
      → Joined front p back t'

join_right-nil :
    (front : List Partition) (p : Partition) (i : ℕ)
    → i ≡ length front
    → join_right i (front ++ (p ∷ [])) ≡ front ++ (p ∷ [])
unfolding join_right
join_right-nil front p i e = rw (get_elem?-append front (p ∷ []) (i + 1) 1 (omega arith))

join_right-cons :
    (front : List Partition) (p r : Partition) (rest : List Partition) (i : ℕ)
    → i ≡ length front
    → join_right i (front ++ (p ∷ (r ∷ rest)))
      ≡ (if not r.occupied then front ++ (grow p r ∷ rest) else front ++ (p ∷ (r ∷ rest)))
unfolding join_right remove_at
join_right-cons front p r rest i e =
    let t : List Partition = p ∷ (r ∷ rest) in
    rw
      (
        get_elem?-append front t (i + 1) 1 (omega arith),
        get_elem?-append front t i 0 (omega arith),
        join_right,
      )
      (rw (
        set-append front t i 0 (grow p r) (omega arith),
        remove_at-append front (grow p r ∷ (r ∷ rest)) (i + 1) 1 (omega arith),
      ))

join_left-cons :
    (f : List Partition) (l p : Partition) (back : List Partition) (i : ℕ)
    → i ≡ length f + 1
    → join_left i (f ++ (l ∷ (p ∷ back)))
      ≡ (if not l.occupied then f ++ (grow l p ∷ back) else f ++ (l ∷ (p ∷ back)))
unfolding join_left remove_at
join_left-cons f l p back i e =
    let t : List Partition = l ∷ (p ∷ back) in
    rw
      (
        get_elem?-append f t (i - 1) 0 (omega arith),
        get_elem?-append f t i 1 (omega arith),
        join_left,
      )
      (rw (
        set-append f t (i - 1) 0 (grow l p) (omega arith),
        remove_at-append f (grow l p ∷ (p ∷ back)) i 1 (omega arith),
      ))

-- The first partition of the table.
join_first : (p : Partition) (back : List Partition) → Joined [] p back (join_at 0 (p ∷ back))
unfolding join_at
join_first p [] = alone (inl refl) tt (ground arith)
join_first p (r ∷ rest) = elim (Bool-cases r.occupied) [
  | inl full ↦ alone (inl refl) full (ground (arith, join_right-cons [] p r rest 0 refl))
  | inr free ↦
      with_right r rest (inl refl) refl free (ground (arith, join_right-cons [] p r rest 0 refl))
]

-- A partition behind `l`: the cases of join_at, and the two calls that they make.
join_at_last :
    (f : List Partition) (l p : Partition)
    → join_at (length f + 1) (f ++ (l ∷ (p ∷ []))) ≡ join_left (length f + 1) (f ++ (l ∷ (p ∷ [])))
unfolding join_at
join_at_last f l p = ground (arith, length-append f (l ∷ (p ∷ [])))

join_at_middle :
    (f : List Partition) (l p r : Partition) (rest : List Partition)
    → join_at (length f + 1) (f ++ (l ∷ (p ∷ (r ∷ rest))))
      ≡ join_left (length f + 1) (join_right (length f + 1) (f ++ (l ∷ (p ∷ (r ∷ rest)))))
unfolding join_at
join_at_middle f l p r rest = ground (arith, length-append f (l ∷ (p ∷ (r ∷ rest))))

join_right_behind :
    (f : List Partition) (l p r : Partition) (rest : List Partition)
    → join_right (length f + 1) (f ++ (l ∷ (p ∷ (r ∷ rest))))
      ≡ (if not r.occupied then f ++ (l ∷ (grow p r ∷ rest)) else f ++ (l ∷ (p ∷ (r ∷ rest))))
join_right_behind f l p r rest = simp append_assoc at (
    join_right-cons (f ++ (l ∷ [])) p r rest (length f + 1)
      (omega (arith, length-append f (l ∷ []))))

if_occupied : (b : Bool) (x y : List Partition) → b ≡ true → (if not b then x else y) ≡ y
if_occupied b x y e = ground arith

if_free : (b : Bool) (x y : List Partition) → b ≡ false → (if not b then x else y) ≡ x
if_free b x y e = ground arith

occupied_end :
    (f : List Partition) (l : Partition) → l.occupied ≡ true → EndsOccupied (f ++ (l ∷ []))
occupied_end f l full = inr (f, l, refl, full)

join_behind :
    (f : List Partition) (l p : Partition) (back : List Partition)
    → Joined (f ++ (l ∷ [])) p back (join_at (length f + 1) (f ++ (l ∷ (p ∷ back))))
join_behind f l p [] = elim (Bool-cases l.occupied) [
  | inl full ↦ alone (occupied_end f l full) tt (same full)
  | inr free ↦ with_left f l refl free tt (joined free)
]
  where
    result :
        join_at (length f + 1) (f ++ (l ∷ (p ∷ [])))
        ≡ (if not l.occupied then f ++ (grow l p ∷ []) else f ++ (l ∷ (p ∷ [])))
    result = join_at_last f l p ∙ join_left-cons f l p [] (length f + 1) refl

    same :
        l.occupied ≡ true
        → join_at (length f + 1) (f ++ (l ∷ (p ∷ []))) ≡ (f ++ (l ∷ [])) ++ (p ∷ [])
    same full = rw append_assoc (result ∙ if_occupied _ _ _ full)

    joined :
        l.occupied ≡ false → join_at (length f + 1) (f ++ (l ∷ (p ∷ []))) ≡ f ++ (grow l p ∷ [])
    joined free = result ∙ if_free _ _ _ free
join_behind f l p (r ∷ rest) = elim (Bool-cases l.occupied) [
  | inl full ↦ elim (Bool-cases r.occupied) [
    | inl shut ↦
        alone (occupied_end f l full) shut (rw append_assoc (kept shut ∙ if_occupied _ _ _ full))
    | inr open_ ↦
        with_right r rest (occupied_end f l full) refl open_
          (rw append_assoc (taken open_ ∙ if_occupied _ _ _ full))
  ]
  | inr free ↦ elim (Bool-cases r.occupied) [
    | inl shut ↦ with_left f l refl free shut (kept shut ∙ if_free _ _ _ free)
    | inr open_ ↦ with_both f l r rest refl free refl open_ (taken open_ ∙ if_free _ _ _ free)
  ]
]
  where
    kept :
        r.occupied ≡ true
        → join_at (length f + 1) (f ++ (l ∷ (p ∷ (r ∷ rest))))
          ≡ (if not l.occupied then f ++ (grow l p ∷ (r ∷ rest)) else f ++ (l ∷ (p ∷ (r ∷ rest))))
    kept shut =
        join_at_middle f l p r rest
        ∙ ap (join_left (length f + 1)) (join_right_behind f l p r rest ∙ if_occupied _ _ _ shut)
        ∙ join_left-cons f l p (r ∷ rest) (length f + 1) refl

    taken :
        r.occupied ≡ false
        → join_at (length f + 1) (f ++ (l ∷ (p ∷ (r ∷ rest)))) ≡ (
            if not l.occupied
            then f ++ (grow l (grow p r) ∷ rest)
            else f ++ (l ∷ (grow p r ∷ rest)))
    taken open_ =
        join_at_middle f l p r rest
        ∙ ap (join_left (length f + 1)) (join_right_behind f l p r rest ∙ if_free _ _ _ open_)
        ∙ join_left-cons f l (grow p r) rest (length f + 1) refl

-- The partition takes in its free neighbours, and only those.
join_at-Joined :
    (front : List Partition) (p : Partition) (back : List Partition)
    → Joined front p back (join_at (length front) (front ++ (p ∷ back)))
join_at-Joined front p back = elim (last_cases front) [
  | inl e ↦ rw e (join_first p back)
  | inr (f, l, e) ↦
      let place : length (f ++ (l ∷ [])) ≡ length f + 1 = length-append f (l ∷ []) in
      rw (e, place, append_assoc f (l ∷ []) (p ∷ back)) (join_behind f l p back)
]

-- For a partition whose address no partition before it has, the joining does not run off the list:
-- the partition takes in its right and its left neighbour, those of them that are free, and the
-- rest of the table stays.
pub verify_and_join-Joined :
    (a : ℕ) (front : List Partition) (p : Partition) (back : List Partition)
    → NotAt a front
    → p.address ≡ a
    → (t' : List Partition) × (verify_and_join_splited_partitions a (front ++ (p ∷ back)) ≡ some t')
      × Joined front p back t'
unfolding verify_and_join_splited_partitions
verify_and_join-Joined a front p back n e = (
  join_at (length front) (front ++ (p ∷ back)),
  rw (index_of-front a front p back n e, verify_and_join_splited_partitions),
  join_at-Joined front p back,
)
