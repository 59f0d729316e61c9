-- ===== src/Memory/Search.antt =====
-- Which partition the three search loops of allocate_partition find.
use so_tp_2024_2c_the_last_o.Prelude.{
  ℕ, suc, ◌+◌, ◌-◌, ◌≤◌, ◌<◌, ◌≡◌, sym, ap, ◌∙◌, ◌⊎◌, inl, inr, Bool, true, false, Option, none,
  some, List, [], ◌∷◌, arith, ltb, if◌then◌else◌, get_elem?, Bool-cases,
}
use native.Mathlib.Decide.{dec_lt}
use so_tp_2024_2c_the_last_o.Memory.Types.{Algorithm, first_fit, best_fit, worst_fit, Partition}
use so_tp_2024_2c_the_last_o.Memory.Partitions.{fits, better, first_fit_loop, fit_loop, search}

-- A partition that a process of the size could have.
pub record Suits (required : ℕ) (p : Partition) : Type 0 where
  pub free : p.occupied ≡ false
  pub enough : required ≤ p.size

-- The order in which an algorithm takes the partitions that suit, with their places in the table.
abbrev pub Prefers : Algorithm → ℕ → Partition → ℕ → Partition → Type 0
Prefers first_fit i p j q = i ≤ j
Prefers best_fit i p j q = (p.size < q.size) ⊎ ((p.size ≡ q.size) × (i ≤ j))
Prefers worst_fit i p j q = (q.size < p.size) ⊎ ((p.size ≡ q.size) × (i ≤ j))

-- The partition at `i` suits, and the algorithm prefers it to every other one that suits.
pub record Chosen (algorithm : Algorithm) (table : List Partition) (required i : ℕ) (p : Partition)
    : Type 0 where
  pub at : get_elem? table i ≡ some p
  pub suits : Suits required p
  pub preferred :
      (j : ℕ) (q : Partition)
      → get_elem? table j ≡ some q
      → Suits required q
      → Prefers algorithm i p j q

-- What a search says of the table: its choice, or that nothing suits.
abbrev pub Finds : Algorithm → List Partition → ℕ → Option (ℕ × Partition) → Type 0
Finds algorithm table required none =
    (j : ℕ) (q : Partition) → get_elem? table j ≡ some q → ¬ Suits required q
Finds algorithm table required (some (i, p)) = Chosen algorithm table required i p

fits→Suits : (required : ℕ) (p : Partition) → fits required p ≡ true → Suits required p
fits→Suits required p h = ground arith

not_fits : (required : ℕ) (p : Partition) → fits required p ≡ false → ¬ Suits required p
not_fits required p h s = ground (arith, s.free, s.enough)

-- Both loops of one kind, over the order `before` that the test `wins` decides.
module _ (algorithm : Algorithm) (table : List Partition) (required : ℕ) where
  -- The candidate is the choice among the first `i` partitions.
  abbrev SoFar : ℕ → Option (ℕ × Partition) → Type 0
  SoFar i none = (j : ℕ) (q : Partition) → j < i → get_elem? table j ≡ some q → ¬ Suits required q
  SoFar i (some (k, p)) =
      (k < i)
      × (get_elem? table k ≡ some p)
      × Suits required p
      × ((j : ℕ) (q : Partition)
          → j < i
          → get_elem? table j ≡ some q
          → Suits required q
          → Prefers algorithm k p j q)

  -- The partitions from place `i` on are `ps`.
  abbrev Rest : ℕ → List Partition → Type 0
  Rest i ps = (j : ℕ) → get_elem? ps j ≡ get_elem? table (i + j)

  at_or_before : {i j : ℕ} → j < i + 1 → (j < i) ⊎ (j ≡ i)
  at_or_before h = omega arith

  Rest-tail : (i : ℕ) (p : Partition) (ps : List Partition) → Rest i (p ∷ ps) → Rest (i + 1) ps
  Rest-tail i p ps r j = r (suc j) ∙ ap (get_elem? table) (omega arith)

  Rest-head :
      (i : ℕ) (p : Partition) (ps : List Partition) → Rest i (p ∷ ps) → get_elem? table i ≡ some p
  Rest-head i p ps r = ap (get_elem? table) (omega arith) ∙ sym (r 0)

  Rest-nil : (i j : ℕ) (q : Partition) → Rest i [] → get_elem? table j ≡ some q → j < i
  Rest-nil i j q r e = elim (dec_lt j i) [
    | yes h ↦ h
    | no h ↦
        let beyond : get_elem? table (i + (j - i)) ≡ none = sym (r (j - i)) in
        let same : i + (j - i) ≡ j = omega arith in absurd (cc (beyond, same, e))
  ]

  SoFar-end :
      (i : ℕ) (c : Option (ℕ × Partition))
      → Rest i []
      → SoFar i c
      → Finds algorithm table required c
  SoFar-end i none r s = λ j q e. s j q (Rest-nil i j q r e) e
  SoFar-end i (some (k, p)) r s = record {
    at = s.1;
    suits = s.2;
    preferred = λ j q e u. s.3 j q (Rest-nil i j q r e) e u;
  }

  same_entry :
      {i j : ℕ} (p q : Partition)
      → j ≡ i
      → get_elem? table i ≡ some p
      → get_elem? table j ≡ some q
      → q ≡ p
  same_entry p q same e f = cc (ap (get_elem? table) same)

  -- One more partition that does not suit.
  SoFar-skip :
      (i : ℕ) (p : Partition) (c : Option (ℕ × Partition))
      → get_elem? table i ≡ some p
      → ¬ Suits required p
      → SoFar i c
      → SoFar (i + 1) c
  SoFar-skip i p none at unfit s = λ j q h e. elim (at_or_before h) [
    | inl before ↦ s j q before e
    | inr same ↦ rw (same_entry p q same at e) unfit
  ]
  SoFar-skip i p (some (k, c)) at unfit s = (
    omega (arith, s.0),
    s.1,
    s.2,
    λ j q h e u. elim (at_or_before h) [
      | inl before ↦ s.3 j q before e u
      | inr same ↦ absurd (unfit (rw (same_entry p q same at e) at u))
    ],
  )

  -- One more partition that suits, and to which the algorithm prefers the candidate.
  SoFar-keep :
      (i k : ℕ) (p c : Partition)
      → get_elem? table i ≡ some p
      → Prefers algorithm k c i p
      → SoFar i (some (k, c))
      → SoFar (i + 1) (some (k, c))
  SoFar-keep i k p c at better s = (
    omega (arith, s.0),
    s.1,
    s.2,
    λ j q h e u. elim (at_or_before h) [
      | inl before ↦ s.3 j q before e u
      | inr same ↦ rw (same, same_entry p q same at e) better
    ],
  )

  -- One more partition, which the algorithm prefers to all before.
  SoFar-take :
      (i : ℕ) (p : Partition)
      → get_elem? table i ≡ some p
      → Suits required p
      → Prefers algorithm i p i p
      → ((j : ℕ) (q : Partition)
          → j < i
          → get_elem? table j ≡ some q
          → Suits required q
          → Prefers algorithm i p j q)
      → SoFar (i + 1) (some (i, p))
  SoFar-take i p at suits self better = (
    omega arith,
    at,
    suits,
    λ j q h e u. elim (at_or_before h) [
      | inl before ↦ better j q before e u
      | inr same ↦ rw (same, same_entry p q same at e) self
    ],
  )

  -- The loop of best and worst fit, for a test that decides the algorithm's order.
  module _ (wins : ℕ → ℕ → Bool) (self : (i : ℕ) (p : Partition) → Prefers algorithm i p i p)
      (keeps : (i k : ℕ) (p c : Partition)
        → k < i
        → wins p.size c.size ≡ false
        → Prefers algorithm k c i p)
      (takes : (i j k : ℕ) (p q c : Partition)
        → wins p.size c.size ≡ true
        → Prefers algorithm k c j q
        → Prefers algorithm i p j q) where
    SoFar-step :
        (i : ℕ) (p : Partition) (c : Option (ℕ × Partition))
        → get_elem? table i ≡ some p
        → SoFar i c
        → SoFar (i + 1) (if fits required p then better wins c i p else c)
    SoFar-step i p c at s = elim (Bool-cases (fits required p)) [
      | inr unfit ↦ rw unfit (SoFar-skip i p c at (not_fits required p unfit) s)
      | inl fit ↦ rw fit (chosen c s (fits→Suits required p fit))
    ]
      where
        chosen :
            (c : Option (ℕ × Partition))
            → SoFar i c
            → Suits required p
            → SoFar (i + 1) (better wins c i p)
        chosen none s suits = SoFar-take i p at suits (self i p) (λ j q h e u. absurd (s j q h e u))
        chosen (some (k, c)) s suits = elim (Bool-cases (wins p.size c.size)) [
          | inl win ↦ rw win (
              SoFar-take i p at suits (self i p)
                (λ j q h e u. takes i j k p q c win (s.3 j q h e u)))
          | inr loss ↦ rw loss (SoFar-keep i k p c at (keeps i k p c s.0 loss) s)
        ]

    fit_loop-Finds :
        (ps : List Partition) (i : ℕ) (c : Option (ℕ × Partition))
        → Rest i ps
        → SoFar i c
        → Finds algorithm table required (fit_loop wins ps i required c)
    unfolding fit_loop
    fit_loop-Finds [] i c r s = SoFar-end i c r s
    fit_loop-Finds (p ∷ ps) i c r s =
        fit_loop-Finds ps (i + 1) _ (Rest-tail i p ps r) (SoFar-step i p c (Rest-head i p ps r) s)

first_fit_loop-Finds :
    (table : List Partition) (required : ℕ) (ps : List Partition) (i : ℕ)
    → Rest first_fit table required i ps
    → SoFar first_fit table required i none
    → Finds first_fit table required (first_fit_loop ps i required)
unfolding first_fit_loop
first_fit_loop-Finds table required [] i r s = SoFar-end first_fit table required i none r s
first_fit_loop-Finds table required (p ∷ ps) i r s =
    let at = Rest-head first_fit table required i p ps r in
    elim (Bool-cases (fits required p)) [
      | inl fit ↦ rw fit (record {
        at = at;
        suits = fits→Suits required p fit;
        preferred =
            λ j q e u. elim (dec_lt j i) [ yes h ↦ absurd (s j q h e u) | no h ↦ omega arith ];
      })
      | inr unfit ↦ rw unfit (
          first_fit_loop-Finds table required ps (i + 1)
            (Rest-tail first_fit table required i p ps r)
            (SoFar-skip first_fit table required i p none at (not_fits required p unfit) s))
    ]

-- On any table, first, best and worst fit find a free partition of at least the required size, the
-- first in the table, the first of the smallest and the first of the largest ones; they find none
-- only if no free partition is large enough.
pub search-Finds :
    (algorithm : Algorithm) (table : List Partition) (required : ℕ)
    → Finds algorithm table required (search algorithm table required)
unfolding search
search-Finds first_fit table required =
    first_fit_loop-Finds table required table 0 (λ j. ap (get_elem? table) (omega arith))
      (λ j q h e. absurd (omega arith))
search-Finds best_fit table required =
    fit_loop-Finds best_fit table required ltb (λ i p. omega arith) (λ i k p c h e. ground arith)
      (λ i j k p q c e h. ground arith) table 0 none (λ j. ap (get_elem? table) (omega arith))
      (λ j q h e. absurd (omega arith))
search-Finds worst_fit table required =
    fit_loop-Finds worst_fit table required (λ a b. ltb b a) (λ i p. omega arith)
      (λ i k p c h e. ground arith) (λ i j k p q c e h. ground arith) table 0 none
      (λ j. ap (get_elem? table) (omega arith)) (λ j q h e. absurd (omega arith))
