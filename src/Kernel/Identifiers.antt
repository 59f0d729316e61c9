-- ===== src/Kernel/Identifiers.antt =====
-- The managers of process and thread ids: pid_assign, tid_assign, pid_release and tid_release of
-- src/kernel/src/kernel.c, which differ in the type of the id only; both have 16 bits. The lock is
-- left out. `grants` says of a size whether realloc has memory for an array of it.
use mathlib.Core.Path.{subst}
use so_tp_2024_2c_the_last_o.Prelude.{
  ℕ, zero, suc, ◌+◌, ◌-◌, ◌%◌, ◌^◌, ◌≤◌, ◌≡◌, refl, sym, ap, ◌∙◌, Bool, Option, none, some, List,
  [], ◌∷◌, ◌++◌, arith, ltb, ◌==◌, if◌then◌else◌, length, set, length-append, Bool-cases, inl, inr,
}
use so_tp_2024_2c_the_last_o.Kernel.Types.{◌>>=◌, bind_split, from_some}

-- t_PID_Manager and t_TID_Manager: the entries are TCBs or PCBs, or NULL.
pub record IdManager (A : Type 0) : Type 0 where
  pub size : ℕ
  pub array : List (Option A)
  pub counter : ℕ

-- PID_MAX and TID_MAX.
abbrev pub id_max : ℕ
id_max = 2 ^ 16 - 1

-- How a call ends: with an id, with -1, or with undefined behaviour.
pub data Assigned (A : Type 0) : Type 0 where
  assigned : ℕ → IdManager A → Assigned A
  refused : IdManager A → Assigned A
  undefined : Assigned A

module _ {A : Type 0} where
  abbrev pub id_manager_init : IdManager A
  id_manager_init = record { size = 0; array = []; counter = 0 }

  -- Where realloc fails the code goes on to write into the array NULL.
  unfoldable pub id_assign : (ℕ → Bool) → A → IdManager A → Assigned A
  id_assign grants entry m =
      if m.size == id_max
      then refused m
      else if grants (m.size + 1)
      then assigned m.size (record {
        size = m.size + 1;
        array = m.array ++ (some entry ∷ []);
        counter = (m.counter + 1) % 2 ^ 16;
      })
      else undefined

  -- The write of NULL at an id outside the array is undefined behaviour.
  unfoldable pub id_release : ℕ → IdManager A → Option (IdManager A)
  id_release id m =
      if ltb id (length m.array)
      then some
          (record m { array = set m.array id none; counter = (m.counter + (2 ^ 16 - 1)) % 2 ^ 16 })
      else none

  -- pid_assign and tid_assign.
  abbrev pub pid_assign : (ℕ → Bool) → A → IdManager A → Assigned A
  pid_assign = id_assign

  abbrev pub tid_assign : (ℕ → Bool) → A → IdManager A → Assigned A
  tid_assign = id_assign

-- A thread or process that starts, or the id of one that ended.
pub data IdEvent (A : Type 0) : Type 0 where
  starts : A → IdEvent A
  leaves : ℕ → IdEvent A

module _ {A : Type 0} where
  -- The id that a start is given, if any, and the manager.
  abbrev pub given : Assigned A → Option (List ℕ × IdManager A)
  given (assigned id m) = some (id ∷ [], m)
  given (refused m) = some ([], m)
  given undefined = none

  unfoldable pub id_step : (ℕ → Bool) → IdEvent A → IdManager A → Option (List ℕ × IdManager A)
  unfolding id_assign id_release
  id_step grants (starts entry) m = given (id_assign grants entry m)
  id_step grants (leaves id) m = id_release id m >>= λ m'. some ([], m')

  abbrev pub after_ids : List ℕ → List ℕ × IdManager A → List ℕ × IdManager A
  after_ids ids (more, m) = (ids ++ more, m)

  -- The ids that are given over a list of events, in order.
  unfoldable pub id_run :
      (ℕ → Bool) → List (IdEvent A) → IdManager A → Option (List ℕ × IdManager A)
  unfolding id_step
  id_run grants [] m = some ([], m)
  id_run grants (event ∷ events) m =
      id_step grants event m >>= λ r. id_run grants events r.1 >>= λ q. some (after_ids r.0 q)

abbrev pub count_up : ℕ → ℕ → List ℕ
count_up from zero = []
count_up from (suc n) = from ∷ count_up (from + 1) n

-- The ids count up from `from`, and the entries are as many as the size says, at most PID_MAX.
pub record Rising {A : Type 0} (from : ℕ) (ids : List ℕ) (m : IdManager A) : Type 0 where
  pub rising : ids ≡ count_up from (length ids)
  pub total : m.size ≡ from + length ids
  pub entries : length m.array ≡ m.size
  pub bounded : m.size ≤ id_max

length-set : {A : Type 0} (xs : List A) (i : ℕ) (v : A) → length (set xs i v) ≡ length xs
length-set [] i v = refl
length-set (x ∷ xs) zero v = refl
length-set (x ∷ xs) (suc i) v = ap suc (length-set xs i v)

count_up-append : (from n m : ℕ) → count_up from n ++ count_up (from + n) m ≡ count_up from (n + m)
count_up-append from zero m =
    ap (λ k. count_up k m) (omega arith) ∙ ap (count_up from) (omega arith)
count_up-append from (suc n) m =
    let e : from + 1 + n ≡ from + suc n = omega arith in
    let f : suc (n + m) ≡ suc n + m = omega arith in
    ap (◌∷◌ from)
      (ap (λ k. count_up (from + 1) n ++ count_up k m) (sym e) ∙ count_up-append (from + 1) n m)
    ∙ ap (count_up from) f

module _ {A : Type 0} (grants : ℕ → Bool) where
  Rising-none :
      (m : IdManager A) (entries : List (Option A)) (counter : ℕ)
      → length entries ≡ m.size
      → m.size ≤ id_max
      → Rising m.size [] (record { size = m.size; array = entries; counter = counter })
  Rising-none m entries counter e b = record {
    rising = refl;
    total = omega arith;
    entries = e;
    bounded = b;
  }

  Rising-append :
      (from : ℕ) (xs ys : List ℕ) (m m' : IdManager A)
      → Rising from xs m
      → Rising m.size ys m'
      → Rising from (xs ++ ys) m'
  Rising-append from xs ys m m' r s = record {
    rising =
        let n : ℕ = length xs in
        let k : ℕ = length ys in
        let t : n + k ≡ length (xs ++ ys) = omega (arith, length-append xs ys) in
        ap (λ zs. zs ++ ys) r.rising
        ∙ ap (λ zs. count_up from n ++ zs) (s.rising ∙ ap (λ i. count_up i k) r.total)
        ∙ count_up-append from n k
        ∙ ap (count_up from) t;
    total = omega (arith, r.total, s.total, length-append xs ys);
    entries = s.entries;
    bounded = s.bounded;
  }

  id_assign-Rising :
      (entry : A) (m : IdManager A) (r : List ℕ × IdManager A)
      → length m.array ≡ m.size
      → m.size ≤ id_max
      → given (id_assign grants entry m) ≡ some r
      → Rising m.size r.0 r.1
  unfolding id_assign
  id_assign-Rising entry m r e b h = elim (Bool-cases (m.size == id_max)) [
    | inl full ↦
        let eq : id_assign grants entry m ≡ refused m = rw (full, id_assign) refl in
        let h' : some ([], m) ≡ some r = sym (ap given eq) ∙ h in
        subst (λ q. Rising m.size q.0 q.1) (ap (from_some r) h')
          (Rising-none m m.array m.counter e b)
    | inr more ↦ elim (Bool-cases (grants (m.size + 1))) [
      | inl g ↦
          let m' : IdManager A = record {
            size = m.size + 1;
            array = m.array ++ (some entry ∷ []);
            counter = (m.counter + 1) % 2 ^ 16;
          } in
          let eq : id_assign grants entry m ≡ assigned m.size m' = rw (more, g, id_assign) refl in
          let h' : some (m.size ∷ [], m') ≡ some r = sym (ap given eq) ∙ h in
          subst (λ q. Rising m.size q.0 q.1) (ap (from_some r) h')
            (record {
              rising = refl;
              total = refl;
              entries = length-append m.array (some entry ∷ []) ∙ omega (arith, e);
              bounded = ground (arith, b, more);
            })
      | inr g ↦
          let eq : id_assign grants entry m ≡ undefined = rw (more, g, id_assign) refl in
          let h' : none ≡ some r = sym (ap given eq) ∙ h in absurd (ground (arith, h'))
    ]
  ]

  id_release-Rising :
      (id : ℕ) (m m' : IdManager A)
      → length m.array ≡ m.size
      → m.size ≤ id_max
      → id_release id m ≡ some m'
      → Rising m.size [] m'
  unfolding id_release
  id_release-Rising id m m' e b h = elim (Bool-cases (ltb id (length m.array))) [
    | inl inside ↦
        let n : ℕ = (m.counter + (2 ^ 16 - 1)) % 2 ^ 16 in
        let eq : id_release id m ≡ some (record m { array = set m.array id none; counter = n }) =
          rw (inside, id_release) refl in
        subst (Rising m.size []) (ap (from_some m) (sym eq ∙ h))
          (Rising-none m (set m.array id none) n (length-set m.array id none ∙ e) b)
    | inr outside ↦
        let eq : id_release id m ≡ none = rw (outside, id_release) refl in
        let h' : none ≡ some m' = sym eq ∙ h in absurd (ground (arith, h'))
  ]

  id_step-Rising :
      (event : IdEvent A) (m : IdManager A) (r : List ℕ × IdManager A)
      → length m.array ≡ m.size
      → m.size ≤ id_max
      → id_step grants event m ≡ some r
      → Rising m.size r.0 r.1
  unfolding id_step
  id_step-Rising (starts entry) m r e b h = id_assign-Rising entry m r e b h
  id_step-Rising (leaves id) m r e b h =
      let (m1, x, g) = bind_split (id_release id m) _ r h in
      subst (λ q. Rising m.size q.0 q.1) (ap (from_some r) g) (id_release-Rising id m m1 e b x)

  -- From a manager with as many entries as its size, of at most PID_MAX, any starts and releases
  -- that do not run into undefined behaviour give ids that count up one by one from the size, so
  -- that no id is given twice; the entries stay as many as the size, which is the first id plus
  -- the number given and at most PID_MAX.
  pub id_run-Rising :
      (events : List (IdEvent A)) (m : IdManager A) (r : List ℕ × IdManager A)
      → length m.array ≡ m.size
      → m.size ≤ id_max
      → id_run grants events m ≡ some r
      → Rising m.size r.0 r.1
  unfolding id_run
  id_run-Rising [] m r e b h =
      subst (λ q. Rising m.size q.0 q.1) (ap (from_some r) h) (Rising-none m m.array m.counter e b)
  id_run-Rising (event ∷ events) m r e b h =
      let (s, x, g) = bind_split (id_step grants event m) _ r h in
      let (q, y, f) = bind_split (id_run grants events s.1) _ r g in
      let first = id_step-Rising event m s e b x in
      subst (λ q. Rising m.size q.0 q.1) (ap (from_some r) f)
        (Rising-append m.size s.0 q.0 s.1 q.1 first
          (id_run-Rising events s.1 q first.entries first.bounded y))
