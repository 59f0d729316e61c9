-- ===== src/Kernel/Ownership.antt =====
-- Who holds a mutex of src/kernel/src/resources.c, and what changes leave that as it is.
use mathlib.Core.Path.{subst}
use so_tp_2024_2c_the_last_o.Prelude.{
  ℕ, zero, suc, ◌≡◌, ◌≢◌, refl, sym, ap, ◌∙◌, ◌⊎◌, inl, inr, Bool, true, false, Option, none, some,
  List, [], ◌∷◌, arith, length, ◌==◌, Bool-cases,
}
use so_tp_2024_2c_the_last_o.Prelude.Int.{ℤ, pos, negsuc}
use so_tp_2024_2c_the_last_o.Prelude.Text.{Text, same_text, same_text_refl, same_text_eq}
use so_tp_2024_2c_the_last_o.Kernel.Types.{
  Resource, Tcb, Kernel, update_at, set_tcb, dictionary_put, put_resource, set_assigned,
}

-- -n.
abbrev pub minus : ℕ → ℤ
minus zero = pos 0
minus (suc n) = negsuc n

-- No thread of the process has the name among its assigned resources.
abbrev pub Unassigned : Kernel → ℕ → Text → Type 0
Unassigned k pid name = (u : ℕ) → (k.tcbs u).pid ≡ pid → (k.tcbs u).assigned name ≡ false

abbrev pub AllOf : Kernel → ℕ → List ℕ → Type 0
AllOf k pid [] = Unit {0}
AllOf k pid (t ∷ ts) = ((k.tcbs t).pid ≡ pid) × AllOf k pid ts

-- The mutex is free: one instance and nobody waiting.
pub record Free (k : Kernel) (pid : ℕ) (name : Text) (r : Resource) : Type 0 where
  pub one : r.instances ≡ pos 1
  pub nobody : r.list_blocked ≡ []
  pub unassigned : Unassigned k pid name

-- Exactly one thread of the process has the mutex, and its instances count those that wait.
pub record Held (k : Kernel) (pid : ℕ) (name : Text) (r : Resource) : Type 0 where
  pub holder : ℕ
  pub own : (k.tcbs holder).pid ≡ pid
  pub assigned : (k.tcbs holder).assigned name ≡ true
  pub only : (u : ℕ) → (k.tcbs u).pid ≡ pid → (k.tcbs u).assigned name ≡ true → u ≡ holder
  pub waiting : r.instances ≡ minus (length r.list_blocked)
  pub waiters : AllOf k pid r.list_blocked

-- A name without a mutex is assigned to nobody.
abbrev pub OwnedAs : Kernel → ℕ → Text → Option Resource → Type 0
OwnedAs k pid name none = Unassigned k pid name
OwnedAs k pid name (some r) = Free k pid name r ⊎ Held k pid name r

abbrev pub Owned : Kernel → Type 0
Owned k = (pid : ℕ) (name : Text) → OwnedAs k pid name (k.resources pid name)

pub update_at-same : {A : Type 0} (i : ℕ) (v : A) (f : ℕ → A) → update_at i v f i ≡ v
update_at-same i v f = ground arith

pub update_at-other :
    {A : Type 0} (i : ℕ) (v : A) (f : ℕ → A) (j : ℕ) → i ≢ j → update_at i v f j ≡ f j
update_at-other i v f j h = ground (arith, h)

-- Another mutex than that of `pid` under `name`.
abbrev pub Elsewhere : ℕ → Text → ℕ → Text → Type 0
Elsewhere pid name p n = (pid ≢ p) ⊎ (same_text name n ≡ false)

-- A change that touches at most the mutex of `pid` under `name` and who holds it.
pub record Change (pid : ℕ) (name : Text) (k k' : Kernel) : Type 0 where
  pub pids : (u : ℕ) → (k'.tcbs u).pid ≡ (k.tcbs u).pid
  pub others_assigned :
      (u : ℕ) (n : Text)
      → Elsewhere pid name (k.tcbs u).pid n
      → (k'.tcbs u).assigned n ≡ (k.tcbs u).assigned n
  pub others_resources :
      (p : ℕ) (n : Text) → Elsewhere pid name p n → k'.resources p n ≡ k.resources p n

pub Change-then :
    {pid : ℕ} {name : Text} {k k' k'' : Kernel}
    → Change pid name k k'
    → Change pid name k' k''
    → Change pid name k k''
Change-then {pid} {name} c d = record {
  pids = λ u. d.pids u ∙ c.pids u;
  others_assigned = λ u n e.
      d.others_assigned u n (subst (λ p. Elsewhere pid name p n) (sym (c.pids u)) e)
      ∙ c.others_assigned u n e;
  others_resources = λ p n e. d.others_resources p n e ∙ c.others_resources p n e;
}

-- A change that touches no mutex and no holder.
pub record Same (k k' : Kernel) : Type 0 where
  pub pids : (u : ℕ) → (k'.tcbs u).pid ≡ (k.tcbs u).pid
  pub assigned : (u : ℕ) (n : Text) → (k'.tcbs u).assigned n ≡ (k.tcbs u).assigned n
  pub resources : (p : ℕ) (n : Text) → k'.resources p n ≡ k.resources p n

pub Same-Change : {pid : ℕ} {name : Text} {k k' : Kernel} → Same k k' → Change pid name k k'
Same-Change s = record {
  pids = s.pids;
  others_assigned = λ u n e. s.assigned u n;
  others_resources = λ p n e. s.resources p n;
}

pub Same-then : {k k' k'' : Kernel} → Same k k' → Same k' k'' → Same k k''
Same-then s r = record {
  pids = λ u. r.pids u ∙ s.pids u;
  assigned = λ u n. r.assigned u n ∙ s.assigned u n;
  resources = λ p n. r.resources p n ∙ s.resources p n;
}

pub set_tcb-Same :
    (t : ℕ) (tcb : Tcb) (k : Kernel)
    → tcb.pid ≡ (k.tcbs t).pid
    → ((n : Text) → tcb.assigned n ≡ (k.tcbs t).assigned n)
    → Same k (set_tcb t tcb k)
set_tcb-Same t tcb k e f = record {
  pids = λ u. elim (Bool-cases (t == u)) [
    | inl h ↦ rw h (e ∙ ap (λ i. (k.tcbs i).pid) (ground (arith, h)))
    | inr h ↦ rw h refl
  ];
  assigned = λ u n. elim (Bool-cases (t == u)) [
    | inl h ↦ rw h (f n ∙ ap (λ i. (k.tcbs i).assigned n) (ground (arith, h)))
    | inr h ↦ rw h refl
  ];
  resources = λ p n. refl;
}

pub AllOf-view :
    (k k' : Kernel) (p : ℕ) (ts : List ℕ)
    → ((u : ℕ) → (k'.tcbs u).pid ≡ (k.tcbs u).pid)
    → AllOf k p ts
    → AllOf k' p ts
AllOf-view k k' p [] c a = tt
AllOf-view k k' p (t ∷ ts) c a = (c t ∙ a.0, AllOf-view k k' p ts c a.1)

-- Who holds a mutex is read off the processes and the assigned names of the threads.
pub OwnedAs-view :
    (k k' : Kernel) (p : ℕ) (n : Text) (r : Option Resource)
    → ((u : ℕ) → (k'.tcbs u).pid ≡ (k.tcbs u).pid)
    → ((u : ℕ) → (k.tcbs u).pid ≡ p → (k'.tcbs u).assigned n ≡ (k.tcbs u).assigned n)
    → OwnedAs k p n r
    → OwnedAs k' p n r
OwnedAs-view k k' p n none c assigned o = λ u h. let b = sym (c u) ∙ h in assigned u b ∙ o u b
OwnedAs-view k k' p n (some r) c assigned (inl f) = inl (record {
  one = f.one;
  nobody = f.nobody;
  unassigned = λ u h. let b = sym (c u) ∙ h in assigned u b ∙ f.unassigned u b;
})
OwnedAs-view k k' p n (some r) c assigned (inr h) = inr (record {
  holder = h.holder;
  own = c h.holder ∙ h.own;
  assigned = assigned h.holder h.own ∙ h.assigned;
  only = λ u q a. let b = sym (c u) ∙ q in h.only u b (sym (assigned u b) ∙ a);
  waiting = h.waiting;
  waiters = AllOf-view k k' p r.list_blocked c h.waiters;
})

OwnedAs-Elsewhere :
    (pid : ℕ) (name : Text) (k k' : Kernel) (p : ℕ) (n : Text) (r : Option Resource)
    → Change pid name k k'
    → Elsewhere pid name p n
    → OwnedAs k p n r
    → OwnedAs k' p n r
OwnedAs-Elsewhere pid name k k' p n r c e =
    OwnedAs-view k k' p n r c.pids
      (λ u h. c.others_assigned u n (subst (λ q. Elsewhere pid name q n) (sym h) e))

-- What a change has to show: the mutex that it touches.
pub Change-Owned :
    (pid : ℕ) (name : Text) (k k' : Kernel)
    → Change pid name k k'
    → Owned k
    → OwnedAs k' pid name (k'.resources pid name)
    → Owned k'
Change-Owned pid name k k' c o own p n = elim (Bool-cases (pid == p)) [
  | inr h ↦ elsewhere (inl (λ e. absurd (ground (arith, h, e))))
  | inl h ↦ elim (Bool-cases (same_text name n)) [
    | inr g ↦ elsewhere (inr g)
    | inl g ↦
        let e : pid ≡ p = ground (arith, h) in
        subst (λ q. OwnedAs k' q n (k'.resources q n)) e
          (subst (λ m. OwnedAs k' pid m (k'.resources pid m)) (same_text_eq name n g) own)
  ]
]
  where
    elsewhere : Elsewhere pid name p n → OwnedAs k' p n (k'.resources p n)
    elsewhere e =
        subst (OwnedAs k' p n) (sym (c.others_resources p n e))
          (OwnedAs-Elsewhere pid name k k' p n (k.resources p n) c e (o p n))

pub Same-Owned : (k k' : Kernel) → Same k k' → Owned k → Owned k'
Same-Owned k k' s o p n = subst (OwnedAs k' p n) (sym (s.resources p n)) (
    OwnedAs-Elsewhere (suc p) n k k' p n (k.resources p n) (Same-Change s)
      (inl (λ e. absurd (omega (arith, e)))) (o p n))

dictionary_put-same :
    {A : Type 0} (name : Text) (v : A) (d : Text → A) → dictionary_put name v d name ≡ v
dictionary_put-same name v d = rw (same_text_refl name) refl

dictionary_put-other :
    {A : Type 0} (name : Text) (v : A) (d : Text → A) (n : Text)
    → same_text name n ≡ false
    → dictionary_put name v d n ≡ d n
dictionary_put-other name v d n h = rw h refl

pub set_assigned-Change :
    (t : ℕ) (name : Text) (b : Bool) (k : Kernel)
    → Change (k.tcbs t).pid name k (set_assigned t name b k)
set_assigned-Change t name b k = record {
  pids = λ u. elim (Bool-cases (t == u)) [
    | inl h ↦ rw h (ap (λ i. (k.tcbs i).pid) (ground (arith, h)))
    | inr h ↦ rw h refl
  ];
  others_assigned = λ u n e. elim (Bool-cases (t == u)) [
    | inr h ↦ rw h refl
    | inl h ↦
        let same : t ≡ u = ground (arith, h) in
        elim e [
          | inl d ↦ absurd (d (ap (λ i. (k.tcbs i).pid) same))
          | inr d ↦ rw (h, d) (ap (λ i. (k.tcbs i).assigned n) same)
        ]
  ];
  others_resources = λ p n e. refl;
}

pub set_assigned_self :
    (t : ℕ) (name : Text) (b : Bool) (k : Kernel)
    → ((set_assigned t name b k).tcbs t).assigned name ≡ b
set_assigned_self t name b k =
    ap (λ tcb. tcb.assigned name)
      (update_at-same t (record (k.tcbs t) { assigned = dictionary_put name b (k.tcbs t).assigned })
        k.tcbs)
    ∙ dictionary_put-same name b (k.tcbs t).assigned

pub set_assigned_other :
    (t : ℕ) (name : Text) (b : Bool) (k : Kernel) (u : ℕ)
    → t ≢ u
    → ((set_assigned t name b k).tcbs u).assigned name ≡ (k.tcbs u).assigned name
set_assigned_other t name b k u h =
    ap (λ tcb. tcb.assigned name)
      (update_at-other t
        (record (k.tcbs t) { assigned = dictionary_put name b (k.tcbs t).assigned }) k.tcbs u h)

pub put_resource-Change :
    (pid : ℕ) (name : Text) (r : Option Resource) (k : Kernel)
    → Change pid name k (put_resource pid name r k)
put_resource-Change pid name r k = record {
  pids = λ u. refl;
  others_assigned = λ u n e. refl;
  others_resources = λ p n e. elim e [
    | inl d ↦
        ap (λ f. f n)
          (update_at-other pid (dictionary_put name r (k.resources pid)) k.resources p d)
    | inr d ↦ elim (Bool-cases (pid == p)) [
      | inr h ↦ rw h refl
      | inl h ↦ rw (h, d) (ap (λ i. k.resources i n) (ground (arith, h)))
    ]
  ];
}

pub put_resource_self :
    (pid : ℕ) (name : Text) (r : Option Resource) (k : Kernel)
    → (put_resource pid name r k).resources pid name ≡ r
put_resource_self pid name r k =
    ap (λ f. f name) (update_at-same pid (dictionary_put name r (k.resources pid)) k.resources)
    ∙ dictionary_put-same name r (k.resources pid)
