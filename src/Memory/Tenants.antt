-- ===== src/Memory/Tenants.antt =====
-- The occupied partitions of PARTITION_TABLE as a map from their addresses, and how placing and
-- freeing change that map.
use mathlib.Core.Path.{subst}
use so_tp_2024_2c_the_last_o.Prelude.{
  ℕ, ◌≤◌, ◌≡◌, ◌≢◌, refl, sym, ap, ◌∙◌, true, false, ◌&&◌, Option, none, some, List, [], ◌∷◌, ◌++◌,
  arith, ◌==◌, if◌then◌else◌, inl, inr, Bool-cases,
}
use so_tp_2024_2c_the_last_o.Memory.Types.{Partition}
use so_tp_2024_2c_the_last_o.Memory.Processes.{occupy}
use so_tp_2024_2c_the_last_o.Memory.Shapes.{
  NotAt, Distinct, Distinct-front, Placed, whole, cut, remainder,
}

-- The occupied partition at an address.
unfoldable pub tenant : ℕ → List Partition → Option Partition
tenant b [] = none
tenant b (p ∷ ps) =
    let rest = tenant b ps in if (p.address == b) && p.occupied then some p else rest

pub tenant-swap :
    (b : ℕ) (front xs ys : List Partition)
    → tenant b xs ≡ tenant b ys
    → tenant b (front ++ xs) ≡ tenant b (front ++ ys)
unfolding tenant
tenant-swap b [] xs ys e = e
tenant-swap b (p ∷ front) xs ys e = rw (tenant-swap b front xs ys e)

pub tenant-clear :
    (b : ℕ) (front xs : List Partition) → NotAt b front → tenant b (front ++ xs) ≡ tenant b xs
unfolding tenant
tenant-clear b [] xs n = refl
tenant-clear b (p ∷ front) xs n = ground (arith, n.0, tenant-clear b front xs n.1)

pub tenant-none : (b : ℕ) (ps : List Partition) → NotAt b ps → tenant b ps ≡ none
unfolding tenant
tenant-none b [] n = refl
tenant-none b (p ∷ ps) n = ground (arith, n.0, tenant-none b ps n.1)

pub tenant-free :
    (b : ℕ) (p : Partition) (ps : List Partition)
    → p.occupied ≡ false
    → tenant b (p ∷ ps) ≡ tenant b ps
unfolding tenant
tenant-free b p ps e = ground (arith, e)

pub tenant-other :
    (b : ℕ) (p : Partition) (ps : List Partition) → p.address ≢ b → tenant b (p ∷ ps) ≡ tenant b ps
unfolding tenant
tenant-other b p ps e = ground (arith, e)

tenant-here :
    (b : ℕ) (p : Partition) (ps : List Partition)
    → p.address ≡ b
    → p.occupied ≡ true
    → tenant b (p ∷ ps) ≡ some p
unfolding tenant
tenant-here b p ps e o = ground (arith, e, o)

-- Where a tenant stands.
pub tenant_split :
    (a : ℕ) (t : List Partition) (p : Partition)
    → tenant a t ≡ some p
    → (front : List Partition) × (back : List Partition) × (t ≡ front ++ (p ∷ back))
      × (p.address ≡ a)
      × (p.occupied ≡ true)
unfolding tenant
tenant_split a [] p e = absurd (ground (arith, e))
tenant_split a (q ∷ t) p e = elim (Bool-cases ((q.address == a) && q.occupied)) [
  | inl here ↦
      let same : q ≡ p = ground (arith, e, here) in
      ([], t, ap (λ k. k ∷ t) same, ground (arith, here, same), ground (arith, here, same))
  | inr later ↦
      let rest : tenant a t ≡ some p = ground (arith, e, later) in
      let (front, back, te, pa, po) = tenant_split a t p rest in
      (q ∷ front, back, ap (λ k. q ∷ k) te, pa, po)
]

-- The back of a table whose addresses differ is not at the address of a partition before it.
pub Distinct-back :
    (front : List Partition) (p : Partition) (back : List Partition)
    → Distinct (front ++ (p ∷ back))
    → NotAt p.address back
Distinct-back [] p back d = d.0
Distinct-back (q ∷ front) p back d = Distinct-back front p back d.1

-- A new tenant at `a`, which was free; all others are as before.
pub record Settles (pid required a : ℕ) (t t' : List Partition) : Type 0 where
  pub tenant' : Partition
  pub owner : tenant'.pid ≡ pid
  pub room : required ≤ tenant'.size
  pub before : tenant a t ≡ none
  pub here : tenant a t' ≡ some tenant'
  pub others : (b : ℕ) → a ≢ b → tenant b t' ≡ tenant b t

free_before :
    (front : List Partition) (p : Partition) (back : List Partition)
    → p.occupied ≡ false
    → Distinct (front ++ (p ∷ back))
    → tenant p.address (front ++ (p ∷ back)) ≡ none
free_before front p back free d =
    tenant-clear p.address front (p ∷ back) (Distinct-front front p back d)
    ∙ tenant-free p.address p back free
    ∙ tenant-none p.address back (Distinct-back front p back d)

pub Placed-Settles :
    {pid required new next a : ℕ} {t t' : List Partition}
    → Placed pid required new t t' next a
    → Distinct t
    → Settles pid required a t t'
Placed-Settles {pid} {required} {a = a} {t} {t'} (whole front back p te suits pa ne t'e) d =
    let clear : Distinct (front ++ (p ∷ back)) = subst Distinct te d in
    record {
      tenant' = occupy pid p;
      owner = refl;
      room = suits.enough;
      before =
          ap (λ k. tenant k t) (sym pa)
          ∙ ap (tenant p.address) te
          ∙ free_before front p back suits.free clear;
      here =
          ap (tenant a) t'e
          ∙ tenant-clear a front _
              (subst (λ k. NotAt k front) pa (Distinct-front front p back clear))
          ∙ tenant-here a (occupy pid p) back pa refl;
      others = λ b n.
          ap (tenant b) t'e
          ∙ tenant-swap b front (occupy pid p ∷ back) (p ∷ back) (
              tenant-other b (occupy pid p) back (λ e. n (sym pa ∙ e))
              ∙ sym (tenant-free b p back suits.free))
          ∙ ap (tenant b) (sym te);
    }
Placed-Settles {pid} {required} {new} {a = a} {t} {t'} (cut front back p te suits small pa ne t'e)
      d =
    let clear : Distinct (front ++ (p ∷ back)) = subst Distinct te d in
    let taken : Partition = occupy pid (record p { size = required }) in
    record {
      tenant' = taken;
      owner = refl;
      room = omega arith;
      before =
          ap (λ k. tenant k t) (sym pa)
          ∙ ap (tenant p.address) te
          ∙ free_before front p back suits.free clear;
      here =
          ap (tenant a) t'e
          ∙ tenant-clear a front _
              (subst (λ k. NotAt k front) pa (Distinct-front front p back clear))
          ∙ tenant-here a taken (remainder new required p ∷ back) pa refl;
      others = λ b n.
          ap (tenant b) t'e
          ∙ tenant-swap b front (taken ∷ (remainder new required p ∷ back)) (p ∷ back) (
              tenant-other b taken (remainder new required p ∷ back) (λ e. n (sym pa ∙ e))
              ∙ tenant-free b (remainder new required p) back refl
              ∙ sym (tenant-free b p back suits.free))
          ∙ ap (tenant b) (sym te);
    }

-- The partition at `a` is no longer a tenant; all others are as before.
pub record Leaves (a : ℕ) (t t' : List Partition) : Type 0 where
  pub here : tenant a t' ≡ none
  pub others : (b : ℕ) → a ≢ b → tenant b t' ≡ tenant b t
