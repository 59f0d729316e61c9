-- ===== src/Memory/Disjoint.antt =====
-- Two occupied partitions have no byte in common.
use so_tp_2024_2c_the_last_o.Prelude.{
  ℕ, ◌+◌, ◌≤◌, ◌≡◌, ◌≢◌, ◌⊎◌, inl, inr, sym, ap, ◌∙◌, some, List, [], ◌∷◌, arith, ◌==◌, ◌&&◌,
  Bool-cases,
}
use so_tp_2024_2c_the_last_o.Memory.Types.{Partition}
use so_tp_2024_2c_the_last_o.Memory.Layout.{Tiles}
use so_tp_2024_2c_the_last_o.Memory.Tenants.{tenant}

-- The bytes of one partition all stand before those of another.
abbrev pub Apart : Partition → Partition → Type 0
Apart p r = (p.base + p.size ≤ r.base) ⊎ (r.base + r.size ≤ p.base)

Tiles-order : (t : List Partition) (from to : ℕ) → Tiles from t to → from ≤ to
Tiles-order [] from to e = omega (arith, e)
Tiles-order (p ∷ t) from to e = omega (arith, Tiles-order t (from + p.size) to e.1)

tenant-cons :
    (a : ℕ) (x : Partition) (t : List Partition) (p : Partition)
    → tenant a (x ∷ t) ≡ some p
    → ((x.address ≡ a) × (x ≡ p)) ⊎ (tenant a t ≡ some p)
unfolding tenant
tenant-cons a x t p e = elim (Bool-cases ((x.address == a) && x.occupied)) [
  | inl here ↦ inl (ground (arith, here), ground (arith, e, here))
  | inr later ↦ inr (ground (arith, e, later))
]

pub tenant-within :
    (a : ℕ) (t : List Partition) (from to : ℕ) (p : Partition)
    → Tiles from t to
    → tenant a t ≡ some p
    → (from ≤ p.base) × (p.base + p.size ≤ to)
unfolding tenant
tenant-within a [] from to p tiles e = absurd (ground (arith, e))
tenant-within a (x ∷ t) from to p tiles e = elim (tenant-cons a x t p e) [
  | inl (here, same) ↦
      let order = Tiles-order t (from + x.size) to tiles.1 in
      let b : x.base ≡ p.base = ap (λ k. k.base) same in
      let s : x.size ≡ p.size = ap (λ k. k.size) same in
      (omega (arith, tiles.0, b), omega (arith, tiles.0, b, s, order))
  | inr later ↦
      let (low, high) = tenant-within a t (from + x.size) to p tiles.1 later in
      (omega (arith, low), high)
]

pub tenants-Apart :
    (a b : ℕ) (t : List Partition) (from to : ℕ) (p r : Partition)
    → a ≢ b
    → Tiles from t to
    → tenant a t ≡ some p
    → tenant b t ≡ some r
    → Apart p r
unfolding tenant
tenants-Apart a b [] from to p r n tiles e f = absurd (ground (arith, e))
tenants-Apart a b (x ∷ t) from to p r n tiles e f = elim (tenant-cons a x t p e) [
  | inl (here, same) ↦ elim (tenant-cons b x t r f) [
    | inl (here', same') ↦ absurd (n (sym here ∙ here'))
    | inr later' ↦
        let (low, high) = tenant-within b t (from + x.size) to r tiles.1 later' in
        let k : x.base ≡ p.base = ap (λ k. k.base) same in
        let s : x.size ≡ p.size = ap (λ k. k.size) same in inl (omega (arith, low, k, s, tiles.0))
  ]
  | inr later ↦ elim (tenant-cons b x t r f) [
    | inl (here', same') ↦
        let (low, high) = tenant-within a t (from + x.size) to p tiles.1 later in
        let k : x.base ≡ r.base = ap (λ k. k.base) same' in
        let s : x.size ≡ r.size = ap (λ k. k.size) same' in inr (omega (arith, low, k, s, tiles.0))
    | inr later' ↦ tenants-Apart a b t (from + x.size) to p r n tiles.1 later later'
  ]
]
