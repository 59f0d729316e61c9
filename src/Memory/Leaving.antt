-- ===== src/Memory/Leaving.antt =====
-- Freeing a partition takes it out of the occupied ones and touches no other of them.
use mathlib.Core.List.{append_assoc}
use so_tp_2024_2c_the_last_o.Prelude.{ℕ, ◌≡◌, refl, sym, ap, ◌∙◌, false, List, [], ◌∷◌, ◌++◌}
use so_tp_2024_2c_the_last_o.Memory.Types.{Partition}
use so_tp_2024_2c_the_last_o.Memory.Processes.{release}
use so_tp_2024_2c_the_last_o.Memory.Shapes.{Distinct, Distinct-front}
use so_tp_2024_2c_the_last_o.Memory.Joining.{Joined, alone, with_right, with_left, with_both, grow}
use so_tp_2024_2c_the_last_o.Memory.Tenants.{
  tenant, tenant-swap, tenant-free, tenant-other, tenant-clear, tenant-none, Distinct-back, Leaves,
}

-- The free partitions of a joined table do not count, so that its tenants are those of the front
-- and the back.
Joined-tenant :
    (b : ℕ) {front back t' : List Partition} (p : Partition)
    → p.occupied ≡ false
    → Joined front p back t'
    → tenant b t' ≡ tenant b (front ++ back)
Joined-tenant b {front} {back} p free (alone fo bo e) =
    ap (tenant b) e ∙ tenant-swap b front (p ∷ back) back (tenant-free b p back free)
Joined-tenant b {front} {back} p free (with_right r rest fo be rf e) =
    ap (tenant b) e
    ∙ tenant-swap b front (grow p r ∷ rest) (r ∷ rest)
        (tenant-free b (grow p r) rest free ∙ sym (tenant-free b r rest rf))
    ∙ ap (λ k. tenant b (front ++ k)) (sym be)
Joined-tenant b {front} {back} p free (with_left f q fe qf bo e) =
    ap (tenant b) e
    ∙ tenant-swap b f (grow q p ∷ back) (q ∷ back)
        (tenant-free b (grow q p) back qf ∙ sym (tenant-free b q back qf))
    ∙ ap (tenant b) (sym (append_assoc f (q ∷ []) back))
    ∙ ap (λ k. tenant b (k ++ back)) (sym fe)
Joined-tenant b {front} {back} p free (with_both f q r rest fe qf be rf e) =
    ap (tenant b) e
    ∙ tenant-swap b f (grow q (grow p r) ∷ rest) (q ∷ (r ∷ rest)) (
        tenant-free b (grow q (grow p r)) rest qf
        ∙ sym (tenant-free b r rest rf)
        ∙ sym (tenant-free b q (r ∷ rest) qf))
    ∙ ap (tenant b) (sym (append_assoc f (q ∷ []) (r ∷ rest)))
    ∙ ap (λ k. tenant b (k ++ (r ∷ rest))) (sym fe)
    ∙ ap (λ k. tenant b (front ++ k)) (sym be)

left-Leaves :
    (front : List Partition) (p : Partition) (back t' : List Partition)
    → Distinct (front ++ (p ∷ back))
    → ((b : ℕ) → tenant b t' ≡ tenant b (front ++ back))
    → Leaves p.address (front ++ (p ∷ back)) t'
left-Leaves front p back t' d same = record {
  here =
      same p.address
      ∙ tenant-clear p.address front back (Distinct-front front p back d)
      ∙ tenant-none p.address back (Distinct-back front p back d);
  others = λ b n. same b ∙ tenant-swap b front back (p ∷ back) (sym (tenant-other b p back n));
}

pub Joined-Leaves :
    {front back t' : List Partition} (p : Partition)
    → Distinct (front ++ (p ∷ back))
    → Joined front (release p) back t'
    → Leaves p.address (front ++ (p ∷ back)) t'
Joined-Leaves {front} {back} {t'} p d j =
    left-Leaves front p back t' d (λ b. Joined-tenant b (release p) refl j)

-- Without joining, under the fixed scheme.
pub released-Leaves :
    (front : List Partition) (p : Partition) (back : List Partition)
    → Distinct (front ++ (p ∷ back))
    → Leaves p.address (front ++ (p ∷ back)) (front ++ (release p ∷ back))
released-Leaves front p back d =
    left-Leaves front p back _ d
      (λ b. tenant-swap b front (release p ∷ back) back (tenant-free b (release p) back refl))
