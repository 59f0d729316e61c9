-- ===== src/Memory/Registry.antt =====
-- ARRAY_PROCESS_MEMORY under the two ways in which the requests change it.
use so_tp_2024_2c_the_last_o.Prelude.{
  ℕ, zero, suc, ◌+◌, ◌%◌, ◌^◌, ◌≤◌, ◌<◌, ◌≡◌, refl, ap, ◌∙◌, ◌⊎◌, inl, inr, Option, some, List, [],
  ◌∷◌, ◌++◌, arith, length, length-append, length-take, set, take, ◌==◌, if◌then◌else◌,
}
use so_tp_2024_2c_the_last_o.Prelude.Buffer.{take-all}
use so_tp_2024_2c_the_last_o.Memory.Types.{MemoryProcess}
use so_tp_2024_2c_the_last_o.Memory.Processes.{lookup_process, add_element_to_array_process}

-- Below 65535 entries PID_COUNT does not wrap.
pub added_lem :
    (q : MemoryProcess) (ps : List (Option MemoryProcess))
    → length ps < 65535
    → add_element_to_array_process q ps ≡ ps ++ (some q ∷ [])
added_lem q ps h =
    ap (λ n. take n (ps ++ (some q ∷ []))) (omega (arith, h))
    ∙ take-all (ps ++ (some q ∷ [])) (length ps + 1) (omega (arith, length-append ps (some q ∷ [])))

pub length-added :
    (q : MemoryProcess) (ps : List (Option MemoryProcess))
    → length (add_element_to_array_process q ps) ≤ length ps + 1
length-added q ps = omega (
  arith,
  length-take (suc (length ps) % 2 ^ 16) (ps ++ (some q ∷ [])),
  length-append ps (some q ∷ []),
)

-- The processes after one was added: the old ones at their places, and the new one behind them.
pub lookup_process-add :
    (ps : List (Option MemoryProcess)) (q r : MemoryProcess) (i : ℕ)
    → lookup_process i (ps ++ (some q ∷ [])) ≡ some r
    → (lookup_process i ps ≡ some r) ⊎ ((i ≡ length ps) × (q ≡ r))
unfolding lookup_process
lookup_process-add [] q r zero e = inr (refl, ground (arith, e))
lookup_process-add [] q r (suc i) e = inl e
lookup_process-add (p ∷ ps) q r zero e = inl e
lookup_process-add (p ∷ ps) q r (suc i) e = elim (lookup_process-add ps q r i e) [
  | inl old ↦ inl old
  | inr (at_end, same) ↦ inr (ap suc at_end, same)
]

pub lookup_process-old :
    (ps : List (Option MemoryProcess)) (q r : MemoryProcess) (i : ℕ)
    → lookup_process i ps ≡ some r
    → lookup_process i (ps ++ (some q ∷ [])) ≡ some r
unfolding lookup_process
lookup_process-old [] q r i e = absurd (ground (arith, e))
lookup_process-old (p ∷ ps) q r zero e = e
lookup_process-old (p ∷ ps) q r (suc i) e = lookup_process-old ps q r i e

pub lookup_process-new :
    (ps : List (Option MemoryProcess)) (q : MemoryProcess)
    → lookup_process (length ps) (ps ++ (some q ∷ [])) ≡ some q
unfolding lookup_process
lookup_process-new [] q = refl
lookup_process-new (p ∷ ps) q = lookup_process-new ps q

pub lookup_process-set :
    (ps : List (Option MemoryProcess)) (i j : ℕ) (v : Option MemoryProcess) (q : MemoryProcess)
    → lookup_process j ps ≡ some q
    → lookup_process i (set ps j v) ≡ (if i == j then v else lookup_process i ps)
unfolding lookup_process
lookup_process-set [] i j v q e = absurd (ground (arith, e))
lookup_process-set (p ∷ ps) zero zero v q e = ground arith
lookup_process-set (p ∷ ps) (suc i) zero v q e = ground arith
lookup_process-set (p ∷ ps) zero (suc j) v q e = ground arith
lookup_process-set (p ∷ ps) (suc i) (suc j) v q e = ground (arith, lookup_process-set ps i j v q e)
