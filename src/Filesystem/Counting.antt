-- ===== src/Filesystem/Counting.antt =====
-- The number of the clear bits after blocks were taken.
use mathlib.Core.Path.{subst}
use native.Mathlib.Decide.{dec_lt}
use so_tp_2024_2c_the_last_o.Prelude.{
  ℕ, zero, suc, ◌+◌, ◌≤◌, ◌<◌, ◌≡◌, sym, ap, ◌∙◌, inl, inr, List, [], ◌∷◌, arith, length,
  Bool-cases,
}
use so_tp_2024_2c_the_last_o.Filesystem.Bitmap.{Bitarray}
use so_tp_2024_2c_the_last_o.Filesystem.Allocation.{
  NotIn, zeros, zeros_full, zeros_clear, Clear, AllSet,
}

module _ {A : Type 0} {bits : ℕ} (b : Bitarray A bits) where
  pub Clear-NotIn : (a : A) (lo hi j : ℕ) (ps : List ℕ) → j < lo → Clear b a lo hi ps → NotIn j ps
  Clear-NotIn a lo hi j [] h c = tt
  Clear-NotIn a lo hi j (p ∷ ps) h c = (
    λ e. absurd (omega (arith, e, h, c.0)),
    Clear-NotIn a (p + 1) hi j ps (omega (arith, c.0)) c.3,
  )

  zeros_same :
      (left i : ℕ) (a a' : A) (k : ℕ)
      → b.test_bit a' i ≡ b.test_bit a i
      → k + zeros b left (i + 1) a' ≡ zeros b left (i + 1) a
      → k + zeros b (suc left) i a' ≡ zeros b (suc left) i a
  zeros_same left i a a' k e h = elim (Bool-cases (b.test_bit a i)) [
    | inl t ↦ omega (arith, h, zeros_full b left i a t, zeros_full b left i a' (e ∙ t))
    | inr f ↦ omega (arith, h, zeros_clear b left i a f, zeros_clear b left i a' (e ∙ f))
  ]

  -- Blocks that were clear and are set, with the others as they were, are the blocks fewer.
  pub zeros-taken :
      (left i : ℕ) (a a' : A) (ps : List ℕ)
      → Clear b a i (i + left) ps
      → AllSet b a' ps
      → ((j : ℕ) → i ≤ j → NotIn j ps → b.test_bit a' j ≡ b.test_bit a j)
      → length ps + zeros b left i a' ≡ zeros b left i a
  unfolding zeros
  zeros-taken zero i a a' [] c s o = omega arith
  zeros-taken zero i a a' (p ∷ ps) c s o = absurd (omega (arith, c.0, c.1))
  zeros-taken (suc left) i a a' [] c s o =
      zeros_same left i a a' 0 (o i (omega arith) tt)
        (zeros-taken left (i + 1) a a' [] tt tt (λ j k n. o j (omega arith) n))
  zeros-taken (suc left) i a a' (p ∷ ps) c s o = elim (dec_lt i p) [
    | no d ↦
        let e : p ≡ i = omega (arith, d, c.0) in
        let rest =
          zeros-taken left (i + 1) a a' ps
            (subst (λ k. Clear b a (i + 1) k ps) (omega arith)
              (subst (λ k. Clear b a (k + 1) (i + suc left) ps) e c.3))
            s.1 (λ j k n. o j (omega arith) (λ q. absurd (omega (arith, q, e, k)), n)) in
        omega (
          arith,
          rest,
          zeros_clear b left i a (ap (b.test_bit a) (sym e) ∙ c.2),
          zeros_full b left i a' (ap (b.test_bit a') (sym e) ∙ s.0),
        )
    | yes d ↦
        let later : i + 1 ≤ p = omega (arith, d) in
        let rest =
          zeros-taken left (i + 1) a a' (p ∷ ps)
            (subst (λ k. Clear b a (i + 1) k (p ∷ ps)) (omega arith) (later, c.1, c.2, c.3)) s
            (λ j k n. o j (omega arith) n) in
        zeros_same left i a a' (length (p ∷ ps))
          (o i (omega arith) (
            λ q. absurd (omega (arith, q, d)),
            Clear-NotIn a (p + 1) (i + suc left) i ps (omega arith) c.3,
          ))
          rest
  ]
