-- ===== src/Filesystem/Allocation.antt =====
-- Which blocks set_bits_bitmap of src/filesystem/src/filesystem.c takes.
use mathlib.Core.Path.{subst}
use so_tp_2024_2c_the_last_o.Prelude.{
  ℕ, zero, suc, ◌+◌, ◌^◌, ◌≤◌, ◌<◌, ◌≡◌, ◌≢◌, refl, sym, ap, ◌∙◌, inl, inr, true, false, Option,
  some, List, [], ◌∷◌, arith, length, Bool-cases, if◌then◌else◌,
}
use so_tp_2024_2c_the_last_o.Payload.Defs.{sub_size}
use so_tp_2024_2c_the_last_o.Filesystem.Bitmap.{
  Bitarray, Bitmap, free_blocks_loop, note, set_bits_loop,
}

abbrev pub NotIn : ℕ → List ℕ → Type 0
NotIn j [] = Unit {0}
NotIn j (p ∷ ps) = (p ≢ j) × NotIn j ps

module _ {A : Type 0} {bits : ℕ} (b : Bitarray A bits) where
  -- The number of the clear bits among `left` ones.
  unfoldable pub zeros : ℕ → ℕ → A → ℕ
  zeros zero i a = 0
  zeros (suc left) i a = (if b.test_bit a i then 0 else 1) + zeros left (i + 1) a

  pub free_blocks_loop-zeros :
      (left i : ℕ) (a : A) (n : ℕ) → free_blocks_loop b left i a n ≡ n + zeros left i a
  unfolding free_blocks_loop zeros
  free_blocks_loop-zeros zero i a n = omega arith
  free_blocks_loop-zeros (suc left) i a n = elim (Bool-cases (b.test_bit a i)) [
    | inl e ↦ rw (e, free_blocks_loop) (free_blocks_loop-zeros left (i + 1) a n ∙ omega arith)
    | inr e ↦ rw (e, free_blocks_loop) (free_blocks_loop-zeros left (i + 1) a (n + 1) ∙ omega arith)
  ]

  zeros-agree :
      (left i : ℕ) (a a' : A)
      → ((j : ℕ) → i ≤ j → b.test_bit a j ≡ b.test_bit a' j)
      → zeros left i a ≡ zeros left i a'
  unfolding zeros
  zeros-agree zero i a a' h = refl
  zeros-agree (suc left) i a a' h =
      rw (h i (omega arith), zeros-agree left (i + 1) a a' (λ j k. h j (omega arith)))

  pub zeros-bound : (left i : ℕ) (a : A) → zeros left i a ≤ left
  unfolding zeros
  zeros-bound zero i a = omega arith
  zeros-bound (suc left) i a = elim (Bool-cases (b.test_bit a i)) [
    | inl e ↦ rw e (omega (arith, zeros-bound left (i + 1) a))
    | inr e ↦ rw e (omega (arith, zeros-bound left (i + 1) a))
  ]

  pub zeros_full :
      (left i : ℕ) (a : A) → b.test_bit a i ≡ true → zeros (suc left) i a ≡ zeros left (i + 1) a
  unfolding zeros
  zeros_full left i a e = rw e (omega arith)

  pub zeros_clear :
      (left i : ℕ) (a : A)
      → b.test_bit a i ≡ false
      → zeros (suc left) i a ≡ 1 + zeros left (i + 1) a
  unfolding zeros
  zeros_clear left i a e = rw e

  -- Clear bits in ascending order, from `lo` on and below `hi`.
  abbrev pub Clear : A → ℕ → ℕ → List ℕ → Type 0
  Clear a lo hi [] = Unit {0}
  Clear a lo hi (p ∷ ps) = (lo ≤ p) × (p < hi) × (b.test_bit a p ≡ false) × Clear a (p + 1) hi ps

  abbrev pub AllSet : A → List ℕ → Type 0
  AllSet a [] = Unit {0}
  AllSet a (p ∷ ps) = (b.test_bit a p ≡ true) × AllSet a ps

  Clear-agree :
      (a a' : A) (lo lo' hi : ℕ) (ps : List ℕ)
      → lo' ≤ lo
      → ((j : ℕ) → lo ≤ j → b.test_bit a j ≡ b.test_bit a' j)
      → Clear a lo hi ps
      → Clear a' lo' hi ps
  Clear-agree a a' lo lo' hi [] l h c = tt
  Clear-agree a a' lo lo' hi (p ∷ ps) l h c = (
    omega (arith, c.0),
    c.1,
    sym (h p c.0) ∙ c.2,
    Clear-agree a a' (p + 1) (p + 1) hi ps (omega arith) (λ j k. h j (omega (arith, c.0, k))) c.3,
  )

  -- The loop takes `n` clear bits between `lo` and `hi` for the array, sets them and no others, and
  -- counts them off the free blocks.
  pub record Allocated (lo hi n : ℕ) (m : Bitmap A) (r : Option (List ℕ × Bitmap A)) : Type 0 where
    pub array : List ℕ
    pub after : Bitmap A
    pub result : r ≡ some (array, after)
    pub size : length array ≡ n
    pub clear : Clear m.bitarray lo hi array
    pub occupied : AllSet after.bitarray array
    pub kept : (j : ℕ) → b.test_bit m.bitarray j ≡ true → b.test_bit after.bitarray j ≡ true
    pub others : (j : ℕ) → NotIn j array → b.test_bit after.bitarray j ≡ b.test_bit m.bitarray j
    pub fewer : after.free_blocks + n ≡ m.free_blocks

  step_full :
      (left i n : ℕ) (m : Bitmap A)
      → b.test_bit m.bitarray i ≡ true
      → set_bits_loop b (suc left) i (suc n) m ≡ set_bits_loop b left (i + 1) (suc n) m
  unfolding set_bits_loop
  step_full left i n m e = rw (e, set_bits_loop)

  -- The bitmap with the bit `i` taken.
  abbrev take_bit : ℕ → Bitmap A → Bitmap A
  take_bit i m = record {
    bitarray = b.set_bit m.bitarray i;
    free_blocks = sub_size m.free_blocks 1;
  }

  step_clear :
      (left i n : ℕ) (m : Bitmap A)
      → b.test_bit m.bitarray i ≡ false
      → set_bits_loop b (suc left) i (suc n) m
        ≡ note b i (set_bits_loop b left (i + 1) n (take_bit i m))
  unfolding set_bits_loop
  step_clear left i n m e = rw (e, set_bits_loop)

  take_bit-free :
      (i : ℕ) (m : Bitmap A)
      → 0 < m.free_blocks
      → m.free_blocks < 2 ^ 64
      → (take_bit i m).free_blocks + 1 ≡ m.free_blocks
  unfolding sub_size
  take_bit-free i m h k = omega arith

  set_other_later :
      (i : ℕ) (m : Bitmap A) (j : ℕ)
      → i + 1 ≤ j
      → b.test_bit (b.set_bit m.bitarray i) j ≡ b.test_bit m.bitarray j
  set_other_later i m j h = b.set_other m.bitarray i j (λ e. absurd (omega (arith, e, h)))

  Allocated-none : (lo hi : ℕ) (m : Bitmap A) → Allocated lo hi 0 m (some ([], m))
  Allocated-none lo hi m = record {
    array = [];
    after = m;
    result = refl;
    size = refl;
    clear = tt;
    occupied = tt;
    kept = λ j h. h;
    others = λ j h. refl;
    fewer = omega arith;
  }

  Allocated-skip :
      (i hi n : ℕ) (m : Bitmap A) (r : Option (List ℕ × Bitmap A))
      → Allocated (i + 1) hi n m r
      → Allocated i hi n m r
  Allocated-skip i hi n m r h = record {
    array = h.array;
    after = h.after;
    result = h.result;
    size = h.size;
    clear =
        Clear-agree m.bitarray m.bitarray (i + 1) i hi h.array (omega arith) (λ j k. refl) h.clear;
    occupied = h.occupied;
    kept = h.kept;
    others = h.others;
    fewer = h.fewer;
  }

  Allocated-take :
      (i hi n : ℕ) (m : Bitmap A) (r : Option (List ℕ × Bitmap A))
      → i < hi
      → hi ≤ 2 ^ 32
      → i < bits
      → b.test_bit m.bitarray i ≡ false
      → 0 < m.free_blocks
      → m.free_blocks < 2 ^ 64
      → Allocated (i + 1) hi n (take_bit i m) r
      → Allocated i hi (suc n) m (note b i r)
  Allocated-take i hi n m r below word inside e some_free few h = record {
    array = i ∷ h.array;
    after = h.after;
    result = ap (note b i) h.result ∙ ap (λ k. some (k ∷ h.array, h.after)) (omega arith);
    size = ap suc h.size;
    clear = (
      omega arith,
      below,
      e,
      Clear-agree (b.set_bit m.bitarray i) m.bitarray (i + 1) (i + 1) hi h.array (omega arith)
          (set_other_later i m) h.clear,
    );
    occupied = (h.kept i (b.set_same m.bitarray i inside), h.occupied);
    kept = λ j k. h.kept j (b.set_other m.bitarray i j (λ q. absurd (cc (q, k, e))) ∙ k);
    others = λ j k. h.others j k.1 ∙ b.set_other m.bitarray i j k.0;
    fewer = omega (arith, h.fewer, take_bit-free i m some_free few);
  }

  -- When the bits that are left hold at least as many clear ones as blocks are asked for, and the
  -- count of free blocks is no smaller and fits size_t, the loop of set_bits_bitmap ends inside
  -- the bit array: it gives as many blocks as asked for, in ascending order, all clear before and
  -- set after, leaves every other bit, and takes their number off the count.
  pub set_bits_loop-Allocated :
      (total left i n : ℕ) (m : Bitmap A)
      → left ≤ total
      → i + left ≤ 2 ^ 32
      → i + left ≤ bits
      → n ≤ zeros left i m.bitarray
      → n ≤ m.free_blocks
      → m.free_blocks < 2 ^ 64
      → Allocated i (i + left) n m (set_bits_loop b total i n m)
  unfolding set_bits_loop
  set_bits_loop-Allocated total left i zero m le word inside enough free few =
      Allocated-none i (i + left) m
  set_bits_loop-Allocated total zero i (suc n) m le word inside enough free few =
      absurd (omega (arith, enough, zeros-bound 0 i m.bitarray))
  set_bits_loop-Allocated zero (suc left) i (suc n) m le word inside enough free few =
      absurd (omega arith)
  set_bits_loop-Allocated (suc total) (suc left) i (suc n) m le word inside enough free few =
      let hi : i + 1 + left ≡ i + suc left = omega arith in
      elim (Bool-cases (b.test_bit m.bitarray i)) [
        | inl e ↦
            let rest =
              set_bits_loop-Allocated total left (i + 1) (suc n) m (omega arith) (omega arith)
                (omega arith) (omega (arith, enough, zeros_full left i m.bitarray e)) free few in
            subst (Allocated i (i + suc left) (suc n) m) (sym (step_full total i n m e)) (
              Allocated-skip i (i + suc left) (suc n) m (set_bits_loop b total (i + 1) (suc n) m) (
                subst (λ k. Allocated (i + 1) k (suc n) m (set_bits_loop b total (i + 1) (suc n) m))
                  hi rest))
        | inr e ↦
            let counted : zeros left (i + 1) (b.set_bit m.bitarray i)
                ≡ zeros left (i + 1) m.bitarray =
              zeros-agree left (i + 1) (b.set_bit m.bitarray i) m.bitarray (set_other_later i m) in
            let less = take_bit-free i m (omega arith) few in
            let rest =
              set_bits_loop-Allocated total left (i + 1) n (take_bit i m) (omega arith)
                (omega arith) (omega arith)
                (omega (arith, enough, counted, zeros_clear left i m.bitarray e))
                (omega (arith, less)) (omega (arith, less)) in
            subst (Allocated i (i + suc left) (suc n) m) (sym (step_clear total i n m e)) (
              Allocated-take i (i + suc left) n m (set_bits_loop b total (i + 1) n (take_bit i m))
                (omega arith) word (omega arith) e (omega arith) few
                (subst
                  (λ k.
                    Allocated (i + 1) k n (take_bit i m)
                      (set_bits_loop b total (i + 1) n (take_bit i m)))
                  hi rest))
      ]
