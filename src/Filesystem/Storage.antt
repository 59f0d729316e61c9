-- ===== src/Filesystem/Storage.antt =====
-- What the copies of filesystem_client_handler_for_memory, src/filesystem/src/filesystem.c, leave in
-- the block file.
use mathlib.Core.Path.{subst}
use native.Mathlib.Nat.{mul-le-mul_left}
use native.Mathlib.Decide.{dec_lt}
use so_tp_2024_2c_the_last_o.Prelude.{
  ℕ, zero, suc, ◌+◌, ◌-◌, ◌*◌, ◌≤◌, ◌<◌, ◌≡◌, refl, sym, ap, ◌∙◌, ◌⊎◌, inl, Option, some, List, [],
  ◌∷◌, ◌++◌, arith, min, length, take, drop, length-take, length-drop, drop_all, drop-drop,
  take-min, take-append-drop,
}
use so_tp_2024_2c_the_last_o.Prelude.Buffer.{write_at, length-write_at, read-write_at}
use so_tp_2024_2c_the_last_o.Filesystem.Dump.{copy_in, part_size, store_loop}

-- The `n` bytes from `at` on.
abbrev pub region : List ℕ → ℕ → ℕ → List ℕ
region xs at n = take n (drop at xs)

pub region-write_at :
    (xs : List ℕ) (to : ℕ) (ys : List ℕ) (at n : ℕ)
    → (at + n ≤ to) ⊎ (to + length ys ≤ at)
    → region (write_at xs to ys) at n ≡ region xs at n
unfolding write_at
region-write_at [] to ys at n h = refl
region-write_at (x ∷ xs) (suc to) ys zero zero h = refl
region-write_at (x ∷ xs) (suc to) ys zero (suc n) h =
    ap (◌∷◌ x) (region-write_at xs to ys 0 n (ground (arith, h)))
region-write_at (x ∷ xs) (suc to) ys (suc at) n h =
    region-write_at xs to ys at n (ground (arith, h))
region-write_at (x ∷ xs) zero [] at n h = refl
region-write_at (x ∷ xs) zero (y ∷ ys) zero zero h = refl
region-write_at (x ∷ xs) zero (y ∷ ys) zero (suc n) h = absurd (ground (arith, h))
region-write_at (x ∷ xs) zero (y ∷ ys) (suc at) n h =
    region-write_at xs zero ys at n (ground (arith, h))

pub copy_in-inside :
    (blocks : List ℕ) (at : ℕ) (source : List ℕ) (from n : ℕ)
    → from + n ≤ length source
    → at + n ≤ length blocks
    → copy_in blocks at source from n ≡ some (write_at blocks at (region source from n))
copy_in-inside blocks at source from n h k = ground arith

pub length-region : (xs : List ℕ) (at n : ℕ) → at + n ≤ length xs → length (region xs at n) ≡ n
length-region xs at n h = omega (arith, length-take n (drop at xs), length-drop at xs)

module _ (block_size : ℕ) where
  pub block_end : (p q : ℕ) → p < q → block_size * p + block_size ≤ block_size * q
  block_end p q h =
      let step : block_size * suc p ≤ block_size * q = mul-le-mul_left block_size (omega arith) in
      omega (arith, step)

  -- The bytes of a file of `size` bytes in the blocks.
  unfoldable pub contents : List ℕ → ℕ → List ℕ → List ℕ
  contents [] size blocks = []
  contents (p ∷ ps) size blocks =
      region blocks (block_size * p) (min block_size size) ++ contents ps (size - block_size) blocks

  abbrev pub Ascending : ℕ → ℕ → List ℕ → Type 0
  Ascending lo hi [] = Unit {0}
  Ascending lo hi (p ∷ ps) = (lo ≤ p) × (p < hi) × Ascending (p + 1) hi ps

  -- No byte of the `n` from `at` on is in one of the blocks.
  abbrev pub Away : ℕ → ℕ → List ℕ → Type 0
  Away at n [] = Unit {0}
  Away at n (p ∷ ps) =
      ((at + n ≤ block_size * p) ⊎ (block_size * p + block_size ≤ at)) × Away at n ps

  pub Ascending-Away :
      (p n hi lo : ℕ) (ps : List ℕ)
      → n ≤ block_size
      → p < lo
      → Ascending lo hi ps
      → Away (block_size * p) n ps
  Ascending-Away p n hi lo [] h k a = tt
  Ascending-Away p n hi lo (q ∷ ps) h k a = (
    inl (omega (arith, h, block_end p q (omega (arith, k, a.0)))),
    Ascending-Away p n hi (q + 1) ps h (omega (arith, k, a.0)) a.2,
  )

  -- Every part of the dump is a whole block, or what is left of it.
  part_size-min :
      (size parts pos : ℕ)
      → pos < parts
      → size ≤ block_size * parts
      → block_size * (parts - 1) < size
      → part_size block_size size (parts + 1) (pos + 1) ≡ min block_size (size - block_size * pos)
  part_size-min size parts pos h k l = elim (dec_lt (pos + 1) parts) [
    | yes earlier ↦
        let whole = block_end pos (parts - 1) (omega arith) in ground (arith, whole, earlier)
    | no last ↦
        let e : parts ≡ suc pos = omega arith in
        let k' : size ≤ block_size * suc pos = subst (λ d. size ≤ block_size * d) e k in
        let same : block_size * (parts + 1 - 2) ≡ block_size * pos =
          ap (λ d. block_size * d) (omega arith) in
        ground (arith, same, k', e)
  ]

  -- The loop ends inside the block file and the dump, leaves what is outside the blocks as it was,
  -- and the blocks hold the dump from the part `pos` on.
  pub record Stores (dump : List ℕ) (pos : ℕ) (ps blocks : List ℕ) (r : Option (List ℕ))
      : Type 0 where
    pub after : List ℕ
    pub result : r ≡ some after
    pub size : length after ≡ length blocks
    pub kept : (at n : ℕ) → Away at n ps → region after at n ≡ region blocks at n
    pub holds : contents ps (length dump - block_size * pos) after ≡ drop (block_size * pos) dump

  store_loop-next :
      (dump : List ℕ) (necessary pos p : ℕ) (ps blocks blocks' : List ℕ)
      → copy_in blocks
          (block_size * p)
          dump
          (block_size * pos)
          (part_size block_size (length dump) necessary (pos + 1))
        ≡ some blocks'
      → store_loop block_size dump necessary pos (p ∷ ps) blocks
        ≡ store_loop block_size dump necessary (pos + 1) ps blocks'
  unfolding store_loop
  store_loop-next dump necessary pos p ps blocks blocks' e = rw (e, store_loop)

  part_joins :
      (xs : List ℕ) (from : ℕ)
      → region xs from (min block_size (length xs - from)) ++ drop (from + block_size) xs
        ≡ drop from xs
  part_joins xs from =
      let whole : take (min block_size (length xs - from)) (drop from xs)
          ≡ take block_size (drop from xs) =
        ap (λ k. take (min block_size k) (drop from xs)) (sym (length-drop from xs))
        ∙ take-min block_size (drop from xs) in
      rw (whole, ← drop-drop (from + block_size) from block_size xs refl)
        (take-append-drop block_size (drop from xs))

  module _ (dump : List ℕ) (parts count : ℕ) (enough : length dump ≤ block_size * parts)
      (needed : 0 < parts → block_size * (parts - 1) < length dump) where
    abbrev looped : ℕ → List ℕ → List ℕ → Option (List ℕ)
    looped pos ps blocks = store_loop block_size dump (parts + 1) pos ps blocks

    Stores-next :
        (pos p : ℕ) (ps blocks : List ℕ)
        → pos < parts
        → p < count
        → Ascending (p + 1) count ps
        → length blocks ≡ block_size * count
        → Stores dump
            (pos + 1)
            ps
            (write_at blocks
              (block_size * p)
              (region dump (block_size * pos) (min block_size (length dump - block_size * pos))))
            (looped (pos + 1) ps (
              write_at blocks
                (block_size * p)
                (region dump (block_size * pos) (min block_size (length dump - block_size * pos)))))
        → Stores dump pos (p ∷ ps) blocks (looped pos (p ∷ ps) blocks)
    unfolding contents
    Stores-next pos p ps blocks lt below up len h =
        let from : ℕ = block_size * pos in
        let n : ℕ = min block_size (length dump - from) in
        let part : List ℕ = region dump from n in
        let at : ℕ = block_size * p in
        let fits : at + block_size ≤ length blocks = omega (arith, len, block_end p count below) in
        let before : from ≤ block_size * (parts - 1) = mul-le-mul_left block_size (omega arith) in
        let starts : from ≤ length dump = omega (arith, before, needed (omega arith)) in
        let measured : length part ≡ n = length-region dump from n (omega arith) in
        let copied : copy_in blocks at dump from
              (part_size block_size (length dump) (parts + 1) (pos + 1))
            ≡ some (write_at blocks at part) =
          ap (copy_in blocks at dump from)
            (part_size-min (length dump) parts pos lt enough (needed (omega arith)))
          ∙ copy_in-inside blocks at dump from n (omega arith) (omega (arith, fits)) in
        let own : region h.after at n ≡ part =
          h.kept at n (Ascending-Away p n count (p + 1) ps (omega arith) (omega arith) up)
          ∙ ap (λ k. region (write_at blocks at part) at k) (sym measured)
          ∙ read-write_at blocks at part (omega (arith, measured, fits)) in
        let rest : contents ps (length dump - from - block_size) h.after
            ≡ drop (from + block_size) dump =
          ap (λ k. contents ps k h.after) (omega arith)
          ∙ h.holds
          ∙ ap (λ k. drop k dump) (omega arith) in
        record {
          after = h.after;
          result =
              store_loop-next dump (parts + 1) pos p ps blocks (write_at blocks at part) copied
              ∙ h.result;
          size = h.size ∙ length-write_at blocks at part;
          kept = λ a k w.
              h.kept a k w.1 ∙ region-write_at blocks at part a k (ground (arith, w.0, measured));
          holds = rw (own, rest) (part_joins dump from);
        }

    pub store_loop-Stores :
        (pos : ℕ) (ps blocks : List ℕ) (lo : ℕ)
        → pos + length ps ≡ parts
        → Ascending lo count ps
        → length blocks ≡ block_size * count
        → Stores dump pos ps blocks (looped pos ps blocks)
    unfolding contents store_loop
    store_loop-Stores pos [] blocks lo e up len = record {
      after = blocks;
      result = refl;
      size = refl;
      kept = λ at n w. refl;
      holds =
          let all : length dump ≤ block_size * pos =
            subst (λ k. length dump ≤ block_size * k) (omega arith) enough in
          sym (drop_all (block_size * pos) dump all);
    }
    store_loop-Stores pos (p ∷ ps) blocks lo e up len =
        Stores-next pos p ps blocks (omega arith) up.1 up.2 len (
          store_loop-Stores (pos + 1) ps
            (write_at blocks (block_size * p)
              (region dump (block_size * pos) (min block_size (length dump - block_size * pos))))
            (p + 1) (omega arith) up.2
            (length-write_at blocks (block_size * p)
                (region dump (block_size * pos) (min block_size (length dump - block_size * pos)))
              ∙ len))
