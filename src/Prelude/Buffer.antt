-- ===== src/Prelude/Buffer.antt =====
-- memcpy and memmove on a buffer held as the list of its bytes.
use Prim.Native.Nat.{ℕ, zero, suc, ◌+◌, ◌≤◌, ◌<◌}
use mathlib.Core.Path.{◌≡◌, refl, ap}
use mathlib.Core.List.{List, [], ◌∷◌, ◌++◌, append-nil, append_assoc}
use mathlib.Core.Logic.{◌⊎◌}
use native.Mathlib.Omega.{arith}
use so_tp_2024_2c_the_last_o.Prelude.Lists.{
  length, take, drop, length-append, length-take, get_elem?,
}

module _ {ℓ} {A : Type ℓ} where
  -- The buffer with the elements of `bytes` written from index `at` on; what would fall behind the
  -- end is not written.
  unfoldable pub write_at : List A → ℕ → List A → List A
  write_at [] at bytes = []
  write_at (x ∷ xs) (suc at) bytes = x ∷ write_at xs at bytes
  write_at (x ∷ xs) zero [] = x ∷ xs
  write_at (x ∷ xs) zero (b ∷ bytes) = b ∷ write_at xs zero bytes

  pub length-write_at :
      (xs : List A) (at : ℕ) (bytes : List A) → length (write_at xs at bytes) ≡ length xs
  unfolding write_at
  length-write_at [] at bytes = refl
  length-write_at (x ∷ xs) (suc at) bytes = ap suc (length-write_at xs at bytes)
  length-write_at (x ∷ xs) zero [] = refl
  length-write_at (x ∷ xs) zero (b ∷ bytes) = ap suc (length-write_at xs zero bytes)

  -- A write behind the front of a buffer leaves the front.
  pub write_at-append :
      (front back bytes : List A) (i j : ℕ)
      → i ≡ length front + j
      → write_at (front ++ back) i bytes ≡ front ++ write_at back j bytes
  unfolding write_at
  write_at-append [] back bytes i j h = ap (λ k. write_at back k bytes) (omega arith)
  write_at-append (x ∷ front) back bytes zero j h = absurd (omega arith)
  write_at-append (x ∷ front) back bytes (suc i) j h =
      ap (◌∷◌ x) (write_at-append front back bytes i j (omega arith))

  pub write_at-nil : (xs : List A) (at : ℕ) → write_at xs at [] ≡ xs
  unfolding write_at
  write_at-nil [] at = refl
  write_at-nil (x ∷ xs) (suc at) = ap (◌∷◌ x) (write_at-nil xs at)
  write_at-nil (x ∷ xs) zero = refl

  -- A write up to the end of a buffer.
  write_at-end :
      (xs : List A) (at : ℕ) (bytes : List A)
      → at + length bytes ≡ length xs
      → write_at xs at bytes ≡ take at xs ++ bytes
  unfolding write_at
  write_at-end [] zero [] h = refl
  write_at-end [] zero (b ∷ bytes) h = absurd (omega arith)
  write_at-end [] (suc at) bytes h = absurd (omega arith)
  write_at-end (x ∷ xs) (suc at) bytes h = ap (◌∷◌ x) (write_at-end xs at bytes (omega arith))
  write_at-end (x ∷ xs) zero [] h = absurd (omega arith)
  write_at-end (x ∷ xs) zero (b ∷ bytes) h = ap (◌∷◌ b) (write_at-end xs zero bytes (omega arith))

  -- A write over the front of a buffer.
  pub write_at-front :
      (xs bytes back : List A)
      → length xs ≡ length bytes
      → write_at (xs ++ back) zero bytes ≡ bytes ++ back
  unfolding write_at
  write_at-front [] [] [] h = refl
  write_at-front [] [] (y ∷ back) h = refl
  write_at-front [] (b ∷ bytes) back h = absurd (omega arith)
  write_at-front (x ∷ xs) [] back h = absurd (omega arith)
  write_at-front (x ∷ xs) (b ∷ bytes) back h =
      ap (◌∷◌ b) (write_at-front xs bytes back (omega arith))

  pub take-write_at :
      (xs bytes : List A)
      → length bytes ≤ length xs
      → take (length bytes) (write_at xs zero bytes) ≡ bytes
  unfolding write_at
  take-write_at [] [] h = refl
  take-write_at [] (b ∷ bytes) h = absurd (omega arith)
  take-write_at (x ∷ xs) [] h = refl
  take-write_at (x ∷ xs) (b ∷ bytes) h = ap (◌∷◌ b) (take-write_at xs bytes (omega arith))

  pub take-append :
      (front back : List A) (n j : ℕ)
      → n ≡ length front + j
      → take n (front ++ back) ≡ front ++ take j back
  take-append [] back n j h = ap (λ k. take k back) (omega arith)
  take-append (x ∷ front) back zero j h = absurd (omega arith)
  take-append (x ∷ front) back (suc n) j h = ap (◌∷◌ x) (take-append front back n j (omega arith))

  pub drop-append :
      (front back : List A) (n j : ℕ) → n ≡ length front + j → drop n (front ++ back) ≡ drop j back
  drop-append [] back n j h = ap (λ k. drop k back) (omega arith)
  drop-append (x ∷ front) back zero j h = absurd (omega arith)
  drop-append (x ∷ front) back (suc n) j h = drop-append front back n j (omega arith)

  pub take-all : (xs : List A) (n : ℕ) → length xs ≤ n → take n xs ≡ xs
  take-all [] zero h = refl
  take-all [] (suc n) h = refl
  take-all (x ∷ xs) zero h = absurd (omega arith)
  take-all (x ∷ xs) (suc n) h = ap (◌∷◌ x) (take-all xs n (omega arith))

  -- memmove within one buffer, of `n` elements.
  abbrev pub move_within : List A → ℕ → ℕ → ℕ → List A
  move_within xs to from n = write_at xs to (take n (drop from xs))

  -- A block `front ++ back` that grew by room at its end: moving `back` up by the length of `bytes`
  -- and writing `bytes` into the gap inserts them.
  pub insert_by_move :
      (front back room bytes : List A) (to from n : ℕ)
      → length room ≡ length bytes
      → from ≡ length front
      → to ≡ length front + length bytes
      → n ≡ length back
      → write_at (move_within ((front ++ back) ++ room) to from n) from bytes
        ≡ front ++ (bytes ++ back)
  insert_by_move front back room bytes to from n hr hf ht hn =
      rw (append_assoc front back room, drop-append front (back ++ room) from 0 (omega arith))
        (rw (take-append back room n 0 (omega arith), append-nil back)
          (rw
            (
              write_at-append front (back ++ room) back to (length bytes) (omega arith),
              write_at-end (back ++ room) (length bytes) back
                  (omega (arith, length-append back room)),
            )
            (rw (
              write_at-append front (take (length bytes) (back ++ room) ++ back) bytes from 0
                  (omega arith),
              write_at-front (take (length bytes) (back ++ room)) bytes back (
                  omega
                    (arith, length-take (length bytes) (back ++ room), length-append back room)),
            ))))

  -- Moving what follows `gone` down over it, and cutting the block by the length of `gone`.
  pub remove_by_move :
      (front gone back : List A) (to from n m : ℕ)
      → to ≡ length front
      → from ≡ length front + length gone
      → n ≡ length back
      → m ≡ length front + length back
      → take m (move_within (front ++ (gone ++ back)) to from n) ≡ front ++ back
  remove_by_move front gone back to from n m ht hf hn hm =
      rw
        (
          ← append_assoc front gone back,
          drop-append (front ++ gone) back from 0 (omega (arith, length-append front gone)),
        )
        (rw (
          take-all back n (omega arith),
          append_assoc front gone back,
          write_at-append front (gone ++ back) back to 0 (omega arith),
          take-append front (write_at (gone ++ back) 0 back) m (length back) (omega arith),
          take-write_at (gone ++ back) back (omega (arith, length-append gone back)),
        ))

pub get_elem?-write_at :
    (xs : List ℕ) (at : ℕ) (bytes : List ℕ) (i : ℕ)
    → (i < at) ⊎ (at + length bytes ≤ i)
    → get_elem? (write_at xs at bytes) i ≡ get_elem? xs i
unfolding write_at
get_elem?-write_at [] at bytes i h = refl
get_elem?-write_at (x ∷ xs) (suc at) bytes zero h = refl
get_elem?-write_at (x ∷ xs) (suc at) bytes (suc i) h =
    get_elem?-write_at xs at bytes i (ground (arith, h))
get_elem?-write_at (x ∷ xs) zero [] i h = refl
get_elem?-write_at (x ∷ xs) zero (b ∷ bytes) zero h = absurd (ground (arith, h))
get_elem?-write_at (x ∷ xs) zero (b ∷ bytes) (suc i) h =
    get_elem?-write_at xs zero bytes i (ground (arith, h))

pub read-write_at :
    (xs : List ℕ) (at : ℕ) (bytes : List ℕ)
    → at + length bytes ≤ length xs
    → take (length bytes) (drop at (write_at xs at bytes)) ≡ bytes
unfolding write_at
read-write_at [] zero [] h = refl
read-write_at [] zero (b ∷ bytes) h = absurd (omega arith)
read-write_at [] (suc at) bytes h = absurd (omega arith)
read-write_at (x ∷ xs) (suc at) bytes h = read-write_at xs at bytes (omega arith)
read-write_at (x ∷ xs) zero bytes h = take-write_at (x ∷ xs) bytes (omega arith)
