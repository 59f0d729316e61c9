-- ===== src/Filesystem/Bitmap.antt =====
-- The bitmap of the blocks: t_Bitmap, check_bitmap_free_blocks and set_bits_bitmap of
-- src/filesystem/src/filesystem.c. The bit array itself is the commons library's; its calls are an
-- instance of Bitarray.
use so_tp_2024_2c_the_last_o.Prelude.{
  ℕ, zero, suc, ◌+◌, ◌*◌, ◌/◌, ◌%◌, ◌^◌, ◌<◌, ◌≡◌, ◌≢◌, Bool, true, false, Option, none, some, List,
  [], ◌∷◌,
}
use so_tp_2024_2c_the_last_o.Payload.Defs.{sub_size}

-- bitarray_test_bit and bitarray_set_bit on an array of `bits` bits: setting a bit sets that one and
-- no other.
pub record Bitarray (A : Type 0) (bits : ℕ) : Type 0 where
  pub test_bit : A → ℕ → Bool
  pub set_bit : A → ℕ → A
  pub set_same : (a : A) (i : ℕ) → i < bits → test_bit (set_bit a i) i ≡ true
  pub set_other : (a : A) (i j : ℕ) → i ≢ j → test_bit (set_bit a i) j ≡ test_bit a j

-- t_Bitmap, less its file descriptor, its mapping and its mutex.
pub record Bitmap (A : Type 0) : Type 0 where
  pub bitarray : A
  pub free_blocks : ℕ

-- BITS_TO_BYTES.
abbrev pub bits_to_bytes : ℕ → ℕ
bits_to_bytes bits = (bits + 7) / 8

-- The bits that the bit array of the bitmap file has: those of its last byte that no block has
-- included.
abbrev pub bitmap_bits : ℕ → ℕ
bitmap_bits block_count = 8 * bits_to_bytes block_count

module _ {A : Type 0} {bits : ℕ} (b : Bitarray A bits) where
  -- The loop of check_bitmap_free_blocks with `left` blocks to test.
  unfoldable pub free_blocks_loop : ℕ → ℕ → A → ℕ → ℕ
  free_blocks_loop zero block_number a free_blocks = free_blocks
  free_blocks_loop (suc left) block_number a free_blocks = elim (b.test_bit a block_number) [
    | true ↦ free_blocks_loop left (block_number + 1) a free_blocks
    | false ↦ free_blocks_loop left (block_number + 1) a (free_blocks + 1)
  ]

  abbrev pub check_bitmap_free_blocks : ℕ → Bitmap A → Bitmap A
  check_bitmap_free_blocks block_count m = record m {
    free_blocks = free_blocks_loop block_count 0 m.bitarray 0;
  }

  -- `array[logic_index] = block_index`: a t_Block_Pointer is uint32_t.
  abbrev pub note : ℕ → Option (List ℕ × Bitmap A) → Option (List ℕ × Bitmap A)
  note block_index none = none
  note block_index (some (array, m)) = some (block_index % 2 ^ 32 ∷ array, m)

  -- The loop of set_bits_bitmap with `left` bits from `block_index` to the end of the bit array, for
  -- `blocks_necessary` more blocks: the part of the array that it fills, and the bitmap. Without a
  -- result the loop reads behind the bit array.
  unfoldable pub set_bits_loop : ℕ → ℕ → ℕ → Bitmap A → Option (List ℕ × Bitmap A)
  set_bits_loop left block_index zero m = some ([], m)
  set_bits_loop zero block_index (suc blocks_necessary) m = none
  set_bits_loop (suc left) block_index (suc blocks_necessary) m =
      elim (b.test_bit m.bitarray block_index) [
        | true ↦ set_bits_loop left (block_index + 1) (suc blocks_necessary) m
        | false ↦ note block_index (
            set_bits_loop left (block_index + 1) blocks_necessary (record {
              bitarray = b.set_bit m.bitarray block_index;
              free_blocks = sub_size m.free_blocks 1;
            }))
      ]

  abbrev pub set_bits_bitmap : ℕ → Bitmap A → Option (List ℕ × Bitmap A)
  set_bits_bitmap blocks_necessary m = set_bits_loop bits 0 blocks_necessary m
