-- ===== src/Filesystem/Placing.antt =====
-- Where a request for a dump, filesystem_client_handler_for_memory of
-- src/filesystem/src/filesystem.c, puts it: blocks that were free, in a valid state.
use mathlib.Core.Path.{subst}
use native.Mathlib.Decide.{dec_lt}
use so_tp_2024_2c_the_last_o.Prelude.{
  ℕ, ◌+◌, ◌*◌, ◌^◌, ◌≤◌, ◌≡◌, ◌≢◌, sym, ap, ◌∙◌, inl, inr, true, Option, some, List, [], ◌∷◌, arith,
  length, drop,
}
use so_tp_2024_2c_the_last_o.Filesystem.Bitmap.{Bitarray, Bitmap, bitmap_bits, set_bits_bitmap}
use so_tp_2024_2c_the_last_o.Filesystem.Dump.{
  Metadata, Filesystem, MetadataCalls, create_metadata_file, metadata_end, pointers_per_block,
  data_blocks, blocks_for, store, Dumped, bitmap_init, write_dump, reserve, dump_memory,
}
use so_tp_2024_2c_the_last_o.Filesystem.Allocation.{
  NotIn, zeros, zeros-bound, free_blocks_loop-zeros, Clear, AllSet, set_bits_loop-Allocated,
}
use so_tp_2024_2c_the_last_o.Filesystem.Counting.{zeros-taken}
use so_tp_2024_2c_the_last_o.Filesystem.Storage.{region, block_end, contents, Ascending, Away}
use so_tp_2024_2c_the_last_o.Filesystem.Reading.{pointers_of, read_file, store-Stored}

module _ {A : Type 0} (block_size block_count : ℕ) (b : Bitarray A (bitmap_bits block_count)) where
  -- The count is that of the clear bits of the blocks, and the block file has all the blocks.
  pub record Valid (fs : Filesystem A) : Type 0 where
    pub counted : fs.bitmap.free_blocks ≡ zeros b block_count 0 fs.bitmap.bitarray
    pub mapped : length fs.blocks ≡ block_size * block_count

  pub bitmap_init-Valid :
      (bits : A) (blocks : List ℕ) (files : List Metadata)
      → length blocks ≡ block_size * block_count
      → Valid (bitmap_init block_size block_count b bits blocks files)
  bitmap_init-Valid bits blocks files h = record {
    counted = free_blocks_loop-zeros b block_count 0 bits 0 ∙ omega arith;
    mapped = h;
  }

  Clear-Ascending :
      (a : A) (lo hi : ℕ) (ps : List ℕ) → Clear b a lo hi ps → Ascending block_size lo hi ps
  Clear-Ascending a lo hi [] c = tt
  Clear-Ascending a lo hi (p ∷ ps) c = (c.0, c.1, Clear-Ascending a (p + 1) hi ps c.3)

  -- A block that is taken is none of those that were clear.
  Clear-Away :
      (a : A) (lo hi p n : ℕ) (ps : List ℕ)
      → b.test_bit a p ≡ true
      → n ≤ block_size
      → Clear b a lo hi ps
      → Away block_size (block_size * p) n ps
  Clear-Away a lo hi p n [] t h c = tt
  Clear-Away a lo hi p n (q ∷ ps) t h c = (
    elim (dec_lt p q) [
      | yes l ↦ inl (omega (arith, h, block_end block_size p q l))
      | no g ↦ elim (dec_lt q p) [
        | yes l ↦ inr (block_end block_size q p l)
        | no k ↦ let e : p ≡ q = omega (arith, g, k) in absurd (cc (t, c.2, ap (b.test_bit a) e))
      ]
    ],
    Clear-Away a (q + 1) hi p n ps t h c.3,
  )

  -- The dump is in blocks that were free, with its metadata file still to be made.
  pub record Placed (calls : MetadataCalls) (filename dump : List ℕ) (fs : Filesystem A)
      (r : Dumped A) : Type 0 where
    pub after : Filesystem A
    pub index : ℕ
    pub array : List ℕ
    pub result :
        r
        ≡ metadata_end block_size block_count b after
            (create_metadata_file calls filename (length dump) index fs.files)
    pub clear : Clear b fs.bitmap.bitarray 0 block_count (index ∷ array)
    pub occupied : AllSet b after.bitmap.bitarray (index ∷ array)
    pub number : length (index ∷ array) ≡ blocks_for block_size (length dump)
    pub pointers : pointers_of block_size index (length dump) after.blocks ≡ index ∷ array
    pub reads : read_file block_size index (length dump) after.blocks ≡ dump
    pub kept_bits :
        (j : ℕ) → b.test_bit fs.bitmap.bitarray j ≡ true → b.test_bit after.bitmap.bitarray j ≡ true
    pub kept_blocks :
        (j n : ℕ)
        → n ≤ block_size
        → b.test_bit fs.bitmap.bitarray j ≡ true
        → region after.blocks (block_size * j) n ≡ region fs.blocks (block_size * j) n
    pub valid : Valid after

  -- The two limits that the handler checks.
  abbrev pub Room : List ℕ → Filesystem A → Type 0
  Room dump fs =
      (data_blocks block_size (length dump) ≤ pointers_per_block block_size)
      × (blocks_for block_size (length dump) ≤ fs.bitmap.free_blocks)

  dump_memory-reserve :
      (calls : MetadataCalls) (filename dump : List ℕ) (fs : Filesystem A)
      → Room dump fs
      → dump_memory block_size block_count b calls filename dump fs
        ≡ reserve block_size block_count b calls filename dump fs
            (set_bits_bitmap b (blocks_for block_size (length dump)) fs.bitmap)
  unfolding dump_memory
  dump_memory-reserve calls filename dump fs h = ground (arith, h.0, h.1)

  reserve-store :
      (calls : MetadataCalls) (filename dump : List ℕ) (fs : Filesystem A) (index : ℕ)
      (array : List ℕ) (m : Bitmap A) (r : Option (List ℕ × Bitmap A)) (blocks : List ℕ)
      → r ≡ some (index ∷ array, m)
      → store block_size dump (index ∷ array) fs.blocks ≡ some blocks
      → reserve block_size block_count b calls filename dump fs r
        ≡ metadata_end block_size block_count b
            (record { bitmap = m; blocks = blocks; files = fs.files })
            (create_metadata_file calls filename (length dump) index fs.files)
  reserve-store calls filename dump fs index array m r blocks e f =
      ap (reserve block_size block_count b calls filename dump fs) e
      ∙ ap (write_dump block_size block_count b calls filename dump (index ∷ array) m fs) f

  -- Both limits hold, and the index block has room for the pointers with its own.
  dump_memory-stores :
      (calls : MetadataCalls) (filename dump : List ℕ) (fs : Filesystem A) (array : List ℕ)
      (m : Bitmap A) (r : Option (List ℕ × Bitmap A))
      → 32 ≤ block_size
      → block_count ≤ 2 ^ 32
      → blocks_for block_size (length dump) * 4 ≤ block_size
      → Valid fs
      → r ≡ some (array, m)
      → length array ≡ blocks_for block_size (length dump)
      → Clear b fs.bitmap.bitarray 0 block_count array
      → AllSet b m.bitarray array
      → ((j : ℕ) → b.test_bit fs.bitmap.bitarray j ≡ true → b.test_bit m.bitarray j ≡ true)
      → ((j : ℕ) → NotIn j array → b.test_bit m.bitarray j ≡ b.test_bit fs.bitmap.bitarray j)
      → m.free_blocks + length array ≡ fs.bitmap.free_blocks
      → Placed calls filename dump fs (reserve block_size block_count b calls filename dump fs r)
  dump_memory-stores calls filename dump fs [] m r big word room v e number clear occupied kept
        others fewer =
      absurd (omega (arith, number))
  dump_memory-stores calls filename dump fs (index ∷ array) m r big word room v e number clear
        occupied kept others fewer =
      let s =
        store-Stored block_size dump index 0 block_count array fs.blocks big number
          (omega (arith, number, room)) word
          (Clear-Ascending fs.bitmap.bitarray 0 block_count (index ∷ array) clear) v.mapped in
      record {
        after = record { bitmap = m; blocks = s.after; files = fs.files };
        index = index;
        array = array;
        result = reserve-store calls filename dump fs index array m r s.after e s.result;
        clear = clear;
        occupied = occupied;
        number = number;
        pointers = s.pointers;
        reads = ap (λ k. contents block_size (drop 1 k) (length dump) s.after) s.pointers ∙ s.holds;
        kept_bits = kept;
        kept_blocks = λ j n h t.
            s.kept (block_size * j) n
              (Clear-Away fs.bitmap.bitarray 0 block_count j n (index ∷ array) t h clear);
        valid = record {
          counted = omega (
            arith,
            fewer,
            v.counted,
            zeros-taken b block_count 0 fs.bitmap.bitarray m.bitarray (index ∷ array)
                (subst (λ k. Clear b fs.bitmap.bitarray 0 k (index ∷ array)) (omega arith) clear)
                occupied (λ j k n. others j n),
          );
          mapped = s.size ∙ v.mapped;
        };
      }

  pub dump_memory-Placed :
      (calls : MetadataCalls) (filename dump : List ℕ) (fs : Filesystem A)
      → 32 ≤ block_size
      → block_count ≤ 2 ^ 32
      → Valid fs
      → Room dump fs
      → data_blocks block_size (length dump) ≢ pointers_per_block block_size
      → Placed calls filename dump fs (dump_memory block_size block_count b calls filename dump fs)
  dump_memory-Placed calls filename dump fs big word v room edge =
      let n : ℕ = blocks_for block_size (length dump) in
      let m : Bitmap A = fs.bitmap in
      let few = zeros-bound b block_count 0 m.bitarray in
      let s =
        set_bits_loop-Allocated b (bitmap_bits block_count) block_count 0 n m (omega arith)
          (omega (arith, word)) (omega arith) (omega (arith, v.counted, room.1)) room.1
          (omega (arith, v.counted, word, few)) in
      subst (Placed calls filename dump fs) (sym (dump_memory-reserve calls filename dump fs room))
        (dump_memory-stores calls filename dump fs s.array s.after
          (set_bits_bitmap b (blocks_for block_size (length dump)) fs.bitmap) big word
          (omega (arith, room.0, edge)) v s.result s.size
          (subst (λ k. Clear b m.bitarray 0 k s.array) (omega arith) s.clear) s.occupied s.kept
          s.others (omega (arith, s.fewer, s.size)))
