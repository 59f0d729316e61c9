-- ===== src/Filesystem/Service.antt =====
-- What one request for a dump, filesystem_client_handler_for_memory of
-- src/filesystem/src/filesystem.c, does to the state of the file system.
use so_tp_2024_2c_the_last_o.Prelude.{
  ℕ, ◌+◌, ◌*◌, ◌^◌, ◌≤◌, ◌≡◌, ◌≢◌, refl, ap, ◌∙◌, inl, inr, true, Bool-cases, List, ◌∷◌, arith,
  length, ltb,
}
use so_tp_2024_2c_the_last_o.Prelude.Int.{pos, negsuc}
use so_tp_2024_2c_the_last_o.Filesystem.Bitmap.{Bitarray, bitmap_bits}
use so_tp_2024_2c_the_last_o.Filesystem.Dump.{
  Metadata, Filesystem, MetadataCalls, created, without, create_metadata_file, metadata_end,
  pointers_per_block, data_blocks, blocks_for, Dumped, sends, dump_memory,
}
use so_tp_2024_2c_the_last_o.Filesystem.Allocation.{Clear, AllSet}
use so_tp_2024_2c_the_last_o.Filesystem.Storage.{region}
use so_tp_2024_2c_the_last_o.Filesystem.Reading.{pointers_of, read_file}
use so_tp_2024_2c_the_last_o.Filesystem.Placing.{Valid, Placed, Room, dump_memory-Placed}

-- All the calls of create_metadata_file come through.
pub record Complete (calls : MetadataCalls) : Type 0 where
  pub path : calls.path_made ≡ true
  pub opens : calls.opened ≡ true
  pub config : calls.config_made ≡ true
  pub values : calls.values_made ≡ true
  pub saves : calls.saved ≡ true

complete_lem :
    (calls : MetadataCalls) (filename : List ℕ) (size index : ℕ) (files : List Metadata)
    → Complete calls
    → create_metadata_file calls filename size index files
      ≡ created (
          record { filename = filename; size = size; index_block = index } ∷ without filename files)
complete_lem calls filename size index files c =
    rw (c.path, c.opens, c.config, c.values, c.saves) refl

module _ {A : Type 0} (block_size block_count : ℕ) (b : Bitarray A (bitmap_bits block_count)) where
  -- The request is refused, with the state as it was.
  abbrev pub Refused : Filesystem A → Dumped A → Type 0
  Refused fs r = r ≡ sends (negsuc 0) fs

  -- The dump is stored as a file that reads back, in blocks that were free.
  pub record Accepted (filename dump : List ℕ) (fs : Filesystem A) (r : Dumped A) : Type 0 where
    pub after : Filesystem A
    pub result : r ≡ sends (pos 0) after
    pub index : ℕ
    pub array : List ℕ
    pub listed : after.files ≡ (
        record { filename = filename; size = length dump; index_block = index }
        ∷ without filename fs.files)
    pub clear : Clear b fs.bitmap.bitarray 0 block_count (index ∷ array)
    pub occupied : AllSet b after.bitmap.bitarray (index ∷ array)
    pub number : length (index ∷ array) ≡ blocks_for block_size (length dump)
    pub pointers : pointers_of block_size index (length dump) after.blocks ≡ index ∷ array
    pub reads : read_file block_size index (length dump) after.blocks ≡ dump
    pub kept_bits :
        (j : ℕ) → b.test_bit fs.bitmap.bitarray j ≡ true → b.test_bit after.bitmap.bitarray j ≡ true
    pub kept_blocks :
        (j n : ℕ)
        → n ≤ block_size
        → b.test_bit fs.bitmap.bitarray j ≡ true
        → region after.blocks (block_size * j) n ≡ region fs.blocks (block_size * j) n
    pub valid : Valid block_size block_count b after

  -- A dump that needs more data blocks than an index block has pointers, or more blocks with the
  -- index block than the free ones, is answered with -1, and the whole state stays as it was.
  pub dump_memory-Refused :
      (calls : MetadataCalls) (filename dump : List ℕ) (fs : Filesystem A)
      → ¬ Room block_size block_count b dump fs
      → Refused fs (dump_memory block_size block_count b calls filename dump fs)
  unfolding dump_memory
  dump_memory-Refused calls filename dump fs h =
      let parts : ℕ = data_blocks block_size (length dump) in
      elim (Bool-cases (ltb (pointers_per_block block_size) parts)) [
        | inl t ↦ rw t refl
        | inr f ↦ elim (Bool-cases (ltb fs.bitmap.free_blocks (parts + 1))) [
          | inl t ↦ rw (f, t) refl
          | inr g ↦ absurd (h (ground (arith, f), ground (arith, g)))
        ]
      ]

  -- The metadata file of a dump that was placed is made.
  pub Placed-Accepted :
      (calls : MetadataCalls) (filename dump : List ℕ) (fs : Filesystem A) (r : Dumped A)
      → (p : Placed block_size block_count b calls filename dump fs r)
      → create_metadata_file calls filename (length dump) p.index fs.files
        ≡ created (
            record { filename = filename; size = length dump; index_block = p.index }
            ∷ without filename fs.files)
      → Accepted filename dump fs r
  Placed-Accepted calls filename dump fs r p made =
      let files : List Metadata =
        record { filename = filename; size = length dump; index_block = p.index }
        ∷ without filename fs.files in
      record {
        after = record p.after { files = files };
        result = p.result ∙ ap (metadata_end block_size block_count b p.after) made;
        index = p.index;
        array = p.array;
        listed = refl;
        clear = p.clear;
        occupied = p.occupied;
        number = p.number;
        pointers = p.pointers;
        reads = p.reads;
        kept_bits = p.kept_bits;
        kept_blocks = p.kept_blocks;
        valid = record { counted = p.valid.counted; mapped = p.valid.mapped };
      }

  -- With blocks of at least 32 bytes, at most 2 ^ 32 blocks, and a valid state, when all the
  -- library calls for the metadata file come through, a dump that keeps both limits and does not
  -- need exactly as many data blocks as an index block has pointers is answered with 0: its blocks
  -- were free and are now taken, its file takes the place of one of the same name and reads back
  -- as the dump, taken bits stay taken with the bytes of their blocks as they were, and the state
  -- stays valid.
  pub dump_memory-Accepted :
      (calls : MetadataCalls) (filename dump : List ℕ) (fs : Filesystem A)
      → Complete calls
      → 32 ≤ block_size
      → block_count ≤ 2 ^ 32
      → Valid block_size block_count b fs
      → Room block_size block_count b dump fs
      → data_blocks block_size (length dump) ≢ pointers_per_block block_size
      → Accepted filename dump fs (dump_memory block_size block_count b calls filename dump fs)
  dump_memory-Accepted calls filename dump fs done big word v room edge =
      let p =
        dump_memory-Placed block_size block_count b calls filename dump fs big word v room edge in
      Placed-Accepted calls filename dump fs
        (dump_memory block_size block_count b calls filename dump fs) p
        (complete_lem calls filename (length dump) p.index fs.files done)
