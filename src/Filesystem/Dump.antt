-- ===== src/Filesystem/Dump.antt =====
-- filesystem_client_handler_for_memory and create_metadata_file of
-- src/filesystem/src/filesystem.c, with bitmap_init.
--
-- The block file is the list of its bytes. An access outside it or outside the dump has no result:
-- it is undefined behaviour. The quotient of the two sizes, which the code rounds up as a double, is
-- the exact one: a dump has less than 2 ^ 53 bytes. `files` are the metadata files that have their two
-- keys, the last one written first.
use so_tp_2024_2c_the_last_o.Prelude.{
  ℕ, ◌+◌, ◌-◌, ◌*◌, ◌/◌, ◌&&◌, not, Bool, Option, none, some, List, [], ◌∷◌, ◌++◌, leb, ltb, ◌==◌,
  if◌then◌else◌, length, take, drop,
}
use so_tp_2024_2c_the_last_o.Prelude.Int.{ℤ, pos, negsuc}
use so_tp_2024_2c_the_last_o.Prelude.Buffer.{write_at}
use so_tp_2024_2c_the_last_o.Prelude.Text.{same_text}
use so_tp_2024_2c_the_last_o.Serialize.Bytes.{to_bytes}
use so_tp_2024_2c_the_last_o.Filesystem.Bitmap.{
  Bitarray, Bitmap, bitmap_bits, check_bitmap_free_blocks, set_bits_bitmap,
}

-- The file under MOUNT_DIR/files, by its name.
pub record Metadata : Type 0 where
  pub filename : List ℕ
  pub size : ℕ
  pub index_block : ℕ

pub record Filesystem (A : Type 0) : Type 0 where
  pub bitmap : Bitmap A
  pub blocks : List ℕ
  pub files : List Metadata

-- memcpy of `n` bytes of `source` from `from` on into the block file.
abbrev pub copy_in : List ℕ → ℕ → List ℕ → ℕ → ℕ → Option (List ℕ)
copy_in blocks at source from n =
    if leb (from + n) (length source) && leb (at + n) (length blocks)
    then some (write_at blocks at (take n (drop from source)))
    else none

-- The bytes of the array of block pointers.
abbrev pub array_bytes : List ℕ → List ℕ
array_bytes [] = []
array_bytes (p ∷ array) = to_bytes 4 p ++ array_bytes array

-- Whether the calls of create_metadata_file to the libraries come through: string_from_format for
-- the path, fopen, config_create, string_from_format for the two values, and config_save.
pub record MetadataCalls : Type 0 where
  pub path_made : Bool
  pub opened : Bool
  pub config_made : Bool
  pub values_made : Bool
  pub saved : Bool

-- The file is there, the thread that serves the client ends, or NULL goes to fclose or
-- config_set_value.
pub data Creation : Type 0 where
  created : List Metadata → Creation
  exits : List Metadata → Creation
  crashes : Creation

-- fopen with "w" empties the file of that name.
unfoldable pub without : List ℕ → List Metadata → List Metadata
without filename [] = []
without filename (file ∷ files) =
    let rest = without filename files in
    if same_text file.filename filename then rest else file ∷ rest

abbrev pub create_metadata_file : MetadataCalls → List ℕ → ℕ → ℕ → List Metadata → Creation
create_metadata_file calls filename size index_block files =
    if not calls.path_made
    then exits files
    else if not calls.opened
    then crashes
    else if not calls.config_made
    then exits (without filename files)
    else if not calls.values_made
    then crashes
    else if calls.saved
    then created (
        record { filename = filename; size = size; index_block = index_block }
        ∷ without filename files)
    else exits (without filename files)

-- print_memory_as_ints: the eight ints that are read at `at`.
abbrev pub print_memory_as_ints : ℕ → List ℕ → Bool
print_memory_as_ints at blocks = leb (at + 32) (length blocks)

module _ (block_size : ℕ) where
  -- get_pointer_to_memory and get_pointer_to_memory_dump, from the start of the memory.
  abbrev pub get_pointer_to_memory : ℕ → ℕ
  get_pointer_to_memory position = block_size * position

  abbrev pub pointers_per_block : ℕ
  pointers_per_block = block_size / 4

  -- The data blocks of a dump and its index block.
  abbrev pub data_blocks : ℕ → ℕ
  data_blocks dump_size = (dump_size + (block_size - 1)) / block_size

  abbrev pub blocks_for : ℕ → ℕ
  blocks_for dump_size = data_blocks dump_size + 1

  -- memory_partition_size.
  abbrev pub part_size : ℕ → ℕ → ℕ → ℕ
  part_size dump_size blocks_necessary array_pos =
      if array_pos == (blocks_necessary - 1)
      then dump_size - block_size * (blocks_necessary - 2)
      else block_size

  -- The loop that copies the dump into the data blocks, those of the array from `array_pos` on.
  unfoldable pub store_loop : List ℕ → ℕ → ℕ → List ℕ → List ℕ → Option (List ℕ)
  store_loop dump blocks_necessary dump_pos [] blocks = some blocks
  store_loop dump blocks_necessary dump_pos (p ∷ array) blocks =
      elim (copy_in blocks (get_pointer_to_memory p) dump (get_pointer_to_memory dump_pos)
        (part_size (length dump) blocks_necessary (dump_pos + 1))) [
          | none ↦ none
          | some blocks' ↦ store_loop dump blocks_necessary (dump_pos + 1) array blocks'
        ]

  -- The index block, then the data blocks.
  unfoldable pub store : List ℕ → List ℕ → List ℕ → Option (List ℕ)
  store dump [] blocks = none
  store dump (index ∷ array) blocks =
      elim (copy_in blocks (get_pointer_to_memory index) (array_bytes (index ∷ array)) 0
        (length (index ∷ array) * 4)) [
          | none ↦ none
          | some blocks' ↦
              let rest = store_loop dump (length (index ∷ array)) 0 array blocks' in
              if print_memory_as_ints (get_pointer_to_memory index) blocks' then rest else none
        ]

-- How the request ends: with the result that is sent, with the end of the thread, or with undefined
-- behaviour.
pub data Dumped (A : Type 0) : Type 0 where
  sends : ℤ → Filesystem A → Dumped A
  thread_ends : Filesystem A → Dumped A
  undefined : Dumped A

module _ {A : Type 0} (block_size block_count : ℕ) (b : Bitarray A (bitmap_bits block_count)) where
  -- The state that bitmap_init and blocks_init make of the two files as they find them.
  abbrev pub bitmap_init : A → List ℕ → List Metadata → Filesystem A
  bitmap_init bits blocks files = record {
    bitmap = check_bitmap_free_blocks b block_count (record { bitarray = bits; free_blocks = 0 });
    blocks = blocks;
    files = files;
  }

  -- What follows the critical section.
  abbrev pub metadata_end : Filesystem A → Creation → Dumped A
  metadata_end fs (created files) = sends (pos 0) (record fs { files = files })
  metadata_end fs (exits files) = thread_ends (record fs { files = files })
  metadata_end fs crashes = undefined

  abbrev pub write_dump :
      MetadataCalls
      → List ℕ
      → List ℕ
      → List ℕ
      → Bitmap A
      → Filesystem A
      → Option (List ℕ)
      → Dumped A
  write_dump calls filename dump array m fs none = undefined
  write_dump calls filename dump [] m fs (some blocks) = undefined
  write_dump calls filename dump (index ∷ array) m fs (some blocks) =
      metadata_end (record { bitmap = m; blocks = blocks; files = fs.files })
        (create_metadata_file calls filename (length dump) index fs.files)

  abbrev pub reserve :
      MetadataCalls → List ℕ → List ℕ → Filesystem A → Option (List ℕ × Bitmap A) → Dumped A
  reserve calls filename dump fs none = undefined
  reserve calls filename dump fs (some (array, m)) =
      write_dump calls filename dump array m fs (store block_size dump array fs.blocks)

  unfoldable pub dump_memory : MetadataCalls → List ℕ → List ℕ → Filesystem A → Dumped A
  unfolding store without
  dump_memory calls filename dump fs =
      if ltb (pointers_per_block block_size) (data_blocks block_size (length dump))
      then sends (negsuc 0) fs
      else if ltb fs.bitmap.free_blocks (blocks_for block_size (length dump))
      then sends (negsuc 0) fs
      else reserve calls filename dump fs
          (set_bits_bitmap b (blocks_for block_size (length dump)) fs.bitmap)
