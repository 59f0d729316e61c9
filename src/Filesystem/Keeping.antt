-- ===== src/Filesystem/Keeping.antt =====
-- The files of the file system and the dumps that they hold, as the requests that
-- filesystem_client_handler_for_memory of src/filesystem/src/filesystem.c serves change them.
use so_tp_2024_2c_the_last_o.Prelude.{
  ℕ, min, ◌-◌, ◌*◌, ◌≤◌, ◌≡◌, refl, sym, ap, ◌∙◌, inl, inr, Bool, true, false, Bool-cases,
  if◌then◌else◌, Option, none, some, List, [], ◌∷◌, arith, length, drop,
}
use so_tp_2024_2c_the_last_o.Prelude.Text.{same_text}
use so_tp_2024_2c_the_last_o.Prelude.Int.{ℤ, pos, negsuc}
use so_tp_2024_2c_the_last_o.Filesystem.Bitmap.{Bitarray, bitmap_bits}
use so_tp_2024_2c_the_last_o.Filesystem.Dump.{
  Metadata, MetadataCalls, without, Filesystem, blocks_for,
}
use so_tp_2024_2c_the_last_o.Filesystem.Allocation.{AllSet}
use so_tp_2024_2c_the_last_o.Filesystem.Storage.{region, contents}
use so_tp_2024_2c_the_last_o.Filesystem.Reading.{read_pointers, pointers_of, read_file}

-- A request: the name of the file and the dump, and how the calls for its metadata file will end.
pub record DumpRequest : Type 0 where
  pub calls : MetadataCalls
  pub filename : List ℕ
  pub dump : List ℕ

-- A dump with its name.
abbrev pub NamedDump : Type 0
NamedDump = List ℕ × List ℕ

abbrev pub other_dumps : List ℕ → List NamedDump → List NamedDump
other_dumps filename [] = []
other_dumps filename ((name, dump) ∷ dumps) =
    let rest = other_dumps filename dumps in
    if same_text name filename then rest else (name, dump) ∷ rest

-- What is left of the dumps when a request ends without an answer: fopen may have emptied the file
-- of its name.
abbrev pub left_over : Bool → List ℕ → List NamedDump → List NamedDump
left_over true filename dumps = other_dumps filename dumps
left_over false filename dumps = dumps

-- The dumps that are stored after the requests, the last one first: a dump that was answered with 0
-- takes the place of one of the same name.
abbrev pub stored_dumps : List DumpRequest → List (Option ℤ) → List NamedDump → List NamedDump
stored_dumps [] results dumps = dumps
stored_dumps (request ∷ requests) [] dumps = dumps
stored_dumps (request ∷ requests) (some (pos n) ∷ results) dumps =
    stored_dumps requests results
      ((request.filename, request.dump) ∷ other_dumps request.filename dumps)
stored_dumps (request ∷ requests) (some (negsuc n) ∷ results) dumps =
    stored_dumps requests results dumps
stored_dumps (request ∷ requests) (none ∷ results) dumps =
    stored_dumps requests results (left_over request.calls.path_made request.filename dumps)

module _ {A : Type 0} (block_size block_count : ℕ) (b : Bitarray A (bitmap_bits block_count)) where
  -- The file holds the dump, in blocks that the bitmap shows as taken.
  pub record Holds (fs : Filesystem A) (file : Metadata) (name dump : List ℕ) : Type 0 where
    pub named : file.filename ≡ name
    pub size : file.size ≡ length dump
    pub room : blocks_for block_size (length dump) * 4 ≤ block_size
    pub array : List ℕ
    pub pointers :
        pointers_of block_size file.index_block (length dump) fs.blocks ≡ file.index_block ∷ array
    pub occupied : AllSet b fs.bitmap.bitarray (file.index_block ∷ array)
    pub reads : read_file block_size file.index_block (length dump) fs.blocks ≡ dump

  -- The files are those of the dumps, in their order.
  abbrev pub Archive : Filesystem A → List Metadata → List NamedDump → Type 0
  Archive fs [] [] = Unit {0}
  Archive fs [] (dump ∷ dumps) = ⊥
  Archive fs (file ∷ files) [] = ⊥
  Archive fs (file ∷ files) ((name, dump) ∷ dumps) =
      Holds fs file name dump × Archive fs files dumps

  AllSet-kept :
      (a a' : A) (ps : List ℕ)
      → ((j : ℕ) → b.test_bit a j ≡ true → b.test_bit a' j ≡ true)
      → AllSet b a ps
      → AllSet b a' ps
  AllSet-kept a a' [] h s = tt
  AllSet-kept a a' (p ∷ ps) h s = (h p s.0, AllSet-kept a a' ps h s.1)

  -- Bytes in blocks that are taken stay.
  abbrev Keeps : Filesystem A → Filesystem A → Type 0
  Keeps fs fs' =
      ((j : ℕ) → b.test_bit fs.bitmap.bitarray j ≡ true → b.test_bit fs'.bitmap.bitarray j ≡ true)
      × ((j n : ℕ)
          → n ≤ block_size
          → b.test_bit fs.bitmap.bitarray j ≡ true
          → region fs'.blocks (block_size * j) n ≡ region fs.blocks (block_size * j) n)

  contents-kept :
      (fs fs' : Filesystem A) (ps : List ℕ) (size : ℕ)
      → Keeps fs fs'
      → AllSet b fs.bitmap.bitarray ps
      → contents block_size ps size fs'.blocks ≡ contents block_size ps size fs.blocks
  unfolding contents
  contents-kept fs fs' [] size k s = refl
  contents-kept fs fs' (p ∷ ps) size k s = rw (
    k.1 p (min block_size size) (omega arith) s.0,
    contents-kept fs fs' ps (size - block_size) k s.1,
  )

  Holds-kept :
      (fs fs' : Filesystem A) (file : Metadata) (name dump : List ℕ)
      → Keeps fs fs'
      → Holds fs file name dump
      → Holds fs' file name dump
  Holds-kept fs fs' file name dump k h =
      let same : pointers_of block_size file.index_block (length dump) fs'.blocks
          ≡ file.index_block ∷ h.array =
        ap (read_pointers (blocks_for block_size (length dump)))
          (k.1 file.index_block (blocks_for block_size (length dump) * 4) h.room h.occupied.0)
        ∙ h.pointers in
      record {
        named = h.named;
        size = h.size;
        room = h.room;
        array = h.array;
        pointers = same;
        occupied =
            AllSet-kept fs.bitmap.bitarray fs'.bitmap.bitarray (file.index_block ∷ h.array) k.0
              h.occupied;
        reads =
            ap (λ ps. contents block_size (drop 1 ps) (length dump) fs'.blocks) same
            ∙ contents-kept fs fs' h.array (length dump) k h.occupied.1
            ∙ ap (λ ps. contents block_size (drop 1 ps) (length dump) fs.blocks) (sym h.pointers)
            ∙ h.reads;
      }

  pub Archive-kept :
      (fs fs' : Filesystem A) (files : List Metadata) (dumps : List NamedDump)
      → Keeps fs fs'
      → Archive fs files dumps
      → Archive fs' files dumps
  Archive-kept fs fs' [] [] k a = tt
  Archive-kept fs fs' [] (dump ∷ dumps) k a = a
  Archive-kept fs fs' (file ∷ files) [] k a = a
  Archive-kept fs fs' (file ∷ files) ((name, dump) ∷ dumps) k a =
      (Holds-kept fs fs' file name dump k a.0, Archive-kept fs fs' files dumps k a.1)

  pub Archive-others :
      (fs : Filesystem A) (name : List ℕ) (files : List Metadata) (dumps : List NamedDump)
      → Archive fs files dumps
      → Archive fs (without name files) (other_dumps name dumps)
  unfolding without
  Archive-others fs name [] [] a = tt
  Archive-others fs name [] (dump ∷ dumps) a = absurd a
  Archive-others fs name (file ∷ files) [] a = absurd a
  Archive-others fs name (file ∷ files) ((title, dump) ∷ dumps) a =
      let rest = Archive-others fs name files dumps a.1 in
      let same : same_text file.filename name ≡ same_text title name =
        ap (λ k. same_text k name) a.0.named in
      elim (Bool-cases (same_text title name)) [
        | inl e ↦ rw (same, e) rest
        | inr e ↦ rw (same, e) (a.0, rest)
      ]

  abbrev pub left_files : Bool → List ℕ → List Metadata → List Metadata
  left_files true filename files = without filename files
  left_files false filename files = files

  pub Archive-left :
      (fs : Filesystem A) (made : Bool) (name : List ℕ) (files : List Metadata)
      (dumps : List NamedDump)
      → Archive fs files dumps
      → Archive fs (left_files made name files) (left_over made name dumps)
  Archive-left fs true name files dumps a = Archive-others fs name files dumps a
  Archive-left fs false name files dumps a = a
