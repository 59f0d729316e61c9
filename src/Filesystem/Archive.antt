-- ===== src/Filesystem/Archive.antt =====
-- The file system over many requests: filesystem_client_handler_for_memory of
-- src/filesystem/src/filesystem.c for one dump after the other.
use mathlib.Core.Path.{subst}
use native.Mathlib.Decide.{dec_le}
use so_tp_2024_2c_the_last_o.Prelude.{
  ℕ, ◌*◌, ◌^◌, ◌≤◌, ◌≡◌, ◌≢◌, refl, sym, ap, ◌∙◌, ◌⊎◌, inl, inr, true, Bool-cases, Option, none,
  some, List, [], ◌∷◌, arith, length,
}
use so_tp_2024_2c_the_last_o.Prelude.Int.{ℤ, pos, negsuc}
use so_tp_2024_2c_the_last_o.Filesystem.Bitmap.{Bitarray, bitmap_bits}
use so_tp_2024_2c_the_last_o.Filesystem.Dump.{
  Metadata, MetadataCalls, created, exits, without, create_metadata_file, metadata_end, Filesystem,
  pointers_per_block, data_blocks, blocks_for, Dumped, sends, thread_ends, undefined, dump_memory,
}
use so_tp_2024_2c_the_last_o.Filesystem.Placing.{Valid, Placed, Room, dump_memory-Placed}
use so_tp_2024_2c_the_last_o.Filesystem.Service.{Accepted, Placed-Accepted, dump_memory-Refused}
use so_tp_2024_2c_the_last_o.Filesystem.Keeping.{
  DumpRequest, NamedDump, other_dumps, left_over, stored_dumps, Archive, Archive-kept,
  Archive-others, Archive-left, left_files,
}

module _ {A : Type 0} (block_size block_count : ℕ) (b : Bitarray A (bitmap_bits block_count)) where
  abbrev pub with_result :
      Option ℤ → Option (List (Option ℤ) × Filesystem A) → Option (List (Option ℤ) × Filesystem A)
  with_result result none = none
  with_result result (some (results, fs)) = some (result ∷ results, fs)

  -- The results that are sent, none where the thread of the request ends before, and the state after
  -- the requests.
  unfoldable pub serve_dumps :
      List DumpRequest → Filesystem A → Option (List (Option ℤ) × Filesystem A)
  unfolding dump_memory
  serve_dumps [] fs = some ([], fs)
  serve_dumps (request ∷ requests) fs =
      elim (dump_memory block_size block_count b request.calls request.filename request.dump fs) [
        | undefined ↦ none
        | thread_ends fs' ↦ with_result none (serve_dumps requests fs')
        | sends result fs' ↦ with_result (some result) (serve_dumps requests fs')
      ]

  -- No dump fills all the pointers of an index block, and no NULL of fopen or string_from_format is
  -- used for a metadata file.
  abbrev pub Sound : List DumpRequest → Type 0
  Sound [] = Unit {0}
  Sound (request ∷ requests) =
      (data_blocks block_size (length request.dump) ≢ pointers_per_block block_size)
      × (request.calls.opened ≡ true)
      × (request.calls.values_made ≡ true)
      × Sound requests

  -- All the requests end, and each dump that is stored after them reads back.
  pub record Archived (requests : List DumpRequest) (fs : Filesystem A) (dumps : List NamedDump)
      : Type 0 where
    pub results : List (Option ℤ)
    pub after : Filesystem A
    pub ran : serve_dumps requests fs ≡ some (results, after)
    pub valid : Valid block_size block_count b after
    pub archive :
        Archive block_size block_count b after after.files (stored_dumps requests results dumps)

  -- The request as dump_memory sees it.
  abbrev dumped : DumpRequest → Filesystem A → Dumped A
  dumped request fs =
      dump_memory block_size block_count b request.calls request.filename request.dump fs

  serve_dumps-next :
      (request : DumpRequest) (requests : List DumpRequest) (fs fs' : Filesystem A) (result : ℤ)
      → dumped request fs ≡ sends result fs'
      → serve_dumps (request ∷ requests) fs ≡ with_result (some result) (serve_dumps requests fs')
  unfolding serve_dumps
  serve_dumps-next request requests fs fs' result e = rw (e, serve_dumps)

  serve_dumps-ended :
      (request : DumpRequest) (requests : List DumpRequest) (fs fs' : Filesystem A)
      → dumped request fs ≡ thread_ends fs'
      → serve_dumps (request ∷ requests) fs ≡ with_result none (serve_dumps requests fs')
  unfolding serve_dumps
  serve_dumps-ended request requests fs fs' e = rw (e, serve_dumps)

  Accepted-Archive :
      (request : DumpRequest) (fs : Filesystem A) (r : Dumped A) (dumps : List NamedDump)
      → blocks_for block_size (length request.dump) * 4 ≤ block_size
      → Archive block_size block_count b fs fs.files dumps
      → (a : Accepted block_size block_count b request.filename request.dump fs r)
      → Archive block_size block_count b a.after a.after.files
          ((request.filename, request.dump) ∷ other_dumps request.filename dumps)
  Accepted-Archive request fs r dumps room archive a =
      subst
        (λ files.
          Archive block_size block_count b a.after files
            ((request.filename, request.dump) ∷ other_dumps request.filename dumps))
        (sym a.listed)
        (
          record {
            named = refl;
            size = refl;
            room = room;
            array = a.array;
            pointers = a.pointers;
            occupied = a.occupied;
            reads = a.reads;
          },
          Archive-others block_size block_count b a.after request.filename fs.files dumps (
              Archive-kept block_size block_count b fs a.after fs.files dumps
                (a.kept_bits, a.kept_blocks) archive),
        )

  -- A request that ends without an answer leaves a valid state and the files that it did not empty.
  pub record Abandoned (request : DumpRequest) (fs : Filesystem A) (r : Dumped A)
      (dumps : List NamedDump) : Type 0 where
    pub after : Filesystem A
    pub result : r ≡ thread_ends after
    pub valid : Valid block_size block_count b after
    pub archive :
        Archive block_size block_count b after after.files
          (left_over request.calls.path_made request.filename dumps)

  -- The two ends of the metadata file where no NULL is used.
  creation-cases :
      (calls : MetadataCalls) (filename : List ℕ) (size index : ℕ) (files : List Metadata)
      → calls.opened ≡ true
      → calls.values_made ≡ true
      → (create_metadata_file calls filename size index files
          ≡ created (
              record { filename = filename; size = size; index_block = index }
              ∷ without filename files))
        ⊎ (create_metadata_file calls filename size index files
            ≡ exits (left_files block_size block_count b calls.path_made filename files))
  creation-cases calls filename size index files opens values = elim (Bool-cases calls.path_made) [
    | inr e ↦ inr (rw e refl)
    | inl e ↦ elim (Bool-cases calls.config_made) [
      | inr c ↦ inr (rw (e, opens, c) refl)
      | inl c ↦ elim (Bool-cases calls.saved) [
        | inr k ↦ inr (rw (e, opens, c, values, k) refl)
        | inl k ↦ inl (rw (e, opens, c, values, k) refl)
      ]
    ]
  ]

  Placed-Abandoned :
      (request : DumpRequest) (fs : Filesystem A) (r : Dumped A) (dumps : List NamedDump)
      → Archive block_size block_count b fs fs.files dumps
      → (p : Placed block_size block_count b request.calls request.filename request.dump fs r)
      → create_metadata_file request.calls request.filename (length request.dump) p.index fs.files
        ≡ exits
            (left_files block_size block_count b request.calls.path_made request.filename fs.files)
      → Abandoned request fs r dumps
  Placed-Abandoned request fs r dumps archive p e =
      let files : List Metadata =
        left_files block_size block_count b request.calls.path_made request.filename fs.files in
      let after : Filesystem A = record p.after { files = files } in
      let kept =
        Archive-kept block_size block_count b fs after fs.files dumps (p.kept_bits, p.kept_blocks)
          archive in
      record {
        after = after;
        result = p.result ∙ ap (metadata_end block_size block_count b p.after) e;
        valid = record { counted = p.valid.counted; mapped = p.valid.mapped };
        archive =
            Archive-left block_size block_count b after request.calls.path_made request.filename
              fs.files dumps kept;
      }

  -- What a request with room comes to.
  Room-ends :
      (request : DumpRequest) (fs : Filesystem A) (dumps : List NamedDump)
      → 32 ≤ block_size
      → block_count ≤ 2 ^ 32
      → data_blocks block_size (length request.dump) ≢ pointers_per_block block_size
      → request.calls.opened ≡ true
      → request.calls.values_made ≡ true
      → Valid block_size block_count b fs
      → Archive block_size block_count b fs fs.files dumps
      → Room block_size block_count b request.dump fs
      → Accepted block_size block_count b request.filename request.dump fs (dumped request fs)
        ⊎ Abandoned request fs (dumped request fs) dumps
  Room-ends request fs dumps big word edge opens values v archive room =
      let p =
        dump_memory-Placed block_size block_count b request.calls request.filename request.dump fs
          big word v room edge in
      elim (creation-cases request.calls request.filename (length request.dump) p.index fs.files
        opens values) [
          | inl made ↦ inl (
              Placed-Accepted block_size block_count b request.calls request.filename request.dump
                fs (dumped request fs) p made)
          | inr ended ↦ inr (Placed-Abandoned request fs (dumped request fs) dumps archive p ended)
        ]

  Room-cases : (dump : List ℕ) (fs : Filesystem A) → Dec (Room block_size block_count b dump fs)
  Room-cases dump fs =
      elim (dec_le (data_blocks block_size (length dump)) (pointers_per_block block_size)) [
        | no h ↦ no (λ r. h r.0)
        | yes h ↦ elim (dec_le (blocks_for block_size (length dump)) fs.bitmap.free_blocks) [
          | no k ↦ no (λ r. k r.1)
          | yes k ↦ yes (h, k)
        ]
      ]

  -- With blocks of at least 32 bytes, at most 2 ^ 32 blocks, and a bit array that sets the bit
  -- asked for and no other, from a valid state whose files each hold a dump of their name in taken
  -- blocks, and for each list of requests none of which needs exactly as many data blocks as an
  -- index block has pointers or gets NULL from fopen or, for its two values, from
  -- string_from_format: every request ends with an answer or with the end of its thread, no copy
  -- goes outside the block file, the state stays valid, and the files are exactly those of the
  -- dumps that were answered with 0, before or now, less those whose name a later request wrote or
  -- emptied; each still reads back whole through its index block.
  pub serve_dumps-Archived :
      (requests : List DumpRequest) (fs : Filesystem A) (dumps : List NamedDump)
      → 32 ≤ block_size
      → block_count ≤ 2 ^ 32
      → Sound requests
      → Valid block_size block_count b fs
      → Archive block_size block_count b fs fs.files dumps
      → Archived requests fs dumps
  unfolding serve_dumps
  serve_dumps-Archived [] fs dumps big word sound v archive = record {
    results = [];
    after = fs;
    ran = refl;
    valid = v;
    archive = archive;
  }
  serve_dumps-Archived (request ∷ requests) fs dumps big word sound v archive =
      elim (Room-cases request.dump fs) [
        | yes room ↦
            elim (Room-ends request fs dumps big word sound.0 sound.1 sound.2 v archive room) [
              | inl a ↦
                  let rest =
                    serve_dumps-Archived requests a.after
                      ((request.filename, request.dump) ∷ other_dumps request.filename dumps) big
                      word sound.3 a.valid
                      (Accepted-Archive request fs (dumped request fs) dumps
                        (omega (arith, room.0, sound.0)) archive a) in
                  record {
                    results = some (pos 0) ∷ rest.results;
                    after = rest.after;
                    ran =
                        serve_dumps-next request requests fs a.after (pos 0) a.result
                        ∙ ap (with_result (some (pos 0))) rest.ran;
                    valid = rest.valid;
                    archive = rest.archive;
                  }
              | inr a ↦
                  let rest =
                    serve_dumps-Archived requests a.after
                      (left_over request.calls.path_made request.filename dumps) big word sound.3
                      a.valid a.archive in
                  record {
                    results = none ∷ rest.results;
                    after = rest.after;
                    ran =
                        serve_dumps-ended request requests fs a.after a.result
                        ∙ ap (with_result none) rest.ran;
                    valid = rest.valid;
                    archive = rest.archive;
                  }
            ]
        | no full ↦
            let rest = serve_dumps-Archived requests fs dumps big word sound.3 v archive in
            record {
              results = some (negsuc 0) ∷ rest.results;
              after = rest.after;
              ran =
                  serve_dumps-next request requests fs fs (negsuc 0) (
                    dump_memory-Refused block_size block_count b request.calls request.filename
                      request.dump fs full)
                  ∙ ap (with_result (some (negsuc 0))) rest.ran;
              valid = rest.valid;
              archive = rest.archive;
            }
      ]
