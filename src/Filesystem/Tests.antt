-- ===== src/Filesystem/Tests.antt =====
-- The theorems on the file system at concrete states.
use so_tp_2024_2c_the_last_o.Prelude.{
  ℕ, ◌+◌, ◌≡◌, ◌≢◌, refl, Bool, true, Option, none, some, ◌≤◌, List, [], ◌∷◌, ◌++◌, false, arith,
  ◌==◌, if◌then◌else◌,
}
use so_tp_2024_2c_the_last_o.Prelude.Int.{ℤ, pos, negsuc}
use so_tp_2024_2c_the_last_o.Prelude.Buffer.{write_at}
use so_tp_2024_2c_the_last_o.Serialize.Bytes.{to_bytes}
use so_tp_2024_2c_the_last_o.Payload.Defs.{sub_size}
use so_tp_2024_2c_the_last_o.Filesystem.Bitmap.{
  Bitarray, free_blocks_loop, set_bits_loop, set_bits_bitmap,
}
use so_tp_2024_2c_the_last_o.Filesystem.Dump.{
  Metadata, MetadataCalls, without, Filesystem, bitmap_init, dump_memory, store, store_loop,
}
use so_tp_2024_2c_the_last_o.Filesystem.Allocation.{
  zeros, Allocated, set_bits_loop-Allocated, free_blocks_loop-zeros,
}
use so_tp_2024_2c_the_last_o.Filesystem.Placing.{Valid, bitmap_init-Valid, Room}
use so_tp_2024_2c_the_last_o.Filesystem.Service.{
  Complete, Accepted, Refused, dump_memory-Accepted, dump_memory-Refused,
}
use so_tp_2024_2c_the_last_o.Prelude.Text.{same_text}
use so_tp_2024_2c_the_last_o.Filesystem.Keeping.{DumpRequest}
use so_tp_2024_2c_the_last_o.Filesystem.Archive.{serve_dumps, Archived, serve_dumps-Archived}

-- A bit array as the function that bitarray_test_bit reads off it.
abbrev pub bit_set : (ℕ → Bool) → ℕ → ℕ → Bool
bit_set a i j = if i == j then true else a j

pub bit_set_same : (a : ℕ → Bool) (i : ℕ) → bit_set a i i ≡ true
bit_set_same a i = ground arith

pub bit_set_other : (a : ℕ → Bool) (i j : ℕ) → i ≢ j → bit_set a i j ≡ a j
bit_set_other a i j h = ground (arith, h)

abbrev pub bit_functions : (bits : ℕ) → Bitarray (ℕ → Bool) bits
bit_functions bits = record {
  test_bit = λ a i. a i;
  set_bit = bit_set;
  set_same = λ a i h. bit_set_same a i;
  set_other = bit_set_other;
}

-- Six blocks of 32 bytes, of which the second is taken.
abbrev eight : List ℕ
eight = 0 ∷ (0 ∷ (0 ∷ (0 ∷ (0 ∷ (0 ∷ (0 ∷ (0 ∷ [])))))))

abbrev block : List ℕ
block = eight ++ (eight ++ (eight ++ eight))

abbrev six_blocks : List ℕ
six_blocks = block ++ (block ++ (block ++ (block ++ (block ++ block))))

abbrev pub second_taken : ℕ → Bool
second_taken i = i == 1

abbrev pub started : Filesystem (ℕ → Bool)
started = bitmap_init 32 6 (bit_functions 8) second_taken six_blocks []

pub started-Valid : Valid 32 6 (bit_functions 8) started
started-Valid = bitmap_init-Valid 32 6 (bit_functions 8) second_taken six_blocks [] refl

abbrev pub five_bytes : List ℕ
five_bytes = 10 ∷ (20 ∷ (30 ∷ (40 ∷ (50 ∷ []))))

abbrev pub core_txt : List ℕ
core_txt = 99 ∷ []

abbrev pub all_through : MetadataCalls
all_through = record {
  path_made = true;
  opened = true;
  config_made = true;
  values_made = true;
  saved = true;
}

pub all_through-Complete : Complete all_through
all_through-Complete = record {
  path = refl;
  opens = refl;
  config = refl;
  values = refl;
  saves = refl;
}

-- Three dumps of one name, for the last of which config_create fails where it comes so far.
abbrev request_with : MetadataCalls → DumpRequest
request_with calls = record { calls = calls; filename = core_txt; dump = five_bytes }

abbrev one_request : List DumpRequest
one_request = request_with (record all_through { config_made = false }) ∷ []

abbrev requests : List DumpRequest
requests = request_with all_through ∷ (request_with all_through ∷ one_request)

abbrev results_of : Option (List (Option ℤ) × Filesystem (ℕ → Bool)) → List (Option ℤ)
results_of none = []
results_of (some (results, fs)) = results

abbrev names_of : List Metadata → List (List ℕ)
names_of [] = []
names_of (file ∷ files) = file.filename ∷ names_of files

abbrev files_of : Option (List (Option ℤ) × Filesystem (ℕ → Bool)) → List (List ℕ)
files_of none = []
files_of (some (results, fs)) = names_of fs.files

two_dumps :
    results_of (serve_dumps 32 6 (bit_functions 8) requests started)
    ≡ some (pos 0) ∷ (some (pos 0) ∷ (some (negsuc 0) ∷ []))
unfolding serve_dumps dump_memory store store_loop set_bits_loop free_blocks_loop sub_size to_bytes
    write_at without same_text
two_dumps = refl

replaced :
    files_of (
      serve_dumps 32 6
        (bit_functions 8)
        (request_with all_through ∷ (request_with all_through ∷ []))
        started)
    ≡ core_txt ∷ []
unfolding serve_dumps dump_memory store store_loop set_bits_loop free_blocks_loop sub_size to_bytes
    write_at without same_text
replaced = refl

emptied :
    files_of (serve_dumps 32 6 (bit_functions 8) (request_with all_through ∷ one_request) started)
    ≡ []
unfolding serve_dumps dump_memory store store_loop set_bits_loop free_blocks_loop sub_size to_bytes
    write_at without same_text
emptied = refl

started_count : started.bitmap.free_blocks ≡ 5
unfolding free_blocks_loop
started_count = refl

started_clear : 2 ≤ zeros (bit_functions 8) 4 0 second_taken
unfolding zeros
started_clear = omega arith

pub started-Room : Room 32 6 (bit_functions 8) five_bytes started
started-Room = (omega arith, omega (arith, started_count))

serve_dumps_example : Archived 32 6 (bit_functions 8) requests started []
serve_dumps_example =
    serve_dumps-Archived 32 6 (bit_functions 8) requests started [] (omega arith) (omega arith)
      (
        (λ h. absurd (omega (arith, h))),
        refl,
        refl,
        (
          (λ h. absurd (omega (arith, h))),
          refl,
          refl,
          ((λ h. absurd (omega (arith, h))), refl, refl, tt),
        ),
      )
      started-Valid tt

dump_memory_example :
    Accepted 32 6
      (bit_functions 8)
      core_txt
      five_bytes
      started
      (dump_memory 32 6 (bit_functions 8) all_through core_txt five_bytes started)
dump_memory_example =
    dump_memory-Accepted 32 6 (bit_functions 8) all_through core_txt five_bytes started
      all_through-Complete (omega arith) (omega arith) started-Valid started-Room
      (λ h. absurd (omega (arith, h)))

too_large_example :
    Refused 32 6
      (bit_functions 8)
      started
      (dump_memory 32 6 (bit_functions 8) all_through core_txt six_blocks started)
too_large_example =
    dump_memory-Refused 32 6 (bit_functions 8) all_through core_txt six_blocks started
      (λ h. absurd (omega (arith, h.1, started_count)))

set_bits_example :
    Allocated
      (bit_functions 8)
      0
      (0 + 4)
      2
      started.bitmap
      (set_bits_bitmap (bit_functions 8) 2 started.bitmap)
set_bits_example =
    set_bits_loop-Allocated (bit_functions 8) 8 4 0 2 started.bitmap (omega arith) (omega arith)
      (omega arith) started_clear (omega (arith, started_count)) (omega (arith, started_count))

free_blocks_example :
    free_blocks_loop (bit_functions 8) 4 0 second_taken 0
    ≡ 0 + zeros (bit_functions 8) 4 0 second_taken
free_blocks_example = free_blocks_loop-zeros (bit_functions 8) 4 0 second_taken 0
