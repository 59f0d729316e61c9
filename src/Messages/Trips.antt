-- ===== src/Messages/Trips.antt =====
-- Messages of src/utils/src/utils/send.c from one module to the other, and a dump on its way from the
-- memory module into the files of the file system.
use so_tp_2024_2c_the_last_o.Prelude.{
  ℕ, ◌+◌, ◌^◌, ◌≤◌, ◌<◌, ◌≡◌, ◌≢◌, refl, ap, ◌∙◌, Bool, true, false, Option, none, some, List, [],
  ◌∷◌, ◌++◌, arith, length, length-append, ◌==◌, if◌then◌else◌,
}
use so_tp_2024_2c_the_last_o.Payload.Defs.{M, Realloc, ◌>>=◌, ◌>>◌, pure}
use so_tp_2024_2c_the_last_o.Payload.Cursor.{Reallocs, Grants}
use so_tp_2024_2c_the_last_o.Serialize.Bytes.{to_bytes, length-to_bytes, int8_to_byte}
use so_tp_2024_2c_the_last_o.Serialize.Blocks.{text_serialize, data_serialize, data_deserialize}
use so_tp_2024_2c_the_last_o.Serialize.Transfer.{Writes, Reads, Writes-then, Reads-then, Reads-map}
use so_tp_2024_2c_the_last_o.Serialize.BlockTrip.{
  block_bytes, terminated, data-Writes, data-Reads, text-Writes, text-Reads,
}
use so_tp_2024_2c_the_last_o.Serialize.RoundTrip.{result-Writes, result-Reads}
use so_tp_2024_2c_the_last_o.Serialize.Scalars.{result_serialize, result_deserialize}
use so_tp_2024_2c_the_last_o.Prelude.Int.{ℤ, pos, negsuc, ◌≤ℤ◌}
use so_tp_2024_2c_the_last_o.Messages.Packages.{
  Header, dump_memory_header, Send, send_with, Recv, receive_with,
}
use so_tp_2024_2c_the_last_o.Messages.Sending.{
  send_dump_memory, receive_dump_memory, read_dump, send_result_with_header,
  receive_result_with_expected_header,
}
use so_tp_2024_2c_the_last_o.Messages.Delivery.{
  wire_bytes, SendsAll, Delivers, send_with-wire, receive_with-wire,
}
use so_tp_2024_2c_the_last_o.Filesystem.Bitmap.{Bitarray, bitmap_bits}
use so_tp_2024_2c_the_last_o.Filesystem.Dump.{
  MetadataCalls, Filesystem, Dumped, dump_memory, data_blocks, pointers_per_block,
}
use so_tp_2024_2c_the_last_o.Filesystem.Placing.{Valid, Room}
use so_tp_2024_2c_the_last_o.Filesystem.Service.{Complete, Accepted, dump_memory-Accepted}

-- What is sent is received, with nothing left on the socket.
pub record Delivered {A : Type 0} (sent : Option (List ℕ)) (receives : List ℕ → Option (A × List ℕ))
    (a : A) : Type 0 where
  pub wire : List ℕ
  pub goes : sent ≡ some wire
  pub comes : receives wire ≡ some (a, [])

-- The characters of a C string up to its NUL.
unfoldable pub c_string : List ℕ → List ℕ
c_string [] = []
c_string (c ∷ cs) = let rest = c_string cs in if c == 0 then [] else c ∷ rest

abbrev pub NoNul : List ℕ → Type 0
NoNul [] = Unit {0}
NoNul (c ∷ cs) = (c ≢ 0) × NoNul cs

c_string-terminated : (text : List ℕ) → NoNul text → c_string (terminated text) ≡ text
unfolding c_string
c_string-terminated [] h = refl
c_string-terminated (c ∷ cs) h =
    let e : (c == 0) ≡ false = ground (arith, h.0) in rw e (ap (◌∷◌ c) (c_string-terminated cs h.1))

module _ (realloc : Realloc) (laws : Reallocs realloc) (grants : Grants realloc) (send : Send)
    (sends : SendsAll send) (recv : Recv) (malloc : ℕ → Bool) (delivers : Delivers recv)
    (memory : (n : ℕ) → malloc n ≡ true) where
  -- When realloc and malloc grant all blocks, send takes all the bytes it is given and recv hands
  -- over what is asked for, a package whose payload is written by any calls, of fewer than 2 ^ 32
  -- bytes, is sent, and on the other side the same header is found and calls that read those bytes
  -- give their value, with nothing left on the socket.
  pub package-Delivered :
      {A : Type 0} (header : Header) (w : M (Unit {0})) (r : M A) (bytes : List ℕ) (a : A)
      → Writes w bytes
      → Reads r bytes a
      → length bytes < 2 ^ 32
      → Delivered (send_with realloc send header w) (receive_with recv malloc header r) a
  package-Delivered header w r bytes a writes reads small = record {
    wire = wire_bytes header bytes;
    goes =
        send_with-wire realloc laws grants send sends header w bytes writes (omega (arith, small));
    comes = receive_with-wire recv malloc delivers memory header r bytes a reads small;
  }

  -- A result, as the answer to a dump.
  pub result-Delivered :
      (header : Header) (x : ℤ)
      → negsuc 127 ≤ℤ x
      → x ≤ℤ pos 127
      → Delivered
          (send_result_with_header realloc malloc send header x)
          (receive_result_with_expected_header realloc malloc recv header)
          x
  result-Delivered header x lo hi =
      package-Delivered header (result_serialize realloc x) (result_deserialize realloc)
        (to_bytes 1 (int8_to_byte x)) x (result-Writes realloc laws grants x lo hi)
        (result-Reads realloc laws grants x lo hi)
        (omega (arith, length-to_bytes 1 (int8_to_byte x)))

  pub dump_memory-Delivered :
      (filename dump : List ℕ)
      → 0 < length dump
      → length filename + length dump + 9 < 2 ^ 32
      → Delivered
          (send_dump_memory realloc malloc send (some filename) (some dump) (length dump))
          (receive_dump_memory realloc malloc recv)
          (some (terminated filename), some dump)
  dump_memory-Delivered filename dump some_bytes small =
      let name : List ℕ = terminated filename in
      let l0 = length-append filename (0 ∷ []) in
      let l1 = length-append (to_bytes 4 (length name)) name in
      let l2 = length-append (to_bytes 4 (length dump)) dump in
      let l3 = length-append (block_bytes name) (block_bytes dump) in
      let l4 = length-to_bytes 4 (length name) in
      let l5 = length-to_bytes 4 (length dump) in
      package-Delivered dump_memory_header
        (text_serialize realloc malloc (some filename)
          >> data_serialize realloc malloc (some dump) (length dump))
        (read_dump realloc malloc recv) (block_bytes name ++ block_bytes dump)
        (some name, some dump)
        (Writes-then (text-Writes realloc malloc laws grants memory filename (omega (arith, small)))
          (data-Writes realloc malloc laws grants memory dump some_bytes (omega (arith, small))))
        (Reads-then (λ text. data_deserialize realloc malloc >>= λ block. pure (text, block))
          (text-Reads realloc malloc laws grants memory filename (omega (arith, small)))
          (Reads-map (λ block. (some name, block))
            (data-Reads realloc malloc laws grants memory dump some_bytes (omega (arith, small)))))
        (omega (arith, small, l0, l1, l2, l3, l4, l5))

module _ {A : Type 0} (block_size block_count : ℕ) (b : Bitarray A (bitmap_bits block_count)) where
  -- The request of the memory module as filesystem_client_handler_for_memory receives it; without a
  -- value the thread that serves the client ends.
  abbrev pub stored_as :
      MetadataCalls
      → Filesystem A
      → Option ((Option (List ℕ) × Option (List ℕ)) × List ℕ)
      → Option (Dumped A)
  stored_as calls fs none = none
  stored_as calls fs (some ((none, dump), wire)) = none
  stored_as calls fs (some ((some filename, none), wire)) =
      some (dump_memory block_size block_count b calls (c_string filename) [] fs)
  stored_as calls fs (some ((some filename, some dump), wire)) =
      some (dump_memory block_size block_count b calls (c_string filename) dump fs)

  module _ (realloc : Realloc) (laws : Reallocs realloc) (grants : Grants realloc) (send : Send)
      (sends_all : SendsAll send) (recv : Recv) (malloc : ℕ → Bool) (delivers : Delivers recv)
      (memory : (n : ℕ) → malloc n ≡ true) where
    -- A dump that arrives and is stored.
    pub record Archived (calls : MetadataCalls) (filename dump : List ℕ) (fs : Filesystem A)
        : Type 0 where
      pub wire : List ℕ
      pub goes :
          send_dump_memory realloc malloc send (some filename) (some dump) (length dump) ≡ some wire
      pub answer : Dumped A
      pub comes : stored_as calls fs (receive_dump_memory realloc malloc recv wire) ≡ some answer
      pub accepted : Accepted block_size block_count b filename dump fs answer

    -- When realloc and malloc grant all blocks, send takes and recv hands over all bytes, and all the
    -- library calls for the metadata file come through, a dump that the memory module sends under a
    -- name without NUL, of at least one byte and below 2 ^ 32 bytes with its name and their sizes,
    -- arrives at the file system, and, in a valid state with blocks of at least 32 bytes, at most
    -- 2 ^ 32 blocks, room within both limits and other than exactly as many data blocks as an index
    -- block has pointers, it is stored under that name as a file that reads back as the dump.
    pub dump_memory-Archived :
        (calls : MetadataCalls) (filename dump : List ℕ) (fs : Filesystem A)
        → Complete calls
        → NoNul filename
        → 0 < length dump
        → length filename + length dump + 9 < 2 ^ 32
        → 32 ≤ block_size
        → block_count ≤ 2 ^ 32
        → Valid block_size block_count b fs
        → Room block_size block_count b dump fs
        → data_blocks block_size (length dump) ≢ pointers_per_block block_size
        → Archived calls filename dump fs
    dump_memory-Archived calls filename dump fs done clean some_bytes small positive word v room
          edge =
        let d =
          dump_memory-Delivered realloc laws grants send sends_all recv malloc delivers memory
            filename dump some_bytes small in
        record {
          wire = d.wire;
          goes = d.goes;
          answer = dump_memory block_size block_count b calls filename dump fs;
          comes =
              ap (stored_as calls fs) d.comes
              ∙ ap (λ name. some (dump_memory block_size block_count b calls name dump fs))
                  (c_string-terminated filename clean);
          accepted =
              dump_memory-Accepted block_size block_count b calls filename dump fs done positive
                word v room edge;
        }
