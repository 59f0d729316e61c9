-- ===== src/Messages/Dumping.antt =====
-- A dump through the three modules that serve it: attend_dump_memory of
-- src/memoria/src/client_kernel.c, the messages of src/utils/src/utils/send.c and
-- filesystem_client_handler_for_memory of src/filesystem/src/filesystem.c.
use so_tp_2024_2c_the_last_o.Prelude.{
  ℕ, ◌+◌, ◌^◌, ◌≤◌, ◌<◌, ◌≡◌, ◌≢◌, sym, ap, ◌∙◌, Bool, true, Option, none, some, List, arith,
  length,
}
use so_tp_2024_2c_the_last_o.Prelude.Int.{ℤ, pos}
use so_tp_2024_2c_the_last_o.Payload.Defs.{Realloc}
use so_tp_2024_2c_the_last_o.Payload.Cursor.{Reallocs, Grants}
use so_tp_2024_2c_the_last_o.Messages.Packages.{dump_memory_header, Send, Recv}
use so_tp_2024_2c_the_last_o.Messages.Sending.{
  send_dump_memory, receive_dump_memory, send_result_with_header,
  receive_result_with_expected_header,
}
use so_tp_2024_2c_the_last_o.Messages.Delivery.{SendsAll, Delivers}
use so_tp_2024_2c_the_last_o.Messages.Trips.{
  result-Delivered, NoNul, stored_as, Archived, dump_memory-Archived,
}
use so_tp_2024_2c_the_last_o.Memory.Types.{MemoryThread, MemoryProcess, Memory}
use so_tp_2024_2c_the_last_o.Memory.Processes.{replies}
use so_tp_2024_2c_the_last_o.Memory.UserSpace.{found, access}
use so_tp_2024_2c_the_last_o.Memory.Invariant
use so_tp_2024_2c_the_last_o.Memory.Dumping.{
  Exchange, dump_name, passed_on, process_bytes, attend_dump_memory, attend_dump_memory-asks,
}
use so_tp_2024_2c_the_last_o.Filesystem.Bitmap.{Bitarray, bitmap_bits}
use so_tp_2024_2c_the_last_o.Filesystem.Dump.{
  MetadataCalls, Filesystem, Dumped, sends, thread_ends, undefined, data_blocks, pointers_per_block,
}
use so_tp_2024_2c_the_last_o.Filesystem.Placing.{Valid, Room}
use so_tp_2024_2c_the_last_o.Filesystem.Service.{Complete}

module _ {A : Type 0} (block_size block_count : ℕ) (b : Bitarray A (bitmap_bits block_count))
    (realloc : Realloc) (laws : Reallocs realloc) (grants : Grants realloc) (send : Send)
    (sends_all : SendsAll send) (recv : Recv) (malloc : ℕ → Bool) (delivers : Delivers recv)
    (memory : (n : ℕ) → malloc n ≡ true) where
  abbrev returned : Option (ℤ × List ℕ) → Option ℤ
  returned none = none
  returned (some (result, wire)) = some result

  -- The result on its way back.
  abbrev sent_back : Option (List ℕ) → Option ℤ
  sent_back none = none
  sent_back (some wire) =
      returned (receive_result_with_expected_header realloc malloc recv dump_memory_header wire)

  abbrev result_of : Option (Dumped A) → Option ℤ
  result_of none = none
  result_of (some undefined) = none
  result_of (some (thread_ends fs)) = none
  result_of (some (sends result fs)) =
      sent_back (send_result_with_header realloc malloc send dump_memory_header result)

  abbrev answered : MetadataCalls → Filesystem A → Option (List ℕ) → Option ℤ
  answered calls fs none = none
  answered calls fs (some wire) =
      result_of
        (stored_as block_size block_count b calls fs (receive_dump_memory realloc malloc recv wire))

  -- What the file system answers in the state `fs` to a dump that is sent to it.
  abbrev pub file_system : MetadataCalls → Filesystem A → Exchange
  file_system calls fs filename dump =
      answered calls fs
        (send_dump_memory realloc malloc send (some filename) (some dump) (length dump))

  answers :
      (calls : MetadataCalls) (filename dump : List ℕ) (fs : Filesystem A)
      → Archived block_size block_count b realloc laws grants send sends_all recv malloc delivers
          memory calls filename dump fs
      → file_system calls fs filename dump ≡ some (pos 0)
  answers calls filename dump fs a =
      let d =
        result-Delivered realloc laws grants send sends_all recv malloc delivers memory
          dump_memory_header (pos 0) (omega arith) (omega arith) in
      ap (answered calls fs) a.goes
      ∙ ap result_of a.comes
      ∙ ap (λ r. result_of (some r)) a.accepted.result
      ∙ ap sent_back d.goes
      ∙ ap returned d.comes

  -- In a valid state of a memory that holds the partitions, for a live thread of a process of at
  -- least one byte, and in a valid state of the file system with blocks of at least 32 bytes, at
  -- most 2 ^ 32 blocks, room within both limits and other than exactly as many data blocks as an
  -- index block has pointers: when string_from_format and temporal_get_string_time give texts
  -- without NUL, realloc and malloc grant all blocks, send takes and recv hands over all bytes,
  -- all the library calls for the metadata file come through, and the name, the process and their
  -- sizes stay below 2 ^ 32 bytes, attend_dump_memory answers the kernel with 0 and leaves the
  -- memory as it is, and the bytes of the process, sent to the file system, are stored under the
  -- name made of the ids, the time and .dmp as a file that reads back as those bytes; the 0 is the
  -- result that the file system sends back.
  pub attend_dump_memory-Archived :
      (total pid tid : ℕ) (ids time : List ℕ) (m : Memory) (q : MemoryProcess)
      (thread : MemoryThread) (calls : MetadataCalls) (fs : Filesystem A)
      → Complete calls
      → Invariant.Valid total m
      → total ≤ length m.main_memory
      → access pid tid m ≡ found q thread
      → NoNul (dump_name ids time)
      → 0 < q.size
      → length (dump_name ids time) + q.size + 9 < 2 ^ 32
      → 32 ≤ block_size
      → block_count ≤ 2 ^ 32
      → Valid block_size block_count b fs
      → Room block_size block_count b (process_bytes m q) fs
      → data_blocks block_size q.size ≢ pointers_per_block block_size
      → (attend_dump_memory (some ids) (some time) (file_system calls fs) pid tid m
          ≡ replies (pos 0) m)
        × Archived block_size block_count b realloc laws grants send sends_all recv malloc delivers
            memory calls
            (dump_name ids time)
            (process_bytes m q)
            fs
  attend_dump_memory-Archived total pid tid ids time m q thread calls fs done v fits e clean
        some_bytes small positive word valid room edge =
      let name = dump_name ids time in
      let dump = process_bytes m q in
      let (asks, size) =
        attend_dump_memory-asks total pid tid ids time (file_system calls fs) m q thread v fits e in
      let stored =
        dump_memory-Archived block_size block_count b realloc laws grants send sends_all recv malloc
          delivers memory calls name dump fs done clean (omega (arith, some_bytes, size))
          (omega (arith, small, size)) positive word valid room
          (λ full. edge (ap (data_blocks block_size) (sym size) ∙ full)) in
      (asks ∙ ap (passed_on m) (answers calls name dump fs stored), stored)
