-- ===== src/Messages/Packages.antt =====
-- package_send and package_receive of src/utils/src/utils/package.c. A socket is the bytes that are
-- under way; how many of them recv hands over at a call is a parameter, and so is what send takes.
use so_tp_2024_2c_the_last_o.Prelude.{
  ℕ, ◌%◌, ◌^◌, Bool, false, ◌||◌, not, Option, none, some, List, [], ◌==◌, if◌then◌else◌, take,
  drop,
}
use so_tp_2024_2c_the_last_o.Prelude.Int.{ℤ, pos, negsuc}
use so_tp_2024_2c_the_last_o.Payload.Defs.{
  Payload, M, Result, ok, err, Realloc, ◌>>=◌, ◌>>◌, pure, fail, eio, payload_init, payload_remove,
  payload_seek, seek_set, seek_cur,
}
use so_tp_2024_2c_the_last_o.Serialize.Bytes.{of_bytes, int8_to_byte, int8_of_byte}
use so_tp_2024_2c_the_last_o.Serialize.Scalars.{add_word}

-- e_Header, in its order.
pub data Header : Type 0 where
  port_type_header thread_dispatch_header thread_eviction_header kernel_interrupt_header : Header
  process_create_header process_destroy_header thread_create_header thread_destroy_header : Header
  exec_context_request_header exec_context_update_header instruction_request_header : Header
  read_request_header write_request_header dump_memory_header : Header

unfoldable pub header_number : Header → ℕ
header_number port_type_header = 0
header_number thread_dispatch_header = 1
header_number thread_eviction_header = 2
header_number kernel_interrupt_header = 3
header_number process_create_header = 4
header_number process_destroy_header = 5
header_number thread_create_header = 6
header_number thread_destroy_header = 7
header_number exec_context_request_header = 8
header_number exec_context_update_header = 9
header_number instruction_request_header = 10
header_number read_request_header = 11
header_number write_request_header = 12
header_number dump_memory_header = 13

-- A call whose result the code does not look at.
abbrev pub ignored : M (Unit {0}) → M (Unit {0})
ignored m p = (ok tt, (m p).1)

-- The payload itself, to read its fields.
abbrev pub fields : M Payload
fields p = (ok p, p)

module _ (realloc : Realloc) where
  -- The header and the size go in front of the stream,
  unfoldable pub put_header : Header → M (Unit {0})
  put_header header = do
    ignored (payload_seek (pos 0) seek_set)
    sized ← fields
    add_word realloc 1 (int8_to_byte (pos (header_number header)))
    add_word realloc 4 (sized.size % 2 ^ 32)

  -- and are taken out again after it was sent.
  unfoldable pub take_header : M (Unit {0})
  take_header = do
    ignored (payload_seek (pos 0) seek_set)
    header_bytes ← payload_remove realloc 1
    size_bytes ← payload_remove realloc 4
    pure tt

-- What send gives for the bytes: how many of them it took, or nothing for -1.
abbrev pub Send : Type 0
Send = List ℕ → Option ℕ

-- The two checks of what send gave: -1, or another number of bytes than those of the package.
abbrev pub check_sent : List ℕ → ℕ → Option ℕ → M (List ℕ)
check_sent stream size none = fail eio
check_sent stream size (some bytes) = if bytes == size then pure stream else fail eio

module _ (realloc : Realloc) (send : Send) where
  -- The bytes that went onto the socket; those of a send that failed or fell short are not kept.
  unfoldable pub package_send : Header → M (List ℕ)
  package_send header = do
    previous ← fields
    put_header realloc header
    full ← fields
    take_header realloc
    ignored (payload_seek (pos previous.offset) seek_cur)
    check_sent full.stream full.size (send full.stream)

  abbrev pub wire_of : Result (List ℕ) × Payload → Option (List ℕ)
  wire_of (ok wire, p) = some wire
  wire_of (err e, p) = none

  -- A send function: a package with the header, filled by `w`, and sent. Without bytes it
  -- returns -1.
  abbrev pub send_with : Header → M (Unit {0}) → Option (List ℕ)
  send_with header w = wire_of ((w >> package_send header) payload_init)

-- What recv hands over of the `n` bytes asked for.
abbrev pub Recv : Type 0
Recv = ℕ → List ℕ → ℕ

module _ (recv : Recv) (malloc : ℕ → Bool) where
  -- receive: the bytes and what is left, or -1 for an end, an error or fewer bytes than asked for.
  unfoldable pub receive : ℕ → List ℕ → Option (List ℕ × List ℕ)
  receive n wire =
      let bytes = recv n wire in
      if (bytes == 0) || not (bytes == n) then none else some (take n wire, drop n wire)

  -- A package read off the socket: the number of its header and its payload.
  abbrev pub Received : Type 0
  Received = ℤ × Payload × List ℕ

  abbrev pub with_stream : ℤ → ℕ → Option (List ℕ × List ℕ) → Option Received
  with_stream header size none = none
  with_stream header size (some (stream, wire)) =
      some (header, record { size = size; stream = stream; offset = 0 }, wire)

  -- package_receive_payload, after the size.
  abbrev pub receive_stream : ℤ → Option (List ℕ × List ℕ) → Option Received
  receive_stream header none = none
  receive_stream header (some (bytes, wire)) =
      let size = of_bytes bytes in
      if size == 0
      then some (header, record { size = 0; stream = []; offset = 0 }, wire)
      else if malloc size
      then with_stream header size (receive size wire)
      else none

  -- package_receive_header, then package_receive_payload.
  abbrev pub receive_payload : Option (List ℕ × List ℕ) → Option Received
  receive_payload none = none
  receive_payload (some (bytes, wire)) =
      receive_stream (int8_of_byte (of_bytes bytes)) (receive 4 wire)

  abbrev pub package_receive : List ℕ → Option Received
  package_receive wire = receive_payload (receive 1 wire)

  abbrev pub is_header : Header → ℤ → Bool
  is_header header (pos n) = n == header_number header
  is_header header (negsuc n) = false

  abbrev pub value_of : {A : Type 0} → Result A × Payload → List ℕ → Option (A × List ℕ)
  value_of (ok a, p) wire = some (a, wire)
  value_of (err e, p) wire = none

  -- A receive function: a package with the expected header, emptied by `r`. Without a value it
  -- returns -1.
  abbrev pub read_package : {A : Type 0} → Header → M A → Option Received → Option (A × List ℕ)
  read_package header r none = none
  read_package header r (some (number, payload, wire)) =
      if is_header header number then value_of (r payload) wire else none

  abbrev pub receive_with : {A : Type 0} → Header → M A → List ℕ → Option (A × List ℕ)
  receive_with header r wire = read_package header r (package_receive wire)
