-- ===== src/Messages/Delivery.antt =====
-- That a package which is sent arrives: package_send and package_receive of
-- src/utils/src/utils/package.c with a send and a receive function of send.c around them.
use mathlib.Core.List.{append-nil, append_assoc}
use so_tp_2024_2c_the_last_o.Prelude.{
  ℕ, ◌+◌, ◌%◌, ◌^◌, ◌≤◌, ◌<◌, ◌≡◌, refl, sym, ap, ◌∙◌, Bool, true, false, some, List, [], ◌∷◌, ◌++◌,
  arith, length, length-append, take, drop, ltb, ◌==◌,
}
use so_tp_2024_2c_the_last_o.Prelude.Int.{ℤ, pos}
use so_tp_2024_2c_the_last_o.Prelude.Buffer.{take-append, drop-append}
use so_tp_2024_2c_the_last_o.Payload.Defs.{
  Payload, M, ok, Realloc, size_max, ◌>>=◌, ◌>>◌, bind, pure, payload_init, payload_remove,
  payload_seek, seek_set, seek_cur,
}
use so_tp_2024_2c_the_last_o.Payload.Cursor.{Reallocs, Grants, cursor, payload_eq}
use so_tp_2024_2c_the_last_o.Serialize.Bytes.{
  to_bytes, of_bytes, of_bytes-to_bytes, length-to_bytes, int8_to_byte, int8_of_byte,
}
use so_tp_2024_2c_the_last_o.Serialize.Scalars.{add_word}
use so_tp_2024_2c_the_last_o.Serialize.Transfer.{
  Writes, Reads, add_word-Writes, payload_remove-Reads,
}
use so_tp_2024_2c_the_last_o.Messages.Packages.{
  Send, check_sent, Header, header_number, ignored, fields, put_header, take_header, package_send,
  wire_of, send_with, Recv, receive, package_receive, receive_with, is_header, receive_payload,
  receive_stream, with_stream, read_package, value_of,
}

seek_start :
    (before after : List ℕ)
    → payload_seek (pos 0) seek_set (cursor before after) ≡ (ok tt, cursor [] (before ++ after))
unfolding payload_seek
seek_start before after =
    let n : ℕ = length before + length after in
    let e : ltb n 0 ≡ false = ground arith in
    rw e (ap (λ p. (ok tt, p)) (payload_eq (omega (arith, length-append before after)) refl refl))

-- The bytes of a package on the socket.
abbrev pub wire_bytes : Header → List ℕ → List ℕ
wire_bytes header body =
    to_bytes 1 (int8_to_byte (pos (header_number header)))
    ++ (to_bytes 4 ((0 + length body) % 2 ^ 32) ++ body)

-- send takes all the bytes that it is given.
abbrev pub SendsAll : Send → Type 0
SendsAll send = (wire : List ℕ) → send wire ≡ some (length wire)

module _ (realloc : Realloc) (laws : Reallocs realloc) (grants : Grants realloc) (send : Send)
    (sends : SendsAll send) where
  put_header-cursor :
      (header : Header) (bytes : List ℕ)
      → length bytes + 5 ≤ size_max
      → put_header realloc header (cursor bytes []) ≡ (
        ok tt,
        cursor
            (to_bytes 1 (int8_to_byte (pos (header_number header)))
              ++ to_bytes 4 ((0 + length (bytes ++ [])) % 2 ^ 32))
            (bytes ++ []),
      )
  unfolding put_header
  put_header-cursor header bytes fits =
      let body : List ℕ = bytes ++ [] in
      let size : ℕ = (0 + length body) % 2 ^ 32 in
      let byte : ℕ = int8_to_byte (pos (header_number header)) in
      let hb : List ℕ = to_bytes 1 byte in
      let sb : List ℕ = to_bytes 4 size in
      let l0 = length-append bytes [] in
      let l1 = length-to_bytes 1 byte in
      let l2 = length-to_bytes 4 size in
      ap
        (λ r.
          bind (ok tt, r.1)
            (λ _. fields >>= λ sized.
              add_word realloc 1 byte >> add_word realloc 4 (sized.size % 2 ^ 32)))
        (seek_start bytes [])
      ∙ ap (λ r. bind r (λ _. add_word realloc 4 size))
          ((add_word-Writes realloc laws grants 1 byte).writes [] body
            (omega (arith, fits, l0, l1)))
      ∙ (add_word-Writes realloc laws grants 4 size).writes hb body
          (omega (arith, fits, l0, l1, l2))

  take_header-cursor :
      (hb sb body : List ℕ)
      → length hb ≡ 1
      → length sb ≡ 4
      → length body + 5 ≤ size_max
      → take_header realloc (cursor (hb ++ sb) body) ≡ (ok tt, cursor [] body)
  unfolding take_header
  take_header-cursor hb sb body l1 l2 fits =
      let l3 = length-append sb body in
      let after : M (Unit {0}) = payload_remove realloc 1 >>= λ header_bytes.
      payload_remove realloc 4 >>= λ size_bytes. pure tt in
      ap (λ r. bind (ok tt, r.1) (λ _. after)) (seek_start (hb ++ sb) body)
      ∙ ap (λ zs. after (cursor [] zs)) (append_assoc hb sb body)
      ∙ ap (λ r. bind r (λ _. payload_remove realloc 4 >>= λ size_bytes. pure tt))
          ((payload_remove-Reads realloc laws grants hb 1 (sym l1)).reads [] (sb ++ body)
            (omega (arith, fits, l1, l2, l3)))
      ∙ ap (λ r. bind r (λ size_bytes. pure tt))
          ((payload_remove-Reads realloc laws grants sb 4 (sym l2)).reads [] body
            (omega (arith, fits, l1, l2)))

  package_send-wire :
      (header : Header) (bytes : List ℕ)
      → length bytes + 5 ≤ size_max
      → wire_of realloc send (package_send realloc send header (cursor bytes []))
        ≡ some (wire_bytes header (bytes ++ []))
  unfolding package_send
  package_send-wire header bytes fits =
      let body : List ℕ = bytes ++ [] in
      let size : ℕ = (0 + length body) % 2 ^ 32 in
      let byte : ℕ = int8_to_byte (pos (header_number header)) in
      let hb : List ℕ = to_bytes 1 byte in
      let sb : List ℕ = to_bytes 4 size in
      let head : List ℕ = hb ++ sb in
      let l1 = length-to_bytes 1 byte in
      let l2 = length-to_bytes 4 size in
      let restore : Payload → M (List ℕ) = λ full.
        take_header realloc
        >> (ignored (payload_seek (pos (length bytes)) seek_cur)
            >> check_sent full.stream full.size (send full.stream)) in
      let count : length (head ++ body) ≡ length head + length body = length-append head body in
      ap (λ r. wire_of realloc send (bind r (λ _. fields >>= restore)))
        (put_header-cursor header bytes fits)
      ∙ ap
          (λ r. wire_of realloc send (
            bind r (λ _.
              ignored (payload_seek (pos (length bytes)) seek_cur)
              >> check_sent (head ++ body) (length head + length body) (send (head ++ body)))))
          (take_header-cursor hb sb body l1 l2 (omega (arith, fits, length-append bytes [])))
      ∙ ap
          (λ o. wire_of realloc send (
            check_sent (head ++ body) (length head + length body) o
              (payload_seek (pos (length bytes)) seek_cur (cursor [] body)).1))
          (sends (head ++ body) ∙ ap some count)
      ∙ all_sent (head ++ body) (length head + length body)
          (payload_seek (pos (length bytes)) seek_cur (cursor [] body)).1
      ∙ ap some (append_assoc hb sb body)
    where
      all_sent :
          (wire : List ℕ) (n : ℕ) (p : Payload)
          → wire_of realloc send (check_sent wire n (some n) p) ≡ some wire
      all_sent wire n p = let e : (n == n) ≡ true = ground arith in rw e refl

  -- What a send function puts on the socket.
  pub send_with-wire :
      (header : Header) (w : M (Unit {0})) (bytes : List ℕ)
      → Writes w bytes
      → length bytes + 5 ≤ size_max
      → send_with realloc send header w ≡ some (wire_bytes header bytes)
  unfolding payload_init
  send_with-wire header w bytes writes fits =
      ap (λ r. wire_of realloc send (bind r (λ _. package_send realloc send header)))
        (writes.writes [] [] (omega (arith, fits)))
      ∙ package_send-wire header bytes fits
      ∙ ap (λ zs. some (wire_bytes header zs)) (append-nil bytes)

-- recv hands over all the bytes asked for, where as many are under way.
abbrev pub Delivers : Recv → Type 0
Delivers recv = (n : ℕ) (wire : List ℕ) → n ≤ length wire → recv n wire ≡ n

module _ (recv : Recv) (malloc : ℕ → Bool) (delivers : Delivers recv)
    (memory : (n : ℕ) → malloc n ≡ true) where
  receive-append :
      (bytes wire : List ℕ) (n : ℕ)
      → n ≡ length bytes
      → 0 < n
      → receive recv malloc n (bytes ++ wire) ≡ some (bytes, wire)
  unfolding receive
  receive-append bytes wire n e h =
      let d : recv n (bytes ++ wire) ≡ n =
        delivers n (bytes ++ wire) (omega (arith, e, length-append bytes wire)) in
      let t : take n (bytes ++ wire) ≡ bytes =
        take-append bytes wire n 0 (omega (arith, e)) ∙ append-nil bytes in
      let r : drop n (bytes ++ wire) ≡ wire = drop-append bytes wire n 0 (omega (arith, e)) in
      ground (arith, d, t, r, h)

  header_number-byte :
      (header : Header)
      → is_header recv malloc header
          (int8_of_byte (of_bytes (to_bytes 1 (int8_to_byte (pos (header_number header))))))
        ≡ true
  unfolding header_number to_bytes of_bytes int8_to_byte int8_of_byte
  header_number-byte header = ground arith

  -- The stream, whose size was read.
  stream_received :
      (number : ℤ) (bytes sb : List ℕ)
      → of_bytes sb ≡ length bytes
      → receive_stream recv malloc number (some (sb, bytes)) ≡ some (number, cursor [] bytes, [])
  stream_received number [] sb e =
      let z : (of_bytes sb == 0) ≡ true = ground (arith, e) in
      rw z (ap (λ p. some (number, p, [])) (payload_eq (omega arith) refl refl))
  stream_received number (b ∷ bytes) sb e =
      let n : ℕ = of_bytes sb in
      let z : (n == 0) ≡ false = ground (arith, e) in
      let got : receive recv malloc n (b ∷ bytes) ≡ some (b ∷ bytes, []) =
        ap (receive recv malloc n) (sym (append-nil (b ∷ bytes)))
        ∙ receive-append (b ∷ bytes) [] n e (omega (arith, e)) in
      rw (z, memory n)
        (ap (with_stream recv malloc number n) got
          ∙ ap (λ p. some (number, p, [])) (payload_eq (omega (arith, e)) refl refl))

  package_receive-wire :
      (header : Header) (bytes : List ℕ)
      → length bytes < 2 ^ 32
      → package_receive recv malloc (wire_bytes header bytes)
        ≡ some (
          int8_of_byte (of_bytes (to_bytes 1 (int8_to_byte (pos (header_number header))))),
          cursor [] bytes,
          [],
        )
  package_receive-wire header bytes small =
      let size : ℕ = (0 + length bytes) % 2 ^ 32 in
      let byte : ℕ = int8_to_byte (pos (header_number header)) in
      let hb : List ℕ = to_bytes 1 byte in
      let sb : List ℕ = to_bytes 4 size in
      ap (receive_payload recv malloc)
        (receive-append hb (sb ++ bytes) 1 (sym (length-to_bytes 1 byte)) (omega arith))
      ∙ ap (receive_stream recv malloc (int8_of_byte (of_bytes hb)))
          (receive-append sb bytes 4 (sym (length-to_bytes 4 size)) (omega arith))
      ∙ stream_received (int8_of_byte (of_bytes hb)) bytes sb
          (of_bytes-to_bytes size ∙ omega (arith, small))

  pub receive_with-wire :
      {A : Type 0} (header : Header) (r : M A) (bytes : List ℕ) (a : A)
      → Reads r bytes a
      → length bytes < 2 ^ 32
      → receive_with recv malloc header r (wire_bytes header bytes) ≡ some (a, [])
  receive_with-wire header r bytes a reads small =
      ap (read_package recv malloc header r) (package_receive-wire header bytes small)
      ∙ rw (header_number-byte header) (
          ap (λ zs. value_of recv malloc (r (cursor [] zs)) []) (sym (append-nil bytes))
          ∙ ap (λ q. value_of recv malloc q []) (reads.reads [] [] (omega (arith, small))))
