-- ===== src/Serialize/BlockTrip.antt =====
-- Blocks of data, texts, payloads and lists on their way through a payload.
use mathlib.Core.List.{append-nil, append_assoc}
use so_tp_2024_2c_the_last_o.Prelude.{
  ℕ, suc, ltb, length-append, ◌+◌, ◌%◌, ◌^◌, ◌<◌, ◌≡◌, refl, sym, Bool, true, false, Option, none,
  some, List, [], ◌∷◌, ◌++◌, arith, length, length-append, ◌==◌,
}
use so_tp_2024_2c_the_last_o.Payload.Defs.{Payload, M, Realloc, ◌>>=◌, pure}
use so_tp_2024_2c_the_last_o.Payload.Cursor.{Reallocs, Grants}
use so_tp_2024_2c_the_last_o.Serialize.Bytes.{to_bytes}
use so_tp_2024_2c_the_last_o.Serialize.Blocks.{
  data_serialize, data_deserialize, take_block, stream_pointer, set_stream, text_serialize,
  text_deserialize, subpayload_serialize, subpayload_deserialize, list_serialize, list_deserialize,
  count_element, serialize_elements, deserialize_elements,
}
use so_tp_2024_2c_the_last_o.Serialize.Transfer.{
  Writes, Reads, Writes-nil, Writes-then, Reads-pure, Reads-then, Reads-map, payload_add-Writes,
  payload_remove-Reads, add_word-Writes, remove_word-Reads_32,
}
use so_tp_2024_2c_the_last_o.Serialize.RoundTrip.{Travels}

suc_not_zero : (n : ℕ) → (suc n == 0) ≡ false
suc_not_zero n = ground arith

-- A block on its way: its size and its bytes.
abbrev pub block_bytes : List ℕ → List ℕ
block_bytes block = to_bytes 4 (length block) ++ block

-- The block of a text, with its final NUL.
abbrev pub terminated : List ℕ → List ℕ
terminated text = text ++ (0 ∷ [])

module _ (realloc : Realloc) (malloc : ℕ → Bool) (laws : Reallocs realloc) (grants : Grants realloc)
    (memory : (n : ℕ) → malloc n ≡ true) where
  take_block-Reads :
      (b : ℕ) (block : List ℕ)
      → Reads (take_block realloc malloc (length (b ∷ block))) (b ∷ block) (some (b ∷ block))
  unfolding take_block
  take_block-Reads b block =
      rw (suc_not_zero (length block), memory (length (b ∷ block)))
        (Reads-map some
          (payload_remove-Reads realloc laws grants (b ∷ block) (length (b ∷ block)) refl))

  pub data-Writes :
      (block : List ℕ)
      → 0 < length block
      → length block < 2 ^ 32
      → Writes (data_serialize realloc malloc (some block) (length block)) (block_bytes block)
  unfolding data_serialize
  data-Writes [] low high = absurd (omega arith)
  data-Writes (b ∷ block) low high =
      let n : ℕ = length (b ∷ block) in
      let whole : n % 2 ^ 32 ≡ n = omega arith in
      rw (suc_not_zero (length block), whole)
        (Writes-then (add_word-Writes realloc laws grants 4 n)
          (payload_add-Writes realloc laws grants (b ∷ block) n refl))

  pub data-Reads :
      (block : List ℕ)
      → 0 < length block
      → length block < 2 ^ 32
      → Reads (data_deserialize realloc malloc) (block_bytes block) (some block)
  unfolding data_deserialize
  data-Reads [] low high = absurd (omega arith)
  data-Reads (b ∷ block) low high =
      Reads-then (take_block realloc malloc)
        (remove_word-Reads_32 realloc laws grants (length (b ∷ block)) high)
        (take_block-Reads b block)

  -- When realloc and malloc grant all blocks, a block of 1 to 2 ^ 32 - 1 bytes arrives as it was.
  pub data-Travels :
      (block : List ℕ)
      → 0 < length block
      → length block < 2 ^ 32
      → Travels
          (data_serialize realloc malloc (some block) (length block))
          (data_deserialize realloc malloc)
          (some block)
  data-Travels block low high =
      (block_bytes block, data-Writes block low high, data-Reads block low high)

  null-Reads : Reads (data_deserialize realloc malloc) (to_bytes 4 0) none
  unfolding data_deserialize take_block
  null-Reads = rw (append-nil (to_bytes 4 0)) at (
      Reads-then (take_block realloc malloc)
        (remove_word-Reads_32 realloc laws grants 0 (omega arith)) (Reads-pure none))

  -- When realloc and malloc grant all blocks, NULL, and any block sent with size 0, arrive as
  -- NULL.
  pub data_null-Travels :
      (block : Option (List ℕ))
      → Travels (data_serialize realloc malloc block 0) (data_deserialize realloc malloc) none
  unfolding data_serialize
  data_null-Travels none = (to_bytes 4 0, add_word-Writes realloc laws grants 4 0, null-Reads)
  data_null-Travels (some block) =
      (to_bytes 4 0, add_word-Writes realloc laws grants 4 0, null-Reads)

  pub text-Writes :
      (text : List ℕ)
      → length text + 1 < 2 ^ 32
      → Writes (text_serialize realloc malloc (some text)) (block_bytes (terminated text))
  unfolding text_serialize
  text-Writes text high =
      let n : ℕ = length text + 1 in
      let whole : n % 2 ^ 32 ≡ n = omega arith in
      let sized : length (terminated text) ≡ n = omega (arith, length-append text (0 ∷ [])) in
      rw (whole, sized)
        (Writes-then (add_word-Writes realloc laws grants 4 n)
          (payload_add-Writes realloc laws grants (terminated text) n (sym sized)))

  pub text-Reads :
      (text : List ℕ)
      → length text + 1 < 2 ^ 32
      → Reads
          (text_deserialize realloc malloc)
          (block_bytes (terminated text))
          (some (terminated text))
  unfolding text_deserialize
  text-Reads text high =
      let sized : length (terminated text) ≡ length text + 1 =
        omega (arith, length-append text (0 ∷ [])) in
      Reads-then (take_block realloc malloc)
        (remove_word-Reads_32 realloc laws grants (length (terminated text))
          (omega (arith, sized, high)))
        (terminated-Reads text)
    where
      terminated-Reads :
          (text : List ℕ)
          → Reads
              (take_block realloc malloc (length (terminated text)))
              (terminated text)
              (some (terminated text))
      terminated-Reads [] = take_block-Reads 0 []
      terminated-Reads (c ∷ text) = take_block-Reads c (text ++ (0 ∷ []))

  -- When realloc and malloc grant all blocks, a text of fewer than 2 ^ 32 - 1 characters arrives
  -- as its characters and the final NUL.
  pub text-Travels :
      (text : List ℕ)
      → length text + 1 < 2 ^ 32
      → Travels
          (text_serialize realloc malloc (some text))
          (text_deserialize realloc malloc)
          (some (text ++ (0 ∷ [])))
  text-Travels text high =
      (block_bytes (terminated text), text-Writes text high, text-Reads text high)

  stream-Travels :
      (destination : Payload) (stream : List ℕ) (size : ℕ)
      → size ≡ length stream
      → size < 2 ^ 32
      → Travels
          (data_serialize realloc malloc (stream_pointer realloc malloc stream) size)
          (data_deserialize realloc malloc >>= λ block.
            pure (set_stream realloc malloc destination block))
          (record destination { size = size; stream = stream })
  stream-Travels destination [] size e high =
      let (bytes, w, r) = data_null-Travels none in
      rw e (bytes, w, Reads-map (set_stream realloc malloc destination) r)
  stream-Travels destination (b ∷ stream) size e high =
      let (bytes, w, r) = data-Travels (b ∷ stream) (omega arith) (omega arith) in
      rw e (bytes, w, Reads-map (set_stream realloc malloc destination) r)

  -- When realloc and malloc grant all blocks, a payload of fewer than 2 ^ 32 bytes whose size is
  -- that of its stream arrives as that stream; the cursor of the payload it is read into stays.
  pub subpayload-Travels :
      (source destination : Payload)
      → source.size ≡ length source.stream
      → source.size < 2 ^ 32
      → Travels
          (subpayload_serialize realloc malloc source)
          (subpayload_deserialize realloc malloc destination)
          (record destination { size = source.size; stream = source.stream })
  unfolding subpayload_serialize subpayload_deserialize
  subpayload-Travels source destination sized high =
      stream-Travels destination source.stream source.size sized high

  module _ {A : Type 0} (write : A → M (Unit {0})) (read : M A)
      (element : (x : A) → Travels (write x) read x) where
    elements_bytes : List A → List ℕ
    elements_bytes [] = []
    elements_bytes (x ∷ xs) = (element x).0 ++ elements_bytes xs

    elements-Writes :
        (xs : List A)
        → Writes (serialize_elements realloc malloc write (length xs) xs) (elements_bytes xs)
    unfolding serialize_elements elements_bytes
    elements-Writes [] = Writes-nil
    elements-Writes (x ∷ xs) = Writes-then (element x).1 (elements-Writes xs)

    elements-Reads :
        (xs done : List A)
        → length done + length xs < 2 ^ 31
        → Reads
            (deserialize_elements realloc malloc read (length xs) done)
            (elements_bytes xs)
            (done ++ xs)
    unfolding deserialize_elements elements_bytes
    elements-Reads [] done few = rw append-nil (Reads-pure done)
    elements-Reads (x ∷ xs) done few =
        let counted : ltb (length done + 1) (2 ^ 31) ≡ true = ground (arith, few) in
        rw (memory 16) (
          Reads-then
            (λ y.
              count_element realloc malloc (length done)
                (deserialize_elements realloc malloc read (length xs) (done ++ (y ∷ []))))
            (element x).2
            (rw counted (
              rw (append_assoc done (x ∷ []) xs) at (
                elements-Reads xs (done ++ (x ∷ []))
                  (omega (arith, few, length-append done (x ∷ [])))))))

    -- When realloc and malloc grant all blocks, a list of fewer than 2 ^ 31 elements arrives in
    -- its order, if each element arrives as it was.
    pub list-Travels :
        (xs : List A)
        → length xs < 2 ^ 31
        → Travels (list_serialize realloc malloc write xs) (list_deserialize realloc malloc read) xs
    unfolding list_serialize list_deserialize
    list-Travels xs high =
        let n : ℕ = length xs in
        let whole : n % 2 ^ 32 ≡ n = omega arith in
        (
          to_bytes 4 n ++ elements_bytes xs,
          rw whole (Writes-then (add_word-Writes realloc laws grants 4 n) (elements-Writes xs)),
          Reads-then (λ m. deserialize_elements realloc malloc read m [])
              (remove_word-Reads_32 realloc laws grants n (omega (arith, high)))
              (elements-Reads xs [] (omega (arith, high))),
        )
