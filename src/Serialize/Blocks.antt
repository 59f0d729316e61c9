-- ===== src/Serialize/Blocks.antt =====
-- data.c, text.c, subpayload.c and list.c of src/utils/src/utils/serialize/.
use so_tp_2024_2c_the_last_o.Prelude.{
  ℕ, zero, suc, ◌+◌, ◌%◌, ◌^◌, Bool, Option, none, some, List, [], ◌∷◌, ◌++◌, ◌==◌, ltb, length,
  if◌then◌else◌,
}
use so_tp_2024_2c_the_last_o.Payload.Defs.{
  Payload, M, Realloc, ◌>>=◌, ◌>>◌, pure, fail, enomem, efault, eoverflow, payload_add,
  payload_remove,
}
use so_tp_2024_2c_the_last_o.Serialize.Scalars.{add_word, remove_word}

module _ (realloc : Realloc) (malloc : ℕ → Bool) where
  -- The block is `none` for NULL.
  unfoldable pub data_serialize : Option (List ℕ) → ℕ → M (Unit {0})
  data_serialize none size = add_word realloc 4 0
  data_serialize (some block) size =
      if size == 0
      then add_word realloc 4 0
      else (do add_word realloc 4 (size % 2 ^ 32); payload_add realloc (some block) size)

  -- The block of that size, or NULL for size 0.
  unfoldable pub take_block : ℕ → M (Option (List ℕ))
  take_block size =
      if size == 0
      then pure none
      else if malloc size
      then (do block ← payload_remove realloc size; pure (some block))
      else fail enomem

  unfoldable pub data_deserialize : M (Option (List ℕ))
  unfolding take_block
  data_deserialize = do size ← remove_word realloc 4; take_block size

  -- A text is the list of its characters, without the final NUL that the C string has.
  unfoldable pub text_serialize : Option (List ℕ) → M (Unit {0})
  text_serialize none = add_word realloc 4 0
  text_serialize (some text) =
      let text_length = (length text + 1) % 2 ^ 32 in
      do add_word realloc 4 text_length; payload_add realloc (some (text ++ (0 ∷ []))) text_length

  -- The block that `*destination` points to, its NUL included.
  unfoldable pub text_deserialize : M (Option (List ℕ))
  unfolding take_block
  text_deserialize = do text_length ← remove_word realloc 4; take_block text_length

  -- The stream of a payload as a pointer.
  abbrev pub stream_pointer : List ℕ → Option (List ℕ)
  stream_pointer [] = none
  stream_pointer (b ∷ stream) = some (b ∷ stream)

  unfoldable pub subpayload_serialize : Payload → M (Unit {0})
  unfolding data_serialize
  subpayload_serialize source = data_serialize (stream_pointer source.stream) source.size

  abbrev pub set_stream : Payload → Option (List ℕ) → Payload
  set_stream destination none = record destination { stream = []; size = 0 }
  set_stream destination (some block) = record destination { stream = block; size = length block }

  -- The offset of the destination stays as it was.
  unfoldable pub subpayload_deserialize : Payload → M Payload
  unfolding data_deserialize
  subpayload_deserialize destination = do
    block ← data_deserialize
    pure (set_stream destination block)

  module _ {A : Type 0} where
    -- `rounds` elements of the list; past its last element the code would follow a NULL pointer.
    unfoldable pub serialize_elements : (A → M (Unit {0})) → ℕ → List A → M (Unit {0})
    serialize_elements element zero xs = pure tt
    serialize_elements element (suc rounds) [] = fail efault
    serialize_elements element (suc rounds) (x ∷ xs) =
        element x >> serialize_elements element rounds xs

    -- list_size is a t_Size and is counted down to 0. elements_count is an int: a t_list has fewer
    -- than 2 ^ 31 elements.
    unfoldable pub list_serialize : (A → M (Unit {0})) → List A → M (Unit {0})
    unfolding serialize_elements
    list_serialize element source =
        let list_size = length source % 2 ^ 32 in
        add_word realloc 4 list_size >> serialize_elements element list_size source

    abbrev pub count_element : ℕ → M (List A) → M (List A)
    count_element count rest = if ltb (count + 1) (2 ^ 31) then rest else fail eoverflow

    -- The element's node comes from malloc (16 bytes) before its data is read; elements_count++
    -- overflows behind 2 ^ 31 - 1 elements.
    unfoldable pub deserialize_elements : M A → ℕ → List A → M (List A)
    deserialize_elements element zero xs = pure xs
    deserialize_elements element (suc rounds) xs =
        if malloc 16
        then (do
          x ← element
          count_element (length xs) (deserialize_elements element rounds (xs ++ (x ∷ []))))
        else fail enomem

    -- The elements are appended to the destination list, which the callers pass empty.
    unfoldable pub list_deserialize : M A → M (List A)
    unfolding deserialize_elements
    list_deserialize element = do
      list_size ← remove_word realloc 4
      deserialize_elements element list_size []
