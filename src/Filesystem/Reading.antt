-- ===== src/Filesystem/Reading.antt =====
-- How a dump is read back through its index block, and that what the code stores reads back.
use native.Mathlib.Nat.{div-add-mod, mod-lt}
use so_tp_2024_2c_the_last_o.Prelude.{
  ℕ, zero, suc, ◌+◌, ◌-◌, ◌*◌, ◌^◌, ◌≤◌, ◌<◌, ◌≡◌, refl, sym, ap, ◌∙◌, true, Option, some, List, [],
  ◌∷◌, arith, length, take, drop, length-append,
}
use so_tp_2024_2c_the_last_o.Prelude.Buffer.{write_at, length-write_at, read-write_at, take-all}
use so_tp_2024_2c_the_last_o.Serialize.Bytes.{
  to_bytes, of_bytes, length-to_bytes, of_bytes-to_bytes,
}
use so_tp_2024_2c_the_last_o.Filesystem.Dump.{
  array_bytes, copy_in, data_blocks, blocks_for, store_loop, store, print_memory_as_ints,
}
use so_tp_2024_2c_the_last_o.Filesystem.Storage.{
  region, region-write_at, copy_in-inside, block_end, contents, Ascending, Away, Ascending-Away,
  store_loop-Stores,
}

-- The first `n` block pointers in the bytes of an index block.
abbrev pub read_pointers : ℕ → List ℕ → List ℕ
read_pointers zero bytes = []
read_pointers (suc n) bytes = of_bytes (take 4 bytes) ∷ read_pointers n (drop 4 bytes)

read_pointers-array_bytes :
    (block_size lo hi : ℕ) (ps : List ℕ)
    → hi ≤ 2 ^ 32
    → Ascending block_size lo hi ps
    → read_pointers (length ps) (array_bytes ps) ≡ ps
unfolding to_bytes
read_pointers-array_bytes block_size lo hi [] h a = refl
read_pointers-array_bytes block_size lo hi (p ∷ ps) h a =
    let one : of_bytes (to_bytes 4 p) ≡ p = of_bytes-to_bytes p ∙ omega (arith, h, a.1) in
    ap (◌∷◌ (of_bytes (to_bytes 4 p))) (read_pointers-array_bytes block_size (p + 1) hi ps h a.2)
    ∙ ap (λ k. k ∷ ps) one

length-array_bytes : (ps : List ℕ) → length (array_bytes ps) ≡ length ps * 4
length-array_bytes [] = omega arith
length-array_bytes (p ∷ ps) = omega (
  arith,
  length-append (to_bytes 4 p) (array_bytes ps),
  length-to_bytes 4 p,
  length-array_bytes ps,
)

module _ (block_size : ℕ) where
  -- The pointers of a file, that of the index block itself first.
  abbrev pub pointers_of : ℕ → ℕ → List ℕ → List ℕ
  pointers_of index_block size blocks =
      let n : ℕ = blocks_for block_size size in
      read_pointers n (region blocks (block_size * index_block) (n * 4))

  -- The bytes of a file.
  abbrev pub read_file : ℕ → ℕ → List ℕ → List ℕ
  read_file index_block size blocks =
      contents block_size (drop 1 (pointers_of index_block size blocks)) size blocks

  pub data_blocks-enough :
      (size : ℕ) → 0 < block_size → size ≤ block_size * data_blocks block_size size
  data_blocks-enough size h = omega (
    arith,
    h,
    div-add-mod (size + (block_size - 1)) block_size,
    mod-lt (size + (block_size - 1)) h,
  )

  pub data_blocks-needed :
      (size : ℕ)
      → 0 < block_size
      → 0 < data_blocks block_size size
      → block_size * (data_blocks block_size size - 1) < size
  data_blocks-needed size h k =
      let q : ℕ = data_blocks block_size size in
      omega (
        arith,
        h,
        k,
        block_end block_size (q - 1) q (omega (arith, k)),
        div-add-mod (size + (block_size - 1)) block_size,
      )

  -- What the index block and the data blocks hold after a dump was stored in them.
  pub record Stored (dump : List ℕ) (index : ℕ) (ps blocks : List ℕ) (r : Option (List ℕ))
      : Type 0 where
    pub after : List ℕ
    pub result : r ≡ some after
    pub size : length after ≡ length blocks
    pub kept :
        (at n : ℕ) → Away block_size at n (index ∷ ps) → region after at n ≡ region blocks at n
    pub pointers : pointers_of index (length dump) after ≡ index ∷ ps
    pub holds : contents block_size ps (length dump) after ≡ dump

  store-next :
      (dump : List ℕ) (index : ℕ) (ps blocks blocks' : List ℕ)
      → copy_in blocks (block_size * index) (array_bytes (index ∷ ps)) 0 (length (index ∷ ps) * 4)
        ≡ some blocks'
      → print_memory_as_ints (block_size * index) blocks' ≡ true
      → store block_size dump (index ∷ ps) blocks
        ≡ store_loop block_size dump (length (index ∷ ps)) 0 ps blocks'
  unfolding store
  store-next dump index ps blocks blocks' e shown = rw (e, store, shown) refl

  -- Distinct blocks inside the block file, of which the first has room for the pointers.
  pub store-Stored :
      (dump : List ℕ) (index lo count : ℕ) (ps blocks : List ℕ)
      → 32 ≤ block_size
      → length (index ∷ ps) ≡ blocks_for block_size (length dump)
      → length (index ∷ ps) * 4 ≤ block_size
      → count ≤ 2 ^ 32
      → Ascending block_size lo count (index ∷ ps)
      → length blocks ≡ block_size * count
      → Stored dump index ps blocks (store block_size dump (index ∷ ps) blocks)
  store-Stored dump index lo count ps blocks big number room word up len =
      let pos : 0 < block_size = omega (arith, big) in
      let parts : ℕ = data_blocks block_size (length dump) in
      let at : ℕ = block_size * index in
      let n : ℕ = length (index ∷ ps) * 4 in
      let bytes : List ℕ = array_bytes (index ∷ ps) in
      let measured : length bytes ≡ n = length-array_bytes (index ∷ ps) in
      let fits : at + block_size ≤ length blocks =
        omega (arith, len, block_end block_size index count up.1) in
      let copied : copy_in blocks at bytes 0 n ≡ some (write_at blocks at bytes) =
        copy_in-inside blocks at bytes 0 n (omega (arith, measured)) (omega (arith, fits, room))
        ∙ ap (λ k. some (write_at blocks at k)) (take-all bytes n (omega (arith, measured))) in
      let shown : print_memory_as_ints at (write_at blocks at bytes) ≡ true =
        ground (arith, length-write_at blocks at bytes, fits, big) in
      let s =
        store_loop-Stores block_size dump parts count (data_blocks-enough (length dump) pos)
          (data_blocks-needed (length dump) pos) 0 ps (write_at blocks at bytes) (index + 1)
          (omega (arith, number)) up.2 (length-write_at blocks at bytes ∙ len) in
      let own : region s.after at n ≡ bytes =
        s.kept at n (Ascending-Away block_size index n count (index + 1) ps room (omega arith) up.2)
        ∙ ap (λ k. region (write_at blocks at bytes) at k) (sym measured)
        ∙ read-write_at blocks at bytes (omega (arith, measured, fits, room)) in
      record {
        after = s.after;
        result =
            store-next dump index ps blocks (write_at blocks at bytes) copied shown
            ∙ ap (λ k. store_loop block_size dump k 0 ps (write_at blocks at bytes)) number
            ∙ s.result;
        size = s.size ∙ length-write_at blocks at bytes;
        kept = λ a k w.
            s.kept a k w.1
            ∙ region-write_at blocks at bytes a k (ground (arith, w.0, measured, room));
        pointers =
            ap (λ k. read_pointers k (region s.after at (k * 4))) (sym number)
            ∙ ap (read_pointers (length (index ∷ ps))) own
            ∙ read_pointers-array_bytes block_size lo count (index ∷ ps) word up;
        holds =
            let zero_at : block_size * 0 ≡ 0 = omega arith in
            let whole : length dump ≡ length dump - block_size * 0 = omega arith in
            ap (λ k. contents block_size ps k s.after) whole
            ∙ s.holds
            ∙ ap (λ k. drop k dump) zero_at;
      }
