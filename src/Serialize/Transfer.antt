-- ===== src/Serialize/Transfer.antt =====
-- What it means that a serializer writes bytes and that a deserializer reads a value off bytes, and
-- how both go through a sequence of calls.
use mathlib.Core.List.{append-nil, append_assoc}
use so_tp_2024_2c_the_last_o.Prelude.{
  ℕ, ◌+◌, ◌^◌, ◌≤◌, ◌<◌, ◌≡◌, refl, sym, ap, ◌∙◌, some, List, [], ◌++◌, arith, length,
  length-append,
}
use so_tp_2024_2c_the_last_o.Payload.Defs.{
  M, ok, Realloc, size_max, ◌>>=◌, ◌>>◌, bind, pure, payload_add, payload_remove,
}
use so_tp_2024_2c_the_last_o.Payload.Cursor.{
  Reallocs, Grants, cursor, payload_add-cursor, payload_remove-cursor,
}
use so_tp_2024_2c_the_last_o.Serialize.Bytes.{
  to_bytes, of_bytes, length-to_bytes, of_bytes-to_bytes,
}
use so_tp_2024_2c_the_last_o.Serialize.Scalars.{add_word, remove_word}

-- The call inserts the bytes at the cursor, wherever it stands, as long as the payload has room.
pub record Writes (m : M (Unit {0})) (bytes : List ℕ) : Type 0 where
  pub writes :
      (before after : List ℕ)
      → length before + length after + length bytes ≤ size_max
      → m (cursor before after) ≡ (ok tt, cursor (before ++ bytes) after)

-- The call takes the bytes out behind the cursor and returns the value.
pub record Reads {A : Type 0} (m : M A) (bytes : List ℕ) (a : A) : Type 0 where
  pub reads :
      (before after : List ℕ)
      → length before + length bytes + length after ≤ size_max
      → m (cursor before (bytes ++ after)) ≡ (ok a, cursor before after)

pub Writes-nil : Writes (pure tt) []
Writes-nil = record { writes = λ before after h. rw append-nil }

pub Writes-then :
    {m k : M (Unit {0})} {xs ys : List ℕ} → Writes m xs → Writes k ys → Writes (m >> k) (xs ++ ys)
Writes-then {m} {k} {xs} {ys} w v = record {
  writes = λ before after h.
      ap (λ r. bind r (λ _. k)) (w.writes before after (omega (arith, length-append xs ys)))
      ∙ v.writes (before ++ xs) after (omega (arith, length-append xs ys, length-append before xs))
      ∙ ap (λ zs. (ok tt, cursor zs after)) (append_assoc before xs ys);
}

pub Reads-pure : {A : Type 0} (a : A) → Reads (pure a) [] a
Reads-pure a = record { reads = λ before after h. refl }

pub Reads-then :
    {A B : Type 0} {m : M A} (f : A → M B) {xs ys : List ℕ} {a : A} {b : B}
    → Reads m xs a
    → Reads (f a) ys b
    → Reads (m >>= f) (xs ++ ys) b
Reads-then f {xs} {ys} {a} r s = record {
  reads = λ before after h. rw (append_assoc xs ys after) (
      ap (λ q. bind q f)
        (r.reads before (ys ++ after) (omega (arith, length-append xs ys, length-append ys after)))
      ∙ s.reads before after (omega (arith, length-append xs ys)));
}

-- The last call of a sequence, whose value is returned as `f` makes it.
pub Reads-map :
    {A B : Type 0} {m : M A} (f : A → B) {xs : List ℕ} {a : A}
    → Reads m xs a
    → Reads (m >>= λ x. pure (f x)) xs (f a)
Reads-map f {xs} r = rw (append-nil xs) at (Reads-then (λ x. pure (f x)) r (Reads-pure _))

module _ (realloc : Realloc) (laws : Reallocs realloc) (grants : Grants realloc) where
  pub payload_add-Writes :
      (bytes : List ℕ) (n : ℕ)
      → n ≡ length bytes
      → Writes (payload_add realloc (some bytes) n) bytes
  payload_add-Writes bytes n e = record {
    writes = λ before after h.
        let (grown, g) = grants (before ++ after) (length before + length after + length bytes) in
        rw e (payload_add-cursor realloc laws before after bytes grown h g);
  }

  pub payload_remove-Reads :
      (bytes : List ℕ) (n : ℕ) → n ≡ length bytes → Reads (payload_remove realloc n) bytes bytes
  payload_remove-Reads bytes n e = record {
    reads = λ before after h. rw e (
        payload_remove-cursor realloc laws before bytes after
          (λ xs. grants xs (length before + length after)) h);
  }

  pub add_word-Writes : (width v : ℕ) → Writes (add_word realloc width v) (to_bytes width v)
  unfolding add_word
  add_word-Writes width v =
      payload_add-Writes (to_bytes width v) width (sym (length-to_bytes width v))

  pub remove_word-Reads :
      (width v : ℕ)
      → Reads (remove_word realloc width) (to_bytes width v) (of_bytes (to_bytes width v))
  unfolding remove_word
  remove_word-Reads width v =
      Reads-map of_bytes
        (payload_remove-Reads (to_bytes width v) width (sym (length-to_bytes width v)))

  -- A uint32_t goes through unchanged.
  pub remove_word-Reads_32 : (v : ℕ) → v < 2 ^ 32 → Reads (remove_word realloc 4) (to_bytes 4 v) v
  remove_word-Reads_32 v h =
      let same : of_bytes (to_bytes 4 v) ≡ v = omega (arith, of_bytes-to_bytes v) in
      rw same at (remove_word-Reads 4 v)
