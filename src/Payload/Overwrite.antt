-- ===== src/Payload/Overwrite.antt =====
-- payload_write and payload_read over the view of Payload/Cursor.
use mathlib.Core.List.{append-nil, append_assoc}
use so_tp_2024_2c_the_last_o.Prelude.{
  ℕ, ◌+◌, ◌≤◌, ◌<◌, ◌≡◌, sym, ap, ◌∙◌, true, some, List, [], ◌∷◌, ◌++◌, arith, length, drop,
  length-append, length-drop, ◌-◌,
}
use so_tp_2024_2c_the_last_o.Prelude.Buffer.{write_at, take-all, write_at-append, write_at-front}
use so_tp_2024_2c_the_last_o.Payload.Defs.{
  ok, Realloc, size_max, payload_write, payload_read, overwrite,
}
use so_tp_2024_2c_the_last_o.Payload.Cursor.{
  Reallocs, cursor, payload_eq, grown_lem, next_bytes, nonempty,
}

-- Bytes written over as many bytes.
over_lem :
    (before old after source : List ℕ)
    → length old ≡ length source
    → write_at (before ++ (old ++ after)) (length before) source ≡ (before ++ source) ++ after
over_lem before old after source h =
    rw
      (
        write_at-append before (old ++ after) source (length before) 0 (omega arith),
        write_at-front old source after h,
      )
      (sym (append_assoc before source after))

overwritten :
    (realloc : Realloc) (before old after source : List ℕ)
    → length old ≡ length source
    → overwrite realloc
        (cursor before (old ++ after))
        (length before + length (old ++ after))
        (before ++ (old ++ after))
        (some source)
        (length source)
      ≡ cursor (before ++ source) after
unfolding overwrite
overwritten realloc before old after source h =
    payload_eq (omega (arith, length-append old after, length-append before source))
      (rw (take-all source (length source) (omega arith)) (over_lem before old after source h))
      (sym (length-append before source))

-- When the sizes fit size_t, a write that does not pass the end replaces as many bytes behind the
-- cursor and moves the cursor past them, whether realloc has memory or not.
pub payload_write_inside :
    (realloc : Realloc) (before old after source : List ℕ)
    → length old ≡ length source
    → length before + length old + length after ≤ size_max
    → payload_write realloc (some source) (length source) (cursor before (old ++ after))
      ≡ (ok tt, cursor (before ++ source) after)
unfolding payload_write
payload_write_inside realloc before [] after [] h fits = rw append-nil
payload_write_inside realloc before [] after (y ∷ source) h fits = absurd (omega arith)
payload_write_inside realloc before (x ∷ old) after [] h fits = absurd (omega arith)
payload_write_inside realloc before (x ∷ old) after (y ∷ source) h fits =
    ground
      (arith, length-append old after, overwritten realloc before (x ∷ old) after (y ∷ source) h)

extended :
    (realloc : Realloc)
    → Reallocs realloc
    → (before old source grown : List ℕ) → length old ≤ length source
    → realloc (before ++ old) (length before + length source) ≡ some grown
    → overwrite realloc
        (cursor before old)
        (length before + length source)
        grown
        (some source)
        (length source)
      ≡ cursor (before ++ source) []
unfolding overwrite
extended realloc laws before old source grown h e =
    let room : List ℕ = drop (length (before ++ old)) grown in
    let split : grown ≡ (before ++ old) ++ room =
      grown_lem realloc laws (before ++ old) grown (length source - length old)
        (ap (realloc (before ++ old)) (omega (arith, length-append before old)) ∙ e) in
    payload_eq (omega (arith, length-append before source))
      (rw
        (
          take-all source (length source) (omega arith),
          split,
          append_assoc before old room,
          ← append-nil (old ++ room),
        )
        (over_lem before (old ++ room) [] source (
          omega (
            arith,
            length-append old room,
            length-append before old,
            length-drop (length (before ++ old)) grown,
            laws.sized (before ++ old) grown (length before + length source) e,
          ))))
      (sym (length-append before source))

-- When realloc grants the longer block and the sizes fit size_t, a write past the end replaces the
-- bytes behind the cursor and extends the stream up to the last byte written.
pub payload_write_past :
    (realloc : Realloc)
    → Reallocs realloc
    → (before old source grown : List ℕ) → length old < length source
    → length before + length source ≤ size_max
    → realloc (before ++ old) (length before + length source) ≡ some grown
    → payload_write realloc (some source) (length source) (cursor before old)
      ≡ (ok tt, cursor (before ++ source) [])
unfolding payload_write
payload_write_past realloc laws before old [] grown h fits e = absurd (omega arith)
payload_write_past realloc laws before old (y ∷ source) grown h fits e =
    rw (e, payload_write)
      (ground (arith, extended realloc laws before old (y ∷ source) grown (omega arith) e))

-- When the sizes fit size_t, reading into a destination returns the bytes behind the cursor and
-- moves the cursor past them.
pub payload_read-cursor :
    (before next after : List ℕ)
    → length before + length next + length after ≤ size_max
    → payload_read true (length next) (cursor before (next ++ after))
      ≡ (ok next, cursor (before ++ next) after)
unfolding payload_read
payload_read-cursor before [] after fits = rw append-nil
payload_read-cursor before (x ∷ next) after fits = ground (
  arith,
  nonempty before x (next ++ after),
  next_bytes before (x ∷ next) after,
  length-append next after,
  length-append before (x ∷ next),
  append_assoc before (x ∷ next) after,
)
