-- ===== src/Payload/Frame.antt =====
-- The well-formedness of a payload, and that no operation breaks it, whatever it returns.
use so_tp_2024_2c_the_last_o.Prelude.{
  ℕ, ◌+◌, ◌-◌, ◌≤◌, ◌≡◌, refl, Bool, true, false, Option, none, some, List, [], ◌∷◌, arith, length,
  take, drop, Option-cases, inl, inr, ltb, if◌then◌else◌,
}
use so_tp_2024_2c_the_last_o.Prelude.Int.{ℤ}
use so_tp_2024_2c_the_last_o.Prelude.Buffer.{move_within, length-write_at}
use so_tp_2024_2c_the_last_o.Payload.Defs.{
  Payload, Realloc, size_max, Whence, payload_init, copy_source, insert_into, overwrite, shrink,
  payload_destroy, payload_add, payload_remove, payload_write, payload_read, payload_seek,
}
use so_tp_2024_2c_the_last_o.Payload.Cursor.{Reallocs}

-- The size is that of the stream, it fits size_t, and the cursor lies in the stream.
pub record IsValid (p : Payload) : Type 0 where
  pub sized : p.size ≡ length p.stream
  pub inside : p.offset ≤ p.size
  pub fits : p.size ≤ size_max

pub data Op : Type 0 where
  add write : Option (List ℕ) → ℕ → Op
  remove : ℕ → Op
  read : Bool → ℕ → Op
  seek : ℤ → Whence → Op

length-copy_source :
    (realloc : Realloc) (stream : List ℕ) (at : ℕ) (source : Option (List ℕ)) (n : ℕ)
    → length (copy_source realloc stream at source n) ≡ length stream
length-copy_source realloc stream at none n = refl
length-copy_source realloc stream at (some source) n = length-write_at stream at (take n source)

module _ (realloc : Realloc) where
  unfoldable pub step : Op → Payload → Payload
  step (add source n) p = (payload_add realloc source n p).1
  step (write source n) p = (payload_write realloc source n p).1
  step (remove n) p = (payload_remove realloc n p).1
  step (read destination n) p = (payload_read destination n p).1
  step (seek offset whence) p = (payload_seek offset whence p).1

  unfoldable pub run : List Op → Payload → Payload
  run [] p = p
  run (o ∷ os) p = run os (step o p)

module _ (realloc : Realloc) where
  inserted-IsValid :
      (source : Option (List ℕ)) (n : ℕ) (p : Payload) (grown : List ℕ)
      → IsValid p
      → length grown ≡ p.size + n
      → p.size + n ≤ size_max
      → IsValid (insert_into realloc p source n grown)
  unfolding insert_into
  inserted-IsValid source n p grown v h k =
      let moved : List ℕ =
        if ltb p.offset (p.size + n - n)
        then move_within grown (p.offset + n) p.offset (p.size + n - n - p.offset)
        else grown in
      record {
        sized = omega (
          arith,
          length-copy_source realloc moved p.offset source n,
          length-moved (p.size + n) n p.offset grown,
        );
        inside = omega (arith, v.inside);
        fits = k;
      }
    where
      length-moved :
          (size' n at : ℕ) (grown : List ℕ)
          → length
              (if ltb at (size' - n) then move_within grown (at + n) at (size' - n - at) else grown)
            ≡ length grown
      length-moved size' n at grown =
          ground (arith, length-write_at grown (at + n) (take (size' - n - at) (drop at grown)))

  overwritten-IsValid :
      (source : Option (List ℕ)) (n size' : ℕ) (p : Payload) (stream : List ℕ)
      → size' ≡ length stream
      → p.offset + n ≤ size'
      → size' ≤ size_max
      → IsValid (overwrite realloc p size' stream source n)
  unfolding overwrite
  overwritten-IsValid source n size' p stream h k l = record {
    sized = omega (arith, length-copy_source realloc stream p.offset source n);
    inside = k;
    fits = l;
  }

module _ (realloc : Realloc) (laws : Reallocs realloc) where
  add-IsValid :
      (source : Option (List ℕ)) (n : ℕ) (p : Payload)
      → IsValid p
      → IsValid (payload_add realloc source n p).1
  unfolding payload_add
  add-IsValid source n p v = elim (Option-cases (realloc p.stream (p.size + n))) [
    | inl e ↦ ground (arith, e)
    | inr (ys, e) ↦
        ground
          (arith, e, inserted-IsValid realloc source n p ys, laws.sized p.stream ys (p.size + n))
  ]

  shrink-IsValid :
      (n : ℕ) (removed : List ℕ) (p : Payload)
      → IsValid p
      → p.offset + n ≤ p.size
      → IsValid (shrink realloc p n removed).1
  unfolding shrink payload_destroy
  shrink-IsValid n removed p v h =
      let moved : List ℕ = move_within p.stream p.offset (p.offset + n) (p.size - p.offset - n) in
      let kept =
        length-write_at p.stream p.offset
          (take (p.size - p.offset - n) (drop (p.offset + n) p.stream)) in
      elim (Option-cases (realloc moved (p.size - n))) [
        | inl e ↦ rw (e, shrink) (ground (arith, kept))
        | inr (ys, e) ↦ rw (e, shrink) (ground (arith, laws.sized moved ys (p.size - n) e))
      ]

  remove-IsValid : (n : ℕ) (p : Payload) → IsValid p → IsValid (payload_remove realloc n p).1
  unfolding payload_remove
  remove-IsValid n p v = ground (arith, shrink-IsValid n (take n (drop p.offset p.stream)) p v)

  write-IsValid :
      (source : Option (List ℕ)) (n : ℕ) (p : Payload)
      → IsValid p
      → IsValid (payload_write realloc source n p).1
  unfolding payload_write
  write-IsValid source n p v = elim (Option-cases (realloc p.stream (p.offset + n))) [
    | inl e ↦ ground (arith, e, overwritten-IsValid realloc source n p.size p p.stream)
    | inr (ys, e) ↦ ground (
      arith,
      e,
      overwritten-IsValid realloc source n p.size p p.stream,
      overwritten-IsValid realloc source n (p.offset + n) p ys,
      laws.sized p.stream ys (p.offset + n),
    )
  ]

read-IsValid :
    (destination : Bool) (n : ℕ) (p : Payload)
    → IsValid p
    → IsValid (payload_read destination n p).1
unfolding payload_read
read-IsValid true n p v = ground arith
read-IsValid false n p v = ground arith

seek-IsValid :
    (offset : ℤ) (whence : Whence) (p : Payload)
    → IsValid p
    → IsValid (payload_seek offset whence p).1
unfolding payload_seek
seek-IsValid offset whence p v = ground arith

step-IsValid :
    (realloc : Realloc)
    → Reallocs realloc
    → (o : Op) (p : Payload) → IsValid p
    → IsValid (step realloc o p)
unfolding step
step-IsValid realloc laws (add source n) p v = add-IsValid realloc laws source n p v
step-IsValid realloc laws (write source n) p v = write-IsValid realloc laws source n p v
step-IsValid realloc laws (remove n) p v = remove-IsValid realloc laws n p v
step-IsValid realloc laws (read destination n) p v = read-IsValid destination n p v
step-IsValid realloc laws (seek offset whence) p v = seek-IsValid offset whence p v

run_from-IsValid :
    (realloc : Realloc)
    → Reallocs realloc
    → (os : List Op) (p : Payload) → IsValid p
    → IsValid (run realloc os p)
unfolding run
run_from-IsValid realloc laws [] p v = v
run_from-IsValid realloc laws (o ∷ os) p v =
    run_from-IsValid realloc laws os (step realloc o p) (step-IsValid realloc laws o p v)

-- If realloc returns blocks of the size asked for that keep their bytes, then after any calls on a
-- fresh payload, those that fail included, the size is the length of the stream and fits size_t,
-- and the cursor lies in the stream.
pub run-IsValid :
    (realloc : Realloc) → Reallocs realloc → (os : List Op) → IsValid (run realloc os payload_init)
unfolding payload_init
run-IsValid realloc laws os = run_from-IsValid realloc laws os _ (omega arith)
