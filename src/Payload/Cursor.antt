-- ===== src/Payload/Cursor.antt =====
-- The payload as the bytes before and after its cursor, and what the operations of payload.c do to
-- that view.
use mathlib.Core.List.{append-nil, append_assoc}
use so_tp_2024_2c_the_last_o.Prelude.{
  ℕ, ◌+◌, ◌-◌, ◌≤◌, ◌≡◌, refl, sym, ap, ◌∙◌, some, List, [], ◌∷◌, ◌++◌, arith, length, take, drop,
  length-append, length-drop, take-append-drop, ltb, if◌then◌else◌, length_zero,
}
use so_tp_2024_2c_the_last_o.Prelude.Buffer.{
  move_within, write_at-nil, insert_by_move, remove_by_move, take-all, take-append, drop-append,
  length-write_at,
}
use so_tp_2024_2c_the_last_o.Payload.Defs.{
  Payload, ok, Realloc, size_max, payload_add, payload_remove, insert_into, shrink, payload_destroy,
}

-- The documented behaviour of realloc: a block that it returns has the size asked for, and holds
-- what the old block held, as far as both reach.
pub record Reallocs (realloc : Realloc) : Type 0 where
  pub sized : (xs ys : List ℕ) (n : ℕ) → realloc xs n ≡ some ys → length ys ≡ n
  pub kept :
      (xs ys : List ℕ) (n k : ℕ)
      → realloc xs n ≡ some ys
      → k ≤ n
      → k ≤ length xs
      → take k ys ≡ take k xs

-- An allocator that has memory for every request.
abbrev pub Grants : Realloc → Type 0
Grants realloc = (xs : List ℕ) (n : ℕ) → (ys : List ℕ) × (realloc xs n ≡ some ys)

-- realloc grants every block of `n` bytes.
abbrev pub GrantsSize : Realloc → ℕ → Type 0
GrantsSize realloc n = (xs : List ℕ) → (ys : List ℕ) × (realloc xs n ≡ some ys)

-- The payload that holds `before` and `after` with its cursor between them.
abbrev pub cursor : List ℕ → List ℕ → Payload
cursor before after = record {
  size = length before + length after;
  stream = before ++ after;
  offset = length before;
}

pub payload_eq :
    {size size' offset offset' : ℕ} {stream stream' : List ℕ}
    → size ≡ size'
    → stream ≡ stream'
    → offset ≡ offset'
    → ◌≡◌ {A = Payload}
        (record { size = size; stream = stream; offset = offset })
        (record { size = size'; stream = stream'; offset = offset' })
payload_eq p q r = λ i. record { size = p i; stream = q i; offset = r i }

pub next_bytes :
    (before next after : List ℕ)
    → take (length next) (drop (length before) (before ++ (next ++ after))) ≡ next
next_bytes before next after =
    rw
      (
        drop-append before (next ++ after) (length before) 0 (omega arith),
        take-append next after (length next) 0 (omega arith),
      )
      (append-nil next)

pub nonempty :
    (before : List ℕ) (x : ℕ) (after : List ℕ)
    → (y : ℕ) × (rest : List ℕ) × (before ++ (x ∷ after) ≡ y ∷ rest)
nonempty [] x after = (x, after, refl)
nonempty (y ∷ before) x after = (y, before ++ (x ∷ after), refl)

module _ (realloc : Realloc) (laws : Reallocs realloc) where
  pub grown_lem :
      (xs ys : List ℕ) (n : ℕ)
      → realloc xs (length xs + n) ≡ some ys
      → ys ≡ xs ++ drop (length xs) ys
  grown_lem xs ys n e =
      sym (take-append-drop (length xs) ys)
      ∙ ap (λ zs. zs ++ drop (length xs) ys)
          (laws.kept xs ys (length xs + n) (length xs) e (omega arith) (omega arith)
            ∙ take-all xs (length xs) (omega arith))

  moved_lem :
      (before after grown : List ℕ) (n size' : ℕ)
      → size' ≡ length before + length after + n
      → (if ltb (length before) (size' - n)
          then move_within grown (length before + n) (length before) (size' - n - length before)
          else grown)
        ≡ move_within grown (length before + n) (length before) (length after)
  moved_lem before [] grown n size' h = ground (arith, write_at-nil grown (length before + n))
  moved_lem before (x ∷ after) grown n size' h = ground arith

  inserted :
      (before after source grown : List ℕ)
      → realloc (before ++ after) (length before + length after + length source) ≡ some grown
      → insert_into realloc (cursor before after) (some source) (length source) grown
        ≡ cursor (before ++ source) after
  unfolding insert_into
  inserted before after source grown e =
      let room : List ℕ = drop (length (before ++ after)) grown in
      let split : grown ≡ (before ++ after) ++ room =
        grown_lem (before ++ after) grown (length source)
          (ap (λ n. realloc (before ++ after) n) (omega (arith, length-append before after)) ∙ e) in
      payload_eq (omega (arith, length-append before source))
        (rw
          (
            moved_lem before after grown (length source) _ refl,
            take-all source (length source) (omega arith),
            split,
          )
          (insert_by_move before after room source _ _ _
              (omega (
                arith,
                length-drop (length (before ++ after)) grown,
                length-append before after,
                laws.sized (before ++ after) grown _ e,
              ))
              refl refl refl
            ∙ sym (append_assoc before source after)))
        (sym (length-append before source))

  -- When realloc grants the longer block and the sizes fit size_t, adding bytes inserts them at
  -- the cursor and moves the cursor behind them.
  pub payload_add-cursor :
      (before after source grown : List ℕ)
      → length before + length after + length source ≤ size_max
      → realloc (before ++ after) (length before + length after + length source) ≡ some grown
      → payload_add realloc (some source) (length source) (cursor before after)
        ≡ (ok tt, cursor (before ++ source) after)
  unfolding payload_add
  payload_add-cursor before after [] grown fits e = rw append-nil
  payload_add-cursor before after (x ∷ source) grown fits e =
      rw (e, payload_add) (ground (arith, inserted before after (x ∷ source) grown e))

  moved_length :
      (before gone after : List ℕ)
      → length (
          move_within
            (before ++ (gone ++ after))
            (length before)
            (length before + length gone)
            (length after))
        ≡ length before + length gone + length after
  moved_length before gone after = omega (
    arith,
    length-write_at (before ++ (gone ++ after)) (length before)
        (take (length after) (drop (length before + length gone) (before ++ (gone ++ after)))),
    length-append before (gone ++ after),
    length-append gone after,
  )

  -- What realloc leaves of the block after the move.
  cut_lem :
      (before gone after ys : List ℕ)
      → realloc
          (move_within
            (before ++ (gone ++ after))
            (length before)
            (length before + length gone)
            (length after))
          (length before + length after)
        ≡ some ys
      → ys ≡ before ++ after
  cut_lem before gone after ys e =
      let moved : List ℕ =
        move_within (before ++ (gone ++ after)) (length before) (length before + length gone)
          (length after) in
      let n : ℕ = length before + length after in
      sym (take-all ys n (omega (arith, laws.sized moved ys n e)))
      ∙ laws.kept moved ys n n e (omega arith) (omega (arith, moved_length before gone after))
      ∙ remove_by_move before gone after _ _ _ n refl refl refl refl

  shrunk :
      (before gone after : List ℕ) (removed : List ℕ)
      → GrantsSize realloc (length before + length after)
      → shrink realloc (cursor before (gone ++ after)) (length gone) removed
        ≡ (ok removed, cursor before after)
  unfolding shrink payload_destroy
  shrunk before gone after removed grants =
      let moved : List ℕ =
        move_within (before ++ (gone ++ after)) (length before) (length before + length gone)
          (length after) in
      let n : ℕ = length before + length after in
      let rest : length before + length (gone ++ after) - length gone ≡ n =
        omega (arith, length-append gone after) in
      let count : length before + length (gone ++ after) - length before - length gone
          ≡ length after =
        omega (arith, length-append gone after) in
      let (ys, e) = grants moved in
      rw (rest, count, e, shrink)
        (ground (arith, cut_lem before gone after ys e, length_zero before, length_zero after))

  -- When realloc grants every block of the size that is left and the sizes fit size_t, removing
  -- bytes returns those behind the cursor and takes them out of the stream; the cursor stays.
  pub payload_remove-cursor :
      (before gone after : List ℕ)
      → GrantsSize realloc (length before + length after)
      → length before + length gone + length after ≤ size_max
      → payload_remove realloc (length gone) (cursor before (gone ++ after))
        ≡ (ok gone, cursor before after)
  unfolding payload_remove
  payload_remove-cursor before [] after grants fits = refl
  payload_remove-cursor before (x ∷ gone) after grants fits = ground (
    arith,
    nonempty before x (gone ++ after),
    length-append gone after,
    next_bytes before (x ∷ gone) after,
    shrunk before (x ∷ gone) after (x ∷ gone) grants,
  )
