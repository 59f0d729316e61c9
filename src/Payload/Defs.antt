-- ===== src/Payload/Defs.antt =====
-- The operations of src/utils/src/utils/payload.c, statement by statement.
use so_tp_2024_2c_the_last_o.Prelude.{
  ℕ, zero, suc, ◌+◌, ◌-◌, ◌%◌, ◌^◌, Bool, not, Option, none, some, List, [], ltb, ◌==◌,
  if◌then◌else◌, take, drop,
}
use so_tp_2024_2c_the_last_o.Prelude.Int.{ℤ, pos, negsuc}
use so_tp_2024_2c_the_last_o.Prelude.Buffer.{write_at, move_within}

pub record Payload : Type 0 where
  pub size : ℕ
  pub stream : List ℕ
  pub offset : ℕ

-- errno as the functions set it; `eio` is whatever a failing send leaves in it, and `eoverflow` stands
-- for an int that overflows, which is undefined behaviour.
pub data Errno : Type 0 where
  einval erange edom enomem efault eio eoverflow : Errno

pub data Result {ℓ} (A : Type ℓ) : Type ℓ where
  ok : A → Result A
  err : Errno → Result A

-- What a call returns, and the payload as it leaves it, also when it fails.
abbrev pub M : Type 0 → Type 0
M A = Payload → Result A × Payload

abbrev pub pure : {A : Type 0} → A → M A
pure a p = (ok a, p)

abbrev pub fail : {A : Type 0} → Errno → M A
fail e p = (err e, p)

abbrev pub bind : {A B : Type 0} → Result A × Payload → (A → M B) → Result B × Payload
bind (ok a, p) f = f a p
bind (err e, p) f = (err e, p)

infixl 5 ◌>>=◌ ◌>>◌
abbrev pub ◌>>=◌ : {A B : Type 0} → M A → (A → M B) → M B
◌>>=◌ m f p = bind (m p) f

abbrev pub ◌>>◌ : {B : Type 0} → M (Unit {0}) → M B → M B
m >> k = m >>= λ _. k

abbrev pub size_max : ℕ
size_max = 2 ^ 64 - 1

-- a - b on size_t.
unfoldable pub sub_size : ℕ → ℕ → ℕ
sub_size a b = (a + 2 ^ 64 - b) % 2 ^ 64

unfoldable pub payload_init : Payload
payload_init = record { size = 0; stream = []; offset = 0 }

unfoldable pub payload_destroy : Payload → Payload
payload_destroy p = record p { size = 0; stream = []; offset = 0 }

-- `realloc block n` is the block of n bytes, or `none` for NULL.
abbrev pub Realloc : Type 0
Realloc = List ℕ → ℕ → Option (List ℕ)

module _ (realloc : Realloc) where
  -- The bytes behind a source pointer; none for NULL, which leaves the gap as memmove left it.
  abbrev pub copy_source : List ℕ → ℕ → Option (List ℕ) → ℕ → List ℕ
  copy_source stream at none n = stream
  copy_source stream at (some source) n = write_at stream at (take n source)

  unfoldable pub insert_into : Payload → Option (List ℕ) → ℕ → List ℕ → Payload
  insert_into p source n grown =
      let size' = p.size + n in
      let moved =
        if ltb p.offset (size' - n)
        then move_within grown (p.offset + n) p.offset (size' - n - p.offset)
        else grown in
      record { size = size'; stream = copy_source moved p.offset source n; offset = p.offset + n }

  unfoldable pub payload_add : Option (List ℕ) → ℕ → M (Unit {0})
  unfolding insert_into
  payload_add source n p =
      if n == 0
      then (ok tt, p)
      else if ltb (size_max - p.size) n
      then (err erange, p)
      else elim (realloc p.stream (p.size + n)) [
        | none ↦ (err enomem, p)
        | some grown ↦ (ok tt, insert_into p source n grown)
      ]

  unfoldable pub shrink : Payload → ℕ → List ℕ → Result (List ℕ) × Payload
  shrink p n removed =
      let new_size = p.size - n in
      if ltb 0 new_size
      then (let moved = move_within p.stream p.offset (p.offset + n) (p.size - p.offset - n) in
          elim (realloc moved new_size) [
            | none ↦ (err enomem, record p { stream = moved })
            | some stream' ↦ (ok removed, record p { size = new_size; stream = stream' })
          ])
      else (ok removed, payload_destroy p)

  -- The bytes are what memcpy brings to the destination; with a NULL destination the caller drops them.
  unfoldable pub payload_remove : ℕ → M (List ℕ)
  unfolding shrink payload_destroy sub_size
  payload_remove n p = if n == 0 then (ok [], p) else elim p.stream [
    | [] ↦ (err einval, p)
    | _ ↦
        if ltb (sub_size p.size p.offset) n
        then (err edom, p)
        else shrink p n (take n (drop p.offset p.stream))
  ]

  unfoldable pub overwrite : Payload → ℕ → List ℕ → Option (List ℕ) → ℕ → Payload
  overwrite p size' stream source n = record {
    size = size';
    stream = copy_source stream p.offset source n;
    offset = p.offset + n;
  }

  unfoldable pub payload_write : Option (List ℕ) → ℕ → M (Unit {0})
  unfolding overwrite sub_size
  payload_write source n p =
      if n == 0
      then (ok tt, p)
      else if ltb (sub_size p.size p.offset) n
      then if ltb (size_max - p.offset) n
        then (err erange, p)
        else elim (realloc p.stream (p.offset + n)) [
          | none ↦ (err enomem, p)
          | some grown ↦ (ok tt, overwrite p (p.offset + n) grown source n)
        ]
      else (ok tt, overwrite p p.size p.stream source n)

-- Whether the destination is other than NULL, and how many bytes.
unfoldable pub payload_read : Bool → ℕ → M (List ℕ)
unfolding sub_size
payload_read destination n p = if n == 0 then (ok [], p) else elim p.stream [
  | [] ↦ (err einval, p)
  | _ ↦
      if not destination
      then (err einval, p)
      else if ltb (sub_size p.size p.offset) n
      then (err edom, p)
      else (ok (take n (drop p.offset p.stream)), record p { offset = p.offset + n })
]

pub data Whence : Type 0 where
  seek_set seek_cur seek_end : Whence
  -- Any other value of the parameter `whence`.
  seek_other : Whence

-- `offset` is a long; `negsuc n` is -(n + 1), whose opposite is n + 1.
unfoldable pub payload_seek : ℤ → Whence → M (Unit {0})
payload_seek (negsuc n) seek_set p = (err einval, p)
payload_seek (pos n) seek_set p =
    if ltb p.size n then (err edom, p) else (ok tt, record p { offset = n })
payload_seek (negsuc n) seek_cur p =
    if ltb p.offset (suc n) then (err edom, p) else (ok tt, record p { offset = p.offset - suc n })
payload_seek (pos n) seek_cur p =
    if ltb (size_max - p.offset) n
    then (err erange, p)
    else if ltb p.size (p.offset + n)
    then (err edom, p)
    else (ok tt, record p { offset = p.offset + n })
payload_seek (pos (suc n)) seek_end p = (err einval, p)
payload_seek (pos zero) seek_end p = (ok tt, record p { offset = p.size })
payload_seek (negsuc n) seek_end p =
    if ltb p.size (suc n) then (err edom, p) else (ok tt, record p { offset = p.size - suc n })
payload_seek offset seek_other p = (err einval, p)
