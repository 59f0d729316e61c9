-- ===== src/Payload/Seek.antt =====
-- payload_seek against the position that it is asked for.
use so_tp_2024_2c_the_last_o.Prelude.{
  ℕ, zero, suc, ◌+◌, ◌-◌, ◌≤◌, ◌<◌, ◌≡◌, ◌≢◌, refl, ◌⊎◌, inl, inr, arith,
}
use native.Mathlib.Decide.{dec_le, dec_lt}
use so_tp_2024_2c_the_last_o.Prelude.Int.{ℤ, pos, negsuc, ◌+ℤ◌}
use so_tp_2024_2c_the_last_o.Payload.Defs.{
  Payload, ok, err, Errno, einval, erange, edom, size_max, Whence, seek_set, seek_cur, seek_end,
  seek_other, payload_seek,
}

-- The position asked for, as an integer.
unfoldable pub seek_target : ℤ → Whence → Payload → ℤ
seek_target offset seek_set p = offset
seek_target offset seek_cur p = pos p.offset +ℤ offset
seek_target offset seek_end p = pos p.size +ℤ offset
seek_target offset seek_other p = offset

-- A position outside the stream.
abbrev pub Outside : Payload → ℤ → Type 0
Outside p (pos n) = p.size < n
Outside p (negsuc n) = Unit {0}

-- What payload_seek does: it moves the cursor to the position asked for when that lies in the
-- stream, and otherwise fails and leaves the payload.
abbrev pub Seeks : ℤ → Whence → Payload → Type 0
Seeks offset whence p =
    ((m : ℕ) × (seek_target offset whence p ≡ pos m)
      × (m ≤ p.size)
      × (payload_seek offset whence p ≡ (ok tt, record p { offset = m })))
    ⊎ ((e : Errno) × Outside p (seek_target offset whence p)
        × (payload_seek offset whence p ≡ (err e, p)))

-- On a payload whose cursor lies in the stream and whose size fits size_t, a seek of a known
-- whence moves the cursor to the position asked for when that lies in the stream; otherwise it
-- fails and leaves the payload.
pub payload_seek_lem :
    (offset : ℤ) (whence : Whence) (p : Payload)
    → whence ≢ seek_other
    → p.offset ≤ p.size
    → p.size ≤ size_max
    → Seeks offset whence p
unfolding payload_seek seek_target ◌+ℤ◌
payload_seek_lem (pos n) seek_set p known inside fits = elim (dec_le n p.size) [
  | yes h ↦ inl (n, refl, h, ground arith)
  | no h ↦ inr (edom, ground arith, ground arith)
]
payload_seek_lem (negsuc n) seek_set p known inside fits = inr (einval, tt, refl)
payload_seek_lem (pos n) seek_cur p known inside fits = elim (dec_le (p.offset + n) p.size) [
  | yes h ↦ inl (p.offset + n, ground arith, h, ground arith)
  | no h ↦ elim (dec_lt (size_max - p.offset) n) [
    | yes k ↦ inr (erange, ground arith, ground arith)
    | no k ↦ inr (edom, ground arith, ground arith)
  ]
]
payload_seek_lem (negsuc n) seek_cur p known inside fits = elim (dec_le (suc n) p.offset) [
  | yes h ↦ inl (p.offset - suc n, ground arith, omega arith, ground arith)
  | no h ↦ inr (edom, ground arith, ground arith)
]
payload_seek_lem (pos zero) seek_end p known inside fits =
    inl (p.size, ground arith, omega arith, refl)
payload_seek_lem (pos (suc n)) seek_end p known inside fits = inr (einval, ground arith, refl)
payload_seek_lem (negsuc n) seek_end p known inside fits = elim (dec_le (suc n) p.size) [
  | yes h ↦ inl (p.size - suc n, ground arith, omega arith, ground arith)
  | no h ↦ inr (edom, ground arith, ground arith)
]
payload_seek_lem (pos n) seek_other p known inside fits = absurd (known refl)
payload_seek_lem (negsuc n) seek_other p known inside fits = absurd (known refl)
