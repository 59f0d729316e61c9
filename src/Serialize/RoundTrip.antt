-- ===== src/Serialize/RoundTrip.antt =====
-- What a deserializer makes of the bytes that the serializer of the same file wrote.
use so_tp_2024_2c_the_last_o.Prelude.{
  ℕ, ◌%◌, ◌^◌, ◌≤◌, ◌<◌, ◌≡◌, ap, ◌∙◌, ◌||◌, true, false, List, ◌++◌, arith,
}
use so_tp_2024_2c_the_last_o.Prelude.Int.{ℤ, pos, negsuc, ◌≤ℤ◌, ltb_ℤ}
use so_tp_2024_2c_the_last_o.Payload.Defs.{Payload, M, err, erange, Realloc, ◌>>=◌, ◌>>◌, pure}
use so_tp_2024_2c_the_last_o.Payload.Cursor.{Reallocs, Grants}
use so_tp_2024_2c_the_last_o.Serialize.Bytes.{
  to_bytes, of_bytes, int8_to_byte, int8_of_byte, int8_of_byte-to_byte,
}
use so_tp_2024_2c_the_last_o.Serialize.Scalars.{
  CpuOpcode, opcode_number, size_serialize, size_deserialize, enum_serialize, enum_deserialize,
  result_serialize, result_deserialize, cpu_opcode_serialize, cpu_opcode_deserialize, add_word,
  remove_word,
}
use so_tp_2024_2c_the_last_o.Serialize.Context.{
  ExecContext, exec_context_serialize, exec_context_deserialize,
}
use so_tp_2024_2c_the_last_o.Serialize.Transfer.{
  Writes, Reads, Writes-then, Reads-then, Reads-map, add_word-Writes, remove_word-Reads,
  remove_word-Reads_32,
}

-- What `w` writes, `r` reads back as `a`: at any place of a payload, leaving what stands around it.
abbrev pub Travels : {A : Type 0} → M (Unit {0}) → M A → A → Type 0
Travels w r a = (bytes : List ℕ) × Writes w bytes × Reads r bytes a

of_byte : (v : ℕ) → v < 256 → of_bytes (to_bytes 1 v) ≡ v
unfolding to_bytes of_bytes
of_byte v h = omega arith

int8_to_byte-lt : (x : ℤ) → int8_to_byte x < 256
unfolding int8_to_byte
int8_to_byte-lt (pos n) = omega arith
int8_to_byte-lt (negsuc n) = omega arith

opcode_number-le : (o : CpuOpcode) → opcode_number o ≤ 17
unfolding opcode_number
opcode_number-le o = ground arith

-- The guard of result_serialize passes exactly the int8_t.
in_range :
    (x : ℤ) → negsuc 127 ≤ℤ x → x ≤ℤ pos 127 → (ltb_ℤ x (negsuc 127) || ltb_ℤ (pos 127) x) ≡ false
in_range x lo hi = ground arith

out_of_range :
    (x : ℤ)
    → ¬ ((negsuc 127 ≤ℤ x) × (x ≤ℤ pos 127))
    → (ltb_ℤ x (negsuc 127) || ltb_ℤ (pos 127) x) ≡ true
out_of_range x h = ground arith

-- The eleven fields are uint32_t.
pub record FitsContext (c : ExecContext) : Type 0 where
  pub pc : c.cpu_registers.pc < 2 ^ 32
  pub ax : c.cpu_registers.ax < 2 ^ 32
  pub bx : c.cpu_registers.bx < 2 ^ 32
  pub cx : c.cpu_registers.cx < 2 ^ 32
  pub dx : c.cpu_registers.dx < 2 ^ 32
  pub ex : c.cpu_registers.ex < 2 ^ 32
  pub fx : c.cpu_registers.fx < 2 ^ 32
  pub gx : c.cpu_registers.gx < 2 ^ 32
  pub hx : c.cpu_registers.hx < 2 ^ 32
  pub base : c.base < 2 ^ 32
  pub limit : c.limit < 2 ^ 32

abbrev context_bytes : ExecContext → List ℕ
context_bytes c =
    to_bytes 4 c.cpu_registers.pc
    ++ (to_bytes 4 c.cpu_registers.ax
        ++ (to_bytes 4 c.cpu_registers.bx
            ++ (to_bytes 4 c.cpu_registers.cx
                ++ (to_bytes 4 c.cpu_registers.dx
                    ++ (to_bytes 4 c.cpu_registers.ex
                        ++ (to_bytes 4 c.cpu_registers.fx
                            ++ (to_bytes 4 c.cpu_registers.gx
                                ++ (to_bytes 4 c.cpu_registers.hx
                                    ++ (to_bytes 4 c.base ++ to_bytes 4 c.limit)))))))))

module _ (realloc : Realloc) (laws : Reallocs realloc) (grants : Grants realloc) where
  -- When realloc grants all blocks and keeps their bytes, a size arrives as its low 32 bits.
  pub size-Travels :
      (v : ℕ) → Travels (size_serialize realloc v) (size_deserialize realloc) (v % 2 ^ 32)
  unfolding size_serialize size_deserialize
  size-Travels v = (
    to_bytes 4 (v % 2 ^ 32),
    add_word-Writes realloc laws grants 4 (v % 2 ^ 32),
    remove_word-Reads_32 realloc laws grants (v % 2 ^ 32) (omega arith),
  )

  byte-Travels :
      (x : ℤ)
      → negsuc 127 ≤ℤ x
      → x ≤ℤ pos 127
      → Travels
          (add_word realloc 1 (int8_to_byte x))
          (remove_word realloc 1 >>= λ byte. pure (int8_of_byte byte))
          x
  byte-Travels x lo hi =
      let same : int8_of_byte (of_bytes (to_bytes 1 (int8_to_byte x))) ≡ x =
        ap int8_of_byte (of_byte (int8_to_byte x) (int8_to_byte-lt x))
        ∙ int8_of_byte-to_byte x lo hi in
      (
        to_bytes 1 (int8_to_byte x),
        add_word-Writes realloc laws grants 1 (int8_to_byte x),
        rw same at
            (Reads-map int8_of_byte (remove_word-Reads realloc laws grants 1 (int8_to_byte x))),
      )

  -- When realloc grants all blocks and keeps their bytes, an opcode arrives as its number.
  pub cpu_opcode-Travels :
      (o : CpuOpcode)
      → Travels
          (cpu_opcode_serialize realloc o)
          (cpu_opcode_deserialize realloc)
          (pos (opcode_number o))
  unfolding cpu_opcode_serialize cpu_opcode_deserialize enum_serialize enum_deserialize
  cpu_opcode-Travels o =
      byte-Travels (pos (opcode_number o)) (omega arith) (omega (arith, opcode_number-le o))

  -- When realloc grants all blocks and keeps their bytes, a result from -128 to 127 arrives
  -- unchanged.
  pub result-Travels :
      (x : ℤ)
      → negsuc 127 ≤ℤ x
      → x ≤ℤ pos 127
      → Travels (result_serialize realloc x) (result_deserialize realloc) x
  unfolding result_serialize result_deserialize
  result-Travels x lo hi = rw (in_range x lo hi) (byte-Travels x lo hi)

  pub result-Writes :
      (x : ℤ)
      → negsuc 127 ≤ℤ x
      → x ≤ℤ pos 127
      → Writes (result_serialize realloc x) (to_bytes 1 (int8_to_byte x))
  unfolding result_serialize
  result-Writes x lo hi =
      rw (in_range x lo hi) (add_word-Writes realloc laws grants 1 (int8_to_byte x))

  pub result-Reads :
      (x : ℤ)
      → negsuc 127 ≤ℤ x
      → x ≤ℤ pos 127
      → Reads (result_deserialize realloc) (to_bytes 1 (int8_to_byte x)) x
  unfolding result_deserialize
  result-Reads x lo hi =
      let same : int8_of_byte (of_bytes (to_bytes 1 (int8_to_byte x))) ≡ x =
        ap int8_of_byte (of_byte (int8_to_byte x) (int8_to_byte-lt x))
        ∙ int8_of_byte-to_byte x lo hi in
      rw same at (Reads-map int8_of_byte (remove_word-Reads realloc laws grants 1 (int8_to_byte x)))

  context-Writes : (c : ExecContext) → Writes (exec_context_serialize realloc c) (context_bytes c)
  unfolding exec_context_serialize
  context-Writes c = w c.cpu_registers.pc (
      w c.cpu_registers.ax (
        w c.cpu_registers.bx (
          w c.cpu_registers.cx (
            w c.cpu_registers.dx (
              w c.cpu_registers.ex (
                w c.cpu_registers.fx (
                  w c.cpu_registers.gx (
                    w c.cpu_registers.hx
                      (w c.base (add_word-Writes realloc laws grants 4 c.limit))))))))))
    where
      w :
          (v : ℕ) {k : M (Unit {0})} {bytes : List ℕ}
          → Writes k bytes
          → Writes (add_word realloc 4 v >> k) (to_bytes 4 v ++ bytes)
      w v rest = Writes-then (add_word-Writes realloc laws grants 4 v) rest

  -- When realloc grants all blocks and keeps their bytes, an execution context whose fields fit
  -- uint32_t arrives unchanged, and what stands around it in the payload stays.
  pub exec_context-Travels :
      (c : ExecContext)
      → FitsContext c
      → Travels (exec_context_serialize realloc c) (exec_context_deserialize realloc) c
  unfolding exec_context_deserialize
  exec_context-Travels c h = (
    context_bytes c,
    context-Writes c,
    r _ h.pc (
        r _ h.ax (
          r _ h.bx (
            r _ h.cx (
              r _ h.dx (
                r _ h.ex (
                  r _ h.fx (
                    r _ h.gx (
                      r _ h.hx (
                        r _ h.base (
                          Reads-map _
                            (remove_word-Reads_32 realloc laws grants c.limit h.limit))))))))))),
  )
    where
      r :
          {v : ℕ} {B : Type 0} (f : ℕ → M B) {bytes : List ℕ} {b : B}
          → v < 2 ^ 32
          → Reads (f v) bytes b
          → Reads (remove_word realloc 4 >>= f) (to_bytes 4 v ++ bytes) b
      r {v} f fits rest = Reads-then f (remove_word-Reads_32 realloc laws grants v fits) rest

-- A result below -128 or above 127 is refused with ERANGE, and the payload stays.
pub result_serialize_out :
    (realloc : Realloc) (x : ℤ) (p : Payload)
    → ¬ ((negsuc 127 ≤ℤ x) × (x ≤ℤ pos 127))
    → result_serialize realloc x p ≡ (err erange, p)
unfolding result_serialize
result_serialize_out realloc x p h = rw (out_of_range x h)
