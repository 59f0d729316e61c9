-- ===== src/Serialize/Bytes.antt =====
-- The bytes of the integers that the serializers copy: little endian, as on x86-64, where the
-- modules run.
use so_tp_2024_2c_the_last_o.Prelude.{
  ℕ, zero, suc, ◌+◌, ◌-◌, ◌*◌, ◌/◌, ◌%◌, ◌^◌, ◌≡◌, refl, List, [], ◌∷◌, arith, length, ltb,
  if◌then◌else◌,
}
use so_tp_2024_2c_the_last_o.Prelude.Int.{ℤ, pos, negsuc, ◌≤ℤ◌}

-- The `width` bytes of an unsigned integer of that width; what it holds above is cut off.
unfoldable pub to_bytes : ℕ → ℕ → List ℕ
to_bytes zero v = []
to_bytes (suc width) v = v % 256 ∷ to_bytes width (v / 256)

unfoldable pub of_bytes : List ℕ → ℕ
of_bytes [] = 0
of_bytes (b ∷ bytes) = b + 256 * of_bytes bytes

pub length-to_bytes : (width v : ℕ) → length (to_bytes width v) ≡ width
unfolding to_bytes
length-to_bytes zero v = refl
length-to_bytes (suc width) v = omega (arith, length-to_bytes width (v / 256))

pub of_bytes-to_bytes : (v : ℕ) → of_bytes (to_bytes 4 v) ≡ v % 2 ^ 32
unfolding to_bytes of_bytes
of_bytes-to_bytes v = omega arith

-- An int8_t and its byte; the conversion of an int to int8_t keeps the low byte.
unfoldable pub int8_to_byte : ℤ → ℕ
int8_to_byte (pos n) = n % 256
int8_to_byte (negsuc n) = 255 - n % 256

unfoldable pub int8_of_byte : ℕ → ℤ
int8_of_byte b = if ltb b 128 then pos b else negsuc (255 - b)

pub int8_of_byte-to_byte :
    (x : ℤ) → negsuc 127 ≤ℤ x → x ≤ℤ pos 127 → int8_of_byte (int8_to_byte x) ≡ x
unfolding int8_to_byte int8_of_byte
int8_of_byte-to_byte (pos n) lo hi = ground arith
int8_of_byte-to_byte (negsuc n) lo hi = ground arith
