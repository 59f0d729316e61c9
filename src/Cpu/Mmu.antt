-- ===== src/Cpu/Mmu.antt =====
-- mmu of src/cpu/src/cpu.c.
use so_tp_2024_2c_the_last_o.Prelude.{
  ℕ, ◌+◌, ◌-◌, ◌%◌, ◌^◌, ◌<◌, ◌≡◌, ◌||◌, ltb, leb, if◌then◌else◌, arith,
}
use so_tp_2024_2c_the_last_o.Payload.Defs.{Result, ok, err, erange, efault, size_max}
use so_tp_2024_2c_the_last_o.Serialize.Context.{ExecContext}

-- The base and the limit are uint32_t, so that their sum wraps around; the rest is size_t.
unfoldable pub mmu : ExecContext → ℕ → ℕ → Result ℕ
mmu context logical_address bytes =
    if ltb (size_max - context.base) logical_address
      || ltb (size_max - (context.base + logical_address)) bytes
    then err erange
    else if leb ((context.base + context.limit) % 2 ^ 32) (context.base + logical_address + bytes)
    then err efault
    else ok (context.base + logical_address)

-- A physical address that the mmu gives is the base plus the logical address, and the access ends
-- before the end of the partition.
pub mmu_inside :
    (context : ExecContext) (logical_address bytes physical_address : ℕ)
    → mmu context logical_address bytes ≡ ok physical_address
    → (physical_address ≡ context.base + logical_address)
      × (physical_address + bytes < context.base + context.limit)
unfolding mmu
mmu_inside context logical_address bytes physical_address e = (ground (arith, e), ground (arith, e))

-- When base plus limit is below 2 ^ 32, each access that ends before the last byte of the
-- partition is translated.
pub mmu_complete :
    (context : ExecContext) (logical_address bytes : ℕ)
    → context.base + context.limit < 2 ^ 32
    → logical_address + bytes < context.limit
    → mmu context logical_address bytes ≡ ok (context.base + logical_address)
unfolding mmu
mmu_complete context logical_address bytes h inside = ground (arith, h, inside)

-- When base plus limit is below 2 ^ 32, an access that ends with the last byte of the partition is
-- refused with EFAULT.
pub mmu_last_byte :
    (context : ExecContext) (logical_address bytes : ℕ)
    → context.base + context.limit < 2 ^ 32
    → logical_address + bytes ≡ context.limit
    → mmu context logical_address bytes ≡ err efault
unfolding mmu
mmu_last_byte context logical_address bytes h last = ground (arith, h, last)
