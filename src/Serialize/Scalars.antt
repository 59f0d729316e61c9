-- ===== src/Serialize/Scalars.antt =====
-- size.c, result.c, cpu_opcode.c, eviction_reason.c and kernel_interrupt.c of
-- src/utils/src/utils/serialize/, and the copies of PID and TID that its clients make.
use so_tp_2024_2c_the_last_o.Prelude.{ℕ, ◌%◌, ◌^◌, some, if◌then◌else◌, ◌||◌}
use so_tp_2024_2c_the_last_o.Prelude.Int.{ℤ, pos, negsuc, ltb_ℤ}
use so_tp_2024_2c_the_last_o.Payload.Defs.{
  M, Realloc, ◌>>=◌, pure, fail, erange, payload_add, payload_remove,
}
use so_tp_2024_2c_the_last_o.Serialize.Bytes.{to_bytes, of_bytes, int8_to_byte, int8_of_byte}

-- The opcodes in the order of e_CPU_OpCode; their number is their place.
pub data CpuOpcode : Type 0 where
  set read_mem write_mem sum sub jnz log process_create process_exit thread_create thread_join :
      CpuOpcode
  thread_cancel thread_exit mutex_create mutex_lock mutex_unlock dump_memory io : CpuOpcode

pub data EvictionReason : Type 0 where
  unexpected_error segmentation_fault exit kill syscall quantum_kernel_interrupt : EvictionReason

pub data KernelInterrupt : Type 0 where
  none_interrupt quantum_interrupt kill_interrupt : KernelInterrupt

unfoldable pub opcode_number : CpuOpcode → ℕ
opcode_number set = 0
opcode_number read_mem = 1
opcode_number write_mem = 2
opcode_number sum = 3
opcode_number sub = 4
opcode_number jnz = 5
opcode_number log = 6
opcode_number process_create = 7
opcode_number process_exit = 8
opcode_number thread_create = 9
opcode_number thread_join = 10
opcode_number thread_cancel = 11
opcode_number thread_exit = 12
opcode_number mutex_create = 13
opcode_number mutex_lock = 14
opcode_number mutex_unlock = 15
opcode_number dump_memory = 16
opcode_number io = 17

unfoldable pub eviction_number : EvictionReason → ℕ
eviction_number unexpected_error = 0
eviction_number segmentation_fault = 1
eviction_number exit = 2
eviction_number kill = 3
eviction_number syscall = 4
eviction_number quantum_kernel_interrupt = 5

unfoldable pub interrupt_number : KernelInterrupt → ℕ
interrupt_number none_interrupt = 0
interrupt_number quantum_interrupt = 1
interrupt_number kill_interrupt = 2

module _ (realloc : Realloc) where
  -- payload_add of a variable of `width` bytes, and payload_remove into one.
  unfoldable pub add_word : ℕ → ℕ → M (Unit {0})
  add_word width v = payload_add realloc (some (to_bytes width v)) width

  unfoldable pub remove_word : ℕ → M ℕ
  remove_word width = do bytes ← payload_remove realloc width; pure (of_bytes bytes)

  -- t_Size is uint32_t: a size_t of 2 ^ 32 or more is cut.
  unfoldable pub size_serialize : ℕ → M (Unit {0})
  size_serialize source = add_word 4 (source % 2 ^ 32)

  unfoldable pub size_deserialize : M ℕ
  size_deserialize = remove_word 4

  -- t_EnumValue and t_Result are int8_t. What is read back is the number of the constant, as the
  -- C code casts it to the enum without a check.
  unfoldable pub enum_serialize : ℕ → M (Unit {0})
  enum_serialize source = add_word 1 (int8_to_byte (pos source))

  unfoldable pub enum_deserialize : M ℤ
  enum_deserialize = do byte ← remove_word 1; pure (int8_of_byte byte)

  unfoldable pub cpu_opcode_serialize : CpuOpcode → M (Unit {0})
  cpu_opcode_serialize source = enum_serialize (opcode_number source)

  unfoldable pub cpu_opcode_deserialize : M ℤ
  cpu_opcode_deserialize = enum_deserialize

  unfoldable pub eviction_reason_serialize : EvictionReason → M (Unit {0})
  eviction_reason_serialize source = enum_serialize (eviction_number source)

  unfoldable pub eviction_reason_deserialize : M ℤ
  eviction_reason_deserialize = enum_deserialize

  unfoldable pub kernel_interrupt_serialize : KernelInterrupt → M (Unit {0})
  kernel_interrupt_serialize source = enum_serialize (interrupt_number source)

  unfoldable pub kernel_interrupt_deserialize : M ℤ
  kernel_interrupt_deserialize = enum_deserialize

  unfoldable pub result_serialize : ℤ → M (Unit {0})
  result_serialize source =
      if ltb_ℤ source (negsuc 127) || ltb_ℤ (pos 127) source
      then fail erange
      else add_word 1 (int8_to_byte source)

  unfoldable pub result_deserialize : M ℤ
  result_deserialize = do byte ← remove_word 1; pure (int8_of_byte byte)
