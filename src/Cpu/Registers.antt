-- ===== src/Cpu/Registers.antt =====
-- src/cpu/src/registers.c.
use so_tp_2024_2c_the_last_o.Prelude.Text.{same_text}
use so_tp_2024_2c_the_last_o.Prelude.{ℕ, Option, none, some, List, [], ◌∷◌, if◌then◌else◌}
use so_tp_2024_2c_the_last_o.Serialize.Context.{CpuRegisters}

pub data CpuRegister : Type 0 where
  pc_register ax_register bx_register cx_register dx_register : CpuRegister
  ex_register fx_register gx_register hx_register : CpuRegister

-- The loops that look a name up in a table of names.
unfoldable pub find_name {ℓ} : {A : Type ℓ} → List (List ℕ × A) → List ℕ → Option A
unfolding same_text
find_name [] name = none
find_name (entry ∷ entries) name =
    let rest = find_name entries name in if same_text entry.0 name then some entry.1 else rest

-- CPU_REGISTERS: each name with its register, in ASCII.
abbrev cpu_register_names : List (List ℕ × CpuRegister)
cpu_register_names =
    (80 ∷ (67 ∷ []), pc_register)
    ∷ ((65 ∷ (88 ∷ []), ax_register)
        ∷ ((66 ∷ (88 ∷ []), bx_register)
            ∷ ((67 ∷ (88 ∷ []), cx_register)
                ∷ ((68 ∷ (88 ∷ []), dx_register)
                    ∷ ((69 ∷ (88 ∷ []), ex_register)
                        ∷ ((70 ∷ (88 ∷ []), fx_register)
                            ∷ ((71 ∷ (88 ∷ []), gx_register)
                                ∷ ((72 ∷ (88 ∷ []), hx_register) ∷ []))))))))

unfoldable pub decode_register : List ℕ → Option CpuRegister
unfolding find_name
decode_register name = find_name cpu_register_names name

-- All registers are uint32_t.
unfoldable pub get_register_value : CpuRegisters → CpuRegister → ℕ
get_register_value registers pc_register = registers.pc
get_register_value registers ax_register = registers.ax
get_register_value registers bx_register = registers.bx
get_register_value registers cx_register = registers.cx
get_register_value registers dx_register = registers.dx
get_register_value registers ex_register = registers.ex
get_register_value registers fx_register = registers.fx
get_register_value registers gx_register = registers.gx
get_register_value registers hx_register = registers.hx

unfoldable pub set_register_value : CpuRegisters → CpuRegister → ℕ → CpuRegisters
set_register_value registers pc_register value = record registers { pc = value }
set_register_value registers ax_register value = record registers { ax = value }
set_register_value registers bx_register value = record registers { bx = value }
set_register_value registers cx_register value = record registers { cx = value }
set_register_value registers dx_register value = record registers { dx = value }
set_register_value registers ex_register value = record registers { ex = value }
set_register_value registers fx_register value = record registers { fx = value }
set_register_value registers gx_register value = record registers { gx = value }
set_register_value registers hx_register value = record registers { hx = value }

abbrev pub get_register_size : CpuRegister → ℕ
get_register_size register_data = 4
