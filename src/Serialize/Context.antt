-- ===== src/Serialize/Context.antt =====
-- exec_context.h and exec_context.c of src/utils/src/utils/serialize/.
use so_tp_2024_2c_the_last_o.Prelude.{ℕ}
use so_tp_2024_2c_the_last_o.Payload.Defs.{M, Realloc, ◌>>=◌, ◌>>◌, pure}
use so_tp_2024_2c_the_last_o.Serialize.Scalars.{add_word, remove_word}

pub record CpuRegisters : Type 0 where
  pub pc : ℕ
  pub ax : ℕ
  pub bx : ℕ
  pub cx : ℕ
  pub dx : ℕ
  pub ex : ℕ
  pub fx : ℕ
  pub gx : ℕ
  pub hx : ℕ

pub record ExecContext : Type 0 where
  pub cpu_registers : CpuRegisters
  pub base : ℕ
  pub limit : ℕ

module _ (realloc : Realloc) where
  unfoldable pub exec_context_serialize : ExecContext → M (Unit {0})
  exec_context_serialize source = do
    add_word realloc 4 source.cpu_registers.pc
    add_word realloc 4 source.cpu_registers.ax
    add_word realloc 4 source.cpu_registers.bx
    add_word realloc 4 source.cpu_registers.cx
    add_word realloc 4 source.cpu_registers.dx
    add_word realloc 4 source.cpu_registers.ex
    add_word realloc 4 source.cpu_registers.fx
    add_word realloc 4 source.cpu_registers.gx
    add_word realloc 4 source.cpu_registers.hx
    add_word realloc 4 source.base
    add_word realloc 4 source.limit

  unfoldable pub exec_context_deserialize : M ExecContext
  exec_context_deserialize = do
    pc ← remove_word realloc 4
    ax ← remove_word realloc 4
    bx ← remove_word realloc 4
    cx ← remove_word realloc 4
    dx ← remove_word realloc 4
    ex ← remove_word realloc 4
    fx ← remove_word realloc 4
    gx ← remove_word realloc 4
    hx ← remove_word realloc 4
    base ← remove_word realloc 4
    limit ← remove_word realloc 4
    pure (record {
      cpu_registers = record {
        pc = pc;
        ax = ax;
        bx = bx;
        cx = cx;
        dx = dx;
        ex = ex;
        fx = fx;
        gx = gx;
        hx = hx;
      };
      base = base;
      limit = limit;
    })
