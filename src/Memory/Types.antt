-- ===== src/Memory/Types.antt =====
-- The state of the memory module: src/memoria/src/memoria.h and the globals of memoria.c.
use so_tp_2024_2c_the_last_o.Prelude.{ℕ, Bool, Option, List}
use so_tp_2024_2c_the_last_o.Serialize.Context.{CpuRegisters}

pub data Scheme : Type 0 where
  fixed dynamic : Scheme

pub data Algorithm : Type 0 where
  first_fit best_fit worst_fit : Algorithm

-- `address` is the pointer to the t_Partition, by which a process refers to it. `pid` is
-- indeterminate until the partition is occupied; the model has 0 there, which nothing reads.
pub record Partition : Type 0 where
  pub address : ℕ
  pub size : ℕ
  pub base : ℕ
  pub occupied : Bool
  pub pid : ℕ

pub record MemoryThread : Type 0 where
  pub tid : ℕ
  pub registers : CpuRegisters
  pub instructions : List (List ℕ)

-- An entry of array_memory_threads: `uninit` is one that realloc made and nothing wrote.
pub data Slot : Type 0 where
  null uninit : Slot
  live : MemoryThread → Slot

-- tid_count is the length of `threads`.
pub record MemoryProcess : Type 0 where
  pub pid : ℕ
  pub size : ℕ
  pub partition : ℕ
  pub threads : List Slot

-- PID_COUNT is the length of `processes`; a NULL entry of ARRAY_PROCESS_MEMORY is `none`.
-- `next_address` is where the next t_Partition will be allocated.
pub record Memory : Type 0 where
  pub scheme : Scheme
  pub algorithm : Algorithm
  pub table : List Partition
  pub next_address : ℕ
  pub processes : List (Option MemoryProcess)
  pub main_memory : List ℕ
