-- ===== src/Soc.antt =====
-- The state of a RefSi M1 device that its command processor works on
-- (driver/include/refsidrv/refsi_command_processor.h, refsi_accelerator.h, refsi_device_m.h).
use nupu_refsi.Prelude.{ℕ, List, Bool, Option}
use nupu_refsi.Machine.{Machine}

-- Calls on the MMU of a hart.
pub data MmuCall : Type 0 where
  flush_tlb flush_icache : (hart : ℕ) → MmuCall

-- `registers` are those of the command processor; `windows` the window devices of the memory
-- controller. Of the accelerator: whether an ISA is set, the harts that a new simulator gets, and
-- the harts of the simulator, if there is one. `mmu_calls` records the cache maintenance, latest
-- first.
pub record Soc : Type 0 where
  pub machine : Machine
  pub windows : List ℕ
  pub registers : ℕ → ℕ
  pub has_isa : Bool
  pub total_harts : ℕ
  pub sim : Option ℕ
  pub mmu_calls : List MmuCall

-- struct hart_state_entry, without the field `ktb_addr`, which nothing reads.
pub record HartState : Type 0 where
  pub stack_top_addr : ℕ
  pub extra_args : List ℕ

-- The registers of a hart when a hart group starts: pc, ra, sp, a0 and a1 to a7.
pub record HartSetup : Type 0 where
  pub pc : ℕ
  pub ra : ℕ
  pub sp : ℕ
  pub a0 : ℕ
  pub args : List ℕ
