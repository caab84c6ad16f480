-- ===== src/Dma/Registers.antt =====
-- The registers of the DMA device: address decoding, loads and stores
-- (driver/source/refsidrv/kernel_dma.cpp).
use nupu_refsi.Prelude.{
  ℕ, ◌-◌, ◌*◌, ◌^◌, ◌&&◌, ◌||◌, Bool, true, false, List, Option, none, some, bit_and, ltb, leb,
  ◌==◌, ◌!=◌, if◌then◌else◌, u32, add64, sub64, shr,
}
use nupu_refsi.Config.{reg_dmactrl, reg_dmastartseq, reg_dmadoneseq, dma_num_regs, dma_start}
use nupu_refsi.Bytes.{word_of_bytes, bytes_of_word}
use nupu_refsi.HostMemory.{Ptr}
use nupu_refsi.Machine.{ElfMachine}
use nupu_refsi.Dma.{DmaState, set_reg, do_kernel_dma}

-- DMADevice::get_dma_reg: the index of the register at a relative address.
unfoldable pub get_dma_reg : ℕ → ℕ → Option ℕ
get_dma_reg base_addr rel_addr =
    let addr = add64 rel_addr base_addr in
    if leb base_addr addr && ltb addr (add64 base_addr (dma_num_regs * 8))
    then some (shr (sub64 addr base_addr) 3)
    else none

-- The bits of a register that its users may write.
unfoldable pub write_mask : ℕ → ℕ
write_mask reg =
    if reg == reg_dmactrl then 2 ^ 64 - 2 else if reg == reg_dmastartseq then 0 else 2 ^ 64 - 1

-- DMADevice::write_dma_reg
unfoldable pub write_dma_reg : (ℕ → Option Ptr) → DmaState → ℕ → ℕ → Option (Bool × DmaState)
write_dma_reg pointer s reg val =
    if reg == reg_dmadoneseq
    then some (leb (u32 val) (u32 (s.regs reg_dmadoneseq)), s)
    else if write_mask reg == 0
    then some (true, s)
    else let s' = record s { regs = set_reg s.regs reg (bit_and val (write_mask reg)) } in
      if reg == reg_dmactrl && bit_and val dma_start != 0
      then do_kernel_dma pointer s'
      else some (true, s')

-- The sizes of the accesses that the device takes, by the machine's word size.
unfoldable pub load_size_ok : ElfMachine → ℕ → Bool
load_size_ok ElfMachine.unknown len = false
load_size_ok ElfMachine.riscv_rv32 len = len == 4
load_size_ok ElfMachine.riscv_rv64 len = len == 8 || len == 4

unfoldable pub store_size_ok : ElfMachine → ℕ → Bool
store_size_ok ElfMachine.unknown len = false
store_size_ok ElfMachine.riscv_rv32 len = len == 4
store_size_ok ElfMachine.riscv_rv64 len = len == 8

-- DMADevice::load with read_dma_reg; `none` is the result false.
unfoldable pub dma_load : ElfMachine → ℕ → (ℕ → ℕ) → ℕ → ℕ → Option (List ℕ)
dma_load machine base_addr regs addr len =
    if load_size_ok machine len
    then elim (get_dma_reg base_addr addr) [
      | none ↦ none
      | some reg ↦ some (bytes_of_word len (regs reg))
    ]
    else none

-- DMADevice::store
unfoldable pub dma_store :
    (ℕ → Option Ptr) → ElfMachine → ℕ → DmaState → ℕ → ℕ → List ℕ → Option (Bool × DmaState)
dma_store pointer machine base_addr s addr len bytes =
    if store_size_ok machine len
    then elim (get_dma_reg base_addr addr) [
      | none ↦ some (false, s)
      | some reg ↦ write_dma_reg pointer s reg (word_of_bytes bytes)
    ]
    else some (false, s)
