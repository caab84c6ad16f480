-- ===== src/CommandBuffer/DmaAddress.antt =====
-- The address at which the builder writes a DMA register, and the register that the device finds.
use nupu_refsi.Prelude.{ℕ, ◌<◌, ◌≡◌, some, u32, sub64, arith}
use nupu_refsi.Config.{dma_io_base, dma_num_regs}
use nupu_refsi.Dma.Registers.{get_dma_reg}
use nupu_refsi.CommandBuffer.{get_dma_reg_addr}

-- The address of a register that exists, as the STORE_IMM64 of the builder carries it, is the
-- address of that register in a device at the DMA base address.
pub get_dma_reg-get_dma_reg_addr :
    (reg : ℕ)
    → reg < dma_num_regs
    → get_dma_reg dma_io_base (sub64 (u32 (get_dma_reg_addr reg)) dma_io_base) ≡ some reg
unfolding get_dma_reg get_dma_reg_addr
get_dma_reg-get_dma_reg_addr reg h = ground arith
