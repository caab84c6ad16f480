-- ===== src/Examples/Transfers.antt =====
-- The theorems on the DMA device at concrete inputs.
use nupu_refsi.Prelude.{ℕ, ◌≡◌, refl, inl, inr, Option, none, some, true, arith}
use nupu_refsi.Config.{reg_dmaxfersize0}
use nupu_refsi.HostMemory.{Ptr, HostMemory, copy_out}
use nupu_refsi.Dma.{completed, do_kernel_dma_1d, do_kernel_dma_2d, do_kernel_dma_3d, set_reg}
use nupu_refsi.Dma.Registers.{write_dma_reg, write_mask}
use nupu_refsi.Dma.Rows.{Copied, RowsFit}
use nupu_refsi.Dma.Planes.{PlanesCopied, PlanesFit}
use nupu_refsi.Dma.Sequence.{Synced, write_dma_reg-Synced}
use nupu_refsi.Dma.Transfers.{dma_1d_transfer, dma_2d_transfer, dma_3d_transfer}
use nupu_refsi.Examples.World.{at, memory, dma_plain, dma_strided}

dma_1d_transfer_example :
    (m : HostMemory) × (do_kernel_dma_1d dma_plain (at 1 8) (at 1 40)
      ≡ some (true, completed dma_plain m))
    × (copy_out m (at 1 8) 2 ≡ copy_out memory (at 1 40) 2)
dma_1d_transfer_example =
    dma_1d_transfer dma_plain (at 1 8) (at 1 40) (omega arith) refl (omega arith) (omega arith)
      (inr (inl (omega arith)))

rows_fit : (block : ℕ) → RowsFit memory (at block 4) 3 2 4
rows_fit block y h = omega arith

dma_2d_transfer_example :
    (m : HostMemory) × (do_kernel_dma_2d dma_strided (at 2 4) (at 1 4)
      ≡ some (true, completed dma_strided m))
    × Copied memory m (at 2 4) (at 1 4) 3 2 4 4
dma_2d_transfer_example =
    dma_2d_transfer dma_strided (at 2 4) (at 1 4) (omega arith) (omega arith) (omega arith)
      (inr (omega arith)) (omega arith) (λ e. absurd (omega arith)) (omega arith) (omega arith)
      (rows_fit 2) (rows_fit 1)

planes_fit : (block : ℕ) → PlanesFit memory (at block 4) 2 3 2 4 16
planes_fit block z y h k = omega arith

dma_3d_transfer_example :
    (m : HostMemory) × (do_kernel_dma_3d dma_strided (at 2 4) (at 1 4)
      ≡ some (true, completed dma_strided m))
    × PlanesCopied memory m (at 2 4) (at 1 4) 2 3 2 4 16 4 16
dma_3d_transfer_example =
    dma_3d_transfer dma_strided (at 2 4) (at 1 4) (omega arith) (omega arith) (omega arith)
      (omega arith) (omega arith) (omega arith) (omega arith) (omega arith) (omega arith)
      (omega arith) (λ e. absurd (omega arith)) (omega arith) (omega arith) (planes_fit 2)
      (planes_fit 1)

plain-Synced : Synced dma_plain
plain-Synced = record { done_is_started = refl; started_fits = omega arith }

-- The host pointers of the example: none, so that the START bit is refused.
no_pointer : ℕ → Option Ptr
no_pointer addr = none

size_written :
    write_dma_reg no_pointer dma_plain reg_dmaxfersize0 9
    ≡ some (true, record dma_plain { regs = set_reg dma_plain.regs reg_dmaxfersize0 9 })
unfolding write_dma_reg write_mask
size_written = refl

write_dma_reg-Synced_example :
    Synced (record dma_plain { regs = set_reg dma_plain.regs reg_dmaxfersize0 9 })
write_dma_reg-Synced_example =
    write_dma_reg-Synced no_pointer dma_plain reg_dmaxfersize0 9 true
      (record dma_plain { regs = set_reg dma_plain.regs reg_dmaxfersize0 9 }) plain-Synced
      size_written
