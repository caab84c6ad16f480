-- ===== src/Dma/Sequence.antt =====
-- The transfer IDs: every transfer that was started is done.
use nupu_refsi.Prelude.{
  ℕ, ◌^◌, ◌<◌, ◌≡◌, Bool, true, false, Option, none, some, arith, if◌then◌else◌, bit_and,
}
use nupu_refsi.Config.{reg_dmastartseq, reg_dmadoneseq}
use nupu_refsi.HostMemory.{Ptr, HostMemory}
use nupu_refsi.Dma.{
  DmaState, set_reg, completed, run_transfer, do_kernel_dma_1d, do_kernel_dma_2d, do_kernel_dma_3d,
  dispatch_dma, do_kernel_dma,
}
use nupu_refsi.Dma.Registers.{write_mask, write_dma_reg}

-- The ways in which a request for a transfer can end.
data Outcome (s : DmaState) : Option (Bool × DmaState) → Type 0 where
  faulted : Outcome s none
  finished : (b : Bool) → Outcome s (some (b, s))
  moved : (memory : HostMemory) → Outcome s (some (true, completed s memory))

run_transfer-Outcome : (s : DmaState) (o : Option HostMemory) → Outcome s (run_transfer s o)
unfolding run_transfer
run_transfer-Outcome s none = faulted
run_transfer-Outcome s (some memory) = moved memory

if-Outcome :
    (s : DmaState) (b : Bool) {o p : Option (Bool × DmaState)}
    → Outcome s o
    → Outcome s p
    → Outcome s (if b then o else p)
if-Outcome s true h k = h
if-Outcome s false h k = k

dma_1d-Outcome : (s : DmaState) (dst src : Ptr) → Outcome s (do_kernel_dma_1d s dst src)
unfolding do_kernel_dma_1d
dma_1d-Outcome s dst src =
    if-Outcome s _ (finished true) (if-Outcome s _ (finished false) (run_transfer-Outcome s _))

dma_2d-Outcome : (s : DmaState) (dst src : Ptr) → Outcome s (do_kernel_dma_2d s dst src)
unfolding do_kernel_dma_2d
dma_2d-Outcome s dst src =
    if-Outcome s _ (finished true)
      (if-Outcome s _ (finished false) (if-Outcome s _ (finished false) (run_transfer-Outcome s _)))

dma_3d-Outcome : (s : DmaState) (dst src : Ptr) → Outcome s (do_kernel_dma_3d s dst src)
unfolding do_kernel_dma_3d
dma_3d-Outcome s dst src =
    if-Outcome s _ (finished true)
      (if-Outcome s _ (finished false) (if-Outcome s _ (finished false) (run_transfer-Outcome s _)))

dispatch-Outcome : (s : DmaState) (src dst : Option Ptr) → Outcome s (dispatch_dma s src dst)
unfolding dispatch_dma
dispatch-Outcome s none dst = finished false
dispatch-Outcome s (some src) none = finished false
dispatch-Outcome s (some src) (some dst) = if-Outcome s _ (dma_1d-Outcome s dst src) (
    if-Outcome s _ (dma_2d-Outcome s dst src)
      (if-Outcome s _ (dma_3d-Outcome s dst src) (finished false)))

dma-Outcome : (pointer : ℕ → Option Ptr) (s : DmaState) → Outcome s (do_kernel_dma pointer s)
unfolding do_kernel_dma
dma-Outcome pointer s = dispatch-Outcome s _ _

-- Every transfer that was started is done, and the IDs are 32-bit numbers.
pub record Synced (s : DmaState) : Type 0 where
  pub done_is_started : s.regs reg_dmadoneseq ≡ s.regs reg_dmastartseq
  pub started_fits : s.regs reg_dmastartseq < 2 ^ 32

Outcome-Synced :
    (s : DmaState) {o : Option (Bool × DmaState)} (b : Bool) (s' : DmaState)
    → Outcome s o
    → o ≡ some (b, s')
    → Synced s
    → Synced s'
Outcome-Synced s b s' faulted e v = absurd (ground arith)
Outcome-Synced s b s' (finished c) e v = ground arith
Outcome-Synced s b s' (moved memory) e v = ground arith

-- The state after the plain write of a register.
abbrev written : DmaState → ℕ → ℕ → DmaState
written s reg val = record s { regs = set_reg s.regs reg (bit_and val (write_mask reg)) }

-- Every write of a register keeps the device synchronised, whether it is accepted or refused.
pub write_dma_reg-Synced :
    (pointer : ℕ → Option Ptr) (s : DmaState) (reg val : ℕ) (b : Bool) (s' : DmaState)
    → Synced s
    → write_dma_reg pointer s reg val ≡ some (b, s')
    → Synced s'
unfolding write_dma_reg write_mask
write_dma_reg-Synced pointer s reg val b s' v e =
    ground
      (arith, Outcome-Synced (written s reg val) b s' (dma-Outcome pointer (written s reg val)))
