-- ===== src/Dma.antt =====
-- The kernel DMA device (driver/source/refsidrv/kernel_dma.cpp): transfers between two host
-- pointers, driven by the registers of one execution unit.
pub mod Registers
pub mod Rows
pub mod Planes
pub mod Sequence
pub mod Transfers
use nupu_refsi.Prelude.{
  ℕ, zero, suc, ◌+◌, ◌*◌, ◌^◌, Bool, true, false, ◌&&◌, ◌||◌, Option, none, some, bit_and, ltb,
  ◌==◌, ◌!=◌, if◌then◌else◌, u32, sub64, mul64,
}
use nupu_refsi.Config.{
  reg_dmactrl, reg_dmastartseq, reg_dmadoneseq, reg_dmasrcaddr, reg_dmadstaddr, reg_dmaxfersize0,
  reg_dmaxfersrcstride0, reg_dmaxferdststride0, dma_1d, dma_2d, dma_3d, dma_dim_mask,
  dma_stride_none, dma_stride_dst, dma_stride_src, dma_stride_mode_mask,
}
use nupu_refsi.HostMemory.{HostMemory, Ptr, advance, memcpy}

-- The registers of the unit that drives the device, and the memory that transfers change.
pub record DmaState : Type 0 where
  pub regs : ℕ → ℕ
  pub memory : HostMemory

abbrev pub set_reg : (ℕ → ℕ) → ℕ → ℕ → ℕ → ℕ
set_reg regs r v = λ q. if q == r then v else regs q

-- The ID of a new transfer.
abbrev pub next_xfer_id : DmaState → ℕ
next_xfer_id s = u32 (u32 (s.regs reg_dmastartseq) + 1)

-- A transfer's ID is started before it and done after it.
abbrev pub completed : DmaState → HostMemory → DmaState
completed s memory = record {
  regs = set_reg (set_reg s.regs reg_dmastartseq (next_xfer_id s)) reg_dmadoneseq (next_xfer_id s);
  memory = memory;
}

-- The register writes around a transfer, which itself leaves the given memory.
unfoldable pub run_transfer : DmaState → Option HostMemory → Option (Bool × DmaState)
run_transfer s none = none
run_transfer s (some memory) = some (true, completed s memory)

abbrev pub stride_mode : DmaState → ℕ
stride_mode s = bit_and (s.regs reg_dmactrl) dma_stride_mode_mask

unfoldable pub do_kernel_dma_1d : DmaState → Ptr → Ptr → Option (Bool × DmaState)
do_kernel_dma_1d s dst src =
    let size = s.regs reg_dmaxfersize0 in
    if size == 0
    then some (true, s)
    else if stride_mode s != dma_stride_none
    then some (false, s)
    else run_transfer s (memcpy s.memory dst src size)

-- The inner loop: `count` rows, with the pointers as the loop leaves them.
unfoldable pub copy_rows : ℕ → HostMemory → Ptr → Ptr → ℕ → ℕ → ℕ → Option (HostMemory × Ptr × Ptr)
copy_rows zero m dst src size dst_stride src_stride = some (m, dst, src)
copy_rows (suc count) m dst src size dst_stride src_stride = elim (memcpy m dst src size) [
  | none ↦ none
  | some m' ↦
      copy_rows count m' (advance dst dst_stride) (advance src src_stride) size dst_stride
        src_stride
]

-- The loop counters are of type `uint`: a bound that they cannot reach is an endless loop.
abbrev pub bounded_loop {ℓ} : {A : Type ℓ} → ℕ → Option A → Option A
bounded_loop bound o = if ltb bound (2 ^ 32) then o else none

abbrev pub final_memory : Option (HostMemory × Ptr × Ptr) → Option HostMemory
final_memory none = none
final_memory (some (m, dst, src)) = some m

abbrev pub has_src_stride : DmaState → Bool
has_src_stride s = bit_and (stride_mode s) dma_stride_src != 0

abbrev pub has_dst_stride : DmaState → Bool
has_dst_stride s = bit_and (stride_mode s) dma_stride_dst != 0

-- Stride i in bytes: that of the register in a strided mode, else the size of dimension i.
abbrev pub src_stride : DmaState → ℕ → ℕ
src_stride s i =
    if has_src_stride s then s.regs (reg_dmaxfersrcstride0 + i) else s.regs (reg_dmaxfersize0 + i)

abbrev pub dst_stride : DmaState → ℕ → ℕ
dst_stride s i =
    if has_dst_stride s then s.regs (reg_dmaxferdststride0 + i) else s.regs (reg_dmaxfersize0 + i)

unfoldable pub do_kernel_dma_2d : DmaState → Ptr → Ptr → Option (Bool × DmaState)
do_kernel_dma_2d s dst src =
    let size0 = s.regs reg_dmaxfersize0 in
    let size1 = s.regs (reg_dmaxfersize0 + 1) in
    if size0 == 0 || size1 == 0
    then some (true, s)
    else if has_src_stride s && (ltb (src_stride s 0) size0 && src_stride s 0 != 0)
    then some (false, s)
    else if has_dst_stride s && ltb (dst_stride s 0) size0
    then some (false, s)
    else run_transfer s (
        final_memory (
          bounded_loop size1
            (copy_rows size1 s.memory dst src size0 (dst_stride s 0) (src_stride s 0))))

-- The outer loop of a 3D transfer: `rows` rows for each plane, then both pointers go from the end
-- of the rows to the next plane.
unfoldable pub copy_planes :
    ℕ → ℕ → HostMemory → Ptr → Ptr → ℕ → ℕ → ℕ → ℕ → ℕ → Option (HostMemory × Ptr × Ptr)
copy_planes zero rows m dst src size dst0 dst1 src0 src1 = some (m, dst, src)
copy_planes (suc count) rows m dst src size dst0 dst1 src0 src1 =
    elim (copy_rows rows m dst src size dst0 src0) [
      | none ↦ none
      | some (m', dst', src') ↦
          copy_planes count rows m' (advance dst' (sub64 dst1 (mul64 rows dst0)))
            (advance src' (sub64 src1 (mul64 rows src0))) size dst0 dst1 src0 src1
    ]

unfoldable pub do_kernel_dma_3d : DmaState → Ptr → Ptr → Option (Bool × DmaState)
do_kernel_dma_3d s dst src =
    let size0 = s.regs reg_dmaxfersize0 in
    let size1 = s.regs (reg_dmaxfersize0 + 1) in
    let size2 = s.regs (reg_dmaxfersize0 + 2) in
    if size0 == 0 || (size1 == 0 || size2 == 0)
    then some (true, s)
    else if has_src_stride s && (ltb (src_stride s 0) size0 || ltb (src_stride s 1) size1)
    then some (false, s)
    else if has_dst_stride s && (ltb (dst_stride s 0) size0 || ltb (dst_stride s 1) size1)
    then some (false, s)
    else run_transfer s (
        final_memory (
          bounded_loop size1 (
            bounded_loop size2 (
              copy_planes size2 size1 s.memory dst src size0 (dst_stride s 0) (dst_stride s 1)
                (src_stride s 0) (src_stride s 1)))))

-- The transfer that the control register selects, between the two host pointers if both are
-- there.
unfoldable pub dispatch_dma : DmaState → Option Ptr → Option Ptr → Option (Bool × DmaState)
dispatch_dma s none dst = some (false, s)
dispatch_dma s (some src) none = some (false, s)
dispatch_dma s (some src) (some dst) =
    let dim = bit_and (s.regs reg_dmactrl) dma_dim_mask in
    if dim == dma_1d
    then do_kernel_dma_1d s dst src
    else if dim == dma_2d
    then do_kernel_dma_2d s dst src
    else if dim == dma_3d
    then do_kernel_dma_3d s dst src
    else some (false, s)

-- DMADevice::do_kernel_dma; `pointer` is the host pointer to a device address, or null.
unfoldable pub do_kernel_dma : (ℕ → Option Ptr) → DmaState → Option (Bool × DmaState)
do_kernel_dma pointer s =
    dispatch_dma s (pointer (s.regs reg_dmasrcaddr)) (pointer (s.regs reg_dmadstaddr))
