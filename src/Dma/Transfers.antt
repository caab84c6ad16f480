-- ===== src/Dma/Transfers.antt =====
-- What a transfer of each dimension does to memory and to the registers.
use nupu_refsi.Prelude.{ℕ, ◌+◌, ◌*◌, ◌^◌, ◌<◌, ◌≤◌, ◌≡◌, ◌≢◌, ◌⊎◌, ◌∙◌, true, some, arith}
use nupu_refsi.Config.{reg_dmaxfersize0}
use nupu_refsi.HostMemory.{Ptr, HostMemory, move_bytes, copy_out}
use nupu_refsi.HostMemory.Laws.{Apart, memcpy-Apart, copy_out-move_bytes}
use nupu_refsi.Dma.{
  DmaState, completed, run_transfer, stride_mode, src_stride, dst_stride, do_kernel_dma_1d,
  do_kernel_dma_2d, do_kernel_dma_3d, final_memory, copy_rows, copy_planes,
}
use nupu_refsi.Dma.Rows.{Copied, RowsFit, copy_rows_lem}
use nupu_refsi.Dma.Planes.{PlanesCopied, PlanesFit, copy_planes_lem}

abbrev size : DmaState → ℕ → ℕ
size s i = s.regs (reg_dmaxfersize0 + i)

-- A 1D transfer of a positive size in the sequential mode, between ranges that do not overlap and
-- lie in their blocks, succeeds; the destination then holds the bytes of the source, and the state
-- is that of a completed transfer.
pub dma_1d_transfer :
    (s : DmaState) (dst src : Ptr)
    → 0 < size s 0
    → stride_mode s ≡ 0
    → dst.offset + size s 0 ≤ s.memory.extent dst.block
    → src.offset + size s 0 ≤ s.memory.extent src.block
    → Apart dst (size s 0) src (size s 0)
    → (m : HostMemory) × (do_kernel_dma_1d s dst src ≡ some (true, completed s m))
      × (copy_out m dst (size s 0) ≡ copy_out s.memory src (size s 0))
unfolding do_kernel_dma_1d run_transfer
dma_1d_transfer s dst src pos mode df sf apart = (
  move_bytes s.memory dst src (size s 0),
  ground (arith, memcpy-Apart s.memory dst src (size s 0) df sf apart),
  copy_out-move_bytes s.memory dst src (size s 0) df sf,
)

-- The strides that the device accepts start the loop.
dma_2d_started :
    (s : DmaState) (dst src : Ptr)
    → 0 < size s 0
    → 0 < size s 1
    → size s 1 < 2 ^ 32
    → (src_stride s 0 ≡ 0) ⊎ (size s 0 ≤ src_stride s 0)
    → size s 0 ≤ dst_stride s 0
    → do_kernel_dma_2d s dst src
      ≡ run_transfer s (
          final_memory
            (copy_rows (size s 1) s.memory dst src (size s 0) (dst_stride s 0) (src_stride s 0)))
unfolding do_kernel_dma_2d
dma_2d_started s dst src p0 p1 bound sok dok = ground arith

-- A 2D transfer of positive sizes, with strides that the device accepts, copies row y from the
-- source's y-th row, for every y, and changes no other byte: for blocks that differ, that hold the
-- rows, and a row count below 2^32.
pub dma_2d_transfer :
    (s : DmaState) (dst src : Ptr)
    → 0 < size s 0
    → 0 < size s 1
    → size s 1 < 2 ^ 32
    → (src_stride s 0 ≡ 0) ⊎ (size s 0 ≤ src_stride s 0)
    → size s 0 ≤ dst_stride s 0
    → src.block ≢ dst.block
    → s.memory.extent dst.block < 2 ^ 64
    → s.memory.extent src.block < 2 ^ 64
    → RowsFit s.memory dst (size s 1) (size s 0) (dst_stride s 0)
    → RowsFit s.memory src (size s 1) (size s 0) (src_stride s 0)
    → (m : HostMemory) × (do_kernel_dma_2d s dst src ≡ some (true, completed s m))
      × Copied s.memory m dst src (size s 1) (size s 0) (dst_stride s 0) (src_stride s 0)
unfolding run_transfer
dma_2d_transfer s dst src p0 p1 bound sok dok apart de se df sf =
    let r =
      copy_rows_lem (size s 1) s.memory dst src (size s 0) (dst_stride s 0) (src_stride s 0) apart
        dok de se df sf in
    (r.m', dma_2d_started s dst src p0 p1 bound sok dok ∙ rw r.ran, r.copied)

dma_3d_started :
    (s : DmaState) (dst src : Ptr)
    → 0 < size s 0
    → 0 < size s 1
    → 0 < size s 2
    → size s 1 < 2 ^ 32
    → size s 2 < 2 ^ 32
    → size s 0 ≤ src_stride s 0
    → size s 1 ≤ src_stride s 1
    → size s 0 ≤ dst_stride s 0
    → size s 1 ≤ dst_stride s 1
    → do_kernel_dma_3d s dst src
      ≡ run_transfer s (
          final_memory (
            copy_planes
              (size s 2)
              (size s 1)
              s.memory
              dst
              src
              (size s 0)
              (dst_stride s 0)
              (dst_stride s 1)
              (src_stride s 0)
              (src_stride s 1)))
unfolding do_kernel_dma_3d
dma_3d_started s dst src p0 p1 p2 b1 b2 s0 s1 d0 d1 = ground arith

-- A 3D transfer of positive sizes copies every row of every plane and changes no other byte, where
-- the plane stride of the destination, in bytes, leaves room for the rows of a plane: for strides
-- that the device accepts, blocks that differ and hold the rows, and counts below 2^32.
pub dma_3d_transfer :
    (s : DmaState) (dst src : Ptr)
    → 0 < size s 0
    → 0 < size s 1
    → 0 < size s 2
    → size s 1 < 2 ^ 32
    → size s 2 < 2 ^ 32
    → size s 0 ≤ src_stride s 0
    → size s 1 ≤ src_stride s 1
    → size s 0 ≤ dst_stride s 0
    → size s 1 ≤ dst_stride s 1
    → size s 1 * dst_stride s 0 ≤ dst_stride s 1
    → src.block ≢ dst.block
    → s.memory.extent dst.block < 2 ^ 64
    → s.memory.extent src.block < 2 ^ 64
    → PlanesFit s.memory dst (size s 2) (size s 1) (size s 0) (dst_stride s 0) (dst_stride s 1)
    → PlanesFit s.memory src (size s 2) (size s 1) (size s 0) (src_stride s 0) (src_stride s 1)
    → (m : HostMemory) × (do_kernel_dma_3d s dst src ≡ some (true, completed s m))
      × PlanesCopied s.memory m dst src
          (size s 2)
          (size s 1)
          (size s 0)
          (dst_stride s 0)
          (dst_stride s 1)
          (src_stride s 0)
          (src_stride s 1)
unfolding run_transfer
dma_3d_transfer s dst src p0 p1 p2 b1 b2 s0 s1 d0 d1 room apart de se df sf =
    let r =
      copy_planes_lem (size s 2) (size s 1) s.memory dst src (size s 0) (dst_stride s 0)
        (dst_stride s 1) (src_stride s 0) (src_stride s 1) apart p1 d0 room de se df sf in
    (r.last, dma_3d_started s dst src p0 p1 p2 b1 b2 s0 s1 d0 d1 ∙ rw r.ran, r.copied)
