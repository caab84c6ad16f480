-- ===== src/CommandBuffer.antt =====
-- The builder of command buffers in the host's abstraction layer
-- (hal_refsi/source/refsi_command_buffer.cpp). A buffer is the list of its 64-bit chunks.
pub mod Layout
pub mod Meaning
pub mod Refine
pub mod Submit
pub mod Written
pub mod DmaAddress
use nupu_refsi.Prelude.{
  ℕ, ◌+◌, ◌*◌, ◌^◌, ◌<◌, List, [], ◌∷◌, ◌++◌, min, bit_and, bit_or, u32, shl, length, take,
}
use nupu_refsi.Config.{dma_io_base}
use nupu_refsi.Header.{encode_command}
use nupu_refsi.Processor.Execute.{
  cmp_finish, cmp_write_reg64, cmp_load_reg64, cmp_store_reg64, cmp_store_imm64, cmp_copy_mem64,
  cmp_run_kernel_slice, cmp_run_instances, cmp_sync_cache,
}

unfoldable pub add_finish : List ℕ → List ℕ
add_finish chunks = chunks ++ encode_command cmp_finish 0 0 ∷ []

unfoldable pub add_write_reg64 : List ℕ → ℕ → ℕ → List ℕ
add_write_reg64 chunks reg value = chunks ++ encode_command cmp_write_reg64 1 reg ∷ value ∷ []

unfoldable pub add_store_imm64 : List ℕ → ℕ → ℕ → List ℕ
add_store_imm64 chunks dest_addr value =
    chunks ++ encode_command cmp_store_imm64 1 (u32 dest_addr) ∷ value ∷ []

unfoldable pub add_load_reg64 : List ℕ → ℕ → ℕ → List ℕ
add_load_reg64 chunks reg src_addr = chunks ++ encode_command cmp_load_reg64 1 reg ∷ src_addr ∷ []

unfoldable pub add_store_reg64 : List ℕ → ℕ → ℕ → List ℕ
add_store_reg64 chunks reg dest_addr =
    chunks ++ encode_command cmp_store_reg64 1 reg ∷ dest_addr ∷ []

unfoldable pub add_copy_mem64 : List ℕ → ℕ → ℕ → ℕ → ℕ → List ℕ
add_copy_mem64 chunks src_addr dest_addr count unit_id =
    chunks ++ encode_command cmp_copy_mem64 3 count ∷ src_addr ∷ dest_addr ∷ unit_id ∷ []

unfoldable pub add_run_kernel_slice : List ℕ → ℕ → ℕ → ℕ → List ℕ
add_run_kernel_slice chunks max_harts num_instances slice_id =
    chunks
    ++ encode_command cmp_run_kernel_slice 2 (bit_and max_harts 0xff)
      ∷ num_instances
      ∷ slice_id
      ∷ []

-- The number of extra arguments that are passed on.
abbrev pub num_extra_args : List ℕ → ℕ
num_extra_args extra_args = min (u32 (length extra_args)) 7

abbrev pub instances_inline : ℕ → List ℕ → ℕ
instances_inline max_harts extra_args =
    bit_or (bit_and max_harts 0xff) (shl (num_extra_args extra_args) 8)

unfoldable pub add_run_instances : List ℕ → ℕ → ℕ → List ℕ → List ℕ
add_run_instances chunks max_harts num_instances extra_args =
    chunks
    ++ encode_command cmp_run_instances (1 + num_extra_args extra_args)
        (instances_inline max_harts extra_args)
      ∷ num_instances
      ∷ take (num_extra_args extra_args) extra_args

unfoldable pub add_sync_cache : List ℕ → ℕ → List ℕ
add_sync_cache chunks flags = chunks ++ encode_command cmp_sync_cache 0 flags ∷ []

-- REFSI_DMA_REG_ADDR(REFSI_DMA_IO_ADDRESS, dma_reg)
unfoldable pub get_dma_reg_addr : ℕ → ℕ
get_dma_reg_addr dma_reg = u32 (dma_io_base + shl dma_reg 3)

unfoldable pub add_write_dma_reg : List ℕ → ℕ → ℕ → List ℕ
add_write_dma_reg chunks dma_reg value = add_store_imm64 chunks (get_dma_reg_addr dma_reg) value

-- The calls of the builder's methods, with their arguments.
pub data Command : Type 0 where
  finish : Command
  write_reg64 : (reg value : ℕ) → Command
  store_imm64 : (dest_addr value : ℕ) → Command
  load_reg64 : (reg src_addr : ℕ) → Command
  store_reg64 : (reg dest_addr : ℕ) → Command
  copy_mem64 : (src_addr dest_addr count unit_id : ℕ) → Command
  run_kernel_slice : (max_harts num_instances slice_id : ℕ) → Command
  run_instances : (max_harts num_instances : ℕ) (extra_args : List ℕ) → Command
  sync_cache : (flags : ℕ) → Command
  write_dma_reg : (dma_reg value : ℕ) → Command

unfoldable pub add : List ℕ → Command → List ℕ
add chunks Command.finish = add_finish chunks
add chunks (Command.write_reg64 reg value) = add_write_reg64 chunks reg value
add chunks (Command.store_imm64 dest_addr value) = add_store_imm64 chunks dest_addr value
add chunks (Command.load_reg64 reg src_addr) = add_load_reg64 chunks reg src_addr
add chunks (Command.store_reg64 reg dest_addr) = add_store_reg64 chunks reg dest_addr
add chunks (Command.copy_mem64 src_addr dest_addr count unit_id) =
    add_copy_mem64 chunks src_addr dest_addr count unit_id
add chunks (Command.run_kernel_slice max_harts num_instances slice_id) =
    add_run_kernel_slice chunks max_harts num_instances slice_id
add chunks (Command.run_instances max_harts num_instances extra_args) =
    add_run_instances chunks max_harts num_instances extra_args
add chunks (Command.sync_cache flags) = add_sync_cache chunks flags
add chunks (Command.write_dma_reg dma_reg value) = add_write_dma_reg chunks dma_reg value

-- The calls in turn.
unfoldable pub add_all : List ℕ → List Command → List ℕ
add_all chunks [] = chunks
add_all chunks (c ∷ cs) = add_all (add chunks c) cs
