-- ===== src/CommandBuffer/Layout.antt =====
-- What the builder writes: for each call a header, which the decoder reads back, and its arguments.
use nupu_refsi.Prelude.{
  ℕ, zero, suc, ◌+◌, ◌*◌, ◌%◌, ◌^◌, ◌<◌, ◌≡◌, refl, List, [], ◌∷◌, ◌++◌, min, some, bit_and, u32,
  length, take, arith,
}
use nupu_refsi.Bits.{bit_and_mask, bit_or_above}
use nupu_refsi.Header.{Header, encode_command, decode_command}
use nupu_refsi.Header.Laws.{decode-encode}
use nupu_refsi.Processor.Execute.{
  cmp_finish, cmp_write_reg64, cmp_load_reg64, cmp_store_reg64, cmp_store_imm64, cmp_copy_mem64,
  cmp_run_kernel_slice, cmp_run_instances, cmp_sync_cache,
}
use nupu_refsi.CommandBuffer.{
  Command, add, num_extra_args, instances_inline, get_dma_reg_addr, add_finish, add_write_reg64,
  add_store_imm64, add_load_reg64, add_store_reg64, add_copy_mem64, add_run_kernel_slice,
  add_run_instances, add_sync_cache, add_write_dma_reg,
}

abbrev entry : ℕ → ℕ → ℕ → Header
entry opcode chunk_count inline_chunk = record {
  opcode = opcode;
  chunk_count = chunk_count;
  inline_chunk = inline_chunk;
}

abbrev pub header_of : Command → Header
header_of Command.finish = entry cmp_finish 0 0
header_of (Command.write_reg64 reg value) = entry cmp_write_reg64 1 reg
header_of (Command.store_imm64 dest_addr value) = entry cmp_store_imm64 1 (u32 dest_addr)
header_of (Command.load_reg64 reg src_addr) = entry cmp_load_reg64 1 reg
header_of (Command.store_reg64 reg dest_addr) = entry cmp_store_reg64 1 reg
header_of (Command.copy_mem64 src_addr dest_addr count unit_id) = entry cmp_copy_mem64 3 count
header_of (Command.run_kernel_slice max_harts num_instances slice_id) =
    entry cmp_run_kernel_slice 2 (bit_and max_harts 0xff)
header_of (Command.run_instances max_harts num_instances extra_args) =
    entry cmp_run_instances (1 + num_extra_args extra_args) (instances_inline max_harts extra_args)
header_of (Command.sync_cache flags) = entry cmp_sync_cache 0 flags
header_of (Command.write_dma_reg dma_reg value) =
    entry cmp_store_imm64 1 (u32 (get_dma_reg_addr dma_reg))

abbrev pub args_of : Command → List ℕ
args_of Command.finish = []
args_of (Command.write_reg64 reg value) = value ∷ []
args_of (Command.store_imm64 dest_addr value) = value ∷ []
args_of (Command.load_reg64 reg src_addr) = src_addr ∷ []
args_of (Command.store_reg64 reg dest_addr) = dest_addr ∷ []
args_of (Command.copy_mem64 src_addr dest_addr count unit_id) = src_addr ∷ dest_addr ∷ unit_id ∷ []
args_of (Command.run_kernel_slice max_harts num_instances slice_id) = num_instances ∷ slice_id ∷ []
args_of (Command.run_instances max_harts num_instances extra_args) =
    num_instances ∷ take (num_extra_args extra_args) extra_args
args_of (Command.sync_cache flags) = []
args_of (Command.write_dma_reg dma_reg value) = value ∷ []

-- The header word of a call, as it is built.
abbrev pub header_word : Command → ℕ
header_word c =
    encode_command (header_of c).opcode (header_of c).chunk_count (header_of c).inline_chunk

-- Each call appends its header and its arguments.
pub add_lem : (chunks : List ℕ) (c : Command) → add chunks c ≡ chunks ++ header_word c ∷ args_of c
unfolding add add_finish add_write_reg64 add_store_imm64 add_load_reg64 add_store_reg64
    add_copy_mem64 add_run_kernel_slice add_run_instances add_sync_cache add_write_dma_reg
add_lem chunks Command.finish = refl
add_lem chunks (Command.write_reg64 reg value) = refl
add_lem chunks (Command.store_imm64 dest_addr value) = refl
add_lem chunks (Command.load_reg64 reg src_addr) = refl
add_lem chunks (Command.store_reg64 reg dest_addr) = refl
add_lem chunks (Command.copy_mem64 src_addr dest_addr count unit_id) = refl
add_lem chunks (Command.run_kernel_slice max_harts num_instances slice_id) = refl
add_lem chunks (Command.run_instances max_harts num_instances extra_args) = refl
add_lem chunks (Command.sync_cache flags) = refl
add_lem chunks (Command.write_dma_reg dma_reg value) = refl

pub length-take : (n : ℕ) (xs : List ℕ) → length (take n xs) ≡ min n (length xs)
length-take zero xs = omega arith
length-take (suc n) [] = omega arith
length-take (suc n) (x ∷ xs) = omega (arith, length-take n xs)

-- The header counts the arguments.
pub length-args_of : (c : Command) → length (args_of c) ≡ (header_of c).chunk_count
length-args_of Command.finish = refl
length-args_of (Command.write_reg64 reg value) = refl
length-args_of (Command.store_imm64 dest_addr value) = refl
length-args_of (Command.load_reg64 reg src_addr) = refl
length-args_of (Command.store_reg64 reg dest_addr) = refl
length-args_of (Command.copy_mem64 src_addr dest_addr count unit_id) = refl
length-args_of (Command.run_kernel_slice max_harts num_instances slice_id) = refl
length-args_of (Command.run_instances max_harts num_instances extra_args) =
    omega (arith, length-take (num_extra_args extra_args) extra_args)
length-args_of (Command.sync_cache flags) = refl
length-args_of (Command.write_dma_reg dma_reg value) = refl

-- The arguments of a call that become inline chunks are of type uint32_t.
abbrev pub Typed : Command → Type 0
Typed c = (header_of c).inline_chunk < 2 ^ 32

pub instances_inline_sum :
    (max_harts : ℕ) (extra_args : List ℕ)
    → instances_inline max_harts extra_args ≡ max_harts % 256 + num_extra_args extra_args * 256
instances_inline_sum max_harts extra_args = ground (
  arith,
  bit_and_mask 8 max_harts,
  bit_or_above 8 (num_extra_args extra_args) (max_harts % 2 ^ 8),
)

header_bounds :
    (c : Command) → ((header_of c).opcode < 2 ^ 8) × ((header_of c).chunk_count < 2 ^ 13)
header_bounds Command.finish = (omega arith, omega arith)
header_bounds (Command.write_reg64 reg value) = (omega arith, omega arith)
header_bounds (Command.store_imm64 dest_addr value) = (omega arith, omega arith)
header_bounds (Command.load_reg64 reg src_addr) = (omega arith, omega arith)
header_bounds (Command.store_reg64 reg dest_addr) = (omega arith, omega arith)
header_bounds (Command.copy_mem64 src_addr dest_addr count unit_id) = (omega arith, omega arith)
header_bounds (Command.run_kernel_slice max_harts num_instances slice_id) =
    (omega arith, omega arith)
header_bounds (Command.run_instances max_harts num_instances extra_args) =
    (omega arith, omega arith)
header_bounds (Command.sync_cache flags) = (omega arith, omega arith)
header_bounds (Command.write_dma_reg dma_reg value) = (omega arith, omega arith)

-- The decoder reads the header of a call back, if its inline chunk is of type uint32_t.
pub decode-header_word :
    (c : Command) → Typed c → decode_command (header_word c) ≡ some (header_of c)
decode-header_word c t = decode-encode _ _ _ (header_bounds c).0 (header_bounds c).1 t
