-- ===== src/CommandBuffer/Meaning.antt =====
-- What a command does when the command processor executes it, by the call that built it.
use nupu_refsi.Prelude.{
  ℕ, suc, ◌+◌, ◌%◌, ◌<◌, ◌≡◌, refl, ap, subst, ◌∙◌, Bool, false, List, [], ◌∷◌, some, bit_and, ltb,
  ◌!=◌, ◌||◌, if◌then◌else◌, u32, shr, length, take, replicate, get_elem?, arith,
}
use nupu_refsi.Config.{cmp_num_regs, reg_stack_top, reg_return_addr}
use nupu_refsi.Bits.{bit_and_mask}
use nupu_refsi.Machine.{Machine}
use nupu_refsi.Soc.{Soc, HartSetup}
use nupu_refsi.Accelerator.{sync_cache, run_kernel_slice}
use nupu_refsi.Chunk.{Chunks}
use nupu_refsi.Processor.Registers.{
  Executed, fail, succeed, write_reg, load_reg, store_word, copy_mem, execute_write_reg64,
  execute_load_reg64, execute_store_reg64, execute_store_imm64, execute_copy_mem64,
}
use nupu_refsi.Processor.Kernels.{
  harts_to_use, prepare_harts, run_prepared, read_args, entry_point_addr, execute_run_kernel_slice,
  execute_run_instances,
}
use nupu_refsi.Processor.Execute.{execute_command, execute_sync_cache}
use nupu_refsi.CommandBuffer.{Command, num_extra_args, instances_inline, get_dma_reg_addr}
use nupu_refsi.CommandBuffer.Layout.{header_of, args_of, length-take, instances_inline_sum}

-- A register operation, on a register that the processor has.
abbrev pub on_register : Soc → ℕ → Executed → Executed
on_register soc reg done = if ltb reg cmp_num_regs then done else fail soc

-- The chunks behind a header are the arguments, in order.
abbrev pub Reads : Chunks → List ℕ → Type 0
Reads chunk args = (i : ℕ) → i < length args → chunk i ≡ get_elem? args i

module _ (run : List HartSetup → Machine → Bool × Machine) where
  -- The effect of a call on the device, without chunks and headers.
  abbrev pub perform : Soc → Command → Executed
  perform soc Command.finish = succeed soc
  perform soc (Command.write_reg64 reg value) = on_register soc reg (write_reg soc reg value)
  perform soc (Command.store_imm64 dest_addr value) = store_word soc (u32 dest_addr) value
  perform soc (Command.load_reg64 reg src_addr) = on_register soc reg (load_reg soc reg src_addr)
  perform soc (Command.store_reg64 reg dest_addr) =
      on_register soc reg (store_word soc dest_addr (soc.registers reg))
  perform soc (Command.copy_mem64 src_addr dest_addr count unit_id) =
      if src_addr % 8 != 0 then fail soc else copy_mem soc count src_addr dest_addr (u32 unit_id)
  perform soc (Command.run_kernel_slice max_harts num_instances slice_id) =
      let num_harts = harts_to_use (max_harts % 256) in
      run_prepared run (prepare_harts num_harts soc num_harts 0 slice_id) num_instances
  perform soc (Command.run_instances max_harts num_instances extra_args) =
      run_kernel_slice run soc num_instances (entry_point_addr soc) (soc.registers reg_return_addr)
        (replicate (harts_to_use (max_harts % 256)) (record {
          stack_top_addr = soc.registers reg_stack_top;
          extra_args = take (num_extra_args extra_args) extra_args;
        }))
  perform soc (Command.sync_cache flags) = sync_cache soc (flags % 4)
  perform soc (Command.write_dma_reg dma_reg value) =
      store_word soc (u32 (get_dma_reg_addr dma_reg)) value

read_args-Reads :
    (chunk : Chunks) (first : ℕ) (args : List ℕ)
    → ((i : ℕ) → i < length args → chunk (first + i) ≡ get_elem? args i)
    → read_args chunk first (length args) ≡ some args
unfolding read_args
read_args-Reads chunk first [] h = refl
read_args-Reads chunk first (a ∷ args) h =
    let head : chunk first ≡ some a = ap chunk (omega arith) ∙ h 0 (omega arith) in
    let tail =
      read_args-Reads chunk (suc first) args
        (λ i p. ap chunk (omega arith) ∙ h (suc i) (omega arith)) in
    rw (head, tail) refl

module _ (run : List HartSetup → Machine → Bool × Machine) (soc : Soc) (chunk : Chunks) where
  slice_lem :
      (max_harts num_instances slice_id : ℕ)
      → Reads chunk (num_instances ∷ slice_id ∷ [])
      → execute_run_kernel_slice run soc 2 (bit_and max_harts 0xff) chunk
        ≡ perform run soc (Command.run_kernel_slice max_harts num_instances slice_id)
  unfolding execute_run_kernel_slice
  slice_lem max_harts n id r =
      let harts : bit_and (bit_and max_harts 0xff) 0xff ≡ max_harts % 256 =
        omega (arith, bit_and_mask 8 (bit_and max_harts 0xff), bit_and_mask 8 max_harts) in
      rw (harts, r 0 (omega arith), r 1 (omega arith)) refl

  instances_lem :
      (max_harts num_instances : ℕ) (extra_args : List ℕ)
      → Reads chunk (num_instances ∷ take (num_extra_args extra_args) extra_args)
      → execute_run_instances run soc
          (1 + num_extra_args extra_args)
          (instances_inline max_harts extra_args)
          chunk
        ≡ perform run soc (Command.run_instances max_harts num_instances extra_args)
  unfolding execute_run_instances
  instances_lem max_harts n args r =
      let count = num_extra_args args in
      let inline = instances_inline max_harts args in
      let size : length (take count args) ≡ count = omega (arith, length-take count args) in
      let harts : bit_and inline 0xff ≡ max_harts % 256 =
        omega (arith, bit_and_mask 8 inline, instances_inline_sum max_harts args) in
      let extra : bit_and (shr inline 8) 0x07 ≡ count =
        omega (arith, bit_and_mask 3 (shr inline 8), instances_inline_sum max_harts args) in
      let guard : (ltb (1 + count) 1 || (ltb 7 count || 1 + count != count + 1)) ≡ false =
        ground arith in
      let read : read_args chunk 1 count ≡ some (take count args) =
        subst (λ k. read_args chunk 1 k ≡ some (take count args)) size
          (read_args-Reads chunk 1 (take count args)
            (λ i p. ap chunk (omega arith) ∙ r (suc i) (omega arith))) in
      rw (extra, harts, guard, r 0 (omega arith), read) refl

-- The handler of a command does what the call that built it means, if the chunks behind its header
-- are the call's arguments.
pub execute_command-perform :
    (run : List HartSetup → Machine → Bool × Machine) (soc : Soc) (c : Command) (chunk : Chunks)
    → Reads chunk (args_of c)
    → execute_command run soc (header_of c) chunk ≡ perform run soc c
unfolding execute_command execute_write_reg64 execute_load_reg64 execute_store_reg64
    execute_store_imm64 execute_copy_mem64 execute_sync_cache
execute_command-perform run soc Command.finish chunk r = refl
execute_command-perform run soc (Command.write_reg64 reg value) chunk r =
    rw (r 0 (omega arith)) refl
execute_command-perform run soc (Command.store_imm64 dest_addr value) chunk r =
    rw (r 0 (omega arith)) refl
execute_command-perform run soc (Command.load_reg64 reg src_addr) chunk r =
    rw (r 0 (omega arith)) refl
execute_command-perform run soc (Command.store_reg64 reg dest_addr) chunk r =
    rw (r 0 (omega arith)) refl
execute_command-perform run soc (Command.copy_mem64 src_addr dest_addr count unit_id) chunk r =
    rw (r 0 (omega arith), r 1 (omega arith), r 2 (omega arith)) refl
execute_command-perform run soc (Command.run_kernel_slice max_harts n id) chunk r =
    slice_lem run soc chunk max_harts n id r
execute_command-perform run soc (Command.run_instances max_harts n args) chunk r =
    instances_lem run soc chunk max_harts n args r
execute_command-perform run soc (Command.sync_cache flags) chunk r =
    ap (sync_cache soc) (bit_and_mask 2 flags)
execute_command-perform run soc (Command.write_dma_reg dma_reg value) chunk r =
    rw (r 0 (omega arith)) refl
