-- ===== src/Processor/Execute.antt =====
-- The dispatch of a command and the loop over a command buffer
-- (driver/source/refsidrv/refsi_command_processor.cpp).
use nupu_refsi.Prelude.{
  ℕ, zero, suc, ◌+◌, ◌*◌, ◌/◌, ◌||◌, Bool, true, false, List, none, some, bit_and, ltb, ◌==◌, ◌!=◌,
  if◌then◌else◌,
}
use nupu_refsi.Config.{RefsiResult}
use nupu_refsi.Header.{Header, decode_command}
use nupu_refsi.HostMemory.{Ptr, advance}
use nupu_refsi.Machine.{Machine}
use nupu_refsi.Pointers.{controller_addr_to_mem}
use nupu_refsi.Soc.{Soc, HartSetup}
use nupu_refsi.Accelerator.{sync_cache}
use nupu_refsi.Chunk.{Chunks, chunks_at}
use nupu_refsi.Processor.Registers.{
  Executed, fail, succeed, cmp_unit, execute_write_reg64, execute_load_reg64, execute_store_reg64,
  execute_store_imm64, execute_copy_mem64,
}
use nupu_refsi.Processor.Kernels.{execute_run_kernel_slice, execute_run_instances}

-- enum refsi_cmp_command_id
abbrev pub cmp_nop : ℕ
cmp_nop = 0

abbrev pub cmp_finish : ℕ
cmp_finish = 1

abbrev pub cmp_write_reg64 : ℕ
cmp_write_reg64 = 2

abbrev pub cmp_load_reg64 : ℕ
cmp_load_reg64 = 3

abbrev pub cmp_store_reg64 : ℕ
cmp_store_reg64 = 4

abbrev pub cmp_store_imm64 : ℕ
cmp_store_imm64 = 5

abbrev pub cmp_copy_mem64 : ℕ
cmp_copy_mem64 = 6

abbrev pub cmp_run_kernel_slice : ℕ
cmp_run_kernel_slice = 7

abbrev pub cmp_run_instances : ℕ
cmp_run_instances = 8

abbrev pub cmp_sync_cache : ℕ
cmp_sync_cache = 9

unfoldable pub execute_sync_cache : Soc → ℕ → ℕ → Executed
execute_sync_cache soc num_chunks inline_chunk =
    if num_chunks != 0 then fail soc else sync_cache soc (bit_and inline_chunk 3)

module _ (run : List HartSetup → Machine → Bool × Machine) where
  -- RefSiCommandProcessor::executeCommand
  unfoldable pub execute_command : Soc → Header → Chunks → Executed
  execute_command soc cmd chunk =
      if cmd.opcode == cmp_nop || cmd.opcode == cmp_finish
      then succeed soc
      else if cmd.opcode == cmp_write_reg64
      then execute_write_reg64 soc cmd.chunk_count cmd.inline_chunk chunk
      else if cmd.opcode == cmp_load_reg64
      then execute_load_reg64 soc cmd.chunk_count cmd.inline_chunk chunk
      else if cmd.opcode == cmp_store_reg64
      then execute_store_reg64 soc cmd.chunk_count cmd.inline_chunk chunk
      else if cmd.opcode == cmp_store_imm64
      then execute_store_imm64 soc cmd.chunk_count cmd.inline_chunk chunk
      else if cmd.opcode == cmp_copy_mem64
      then execute_copy_mem64 soc cmd.chunk_count cmd.inline_chunk chunk
      else if cmd.opcode == cmp_run_kernel_slice
      then execute_run_kernel_slice run soc cmd.chunk_count cmd.inline_chunk chunk
      else if cmd.opcode == cmp_run_instances
      then execute_run_instances run soc cmd.chunk_count cmd.inline_chunk chunk
      else if cmd.opcode == cmp_sync_cache
      then execute_sync_cache soc cmd.chunk_count cmd.inline_chunk
      else fail soc

  -- What follows a command: a failure or FINISH ends the buffer, and the rest runs otherwise.
  unfoldable pub after_command : Header → (Soc → Executed) → Executed → Executed
  after_command cmd rest none = none
  after_command cmd rest (some (RefsiResult.success, soc)) =
      if cmd.opcode == cmp_finish then succeed soc else rest soc
  after_command cmd rest (some (result, soc)) = some (result, soc)

  -- The loop of RefSiCommandProcessor::execute, from chunk `pos` on. The commands are read as they
  -- are reached, so a command may change those behind it. The first argument bounds the rounds.
  unfoldable pub execute_from : ℕ → Soc → Ptr → ℕ → ℕ → Executed
  execute_from zero soc buffer total_chunks pos = if ltb pos total_chunks then none else succeed soc
  execute_from (suc fuel) soc buffer total_chunks pos = elim (ltb pos total_chunks) [
    | false ↦ succeed soc
    | true ↦ elim (chunks_at soc.machine.memory buffer pos) [
      | none ↦ none
      | some header ↦ elim (decode_command header) [
        | none ↦ fail soc
        | some cmd ↦
            after_command cmd
              (λ soc'. execute_from fuel soc' buffer total_chunks (pos + 1 + cmd.chunk_count))
              (execute_command soc cmd
                (chunks_at soc.machine.memory (advance buffer ((pos + 1) * 8))))
      ]
    ]
  ]

  -- RefSiCommandProcessor::execute of the request for `size` bytes at `addr`.
  unfoldable pub execute : Soc → ℕ → ℕ → Executed
  execute soc addr size = elim (controller_addr_to_mem soc.machine addr size cmp_unit) [
    | none ↦ fail soc
    | some buffer ↦ execute_from (size / 8) soc buffer (size / 8) 0
  ]
