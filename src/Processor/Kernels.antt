-- ===== src/Processor/Kernels.antt =====
-- The commands that run kernels: RUN_KERNEL_SLICE and RUN_INSTANCES
-- (driver/source/refsidrv/refsi_command_processor.cpp).
use nupu_refsi.Prelude.{
  ℕ, zero, suc, ◌+◌, ◌/◌, ◌||◌, Bool, List, [], ◌∷◌, Option, none, some, bit_and, ltb, ◌!=◌,
  if◌then◌else◌, replicate, u32, add64, mul64, shr,
}
use nupu_refsi.Config.{
  num_harts_per_core, tcdm_hart_size, tcdm_hart_base, reg_entry_pt_fn, reg_kub_desc, reg_tsd_info,
  reg_stack_top, reg_return_addr,
}
use nupu_refsi.UnitId.{make_unit, kind_acc_hart}
use nupu_refsi.HostMemory.{memcpy}
use nupu_refsi.Machine.{Machine}
use nupu_refsi.Pointers.{controller_addr_to_mem}
use nupu_refsi.Soc.{Soc, HartState, HartSetup}
use nupu_refsi.Accelerator.{run_kernel_slice}
use nupu_refsi.Chunk.{Chunks, ◌>>=◌}
use nupu_refsi.Processor.Registers.{Executed, fail}

-- (max_harts > 0) ? max_harts : num_harts_per_core
abbrev pub harts_to_use : ℕ → ℕ
harts_to_use max_harts = if ltb 0 max_harts then max_harts else num_harts_per_core

-- The lambda getTCDMHartAddress.
unfoldable pub tcdm_hart_address : ℕ → ℕ → ℕ → ℕ
tcdm_hart_address num_harts hart address =
    add64 (add64 (mul64 hart (tcdm_hart_size / num_harts)) address) tcdm_hart_base

-- The fields of the registers that a slice reads.
unfoldable pub entry_point_addr : Soc → ℕ
entry_point_addr soc = bit_and (soc.registers reg_entry_pt_fn) 0xffffffff

unfoldable pub kub_addr : Soc → ℕ
kub_addr soc = bit_and (soc.registers reg_kub_desc) 0xffffffffffff

unfoldable pub tsd_offset : Soc → ℕ
tsd_offset soc = bit_and (shr (soc.registers reg_tsd_info) 16) 0xffffff

unfoldable pub tsd_size : Soc → ℕ
tsd_size soc = u32 (shr (soc.registers reg_tsd_info) 40)

-- The copy of the thread-specific data to a hart's thread block: its address, and the memory.
-- `some none` is the failure of a null pointer.
unfoldable pub copy_tsd : Soc → ℕ → ℕ → Option (Option (ℕ × Soc))
copy_tsd soc num_harts hart =
    if ltb 0 (tsd_size soc)
    then (let unit = make_unit kind_acc_hart hart in
        let ktb_addr = tcdm_hart_address num_harts hart 0 in
        elim (controller_addr_to_mem soc.machine ktb_addr (tsd_size soc) unit) [
          | none ↦ some none
          | some ktb ↦
              elim (controller_addr_to_mem soc.machine (add64 (kub_addr soc) (tsd_offset soc))
                (tsd_size soc) unit) [
                  | none ↦ some none
                  | some tsd ↦ elim (memcpy soc.machine.memory ktb tsd (tsd_size soc)) [
                    | none ↦ none
                    | some memory ↦ some (
                        some (
                          ktb_addr,
                          record soc { machine = record (soc.machine) { memory = memory } },
                        ))
                  ]
                ]
        ])
    else some (some (0, soc))

abbrev pub slice_stack_top : Soc → ℕ → ℕ → ℕ
slice_stack_top soc num_harts hart =
    if soc.registers reg_stack_top != 0
    then soc.registers reg_stack_top
    else tcdm_hart_address num_harts hart (tcdm_hart_size / num_harts)

-- The loop that prepares the data of `left` harts, from hart `hart` on; the thread-specific data is
-- copied on the way. The harts' data, or a failure, with the state that is left.
unfoldable pub prepare_harts : ℕ → Soc → ℕ → ℕ → ℕ → Option (Option (List HartState) × Soc)
prepare_harts zero soc num_harts hart slice_id = some (some [], soc)
prepare_harts (suc left) soc num_harts hart slice_id = elim (copy_tsd soc num_harts hart) [
  | none ↦ none
  | some none ↦ some (none, soc)
  | some (some (ktb_addr, soc')) ↦ elim (prepare_harts left soc' num_harts (suc hart) slice_id) [
    | none ↦ none
    | some (none, soc'') ↦ some (none, soc'')
    | some (some harts, soc'') ↦ some (
      some (
          record {
            stack_top_addr = slice_stack_top soc num_harts hart;
            extra_args = slice_id ∷ kub_addr soc ∷ ktb_addr ∷ [];
          }
          ∷ harts),
      soc'',
    )
  ]
]

-- The extra arguments of RUN_INSTANCES: the chunks from 1 on.
unfoldable pub read_args : Chunks → ℕ → ℕ → Option (List ℕ)
read_args chunk first zero = some []
read_args chunk first (suc count) = do
  arg ← chunk first
  rest ← read_args chunk (suc first) count
  some (arg ∷ rest)

module _ (run : List HartSetup → Machine → Bool × Machine) where
  unfoldable pub run_prepared : Option (Option (List HartState) × Soc) → ℕ → Executed
  run_prepared none num_instances = none
  run_prepared (some (none, soc)) num_instances = fail soc
  run_prepared (some (some harts, soc)) num_instances =
      run_kernel_slice run soc num_instances (entry_point_addr soc) (soc.registers reg_return_addr)
        harts

  unfoldable pub execute_run_kernel_slice : Soc → ℕ → ℕ → Chunks → Executed
  execute_run_kernel_slice soc num_chunks inline_chunk chunk =
      if num_chunks != 2 then fail soc else do
        num_instances ← chunk 0
        slice_id ← chunk 1
        let num_harts = harts_to_use (bit_and inline_chunk 0xff)
        run_prepared (prepare_harts num_harts soc num_harts 0 slice_id) num_instances

  unfoldable pub execute_run_instances : Soc → ℕ → ℕ → Chunks → Executed
  execute_run_instances soc num_chunks inline_chunk chunk =
      let num_extra_args = bit_and (shr inline_chunk 8) 0x07 in
      if ltb num_chunks 1 || (ltb 7 num_extra_args || num_chunks != num_extra_args + 1)
      then fail soc
      else do
        num_instances ← chunk 0
        args ← read_args chunk 1 num_extra_args
        run_kernel_slice run soc num_instances (entry_point_addr soc)
            (soc.registers reg_return_addr)
            (replicate (harts_to_use (bit_and inline_chunk 0xff))
              (record { stack_top_addr = soc.registers reg_stack_top; extra_args = args }))
