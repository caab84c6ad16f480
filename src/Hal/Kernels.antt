-- ===== src/Hal/Kernels.antt =====
-- The execution of kernels and copies on the host's side: refsi_m1_hal_device::kernel_exec and
-- mem_copy (hal_refsi/source/refsi_hal_m1.cpp). A command buffer is the list of the builder's calls.
pub mod Groups
pub mod Segments
use nupu_refsi.Prelude.{
  ℕ, zero, suc, ◌+◌, ◌*◌, ◌/◌, Bool, true, false, ◌&&◌, ◌||◌, List, [], ◌∷◌, ◌++◌, Option, none,
  some, ltb, leb, ◌==◌, ◌!=◌, if◌then◌else◌, bit_or, u32, add64, mul64,
}
use nupu_refsi.Config.{
  dma_start, dma_1d, dma_2d, dma_stride_none, dma_stride_src, dma_stride_dst, reg_dmactrl,
  reg_dmastartseq, reg_dmadoneseq, reg_dmasrcaddr, reg_dmadstaddr, reg_dmaxfersize0,
  reg_dmaxfersrcstride0, reg_dmaxferdststride0, reg_entry_pt_fn, reg_stack_top, reg_return_addr,
  num_per_hart_perf_counters,
}
use nupu_refsi.UnitId.{make_unit, kind_acc_hart}
use nupu_refsi.Elf.{ElfSegment}
use nupu_refsi.CommandBuffer.{Command, get_dma_reg_addr}

abbrev pub reg_scratch : ℕ
reg_scratch = 0

abbrev pub cache_sync_acc_dcache : ℕ
cache_sync_acc_dcache = 1

abbrev pub cache_sync_acc_icache : ℕ
cache_sync_acc_icache = 2

-- One dimension of the N-D range: the number of groups, `some none` when the local size does not
-- divide the global size, `none` for a division by zero.
unfoldable pub groups_in : ℕ → ℕ → Option (Option ℕ)
groups_in global zero = none
groups_in global (suc n) =
    if mul64 (global / suc n) (suc n) != global then some none else some (some (global / suc n))

-- hal_ndrange_t, the sizes of one dimension each
pub record Dimension : Type 0 where
  pub global : ℕ
  pub local : ℕ

unfoldable pub num_groups : List Dimension → Option (Option (List ℕ))
num_groups [] = some (some [])
num_groups (d ∷ ds) = elim (groups_in d.global d.local) [
  | none ↦ none
  | some none ↦ some none
  | some (some groups) ↦ elim (num_groups ds) [
    | none ↦ none
    | some none ↦ some none
    | some (some rest) ↦ some (some (groups ∷ rest))
  ]
]

-- The test that ELF segments are loaded in a valid area.
unfoldable pub segments_fit : ℕ → ℕ → List ElfSegment → Bool
segments_fit base size [] = true
segments_fit base size (segment ∷ rest) =
    let text_end = add64 base size in
    let segment_end = add64 segment.address segment.memory_size in
    if ltb segment.address base || leb text_end segment.address
    then false
    else if ltb segment_end base || ltb text_end segment_end
    then false
    else segments_fit base size rest

-- The number of slices, by the number of dimensions and the groups of dimensions 1 and 2.
unfoldable pub num_slices : ℕ → ℕ → ℕ → ℕ
num_slices work_dim groups_1 groups_2 =
    if work_dim == 3 then mul64 groups_1 groups_2 else if work_dim == 2 then groups_1 else 1

-- What a launch depends on. `counters` has the addresses of the counters and of their buffer, when
-- counters are enabled.
pub record Launch : Type 0 where
  pub kub_addr : ℕ
  pub exec_offset : ℕ
  pub exec_size : ℕ
  pub num_harts_per_core : ℕ
  pub tcdm_hart_base : ℕ
  pub tcdm_hart_target : ℕ
  pub tcdm_hart_size_per_hart : ℕ
  pub launch_addr : ℕ
  pub rom_base : ℕ
  pub num_instances : ℕ
  pub slices : ℕ
  pub counters : Option (ℕ × ℕ)

-- The 2D transfer that copies the scheduling information to all harts, and the wait for its end.
unfoldable pub broadcast_commands : Launch → List Command
broadcast_commands l =
    let config = bit_or dma_2d (bit_or dma_stride_src dma_stride_dst) in
    Command.write_dma_reg reg_dmasrcaddr (add64 l.kub_addr l.exec_offset)
    ∷ Command.write_dma_reg reg_dmadstaddr l.tcdm_hart_target
    ∷ Command.write_dma_reg reg_dmaxfersize0 l.exec_size
    ∷ Command.write_dma_reg (reg_dmaxfersize0 + 1) l.num_harts_per_core
    ∷ Command.write_dma_reg reg_dmaxfersrcstride0 0
    ∷ Command.write_dma_reg reg_dmaxferdststride0 l.tcdm_hart_size_per_hart
    ∷ Command.write_dma_reg reg_dmactrl (bit_or config dma_start)
    ∷ Command.load_reg64 reg_scratch (get_dma_reg_addr reg_dmastartseq)
    ∷ Command.store_reg64 reg_scratch (get_dma_reg_addr reg_dmadoneseq)
    ∷ []

-- The copies of the counters of hart i and the next ones, n in all.
unfoldable pub counter_commands : ℕ → ℕ → ℕ → ℕ → List Command
counter_commands zero i io_addr dest_addr = []
counter_commands (suc n) i io_addr dest_addr =
    Command.copy_mem64 io_addr dest_addr num_per_hart_perf_counters (make_unit kind_acc_hart i)
    ∷ counter_commands n (suc i) io_addr (add64 dest_addr (num_per_hart_perf_counters * 8))

-- The counters before (set 0) or after (set 1) the kernel.
unfoldable pub read_counters : Launch → ℕ → List Command
read_counters l set_index = elim l.counters [
  | none ↦ []
  | some (io_addr, buffer_addr) ↦
      counter_commands l.num_harts_per_core 0 io_addr (
        add64 buffer_addr (set_index * u32 (num_per_hart_perf_counters * 8 * l.num_harts_per_core)))
]

-- The loop over the slices: slice i and the next ones, n in all.
unfoldable pub slice_commands : Launch → ℕ → ℕ → List Command
slice_commands l zero i = []
slice_commands l (suc n) i =
    Command.run_instances l.num_harts_per_core l.num_instances
      (i ∷ l.kub_addr ∷ l.tcdm_hart_base ∷ [])
    ∷ slice_commands l n (suc i)

-- The command buffer of refsi_m1_hal_device::kernel_exec; without a ROM the call fails.
unfoldable pub kernel_commands : Launch → Option (List Command)
kernel_commands l =
    let sync = Command.sync_cache (bit_or cache_sync_acc_dcache cache_sync_acc_icache) in
    let stack_top = add64 l.tcdm_hart_base l.tcdm_hart_size_per_hart in
    if l.rom_base == 0
    then none
    else some (
        broadcast_commands l
        ++ (sync
            ∷ Command.write_reg64 reg_entry_pt_fn l.launch_addr
            ∷ Command.write_reg64 reg_stack_top stack_top
            ∷ Command.write_reg64 reg_return_addr l.rom_base
            ∷ read_counters l 0)
        ++ slice_commands l l.slices 0
        ++ (sync ∷ read_counters l 1)
        ++ (Command.finish ∷ []))

-- The command buffer of refsi_m1_hal_device::mem_copy
unfoldable pub copy_commands : ℕ → ℕ → ℕ → List Command
copy_commands dst src size =
    Command.write_dma_reg reg_dmasrcaddr src
    ∷ Command.write_dma_reg reg_dmadstaddr dst
    ∷ Command.write_dma_reg reg_dmaxfersize0 size
    ∷ Command.write_dma_reg reg_dmactrl (bit_or (bit_or dma_1d dma_stride_none) dma_start)
    ∷ Command.load_reg64 reg_scratch (get_dma_reg_addr reg_dmastartseq)
    ∷ Command.store_reg64 reg_scratch (get_dma_reg_addr reg_dmadoneseq)
    ∷ []
