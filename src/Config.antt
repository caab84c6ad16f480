-- ===== src/Config.antt =====
-- The constants of a RefSi M1 device (driver/include/refsidrv/refsi_device.h and refsidrv.h,
-- driver/include/device/dma_regs.h), and the results and kinds that the driver's interface names.
use nupu_refsi.Prelude.{ℕ, ◌+◌, ◌-◌, ◌*◌, ◌^◌}

-- enum refsi_result
pub data RefsiResult : Type 0 where
  success failure invalid_device device_closed not_supported : RefsiResult

-- The value of a result where the source returns it as a number.
abbrev pub result_code : RefsiResult → ℕ
result_code RefsiResult.success = 0
result_code RefsiResult.failure = 1
result_code RefsiResult.invalid_device = 2
result_code RefsiResult.device_closed = 3
result_code RefsiResult.not_supported = 4

-- enum refsi_memory_map_kind
pub data MemoryMapKind : Type 0 where
  unknown dram tcim tcdm tcdm_private kernel_dma kernel_dma_private perf_counters host :
      MemoryMapKind

-- enum refsi_device_constants
abbrev pub num_harts_per_core : ℕ
num_harts_per_core = 4

abbrev pub num_memory_windows : ℕ
num_memory_windows = 8

abbrev pub num_global_perf_counters : ℕ
num_global_perf_counters = 32

abbrev pub num_per_hart_perf_counters : ℕ
num_per_hart_perf_counters = 32

-- enum refsi_device_memory_regions
abbrev pub tcdm_base : ℕ
tcdm_base = 0x10000000

abbrev pub tcdm_size : ℕ
tcdm_size = 4 * 2 ^ 20

abbrev pub tcdm_hart_size : ℕ
tcdm_hart_size = 2 * 2 ^ 20

abbrev pub tcdm_hart_base : ℕ
tcdm_hart_base = tcdm_base + tcdm_size - tcdm_hart_size

abbrev pub dma_io_base : ℕ
dma_io_base = 0x20002000

abbrev pub perf_counters_io_base : ℕ
perf_counters_io_base = 0x20100000

abbrev pub dram_base : ℕ
dram_base = 0x40000000

abbrev pub dram_size : ℕ
dram_size = 2 * 2 ^ 30

abbrev pub host_base : ℕ
host_base = 0x100000000

abbrev pub host_size : ℕ
host_size = 2 ^ 50

-- The DMA registers, by index.
abbrev pub reg_dmactrl : ℕ
reg_dmactrl = 0

abbrev pub reg_dmastartseq : ℕ
reg_dmastartseq = 1

abbrev pub reg_dmadoneseq : ℕ
reg_dmadoneseq = 2

abbrev pub reg_dmasrcaddr : ℕ
reg_dmasrcaddr = 3

abbrev pub reg_dmadstaddr : ℕ
reg_dmadstaddr = 4

abbrev pub reg_dmaxfersize0 : ℕ
reg_dmaxfersize0 = 5

abbrev pub reg_dmaxfersrcstride0 : ℕ
reg_dmaxfersrcstride0 = 8

abbrev pub reg_dmaxferdststride0 : ℕ
reg_dmaxferdststride0 = 10

abbrev pub dma_num_regs : ℕ
dma_num_regs = 32

-- The fields of the DMA control register.
abbrev pub dma_start : ℕ
dma_start = 1

abbrev pub dma_1d : ℕ
dma_1d = 0x10

abbrev pub dma_2d : ℕ
dma_2d = 0x20

abbrev pub dma_3d : ℕ
dma_3d = 0x30

abbrev pub dma_dim_mask : ℕ
dma_dim_mask = 0x30

abbrev pub dma_stride_none : ℕ
dma_stride_none = 0

abbrev pub dma_stride_dst : ℕ
dma_stride_dst = 0x40

abbrev pub dma_stride_src : ℕ
dma_stride_src = 0x80

abbrev pub dma_stride_mode_mask : ℕ
dma_stride_mode_mask = 0xc0

-- enum refsi_cmp_register_id
abbrev pub reg_entry_pt_fn : ℕ
reg_entry_pt_fn = 1

abbrev pub reg_kub_desc : ℕ
reg_kub_desc = 2

abbrev pub reg_tsd_info : ℕ
reg_tsd_info = 4

abbrev pub reg_stack_top : ℕ
reg_stack_top = 5

abbrev pub reg_return_addr : ℕ
reg_return_addr = 6

abbrev pub reg_window_base0 : ℕ
reg_window_base0 = 8

abbrev pub reg_window_target0 : ℕ
reg_window_target0 = 16

abbrev pub reg_window_mode0 : ℕ
reg_window_mode0 = 24

abbrev pub reg_window_scale0 : ℕ
reg_window_scale0 = 32

abbrev pub cmp_num_regs : ℕ
cmp_num_regs = 40

abbrev pub window_mode_shared : ℕ
window_mode_shared = 0

abbrev pub window_mode_per_hart : ℕ
window_mode_per_hart = 2
