-- ===== src/Board.antt =====
-- The construction of the M1 device (driver/source/refsidrv/refsi_device_m.cpp), with the memory
-- ranges of driver/source/refsidrv/refsi_memory.cpp: its address map and its memory map.
pub mod Plain
use nupu_refsi.Prelude.{
  ℕ, ◌*◌, ◌+◌, Bool, List, [], ◌∷◌, ◌++◌, Option, none, some, replicate, ◌==◌, if◌then◌else◌, leb,
  ltb, ◌&&◌,
}
use nupu_refsi.Config.{
  MemoryMapKind, tcdm_base, tcdm_size, dram_base, dram_size, host_base, host_size, dma_io_base,
  perf_counters_io_base, dma_num_regs, num_global_perf_counters, num_per_hart_perf_counters,
  num_memory_windows,
}
use nupu_refsi.HostMemory.{HostMemory}
use nupu_refsi.Window.{default_config}
use nupu_refsi.Machine.{Machine, Window, Device, ElfMachine, put_device}
use nupu_refsi.Controller.{add_device}

-- refsi_memory_map_entry
pub record MemoryMapEntry : Type 0 where
  pub kind : MemoryMapKind
  pub start_addr : ℕ
  pub size : ℕ

-- RefSiMemoryController: the memory controller's machine and the memory map.
pub record Board : Type 0 where
  pub machine : Machine
  pub memory_map : List MemoryMapEntry

abbrev pub dma_io_size : ℕ
dma_io_size = dma_num_regs * 8

abbrev pub perf_counters_io_size : ℕ
perf_counters_io_size = (num_global_perf_counters + num_per_hart_perf_counters) * 8

-- RefSiMemoryController::addMemDevice, for a device that gets the number `dev`; the result of
-- add_device is not looked at.
unfoldable pub add_mem_device : Board → ℕ → ℕ → MemoryMapKind → ℕ → Device → Board
add_mem_device b address size kind dev device = record {
  machine = (add_device (put_device b.machine dev device) address dev).1;
  memory_map = b.memory_map ++ record { kind = kind; start_addr = address; size = size } ∷ [];
}

-- RAMDevice::RAMDevice: the new block, of `size` zeros. That calloc fails is not modelled.
unfoldable pub allocate : HostMemory → ℕ → ℕ → HostMemory
allocate memory block size = record {
  bytes = λ b o. if b == block then 0 else memory.bytes b o;
  extent = λ b. if b == block then size else memory.extent b;
}

-- RefSiMemoryController::createMemRange, with a new device and block; `none` is the exception.
unfoldable pub create_mem_range : Board → MemoryMapKind → ℕ → ℕ → ℕ → ℕ → Option Board
create_mem_range b MemoryMapKind.host address size dev block = none
create_mem_range b kind address size dev block =
    let machine = record b.machine { memory = allocate b.machine.memory block size } in
    some (
      add_mem_device (record b { machine = machine }) address size kind dev (Device.ram block size))

-- The memory devices of RefSiMDevice::RefSiMDevice, on a new controller: TCDM, DRAM, host memory, the DMA device and the performance counters are devices 0 to 4.
unfoldable pub create_m1 : Board → Option Board
create_m1 b0 = elim (create_mem_range b0 MemoryMapKind.tcdm tcdm_base tcdm_size 0 1) [
  | none ↦ none
  | some b1 ↦ elim (create_mem_range b1 MemoryMapKind.dram dram_base dram_size 1 2) [
    | none ↦ none
    | some b2 ↦
        let b3 =
          add_mem_device b2 host_base host_size MemoryMapKind.host 2 (Device.host_ram host_size) in
        let b4 =
          add_mem_device b3 dma_io_base dma_io_size MemoryMapKind.kernel_dma_private 3
            (Device.dma ElfMachine.riscv_rv64 dma_io_base (λ unit reg. 0)) in
        some (
          add_mem_device b4 perf_counters_io_base perf_counters_io_size MemoryMapKind.perf_counters
            4 (Device.perf_counters (replicate num_global_perf_counters 0)))
  ]
]

-- The window devices that RefSiMemoryController::RefSiMemoryController creates, which get the
-- numbers from 5 on, and which are in no address map yet.
abbrev pub window_devices : List ℕ
window_devices = 5 ∷ 6 ∷ 7 ∷ 8 ∷ 9 ∷ 10 ∷ 11 ∷ 12 ∷ []

abbrev pub new_window : Window
new_window = record {
  config = default_config;
  mapped_device = none;
  mapped_offset = 0;
  mapped_config = default_config;
}

-- RefSiMemoryController::RefSiMemoryController, in the host's memory and with its harts.
unfoldable pub new_controller : HostMemory → (ℕ → ℕ → Option ℕ) → (ℕ → ℕ → ℕ → ℕ) → Board
new_controller memory csr csr_write = record {
  machine = record {
    memory = memory;
    devices = λ d.
        if leb 5 d && ltb d (5 + num_memory_windows) then some (Device.window new_window) else none;
    mapping = [];
    csr = csr;
    csr_write = csr_write;
  };
  memory_map = [];
}
