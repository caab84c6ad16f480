-- ===== src/Machine.antt =====
-- The state of a device: the objects behind the `MemoryDevice *` pointers of
-- driver/include/common/common_devices.h, the address map of a MemoryController, the host memory
-- behind the device contents and the registers of the simulated harts.
use nupu_refsi.Prelude.{ℕ, ◌+◌, ◌*◌, List, Bool, Option, some, is_some, ◌==◌, if◌then◌else◌}
use nupu_refsi.Config.{dma_num_regs, num_global_perf_counters, num_per_hart_perf_counters}
use nupu_refsi.HostMemory.{HostMemory}

-- RefSiMemoryWindowConfig
pub record WindowConfig : Type 0 where
  pub active : Bool
  pub mode : ℕ
  pub base_address : ℕ
  pub target_address : ℕ
  pub size : ℕ
  pub scale_a : ℕ
  pub scale_b : ℕ

-- RefSiMemoryWindow: `mapped_device` is a pointer to the target, or null.
pub record Window : Type 0 where
  pub config : WindowConfig
  pub mapped_device : Option ℕ
  pub mapped_offset : ℕ
  pub mapped_config : WindowConfig

-- enum class elf_machine
pub data ElfMachine : Type 0 where
  unknown riscv_rv32 riscv_rv64 : ElfMachine

-- The classes that implement MemoryDevice. A block number stands for the pointer to the contents;
-- `dma_reg_contents` gives the registers of each unit, zeros for a unit that has no entry yet.
pub data Device : Type 0 where
  ram : (contents size : ℕ) → Device
  host_ram : (size : ℕ) → Device
  rom : (contents size : ℕ) → Device
  buffer : (contents size : ℕ) → Device
  dma : (machine : ElfMachine) (base_addr : ℕ) (dma_reg_contents : ℕ → ℕ → ℕ) → Device
  perf_counters : (global_counters : List ℕ) → Device
  window : Window → Device

-- `devices` are the objects, by pointer; `mapping` is the std::map of the memory controller, in
-- ascending order of its keys; `csr` is what the simulator knows of the control registers, by hart
-- and register number, and `csr_write` what a write of a register's new value leaves in it.
pub record Machine : Type 0 where
  pub memory : HostMemory
  pub devices : ℕ → Option Device
  pub mapping : List (ℕ × ℕ)
  pub csr : ℕ → ℕ → Option ℕ
  pub csr_write : ℕ → ℕ → ℕ → ℕ

abbrev pub put_device : Machine → ℕ → Device → Machine
put_device m d dev = record m { devices = λ e. if e == d then some dev else m.devices e }

-- bool isMapped()
abbrev pub is_mapped : Window → Bool
is_mapped w = is_some w.mapped_device

-- MemoryDevice::mem_size, for each class.
unfoldable pub mem_size : Device → ℕ
mem_size (Device.ram contents size) = size
mem_size (Device.host_ram size) = size
mem_size (Device.rom contents size) = size
mem_size (Device.buffer contents size) = size
mem_size (Device.dma machine base_addr regs) = dma_num_regs * 8
mem_size (Device.perf_counters global_counters) =
    (num_global_perf_counters + num_per_hart_perf_counters) * 8
mem_size (Device.window w) = if is_mapped w then w.mapped_config.size else w.config.size
