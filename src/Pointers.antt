-- ===== src/Pointers.antt =====
-- Host pointers to device memory: `addr_to_mem` of the device classes and of MemoryController
-- (driver/source/common/common_devices.cpp), and the address function of a memory window
-- (driver/source/refsidrv/refsi_memory_window.cpp).
pub mod Depth
pub mod Bounds
use nupu_refsi.Prelude.{
  ℕ, zero, suc, ◌+◌, ◌-◌, ◌*◌, Bool, Option, none, some, ltb, leb, ◌==◌, ◌!=◌, if◌then◌else◌, add64,
  mul64, u64, shl,
}
use nupu_refsi.Config.{window_mode_shared, window_mode_per_hart}
use nupu_refsi.UnitId.{get_unit_kind, get_unit_index, kind_external, kind_acc_hart}
use nupu_refsi.HostMemory.{Ptr, host_block}
use nupu_refsi.Machine.{Machine, Device, Window, WindowConfig}
use nupu_refsi.Controller.{find_device}

-- uint64_t RefSiMemoryWindowConfig::getScale() const
unfoldable pub get_scale : WindowConfig → ℕ
get_scale c = if c.scale_a == 0 then 0 else mul64 (shl 1 (c.scale_a - 1)) (add64 c.scale_b 1)

-- RefSiMemoryWindow::getEffectiveAddress; `none` stands for refsi_failure.
unfoldable pub get_effective_address : Window → ℕ → ℕ → Option ℕ
get_effective_address w addr unit =
    if w.mapped_config.mode == window_mode_shared
    then some (add64 w.mapped_offset addr)
    else if w.mapped_config.mode != window_mode_per_hart
    then none
    else if get_unit_kind unit != kind_acc_hart
    then none
    else some (
        add64 (add64 w.mapped_offset (mul64 (get_unit_index unit) (get_scale w.mapped_config)))
          addr)

-- `addr_to_mem` of each class, where `through` is that of a window's target; `none` is null, which
-- a raw host address can be too.
unfoldable pub device_pointer : (ℕ → ℕ → Option Ptr) → Option Device → ℕ → ℕ → ℕ → Option Ptr
device_pointer through none off size unit = none
device_pointer through (some (Device.ram contents len)) off size unit =
    if leb (add64 off size) len then some (record { block = contents; offset = off }) else none
device_pointer through (some (Device.host_ram len)) off size unit =
    if leb (add64 off size) len
    then (if off == 0 then none else some (record { block = host_block; offset = off }))
    else none
device_pointer through (some (Device.rom contents len)) off size unit =
    if get_unit_kind unit == kind_external
    then (if leb (add64 off size) len
        then some (record { block = contents; offset = off })
        else none)
    else none
device_pointer through (some (Device.buffer contents len)) off size unit =
    if ltb len (add64 off size) then none else some (record { block = contents; offset = off })
device_pointer through (some (Device.dma machine base regs)) off size unit = none
device_pointer through (some (Device.perf_counters counters)) off size unit = none
device_pointer through (some (Device.window w)) off size unit = elim w.mapped_device [
  | none ↦ none
  | some target ↦ elim (get_effective_address w off unit) [
    | none ↦ none
    | some target_addr ↦ through target target_addr
  ]
]

-- device->addr_to_mem(off, size, unit). The first argument bounds the windows passed through.
unfoldable pub addr_to_mem : ℕ → Machine → ℕ → ℕ → ℕ → ℕ → Option Ptr
addr_to_mem zero m dev off size unit = none
addr_to_mem (suc depth) m dev off size unit =
    device_pointer (λ d a. addr_to_mem depth m d a size unit) (m.devices dev) off size unit

-- One window before the target: no window is mapped to another one.
abbrev pub max_depth : ℕ
max_depth = 2

-- uint8_t *MemoryController::addr_to_mem(reg_t addr, size_t size, unit_id_t unit)
unfoldable pub controller_addr_to_mem : Machine → ℕ → ℕ → ℕ → Option Ptr
controller_addr_to_mem m addr size unit = elim (find_device m.mapping addr) [
  | none ↦ none
  | some (dev, off) ↦ addr_to_mem max_depth m dev off size unit
]
