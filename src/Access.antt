-- ===== src/Access.antt =====
-- Loads and stores of the device classes and of MemoryController
-- (driver/source/common/common_devices.cpp, driver/source/refsidrv/refsi_memory_window.cpp).
-- An outer `none` stands for undefined behaviour; a load that the device refuses is `some none`.
pub mod Ram
use nupu_refsi.Prelude.{
  ℕ, zero, suc, ◌&&◌, Bool, true, false, List, Option, none, some, ltb, leb, ◌==◌, if◌then◌else◌,
  add64,
}
use nupu_refsi.HostMemory.{Ptr, copy_out, copy_in, memcpy}
use nupu_refsi.Machine.{Machine, Device, ElfMachine, Window, put_device, mem_size}
use nupu_refsi.Controller.{find_device}
use nupu_refsi.Pointers.{get_effective_address, addr_to_mem, max_depth, controller_addr_to_mem}
use nupu_refsi.Dma.{DmaState}
use nupu_refsi.Dma.Registers.{dma_load, dma_store}
use nupu_refsi.PerfCounters.{perf_load, perf_store}

abbrev pub LoadResult : Type 0
LoadResult = Option (Option (List ℕ))

abbrev pub StoreResult : Type 0
StoreResult = Option (Bool × Machine)

-- memcpy from a pointer that is not null.
unfoldable pub load_pointer : Machine → Ptr → ℕ → LoadResult
load_pointer m p len = elim (copy_out m.memory p len) [ none ↦ none | some bs ↦ some (some bs) ]

unfoldable pub store_pointer : Machine → Ptr → List ℕ → StoreResult
store_pointer m p bytes = elim (copy_in m.memory p bytes) [
  | none ↦ none
  | some memory ↦ some (true, record m { memory = memory })
]

abbrev pub too_long : Device → ℕ → ℕ → Bool
too_long device off len = ltb 0 (mem_size device) && ltb (mem_size device) (add64 off len)

-- MemoryDeviceBase::load and MemoryDeviceBase::store, with the device's own pointer.
unfoldable pub base_load : Machine → Device → Option Ptr → ℕ → ℕ → LoadResult
base_load m device pointer off len =
    if too_long device off len
    then some none
    else elim pointer [ none ↦ some none | some p ↦ load_pointer m p len ]

unfoldable pub base_store : Machine → Device → Option Ptr → ℕ → ℕ → List ℕ → StoreResult
base_store m device pointer off len bytes =
    if too_long device off len
    then some (false, m)
    else elim pointer [ none ↦ some (false, m) | some p ↦ store_pointer m p bytes ]

-- The address in the target that RefSiMemoryWindow::load and RefSiMemoryWindow::store pass on.
unfoldable pub window_target : Window → ℕ → ℕ → ℕ → Option (ℕ × ℕ)
window_target w addr len unit =
    if leb w.config.size (add64 addr len) then none else elim w.mapped_device [
      | none ↦ none
      | some target ↦ elim (get_effective_address w addr unit) [
        | none ↦ none
        | some a ↦ some (target, a)
      ]
    ]

-- `load` of each class; `pointer` is the device's own pointer and `through` the load of a target.
unfoldable pub load_by_class :
    (ℕ → ℕ → LoadResult) → Machine → Option Device → Option Ptr → ℕ → ℕ → ℕ → LoadResult
load_by_class through m none pointer off len unit = none
load_by_class through m (some (Device.ram contents size)) pointer off len unit =
    base_load m (Device.ram contents size) pointer off len
load_by_class through m (some (Device.host_ram size)) pointer off len unit =
    base_load m (Device.host_ram size) pointer off len
load_by_class through m (some (Device.rom contents size)) pointer off len unit =
    if leb (add64 off len) size
    then load_pointer m (record { block = contents; offset = off }) len
    else some none
load_by_class through m (some (Device.buffer contents size)) pointer off len unit =
    base_load m (Device.buffer contents size) pointer off len
load_by_class through m (some (Device.dma machine base regs)) pointer off len unit =
    some (dma_load machine base (regs unit) off len)
load_by_class through m (some (Device.perf_counters counters)) pointer off len unit =
    some (perf_load m counters off len unit)
load_by_class through m (some (Device.window w)) pointer off len unit =
    elim (window_target w off len unit) [ none ↦ some none | some (target, a) ↦ through target a ]

-- device->load(off, len, bytes, unit). The first argument bounds the windows passed through.
unfoldable pub device_load : ℕ → Machine → ℕ → ℕ → ℕ → ℕ → LoadResult
device_load zero m dev off len unit = none
device_load (suc depth) m dev off len unit =
    load_by_class (λ d a. device_load depth m d a len unit) m (m.devices dev)
      (addr_to_mem (suc depth) m dev off len unit) off len unit

-- What a store to the registers of one unit leaves of the DMA device and of memory.
unfoldable pub store_to_dma :
    Machine → ℕ → ElfMachine → ℕ → (ℕ → ℕ → ℕ) → ℕ → ℕ → List ℕ → ℕ → StoreResult
store_to_dma m dev machine base contents off len bytes unit =
    elim (dma_store (λ a. controller_addr_to_mem m a 0 unit) machine base
      (record { regs = contents unit; memory = m.memory }) off len bytes) [
        | none ↦ none
        | some (done, s) ↦ some (
          done,
          record (put_device m dev
              (Device.dma machine base (λ u. if u == unit then s.regs else contents u))) {
                memory = s.memory;
              },
        )
      ]

unfoldable pub store_by_class :
    (ℕ → ℕ → StoreResult)
    → Machine
    → ℕ
    → Option Device
    → Option Ptr
    → ℕ
    → ℕ
    → List ℕ
    → ℕ
    → StoreResult
store_by_class through m dev none pointer off len bytes unit = none
store_by_class through m dev (some (Device.ram contents size)) pointer off len bytes unit =
    base_store m (Device.ram contents size) pointer off len bytes
store_by_class through m dev (some (Device.host_ram size)) pointer off len bytes unit =
    base_store m (Device.host_ram size) pointer off len bytes
store_by_class through m dev (some (Device.rom contents size)) pointer off len bytes unit =
    some (false, m)
store_by_class through m dev (some (Device.buffer contents size)) pointer off len bytes unit =
    base_store m (Device.buffer contents size) pointer off len bytes
store_by_class through m dev (some (Device.dma machine base regs)) pointer off len bytes unit =
    store_to_dma m dev machine base regs off len bytes unit
store_by_class through m dev (some (Device.perf_counters counters)) pointer off len bytes unit =
    elim (perf_store m dev counters off len bytes unit) [
      | none ↦ some (false, m)
      | some m' ↦ some (true, m')
    ]
store_by_class through m dev (some (Device.window w)) pointer off len bytes unit =
    elim (window_target w off len unit) [
      | none ↦ some (false, m)
      | some (target, a) ↦ through target a
    ]

-- device->store(off, len, bytes, unit)
unfoldable pub device_store : ℕ → Machine → ℕ → ℕ → ℕ → List ℕ → ℕ → StoreResult
device_store zero m dev off len bytes unit = none
device_store (suc depth) m dev off len bytes unit =
    store_by_class (λ d a. device_store depth m d a len bytes unit) m dev (m.devices dev)
      (addr_to_mem (suc depth) m dev off len unit) off len bytes unit

-- bool MemoryController::load(reg_t addr, size_t len, uint8_t *bytes, unit_id_t unit)
unfoldable pub load : Machine → ℕ → ℕ → ℕ → LoadResult
load m addr len unit = elim (find_device m.mapping addr) [
  | none ↦ some none
  | some (dev, off) ↦ elim (addr_to_mem max_depth m dev off len unit) [
    | none ↦ device_load max_depth m dev off len unit
    | some p ↦ load_pointer m p len
  ]
]

-- bool MemoryController::store(reg_t addr, size_t len, const uint8_t *bytes, unit_id_t unit)
unfoldable pub store : Machine → ℕ → ℕ → List ℕ → ℕ → StoreResult
store m addr len bytes unit = elim (find_device m.mapping addr) [
  | none ↦ some (false, m)
  | some (dev, off) ↦ elim (addr_to_mem max_depth m dev off len unit) [
    | none ↦ device_store max_depth m dev off len bytes unit
    | some p ↦ store_pointer m p bytes
  ]
]

-- bool MemoryController::copy(reg_t dst_addr, reg_t src_addr, size_t len, unit_id_t unit)
unfoldable pub copy : Machine → ℕ → ℕ → ℕ → ℕ → StoreResult
copy m dst_addr src_addr len unit = elim (controller_addr_to_mem m src_addr len unit) [
  | none ↦ some (false, m)
  | some src ↦ elim (controller_addr_to_mem m dst_addr len unit) [
    | none ↦ some (false, m)
    | some dst ↦ elim (memcpy m.memory dst src len) [
      | none ↦ none
      | some memory ↦ some (true, record m { memory = memory })
    ]
  ]
]
