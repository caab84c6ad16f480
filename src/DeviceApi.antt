-- ===== src/DeviceApi.antt =====
-- What the host calls on a device (driver/source/refsidrv/refsi_device.cpp): allocation, and reads
-- and writes of device memory. The allocator of DRAM is a library's: its state and its two calls
-- are parameters.
pub mod Transfers
use nupu_refsi.Prelude.{
  ℕ, ◌+◌, ◌-◌, ◌^◌, Bool, true, false, ◌&&◌, List, [], Option, none, some, bit_and, ltb, leb,
  if◌then◌else◌, add64, sub64,
}
use nupu_refsi.Config.{
  RefsiResult, result_code, MemoryMapKind, host_base, host_size, dram_base, dram_size,
}
use nupu_refsi.UnitId.{make_unit, kind_external}
use nupu_refsi.HostMemory.{Ptr}
use nupu_refsi.Machine.{Machine}
use nupu_refsi.Pointers.{controller_addr_to_mem}
use nupu_refsi.Access.{load, store}

-- The address of a host allocation: the first aligned one of the region.
unfoldable pub host_address : ℕ → ℕ
host_address alignment =
    bit_and (sub64 (add64 host_base alignment) 1) (2 ^ 64 - 1 - sub64 alignment 1)

module _ {S : Type 0} (alloc : S → ℕ → ℕ → ℕ × S) (free : S → ℕ → S) where
  -- RefSiDevice::allocDeviceMemory. A failure is the number of refsi_failure, as an address.
  unfoldable pub alloc_device_memory : S → ℕ → ℕ → MemoryMapKind → ℕ × S
  alloc_device_memory s size alignment MemoryMapKind.dram = alloc s size alignment
  alloc_device_memory s size alignment MemoryMapKind.host =
      if leb (add64 (host_address alignment) size) (host_base + host_size)
      then (host_address alignment, s)
      else (result_code RefsiResult.failure, s)
  alloc_device_memory s size alignment kind = (result_code RefsiResult.failure, s)

  -- RefSiDevice::freeDeviceMemory
  unfoldable pub free_device_memory : S → ℕ → RefsiResult × S
  free_device_memory s phys_addr =
      if leb host_base phys_addr && ltb phys_addr (host_base + host_size)
      then (RefsiResult.success, s)
      else if leb dram_base phys_addr && ltb phys_addr (dram_base + dram_size)
      then (RefsiResult.success, free s phys_addr)
      else (RefsiResult.success, s)

abbrev result_of : Bool → RefsiResult
result_of done = if done then RefsiResult.success else RefsiResult.failure

-- RefSiDevice::getMappedAddress
unfoldable pub get_mapped_address : Machine → ℕ → ℕ → Option Ptr
get_mapped_address m phys_addr size =
    controller_addr_to_mem m phys_addr size (make_unit kind_external 0)

-- RefSiDevice::readDeviceMemory, with the bytes that it reads.
unfoldable pub read_device_memory : Machine → ℕ → ℕ → ℕ → Option (RefsiResult × List ℕ)
read_device_memory m addr size unit_id = elim (load m addr size unit_id) [
  | none ↦ none
  | some none ↦ some (RefsiResult.failure, [])
  | some (some bytes) ↦ some (RefsiResult.success, bytes)
]

-- RefSiDevice::writeDeviceMemory
unfoldable pub write_device_memory : Machine → ℕ → List ℕ → ℕ → ℕ → Option (RefsiResult × Machine)
write_device_memory m addr source size unit_id = elim (store m addr size source unit_id) [
  | none ↦ none
  | some (done, m') ↦ some (result_of done, m')
]
