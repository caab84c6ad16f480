-- ===== src/Access/Ram.antt =====
-- Loads and stores of RAM through the memory controller.
use nupu_refsi.Prelude.{ℕ, ◌+◌, ◌^◌, ◌≤◌, ◌<◌, ◌≡◌, ◌∙◌, true, List, some, arith, length}
use nupu_refsi.HostMemory.{Ptr, write_bytes}
use nupu_refsi.HostMemory.Laws.{
  Apart, copy_in_fits, copy_out-write_bytes, copy_out-write_bytes-Apart, extent-write_bytes,
}
use nupu_refsi.Machine.{Machine, Device}
use nupu_refsi.Controller.{find_device}
use nupu_refsi.Pointers.{controller_addr_to_mem, addr_to_mem, device_pointer, max_depth}
use nupu_refsi.Access.{load, store, load_pointer, store_pointer}

-- The `len` bytes at `addr` lie in a RAM device, at the pointer `p` of its contents.
pub record RamAt (m : Machine) (addr len : ℕ) (p : Ptr) : Type 0 where
  pub dev : ℕ
  pub size : ℕ
  pub found : find_device m.mapping addr ≡ some (dev, p.offset)
  pub is_ram : m.devices dev ≡ some (Device.ram p.block size)
  pub backed : m.memory.extent p.block ≡ size
  pub within_ram : p.offset + len ≤ size
  pub small : size < 2 ^ 64

ram_pointer :
    (m : Machine) (addr len unit : ℕ) (p : Ptr) (r : RamAt m addr len p)
    → addr_to_mem max_depth m r.dev p.offset len unit ≡ some p
unfolding addr_to_mem device_pointer
ram_pointer m addr len unit p r = ground (arith, r.is_ram, r.within_ram, r.small)

pub load_ram :
    (m : Machine) (addr len unit : ℕ) (p : Ptr)
    → RamAt m addr len p
    → load m addr len unit ≡ load_pointer m p len
unfolding load
load_ram m addr len unit p r = rw (r.found, load, ram_pointer m addr len unit p r)

pub store_ram :
    (m : Machine) (addr unit : ℕ) (bytes : List ℕ) (p : Ptr)
    → RamAt m addr (length bytes) p
    → store m addr (length bytes) bytes unit
      ≡ some (true, record m { memory = write_bytes m.memory p bytes })
unfolding store store_pointer
store_ram m addr unit bytes p r = rw (
  r.found,
  store,
  ram_pointer m addr (length bytes) unit p r,
  store_pointer,
  copy_in_fits m.memory p bytes (omega arith),
)

-- A write leaves where RAM lies as it is.
pub RamAt-write_bytes :
    (m : Machine) (addr len : ℕ) (p q : Ptr) (bytes : List ℕ)
    → RamAt m addr len p
    → RamAt (record m { memory = write_bytes m.memory q bytes }) addr len p
RamAt-write_bytes m addr len p q bytes r = record {
  dev = r.dev;
  size = r.size;
  found = r.found;
  is_ram = r.is_ram;
  backed = extent-write_bytes m.memory q bytes p.block ∙ r.backed;
  within_ram = r.within_ram;
  small = r.small;
}

-- The pointer that the memory controller gives.
pub controller_addr_to_mem_ram :
    (m : Machine) (addr len unit : ℕ) (p : Ptr)
    → RamAt m addr len p
    → controller_addr_to_mem m addr len unit ≡ some p
unfolding controller_addr_to_mem
controller_addr_to_mem_ram m addr len unit p r =
    rw (r.found, controller_addr_to_mem, ram_pointer m addr len unit p r)

-- What is stored in RAM is loaded back, by any unit, and the store succeeds: for bytes that lie in
-- one RAM device.
pub store-load :
    (m : Machine) (addr unit unit' : ℕ) (bytes : List ℕ) (p : Ptr)
    → RamAt m addr (length bytes) p
    → (m' : Machine) × (store m addr (length bytes) bytes unit ≡ some (true, m'))
      × (load m' addr (length bytes) unit' ≡ some (some bytes))
unfolding load_pointer
store-load m addr unit unit' bytes p r =
    let m' : Machine = record m { memory = write_bytes m.memory p bytes } in
    let r' : RamAt m' addr (length bytes) p = RamAt-write_bytes m addr (length bytes) p p bytes r in
    (
      m',
      store_ram m addr unit bytes p r,
      load_ram m' addr (length bytes) unit' p r'
          ∙ rw (copy_out-write_bytes m.memory p bytes (omega arith), load_pointer),
    )

-- A store in RAM does not change what a load from RAM gives that shares no byte with it.
pub store-load-Apart :
    (m : Machine) (addr addr' len unit unit' : ℕ) (bytes : List ℕ) (p q : Ptr)
    → RamAt m addr (length bytes) p
    → RamAt m addr' len q
    → Apart p (length bytes) q len
    → (m' : Machine) × (store m addr (length bytes) bytes unit ≡ some (true, m'))
      × (load m' addr' len unit' ≡ load m addr' len unit')
unfolding load_pointer
store-load-Apart m addr addr' len unit unit' bytes p q r s apart =
    let m' : Machine = record m { memory = write_bytes m.memory p bytes } in
    let s' : RamAt m' addr' len q = record {
      dev = s.dev;
      size = s.size;
      found = s.found;
      is_ram = s.is_ram;
      backed = extent-write_bytes m.memory p bytes q.block ∙ s.backed;
      within_ram = s.within_ram;
      small = s.small;
    } in
    (
      m',
      store_ram m addr unit bytes p r,
      load_ram m' addr' len unit' q s'
          ∙ rw (
            copy_out-write_bytes-Apart m.memory p q bytes len apart,
            load_ram m addr' len unit' q s,
            load_pointer,
          ),
    )
