-- ===== src/Controller.antt =====
-- The address map of a MemoryController (driver/source/common/common_devices.cpp): a std::map from
-- base addresses to devices, kept as a list in ascending order of the keys.
pub mod Lookup
pub mod Update
pub mod Devices
use nupu_refsi.Prelude.{
  ℕ, ◌<◌, List, [], ◌∷◌, Bool, true, false, Option, none, some, ltb, ◌==◌, if◌then◌else◌, sub64,
}
use nupu_refsi.Machine.{Machine, mem_size}

-- The entry before `upper_bound(addr)`, if there is one.
unfoldable pub find_entry : List (ℕ × ℕ) → ℕ → Option (ℕ × ℕ)
find_entry [] addr = none
find_entry ((base, dev) ∷ rest) addr =
    if ltb addr base
    then none
    else elim (find_entry rest addr) [ none ↦ some (base, dev) | some e ↦ some e ]

-- std::pair<reg_t, MemoryDevice *> MemoryController::find_device(reg_t addr), then its offset: the
-- device with the greatest base address not above `addr`, and the distance from that address.
unfoldable pub find_device : List (ℕ × ℕ) → ℕ → Option (ℕ × ℕ)
find_device devices addr = elim (find_entry devices addr) [
  | none ↦ none
  | some (base, dev) ↦ some (dev, sub64 addr base)
]

-- `devices[addr] = device`
unfoldable pub insert_entry : List (ℕ × ℕ) → ℕ → ℕ → List (ℕ × ℕ)
insert_entry [] addr dev = (addr, dev) ∷ []
insert_entry ((base, d) ∷ rest) addr dev =
    if ltb addr base
    then (addr, dev) ∷ (base, d) ∷ rest
    else if addr == base
    then (addr, dev) ∷ rest
    else (base, d) ∷ insert_entry rest addr dev

-- `devices.find(addr)`, and `devices.erase`
unfoldable pub entry_at : List (ℕ × ℕ) → ℕ → Option ℕ
entry_at [] addr = none
entry_at ((base, d) ∷ rest) addr = if base == addr then some d else entry_at rest addr

unfoldable pub erase_entry : List (ℕ × ℕ) → ℕ → List (ℕ × ℕ)
erase_entry [] addr = []
erase_entry ((base, d) ∷ rest) addr =
    if base == addr then rest else (base, d) ∷ erase_entry rest addr

-- The base address is used if it falls into the device that `find_device` gives for it.
unfoldable pub base_in_use : Machine → ℕ → Bool
base_in_use m addr = elim (find_device m.mapping addr) [
  | none ↦ false
  | some (prev, dev_offset) ↦ elim (m.devices prev) [
    | none ↦ false
    | some device ↦ ltb dev_offset (mem_size device)
  ]
]

-- bool MemoryController::add_device(reg_t addr, MemoryDevice *device)
unfoldable pub add_device : Machine → ℕ → ℕ → Bool × Machine
add_device m addr dev =
    if base_in_use m addr
    then (false, m)
    else (true, record m { mapping = insert_entry m.mapping addr dev })

-- MemoryDevice *MemoryController::remove_device(reg_t addr)
unfoldable pub remove_device : Machine → ℕ → Option ℕ × Machine
remove_device m addr = elim (entry_at m.mapping addr) [
  | none ↦ (none, m)
  | some dev ↦ (some dev, record m { mapping = erase_entry m.mapping addr })
]
