-- ===== src/Controller/Devices.antt =====
-- MemoryController::add_device and remove_device against the lookups
-- (driver/source/common/common_devices.cpp).
use nupu_refsi.Prelude.{
  ℕ, ◌≤◌, ◌<◌, ◌≡◌, refl, Bool-cases, inl, inr, true, false, none, some, arith, sub64,
}
use nupu_refsi.Machine.{Machine}
use nupu_refsi.Controller.{find_device, entry_at, base_in_use, add_device, remove_device}
use nupu_refsi.Controller.Lookup.{Sorted}
use nupu_refsi.Controller.Update.{
  insert_entry-Sorted, find_entry-insert_entry, find_entry-insert_entry_below,
  erase_entry-insert_entry, entry_at-insert_entry,
}

-- A device whose base address is not in use is added: the map stays in order, and from that address
-- up to the next base address the device answers, with the distance from its base.
pub find_device-add_device :
    (m : Machine) (addr dev a : ℕ)
    → Sorted m.mapping
    → base_in_use m addr ≡ false
    → addr ≤ a
    → ((k : ℕ) → addr < k → k ≤ a → entry_at m.mapping k ≡ none)
    → ((add_device m addr dev).0 ≡ true)
      × Sorted (add_device m addr dev).1.mapping
      × (find_device (add_device m addr dev).1.mapping a ≡ some (dev, sub64 a addr))
unfolding add_device find_device
find_device-add_device m addr dev a s free h gap =
    rw (free, add_device)
      (
        refl,
        insert_entry-Sorted m.mapping addr dev s,
        rw (find_entry-insert_entry m.mapping addr dev a s h gap, find_device),
      )

-- Whether or not a device is added, every address below its base address is answered as before.
pub find_device-add_device_below :
    (m : Machine) (addr dev a : ℕ)
    → Sorted m.mapping
    → a < addr
    → find_device (add_device m addr dev).1.mapping a ≡ find_device m.mapping a
unfolding add_device find_device
find_device-add_device_below m addr dev a s h = elim (Bool-cases (base_in_use m addr)) [
  | inl used ↦ rw (used, add_device) refl
  | inr free ↦
      rw (free, add_device)
        (rw (find_entry-insert_entry_below m.mapping addr dev a s h, find_device))
]

-- A device that was added at a new base address is removed again by that address, and the machine
-- is then as before.
pub remove-add_device :
    (m : Machine) (addr dev : ℕ)
    → Sorted m.mapping
    → base_in_use m addr ≡ false
    → entry_at m.mapping addr ≡ none
    → remove_device (add_device m addr dev).1 addr ≡ (some dev, m)
unfolding add_device remove_device
remove-add_device m addr dev s free new = ground (
  arith,
  entry_at-insert_entry m.mapping addr dev addr s,
  erase_entry-insert_entry m.mapping addr dev new,
)

-- Adding a device to the map changes no device.
pub devices-add_device :
    (m : Machine) (addr dev x : ℕ) → (add_device m addr dev).1.devices x ≡ m.devices x
unfolding add_device
devices-add_device m addr dev x = ground arith

-- What is in use is refused.
pub add_device-in_use :
    (m : Machine) (addr dev : ℕ) → base_in_use m addr ≡ true → add_device m addr dev ≡ (false, m)
unfolding add_device
add_device-in_use m addr dev used = ground arith
