-- ===== src/DeviceApi/Transfers.antt =====
-- Reads of device memory after writes.
use nupu_refsi.Prelude.{ℕ, ◌≡◌, refl, List, some, length}
use nupu_refsi.Config.{RefsiResult}
use nupu_refsi.HostMemory.{Ptr}
use nupu_refsi.Machine.{Machine}
use nupu_refsi.Access.Ram.{RamAt, store-load}
use nupu_refsi.DeviceApi.{read_device_memory, write_device_memory}

-- What the host writes to RAM of the device it reads back, and both calls succeed: for bytes that
-- lie in one RAM device, and units of any kind.
pub write-read_device_memory :
    (m : Machine) (addr unit unit' : ℕ) (bytes : List ℕ) (p : Ptr)
    → RamAt m addr (length bytes) p
    → (m' : Machine) × (write_device_memory m addr bytes (length bytes) unit
        ≡ some (RefsiResult.success, m'))
      × (read_device_memory m' addr (length bytes) unit' ≡ some (RefsiResult.success, bytes))
unfolding write_device_memory read_device_memory
write-read_device_memory m addr unit unit' bytes p r =
    let (m', stored, loaded) = store-load m addr unit unit' bytes p r in
    (m', rw (stored, write_device_memory) refl, rw (loaded, read_device_memory) refl)
