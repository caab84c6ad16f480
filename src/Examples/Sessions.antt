-- ===== src/Examples/Sessions.antt =====
-- The theorems on an opened device at concrete inputs.
use nupu_refsi.Prelude.{◌+◌, ◌≤◌, ◌≡◌, ◌⊎◌, true, [], ◌∷◌, none, some, get_elem?, arith}
use nupu_refsi.Config.{RefsiResult, dram_base}
use nupu_refsi.Controller.{find_device}
use nupu_refsi.Machine.{Device, mem_size}
use nupu_refsi.Board.{MemoryMapEntry}
use nupu_refsi.Driver.{
  RefsiDevice, refsi_open_device, refsi_query_device_memory_map, refsi_write_device_memory,
  refsi_read_device_memory, refsi_execute_command_buffer,
}
use nupu_refsi.Driver.MemoryMap.{m1_entries, query-Leads}
use nupu_refsi.Driver.Opened.{open-write-execute-read}
use nupu_refsi.Examples.World.{memory}

query-Leads_example :
    (d : RefsiDevice) × (e : MemoryMapEntry) × (dev : Device) × (refsi_open_device memory
        (λ hart reg. none)
        (λ reg old value. value)
        1
      ≡ some (some d))
    × (refsi_query_device_memory_map (some d) 3 true ≡ some (RefsiResult.success, some e))
    × (get_elem? m1_entries 3 ≡ some e)
    × (d.queue.soc.machine.devices 3 ≡ some dev)
    × (mem_size dev ≡ e.size)
    × ((e.size ≤ 8) ⊎ (find_device d.queue.soc.machine.mapping (e.start_addr + 8) ≡ some (3, 8)))
query-Leads_example =
    query-Leads memory (λ hart reg. none) (λ reg old value. value) 3 8 (omega arith)

open-write-execute-read_example :
    (d : RefsiDevice) × (d1 : RefsiDevice) × (d2 : RefsiDevice) × (refsi_open_device memory
        (λ hart reg. none)
        (λ reg old value. value)
        1
      ≡ some (some d))
    × (refsi_write_device_memory (some d) (dram_base + 64) (7 ∷ 8 ∷ 9 ∷ []) 3 0
        ≡ some (RefsiResult.success, some d1))
    × (refsi_execute_command_buffer (some d1) 128 24 ≡ some (RefsiResult.success, some d2))
    × (refsi_read_device_memory (some d2) (dram_base + 64) 3 0
        ≡ some (RefsiResult.success, 7 ∷ 8 ∷ 9 ∷ []))
    × (d2.queue.requests ≡ record { command_buffer_addr = 128; command_buffer_size = 24 } ∷ [])
open-write-execute-read_example =
    open-write-execute-read memory (λ hart reg. none) (λ reg old value. value) 64 0 0 128 24
      (7 ∷ 8 ∷ 9 ∷ []) (omega arith)
