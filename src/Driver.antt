-- ===== src/Driver.antt =====
-- The driver's entry points on a device (driver/source/refsidrv/refsidrv.cpp), with the construction
-- and the queries of refsi_device_m.cpp and refsi_device.cpp. A handle is null or a device; `none`
-- as a whole is undefined behaviour, an exception or, in refsi_execute_command_buffer, the wait for
-- room in the queue.
pub mod MemoryMap
pub mod Opened
pub mod Requests
use nupu_refsi.Prelude.{
  ℕ, ◌+◌, Bool, false, true, not, ◌||◌, List, [], Option, none, some, ltb, ◌==◌, if◌then◌else◌,
  length, get_elem?, is_some, ◌∷◌,
}
use nupu_refsi.Config.{RefsiResult, MemoryMapKind, num_harts_per_core}
use nupu_refsi.HostMemory.{HostMemory, Ptr}
use nupu_refsi.Machine.{Machine}
use nupu_refsi.Soc.{Soc}
use nupu_refsi.Accelerator.{create_sim}
use nupu_refsi.Queue.{Queue, Request, enqueue_request}
use nupu_refsi.DeviceApi.{
  alloc_device_memory, free_device_memory, get_mapped_address, read_device_memory,
  write_device_memory,
}
use nupu_refsi.Board.{Board, MemoryMapEntry, create_m1, new_controller, window_devices}

-- enum class refsi_soc_family
pub data SocFamily : Type 0 where
  m g : SocFamily

-- RefSiDevice, with the memory map of its controller and the queue of its command processor, whose
-- `soc` is the rest of the device.
pub record RefsiDevice : Type 0 where
  pub family : SocFamily
  pub memory_map : List MemoryMapEntry
  pub queue : Queue

-- RefSiMDevice::RefSiMDevice behind the memory devices: the accelerator, which gets its ISA, and the
-- command processor.
unfoldable pub new_device : Board → RefsiDevice
new_device board = record {
  family = SocFamily.m;
  memory_map = board.memory_map;
  queue = record {
    requests = [];
    started = false;
    stopping = false;
    has_worker = false;
    soc = record {
      machine = board.machine;
      windows = window_devices;
      registers = λ reg. 0;
      has_isa = true;
      total_harts = num_harts_per_core;
      sim = none;
      mmu_calls = [];
    };
  };
}

-- RefSiMDevice::initialize
unfoldable pub initialize : RefsiDevice → RefsiResult × RefsiDevice
initialize d =
    let (result, soc) = create_sim d.queue.soc in
    (result, record d { queue = record d.queue { soc = soc } })

-- What refsiOpenDevice returns of an initialised device.
abbrev opened : RefsiResult × RefsiDevice → Option RefsiDevice
opened (RefsiResult.success, d) = some d
opened (RefsiResult.failure, d) = none
opened (RefsiResult.invalid_device, d) = none
opened (RefsiResult.device_closed, d) = none
opened (RefsiResult.not_supported, d) = none

-- refsiOpenDevice, by the number of the family, REFSI_DEFAULT or REFSI_M.
unfoldable pub refsi_open_device :
    HostMemory → (ℕ → ℕ → Option ℕ) → (ℕ → ℕ → ℕ → ℕ) → ℕ → Option (Option RefsiDevice)
refsi_open_device memory csr csr_write family =
    if family == 0 || family == 1
    then elim (create_m1 (new_controller memory csr csr_write)) [
      | none ↦ none
      | some board ↦ some (opened (initialize (new_device board)))
    ]
    else some none

-- refsiQueryDeviceMemoryMap; `has_entry` tells that the pointer to the result is not null. The index
-- is compared with `>`, and an entry behind the last one is read.
unfoldable pub refsi_query_device_memory_map :
    Option RefsiDevice → ℕ → Bool → Option (RefsiResult × Option MemoryMapEntry)
refsi_query_device_memory_map none index has_entry = some (RefsiResult.invalid_device, none)
refsi_query_device_memory_map (some d) index has_entry =
    if ltb (length d.memory_map) index
    then some (RefsiResult.failure, none)
    else if not has_entry
    then some (RefsiResult.failure, none)
    else elim (get_elem? d.memory_map index) [
      | none ↦ none
      | some e ↦ some (RefsiResult.success, some e)
    ]

module _ {S : Type 0} (alloc : S → ℕ → ℕ → ℕ × S) (free : S → ℕ → S) where
  -- refsiAllocDeviceMemory; a null handle gives refsi_nullptr.
  unfoldable pub refsi_alloc_device_memory : Option RefsiDevice → S → ℕ → ℕ → MemoryMapKind → ℕ × S
  refsi_alloc_device_memory none s size alignment kind = (0, s)
  refsi_alloc_device_memory (some d) s size alignment kind =
      alloc_device_memory alloc free s size alignment kind

  -- refsiFreeDeviceMemory
  unfoldable pub refsi_free_device_memory : Option RefsiDevice → S → ℕ → RefsiResult × S
  refsi_free_device_memory none s phys_addr = (RefsiResult.invalid_device, s)
  refsi_free_device_memory (some d) s phys_addr = free_device_memory alloc free s phys_addr

-- refsiGetMappedAddress
unfoldable pub refsi_get_mapped_address : Option RefsiDevice → ℕ → ℕ → Option Ptr
refsi_get_mapped_address none phys_addr size = none
refsi_get_mapped_address (some d) phys_addr size =
    get_mapped_address d.queue.soc.machine phys_addr size

-- refsiFlushDeviceMemory and refsiInvalidateDeviceMemory
unfoldable pub refsi_flush_device_memory : Option RefsiDevice → ℕ → ℕ → RefsiResult
refsi_flush_device_memory none phys_addr size = RefsiResult.invalid_device
refsi_flush_device_memory (some d) phys_addr size = RefsiResult.success

unfoldable pub refsi_invalidate_device_memory : Option RefsiDevice → ℕ → ℕ → RefsiResult
refsi_invalidate_device_memory none phys_addr size = RefsiResult.invalid_device
refsi_invalidate_device_memory (some d) phys_addr size = RefsiResult.success

-- refsiReadDeviceMemory, with the bytes that it reads.
unfoldable pub refsi_read_device_memory :
    Option RefsiDevice → ℕ → ℕ → ℕ → Option (RefsiResult × List ℕ)
refsi_read_device_memory none phys_addr size unit_id = some (RefsiResult.invalid_device, [])
refsi_read_device_memory (some d) phys_addr size unit_id =
    read_device_memory d.queue.soc.machine phys_addr size unit_id

abbrev pub with_machine : RefsiDevice → Machine → RefsiDevice
with_machine d machine = record d {
  queue = record d.queue { soc = record d.queue.soc { machine = machine } };
}

-- refsiWriteDeviceMemory
unfoldable pub refsi_write_device_memory :
    Option RefsiDevice → ℕ → List ℕ → ℕ → ℕ → Option (RefsiResult × Option RefsiDevice)
refsi_write_device_memory none phys_addr source size unit_id =
    some (RefsiResult.invalid_device, none)
refsi_write_device_memory (some d) phys_addr source size unit_id =
    elim (write_device_memory d.queue.soc.machine phys_addr source size unit_id) [
      | none ↦ none
      | some (result, machine) ↦ some (result, some (with_machine d machine))
    ]

-- RefSiMDevice::executeCommandBuffer
unfoldable pub execute_command_buffer : RefsiDevice → ℕ → ℕ → Option (RefsiResult × RefsiDevice)
execute_command_buffer d cb_addr size =
    elim (enqueue_request d.queue
      (record { command_buffer_addr = cb_addr; command_buffer_size = size })) [
        | none ↦ none
        | some queue ↦ some (RefsiResult.success, record d { queue = queue })
      ]

-- The part of refsiExecuteCommandBuffer behind the test of the handle, by the device's family.
unfoldable pub execute_on_family :
    SocFamily → RefsiDevice → ℕ → ℕ → Option (RefsiResult × Option RefsiDevice)
execute_on_family SocFamily.g d cb_addr size = some (RefsiResult.not_supported, some d)
execute_on_family SocFamily.m d cb_addr size = elim (execute_command_buffer d cb_addr size) [
  | none ↦ none
  | some (result, d') ↦ some (result, some d')
]

-- refsiExecuteCommandBuffer
unfoldable pub refsi_execute_command_buffer :
    Option RefsiDevice → ℕ → ℕ → Option (RefsiResult × Option RefsiDevice)
refsi_execute_command_buffer none cb_addr size = some (RefsiResult.invalid_device, none)
refsi_execute_command_buffer (some d) cb_addr size = execute_on_family d.family d cb_addr size

-- RefSiCommandProcessor::waitEmptyQueue; `none` while it waits.
unfoldable pub wait_empty_queue : Queue → Option Queue
wait_empty_queue q = elim q.requests [ [] ↦ some q | r ∷ rest ↦ none ]

-- refsiWaitForDeviceIdle, whether it has returned.
unfoldable pub refsi_wait_for_device_idle : Option RefsiDevice → Bool
refsi_wait_for_device_idle none = true
refsi_wait_for_device_idle (some d) = elim d.family [
  | SocFamily.g ↦ true
  | SocFamily.m ↦ is_some (wait_empty_queue d.queue)
]

-- refsiExecuteKernel, whose other arguments nothing reads.
unfoldable pub refsi_execute_kernel : Option RefsiDevice → RefsiResult
refsi_execute_kernel none = RefsiResult.failure
refsi_execute_kernel (some d) = RefsiResult.not_supported
