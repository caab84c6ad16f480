-- ===== src/Examples/Commands.antt =====
-- The theorems on command buffers, stored words and performance counters at concrete inputs.
use nupu_refsi.Prelude.{◌+◌, ◌≡◌, ◌≢◌, refl, true, List, [], ◌∷◌, ◌++◌, none, some, arith}
use nupu_refsi.UnitId.{make_unit, get_unit_kind, get_unit_index}
use nupu_refsi.Bytes.{bytes_of_word}
use nupu_refsi.HostMemory.{HostMemory, write_bytes}
use nupu_refsi.Machine.{Machine}
use nupu_refsi.Controller.{find_device, find_entry}
use nupu_refsi.Access.Ram.{RamAt}
use nupu_refsi.PerfCounters.{perf_store, perf_load, get_perf_counter_index}
use nupu_refsi.PerfCounters.RoundTrip.{per_hart_store-load}
use nupu_refsi.Soc.{Soc}
use nupu_refsi.Chunk.{Chunks}
use nupu_refsi.Processor.Registers.{
  Executed, execute_store_reg64, execute_load_reg64, execute_store_imm64, set_register, succeed,
}
use nupu_refsi.Processor.Words.{store-load_reg64}
use nupu_refsi.CommandBuffer.{Command}
use nupu_refsi.Examples.World.{world, memory, at}

-- A write of register 0, then FINISH.
abbrev commands : List Command
commands = Command.write_reg64 0 5 ∷ Command.finish ∷ []

-- The chunks of these commands in RAM 1, from its byte 8 on.
abbrev loaded_memory : HostMemory
loaded_memory =
    write_bytes memory (at 1 8)
      (bytes_of_word 8 0xc0020200 ++ bytes_of_word 8 5 ++ bytes_of_word 8 0xc0000100)

abbrev soc : Soc
soc = record {
  machine = record world { memory = loaded_memory };
  windows = [];
  registers = λ r. 0;
  has_isa = true;
  total_harts = 4;
  sim = none;
  mmu_calls = [];
}

abbrev memory_of : Executed → HostMemory
memory_of none = memory
memory_of (some (result, s)) = s.machine.memory

ram_word : RamAt soc.machine 64 8 (at 1 48)
unfolding find_device find_entry write_bytes
ram_word = record {
  dev = 1;
  size = 64;
  found = refl;
  is_ram = refl;
  backed = refl;
  within_ram = omega arith;
  small = omega arith;
}

-- The chunk of an address, and of a value.
abbrev address_chunk : Chunks
address_chunk i = some 64

abbrev value_chunk : Chunks
value_chunk i = some 1234

store-load_reg64_example :
    ((s : Soc) × (execute_store_reg64 soc 1 3 address_chunk ≡ succeed s)
      × (execute_load_reg64 s 1 5 address_chunk ≡ succeed (set_register s 5 (soc.registers 3))))
    × ((t : Soc) × (execute_store_imm64 soc 1 64 value_chunk ≡ succeed t)
        × (execute_load_reg64 t 1 5 address_chunk ≡ succeed (set_register t 5 1234)))
store-load_reg64_example =
    store-load_reg64 soc 64 1234 3 5 address_chunk value_chunk (at 1 48) refl refl (omega arith)
      (omega arith) (omega arith) (omega arith) ram_word

-- The same machine with a value in every control register.
abbrev counting : Machine
counting = record world { csr = λ hart reg. some (hart + reg) }

per_hart_index : get_perf_counter_index (10 ∷ 20 ∷ []) 16 ≡ some (2, true)
unfolding get_perf_counter_index
per_hart_index = refl

hart_kind : get_unit_kind (make_unit 3 1) ≡ 3
unfolding get_unit_kind make_unit
hart_kind = refl

hart_register : counting.csr (get_unit_index (make_unit 3 1)) 2 ≡ some 3
unfolding get_unit_index make_unit
hart_register = refl

other_hart : 0 ≢ get_unit_index (make_unit 3 1)
unfolding get_unit_index make_unit
other_hart e = absurd (omega arith)

per_hart_store-load_example :
    (m' : Machine) × (perf_store counting 4 (10 ∷ 20 ∷ []) 16 8 (bytes_of_word 8 9) (make_unit 3 1)
      ≡ some m')
    × (perf_load m' (10 ∷ 20 ∷ []) 16 8 (make_unit 3 1) ≡ some (bytes_of_word 8 9))
    × (m'.csr 0 5 ≡ some 5)
per_hart_store-load_example =
    per_hart_store-load counting 4 (10 ∷ 20 ∷ []) 16 2 9 (make_unit 3 1) 3 0 5 per_hart_index
      hart_kind hart_register (omega arith) other_hart
