-- ===== src/Hal.antt =====
-- The device of the host's abstraction layer (hal_refsi/source/refsi_hal.cpp): its state, memory
-- operations and performance counters. The lock and the messages of the debug mode are left out.
pub mod Args
pub mod Pot
pub mod Chunks
pub mod Fill
pub mod Rom
pub mod Windows
pub mod Kernels
use nupu_refsi.Prelude.{
  ℕ, zero, suc, ◌+◌, ◌-◌, ◌^◌, Bool, true, false, not, ◌&&◌, List, [], ◌++◌, Option, none, some,
  min, ltb, leb, ◌==◌, if◌then◌else◌, add64, sub64, u32, length, take, get_elem?, set,
}
use nupu_refsi.UnitId.{make_unit, kind_external}
use nupu_refsi.Machine.{Machine}
use nupu_refsi.DeviceApi.{read_device_memory, write_device_memory}
use nupu_refsi.Config.{RefsiResult, num_per_hart_perf_counters, num_global_perf_counters}

-- The counter values of the abstraction layer's library, one of them for each index.
pub record CounterData (C : Type 0) : Type 0 where
  pub has_value : C → ℕ → Bool
  pub get_value : C → ℕ → ℕ
  pub set_value : C → ℕ → ℕ → C
  pub clear_value : C → ℕ → C

-- `device` is the machine that the driver's calls reach.
pub record Hal (C : Type 0) : Type 0 where
  pub device : Machine
  pub counters_enabled : Bool
  pub hart_counter_data : List C
  pub host_counter_data : List C

abbrev pub ctr_host_mem_write : ℕ
ctr_host_mem_write = 0

abbrev pub ctr_host_mem_read : ℕ
ctr_host_mem_read = 1

abbrev pub ctr_num_counters : ℕ
ctr_num_counters = 2

abbrev pub succeeded : RefsiResult → Bool
succeeded RefsiResult.success = true
succeeded result = false

-- REFSI_UNIT_ID(REFSI_UNIT_KIND_EXTERNAL, 0)
abbrev pub external_unit : ℕ
external_unit = make_unit kind_external 0

module _ {C : Type 0} (data_of : CounterData C) where
  -- host_counter_data[id].set_value(0, value), when counters are enabled
  unfoldable pub count : Hal C → ℕ → ℕ → Hal C
  count s id value =
      if s.counters_enabled
      then elim (get_elem? s.host_counter_data id) [
        | none ↦ s
        | some c ↦ record s {
          host_counter_data = set s.host_counter_data id (data_of.set_value c 0 value);
        }
      ]
      else s

  -- refsi_hal_device::mem_read, with the bytes; `null` tells whether dst is null.
  unfoldable pub mem_read : Hal C → Bool → ℕ → ℕ → Option (Bool × List ℕ × Hal C)
  mem_read s true src size = some (false, [], s)
  mem_read s false src size = elim (read_device_memory s.device src size external_unit) [
    | none ↦ none
    | some (result, bytes) ↦
        if succeeded result
        then some (true, bytes, count s ctr_host_mem_read size)
        else some (false, bytes, s)
  ]

  -- refsi_hal_device::mem_write; the source is `none` when it is null.
  unfoldable pub mem_write : Hal C → ℕ → Option (List ℕ) → ℕ → Option (Bool × Hal C)
  mem_write s dst none size = some (false, s)
  mem_write s dst (some src) size = elim (write_device_memory s.device dst src size external_unit) [
    | none ↦ none
    | some (result, device) ↦
        if succeeded result
        then some (true, count (record s { device = device }) ctr_host_mem_write size)
        else some (false, record s { device = device })
  ]

  -- The chunk of mem_fill: the pattern over and over. `fuel` bounds the rounds.
  unfoldable pub build_chunk : ℕ → List ℕ → ℕ → List ℕ → Option (List ℕ)
  build_chunk zero pattern size chunk =
      if ltb (length chunk) size && ltb (length chunk) 4096 then none else some chunk
  build_chunk (suc fuel) pattern size chunk =
      elim (ltb (length chunk) size && ltb (length chunk) 4096) [
        | false ↦ some chunk
        | true ↦ build_chunk fuel pattern size (chunk ++ pattern)
      ]

  -- The loop of mem_fill, with the size that is left; `fuel` bounds the rounds.
  unfoldable pub fill_loop : ℕ → Hal C → ℕ → List ℕ → ℕ → ℕ → Option (Bool × Hal C × ℕ)
  fill_loop zero s dst chunk pattern_size size =
      if leb pattern_size size then none else some (true, s, size)
  fill_loop (suc fuel) s dst chunk pattern_size size = elim (leb pattern_size size) [
    | false ↦ some (true, s, size)
    | true ↦
        let to_write = min size (length chunk) in
        elim (mem_write s dst (some (take to_write chunk)) to_write) [
          | none ↦ none
          | some (false, s') ↦ some (false, s', size)
          | some (true, s') ↦
              fill_loop fuel s' (add64 dst to_write) chunk pattern_size (size - to_write)
        ]
  ]

  -- refsi_hal_device::mem_fill, for a pattern of `length pattern` bytes or null. A chunk is built in
  -- at most 4096 rounds and a round writes one byte or more.
  unfoldable pub mem_fill : Hal C → ℕ → Option (List ℕ) → ℕ → Option (Bool × Hal C)
  mem_fill s dst none size = some (false, s)
  mem_fill s dst (some pattern) size = elim (build_chunk 4096 pattern size []) [
    | none ↦ none
    | some chunk ↦ elim (fill_loop size s dst chunk (length pattern) size) [
      | none ↦ none
      | some (false, s', rest) ↦ some (false, s')
      | some (true, s', rest) ↦ some (true, count s' ctr_host_mem_write rest)
    ]
  ]

  -- One counter is read once: its value, and the counter without it.
  unfoldable pub read_once : List C → ℕ → ℕ → Option (ℕ × List C)
  read_once counters id index = elim (get_elem? counters id) [
    | none ↦ none
    | some c ↦
        if data_of.has_value c index
        then some (data_of.get_value c index, set counters id (data_of.clear_value c index))
        else none
  ]

  -- The global counters, of which none can be read, and the host's, by what is left of the number.
  unfoldable pub counter_read_rest : Hal C → ℕ → ℕ → Option (ℕ × Hal C)
  counter_read_rest s id index =
      let host_id = u32 (id + 2 ^ 32 - num_global_perf_counters) in
      if ltb id num_global_perf_counters
      then none
      else if ltb host_id ctr_num_counters
      then elim (read_once s.host_counter_data host_id index) [
        | none ↦ none
        | some (value, counters) ↦ some (value, record s { host_counter_data = counters })
      ]
      else none

  -- refsi_hal_device::counter_read; `none` is the result false, which leaves the device as it is.
  unfoldable pub counter_read : Hal C → ℕ → ℕ → Option (ℕ × Hal C)
  counter_read s counter_id index =
      let rest =
        counter_read_rest s (u32 (counter_id + 2 ^ 32 - num_per_hart_perf_counters)) index in
      if ltb counter_id num_per_hart_perf_counters
      then elim (read_once s.hart_counter_data counter_id index) [
        | none ↦ rest
        | some (value, counters) ↦ some (value, record s { hart_counter_data = counters })
      ]
      else rest

  -- refsi_hal_device::counter_set_enabled; `has_counters` tells of a PERF_COUNTERS entry.
  unfoldable pub counter_set_enabled : Hal C → Bool → Bool → Hal C
  counter_set_enabled s has_counters enabled =
      if has_counters then record s { counters_enabled = enabled } else s
