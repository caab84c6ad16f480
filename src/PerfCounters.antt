-- ===== src/PerfCounters.antt =====
-- The performance counter device (driver/source/refsidrv/refsi_perf_counters.cpp), and the
-- accelerator's access to the counters of a hart (driver/source/refsidrv/refsi_accelerator.cpp).
-- Control registers are numbered from CSR_MCYCLE on.
pub mod RoundTrip
use nupu_refsi.Prelude.{
  ℕ, zero, suc, ◌-◌, ◌/◌, ◌%◌, ◌&&◌, ◌||◌, Bool, true, false, List, [], ◌++◌, Option, none, some,
  ltb, ◌==◌, ◌!=◌, if◌then◌else◌, length, get_or, set, add64,
}
use nupu_refsi.Config.{num_per_hart_perf_counters}
use nupu_refsi.UnitId.{get_unit_kind, get_unit_index, kind_acc_hart}
use nupu_refsi.Bytes.{word_of_bytes, bytes_of_word}
use nupu_refsi.Machine.{Machine, Device, put_device}

-- RefSiAccelerator::getPerfCounterReg
unfoldable pub get_perf_counter_reg : ℕ → Option ℕ
get_perf_counter_reg counter = if ltb counter num_per_hart_perf_counters then some counter else none

-- RefSiAccelerator::readPerfCounter: a missing register reads zero. `none` is refsi_failure.
unfoldable pub read_perf_counter : Machine → ℕ → ℕ → Option ℕ
read_perf_counter m counter hart = elim (get_perf_counter_reg counter) [
  | none ↦ none
  | some reg ↦ some (elim (m.csr hart reg) [ none ↦ 0 | some value ↦ value ])
]

-- RefSiAccelerator::writePerfCounter: a write to a missing register does nothing.
unfoldable pub write_perf_counter : Machine → ℕ → ℕ → ℕ → Option Machine
write_perf_counter m counter hart value = elim (get_perf_counter_reg counter) [
  | none ↦ none
  | some reg ↦ elim (m.csr hart reg) [
    | none ↦ some m
    | some old ↦ some (record m {
      csr = λ h r. if h == hart && r == reg then some (m.csr_write reg old value) else m.csr h r;
    })
  ]
]

-- PerfCounterDevice::get_perf_counter_index: the index, and whether the counter is a hart's.
unfoldable pub get_perf_counter_index : List ℕ → ℕ → Option (ℕ × Bool)
get_perf_counter_index global_counters rel_addr =
    let abs_idx = rel_addr / 8 in
    if rel_addr % 8 != 0
    then none
    else if ltb abs_idx num_per_hart_perf_counters
    then some (abs_idx, true)
    else if ltb (abs_idx - num_per_hart_perf_counters) (length global_counters)
    then some (abs_idx - num_per_hart_perf_counters, false)
    else none

-- The value of one counter.
unfoldable pub read_counter : Machine → List ℕ → ℕ → ℕ → Option ℕ
read_counter m global_counters addr unit = elim (get_perf_counter_index global_counters addr) [
  | none ↦ none
  | some (idx, is_per_hart) ↦
      if is_per_hart
      then (if get_unit_kind unit != kind_acc_hart
          then none
          else read_perf_counter m idx (get_unit_index unit))
      else some (get_or global_counters idx 0)
]

-- The bytes of a counter that an access of `len` bytes copies to its caller: an access of another
-- size than 4 or 8 succeeds and copies none.
unfoldable pub counter_bytes : ℕ → ℕ → List ℕ
counter_bytes len val =
    if len == 8 then bytes_of_word 8 val else if len == 4 then bytes_of_word 4 val else []

-- `count` counters in turn.
unfoldable pub load_counters : ℕ → Machine → List ℕ → ℕ → ℕ → Option (List ℕ)
load_counters zero m global_counters addr unit = some []
load_counters (suc count) m global_counters addr unit =
    elim (read_counter m global_counters addr unit) [
      | none ↦ none
      | some val ↦ elim (load_counters count m global_counters (add64 addr 8) unit) [
        | none ↦ none
        | some rest ↦ some (bytes_of_word 8 val ++ rest)
      ]
    ]

-- PerfCounterDevice::load; `none` is the result false.
unfoldable pub perf_load : Machine → List ℕ → ℕ → ℕ → ℕ → Option (List ℕ)
perf_load m global_counters addr len unit =
    if ltb 8 len
    then (if len % 8 != 0 then none else load_counters (len / 8) m global_counters addr unit)
    else elim (read_counter m global_counters addr unit) [
      | none ↦ none
      | some val ↦ some (counter_bytes len val)
    ]

-- The write of a counter that was located; `none` is the result false.
unfoldable pub write_counter : Machine → ℕ → List ℕ → ℕ → Bool → ℕ → ℕ → Option Machine
write_counter m dev global_counters idx true val unit =
    if get_unit_kind unit != kind_acc_hart
    then none
    else write_perf_counter m idx (get_unit_index unit) val
write_counter m dev global_counters idx false val unit =
    some (put_device m dev (Device.perf_counters (set global_counters idx val)))

-- PerfCounterDevice::store of the device `dev`.
unfoldable pub perf_store : Machine → ℕ → List ℕ → ℕ → ℕ → List ℕ → ℕ → Option Machine
perf_store m dev global_counters addr len bytes unit =
    if ltb 8 len then none else elim (get_perf_counter_index global_counters addr) [
      | none ↦ none
      | some (idx, is_per_hart) ↦
          if len == 8 || len == 4
          then write_counter m dev global_counters idx is_per_hart (word_of_bytes bytes) unit
          else none
    ]
