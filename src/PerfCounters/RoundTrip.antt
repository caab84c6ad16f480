-- ===== src/PerfCounters/RoundTrip.antt =====
-- What a performance counter reads after a write.
use nupu_refsi.Prelude.{
  ℕ, zero, suc, ◌^◌, ◌<◌, ◌≡◌, ◌≢◌, refl, true, false, List, [], ◌∷◌, some, length, get_or, set,
  length-set, ◌==◌, ◌&&◌, if◌then◌else◌, arith,
}
use nupu_refsi.Config.{num_per_hart_perf_counters}
use nupu_refsi.UnitId.{get_unit_kind, get_unit_index, kind_acc_hart}
use nupu_refsi.Bytes.{bytes_of_word, word-bytes}
use nupu_refsi.Machine.{Machine, Device, put_device}
use nupu_refsi.PerfCounters.{
  get_perf_counter_reg, read_perf_counter, write_perf_counter, get_perf_counter_index, read_counter,
  counter_bytes, perf_load, perf_store, write_counter,
}

get_or-set : (xs : List ℕ) (i v d : ℕ) → i < length xs → get_or (set xs i v) i d ≡ v
get_or-set [] i v d h = absurd (omega arith)
get_or-set (x ∷ xs) zero v d h = refl
get_or-set (x ∷ xs) (suc i) v d h = get_or-set xs i v d (omega arith)

global_in_range :
    (counters : List ℕ) (addr idx : ℕ)
    → get_perf_counter_index counters addr ≡ some (idx, false)
    → idx < length counters
unfolding get_perf_counter_index
global_in_range counters addr idx e = ground arith

per_hart_in_range :
    (counters : List ℕ) (addr idx : ℕ)
    → get_perf_counter_index counters addr ≡ some (idx, true)
    → idx < num_per_hart_perf_counters
unfolding get_perf_counter_index
per_hart_in_range counters addr idx e = ground arith

index-set :
    (counters : List ℕ) (addr i v : ℕ)
    → get_perf_counter_index (set counters i v) addr ≡ get_perf_counter_index counters addr
unfolding get_perf_counter_index
index-set counters addr i v = ground (arith, length-set counters i v)

-- A 64-bit value that is stored in a global counter is loaded back, by units of any kind.
global_store-load :
    (m : Machine) (dev : ℕ) (counters : List ℕ) (addr idx val unit unit' : ℕ)
    → get_perf_counter_index counters addr ≡ some (idx, false)
    → val < 2 ^ 64
    → (m' : Machine) × (perf_store m dev counters addr 8 (bytes_of_word 8 val) unit ≡ some m')
      × (m'.devices dev ≡ some (Device.perf_counters (set counters idx val)))
      × (perf_load m' (set counters idx val) addr 8 unit' ≡ some (bytes_of_word 8 val))
unfolding perf_store perf_load write_counter read_counter counter_bytes
global_store-load m dev counters addr idx val unit unit' e small = (
  put_device m dev (Device.perf_counters (set counters idx val)),
  ground (arith, e, word-bytes 8 val),
  ground arith,
  ground (
    arith,
    index-set counters addr idx val,
    get_or-set counters idx val 0 (global_in_range counters addr idx e),
  ),
)

-- A hart that stores a 64-bit value in one of its counters, which the simulator knows, loads back
-- what the write leaves in the register, and no other hart's register changes.
pub per_hart_store-load :
    (m : Machine) (dev : ℕ) (counters : List ℕ) (addr idx val unit old hart reg : ℕ)
    → get_perf_counter_index counters addr ≡ some (idx, true)
    → get_unit_kind unit ≡ kind_acc_hart
    → m.csr (get_unit_index unit) idx ≡ some old
    → val < 2 ^ 64
    → hart ≢ get_unit_index unit
    → (m' : Machine) × (perf_store m dev counters addr 8 (bytes_of_word 8 val) unit ≡ some m')
      × (perf_load m' counters addr 8 unit ≡ some (bytes_of_word 8 (m.csr_write idx old val)))
      × (m'.csr hart reg ≡ m.csr hart reg)
unfolding perf_store perf_load write_counter read_counter counter_bytes write_perf_counter
    read_perf_counter get_perf_counter_reg
per_hart_store-load m dev counters addr idx val unit old hart reg e kind known small other =
    let range = per_hart_in_range counters addr idx e in
    (
      record m {
        csr = λ h r.
            if h == get_unit_index unit && r == idx
            then some (m.csr_write idx old val)
            else m.csr h r;
      },
      ground (arith, e, kind, known, range, word-bytes 8 val),
      ground (arith, e, kind, range),
      ground arith,
    )
