-- ===== src/Board/Plain.antt =====
-- The DRAM and the TCDM of a new M1 device are plain memory.
use nupu_refsi.Prelude.{ℕ, ◌+◌, ◌≤◌, ◌≡◌, refl, List, [], ◌∷◌, Option, some, arith}
use nupu_refsi.Config.{
  tcdm_base, tcdm_size, dram_base, dram_size, host_base, dma_io_base, perf_counters_io_base,
}
use nupu_refsi.HostMemory.{HostMemory}
use nupu_refsi.Machine.{mem_size}
use nupu_refsi.Controller.{find_device, find_entry, add_device, base_in_use, insert_entry}
use nupu_refsi.Access.Ram.{RamAt}
use nupu_refsi.Board.{Board, new_controller, create_m1, create_mem_range, add_mem_device, allocate}

-- The address map of the M1 device.
abbrev pub m1_mapping : List (ℕ × ℕ)
m1_mapping =
    (tcdm_base, 0)
    ∷ (dma_io_base, 3)
    ∷ (perf_counters_io_base, 4)
    ∷ (dram_base, 1)
    ∷ (host_base, 2)
    ∷ []

-- The construction succeeds, with every device at its address.
pub m1_map :
    (memory : HostMemory) (csr : ℕ → ℕ → Option ℕ) (csr_write : ℕ → ℕ → ℕ → ℕ)
    → (b : Board) × (create_m1 (new_controller memory csr csr_write) ≡ some b)
      × (b.machine.mapping ≡ m1_mapping)
unfolding create_m1 new_controller create_mem_range add_mem_device allocate add_device base_in_use
    insert_entry find_device find_entry mem_size
m1_map memory csr csr_write = (_, refl, refl)

dram_found : (off : ℕ) → off ≤ dram_size → find_device m1_mapping (dram_base + off) ≡ some (1, off)
unfolding find_device find_entry
dram_found off p = ground (arith, p)

tcdm_found : (off : ℕ) → off ≤ tcdm_size → find_device m1_mapping (tcdm_base + off) ≡ some (0, off)
unfolding find_device find_entry
tcdm_found off p = ground (arith, p)

-- A new M1 device has its DRAM and its TCDM as plain memory: every range within the bounds of one of
-- them is backed by a RAM device of its own, at the range's distance from the base address.
pub m1_plain :
    (memory : HostMemory) (csr : ℕ → ℕ → Option ℕ) (csr_write : ℕ → ℕ → ℕ → ℕ) (off n off' n' : ℕ)
    → off + n ≤ dram_size
    → off' + n' ≤ tcdm_size
    → (b : Board) × (create_m1 (new_controller memory csr csr_write) ≡ some b)
      × RamAt b.machine (dram_base + off) n (record { block = 2; offset = off })
      × RamAt b.machine (tcdm_base + off') n' (record { block = 1; offset = off' })
unfolding create_m1 new_controller create_mem_range add_mem_device allocate add_device base_in_use
    insert_entry find_device find_entry mem_size
m1_plain memory csr csr_write off n off' n' p q = (
  _,
  refl,
  record {
    dev = 1;
    size = dram_size;
    found = dram_found off (omega (arith, p));
    is_ram = refl;
    backed = refl;
    within_ram = p;
    small = omega arith;
  },
  record {
    dev = 0;
    size = tcdm_size;
    found = tcdm_found off' (omega (arith, q));
    is_ram = refl;
    backed = refl;
    within_ram = q;
    small = omega arith;
  },
)
