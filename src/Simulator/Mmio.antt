-- ===== src/Simulator/Mmio.antt =====
-- How the harts reach memory: mmio_load, mmio_store, addr_to_mem and mmio_print of slim_sim_t
-- (driver/source/refsidrv/slim_sim.cpp). The number of physical address bits is the Spike library's.
use nupu_refsi.Prelude.{
  ℕ, ◌+◌, ◌-◌, ◌^◌, ◌≤◌, ◌<◌, ◌≡◌, refl, Bool, true, false, ◌||◌, not, List, Option, none, some,
  ltb, ◌==◌, if◌then◌else◌, add64, sub64, shr, length, arith,
}
use native.Mathlib.Nat.{div-eq_of_lt}
use nupu_refsi.HostMemory.{Ptr}
use nupu_refsi.UnitId.{make_unit, kind_acc_hart}
use nupu_refsi.Machine.{Machine}
use nupu_refsi.Pointers.{controller_addr_to_mem}
use nupu_refsi.Access.{LoadResult, StoreResult, load, store}
use nupu_refsi.Access.Ram.{RamAt, store-load}
use nupu_refsi.Region.{MemoryDevice}
use nupu_refsi.Elf.Strings.{read_c_string}

-- What mmio_print prints: a string in host memory, or a message that was read by chunks.
pub data Printed : Type 0 where
  from_memory : (p : Ptr) → Printed
  message : (chars : List ℕ) → Printed

module _ (max_paddr_bits : ℕ) where
  unfoldable pub paddr_ok : ℕ → Bool
  paddr_ok addr = shr addr max_paddr_bits == 0

  -- The accesses that are refused.
  unfoldable pub refused : ℕ → ℕ → Bool
  refused addr len = ltb (add64 addr len) addr || not (paddr_ok (sub64 (add64 addr len) 1))

  -- slim_sim_t::mmio_load, for the current hart
  unfoldable pub mmio_load : Machine → ℕ → ℕ → ℕ → LoadResult
  mmio_load m hart addr len =
      if refused addr len then some none else load m addr len (make_unit kind_acc_hart hart)

  -- slim_sim_t::mmio_store
  unfoldable pub mmio_store : Machine → ℕ → ℕ → ℕ → List ℕ → StoreResult
  mmio_store m hart addr len bytes =
      if refused addr len
      then some (false, m)
      else store m addr len bytes (make_unit kind_acc_hart hart)

  -- slim_sim_t::addr_to_mem
  unfoldable pub hart_addr_to_mem : Machine → ℕ → ℕ → Option Ptr
  hart_addr_to_mem m hart addr =
      if paddr_ok addr then controller_addr_to_mem m addr 1 (make_unit kind_acc_hart hart) else none

  -- The memory as a hart sees it.
  abbrev pub hart_memory : ℕ → MemoryDevice Machine
  hart_memory hart = record {
    load = λ m addr len unit. mmio_load m hart addr len;
    store = λ m addr len bytes unit. mmio_store m hart addr len bytes;
  }

  -- slim_sim_t::mmio_print; the loop over chunks is the one of ELFProgram::read_c_string. The result
  -- false is `some none`.
  unfoldable pub mmio_print : ℕ → Machine → ℕ → ℕ → Option (Option Printed)
  mmio_print fuel m hart addr = elim (hart_addr_to_mem m hart addr) [
    | some p ↦ some (some (Printed.from_memory p))
    | none ↦ elim (read_c_string (hart_memory hart) fuel m 0 addr) [
      | none ↦ none
      | some (false, chars) ↦ some none
      | some (true, chars) ↦ some (some (Printed.message chars))
    ]
  ]

  -- An access that ends within the physical address space is not refused.
  accepted :
      (addr len : ℕ)
      → 0 < len
      → addr + len ≤ 2 ^ max_paddr_bits
      → 2 ^ max_paddr_bits < 2 ^ 64
      → refused addr len ≡ false
  unfolding refused paddr_ok
  accepted addr len pos high small =
      let sum : add64 addr len ≡ addr + len = omega (arith, high, small) in
      let last : sub64 (add64 addr len) 1 ≡ addr + len - 1 = omega (arith, pos, high, small) in
      let physical : shr (addr + len - 1) max_paddr_bits ≡ 0 =
        div-eq_of_lt (omega (arith, pos, high)) in
      let no_wrap : ltb (add64 addr len) addr ≡ false = ground (arith, sum) in
      rw (no_wrap, last, physical, refused, paddr_ok) refl

  -- What a hart stores in RAM another hart loads: for bytes in one RAM device, within the physical
  -- address space, and at least one of them.
  pub mmio_store-mmio_load :
      (m : Machine) (hart hart' addr : ℕ) (bytes : List ℕ) (p : Ptr)
      → 0 < length bytes
      → addr + length bytes ≤ 2 ^ max_paddr_bits
      → 2 ^ max_paddr_bits < 2 ^ 64
      → RamAt m addr (length bytes) p
      → (m' : Machine) × (mmio_store m hart addr (length bytes) bytes ≡ some (true, m'))
        × (mmio_load m' hart' addr (length bytes) ≡ some (some bytes))
  unfolding mmio_store mmio_load
  mmio_store-mmio_load m hart hart' addr bytes p pos high small r =
      let go = accepted addr (length bytes) pos high small in
      let (m', stored, loaded) =
        store-load m addr (make_unit kind_acc_hart hart) (make_unit kind_acc_hart hart') bytes p
          r in
      (m', rw (go, mmio_store) stored, rw (go, mmio_load) loaded)
