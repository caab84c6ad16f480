-- ===== src/Driver/MemoryMap.antt =====
-- The memory map that the driver reports, and the address map behind it.
use nupu_refsi.Prelude.{
  ℕ, zero, suc, ◌+◌, ◌^◌, ◌<◌, ◌≡◌, refl, ◌≤◌, ◌⊎◌, inl, inr, length, ltb, false, Bool-cases, ap,
  ◌∙◌, sym, subst, List, [], ◌∷◌, true, Option, some, get_elem?, arith, some-injective,
}
use nupu_refsi.Config.{RefsiResult, MemoryMapKind}
use nupu_refsi.HostMemory.{HostMemory}
use nupu_refsi.Machine.{Device, mem_size}
use nupu_refsi.Controller.{find_device, find_entry, add_device, base_in_use, insert_entry}
use nupu_refsi.Accelerator.{create_sim}
use nupu_refsi.Board.{
  MemoryMapEntry, new_controller, create_m1, create_mem_range, add_mem_device, allocate,
}
use nupu_refsi.Board.Plain.{m1_mapping}
use nupu_refsi.Driver.{
  RefsiDevice, refsi_open_device, refsi_query_device_memory_map, new_device, initialize,
}

abbrev entry : MemoryMapKind → ℕ → ℕ → MemoryMapEntry
entry kind start_addr size = record { kind = kind; start_addr = start_addr; size = size }

-- The memory ranges of the M1 device, in numbers.
abbrev pub m1_entries : List MemoryMapEntry
m1_entries =
    entry MemoryMapKind.tcdm 0x10000000 0x400000
    ∷ entry MemoryMapKind.dram 0x40000000 0x80000000
    ∷ entry MemoryMapKind.host 0x100000000 (2 ^ 50)
    ∷ entry MemoryMapKind.kernel_dma_private 0x20002000 256
    ∷ entry MemoryMapKind.perf_counters 0x20100000 512
    ∷ []

-- The opened device, its memory map and its address map, and device `i` with entry `i`.
M1Entry : HostMemory → (ℕ → ℕ → Option ℕ) → (ℕ → ℕ → ℕ → ℕ) → ℕ → Type 0
M1Entry memory csr csr_write i =
    (d : RefsiDevice) × (e : MemoryMapEntry) × (dev : Device) × (refsi_open_device memory csr
        csr_write 1
      ≡ some (some d))
    × (d.memory_map ≡ m1_entries)
    × (d.queue.soc.machine.mapping ≡ m1_mapping)
    × (get_elem? m1_entries i ≡ some e)
    × (d.queue.soc.machine.devices i ≡ some dev)
    × (mem_size dev ≡ e.size)

opened_m1 :
    (memory : HostMemory) (csr : ℕ → ℕ → Option ℕ) (csr_write : ℕ → ℕ → ℕ → ℕ) (i : ℕ)
    → i < 5
    → M1Entry memory csr csr_write i
unfolding M1Entry refsi_open_device new_device initialize create_sim create_m1 new_controller
    create_mem_range add_mem_device allocate add_device base_in_use insert_entry find_device
    find_entry mem_size
opened_m1 memory csr csr_write zero p = (_, _, _, refl, refl, refl, refl, refl, refl)
opened_m1 memory csr csr_write (suc zero) p = (_, _, _, refl, refl, refl, refl, refl, refl)
opened_m1 memory csr csr_write (suc (suc zero)) p = (_, _, _, refl, refl, refl, refl, refl, refl)
opened_m1 memory csr csr_write (suc (suc (suc zero))) p =
    (_, _, _, refl, refl, refl, refl, refl, refl)
opened_m1 memory csr csr_write (suc (suc (suc (suc zero)))) p =
    (_, _, _, refl, refl, refl, refl, refl, refl)
opened_m1 memory csr csr_write (suc (suc (suc (suc (suc i))))) p = absurd (omega (arith, p))

-- Address `off` of an entry leads to device `dev` at `off`.
abbrev Leads : MemoryMapEntry → ℕ → ℕ → Type 0
Leads e dev off = find_device m1_mapping (e.start_addr + off) ≡ some (dev, off)

same_entry :
    (known e : MemoryMapEntry) (dev off : ℕ)
    → some known ≡ some e
    → (off < known.size → Leads known dev off)
    → off < e.size
    → Leads e dev off
same_entry known e dev off p =
    subst
      (λ (z : MemoryMapEntry).
        (off < known.size → Leads known dev off) → off < z.size → Leads z dev off)
      (some-injective _ _ p) (λ h. h)

entry_lem :
    (i : ℕ) (e : MemoryMapEntry) (off : ℕ)
    → get_elem? m1_entries i ≡ some e
    → off < e.size
    → find_device m1_mapping (e.start_addr + off) ≡ some (i, off)
unfolding find_device find_entry
entry_lem zero e off p = same_entry _ e 0 off p (λ q. ground (arith, q))
entry_lem (suc zero) e off p = same_entry _ e 1 off p (λ q. ground (arith, q))
entry_lem (suc (suc zero)) e off p = same_entry _ e 2 off p (λ q. ground (arith, q))
entry_lem (suc (suc (suc zero))) e off p = same_entry _ e 3 off p (λ q. ground (arith, q))
entry_lem (suc (suc (suc (suc zero)))) e off p = same_entry _ e 4 off p (λ q. ground (arith, q))
entry_lem (suc (suc (suc (suc (suc i))))) e off p = grind (arith, p)

-- A query below the number of entries gives the entry.
query_lem :
    (d : RefsiDevice) (i : ℕ) (e : MemoryMapEntry)
    → i < length d.memory_map
    → get_elem? d.memory_map i ≡ some e
    → refsi_query_device_memory_map (some d) i true ≡ some (RefsiResult.success, some e)
unfolding refsi_query_device_memory_map
query_lem d i e p found =
    let inside : ltb (length d.memory_map) i ≡ false = ground (arith, p) in
    rw (inside, refsi_query_device_memory_map) (rw (found, refsi_query_device_memory_map) refl)

-- The memory map that the driver reports of an M1 device is right: the device opens, the query of
-- each index i below 5 gives entry i of the ranges written out above, its size is that of device i,
-- and every address of it, `off` bytes behind its start, leads the memory controller to device i at
-- offset `off`.
pub query-Leads :
    (memory : HostMemory) (csr : ℕ → ℕ → Option ℕ) (csr_write : ℕ → ℕ → ℕ → ℕ) (i off : ℕ)
    → i < 5
    → (d : RefsiDevice) × (e : MemoryMapEntry) × (dev : Device) × (refsi_open_device memory csr
          csr_write 1
        ≡ some (some d))
      × (refsi_query_device_memory_map (some d) i true ≡ some (RefsiResult.success, some e))
      × (get_elem? m1_entries i ≡ some e)
      × (d.queue.soc.machine.devices i ≡ some dev)
      × (mem_size dev ≡ e.size)
      × ((e.size ≤ off)
          ⊎ (find_device d.queue.soc.machine.mapping (e.start_addr + off) ≡ some (i, off)))
unfolding M1Entry
query-Leads memory csr csr_write i off p =
    let (d, e, dev, opened, entries, mapping, found, is_dev, size) =
      opened_m1 memory csr csr_write i p in
    let below : i < length d.memory_map =
      subst (λ (l : List MemoryMapEntry). i < length l) (sym entries) p in
    (
      d,
      e,
      dev,
      opened,
      query_lem d i e below (ap (λ (l : List MemoryMapEntry). get_elem? l i) entries ∙ found),
      found,
      is_dev,
      size,
      elim (Bool-cases (ltb off e.size)) [
        | inl test ↦
            let inside : off < e.size = ground (arith, test) in
            inr (
              ap (λ (l : List (ℕ × ℕ)). find_device l (e.start_addr + off)) mapping
              ∙ entry_lem i e off found inside)
        | inr test ↦ inl (ground (arith, test))
      ],
    )
