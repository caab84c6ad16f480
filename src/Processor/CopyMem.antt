-- ===== src/Processor/CopyMem.antt =====
-- COPY_MEM64 between two RAM devices: word by word it moves what one row copy of the DMA device
-- would.
use nupu_refsi.Prelude.{
  ℕ, zero, suc, ◌+◌, ◌-◌, ◌*◌, ◌^◌, ◌<◌, ◌≤◌, ◌≡◌, ◌≢◌, sym, ap, ◌∙◌, true, List, Option, none,
  some, length, get_or, arith, inl, add64, u32, ◌%◌,
}
use nupu_refsi.HostMemory.{Ptr, HostMemory, slice, write_bytes, move_bytes, copy_out, copy_in}
use nupu_refsi.HostMemory.Laws.{length-slice, memcpy-Apart}
use nupu_refsi.Machine.{Machine, Device, mem_size}
use nupu_refsi.Controller.{find_device}
use nupu_refsi.Pointers.{addr_to_mem, device_pointer, max_depth}
use nupu_refsi.Access.{
  device_load, device_store, load_by_class, store_by_class, base_load, base_store, load_pointer,
  store_pointer,
}
use nupu_refsi.Dma.{copy_rows}
use nupu_refsi.Dma.Rows.{Copied, copy_rows_lem, copy_rows_step}
use nupu_refsi.Soc.{Soc}
use nupu_refsi.Chunk.{Chunks}
use nupu_refsi.Processor.Registers.{
  copy_registers, copy_mem, execute_copy_mem64, range_fits, succeed, cmp_unit,
}

get_or-slice : (f : ℕ → ℕ) (s n i : ℕ) → i < n → get_or (slice f s n) i 0 ≡ f (s + i)
unfolding slice
get_or-slice f s zero i h = absurd (omega arith)
get_or-slice f s (suc n) zero h = ap f (omega arith)
get_or-slice f s (suc n) (suc i) h = get_or-slice f (suc s) n i (omega arith) ∙ ap f (omega arith)

-- Bytes that are read and then written are moved.
write_bytes-slice :
    (m : HostMemory) (p q : Ptr) (n : ℕ)
    → write_bytes m p (slice (m.bytes q.block) q.offset n) ≡ move_bytes m p q n
unfolding write_bytes move_bytes
write_bytes-slice m p q n = λ i. record m { bytes = λ b o. byte b o i }
  where
    source : List ℕ
    source = slice (m.bytes q.block) q.offset n

    byte : (b o : ℕ) → (write_bytes m p source).bytes b o ≡ (move_bytes m p q n).bytes b o
    byte b o = ground (
      arith,
      length-slice (m.bytes q.block) q.offset n,
      get_or-slice (m.bytes q.block) q.offset n (o - p.offset),
    )

abbrev pub with_memory : Soc → HostMemory → Soc
with_memory soc memory = record soc { machine = record soc.machine { memory = memory } }

-- A RAM device with its contents.
pub record RamDevice (m : Machine) (dev block size : ℕ) : Type 0 where
  pub is_ram : m.devices dev ≡ some (Device.ram block size)
  pub backed : m.memory.extent block ≡ size
  pub small : size < 2 ^ 64

module _ (m : Machine) (dev block size off unit : ℕ) (r : RamDevice m dev block size)
    (inside : off + 8 ≤ size) where
  pointer : addr_to_mem max_depth m dev off 8 unit ≡ some (record { block = block; offset = off })
  unfolding addr_to_mem device_pointer
  pointer = ground (arith, r.is_ram, r.small)

  ram_device_load :
      device_load max_depth m dev off 8 unit ≡ some (some (slice (m.memory.bytes block) off 8))
  unfolding device_load load_by_class base_load load_pointer mem_size copy_out
  ram_device_load = ground (arith, pointer, r.is_ram, r.backed, r.small)

  ram_device_store :
      (bytes : List ℕ)
      → length bytes ≡ 8
      → device_store max_depth m dev off 8 bytes unit
        ≡ some (
          true,
          record m { memory = write_bytes m.memory (record { block = block; offset = off }) bytes },
        )
  unfolding device_store store_by_class base_store store_pointer mem_size copy_in
  ram_device_store bytes len = ground (arith, pointer, r.is_ram, r.backed, r.small, len)

with_memory-RamDevice :
    (soc : Soc) (p q : Ptr) (n dev block size : ℕ)
    → RamDevice soc.machine dev block size
    → RamDevice (with_memory soc (move_bytes soc.machine.memory p q n)).machine dev block size
unfolding move_bytes
with_memory-RamDevice soc p q n dev block size r = record {
  is_ram = r.is_ram;
  backed = r.backed;
  small = r.small;
}

abbrev memory_of : HostMemory → Option (HostMemory × Ptr × Ptr) → HostMemory
memory_of m none = m
memory_of m (some (m', p, q)) = m'

abbrev ptr : ℕ → ℕ → Ptr
ptr block offset = record { block = block; offset = offset }

module _ (src dst bs bd ss sd unit : ℕ) (apart : bs ≢ bd) where
  -- The loop ends with success where a loop of row copies does, and with its memory.
  copy_registers-copy_rows :
      (count : ℕ) (soc : Soc) (src_off dst_off : ℕ) (m' : HostMemory) (p q : Ptr)
      → RamDevice soc.machine src bs ss
      → RamDevice soc.machine dst bd sd
      → src_off + count * 8 ≤ ss
      → dst_off + count * 8 ≤ sd
      → copy_rows count soc.machine.memory (ptr bd dst_off) (ptr bs src_off) 8 8 8 ≡ some (m', p, q)
      → copy_registers count soc src src_off dst dst_off unit ≡ succeed (with_memory soc m')
  unfolding copy_registers copy_rows
  copy_registers-copy_rows zero soc src_off dst_off m' p q r t sf df e =
      ap (λ x. succeed (with_memory soc (memory_of m' x))) e
  copy_registers-copy_rows (suc n) soc src_off dst_off m' p q r t sf df e =
      let memory = soc.machine.memory in
      let first : HostMemory = move_bytes memory (ptr bd dst_off) (ptr bs src_off) 8 in
      let moved =
        memcpy-Apart memory (ptr bd dst_off) (ptr bs src_off) 8 (omega (arith, t.backed))
          (omega (arith, r.backed)) (inl (λ x. apart (sym x))) in
      let loaded = ram_device_load soc.machine src bs ss src_off unit r (omega arith) in
      let stored =
        ram_device_store soc.machine dst bd sd dst_off cmp_unit t (omega arith)
          (slice (memory.bytes bs) src_off 8) (length-slice (memory.bytes bs) src_off 8)
        ∙ ap (λ (x : HostMemory). some (true, record soc.machine { memory = x }))
            (write_bytes-slice memory (ptr bd dst_off) (ptr bs src_off) 8) in
      rw (loaded, copy_registers, stored)
        (copy_registers-copy_rows n (with_memory soc first) (add64 src_off 8) (add64 dst_off 8) m' p
          q (with_memory-RamDevice soc (ptr bd dst_off) (ptr bs src_off) 8 src bs ss r)
          (with_memory-RamDevice soc (ptr bd dst_off) (ptr bs src_off) 8 dst bd sd t)
          (omega (arith, r.small)) (omega (arith, t.small))
          (sym (copy_rows_step n memory first (ptr bd dst_off) (ptr bs src_off) 8 8 8 moved) ∙ e))

-- The command behind its tests of the arguments.
copy_mem_lem :
    (soc : Soc) (count src_addr dst_addr unit src src_off dst dst_off bs bd ss sd : ℕ)
    → find_device soc.machine.mapping src_addr ≡ some (src, src_off)
    → find_device soc.machine.mapping dst_addr ≡ some (dst, dst_off)
    → RamDevice soc.machine src bs ss
    → RamDevice soc.machine dst bd sd
    → bs ≢ bd
    → src_off + count * 8 ≤ ss
    → dst_off + count * 8 ≤ sd
    → (m' : HostMemory) × (copy_mem soc count src_addr dst_addr unit ≡ succeed (with_memory soc m'))
      × Copied soc.machine.memory m' (ptr bd dst_off) (ptr bs src_off) count 8 8 8
unfolding copy_mem range_fits mem_size
copy_mem_lem soc count src_addr dst_addr unit src src_off dst dst_off bs bd ss sd fs fd r t apart sf
      df =
    let run =
      copy_rows_lem count soc.machine.memory (ptr bd dst_off) (ptr bs src_off) 8 8 8 apart
        (omega arith) (omega (arith, t.backed, t.small)) (omega (arith, r.backed, r.small))
        (λ y h. omega (arith, t.backed)) (λ y h. omega (arith, r.backed)) in
    let copied =
      copy_registers-copy_rows src dst bs bd ss sd unit apart count soc src_off dst_off run.m'
        run.dst' run.src' r t sf df run.ran in
    let src_fits : range_fits soc.machine src src_off (count * 8) ≡ true =
      ground (arith, r.is_ram, r.small) in
    let dst_fits : range_fits soc.machine dst dst_off (count * 8) ≡ true =
      ground (arith, t.is_ram, t.small) in
    (run.m', rw (fs, copy_mem, src_fits, fd, dst_fits) copied, run.copied)

-- COPY_MEM64 with its three chunks, from an address that is a multiple of 8, between two RAM devices
-- with different contents succeeds where both ranges lie in their devices: word i of the destination
-- is then word i of the source, for every i below the count, and no other byte changes.
pub execute_copy_mem64_lem :
    (soc : Soc) (count src_addr dst_addr unit src src_off dst dst_off bs bd ss sd : ℕ)
    (chunk : Chunks)
    → chunk 0 ≡ some src_addr
    → chunk 1 ≡ some dst_addr
    → chunk 2 ≡ some unit
    → src_addr % 8 ≡ 0
    → find_device soc.machine.mapping src_addr ≡ some (src, src_off)
    → find_device soc.machine.mapping dst_addr ≡ some (dst, dst_off)
    → RamDevice soc.machine src bs ss
    → RamDevice soc.machine dst bd sd
    → bs ≢ bd
    → src_off + count * 8 ≤ ss
    → dst_off + count * 8 ≤ sd
    → (m' : HostMemory) × (execute_copy_mem64 soc 3 count chunk ≡ succeed (with_memory soc m'))
      × Copied soc.machine.memory m' (ptr bd dst_off) (ptr bs src_off) count 8 8 8
unfolding execute_copy_mem64
execute_copy_mem64_lem soc count src_addr dst_addr unit src src_off dst dst_off bs bd ss sd chunk c0
      c1 c2 aligned fs fd r t apart sf df =
    let (m', ran, copied) =
      copy_mem_lem soc count src_addr dst_addr (u32 unit) src src_off dst dst_off bs bd ss sd fs fd
        r t apart sf df in
    (m', rw (c0, execute_copy_mem64, c1, c2, aligned) ran, copied)
