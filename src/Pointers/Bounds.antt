-- ===== src/Pointers/Bounds.antt =====
-- Pointers stay inside the contents of their device, unless the end of the range wraps.
use nupu_refsi.Prelude.{
  ℕ, zero, suc, ◌+◌, ◌^◌, ◌≤◌, ◌<◌, ◌≡◌, ◌≢◌, refl, Option, none, some, arith, inl, inr,
  Option-cases,
}
use nupu_refsi.HostMemory.{Ptr, host_block}
use nupu_refsi.Machine.{Machine, Device}
use nupu_refsi.Pointers.{device_pointer, addr_to_mem, get_effective_address}

-- The contents of every device with contents are a block of the device's size.
abbrev Backed : Machine → Option Device → Type 0
Backed m none = Unit {0}
Backed m (some (Device.ram contents size)) = m.memory.extent contents ≡ size
Backed m (some (Device.host_ram size)) = Unit {0}
Backed m (some (Device.rom contents size)) = m.memory.extent contents ≡ size
Backed m (some (Device.buffer contents size)) = m.memory.extent contents ≡ size
Backed m (some (Device.dma machine base regs)) = Unit {0}
Backed m (some (Device.perf_counters counters)) = Unit {0}
Backed m (some (Device.window w)) = Unit {0}

abbrev pub WellBacked : Machine → Type 0
WellBacked m = (d : ℕ) → Backed m (m.devices d)

-- A pointer whose range does not wrap lies in its block.
abbrev InBlock : Machine → ℕ → Option Ptr → Type 0
InBlock m size o =
    (p : Ptr)
    → o ≡ some p
    → p.block ≢ host_block
    → p.offset + size < 2 ^ 64
    → p.offset + size ≤ m.memory.extent p.block

device_pointer-InBlock :
    (m : Machine) (f : ℕ → ℕ → Option Ptr) (dev : Option Device) (off size unit : ℕ)
    → Backed m dev
    → ((t a : ℕ) → InBlock m size (f t a))
    → InBlock m size (device_pointer f dev off size unit)
unfolding device_pointer
device_pointer-InBlock m f none off size unit b h p e nh lt = absurd (ground arith)
device_pointer-InBlock m f (some (Device.ram c s)) off size unit b h p e nh lt = ground arith
device_pointer-InBlock m f (some (Device.host_ram s)) off size unit b h p e nh lt = ground arith
device_pointer-InBlock m f (some (Device.rom c s)) off size unit b h p e nh lt = ground arith
device_pointer-InBlock m f (some (Device.buffer c s)) off size unit b h p e nh lt = ground arith
device_pointer-InBlock m f (some (Device.dma x y z)) off size unit b h p e nh lt =
    absurd (ground arith)
device_pointer-InBlock m f (some (Device.perf_counters x)) off size unit b h p e nh lt =
    absurd (ground arith)
device_pointer-InBlock m f (some (Device.window w)) off size unit b h p e nh lt =
    elim (Option-cases w.mapped_device) [
      | inl un ↦ absurd (ground arith)
      | inr (t, mapped) ↦ elim (Option-cases (get_effective_address w off unit)) [
        | inl un ↦ absurd (ground arith)
        | inr (a, addr) ↦ h t a p (ground arith) nh lt
      ]
    ]

-- A pointer that `addr_to_mem` gives to the contents of a device, at any depth of windows, has the
-- whole range inside those contents, if the range's end is below 2^64.
pub addr_to_mem-in_bounds :
    (depth : ℕ) (m : Machine) (dev off size unit : ℕ) (p : Ptr)
    → WellBacked m
    → addr_to_mem depth m dev off size unit ≡ some p
    → p.block ≢ host_block
    → p.offset + size < 2 ^ 64
    → p.offset + size ≤ m.memory.extent p.block
unfolding addr_to_mem
addr_to_mem-in_bounds zero m dev off size unit p backed e nh lt = absurd (ground arith)
addr_to_mem-in_bounds (suc depth) m dev off size unit p backed e nh lt =
    device_pointer-InBlock m (λ d a. addr_to_mem depth m d a size unit) (m.devices dev) off size
      unit (backed dev)
      (λ t a q e' nh' lt'. addr_to_mem-in_bounds depth m t a size unit q backed e' nh' lt') p e nh
      lt

-- The check does not see a range whose end wraps: RAM of `len` bytes gives a pointer to `size`
-- bytes at `off`, which reach beyond its end, whenever `off + size - 2^64` is at most `len`.
ram_pointer_wraps :
    (depth : ℕ) (m : Machine) (dev off size unit contents len : ℕ)
    → m.devices dev ≡ some (Device.ram contents len)
    → off < 2 ^ 64
    → size < 2 ^ 64
    → len < 2 ^ 64
    → 2 ^ 64 ≤ off + size
    → off + size ≤ 2 ^ 64 + len
    → (p : Ptr) × (addr_to_mem (suc depth) m dev off size unit ≡ some p)
      × (p.block ≡ contents)
      × (len < p.offset + size)
unfolding addr_to_mem device_pointer
ram_pointer_wraps depth m dev off size unit contents len ram o s l over wrap =
    (record { block = contents; offset = off }, ground arith, refl, omega arith)
