-- ===== src/Region/Ram.antt =====
-- A range of a RAM device, seen through the memory controller, is plain memory.
use nupu_refsi.Prelude.{
  ℕ, ◌+◌, ◌-◌, ◌^◌, ◌≤◌, ◌<◌, ◌≡◌, refl, ap, subst, ◌∙◌, List, length, get_or, arith,
}
use nupu_refsi.HostMemory.{Ptr, slice, write_bytes}
use nupu_refsi.HostMemory.Laws.{copy_out_fits, extent-write_bytes, slice_shift}
use nupu_refsi.Machine.{Machine}
use nupu_refsi.Access.{load, store, load_pointer}
use nupu_refsi.Access.Ram.{RamAt, load_ram, store_ram}
use nupu_refsi.Region.{MemoryDevice, Region, patch}

-- The memory controller of a machine.
abbrev pub controller : MemoryDevice Machine
controller = record { load = load; store = store }

abbrev at : Ptr → ℕ → Ptr
at p off = record { block = p.block; offset = p.offset + off }

-- The range from `lo` to `hi` is kept in a RAM device, from pointer `p` on.
abbrev pub Backed : ℕ → ℕ → Ptr → Machine → Type 0
Backed lo hi p m = (off n : ℕ) → lo + off + n ≤ hi → RamAt m (lo + off) n (at p off)

pub Backed-write_bytes :
    (lo hi : ℕ) (p q : Ptr) (bs : List ℕ) (m : Machine)
    → Backed lo hi p m
    → Backed lo hi p (record m { memory = write_bytes m.memory q bs })
Backed-write_bytes lo hi p q bs m ok off n h =
    let r = ok off n h in
    record {
      dev = r.dev;
      size = r.size;
      found = r.found;
      is_ram = r.is_ram;
      backed = extent-write_bytes m.memory q bs p.block ∙ r.backed;
      within_ram = r.within_ram;
      small = r.small;
    }

abbrev region_byte : ℕ → Ptr → Machine → ℕ → ℕ
region_byte lo p m x = m.memory.bytes p.block (p.offset + (x - lo))

byte-write_bytes :
    (lo a x : ℕ) (p : Ptr) (m : Machine) (bs : List ℕ)
    → lo ≤ a
    → lo ≤ x
    → region_byte lo p (record m { memory = write_bytes m.memory (at p (a - lo)) bs }) x
      ≡ patch (region_byte lo p m) a bs x
unfolding write_bytes patch
byte-write_bytes lo a x p m bs ha hx =
    let hit : (p.offset + (x - lo)) - (p.offset + (a - lo)) ≡ x - a = omega (arith, ha, hx) in
    ground (arith, ha, hx, ap (λ k. get_or bs k 0) hit)

slice-byte :
    (lo a n : ℕ) (p : Ptr) (m : Machine)
    → lo ≤ a
    → slice (m.memory.bytes p.block) (p.offset + (a - lo)) n ≡ slice (region_byte lo p m) a n
slice-byte lo a n p m h =
    slice_shift (m.memory.bytes p.block) (region_byte lo p m) (p.offset + (a - lo)) a n
      (λ i q. ap (m.memory.bytes p.block) (omega (arith, h)))

-- The access at `a` is one of the RAM device.
ram_at :
    (lo hi a n : ℕ) (p : Ptr) (m : Machine)
    → Backed lo hi p m
    → lo ≤ a
    → a + n ≤ hi
    → RamAt m a n (at p (a - lo))
ram_at lo hi a n p m ok ha hb =
    let e : lo + (a - lo) ≡ a = omega (arith, ha) in
    subst (λ z. RamAt m z n (at p (a - lo))) e (ok (a - lo) n (omega (arith, ha, hb)))

pub ram_region : (lo hi : ℕ) (p : Ptr) → hi < 2 ^ 64 → Region controller lo hi
unfolding load_pointer
ram_region lo hi p small = record {
  Ok = Backed lo hi p;
  byte = region_byte lo p;
  small = small;
  stores = λ m a bs unit ok ha hb. (
    record m { memory = write_bytes m.memory (at p (a - lo)) bs },
    store_ram m a unit bs (at p (a - lo)) (ram_at lo hi a (length bs) p m ok ha hb),
    Backed-write_bytes lo hi p (at p (a - lo)) bs m ok,
    λ x hx _. byte-write_bytes lo a x p m bs ha hx,
  );
  loads = λ m a n unit ok ha hb.
      let r = ram_at lo hi a n p m ok ha hb in
      load_ram m a n unit (at p (a - lo)) r
      ∙ rw
          (
            copy_out_fits m.memory (at p (a - lo)) n (omega (arith, r.within_ram, r.backed)),
            slice-byte lo a n p m ha,
            load_pointer,
          )
          refl;
}

pub ram_region-Ok :
    (lo hi : ℕ) (p : Ptr) (small : hi < 2 ^ 64) (m : Machine)
    → Backed lo hi p m
    → (ram_region lo hi p small).Ok m
unfolding ram_region
ram_region-Ok lo hi p small m backed = backed

pub ram_region-byte :
    (lo hi : ℕ) (p : Ptr) (small : hi < 2 ^ 64) (m : Machine) (x : ℕ)
    → (ram_region lo hi p small).byte m x ≡ m.memory.bytes p.block (p.offset + (x - lo))
unfolding ram_region
ram_region-byte lo hi p small m x = refl
