-- ===== src/Examples/Programs.antt =====
-- The theorems on memory regions, ELF files and the host's memory operations at concrete inputs.
use nupu_refsi.Prelude.{
  zero, suc, ℕ, ◌+◌, ◌-◌, ◌*◌, ◌%◌, ◌^◌, ◌<◌, ◌≤◌, ◌≡◌, ◌≢◌, refl, sym, subst, ◌∙◌, inr,
  some-injective, true, false, [], ◌∷◌, some, get_or, get_elem?, arith,
}
use nupu_refsi.HostMemory.{slice, write_bytes}
use nupu_refsi.Machine.{Machine}
use nupu_refsi.Controller.{find_device, find_entry}
use nupu_refsi.Region.{Region}
use nupu_refsi.Region.Ram.{
  controller, Backed, Backed-write_bytes, ram_region, ram_region-Ok, ram_region-byte,
}
use nupu_refsi.Region.Filled.{Filled}
use nupu_refsi.Elf.{ElfSegment, ElfProgram, load_program}
use nupu_refsi.Elf.Image.{Image, Laid, Misses, load_program-Image}
use nupu_refsi.Elf.Strings.{read_c_string, read_c_string_lem}
use nupu_refsi.Hal.{CounterData, Hal, mem_fill}
use nupu_refsi.Hal.Fill.{mem_fill_lem}
use nupu_refsi.Examples.World.{world, at}

-- RAM 1 of the small machine.
abbrev small : 80 < 2 ^ 64
small = omega arith

abbrev ram_1 : Region controller 16 80
ram_1 = ram_region 16 80 (at 1 0) small

ram_1-Backed : Backed 16 80 (at 1 0) world
unfolding find_device find_entry
ram_1-Backed off n h = record {
  dev = 1;
  size = 64;
  found = ground (arith, h);
  is_ram = refl;
  backed = refl;
  within_ram = omega (arith, h);
  small = omega arith;
}

ram_1-Ok : ram_1.Ok world
ram_1-Ok = ram_region-Ok 16 80 (at 1 0) small world ram_1-Backed

-- Two bytes of data and two zeros; then a segment of zeros.
abbrev text : ElfSegment
text = record { address = 20; contents = 7 ∷ 8 ∷ []; file_size = 2; memory_size = 4 }

abbrev bss : ElfSegment
bss = record { address = 40; contents = []; file_size = 0; memory_size = 3 }

abbrev program : ElfProgram
program = record {
  segments = text ∷ bss ∷ [];
  symbols = [];
  header = record {
    e_ident = [];
    e_machine = 0;
    e_entry = 20;
    e_phoff = 0;
    e_shoff = 0;
    e_phentsize = 0;
    e_phnum = 0;
    e_shentsize = 0;
    e_shnum = 0;
    e_shstrndx = 0;
  };
  entry_address = 20;
}

program-Laid : Laid 16 80 (text ∷ bss ∷ [])
program-Laid =
    Laid.cons text (bss ∷ [])
      (record { above = omega arith; below = omega arith; whole = refl; covers = omega arith })
      apart
      (Laid.cons bss []
        (record { above = omega arith; below = omega arith; whole = refl; covers = omega arith })
        (λ i other e x p q. cc) Laid.nil)
  where
    apart :
        (i : ℕ) (other : ElfSegment)
        → get_elem? (bss ∷ []) i ≡ some other
        → (x : ℕ) → other.address ≤ x
        → x < other.address + other.memory_size
        → Misses text x
    apart zero other e x p q =
        let low : 40 ≤ x =
          subst (λ (z : ElfSegment). z.address ≤ x) (sym (some-injective _ _ e)) p in
        inr (omega (arith, low))
    apart (suc i) other e x p q = cc

load_program-Image_example :
    (t : Machine) × (load_program controller world program 0 ≡ some (true, t))
    × Image controller 16 80 ram_1 world t (text ∷ bss ∷ [])
load_program-Image_example =
    load_program-Image controller 16 80 ram_1 program world 0 (λ e. absurd (omega (arith, e)))
      ram_1-Ok program-Laid

-- RAM 1 with a terminator at address 23.
abbrev terminated : Machine
terminated = record world { memory = write_bytes world.memory (at 1 7) (0 ∷ []) }

terminated-Ok : ram_1.Ok terminated
terminated-Ok =
    ram_region-Ok 16 80 (at 1 0) small terminated
      (Backed-write_bytes 16 80 (at 1 0) (at 1 7) (0 ∷ []) world ram_1-Backed)

three_chars : (i : ℕ) → i < 3 → ram_1.byte terminated (20 + i) ≢ 0
unfolding write_bytes
three_chars zero p e =
    absurd (omega (arith, sym (ram_region-byte 16 80 (at 1 0) small terminated 20) ∙ e))
three_chars (suc zero) p e =
    absurd (omega (arith, sym (ram_region-byte 16 80 (at 1 0) small terminated 21) ∙ e))
three_chars (suc (suc zero)) p e =
    absurd (omega (arith, sym (ram_region-byte 16 80 (at 1 0) small terminated 22) ∙ e))
three_chars (suc (suc (suc i))) p e = absurd (omega (arith, p))

then_zero : ram_1.byte terminated (20 + 3) ≡ 0
unfolding write_bytes
then_zero = ram_region-byte 16 80 (at 1 0) small terminated 23

read_c_string_lem_example :
    read_c_string controller 1 terminated 0 20 ≡ some (true, slice (ram_1.byte terminated) 20 3)
read_c_string_lem_example =
    read_c_string_lem controller 16 80 ram_1 3 terminated 0 20 terminated-Ok (omega arith)
      (omega arith) three_chars then_zero

-- A fill with a pattern of two bytes, three times.
abbrev no_counters : CounterData ℕ
no_counters = record {
  has_value = λ c index. false;
  get_value = λ c index. 0;
  set_value = λ c index value. c;
  clear_value = λ c index. c;
}

abbrev hal : Hal ℕ
hal = record {
  device = world;
  counters_enabled = true;
  hart_counter_data = [];
  host_counter_data = 0 ∷ 0 ∷ [];
}

mem_fill_lem_example :
    (s' : Hal ℕ) × (mem_fill no_counters hal 20 (some (1 ∷ 2 ∷ [])) (2 * 3) ≡ some (true, s'))
    × Filled controller 16 80 ram_1 world s'.device
        (λ x. get_or (1 ∷ 2 ∷ []) ((x - 20) % 2) 0)
        20
        (20 + 2 * 3)
mem_fill_lem_example =
    mem_fill_lem no_counters 16 80 ram_1 hal 20 (1 ∷ 2 ∷ []) 3 (omega arith) ram_1-Ok (omega arith)
      (omega arith)
