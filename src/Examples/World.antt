-- ===== src/Examples/World.antt =====
-- A small machine for the examples: two RAM devices of 64 bytes and a window, and a DMA device
-- state per transfer dimension.
use nupu_refsi.Prelude.{true, ℕ, ◌+◌, ◌*◌, ◌%◌, List, [], ◌∷◌, zero, suc, Option, none, some, false}
use nupu_refsi.Config.{reg_dmaxfersize0, reg_dmactrl, reg_dmaxfersrcstride0, reg_dmaxferdststride0}
use nupu_refsi.HostMemory.{HostMemory, Ptr}
use nupu_refsi.Machine.{Machine, Device, Window, WindowConfig}
use nupu_refsi.Soc.{Soc}
use nupu_refsi.Dma.{DmaState, set_reg}

abbrev pub memory : HostMemory
memory = record { bytes = λ b o. (b * 16 + o) % 256; extent = λ b. 64 }

-- The window from 1024 on, with its target in the second RAM.
abbrev pub window_config : WindowConfig
window_config = record {
  active = false;
  mode = 0;
  base_address = 1024;
  target_address = 136;
  size = 32;
  scale_a = 0;
  scale_b = 0;
}

abbrev pub window : Window
window = record {
  config = window_config;
  mapped_device = none;
  mapped_offset = 0;
  mapped_config = record window_config { base_address = 0; target_address = 0; size = 0 };
}

abbrev pub mapped_window : Window
mapped_window = record {
  config = window_config;
  mapped_device = some 2;
  mapped_offset = 8;
  mapped_config = window_config;
}

-- RAM devices 1 and 2, the window as device 3.
abbrev pub devices : Window → ℕ → Option Device
devices w zero = none
devices w (suc zero) = some (Device.ram 1 64)
devices w (suc (suc zero)) = some (Device.ram 2 64)
devices w (suc (suc (suc zero))) = some (Device.window w)
devices w (suc (suc (suc (suc d)))) = none

abbrev pub world_with : Window → List (ℕ × ℕ) → Machine
world_with w mapping = record {
  memory = memory;
  devices = devices w;
  mapping = mapping;
  csr = λ hart reg. none;
  csr_write = λ reg old value. value;
}

abbrev pub world : Machine
world = world_with window ((16, 1) ∷ (128, 2) ∷ [])

abbrev pub mapped_world : Machine
mapped_world = world_with mapped_window ((16, 1) ∷ (128, 2) ∷ (1024, 3) ∷ [])

abbrev pub at : ℕ → ℕ → Ptr
at block offset = record { block = block; offset = offset }

-- Sizes 2, 3 and 2, in the mode without strides.
abbrev pub plain_regs : ℕ → ℕ
plain_regs =
    set_reg (set_reg (set_reg (λ r. 0) reg_dmaxfersize0 2) (reg_dmaxfersize0 + 1) 3)
      (reg_dmaxfersize0 + 2) 2

abbrev pub dma_plain : DmaState
dma_plain = record { regs = plain_regs; memory = memory }

-- The same sizes, rows 4 bytes apart and planes 16 bytes apart on both sides.
abbrev pub dma_strided : DmaState
dma_strided = record {
  regs =
      set_reg
        (set_reg
          (set_reg (set_reg (set_reg plain_regs reg_dmactrl 0xf0) reg_dmaxfersrcstride0 4)
            (reg_dmaxfersrcstride0 + 1) 16)
          reg_dmaxferdststride0 4)
        (reg_dmaxferdststride0 + 1) 16;
  memory = memory;
}

-- A device with a simulator of four harts, and a register file whose kernel has no
-- thread-specific data.
abbrev pub soc : Soc
soc = record {
  machine = world;
  windows = [];
  registers = λ r. 0;
  has_isa = true;
  total_harts = 4;
  sim = some 4;
  mmu_calls = [];
}
