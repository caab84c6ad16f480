-- ===== src/Window.antt =====
-- Memory windows (driver/source/refsidrv/refsi_memory_window.cpp) and the register writes that
-- configure them (driver/source/refsidrv/refsi_memory.cpp).
pub mod Memory
pub mod Chain
pub mod Mapping
use nupu_refsi.Prelude.{
  ℕ, ◌+◌, ◌-◌, ◌*◌, ◌^◌, Bool, true, false, not, ◌&&◌, ◌||◌, List, Option, none, some, bit_and, ltb,
  leb, ◌==◌, ◌!=◌, if◌then◌else◌, get_elem?, shr, add64,
}
use nupu_refsi.Config.{
  RefsiResult, window_mode_shared, window_mode_per_hart, reg_window_base0, reg_window_target0,
  reg_window_mode0, reg_window_scale0, cmp_num_regs,
}
use nupu_refsi.Machine.{Machine, Device, Window, WindowConfig, put_device, is_mapped}
use nupu_refsi.Controller.{find_device, add_device, remove_device}
use nupu_refsi.Pointers.{get_scale}

-- RefSiMemoryWindow::splitCmpRegister: the canonical register and the window's index.
unfoldable pub split_cmp_register : ℕ → Option (ℕ × ℕ)
split_cmp_register reg =
    if leb reg_window_base0 reg && ltb reg reg_window_target0
    then some (reg_window_base0, reg - reg_window_base0)
    else if leb reg_window_target0 reg && ltb reg reg_window_mode0
    then some (reg_window_target0, reg - reg_window_target0)
    else if leb reg_window_mode0 reg && ltb reg reg_window_scale0
    then some (reg_window_mode0, reg - reg_window_mode0)
    else if leb reg_window_scale0 reg && ltb reg cmp_num_regs
    then some (reg_window_scale0, reg - reg_window_scale0)
    else none

-- A RefSiMemoryWindowConfig as it is constructed.
abbrev pub default_config : WindowConfig
default_config = record {
  active = false;
  mode = window_mode_shared;
  base_address = 0;
  target_address = 0;
  size = 0;
  scale_a = 0;
  scale_b = 0;
}

-- dynamic_cast<RefSiMemoryWindow *>(device) != nullptr
unfoldable pub is_window : Option Device → Bool
is_window none = false
is_window (some (Device.ram contents size)) = false
is_window (some (Device.host_ram size)) = false
is_window (some (Device.rom contents size)) = false
is_window (some (Device.buffer contents size)) = false
is_window (some (Device.dma machine base regs)) = false
is_window (some (Device.perf_counters counters)) = false
is_window (some (Device.window w)) = true

-- The window as RefSiMemoryWindow::enableWindow leaves it.
abbrev pub mapped_to : Window → ℕ → ℕ → Window
mapped_to w target offset =
    let config = record w.config { active = true } in
    record {
      config = config;
      mapped_device = some target;
      mapped_offset = offset;
      mapped_config = config;
    }

-- RefSiMemoryWindow::enableWindow of the window `w`, which is the device `d`. The source does not
-- look at the result of `add_device`.
unfoldable pub enable_window : Machine → ℕ → Window → RefsiResult × Machine
enable_window m d w = elim (find_device m.mapping w.config.target_address) [
  | none ↦ (RefsiResult.failure, m)
  | some (target, offset) ↦
      if is_window (m.devices target)
      then (RefsiResult.failure, m)
      else if w.config.mode != window_mode_shared && w.config.mode != window_mode_per_hart
      then (RefsiResult.failure, m)
      else (
        RefsiResult.success,
        (add_device (put_device m d (Device.window (mapped_to w target offset)))
            w.config.base_address d).1,
      )
]

-- The window as RefSiMemoryWindow::disableWindow leaves it, if it was mapped.
abbrev pub unmapped : Window → Window
unmapped w = record {
  config = record w.config { active = false };
  mapped_device = none;
  mapped_offset = 0;
  mapped_config = default_config;
}

-- RefSiMemoryWindow::disableWindow, with the window that it leaves.
unfoldable pub disable_window : Machine → ℕ → Window → Window × Machine
disable_window m d w =
    if is_mapped w
    then (
      unmapped w,
      put_device (remove_device m w.mapped_config.base_address).1 d (Device.window (unmapped w)),
    )
    else (w, m)

-- The fields of a register value.
abbrev pub window_active : ℕ → Bool
window_active value = bit_and value 0x1 != 0

abbrev pub window_mode : ℕ → ℕ
window_mode value = bit_and value 0x6

abbrev pub window_size : ℕ → ℕ
window_size value = add64 (shr value 32) 1

-- The configuration after a register write, and whether the mapping changes; `none` for a register
-- that is no window register.
unfoldable pub write_config : Window → ℕ → ℕ → Option (WindowConfig × Bool)
write_config w reg value =
    if reg == reg_window_base0
    then some (record w.config { base_address = value }, value != w.mapped_config.base_address)
    else if reg == reg_window_target0
    then some (record w.config { target_address = value }, value != w.mapped_config.target_address)
    else if reg == reg_window_scale0
    then (let config = record w.config { scale_a = bit_and value 0x1f; scale_b = shr value 32 } in
        some (config, get_scale config != get_scale w.mapped_config))
    else if reg == reg_window_mode0
    then some (
      record w.config {
        active = window_active value;
        mode = window_mode value;
        size = window_size value;
      },
      window_mode value != w.mapped_config.mode || window_size value != w.mapped_config.size,
    )
    else none

-- The end of RefSiMemoryWindow::handleRegWrite.
unfoldable pub update_mapping : Machine → ℕ → Window → Bool → RefsiResult × Machine
update_mapping m d w mapping_changed =
    let stored = put_device m d (Device.window w) in
    let (w', m') =
      if not w.config.active || mapping_changed then disable_window stored d w else (w, stored) in
    if w'.config.active && not (is_mapped w')
    then enable_window m' d w'
    else (RefsiResult.success, m')

-- RefSiMemoryWindow::handleRegWrite of the window `w`, which is the device `d`.
unfoldable pub handle_reg_write : Machine → ℕ → Window → ℕ → ℕ → RefsiResult × Machine
handle_reg_write m d w reg value = elim (write_config w reg value) [
  | none ↦ (RefsiResult.failure, m)
  | some (config, mapping_changed) ↦
      update_mapping m d (record w { config = config }) mapping_changed
]

-- RefSiMemoryController::handleWindowRegWrite; `windows` are the controller's windows.
unfoldable pub handle_window_reg_write : Machine → List ℕ → ℕ → ℕ → RefsiResult × Machine
handle_window_reg_write m windows reg value = elim (split_cmp_register reg) [
  | none ↦ (RefsiResult.failure, m)
  | some (canonical_reg, window_idx) ↦ elim (get_elem? windows window_idx) [
    | none ↦ (RefsiResult.failure, m)
    | some d ↦ elim (m.devices d) [
      | none ↦ (RefsiResult.failure, m)
      | some (Device.window w) ↦ handle_reg_write m d w canonical_reg value
      | _ ↦ (RefsiResult.failure, m)
    ]
  ]
]
