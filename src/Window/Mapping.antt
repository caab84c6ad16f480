-- ===== src/Window/Mapping.antt =====
-- What enabling, disabling and changing a window does to the machine.
use nupu_refsi.Prelude.{
  ℕ, ◌+◌, ◌%◌, add64, ◌*◌, ◌^◌, inl, inr, ◌≤◌, ◌<◌, ◌≡◌, ◌≢◌, ◌⊎◌, refl, ap, ◌∙◌, true, false, none,
  some, arith,
}
use nupu_refsi.Config.{RefsiResult, window_mode_shared, window_mode_per_hart, reg_window_mode0}
use nupu_refsi.Machine.{Machine, Device, Window, put_device, is_mapped}
use nupu_refsi.Controller.{find_device, base_in_use, add_device, remove_device, entry_at}
use nupu_refsi.Controller.Lookup.{Sorted}
use nupu_refsi.Controller.Devices.{find_device-add_device, devices-add_device, add_device-in_use}
use nupu_refsi.Controller.Update.{entry_at-erase_entry}
use nupu_refsi.UnitId.{get_unit_kind, get_unit_index, kind_acc_hart}
use nupu_refsi.Pointers.{
  get_scale, get_effective_address, device_pointer, addr_to_mem, controller_addr_to_mem, max_depth,
}
use nupu_refsi.Window.{
  is_window, mapped_to, unmapped, window_active, window_mode, window_size, enable_window,
  disable_window, write_config, update_mapping, handle_reg_write,
}

-- Enabling a window of a known mode whose target lies in RAM.
module _ (m : Machine) (d : ℕ) (w : Window) (t off contents len : ℕ)
    (is_w : m.devices d ≡ some (Device.window w))
    (target : find_device m.mapping w.config.target_address ≡ some (t, off))
    (ram : m.devices t ≡ some (Device.ram contents len)) where
  -- The machine with the window's new state, before it is added to the map.
  abbrev pub configured : Machine
  configured = put_device m d (Device.window (mapped_to w t off))

  enable_window_ram :
      (w.config.mode ≡ window_mode_shared) ⊎ (w.config.mode ≡ window_mode_per_hart)
      → enable_window m d w
        ≡ (RefsiResult.success, (add_device configured w.config.base_address d).1)
  unfolding enable_window is_window
  enable_window_ram mode = ground (arith, mode, target, ram)

  not_itself : t ≢ d
  not_itself e = ground (arith, is_w, ram)

  window_pointer :
      (m' : Machine) (o a size unit : ℕ)
      → ((x : ℕ) → m'.devices x ≡ configured.devices x)
      → get_effective_address (mapped_to w t off) o unit ≡ some a
      → a + size ≤ len
      → len < 2 ^ 64
      → addr_to_mem max_depth m' d o size unit ≡ some (record { block = contents; offset = a })
  unfolding addr_to_mem device_pointer
  window_pointer m' o a size unit same eff fits small =
      ground (arith, same d, same t, not_itself, ram, eff)

  -- What the unit reaches through the window at offset `o`: in the shared mode the target's offset
  -- plus `o`; in the per-hart mode the hart's index times the scale is added, for harts only.
  abbrev pub Reaches : ℕ → ℕ → ℕ → Type 0
  Reaches o unit a =
      ((w.config.mode ≡ window_mode_shared) × (a ≡ off + o))
      ⊎ ((w.config.mode ≡ window_mode_per_hart)
          × (get_unit_kind unit ≡ kind_acc_hart)
          × (a ≡ off + get_unit_index unit * get_scale w.config + o))

  known_mode :
      (o unit a : ℕ)
      → Reaches o unit a
      → (w.config.mode ≡ window_mode_shared) ⊎ (w.config.mode ≡ window_mode_per_hart)
  known_mode o unit a (inl shared) = inl shared.0
  known_mode o unit a (inr per_hart) = inr per_hart.0

  effective :
      (o unit a : ℕ)
      → a < 2 ^ 64
      → Reaches o unit a
      → get_effective_address (mapped_to w t off) o unit ≡ some a
  unfolding get_effective_address get_scale
  effective o unit a top (inl (shared, e)) =
      let fits : add64 off o ≡ a = omega (arith, top, e) in ground (arith, shared, fits)
  effective o unit a top (inr (per_hart, hart, e)) =
      let scaled : ℕ = get_unit_index unit * get_scale w.config in
      let fits : add64 (add64 off (scaled % 2 ^ 64)) o ≡ a = omega (arith, top, e) in
      ground (arith, per_hart, hart, fits)

  -- Once such a window is enabled at a base address that is free, an access through the window gives
  -- the pointer to the address in the contents of the RAM that the unit reaches. In the shared mode
  -- that is the target's offset plus the offset in the window; in the per-hart mode the hart's index
  -- times the scale is added. It holds for accesses that lie in the RAM, at every offset up to the
  -- next base address of the map.
  pub window_redirects :
      (o a size unit : ℕ)
      → Sorted m.mapping
      → base_in_use configured w.config.base_address ≡ false
      → ((k : ℕ)
          → w.config.base_address < k
          → k ≤ w.config.base_address + o
          → entry_at m.mapping k ≡ none)
      → w.config.base_address + o < 2 ^ 64
      → Reaches o unit a
      → a + size ≤ len
      → len < 2 ^ 64
      → (enable_window m d w).0 ≡ RefsiResult.success
        × (controller_addr_to_mem (enable_window m d w).1 (w.config.base_address + o) size unit
            ≡ some (record { block = contents; offset = a }))
  unfolding controller_addr_to_mem
  window_redirects o a size unit s free gap top reaches fits small =
      let base = w.config.base_address in
      let eff = effective o unit a (omega (arith, fits, small)) reaches in
      let added = find_device-add_device configured base d (base + o) s free (omega arith) gap in
      let found : find_device (add_device configured base d).1.mapping (base + o) ≡ some (d, o) =
        added.2 ∙ ap (λ (x : ℕ). some (d, x)) (omega arith) in
      rw (enable_window_ram (known_mode o unit a reaches)) (
        refl,
        rw (found, controller_addr_to_mem)
            (window_pointer (add_device configured base d).1 o a size unit
              (devices-add_device configured base d) eff fits small),
      )

-- A base address that is in use is not noticed: a window of a known mode on a device that is no
-- window is then mapped, and reported as enabled, but the address map does not change.
pub enable_window-in_use :
    (m : Machine) (d : ℕ) (w : Window) (t off : ℕ)
    → (w.config.mode ≡ window_mode_shared) ⊎ (w.config.mode ≡ window_mode_per_hart)
    → find_device m.mapping w.config.target_address ≡ some (t, off)
    → is_window (m.devices t) ≡ false
    → base_in_use (put_device m d (Device.window (mapped_to w t off))) w.config.base_address ≡ true
    → (m' : Machine) × (enable_window m d w ≡ (RefsiResult.success, m'))
      × (m'.mapping ≡ m.mapping)
      × (m'.devices d ≡ some (Device.window (mapped_to w t off)))
unfolding enable_window
enable_window-in_use m d w t off mode target plain used =
    let m' : Machine = put_device m d (Device.window (mapped_to w t off)) in
    (
      m',
      ground (arith, target, plain, add_device-in_use m' w.config.base_address d used),
      refl,
      ground arith,
    )

-- In a sorted map, disabling a mapped window frees the base address that it was mapped at,
-- whichever device the map holds there.
pub disable_window-frees :
    (m : Machine) (d : ℕ) (w : Window)
    → Sorted m.mapping
    → is_mapped w ≡ true
    → (entry_at (disable_window m d w).1.mapping w.mapped_config.base_address ≡ none)
      × ((disable_window m d w).0 ≡ unmapped w)
      × ((disable_window m d w).1.devices d ≡ some (Device.window (unmapped w)))
unfolding disable_window remove_device
disable_window-frees m d w s mapped =
    ground (arith, entry_at-erase_entry m.mapping w.mapped_config.base_address s)

-- A write of the MODE register that sets another size than the mapped one leaves a mapped window
-- disabled, also when it sets ACTIVE, and reports success.
pub resize_disables :
    (m : Machine) (d : ℕ) (w : Window) (value : ℕ)
    → is_mapped w ≡ true
    → window_size value ≢ w.mapped_config.size
    → (m' : Machine) × (w' : Window) × (handle_reg_write m d w reg_window_mode0 value
        ≡ (RefsiResult.success, m'))
      × (m'.devices d ≡ some (Device.window w'))
      × (is_mapped w' ≡ false)
      × (w'.config.active ≡ false)
unfolding handle_reg_write write_config update_mapping disable_window
resize_disables m d w value mapped resized =
    let w1 : Window = record w {
      config = record (w.config) {
        active = window_active value;
        mode = window_mode value;
        size = window_size value;
      };
    } in
    (
      (disable_window (put_device m d (Device.window w1)) d w1).1,
      unmapped w1,
      ground arith,
      ground arith,
      refl,
      refl,
    )
