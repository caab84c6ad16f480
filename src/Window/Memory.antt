-- ===== src/Window/Memory.antt =====
-- A register write of a window leaves the contents of memory as they are.
use nupu_refsi.Prelude.{
  ℕ, ◌≡◌, refl, Bool, List, some, get_elem?, ◌∙◌, Option-cases, Bool-cases, inl, inr, not, ◌||◌,
  true, false, ◌&&◌, ◌!=◌, if◌then◌else◌,
}
use nupu_refsi.Config.{RefsiResult, window_mode_shared, window_mode_per_hart}
use nupu_refsi.Machine.{Machine, Device, Window, put_device, is_mapped}
use nupu_refsi.Controller.{find_device, add_device, base_in_use, remove_device, entry_at}
use nupu_refsi.Window.{
  is_window, mapped_to, enable_window, disable_window, update_mapping, handle_reg_write,
  write_config, handle_window_reg_write, split_cmp_register,
}

add_memory : (m : Machine) (addr dev : ℕ) → (add_device m addr dev).1.memory ≡ m.memory
unfolding add_device
add_memory m addr dev = elim (Bool-cases (base_in_use m addr)) [
  | inl e ↦ rw (e, add_device) refl
  | inr e ↦ rw (e, add_device) refl
]

remove_memory : (m : Machine) (addr : ℕ) → (remove_device m addr).1.memory ≡ m.memory
unfolding remove_device
remove_memory m addr = elim (Option-cases (entry_at m.mapping addr)) [
  | inl e ↦ rw (e, remove_device) refl
  | inr (d, e) ↦ rw (e, remove_device) refl
]

if_memory :
    (b : Bool) (m : Machine) (x y : RefsiResult × Machine)
    → x.1.memory ≡ m.memory
    → y.1.memory ≡ m.memory
    → (if b then x else y).1.memory ≡ m.memory
if_memory true m x y h k = h
if_memory false m x y h k = k

enable_memory : (m : Machine) (d : ℕ) (w : Window) → (enable_window m d w).1.memory ≡ m.memory
unfolding enable_window
enable_memory m d w = elim (Option-cases (find_device m.mapping w.config.target_address)) [
  | inl e ↦ rw (e, enable_window) refl
  | inr ((t, off), e) ↦
      let bad_mode = w.config.mode != window_mode_shared && w.config.mode != window_mode_per_hart in
      let added =
        (add_device (put_device m d (Device.window (mapped_to w t off))) w.config.base_address
          d).1 in
      rw (e, enable_window)
        (if_memory (is_window (m.devices t)) m (RefsiResult.failure, m)
          (if bad_mode then (RefsiResult.failure, m) else (RefsiResult.success, added)) refl
          (if_memory bad_mode m (RefsiResult.failure, m) (RefsiResult.success, added) refl
            (add_memory (put_device m d (Device.window (mapped_to w t off))) w.config.base_address
              d)))
]

disable_memory : (m : Machine) (d : ℕ) (w : Window) → (disable_window m d w).1.memory ≡ m.memory
unfolding disable_window
disable_memory m d w = elim (Bool-cases (is_mapped w)) [
  | inl e ↦ rw (e, disable_window) (remove_memory m w.mapped_config.base_address)
  | inr e ↦ rw (e, disable_window) refl
]

update_memory :
    (m : Machine) (d : ℕ) (w : Window) (changed : Bool)
    → (update_mapping m d w changed).1.memory ≡ m.memory
unfolding update_mapping
update_memory m d w changed = elim (Bool-cases (not w.config.active || changed)) [
  | inl e ↦
      let after = disable_window (put_device m d (Device.window w)) d w in
      let same = disable_memory (put_device m d (Device.window w)) d w in
      rw (e, update_mapping)
        (if_memory (after.0.config.active && not (is_mapped after.0)) m
          (enable_window after.1 d after.0) (RefsiResult.success, after.1)
          (enable_memory after.1 d after.0 ∙ same) same)
  | inr e ↦
      let stored = put_device m d (Device.window w) in
      rw (e, update_mapping)
        (if_memory (w.config.active && not (is_mapped w)) m (enable_window stored d w)
          (RefsiResult.success, stored) (enable_memory stored d w) refl)
]

handle_memory :
    (m : Machine) (d : ℕ) (w : Window) (reg value : ℕ)
    → (handle_reg_write m d w reg value).1.memory ≡ m.memory
unfolding handle_reg_write
handle_memory m d w reg value = elim (Option-cases (write_config w reg value)) [
  | inl e ↦ rw (e, handle_reg_write) refl
  | inr ((config, changed), e) ↦
      rw (e, handle_reg_write) (update_memory m d (record w { config = config }) changed)
]

-- Only a window device takes the write.
by_device :
    (m : Machine) (windows : List ℕ) (reg value : ℕ) (c : ℕ × ℕ) (d : ℕ) (dev : Device)
    → split_cmp_register reg ≡ some c
    → get_elem? windows c.1 ≡ some d
    → m.devices d ≡ some dev
    → (handle_window_reg_write m windows reg value).1.memory ≡ m.memory
unfolding handle_window_reg_write
by_device m windows reg value c d (Device.ram a b) s g e =
    rw (s, handle_window_reg_write, g, e) refl
by_device m windows reg value c d (Device.host_ram a) s g e =
    rw (s, handle_window_reg_write, g, e) refl
by_device m windows reg value c d (Device.rom a b) s g e =
    rw (s, handle_window_reg_write, g, e) refl
by_device m windows reg value c d (Device.buffer a b) s g e =
    rw (s, handle_window_reg_write, g, e) refl
by_device m windows reg value c d (Device.dma machine a b) s g e =
    rw (s, handle_window_reg_write, g, e) refl
by_device m windows reg value c d (Device.perf_counters a) s g e =
    rw (s, handle_window_reg_write, g, e) refl
by_device m windows reg value c d (Device.window w) s g e =
    rw (s, handle_window_reg_write, g, e) (handle_memory m d w c.0 value)

pub handle_window_reg_write-memory :
    (m : Machine) (windows : List ℕ) (reg value : ℕ)
    → (handle_window_reg_write m windows reg value).1.memory ≡ m.memory
unfolding handle_window_reg_write
handle_window_reg_write-memory m windows reg value = elim (Option-cases (split_cmp_register reg)) [
  | inl s ↦ rw (s, handle_window_reg_write) refl
  | inr (c, s) ↦ elim (Option-cases (get_elem? windows c.1)) [
    | inl g ↦ rw (s, handle_window_reg_write, g) refl
    | inr (d, g) ↦ elim (Option-cases (m.devices d)) [
      | inl e ↦ rw (s, handle_window_reg_write, g, e) refl
      | inr (dev, e) ↦ by_device m windows reg value c d dev s g e
    ]
  ]
]
