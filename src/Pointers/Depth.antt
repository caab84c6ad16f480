-- ===== src/Pointers/Depth.antt =====
-- Two levels of `addr_to_mem` are enough where no window is mapped to a window.
use nupu_refsi.Prelude.{ℕ, suc, ◌≡◌, ◌≢◌, refl, Option, none, some, inl, inr, Option-cases}
use nupu_refsi.HostMemory.{Ptr}
use nupu_refsi.Machine.{Machine, Device, Window}
use nupu_refsi.Pointers.{device_pointer, addr_to_mem, max_depth, get_effective_address}

-- What a window is mapped to is no window.
abbrev pub NoWindowChain : Machine → Type 0
NoWindowChain m =
    (d t : ℕ) (w v : Window)
    → m.devices d ≡ some (Device.window w)
    → w.mapped_device ≡ some t
    → m.devices t ≢ some (Device.window v)

-- Only a mapped window calls on to its target.
device_pointer_congr :
    (f g : ℕ → ℕ → Option Ptr) (dev : Option Device) (off size unit : ℕ)
    → ((w : Window) (t a : ℕ)
        → dev ≡ some (Device.window w)
        → w.mapped_device ≡ some t
        → f t a ≡ g t a)
    → device_pointer f dev off size unit ≡ device_pointer g dev off size unit
unfolding device_pointer
device_pointer_congr f g none off size unit h = refl
device_pointer_congr f g (some (Device.ram a b)) off size unit h = refl
device_pointer_congr f g (some (Device.host_ram b)) off size unit h = refl
device_pointer_congr f g (some (Device.rom a b)) off size unit h = refl
device_pointer_congr f g (some (Device.buffer a b)) off size unit h = refl
device_pointer_congr f g (some (Device.dma a b c)) off size unit h = refl
device_pointer_congr f g (some (Device.perf_counters a)) off size unit h = refl
device_pointer_congr f g (some (Device.window w)) off size unit h =
    elim (Option-cases w.mapped_device) [
      | inl e ↦ rw (e, device_pointer)
      | inr (t, e) ↦ elim (Option-cases (get_effective_address w off unit)) [
        | inl none_addr ↦ rw (e, none_addr, device_pointer)
        | inr (a, addr) ↦ rw (e, addr, device_pointer) (h w t a refl e)
      ]
    ]

-- Where no window is mapped to a window, a deeper chain of calls than `max_depth` gives the same
-- pointer: the bound cuts nothing off.
pub addr_to_mem_depth :
    (more : ℕ) (m : Machine) (dev off size unit : ℕ)
    → NoWindowChain m
    → addr_to_mem (suc (suc more)) m dev off size unit ≡ addr_to_mem max_depth m dev off size unit
unfolding addr_to_mem
addr_to_mem_depth more m dev off size unit chain =
    device_pointer_congr _ _ (m.devices dev) off size unit (λ w t a is_win mapped.
      device_pointer_congr _ _ (m.devices t) a size unit
        (λ v u b is_win' _. absurd (chain dev t w v is_win mapped is_win')))
