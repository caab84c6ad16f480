-- ===== src/Window/Chain.antt =====
-- Register writes never map a window to a window.
use nupu_refsi.Prelude.{
  ℕ, ◌≡◌, ◌≢◌, ap, Bool, true, false, not, ◌||◌, Option, some, arith, inl, inr, Option-cases,
  Bool-cases, if◌then◌else◌,
}
use nupu_refsi.Config.{RefsiResult}
use nupu_refsi.Machine.{Machine, Device, Window, put_device, is_mapped}
use nupu_refsi.Controller.{add_device, remove_device, find_device, base_in_use, entry_at}
use nupu_refsi.Pointers.Depth.{NoWindowChain}
use nupu_refsi.Window.{
  is_window, mapped_to, unmapped, enable_window, disable_window, write_config, update_mapping,
  handle_reg_write,
}

-- The device `d` is the window `w`, in a machine without chains.
record Chainless (m : Machine) (d : ℕ) (w : Window) : Type 0 where
  chain : NoWindowChain m
  is_w : m.devices d ≡ some (Device.window w)

-- A window may be given a new target that is no window.
chain_put :
    (m : Machine) (d : ℕ) (w w' : Window)
    → Chainless m d w
    → ((t : ℕ) (v : Window) → w'.mapped_device ≡ some t → m.devices t ≢ some (Device.window v))
    → Chainless (put_device m d (Device.window w')) d w'
chain_put m d w w' c ok = record { chain = keeps; is_w = ground arith }
  where
    keeps : NoWindowChain (put_device m d (Device.window w'))
    keeps d' t w1 v e mapped bad =
        ground (arith, c.is_w, ok t w, ok t v, c.chain d' t w1 w, c.chain d' t w1 v)

-- The address map plays no part.
chain_add :
    (m : Machine) (d addr dev : ℕ) (w : Window)
    → Chainless m d w
    → Chainless (add_device m addr dev).1 d w
unfolding add_device
chain_add m d addr dev w c = elim (Bool-cases (base_in_use m addr)) [
  | inl e ↦ rw (e, add_device) c
  | inr e ↦ rw (e, add_device) (record { chain = c.chain; is_w = c.is_w })
]

chain_remove :
    (m : Machine) (d addr : ℕ) (w : Window)
    → Chainless m d w
    → Chainless (remove_device m addr).1 d w
unfolding remove_device
chain_remove m d addr w c = elim (Option-cases (entry_at m.mapping addr)) [
  | inl e ↦ rw (e, remove_device) c
  | inr (x, e) ↦ rw (e, remove_device) (record { chain = c.chain; is_w = c.is_w })
]

is_window-false :
    (dev : Option Device) (v : Window) → is_window dev ≡ false → dev ≢ some (Device.window v)
unfolding is_window
is_window-false dev v e bad = cc (ap is_window bad)

disable-Chainless :
    (m : Machine) (d : ℕ) (w : Window)
    → Chainless m d w
    → Chainless (disable_window m d w).1 d (disable_window m d w).0
unfolding disable_window
disable-Chainless m d w c = elim (Bool-cases (is_mapped w)) [
  | inl e ↦
      rw (e, disable_window)
        (chain_put _ d w (unmapped w) (chain_remove m d _ w c) (λ t v bad. absurd (ground arith)))
  | inr e ↦ rw (e, disable_window) c
]

if-chain :
    (b : Bool) (p q : RefsiResult × Machine)
    → NoWindowChain p.1
    → NoWindowChain q.1
    → NoWindowChain (if b then p else q).1
if-chain true p q h k = h
if-chain false p q h k = k

target_ok :
    (m : Machine) (w : Window) (t off : ℕ)
    → is_window (m.devices t) ≡ false
    → (u : ℕ) (v : Window) → (mapped_to w t off).mapped_device ≡ some u
    → m.devices u ≢ some (Device.window v)
target_ok m w t off other u v same bad = ground (arith, is_window-false (m.devices t) v other)

enable-chain :
    (m : Machine) (d : ℕ) (w : Window) → Chainless m d w → NoWindowChain (enable_window m d w).1
unfolding enable_window
enable-chain m d w c = elim (Option-cases (find_device m.mapping w.config.target_address)) [
  | inl e ↦ rw (e, enable_window) c.chain
  | inr ((t, off), e) ↦ elim (Bool-cases (is_window (m.devices t))) [
    | inl win ↦ rw (e, enable_window, win) c.chain
    | inr other ↦
        rw (e, enable_window, other)
          (if-chain _ (RefsiResult.failure, m) _ c.chain
            (chain_add _ d _ d (mapped_to w t off)
              (chain_put m d w (mapped_to w t off) c (target_ok m w t off other))).chain)
  ]
]

update-chain :
    (m : Machine) (d : ℕ) (w : Window) (changed : Bool)
    → Chainless (put_device m d (Device.window w)) d w
    → NoWindowChain (update_mapping m d w changed).1
unfolding update_mapping
update-chain m d w changed c = elim (Bool-cases (not w.config.active || changed)) [
  | inl e ↦
      rw (e, update_mapping)
        (let c' = disable-Chainless (put_device m d (Device.window w)) d w c in
          if-chain _ _ _ (enable-chain _ d _ c') c'.chain)
  | inr e ↦ rw (e, update_mapping) (if-chain _ _ _ (enable-chain _ d w c) c.chain)
]

-- After any write to a configuration register of a window, no window of the machine is mapped to a
-- window, if none was before.
pub handle_reg_write-NoWindowChain :
    (m : Machine) (d : ℕ) (w : Window) (reg value : ℕ)
    → NoWindowChain m
    → m.devices d ≡ some (Device.window w)
    → NoWindowChain (handle_reg_write m d w reg value).1
unfolding handle_reg_write
handle_reg_write-NoWindowChain m d w reg value chain is_w =
    elim (Option-cases (write_config w reg value)) [
      | inl e ↦ rw (e, handle_reg_write) chain
      | inr ((config, changed), e) ↦
          rw (e, handle_reg_write)
            (update-chain m d (record w { config = config }) changed
              (chain_put m d w (record w { config = config })
                (record { chain = chain; is_w = is_w })
                (λ t v mapped bad. chain d t w v is_w mapped bad)))
    ]
