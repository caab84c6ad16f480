-- ===== src/Hal/Windows.antt =====
-- Memory windows as the host sets them up: refsi_m1_hal_device::createWindow
-- (hal_refsi/source/refsi_hal_m1.cpp), and what the driver's windows make of the register values.
use nupu_refsi.Prelude.{
  ℕ, ◌+◌, ◌-◌, ◌*◌, ◌/◌, ◌^◌, ◌≤◌, ◌≡◌, ◌⊎◌, inl, inr, refl, sym, ap, subst, ◌∙◌, true, List, [],
  ◌∷◌, Option, none, some, ltb, if◌then◌else◌, bit_and, bit_or, u64, sub64, Bool-cases, le→ltb,
  add64, shl, shr, arith,
}
use nupu_refsi.Bits.{bit_or_above, bit_and_mask, bit_and_shifted}
use nupu_refsi.Config.{
  reg_window_base0, reg_window_target0, reg_window_mode0, reg_window_scale0, window_mode_shared,
  window_mode_per_hart,
}
use nupu_refsi.Machine.{WindowConfig}
use nupu_refsi.Pointers.{get_scale}
use nupu_refsi.Window.{window_active, window_mode, window_size}
use nupu_refsi.CommandBuffer.{Command, add_write_reg64, add, add_all}

-- The value for the mode register.
unfoldable pub window_mode_value : ℕ → ℕ → ℕ
window_mode_value mode size =
    bit_or (bit_or 0x1 (bit_and mode 0x6)) (u64 (shl (bit_and (sub64 size 1) 0xffffffff) 32))

-- The value for the scale register, by the two factors of the scale.
unfoldable pub window_scale_value : ℕ → ℕ
window_scale_value scale =
    let scale_a = if ltb 0 scale then 1 else 0 in
    let scale_b = if ltb 0 scale then scale - 1 else 0 in
    bit_or (bit_and scale_a 0x1f) (u64 (shl scale_b 32))

-- refsi_m1_hal_device::createWindow; `none` is the result false.
unfoldable pub create_window : List ℕ → ℕ → ℕ → ℕ → ℕ → ℕ → ℕ → Option (List ℕ)
create_window cb win_id mode base target scale size =
    if ltb (2 ^ 32) scale
    then none
    else let with_base = add_write_reg64 cb (reg_window_base0 + win_id) base in
      let with_target = add_write_reg64 with_base (reg_window_target0 + win_id) target in
      let with_scale =
        add_write_reg64 with_target (reg_window_scale0 + win_id) (window_scale_value scale) in
      some (add_write_reg64 with_scale (reg_window_mode0 + win_id) (window_mode_value mode size))

-- The mode register's fields, as a sum.
mode_value_sum :
    (mode size : ℕ)
    → (mode ≡ window_mode_shared) ⊎ (mode ≡ window_mode_per_hart)
    → 1 ≤ size
    → size ≤ 2 ^ 32
    → window_mode_value mode size ≡ (size - 1) * 2 ^ 32 + (1 + mode)
unfolding window_mode_value
mode_value_sum mode size m low high =
    let field : u64 (shl (bit_and (sub64 size 1) 0xffffffff) 32) ≡ (size - 1) * 2 ^ 32 =
      rw (bit_and_mask 32 (sub64 size 1)) (omega (arith, low, high)) in
    elim m [
      | inl shared ↦ rw (shared, field, bit_or_above 32 (size - 1) 1 (omega arith)) refl
      | inr per_hart ↦ rw (per_hart, field, bit_or_above 32 (size - 1) 3 (omega arith)) refl
    ]

scale_value_sum :
    (scale : ℕ) → 1 ≤ scale → scale ≤ 2 ^ 32 → window_scale_value scale ≡ (scale - 1) * 2 ^ 32 + 1
unfolding window_scale_value
scale_value_sum scale low high =
    let positive : ltb 0 scale ≡ true = ground (arith, low) in
    let field : u64 (shl (scale - 1) 32) ≡ (scale - 1) * 2 ^ 32 = omega (arith, low, high) in
    rw (positive, field, bit_or_above 32 (scale - 1) 1 (omega arith)) refl

-- The mode register of a window gives back what the window was created with: it is active, and has
-- its mode and size. For the two modes and sizes from 1 to 2 ^ 32.
window_mode_lem :
    (mode size : ℕ)
    → (mode ≡ window_mode_shared) ⊎ (mode ≡ window_mode_per_hart)
    → 1 ≤ size
    → size ≤ 2 ^ 32
    → (window_active (window_mode_value mode size) ≡ true)
      × (window_mode (window_mode_value mode size) ≡ mode)
      × (window_size (window_mode_value mode size) ≡ size)
window_mode_lem mode size m low high =
    let v = window_mode_value mode size in
    let sum = mode_value_sum mode size m low high in
    let small : (mode ≡ 0) ⊎ (mode ≡ 2) = m in
    let bit : bit_and v 0x1 ≡ 1 =
      bit_and_mask 1 v
      ∙ elim small [ inl e ↦ omega (arith, e, sum) | inr e ↦ omega (arith, e, sum) ] in
    let bits : bit_and v 0x6 ≡ mode =
      bit_and_shifted 1 v 3
      ∙ ap (λ z. z * 2 ^ 1) (bit_and_mask 2 (v / 2 ^ 1))
      ∙ elim small [ inl e ↦ omega (arith, e, sum) | inr e ↦ omega (arith, e, sum) ] in
    let sized : add64 (shr v 32) 1 ≡ size = elim small [
      | inl e ↦ omega (arith, e, sum, low, high)
      | inr e ↦ omega (arith, e, sum, low, high)
    ] in
    (ground (arith, bit), bits, sized)

-- The scale register gives back the scale, for scales up to 2 ^ 32.
window_scale_lem :
    (scale : ℕ) (config : WindowConfig)
    → scale ≤ 2 ^ 32
    → get_scale (record config {
      scale_a = bit_and (window_scale_value scale) 0x1f;
      scale_b = shr (window_scale_value scale) 32;
    })
      ≡ scale
unfolding get_scale window_scale_value
window_scale_lem scale config high = elim (Bool-cases (ltb 0 scale)) [
  | inl positive ↦
      let v = window_scale_value scale in
      let low : 1 ≤ scale = ground (arith, positive) in
      let sum = scale_value_sum scale low high in
      let one : bit_and v 0x1f ≡ 1 = bit_and_mask 5 v ∙ omega (arith, sum) in
      let rest : shr v 32 ≡ scale - 1 = omega (arith, sum) in
      rw (one, rest, get_scale) (omega (arith, low, high))
  | inr none_of ↦
      let zero_scale : scale ≡ 0 = ground (arith, none_of) in
      subst
        (λ k.
          get_scale (record config {
            scale_a = bit_and (window_scale_value k) 0x1f;
            scale_b = shr (window_scale_value k) 32;
          })
          ≡ k)
        (sym zero_scale) refl
]

-- createWindow succeeds and adds the writes of the window's four registers. What the driver's window
-- reads back from the mode and scale registers is what the window was created with: it is active,
-- and has the mode, size and scale. For the two modes, sizes from 1 to 2 ^ 32, and scales up to
-- 2 ^ 32.
pub create_window_lem :
    (cb : List ℕ) (win_id mode base target scale size : ℕ) (config : WindowConfig)
    → (mode ≡ window_mode_shared) ⊎ (mode ≡ window_mode_per_hart)
    → 1 ≤ size
    → size ≤ 2 ^ 32
    → scale ≤ 2 ^ 32
    → (scale_val : ℕ) × (mode_val : ℕ) × (create_window cb win_id mode base target scale size
        ≡ some (
            add_all cb (
              Command.write_reg64 (reg_window_base0 + win_id) base
              ∷ Command.write_reg64 (reg_window_target0 + win_id) target
              ∷ Command.write_reg64 (reg_window_scale0 + win_id) scale_val
              ∷ Command.write_reg64 (reg_window_mode0 + win_id) mode_val
              ∷ [])))
      × (window_active mode_val ≡ true)
      × (window_mode mode_val ≡ mode)
      × (window_size mode_val ≡ size)
      × (get_scale (record config { scale_a = bit_and scale_val 0x1f; scale_b = shr scale_val 32 })
          ≡ scale)
unfolding create_window add_all add
create_window_lem cb win_id mode base target scale size config m low high small =
    let (active, mode_back, size_back) = window_mode_lem mode size m low high in
    (
      window_scale_value scale,
      window_mode_value mode size,
      rw (le→ltb (2 ^ 32) scale small, create_window) refl,
      active,
      mode_back,
      size_back,
      window_scale_lem scale config small,
    )
