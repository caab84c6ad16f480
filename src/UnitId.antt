-- ===== src/UnitId.antt =====
-- Identifiers of execution units (driver/include/common/common_devices.h).
use nupu_refsi.Prelude.{ℕ, ◌*◌, ◌/◌, ◌^◌, ◌+◌, ◌<◌, ◌≡◌, bit_and, bit_or, shl, shr, u16, u32, arith}
use nupu_refsi.Bits.{bit_or_below, bit_and_mask, bit_and_shifted}

-- enum class unit_kind
abbrev pub kind_any : ℕ
kind_any = 0

abbrev pub kind_external : ℕ
kind_external = 1

abbrev pub kind_cmp : ℕ
kind_cmp = 2

abbrev pub kind_acc_hart : ℕ
kind_acc_hart = 3

-- A kind shifted into the highest byte, over a 16-bit index.
unfoldable pub make_unit : ℕ → ℕ → ℕ
make_unit kind index = bit_or (u32 (shl kind 24)) (u16 index)

unfoldable pub get_unit_kind : ℕ → ℕ
get_unit_kind unit = shr (bit_and unit 0xff000000) 24

unfoldable pub get_unit_index : ℕ → ℕ
get_unit_index unit = u16 (bit_and unit 0xffff)

make_unit_sum : (kind index : ℕ) → kind < 2 ^ 8 → make_unit kind index ≡ kind * 2 ^ 24 + u16 index
unfolding make_unit
make_unit_sum kind index h = ground (arith, bit_or_below 24 kind (u16 index))

-- A unit of a one-byte kind and a 16-bit index has that kind and that index.
pub unit_fields :
    (kind index : ℕ)
    → kind < 2 ^ 8
    → index < 2 ^ 16
    → (get_unit_kind (make_unit kind index) ≡ kind)
      × (get_unit_index (make_unit kind index) ≡ index)
unfolding get_unit_kind get_unit_index
unit_fields kind index hk hi = ground (
  arith,
  make_unit_sum kind index,
  bit_and_shifted 24 (make_unit kind index) 255,
  bit_and_mask 8 (make_unit kind index / 2 ^ 24),
  bit_and_mask 16 (make_unit kind index),
)
