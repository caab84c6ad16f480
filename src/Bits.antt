-- ===== src/Bits.antt =====
-- `&` and `|` of words as arithmetic on their fields, at every width. The native operations are
-- unknowns to the tactics; here they are cut at a bit position, where each half is on its own.
pub mod Digits
use Prim.Native.Nat.{bit_and-bitwise, bit_or-bitwise}
use native.Mathlib.Nat.{pow-suc, one-le-pow}
use nupu_refsi.Prelude.{
  ℕ, zero, suc, ◌+◌, ◌-◌, ◌*◌, ◌/◌, ◌%◌, ◌^◌, ◌≤◌, ◌<◌, ◌≡◌, refl, ap, min, max, arith, bit_and,
  bit_or,
}
use Digits.{bit_and_digit, bit_or_digit}

-- One more bit below the cut.
double : (a k : ℕ) → a * 2 ^ suc k ≡ 2 * (a * 2 ^ k)
double a k = omega (arith, ap (λ (t : ℕ). a * t) (pow-suc 2 k))

half_cut :
    (a k b : ℕ) → ((a * 2 ^ suc k + b) / 2 ≡ a * 2 ^ k + b / 2) × ((a * 2 ^ suc k + b) % 2 ≡ b % 2)
half_cut a k b = omega (arith, double a k)

pub bit_and_cut :
    (k a c b d : ℕ)
    → b < 2 ^ k
    → d < 2 ^ k
    → bit_and (a * 2 ^ k + b) (c * 2 ^ k + d) ≡ bit_and a c * 2 ^ k + bit_and b d
bit_and_cut zero a c b d p q = ground arith
bit_and_cut (suc k) a c b d p q = ground (
  arith,
  bit_and_digit (a * 2 ^ suc k + b) (c * 2 ^ suc k + d),
  half_cut a k b,
  half_cut c k d,
  bit_and_cut k a c (b / 2) (d / 2),
  bit_and_digit b d,
  double (bit_and a c) k,
  pow-suc 2 k,
)

pub bit_or_cut :
    (k a c b d : ℕ)
    → b < 2 ^ k
    → d < 2 ^ k
    → bit_or (a * 2 ^ k + b) (c * 2 ^ k + d) ≡ bit_or a c * 2 ^ k + bit_or b d
bit_or_cut zero a c b d p q = ground arith
bit_or_cut (suc k) a c b d p q = ground (
  arith,
  bit_or_digit (a * 2 ^ suc k + b) (c * 2 ^ suc k + d),
  half_cut a k b,
  half_cut c k d,
  bit_or_cut k a c (b / 2) (d / 2),
  bit_or_digit b d,
  double (bit_or a c) k,
  pow-suc 2 k,
)

-- Nothing is in common with zero, and zero adds nothing; by halves.
zero_on_right : (bound a : ℕ) → a ≤ bound → (bit_and a 0 ≡ 0) × (bit_or a 0 ≡ a)
zero_on_right bound zero small = (refl, refl)
zero_on_right zero (suc a) small = absurd (omega arith)
zero_on_right (suc bound) (suc a) small =
    let (none_left, all_left) = zero_on_right bound (suc a / 2) (omega arith) in
    (
      omega (arith, bit_and_digit (suc a) 0, none_left),
      omega (arith, bit_or_digit (suc a) 0, all_left),
    )

pub bit_and-zero : (a : ℕ) → bit_and a 0 ≡ 0
bit_and-zero a = (zero_on_right a a (omega arith)).0

pub bit_or-zero : (a : ℕ) → bit_or a 0 ≡ a
bit_or-zero a = (zero_on_right a a (omega arith)).1

pub zero-bit_or : (a : ℕ) → bit_or 0 a ≡ a
zero-bit_or a = bit_or-bitwise 0 a

pub zero-bit_and : (a : ℕ) → bit_and 0 a ≡ 0
zero-bit_and a = bit_and-bitwise 0 a

-- A number of k bits is not changed by k ones.
bit_and_ones : (k r : ℕ) → r < 2 ^ k → bit_and r (2 ^ k - 1) ≡ r
bit_and_ones zero r h = ground arith
bit_and_ones (suc k) r h =
    ground
      (arith, bit_and_digit r (2 ^ suc k - 1), pow-suc 2 k, one-le-pow k 2, bit_and_ones k (r / 2))

-- `a & (2^k - 1)` keeps the k lowest bits.
pub bit_and_mask : (k a : ℕ) → bit_and a (2 ^ k - 1) ≡ a % 2 ^ k
bit_and_mask k a = ground (
  arith,
  one-le-pow k 2,
  bit_and_cut k (a / 2 ^ k) 0 (a % 2 ^ k) (2 ^ k - 1),
  bit_and-zero (a / 2 ^ k),
  bit_and_ones k (a % 2 ^ k),
)

-- A mask that is shifted by k looks only at the bits from k on.
pub bit_and_shifted : (k a m : ℕ) → bit_and a (m * 2 ^ k) ≡ bit_and (a / 2 ^ k) m * 2 ^ k
bit_and_shifted k a m =
    ground
      (arith, one-le-pow k 2, bit_and_cut k (a / 2 ^ k) m (a % 2 ^ k) 0, bit_and-zero (a % 2 ^ k))

-- `(q << k) | r` is a sum where r fits below the shift.
pub bit_or_below : (k q r : ℕ) → r < 2 ^ k → bit_or (q * 2 ^ k) r ≡ q * 2 ^ k + r
bit_or_below k q r h =
    ground (arith, one-le-pow k 2, bit_or_cut k q 0 0 r, bit_or-zero q, zero-bit_or r)

-- `r | (q << k)`, the other way round.
pub bit_or_above : (k q r : ℕ) → r < 2 ^ k → bit_or r (q * 2 ^ k) ≡ q * 2 ^ k + r
bit_or_above k q r h =
    ground (arith, one-le-pow k 2, bit_or_cut k 0 q r 0, zero-bit_or q, bit_or-zero r)
