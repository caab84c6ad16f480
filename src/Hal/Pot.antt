-- ===== src/Hal/Pot.antt =====
-- round_up_pot (hal_refsi/source/refsi_hal.cpp) gives the least power of two.
use nupu_refsi.Prelude.{
  ℕ, zero, suc, ◌+◌, ◌-◌, ◌*◌, ◌/◌, ◌%◌, ◌^◌, ◌≤◌, ◌<◌, ◌≡◌, ◌⊎◌, inl, inr, refl, sym, ap, ◌∙◌, ltb,
  bit_or, add64, sub64, arith, Bool-cases,
}
use native.Mathlib.Nat.{
  mul_assoc, pow-succ', mul_comm, mul-suc, mul-sub, mul-le-mul_right, le-mul_of_pos_right,
  le-div_iff_mul-le, mod-lt, mod-add-div', div-eq_of_lt,
}
use nupu_refsi.Bits.{bit_or_cut, bit_or-zero}
use nupu_refsi.Bits.Digits.{bit_or_digit}
use nupu_refsi.Hal.Args.{smear, round_up_pot}

-- Both bounds of a bitwise or of n-bit numbers.
le-bit_or : (n a b : ℕ) → b < 2 ^ n → b ≤ bit_or a b
le-bit_or zero a b p = omega (arith, p)
le-bit_or (suc n) a b p =
    omega (arith, bit_or_digit a b, le-bit_or n (a / 2) (b / 2) (omega (arith, p)))

bit_or-lt : (n a b : ℕ) → a < 2 ^ n → b < 2 ^ n → bit_or a b < 2 ^ n
bit_or-lt zero a b p q =
    let za : a ≡ 0 = omega (arith, p) in
    let zb : b ≡ 0 = omega (arith, q) in rw (za, zb) (omega arith)
bit_or-lt (suc n) a b p q =
    omega
      (arith, bit_or_digit a b, bit_or-lt n (a / 2) (b / 2) (omega (arith, p)) (omega (arith, q)))

pow_add : (a b : ℕ) → 2 ^ (a + b) ≡ 2 ^ a * 2 ^ b
pow_add zero b =
    let none_added : 0 + b ≡ b = omega arith in ap (λ z. 2 ^ z) none_added ∙ omega arith
pow_add (suc a) b =
    let next : suc a + b ≡ suc (a + b) = omega arith in
    ap (λ z. 2 ^ z) next
    ∙ omega (arith, pow_add a b, mul_assoc 2 (2 ^ a) (2 ^ b), ap (λ z. z * 2 ^ b) (pow-succ' 2 a))

pow_pos : (a : ℕ) → 0 < 2 ^ a
pow_pos zero = omega arith
pow_pos (suc a) = omega (arith, pow_pos a)

le-pow : (a b : ℕ) → a ≤ b → 2 ^ a ≤ 2 ^ b
le-pow a b p =
    let split : 2 ^ b ≡ 2 ^ a * 2 ^ (b - a) =
      ap (λ z. 2 ^ z) (omega (arith, p)) ∙ pow_add a (b - a) in
    omega (arith, split, le-mul_of_pos_right {m = 2 ^ (b - a)} (2 ^ a) (pow_pos (b - a)))

-- The quotient of a number that is nearly a * b.
quotient_bound :
    (a b c x : ℕ) → 0 < b → a * b ≤ x + a → (c * b ≡ a) ⊎ ((c ≡ 1) × (a ≤ b)) → a ≤ x / b + c
quotient_bound a b c x pos near which =
    let room : (a - c) * b ≤ x = elim which [
      | inl e ↦
          omega (arith, mul_comm (a - c) b, mul-sub b a c, mul_comm a b, mul_comm c b, e, near)
      | inr (one, le) ↦
          omega
            (arith, mul_comm (a - c) b, mul-sub b a c, mul_comm a b, ap (λ z. b * z) one, le, near)
    ] in
    omega (arith, (le-div_iff_mul-le pos).1 room)

suc_mul : (a b : ℕ) → suc a * b ≡ a * b + b
suc_mul a b = mul_comm (suc a) b ∙ mul-suc b a ∙ ap (λ z. z + b) (mul_comm b a)

top_quotient : (m j x : ℕ) → 2 ^ j * 2 ^ m ≤ x + 2 ^ m → 2 ^ j ≤ suc (x / 2 ^ m)
top_quotient m j x p =
    let room : (2 ^ j - 1) * 2 ^ m ≤ x =
      omega (arith, p, pow_pos j, suc_mul (2 ^ j - 1) (2 ^ m), ap (λ z. z * 2 ^ m) (whole j)) in
    omega (arith, (le-div_iff_mul-le {k = 2 ^ m} {x = 2 ^ j - 1} {y = x} (pow_pos m)).1 room)
  where
    whole : (j : ℕ) → suc (2 ^ j - 1) ≡ 2 ^ j
    whole j = omega (arith, pow_pos j)

-- The top j bits of the n-bit number x are ones.
record Ones (n j x : ℕ) : Type 0 where
  below : x < 2 ^ n
  ones : 2 ^ n ≤ x + 2 ^ (n - j)

Ones-smear : (n j x : ℕ) → 0 < j → j ≤ n → Ones n j x → Ones n (j + j) (smear x j)
Ones-smear n j x pos le o =
    let m = n - j in
    let split : 2 ^ n ≡ 2 ^ m * 2 ^ j = ap (λ z. 2 ^ z) (omega (arith, le)) ∙ pow_add m j in
    let split_ones : 2 ^ j * 2 ^ m ≤ x + 2 ^ m =
      omega (arith, split, mul_comm (2 ^ m) (2 ^ j), o.ones) in
    let less : n - (j + j) ≡ m - j = omega arith in
    let y = x / 2 ^ j in
    let y_below : y < 2 ^ m = elim (Bool-cases (ltb y (2 ^ m))) [
      | inl small ↦ ground (arith, small)
      | inr big ↦ absurd (
          omega (
            arith,
            (le-div_iff_mul-le {k = 2 ^ j} {x = 2 ^ m} {y = x} (pow_pos j)).0 (ground (arith, big)),
            split,
            o.below,
          ))
    ] in
    let cut : smear x j ≡ x / 2 ^ m * 2 ^ m + bit_or (x % 2 ^ m) y =
      let parts : x / 2 ^ m * 2 ^ m + x % 2 ^ m ≡ x = omega (arith, mod-add-div' x (2 ^ m)) in
      ap (λ z. bit_or z y) (sym parts)
      ∙ ap (bit_or (x / 2 ^ m * 2 ^ m + x % 2 ^ m)) (omega arith)
      ∙ bit_or_cut m (x / 2 ^ m) 0 (x % 2 ^ m) y (mod-lt x (pow_pos m)) y_below
      ∙ ap (λ z. z * 2 ^ m + bit_or (x % 2 ^ m) y) (bit_or-zero (x / 2 ^ m)) in
    let y_big : 2 ^ m ≤ y + 2 ^ (m - j) =
      quotient_bound (2 ^ m) (2 ^ j) (2 ^ (m - j)) x (pow_pos j) (omega (arith, split, o.ones))
        (elim (Bool-cases (ltb m j)) [
          | inl short ↦
              let none_left : m - j ≡ 0 = ground (arith, short) in
              inr (ap (λ z. 2 ^ z) none_left, le-pow m j (ground (arith, short)))
          | inr long ↦
              let back : (m - j) + j ≡ m = ground (arith, long) in
              inl (sym (pow_add (m - j) j) ∙ ap (λ z. 2 ^ z) back)
        ]) in
    let high : 2 ^ n ≤ x / 2 ^ m * 2 ^ m + 2 ^ m = omega (
      arith,
      split,
      mul_comm (2 ^ m) (2 ^ j),
      pow_pos j,
      mul-le-mul_right {m = 2 ^ j} {n = suc (x / 2 ^ m)} (2 ^ m) (top_quotient m j x split_ones),
      suc_mul (x / 2 ^ m) (2 ^ m),
    ) in
    record {
      below = bit_or-lt n x y o.below (omega (arith, y_below, le-pow m n (omega arith)));
      ones =
          omega (arith, cut, high, y_big, le-bit_or m (x % 2 ^ m) y y_below, ap (λ z. 2 ^ z) less);
    }

-- A positive number has a highest bit.
highest_bit : (k x : ℕ) → 0 < x → x < 2 ^ k → (n : ℕ) × (n < k) × (2 ^ n ≤ x) × (x < 2 ^ suc n)
highest_bit zero x pos small = absurd (omega (arith, pos, small))
highest_bit (suc k) x pos small = elim (Bool-cases (ltb x (2 ^ k))) [
  | inl below ↦
      let (n, n_below, low, high) = highest_bit k x pos (ground (arith, below)) in
      (n, omega (arith, n_below), low, high)
  | inr above ↦ (k, omega arith, ground (arith, above), small)
]

-- The smears by 1, 2, 4, 8, 16 and 32 leave ones only.
unfoldable all_smears : ℕ → ℕ
all_smears x = smear (smear (smear (smear (smear (smear x 1) 2) 4) 8) 16) 32

-- A smear of a number whose top bits, or all of whose bits, are ones.
Ones-next : (n j x : ℕ) → 0 < j → Ones n j x → Ones n (j + j) (smear x j)
Ones-next n j x pos o = elim (Bool-cases (ltb n j)) [
  | inl all ↦
      let shifted : x < 2 ^ j = omega (arith, o.below, le-pow n j (ground (arith, all))) in
      let same : smear x j ≡ x = ap (bit_or x) (div-eq_of_lt shifted) ∙ bit_or-zero x in
      let one_left : n - j ≡ n - (j + j) = ground (arith, all) in
      record {
        below = rw same o.below;
        ones = rw same (omega (arith, o.ones, ap (λ z. 2 ^ z) one_left));
      }
  | inr some_of ↦ Ones-smear n j x pos (ground (arith, some_of)) o
]

all_smears_lem : (n x : ℕ) → n < 64 → 2 ^ n ≤ x → x < 2 ^ suc n → all_smears x ≡ 2 ^ suc n - 1
unfolding all_smears
all_smears_lem n x small low high =
    let half : suc n - 1 ≡ n = omega arith in
    let start : Ones (suc n) 1 x = record {
      below = high;
      ones = omega (arith, low, ap (λ z. 2 ^ z) half);
    } in
    let s1 = Ones-next (suc n) 1 x (omega arith) start in
    let s2 = Ones-next (suc n) 2 _ (omega arith) s1 in
    let s4 = Ones-next (suc n) 4 _ (omega arith) s2 in
    let s8 = Ones-next (suc n) 8 _ (omega arith) s4 in
    let s16 = Ones-next (suc n) 16 _ (omega arith) s8 in
    let s32 = Ones-next (suc n) 32 _ (omega arith) s16 in
    let none_left : suc n - 64 ≡ 0 = omega (arith, small) in
    omega (arith, s32.below, s32.ones, ap (λ z. 2 ^ z) none_left)

-- A power of two bounds no smaller one.
pow_bound : (n m x : ℕ) → 2 ^ n ≤ x → x < 2 ^ m → n < m
pow_bound n m x low high = elim (Bool-cases (ltb n m)) [
  | inl below ↦ ground (arith, below)
  | inr above ↦ absurd (omega (arith, le-pow m n (ground (arith, above)), low, high))
]

-- round_up_pot gives the least power of two that is not below its argument, from 1 to 2 ^ 63.
pub round_up_pot_lem :
    (v : ℕ)
    → 1 ≤ v
    → v ≤ 2 ^ 63
    → (n : ℕ) × (round_up_pot v ≡ 2 ^ n) × (v ≤ 2 ^ n) × ((m : ℕ) → v ≤ 2 ^ m → n ≤ m)
unfolding round_up_pot all_smears
round_up_pot_lem v low high = elim (Bool-cases (ltb 1 v)) [
  | inr one_only ↦
      let one : v ≡ 1 = ground (arith, one_only, low) in
      (0, rw one refl, omega (arith, one), λ m p. omega arith)
  | inl more ↦
      let two : 2 ≤ v = ground (arith, more) in
      let (n, small, below, above) =
        highest_bit 63 (v - 1) (omega (arith, two)) (omega (arith, low, high)) in
      let before : sub64 v 1 ≡ v - 1 = omega (arith, low, high) in
      let ones : all_smears (sub64 v 1) ≡ 2 ^ suc n - 1 =
        ap all_smears before ∙ all_smears_lem n (v - 1) (omega (arith, small)) below above in
      let room : 2 ^ suc n ≤ 2 ^ 63 = le-pow (suc n) 63 (omega (arith, small)) in
      (
        suc n,
        ap (λ z. add64 z 1) ones ∙ omega (arith, room, pow_pos (suc n)),
        omega (arith, above),
        λ m p. pow_bound n m (v - 1) below (omega (arith, p, low)),
      )
]
