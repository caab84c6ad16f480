-- ===== src/Bits/Digits.antt =====
-- The lowest binary digit of `&` and `|`, from the digit recursion that the native operations
-- stand for.
use Prim.Native.Nat.{digits, bitwise, bit_and-bitwise, bit_or-bitwise}
use nupu_refsi.Prelude.{
  ℕ, zero, suc, ◌+◌, ◌*◌, ◌/◌, ◌%◌, ◌≤◌, ◌≡◌, refl, min, max, arith, bit_and, bit_or,
}

module _ (rest : ℕ → ℕ) (join : ℕ → ℕ → ℕ) where
  -- The recursion halves its first number, so any two sufficient amounts of fuel agree.
  enough : (f g a b : ℕ) → a ≤ f → a ≤ g → digits rest join f a b ≡ digits rest join g a b
  enough zero zero zero b p q = refl
  enough (suc f) zero zero b p q = refl
  enough zero (suc g) zero b p q = refl
  enough (suc f) (suc g) zero b p q = refl
  enough zero g (suc a) b p q = absurd (omega arith)
  enough (suc f) zero (suc a) b p q = absurd (omega arith)
  enough (suc f) (suc g) (suc a) b p q =
      rw (enough f g (suc a / 2) (b / 2) (omega arith) (omega arith))

  low_digit :
      (a b : ℕ)
      → bitwise rest join (suc a) b
        ≡ bitwise rest join (suc a / 2) (b / 2) * 2 + join (suc a % 2) (b % 2)
  low_digit a b =
      omega (arith, enough a (suc a / 2) (suc a / 2) (b / 2) (omega arith) (omega arith))

pub bit_and_digit : (a b : ℕ) → bit_and a b ≡ bit_and (a / 2) (b / 2) * 2 + min (a % 2) (b % 2)
bit_and_digit zero b = simp bit_and-bitwise (omega arith)
bit_and_digit (suc a) b = simp bit_and-bitwise (low_digit (λ y. 0) min a b)

pub bit_or_digit : (a b : ℕ) → bit_or a b ≡ bit_or (a / 2) (b / 2) * 2 + max (a % 2) (b % 2)
bit_or_digit zero b = simp bit_or-bitwise (omega arith)
bit_or_digit (suc a) b = simp bit_or-bitwise (low_digit (λ y. y) max a b)
