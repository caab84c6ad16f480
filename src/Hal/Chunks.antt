-- ===== src/Hal/Chunks.antt =====
-- The chunk that refsi_hal_device::mem_fill builds of its pattern.
use nupu_refsi.Prelude.{
  ℕ, zero, suc, ◌+◌, ◌-◌, ◌*◌, ◌%◌, ◌≤◌, ◌<◌, ◌≡◌, inl, inr, refl, sym, ap, ◌∙◌, ◌&&◌, List, [],
  ◌∷◌, ◌++◌, some, min, ltb, length, get_or, take, arith, length-append, Bool-cases,
}
use native.Mathlib.Nat.{mul-suc, mul-add-mod_self_left, mod-eq_of_lt}
use nupu_refsi.Hal.{CounterData, build_chunk}

get_or-append_left :
    (xs ys : List ℕ) (i : ℕ) → i < length xs → get_or (xs ++ ys) i 0 ≡ get_or xs i 0
get_or-append_left [] ys i p = absurd (omega (arith, p))
get_or-append_left (x ∷ xs) ys zero p = refl
get_or-append_left (x ∷ xs) ys (suc i) p = get_or-append_left xs ys i (omega (arith, p))

get_or-append_right :
    (xs ys : List ℕ) (i : ℕ) → length xs ≤ i → get_or (xs ++ ys) i 0 ≡ get_or ys (i - length xs) 0
get_or-append_right [] ys i p = ap (λ k. get_or ys k 0) (omega arith)
get_or-append_right (x ∷ xs) ys zero p = absurd (omega (arith, p))
get_or-append_right (x ∷ xs) ys (suc i) p =
    get_or-append_right xs ys i (omega (arith, p)) ∙ ap (λ k. get_or ys k 0) (omega arith)

pub get_or-take : (n : ℕ) (xs : List ℕ) (i : ℕ) → i < n → get_or (take n xs) i 0 ≡ get_or xs i 0
get_or-take zero xs i p = absurd (omega (arith, p))
get_or-take (suc n) [] i p = refl
get_or-take (suc n) (x ∷ xs) zero p = refl
get_or-take (suc n) (x ∷ xs) (suc i) p = get_or-take n xs i (omega (arith, p))

pub length-take : (n : ℕ) (xs : List ℕ) → n ≤ length xs → length (take n xs) ≡ n
length-take zero xs p = refl
length-take (suc n) [] p = absurd (omega (arith, p))
length-take (suc n) (x ∷ xs) p = ap suc (length-take n xs (omega (arith, p)))

-- The chunk is the pattern some number of times.
pub record Repeats (pattern chunk : List ℕ) : Type 0 where
  pub times : ℕ
  pub size : length chunk ≡ length pattern * times
  pub bytes : (i : ℕ) → i < length chunk → get_or chunk i 0 ≡ get_or pattern (i % length pattern) 0

pub Repeats-append :
    (pattern chunk : List ℕ)
    → 0 < length pattern
    → Repeats pattern chunk
    → Repeats pattern (chunk ++ pattern)
Repeats-append pattern chunk pos r =
    let k = length pattern in
    record {
      times = suc r.times;
      size = length-append chunk pattern ∙ omega (arith, r.size, mul-suc k r.times);
      bytes = λ i p. elim (Bool-cases (ltb i (length chunk))) [
        | inl old ↦
            get_or-append_left chunk pattern i (ground (arith, old))
            ∙ r.bytes i (ground (arith, old))
        | inr new ↦
            let past : length chunk ≤ i = ground (arith, new) in
            let below : i - length chunk < k =
              omega (arith, p, past, length-append chunk pattern) in
            let split : k * r.times + (i - length chunk) ≡ i = omega (arith, r.size, past) in
            get_or-append_right chunk pattern i past
            ∙ ap (λ z. get_or pattern z 0)
                (sym (mod-eq_of_lt below)
                  ∙ sym (mul-add-mod_self_left k r.times (i - length chunk))
                  ∙ ap (λ z. z % k) split)
      ];
    }

module _ {C : Type 0} (data_of : CounterData C) where
  -- The chunk is built, and reaches the size or 4096 bytes.
  pub build_chunk-Repeats :
      (fuel : ℕ) (pattern : List ℕ) (size : ℕ) (chunk : List ℕ)
      → 0 < length pattern
      → 4096 ≤ length chunk + fuel
      → Repeats pattern chunk
      → (result : List ℕ) × (build_chunk data_of fuel pattern size chunk ≡ some result)
        × Repeats pattern result
        × (min size 4096 ≤ length result)
  unfolding build_chunk
  build_chunk-Repeats zero pattern size chunk pos enough r =
      (chunk, ground (arith, enough), r, omega (arith, enough))
  build_chunk-Repeats (suc fuel) pattern size chunk pos enough r =
      elim (Bool-cases (ltb (length chunk) size && ltb (length chunk) 4096)) [
        | inl more ↦
            let (result, built, r', long) =
              build_chunk-Repeats fuel pattern size (chunk ++ pattern) pos
                (omega (arith, enough, pos, length-append chunk pattern))
                (Repeats-append pattern chunk pos r) in
            (result, rw (more, build_chunk) built, r', long)
        | inr done ↦ (chunk, rw (done, build_chunk) refl, r, ground (arith, done))
      ]
