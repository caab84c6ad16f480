-- ===== src/Hal/Fill.antt =====
-- refsi_hal_device::mem_fill: the pattern, over and over, fills the range.
use nupu_refsi.Prelude.{
  ℕ, zero, suc, ◌+◌, ◌-◌, ◌*◌, ◌%◌, ◌≤◌, ◌<◌, ◌≡◌, inl, inr, refl, sym, ap, subst, ◌∙◌, true, false,
  List, [], some, min, leb, add64, length, get_or, take, arith, Bool-cases, if_ind, option_ind,
  get_elem?, le→leb,
}
use native.Mathlib.Nat.{mul-suc, le-mul_of_pos_right, mul-add-mod_self_left, mul-sub}
use nupu_refsi.Machine.{Machine}
use nupu_refsi.Access.{store}
use nupu_refsi.DeviceApi.{write_device_memory}
use nupu_refsi.Region.{Region}
use nupu_refsi.Region.Ram.{controller}
use nupu_refsi.Region.Filled.{Filled, nothing-Filled, then-Filled, store_fills}
use nupu_refsi.Hal.Chunks.{Repeats, get_or-take, length-take, build_chunk-Repeats}
use nupu_refsi.Hal.{
  CounterData, Hal, count, mem_write, fill_loop, mem_fill, external_unit, ctr_host_mem_write,
}

module _ {C : Type 0} (data_of : CounterData C) where
  count-device : (s : Hal C) (id value : ℕ) → (count data_of s id value).device ≡ s.device
  unfolding count
  count-device s id value =
      if_ind (λ (r : Hal C). r.device ≡ s.device) s.counters_enabled _ _
        (λ _.
          option_ind (λ (r : Hal C). r.device ≡ s.device) (get_elem? s.host_counter_data id) _ _
            refl (λ c _. refl))
        (λ _. refl)

  -- A write of n bytes that the memory takes.
  mem_write_store :
      (s : Hal C) (dst n : ℕ) (bytes : List ℕ) (m : Machine)
      → store s.device dst n bytes external_unit ≡ some (true, m)
      → (s' : Hal C) × (mem_write data_of s dst (some bytes) n ≡ some (true, s')) × (s'.device ≡ m)
  unfolding mem_write write_device_memory
  mem_write_store s dst n bytes m stored = (
    count data_of (record s { device = m }) ctr_host_mem_write n,
    rw (stored, mem_write, write_device_memory) refl,
    count-device (record s { device = m }) ctr_host_mem_write n,
  )

  module _ (lo hi : ℕ) (region : Region controller lo hi) (pattern chunk : List ℕ)
      (pos : 0 < length pattern) (r : Repeats pattern chunk) where
    fill_done :
        (fuel : ℕ) (s : Hal C) (a : ℕ)
        → fill_loop data_of fuel s a chunk (length pattern) 0 ≡ some (true, s, 0)
    unfolding fill_loop
    fill_done zero s a = ground (arith, pos)
    fill_done (suc fuel) s a =
        let stop : leb (length pattern) 0 ≡ false = ground (arith, pos) in rw (stop, fill_loop) refl

    -- What a round writes is again whole patterns.
    whole_patterns :
        (j size : ℕ)
        → size ≡ length pattern * j
        → (m : ℕ) × (min size (length chunk) ≡ length pattern * m)
    whole_patterns j size e = elim (Bool-cases (leb size (length chunk))) [
      | inl all ↦ (j, ground (arith, all, e))
      | inr some_of ↦ (r.times, ground (arith, some_of, r.size))
    ]

    later :
        (k m x a w : ℕ)
        → w ≡ k * m
        → a + w ≤ x
        → get_or pattern ((x - (a + w)) % k) 0 ≡ get_or pattern ((x - a) % k) 0
    later k m x a w patterns p =
        ap (λ z. get_or pattern z 0)
          (sym (mul-add-mod_self_left k m (x - (a + w)))
            ∙ ap (λ z. z % k) (omega (arith, p, patterns)))

    -- A round of the loop.
    fill_on :
        (fuel : ℕ) (s s1 : Hal C) (a size : ℕ)
        → leb (length pattern) size ≡ true
        → mem_write data_of s a
            (some (take (min size (length chunk)) chunk))
            (min size (length chunk))
          ≡ some (true, s1)
        → fill_loop data_of (suc fuel) s a chunk (length pattern) size
          ≡ fill_loop data_of fuel s1
              (add64 a (min size (length chunk)))
              chunk
              (length pattern)
              (size - min size (length chunk))
    unfolding fill_loop
    fill_on fuel s s1 a size go wrote = rw (go, wrote, fill_loop) refl

    fill_loop_lem :
        (fuel j : ℕ) (s : Hal C) (a b size : ℕ) (f : ℕ → ℕ)
        → size ≤ fuel
        → size ≡ length pattern * j
        → min size 4096 ≤ length chunk
        → region.Ok s.device
        → lo ≤ a
        → b ≤ hi
        → a + size ≡ b
        → ((x : ℕ) → a ≤ x → x < b → get_or pattern ((x - a) % length pattern) 0 ≡ f x)
        → (s' : Hal C) × (fill_loop data_of fuel s a chunk (length pattern) size
            ≡ some (true, s', 0))
          × Filled controller lo hi region s.device s'.device f a b
    unfolding fill_loop
    fill_loop_lem fuel zero s a b size f enough whole long ok la bh e same =
        let none_left : size ≡ 0 = omega (arith, whole) in
        (
          s,
          subst (λ z. fill_loop data_of fuel s a chunk (length pattern) z ≡ some (true, s, 0))
              (sym none_left) (fill_done fuel s a),
          subst (λ z. Filled controller lo hi region s.device s.device f a z)
              (omega (arith, none_left, e))
              (nothing-Filled controller lo hi region s.device f a ok),
        )
    fill_loop_lem zero (suc j) s a b size f enough whole long ok la bh e same =
        absurd (omega (arith, enough, whole, pos, mul-suc (length pattern) j))
    fill_loop_lem (suc fuel) (suc j) s a b size f enough whole long ok la bh e same =
        let k = length pattern in
        let w = min size (length chunk) in
        let (m, patterns) = whole_patterns (suc j) size whole in
        let enough_left : k ≤ size =
          omega (arith, whole, le-mul_of_pos_right {m = suc j} k (omega arith)) in
        let (t, stored, first) =
          store_fills controller lo hi region s.device f a w (a + w) (take w chunk) external_unit ok
            la (omega (arith, bh, e)) refl (length-take w chunk (omega arith))
            (λ x p q.
              get_or-take w chunk (x - a) (omega (arith, p, q))
              ∙ r.bytes (x - a) (omega (arith, p, q))
              ∙ same x p (omega (arith, q, e))) in
        let (s1, wrote, device) = mem_write_store s a w (take w chunk) t stored in
        let next : add64 a w ≡ a + w = omega (arith, bh, e, region.small) in
        let (s', run, rest) =
          fill_loop_lem fuel (suc j - m) s1 (a + w) b (size - w) f
            (omega (arith, enough, enough_left, pos, long))
            (omega (arith, whole, patterns, mul-sub k (suc j) m)) (omega (arith, long))
            (subst region.Ok (sym device) first.ok) (omega (arith, la)) bh (omega (arith, e))
            (λ x p q. later k m x a w patterns p ∙ same x (omega (arith, p)) q) in
        (
          s',
          fill_on fuel s s1 a size (le→leb k size enough_left) wrote
              ∙ subst (λ z. fill_loop data_of fuel s1 z chunk k (size - w) ≡ some (true, s', 0))
                  (sym next) run,
          then-Filled controller lo hi region s.device t s'.device f a (a + w) b la (omega arith)
              (omega (arith, e)) bh first
              (subst (λ z. Filled controller lo hi region z s'.device f (a + w) b) device rest),
        )

  -- mem_fill of a whole number of patterns succeeds, and fills its range: every byte is the pattern's
  -- byte at that distance, and the rest of the region is unchanged. For a pattern that is not empty
  -- and a range in plain memory.
  pub mem_fill_lem :
      (lo hi : ℕ) (region : Region controller lo hi) (s : Hal C) (dst : ℕ) (pattern : List ℕ)
      (n : ℕ)
      → 0 < length pattern
      → region.Ok s.device
      → lo ≤ dst
      → dst + length pattern * n ≤ hi
      → (s' : Hal C) × (mem_fill data_of s dst (some pattern) (length pattern * n)
          ≡ some (true, s'))
        × Filled controller lo hi region s.device s'.device
            (λ x. get_or pattern ((x - dst) % length pattern) 0)
            dst
            (dst + length pattern * n)
  unfolding mem_fill
  mem_fill_lem lo hi region s dst pattern n pos ok low high =
      let size = length pattern * n in
      let (chunk, built, repeats, long) =
        build_chunk-Repeats data_of 4096 pattern size [] pos (omega arith)
          (record { times = 0; size = omega arith; bytes = λ i p. absurd (omega (arith, p)) }) in
      let f : ℕ → ℕ = λ x. get_or pattern ((x - dst) % length pattern) 0 in
      let (s', run, filled) =
        fill_loop_lem lo hi region pattern chunk pos repeats size n s dst (dst + size) size f
          (omega arith) refl long ok low high refl (λ x p q. refl) in
      (
        count data_of s' ctr_host_mem_write 0,
        rw (built, run, mem_fill) refl,
        subst (λ z. Filled controller lo hi region s.device z f dst (dst + size))
            (sym (count-device s' ctr_host_mem_write 0)) filled,
      )
