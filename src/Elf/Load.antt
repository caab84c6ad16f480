-- ===== src/Elf/Load.antt =====
-- A program that is loaded lies in memory: the segments' data, then zeros.
use nupu_refsi.Prelude.{
  ℕ, zero, suc, ◌+◌, ◌-◌, ◌≤◌, ◌<◌, ◌≡◌, refl, sym, ap, subst, ◌∙◌, true, some, min, ltb, ◌==◌,
  if◌then◌else◌, add64, replicate, length, get_or, arith, if_ind,
}
use nupu_refsi.Region.{MemoryDevice, Region}
use nupu_refsi.Region.Filled.{Filled, nothing-Filled, then-Filled, store_fills}
use nupu_refsi.Elf.{ElfSegment, load_zeros, load_data, load_segment}

length-replicate : (n a : ℕ) → length (replicate n a) ≡ n
length-replicate zero a = refl
length-replicate (suc n) a = ap suc (length-replicate n a)

get_or-replicate : (n i : ℕ) → ◌≡◌ {A = ℕ} (get_or (replicate n 0) i 0) 0
get_or-replicate zero i = refl
get_or-replicate (suc n) zero = refl
get_or-replicate (suc n) (suc i) = get_or-replicate n i

-- The byte that a segment puts at address x, if it has one there.
unfoldable pub segment_byte : ElfSegment → ℕ → ℕ
segment_byte segment x =
    if ltb (x - segment.address) segment.file_size
    then get_or segment.contents (x - segment.address) 0
    else 0

-- The data that the segment has and its zeros lie in the range.
pub record FitsIn (lo hi : ℕ) (segment : ElfSegment) : Type 0 where
  pub above : lo ≤ segment.address
  pub below : segment.address + segment.memory_size ≤ hi
  pub whole : length segment.contents ≡ segment.file_size
  pub covers : segment.file_size ≤ segment.memory_size

module _ {S : Type 0} (memory : MemoryDevice S) (lo hi : ℕ) (region : Region memory lo hi) where
  load_zeros_fills :
      (fuel n : ℕ) (s : S) (a b unit : ℕ) (f : ℕ → ℕ)
      → n ≤ fuel
      → region.Ok s
      → lo ≤ a
      → b ≤ hi
      → a + n ≡ b
      → ((x : ℕ) → a ≤ x → x < b → f x ≡ 0)
      → (t : S) × (load_zeros memory fuel s a n unit ≡ some (true, t))
        × Filled memory lo hi region s t f a b
  unfolding load_zeros
  load_zeros_fills fuel zero s a b unit f p ok la bh e same = (
    s,
    refl,
    subst (λ z. Filled memory lo hi region s s f a z) (omega (arith, e))
        (nothing-Filled memory lo hi region s f a ok),
  )
  load_zeros_fills zero (suc n) s a b unit f p ok la bh e same = absurd (omega (arith, p))
  load_zeros_fills (suc fuel) (suc n) s a b unit f p ok la bh e same =
      let w = min 256 (suc n) in
      let next : add64 a w ≡ a + w = omega (arith, bh, e, region.small) in
      let (t, done, first) =
        store_fills memory lo hi region s f a w (a + w) (replicate w 0) unit ok la
          (omega (arith, bh, e)) refl (length-replicate w 0)
          (λ x p q. get_or-replicate w (x - a) ∙ sym (same x p (omega (arith, q, e)))) in
      let (u, run, rest) =
        load_zeros_fills fuel (suc n - w) t (a + w) b unit f (omega (arith, p)) first.ok
          (omega (arith, la)) bh (omega (arith, e)) (λ x p q. same x (omega (arith, p)) q) in
      (
        u,
        rw (done, load_zeros)
            (subst (λ z. load_zeros memory fuel t z (suc n - w) unit ≡ some (true, u)) (sym next)
              run),
        then-Filled memory lo hi region s t u f a (a + w) b la (omega arith) (omega (arith, e)) bh
            first rest,
      )

  load_data_fills :
      (s : S) (segment : ElfSegment) (unit : ℕ)
      → region.Ok s
      → FitsIn lo hi segment
      → (t : S) × (load_data memory s segment unit ≡ some (true, t))
        × Filled memory lo hi region s t
            (segment_byte segment)
            segment.address
            (segment.address + segment.file_size)
  unfolding load_data segment_byte
  load_data_fills s segment unit ok fit =
      let end = segment.address + segment.file_size in
      if_ind
        (λ r.
          (t : S) × (r ≡ some (true, t))
          × Filled memory lo hi region s t (segment_byte segment) segment.address end)
        (segment.file_size == 0) _ _
        (λ empty. (
          s,
          refl,
          subst (λ z. Filled memory lo hi region s s (segment_byte segment) segment.address z)
              (ground (arith, empty))
              (nothing-Filled memory lo hi region s (segment_byte segment) segment.address ok),
        ))
        (λ _.
          store_fills memory lo hi region s (segment_byte segment) segment.address segment.file_size
            end segment.contents unit ok fit.above (omega (arith, fit.below, fit.covers)) refl
            fit.whole (λ x p q. ground (arith, p, q)))

  pub load_segment_fills :
      (s : S) (segment : ElfSegment) (unit : ℕ)
      → region.Ok s
      → FitsIn lo hi segment
      → (t : S) × (load_segment memory s segment unit ≡ some (true, t))
        × Filled memory lo hi region s t
            (segment_byte segment)
            segment.address
            (segment.address + segment.memory_size)
  unfolding load_segment segment_byte
  load_segment_fills s segment unit ok fit =
      let mid = segment.address + segment.file_size in
      let end = segment.address + segment.memory_size in
      let zeros = segment.memory_size - segment.file_size in
      let next : add64 segment.address segment.file_size ≡ mid =
        omega (arith, fit.below, fit.covers, region.small) in
      let (t, done, first) = load_data_fills s segment unit ok fit in
      let (u, run, rest) =
        load_zeros_fills zeros zeros t mid end unit (segment_byte segment) (omega arith) first.ok
          (omega (arith, fit.above)) fit.below (omega (arith, fit.covers))
          (λ x p q. ground (arith, p)) in
      (
        u,
        rw (done, load_segment)
            (subst (λ z. load_zeros memory zeros t z zeros unit ≡ some (true, u)) (sym next) run),
        then-Filled memory lo hi region s t u (segment_byte segment) segment.address mid end
            fit.above (omega arith) (omega (arith, fit.covers)) fit.below first rest,
      )
