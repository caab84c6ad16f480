-- ===== src/Hal/Kernels/Segments.antt =====
-- Which segments kernel_exec accepts.
use nupu_refsi.Prelude.{
  ℕ, zero, suc, ◌+◌, ◌^◌, ◌≤◌, ◌<◌, ◌≡◌, sym, subst, Bool, true, false, ◌||◌, List, [], ◌∷◌, some,
  ltb, leb, add64, get_elem?, arith, if_ind, some-injective,
}
use nupu_refsi.Elf.{ElfSegment}
use nupu_refsi.Hal.Kernels.{segments_fit}

-- A segment that does not pass the end of the address space.
abbrev pub Plain : ElfSegment → Type 0
Plain segment = segment.address + segment.memory_size < 2 ^ 64

-- The tests on the first segment fail, and the rest is accepted.
accepted :
    (base size : ℕ) (first : ElfSegment) (rest : List ElfSegment)
    → segments_fit base size (first ∷ rest) ≡ true
    → ((ltb first.address base || leb (add64 base size) first.address) ≡ false)
      × ((ltb (add64 first.address first.memory_size) base
            || ltb (add64 base size) (add64 first.address first.memory_size))
          ≡ false)
      × (segments_fit base size rest ≡ true)
unfolding segments_fit
accepted base size first rest =
    let start = ltb first.address base || leb (add64 base size) first.address in
    let end =
      ltb (add64 first.address first.memory_size) base
      || ltb (add64 base size) (add64 first.address first.memory_size) in
    let P : Bool → Type 0 =
      λ b. b ≡ true → (start ≡ false) × (end ≡ false) × (segments_fit base size rest ≡ true) in
    if_ind P start _ _ (λ _ e. cc) (λ s. if_ind P end _ _ (λ _ e. cc) (λ t e. (s, t, e)))

-- Every segment that is accepted lies in the area, for an area and segments within 64 bits.
pub segments_fit_lem :
    (base size : ℕ) (segments : List ElfSegment) (i : ℕ) (segment : ElfSegment)
    → base + size < 2 ^ 64
    → segments_fit base size segments ≡ true
    → get_elem? segments i ≡ some segment
    → Plain segment
    → (base ≤ segment.address) × (segment.address + segment.memory_size ≤ base + size)
unfolding segments_fit
segments_fit_lem base size [] i segment small fit at plain = cc
segments_fit_lem base size (first ∷ rest) zero segment small fit at plain =
    let same : first ≡ segment = some-injective _ _ at in
    let (start, end, _) = accepted base size first rest fit in
    let plain' : first.address + first.memory_size < 2 ^ 64 = subst Plain (sym same) plain in
    subst (λ z. (base ≤ z.address) × (z.address + z.memory_size ≤ base + size)) same
      (ground (arith, start), ground (arith, end, small, plain'))
segments_fit_lem base size (first ∷ rest) (suc i) segment small fit at plain =
    segments_fit_lem base size rest i segment small (accepted base size first rest fit).2 at plain
