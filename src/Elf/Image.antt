-- ===== src/Elf/Image.antt =====
-- The image of a whole program: its segments do not disturb each other.
use nupu_refsi.Prelude.{
  ℕ, zero, suc, ◌+◌, ◌≤◌, ◌<◌, ◌≡◌, ◌≢◌, ◌⊎◌, inl, inr, refl, ap, subst, ◌∙◌, true, List, [], ◌∷◌,
  some, get_elem?, Bool-cases, ltb, arith, ne→==, some-injective,
}
use nupu_refsi.Region.{MemoryDevice, Region}
use nupu_refsi.Elf.{ElfSegment, ElfProgram, invalid_address, load_segments, load_program}
use nupu_refsi.Region.Filled.{Filled}
use nupu_refsi.Elf.Load.{FitsIn, segment_byte, load_segment_fills}

-- Address x is none of the segment's.
abbrev pub Misses : ElfSegment → ℕ → Type 0
Misses segment x = (x < segment.address) ⊎ (segment.address + segment.memory_size ≤ x)

-- The segments lie in the range and share no address.
pub data Laid (lo hi : ℕ) : List ElfSegment → Type 0 where
  nil : Laid lo hi []
  cons :
      (segment : ElfSegment) (rest : List ElfSegment) (fit : FitsIn lo hi segment)
      (apart : (i : ℕ) (other : ElfSegment)
        → get_elem? rest i ≡ some other
        → (x : ℕ) → other.address ≤ x
        → x < other.address + other.memory_size
        → Misses segment x)
      (laid : Laid lo hi rest)
      → Laid lo hi (segment ∷ rest)

elsewhere :
    (segment other : ElfSegment) (x : ℕ)
    → segment.address ≤ x
    → x < segment.address + segment.memory_size
    → (other.address ≤ x → x < other.address + other.memory_size → Misses segment x)
    → Misses other x
elsewhere segment other x p q apart = elim (Bool-cases (ltb x other.address)) [
  | inl low ↦ inl (ground (arith, low))
  | inr high ↦ elim (Bool-cases (ltb x (other.address + other.memory_size))) [
    | inl in_other ↦ elim (apart (ground (arith, high)) (ground (arith, in_other))) [
      | inl l ↦ absurd (omega (arith, l, p))
      | inr r ↦ absurd (omega (arith, r, q))
    ]
    | inr past ↦ inr (ground (arith, past))
  ]
]

module _ {S : Type 0} (memory : MemoryDevice S) (lo hi : ℕ) (region : Region memory lo hi) where
  -- Memory holds every segment, and elsewhere in the range what it held before.
  pub record Image (s t : S) (segments : List ElfSegment) : Type 0 where
    pub ok : region.Ok t
    pub holds :
        (i : ℕ) (segment : ElfSegment)
        → get_elem? segments i ≡ some segment
        → (x : ℕ) → segment.address ≤ x
        → x < segment.address + segment.memory_size
        → region.byte t x ≡ segment_byte segment x
    pub keeps :
        (x : ℕ)
        → lo ≤ x
        → x < hi
        → ((i : ℕ) (segment : ElfSegment) → get_elem? segments i ≡ some segment → Misses segment x)
        → region.byte t x ≡ region.byte s x

  fits_at :
      (segments : List ElfSegment) (i : ℕ) (segment : ElfSegment)
      → Laid lo hi segments
      → get_elem? segments i ≡ some segment
      → FitsIn lo hi segment
  fits_at [] i segment l e = cc
  fits_at (first ∷ rest) zero segment (Laid.cons _ _ fit apart laid) e =
      subst (FitsIn lo hi) (some-injective _ _ e) fit
  fits_at (first ∷ rest) (suc i) segment (Laid.cons _ _ fit apart laid) e =
      fits_at rest i segment laid e

  held :
      (s t u : S) (segment : ElfSegment) (rest : List ElfSegment)
      → FitsIn lo hi segment
      → ((i : ℕ) (other : ElfSegment)
          → get_elem? rest i ≡ some other
          → (x : ℕ) → other.address ≤ x
          → x < other.address + other.memory_size
          → Misses segment x)
      → Filled memory lo hi region s t
          (segment_byte segment)
          segment.address
          (segment.address + segment.memory_size)
      → Image t u rest
      → (i : ℕ) (other : ElfSegment) → get_elem? (segment ∷ rest) i ≡ some other
      → (x : ℕ) → other.address ≤ x
      → x < other.address + other.memory_size
      → region.byte u x ≡ segment_byte other x
  held s t u segment rest fit apart first image zero other e x p q =
      let same : segment ≡ other = some-injective _ _ e in
      let p' : segment.address ≤ x = rw same p in
      let q' : x < segment.address + segment.memory_size = rw same q in
      image.keeps x (omega (arith, fit.above, p')) (omega (arith, fit.below, q'))
        (λ i o found. elsewhere segment o x p' q' (apart i o found x))
      ∙ first.inside x p' q'
      ∙ ap (λ z. segment_byte z x) same
  held s t u segment rest fit apart first image (suc i) other e x p q = image.holds i other e x p q

  load_segments-Image :
      (segments : List ElfSegment) (s : S) (unit : ℕ)
      → region.Ok s
      → Laid lo hi segments
      → (t : S) × (load_segments memory s segments unit ≡ some (true, t)) × Image s t segments
  unfolding load_segments
  load_segments-Image [] s unit ok l =
      (s, refl, record { ok = ok; holds = λ i segment e x p q. cc; keeps = λ x p q misses. refl })
  load_segments-Image (segment ∷ rest) s unit ok (Laid.cons _ _ fit apart laid) =
      let (t, done, first) = load_segment_fills memory lo hi region s segment unit ok fit in
      let (u, run, image) = load_segments-Image rest t unit first.ok laid in
      (
        u,
        rw (done, load_segments) run,
        record {
          ok = image.ok;
          holds = λ i other e x p q. held s t u segment rest fit apart first image i other e x p q;
          keeps = λ x p q misses.
              image.keeps x p q (λ i other e. misses (suc i) other e)
              ∙ first.outside x p q (misses 0 segment refl);
        },
      )

  -- A program whose segments lie in the range without overlap is loaded: the call succeeds, every
  -- segment's bytes and zeros are at their addresses, and the rest of the range is unchanged.
  pub load_program-Image :
      (program : ElfProgram) (s : S) (unit : ℕ)
      → program.entry_address ≢ invalid_address
      → region.Ok s
      → Laid lo hi program.segments
      → (t : S) × (load_program memory s program unit ≡ some (true, t)) × Image s t program.segments
  unfolding load_program
  load_program-Image program s unit valid ok laid =
      rw (ne→== program.entry_address invalid_address valid, load_program)
        (load_segments-Image program.segments s unit ok laid)
