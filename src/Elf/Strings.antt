-- ===== src/Elf/Strings.antt =====
-- Strings in an ELF file (ELFProgram::read_c_string of driver/source/common/elf_loader.cpp).
use nupu_refsi.Prelude.{
  ℕ, zero, suc, ◌+◌, ◌-◌, ◌*◌, ◌/◌, ◌%◌, ◌≤◌, ◌<◌, ◌≡◌, ◌≢◌, refl, sym, ap, subst, ◌∙◌, Bool, true,
  false, List, [], ◌∷◌, ◌++◌, Option, none, some, ◌==◌, if◌then◌else◌, add64, arith, eq→==, ne→==,
}
use mathlib.Core.List.{append_assoc}
use nupu_refsi.HostMemory.{slice}
use nupu_refsi.Region.{MemoryDevice, Region}

-- The characters before a terminator, and whether there is one.
unfoldable pub until_terminator : List ℕ → List ℕ × Bool
until_terminator [] = ([], false)
until_terminator (c ∷ cs) =
    if c == 0 then ([], true) else (c ∷ (until_terminator cs).0, (until_terminator cs).1)

module _ {S : Type 0} (memory : MemoryDevice S) where
  -- The loop of read_c_string from an address on, with the characters read so far; `fuel` bounds
  -- its rounds.
  unfoldable pub read_from : ℕ → S → ℕ → ℕ → List ℕ → Option (Bool × List ℕ)
  read_from zero state unit addr s = none
  read_from (suc fuel) state unit addr s = elim (memory.load state addr 8 unit) [
    | none ↦ none
    | some none ↦ some (false, s)
    | some (some chunk) ↦ elim (until_terminator chunk).1 [
      | true ↦ some (true, s ++ (until_terminator chunk).0)
      | false ↦ read_from fuel state unit (add64 addr 8) (s ++ (until_terminator chunk).0)
    ]
  ]

  -- ELFProgram::read_c_string
  unfoldable pub read_c_string : ℕ → S → ℕ → ℕ → Option (Bool × List ℕ)
  read_c_string fuel state unit addr = read_from fuel state unit addr []

no_terminator :
    (f : ℕ → ℕ) (k a : ℕ)
    → ((i : ℕ) → i < k → f (a + i) ≢ 0)
    → until_terminator (slice f a k) ≡ (slice f a k, false)
unfolding until_terminator slice
no_terminator f zero a h = refl
no_terminator f (suc k) a h =
    let here : f a ≢ 0 = λ e. h 0 (omega arith) (ap f (omega arith) ∙ e) in
    rw
      (
        ne→== (f a) 0 here,
        no_terminator f k (suc a) (λ i p e. h (suc i) (omega (arith, p)) (ap f (omega arith) ∙ e)),
      )
      refl

-- The first terminator ends the string.
terminator_at :
    (f : ℕ → ℕ) (r k a : ℕ)
    → r < k
    → ((i : ℕ) → i < r → f (a + i) ≢ 0)
    → f (a + r) ≡ 0
    → until_terminator (slice f a k) ≡ (slice f a r, true)
unfolding until_terminator slice
terminator_at f r zero a p h e = absurd (omega (arith, p))
terminator_at f zero (suc k) a p h e = rw (eq→== (f a) 0 (ap f (omega arith) ∙ e)) refl
terminator_at f (suc r) (suc k) a p h e =
    let here : f a ≢ 0 = λ z. h 0 (omega arith) (ap f (omega arith) ∙ z) in
    rw
      (
        ne→== (f a) 0 here,
        terminator_at f r k (suc a) (omega (arith, p))
            (λ i q z. h (suc i) (omega (arith, q)) (ap f (omega arith) ∙ z))
            (ap f (omega arith) ∙ e),
      )
      refl

slice-append : (f : ℕ → ℕ) (a n m : ℕ) → slice f a n ++ slice f (a + n) m ≡ slice f a (n + m)
unfolding slice
slice-append f a zero m = ap (λ z. slice f z m) (omega arith) ∙ ap (slice f a) (omega arith)
slice-append f a (suc n) m =
    ap (λ z. f a ∷ (slice f (suc a) n ++ slice f z m)) (omega arith)
    ∙ ap (λ z. f a ∷ z) (slice-append f (suc a) n m)
    ∙ ap (slice f a) (the_size n m)
  where
    the_size : (n m : ℕ) → suc (n + m) ≡ suc n + m
    the_size n m = omega arith

module _ {S : Type 0} (memory : MemoryDevice S) (lo hi : ℕ) (region : Region memory lo hi) where
  -- A chunk without a terminator.
  read_on :
      (fuel : ℕ) (state : S) (unit a : ℕ) (s chunk : List ℕ)
      → memory.load state a 8 unit ≡ some (some chunk)
      → (until_terminator chunk).1 ≡ false
      → read_from memory (suc fuel) state unit a s
        ≡ read_from memory fuel state unit (add64 a 8) (s ++ (until_terminator chunk).0)
  unfolding read_from
  read_on fuel state unit a s chunk loaded more = rw (loaded, more, read_from) refl

  read_from_lem :
      (q r n : ℕ) (state : S) (unit a : ℕ) (s : List ℕ)
      → region.Ok state
      → r < 8
      → 8 * q + r ≡ n
      → lo ≤ a
      → a + 8 * suc q ≤ hi
      → ((i : ℕ) → i < n → region.byte state (a + i) ≢ 0)
      → region.byte state (a + n) ≡ 0
      → read_from memory (suc q) state unit a s ≡ some (true, s ++ slice (region.byte state) a n)
  unfolding read_from
  read_from_lem zero r n state unit a s ok small size la ah nz end =
      let found = terminator_at (region.byte state) n 8 a (omega (arith, small, size)) nz end in
      rw
        (
          region.loads state a 8 unit ok la (omega (arith, ah)),
          ap (λ z. z.1) found,
          ap (λ z. z.0) found,
          read_from,
        )
        refl
  read_from_lem (suc q) r n state unit a s ok small size la ah nz end =
      let f = region.byte state in
      let next : add64 a 8 ≡ a + 8 = omega (arith, ah, region.small) in
      let rest =
        read_from_lem q r (n - 8) state unit (a + 8) (s ++ slice f a 8) ok small
          (omega (arith, size)) (omega (arith, la)) (omega (arith, ah))
          (λ i p e. nz (8 + i) (omega (arith, p, size)) (ap f (omega arith) ∙ e))
          (ap f (omega (arith, size)) ∙ end) in
      let joined : (s ++ slice f a 8) ++ slice f (a + 8) (n - 8) ≡ s ++ slice f a n =
        append_assoc s (slice f a 8) (slice f (a + 8) (n - 8))
        ∙ ap (λ z. s ++ z) (slice-append f a 8 (n - 8) ∙ ap (slice f a) (omega (arith, size))) in
      let chunk = no_terminator f 8 a (λ i p. nz i (omega (arith, p, size))) in
      read_on (suc q) state unit a s (slice f a 8)
        (region.loads state a 8 unit ok la (omega (arith, ah))) (ap (λ z. z.1) chunk)
      ∙ ap (λ z. read_from memory (suc q) state unit (add64 a 8) (s ++ z)) (ap (λ z. z.0) chunk)
      ∙ (subst
          (λ z.
            read_from memory (suc q) state unit z (s ++ slice f a 8)
            ≡ some (true, s ++ slice f a n))
          (sym next) (rest ∙ ap (λ z. some (true, z)) joined))

  -- A string in memory is read: the n characters before its terminator, when the chunks of eight
  -- bytes that hold it and its terminator lie in the range.
  pub read_c_string_lem :
      (n : ℕ) (state : S) (unit a : ℕ)
      → region.Ok state
      → lo ≤ a
      → a + 8 * suc (n / 8) ≤ hi
      → ((i : ℕ) → i < n → region.byte state (a + i) ≢ 0)
      → region.byte state (a + n) ≡ 0
      → read_c_string memory (suc (n / 8)) state unit a ≡ some (true, slice (region.byte state) a n)
  unfolding read_c_string
  read_c_string_lem n state unit a ok la ah nz end =
      read_from_lem (n / 8) (n % 8) n state unit a [] ok (omega arith) (omega arith) la ah nz end
