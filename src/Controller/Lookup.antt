-- ===== src/Controller/Lookup.antt =====
-- Which device answers for an address.
use nupu_refsi.Prelude.{
  ℕ, ◌≤◌, ◌<◌, ◌≡◌, inl, inr, refl, List, [], ◌∷◌, none, some, arith, Option-cases, Bool-cases, ltb,
  ◌⊎◌,
}
use nupu_refsi.Controller.{find_entry, entry_at}

-- Every key lies above the bound.
abbrev pub Above : ℕ → List (ℕ × ℕ) → Type 0
Above n [] = Unit {0}
Above n ((base, d) ∷ rest) = (n < base) × Above n rest

-- The keys ascend.
abbrev pub Sorted : List (ℕ × ℕ) → Type 0
Sorted [] = Unit {0}
Sorted ((base, d) ∷ rest) = Above base rest × Sorted rest

pub Above-le : {m n : ℕ} (l : List (ℕ × ℕ)) → m ≤ n → Above n l → Above m l
Above-le [] h a = tt
Above-le ((base, d) ∷ rest) h a = (omega arith, Above-le rest h a.1)

pub find_entry-below : (l : List (ℕ × ℕ)) (a : ℕ) → Above a l → find_entry l a ≡ none
unfolding find_entry
find_entry-below [] a h = refl
find_entry-below ((base, d) ∷ rest) a h = ground arith

pub entry_at-below : (l : List (ℕ × ℕ)) (n k : ℕ) → Above n l → k ≤ n → entry_at l k ≡ none
unfolding entry_at
entry_at-below [] n k h p = refl
entry_at-below ((base, d) ∷ rest) n k h p = ground (arith, entry_at-below rest n k h.1 p)

find_entry-none : (l : List (ℕ × ℕ)) (a : ℕ) → Sorted l → find_entry l a ≡ none → Above a l
unfolding find_entry
find_entry-none [] a s e = tt
find_entry-none ((base, d) ∷ rest) a s e = ground (arith, Above-le {m = a} {n = base} rest)

-- What a lookup that succeeds says of the map.
nearest :
    (l : List (ℕ × ℕ)) (a base d : ℕ)
    → Sorted l
    → find_entry l a ≡ some (base, d)
    → (entry_at l base ≡ some d) × (base ≤ a) × ((k : ℕ) → base < k → k ≤ a → entry_at l k ≡ none)
unfolding find_entry entry_at
nearest [] a base d s e = absurd (ground arith)
nearest ((b, v) ∷ rest) a base d s e = elim (Option-cases (find_entry rest a)) [
  | inl last ↦
      let up = find_entry-none rest a s.1 last in
      (ground arith, ground arith, λ k p q. ground (arith, entry_at-below rest a k up q))
  | inr (later, found) ↦
      let (at, le, gap) = nearest rest a base d s.1 (ground arith) in
      let low = entry_at-below rest b base s.0 in
      (ground (arith, low, at), le, λ k p q. ground (arith, gap k p q, low, at))
]

-- A lookup finds the nearest entry from below. With no device found, no key is up to the address. With
-- a base address and a device found, the base address is a key with that device, it is not above the
-- address, and no key above it is up to the address, so an address that is a key finds itself.
pub find_entry-nearest :
    (l : List (ℕ × ℕ)) (a k : ℕ)
    → Sorted l
    → ((find_entry l a ≡ none) × ((a < k) ⊎ (entry_at l k ≡ none)))
      ⊎ ((base : ℕ) × (d : ℕ) × (find_entry l a ≡ some (base, d))
          × (entry_at l base ≡ some d)
          × (base ≤ a)
          × ((k ≤ base) ⊎ ((a < k) ⊎ (entry_at l k ≡ none))))
find_entry-nearest l a k s = elim (Option-cases (find_entry l a)) [
  | inl missed ↦ inl (
    missed,
    elim (Bool-cases (ltb a k)) [
      | inl over ↦ inl (ground (arith, over))
      | inr under ↦
          inr (entry_at-below l a k (find_entry-none l a s missed) (ground (arith, under)))
    ],
  )
  | inr ((base, d), found) ↦
      let (at, le, gap) = nearest l a base d s found in
      inr (
        base,
        d,
        found,
        at,
        le,
        elim (Bool-cases (ltb base k)) [
          | inr low ↦ inl (ground (arith, low))
          | inl above ↦ inr (elim (Bool-cases (ltb a k)) [
            | inl over ↦ inl (ground (arith, over))
            | inr under ↦ inr (gap k (ground (arith, above)) (ground (arith, under)))
          ])
        ],
      )
]
