-- ===== src/Controller/Update.antt =====
-- What adding and removing an entry does to the lookups.
use nupu_refsi.Prelude.{
  ℕ, ◌≤◌, ◌<◌, ◌≡◌, refl, List, [], ◌∷◌, none, some, arith, ◌==◌, if◌then◌else◌,
}
use nupu_refsi.Controller.{find_entry, insert_entry, entry_at, erase_entry}
use nupu_refsi.Controller.Lookup.{Above, Sorted, Above-le, find_entry-below, entry_at-below}

insert_entry-Above :
    (l : List (ℕ × ℕ)) (n addr d : ℕ) → n < addr → Above n l → Above n (insert_entry l addr d)
unfolding insert_entry
insert_entry-Above [] n addr d h a = (h, tt)
insert_entry-Above ((b, v) ∷ rest) n addr d h a =
    ground (arith, insert_entry-Above rest n addr d h a.1)

pub insert_entry-Sorted :
    (l : List (ℕ × ℕ)) (addr d : ℕ) → Sorted l → Sorted (insert_entry l addr d)
unfolding insert_entry
insert_entry-Sorted [] addr d s = (tt, tt)
insert_entry-Sorted ((b, v) ∷ rest) addr d s = ground (
  arith,
  insert_entry-Sorted rest addr d s.1,
  insert_entry-Above rest b addr d,
  Above-le {m = addr} {n = b} rest,
)

pub entry_at-insert_entry :
    (l : List (ℕ × ℕ)) (addr d k : ℕ)
    → Sorted l
    → entry_at (insert_entry l addr d) k ≡ (if addr == k then some d else entry_at l k)
unfolding insert_entry entry_at
entry_at-insert_entry [] addr d k s = ground arith
entry_at-insert_entry ((b, v) ∷ rest) addr d k s =
    ground (arith, entry_at-insert_entry rest addr d k s.1)

erase_entry-Above : (l : List (ℕ × ℕ)) (n addr : ℕ) → Above n l → Above n (erase_entry l addr)
unfolding erase_entry
erase_entry-Above [] n addr a = tt
erase_entry-Above ((b, v) ∷ rest) n addr a = ground (arith, erase_entry-Above rest n addr a.1)

pub erase_entry-Sorted : (l : List (ℕ × ℕ)) (addr : ℕ) → Sorted l → Sorted (erase_entry l addr)
unfolding erase_entry
erase_entry-Sorted [] addr s = tt
erase_entry-Sorted ((b, v) ∷ rest) addr s =
    ground (arith, erase_entry-Sorted rest addr s.1, erase_entry-Above rest b addr s.0)

pub erase_entry-insert_entry :
    (l : List (ℕ × ℕ)) (addr d : ℕ)
    → entry_at l addr ≡ none
    → erase_entry (insert_entry l addr d) addr ≡ l
unfolding insert_entry entry_at erase_entry
erase_entry-insert_entry [] addr d e = ground arith
erase_entry-insert_entry ((b, v) ∷ rest) addr d e =
    ground (arith, erase_entry-insert_entry rest addr d)

-- A sorted map with no key from n to a has all its keys above a.
Above-gap :
    (l : List (ℕ × ℕ)) (n a : ℕ)
    → Above n l
    → Sorted l
    → ((k : ℕ) → n < k → k ≤ a → entry_at l k ≡ none)
    → Above a l
unfolding entry_at
Above-gap [] n a h s gap = tt
Above-gap ((c, w) ∷ rest) n a h s gap =
    let up : a < c = ground (arith, gap c) in (up, Above-le rest (omega arith) s.0)

-- An address at or above the new base, below every key that follows it, finds the new entry.
pub find_entry-insert_entry :
    (l : List (ℕ × ℕ)) (addr d a : ℕ)
    → Sorted l
    → addr ≤ a
    → ((k : ℕ) → addr < k → k ≤ a → entry_at l k ≡ none)
    → find_entry (insert_entry l addr d) a ≡ some (addr, d)
unfolding insert_entry find_entry entry_at
find_entry-insert_entry [] addr d a s h gap = ground arith
find_entry-insert_entry ((b, v) ∷ rest) addr d a s h gap = ground (
  arith,
  gap b,
  find_entry-insert_entry rest addr d a s.1 h,
  λ (p : b < addr) (k : ℕ) (q : addr < k) (r : k ≤ a). inner p k q r,
  λ (p : addr ≡ b). find_entry-below rest a (Above-gap rest b a s.0 s.1 (same p)),
)
  where
    inner : b < addr → (k : ℕ) → addr < k → k ≤ a → entry_at rest k ≡ none
    inner p k q r = ground (arith, gap k q r)

    same : addr ≡ b → (k : ℕ) → b < k → k ≤ a → entry_at rest k ≡ none
    same p k q r = ground (arith, gap k (omega arith) r)

-- Below the new base nothing changes.
pub find_entry-insert_entry_below :
    (l : List (ℕ × ℕ)) (addr d a : ℕ)
    → Sorted l
    → a < addr
    → find_entry (insert_entry l addr d) a ≡ find_entry l a
unfolding insert_entry find_entry
find_entry-insert_entry_below [] addr d a s h = ground arith
find_entry-insert_entry_below ((b, v) ∷ rest) addr d a s h = ground (
  arith,
  find_entry-insert_entry_below rest addr d a s.1 h,
  find_entry-below rest a,
  Above-le {m = a} {n = addr} rest,
  Above-le {m = a} {n = b} rest,
)

-- An erased base address is gone.
pub entry_at-erase_entry :
    (l : List (ℕ × ℕ)) (addr : ℕ) → Sorted l → entry_at (erase_entry l addr) addr ≡ none
unfolding entry_at erase_entry
entry_at-erase_entry [] addr s = refl
entry_at-erase_entry ((b, v) ∷ rest) addr s =
    ground (arith, entry_at-erase_entry rest addr s.1, entry_at-below rest b addr s.0)
