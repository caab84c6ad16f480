-- ===== src/Region.antt =====
-- What a client of a memory relies on: a range of addresses in which stores succeed and loads give
-- the bytes that were stored last. `load` and `store` are those of MemoryDevice
-- (driver/include/common/common_devices.h), with their results.
pub mod Ram
pub mod Filled
use nupu_refsi.Prelude.{
  ℕ, ◌+◌, ◌-◌, ◌^◌, ◌≤◌, ◌<◌, ◌≡◌, Bool, true, ◌&&◌, List, Option, none, some, ltb, leb,
  if◌then◌else◌, length, get_or, arith, Bool-cases, inl, inr, ◌⊎◌,
}
use nupu_refsi.HostMemory.{slice}

-- The bytes `bs` laid over `f` from `a` on.
unfoldable pub patch : (ℕ → ℕ) → ℕ → List ℕ → ℕ → ℕ
patch f a bs x = if leb a x && ltb x (a + length bs) then get_or bs (x - a) 0 else f x

pub patch_inside :
    (f : ℕ → ℕ) (a : ℕ) (bs : List ℕ) (x : ℕ)
    → a ≤ x
    → x < a + length bs
    → patch f a bs x ≡ get_or bs (x - a) 0
unfolding patch
patch_inside f a bs x p q = ground (arith, p, q)

pub patch_outside :
    (f : ℕ → ℕ) (a : ℕ) (bs : List ℕ) (x : ℕ) → (x < a) ⊎ (a + length bs ≤ x) → patch f a bs x ≡ f x
unfolding patch
patch_outside f a bs x p = ground (arith, p)

-- The operations of a memory, with `none` for undefined behaviour.
pub record MemoryDevice (S : Type 0) : Type 0 where
  pub load : S → ℕ → ℕ → ℕ → Option (Option (List ℕ))
  pub store : S → ℕ → ℕ → List ℕ → ℕ → Option (Bool × S)

-- The range from `lo` to `hi` is plain memory in the states that `Ok` allows; `byte` reads it.
pub record Region {S : Type 0} (memory : MemoryDevice S) (lo hi : ℕ) : Type 1 where
  pub Ok : S → Type 0
  pub byte : S → ℕ → ℕ
  pub small : hi < 2 ^ 64
  pub stores :
      (s : S) (a : ℕ) (bs : List ℕ) (unit : ℕ)
      → Ok s
      → lo ≤ a
      → a + length bs ≤ hi
      → (s' : S) × (memory.store s a (length bs) bs unit ≡ some (true, s'))
        × Ok s'
        × ((x : ℕ) → lo ≤ x → x < hi → byte s' x ≡ patch (byte s) a bs x)
  pub loads :
      (s : S) (a n : ℕ) (unit : ℕ)
      → Ok s
      → lo ≤ a
      → a + n ≤ hi
      → memory.load s a n unit ≡ some (some (slice (byte s) a n))
