-- ===== src/HostMemory/Laws.antt =====
-- What a copy leaves in host memory.
use nupu_refsi.Prelude.{
  ℕ, zero, suc, ◌+◌, ◌-◌, ◌≤◌, ◌<◌, ◌≡◌, ◌≢◌, ◌⊎◌, ◌∙◌, ap, refl, List, [], ◌∷◌, some, arith,
  length, get_or,
}
use mathlib.Core.Path.{ap₂}
use nupu_refsi.HostMemory.{
  Ptr, HostMemory, slice, write_bytes, move_bytes, copy_out, copy_in, memcpy,
}

-- Lists of consecutive bytes agree where the bytes agree.
pub slice_congr :
    (f g : ℕ → ℕ) (s n : ℕ) → ((o : ℕ) → s ≤ o → o < s + n → f o ≡ g o) → slice f s n ≡ slice g s n
unfolding slice
slice_congr f g s zero h = refl
slice_congr f g s (suc n) h = ground (
  arith,
  h s (omega arith) (omega arith),
  slice_congr f g (suc s) n (λ o p q. h o (omega arith) (omega arith)),
)

-- A list is the slice of any memory that holds its elements.
pub slice-get_or :
    (f : ℕ → ℕ) (bs : List ℕ) (s : ℕ)
    → ((o : ℕ) → s ≤ o → o < s + length bs → f o ≡ get_or bs (o - s) 0)
    → slice f s (length bs) ≡ bs
unfolding slice
slice-get_or f [] s h = refl
slice-get_or f (b ∷ bs) s h = ground (
  arith,
  h s (omega arith) (omega arith),
  slice-get_or f bs (suc s) (λ o p q. ground (arith, h o (omega arith) (omega arith), later o p)),
)
  where
    later : (o : ℕ) → suc s ≤ o → get_or (b ∷ bs) (o - s) 0 ≡ get_or bs (o - suc s) 0
    later o p = let e : o - s ≡ suc (o - suc s) = omega arith in rw e

pub length-slice : (f : ℕ → ℕ) (s n : ℕ) → length (slice f s n) ≡ n
unfolding slice
length-slice f s zero = refl
length-slice f s (suc n) = omega (arith, length-slice f (suc s) n)

pub copy_out_fits :
    (m : HostMemory) (p : Ptr) (n : ℕ)
    → p.offset + n ≤ m.extent p.block
    → copy_out m p n ≡ some (slice (m.bytes p.block) p.offset n)
unfolding copy_out
copy_out_fits m p n h = ground arith

pub copy_in_fits :
    (m : HostMemory) (p : Ptr) (bs : List ℕ)
    → p.offset + length bs ≤ m.extent p.block
    → copy_in m p bs ≡ some (write_bytes m p bs)
unfolding copy_in
copy_in_fits m p bs h = ground arith

-- What has just been written is read back.
pub copy_out-write_bytes :
    (m : HostMemory) (p : Ptr) (bs : List ℕ)
    → p.offset + length bs ≤ m.extent p.block
    → copy_out (write_bytes m p bs) p (length bs) ≡ some bs
unfolding copy_out write_bytes
copy_out-write_bytes m p bs h =
    ground
      (arith, slice-get_or ((write_bytes m p bs).bytes p.block) bs p.offset (λ o a b. ground arith))

-- The two ranges have no byte in common.
abbrev pub Apart : Ptr → ℕ → Ptr → ℕ → Type 0
Apart p n q k = (p.block ≢ q.block) ⊎ (p.offset + n ≤ q.offset) ⊎ (q.offset + k ≤ p.offset)

-- A write leaves other ranges alone.
pub copy_out-write_bytes-Apart :
    (m : HostMemory) (p q : Ptr) (bs : List ℕ) (k : ℕ)
    → Apart p (length bs) q k
    → copy_out (write_bytes m p bs) q k ≡ copy_out m q k
unfolding copy_out write_bytes
copy_out-write_bytes-Apart m p q bs k h = ground (
  arith,
  slice_congr ((write_bytes m p bs).bytes q.block) (m.bytes q.block) q.offset k
      (λ o a b. ground arith),
)

pub memcpy-Apart :
    (m : HostMemory) (dst src : Ptr) (n : ℕ)
    → dst.offset + n ≤ m.extent dst.block
    → src.offset + n ≤ m.extent src.block
    → Apart dst n src n
    → memcpy m dst src n ≡ some (move_bytes m dst src n)
unfolding memcpy
memcpy-Apart m dst src n hd hs h = ground arith

pub slice_shift :
    (f g : ℕ → ℕ) (s t n : ℕ)
    → ((i : ℕ) → i < n → f (s + i) ≡ g (t + i))
    → slice f s n ≡ slice g t n
unfolding slice
slice_shift f g s t zero h = refl
slice_shift f g s t (suc n) h =
    ap₂ ◌∷◌ (ap f (omega arith) ∙ h 0 (omega arith) ∙ ap g (omega arith)) (
      slice_shift f g (suc s) (suc t) n
        (λ i p. ap f (omega arith) ∙ h (suc i) (omega arith) ∙ ap g (omega arith)))

-- After a copy the destination reads as the source did before.
pub copy_out-move_bytes :
    (m : HostMemory) (dst src : Ptr) (n : ℕ)
    → dst.offset + n ≤ m.extent dst.block
    → src.offset + n ≤ m.extent src.block
    → copy_out (move_bytes m dst src n) dst n ≡ copy_out m src n
unfolding copy_out move_bytes
copy_out-move_bytes m dst src n df sf = ground (
  arith,
  slice_shift ((move_bytes m dst src n).bytes dst.block) (m.bytes src.block) dst.offset src.offset n
      (λ i h. ground (arith, ap (λ (t : ℕ). m.bytes src.block (src.offset + t)) (back i))),
)
  where
    back : (i : ℕ) → dst.offset + i - dst.offset ≡ i
    back i = omega arith

pub extent-write_bytes :
    (m : HostMemory) (p : Ptr) (bs : List ℕ) (b : ℕ) → (write_bytes m p bs).extent b ≡ m.extent b
unfolding write_bytes
extent-write_bytes m p bs b = refl
