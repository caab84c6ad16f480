-- ===== src/HostMemory.antt =====
-- The memory of the simulating process, in which the devices keep their contents: blocks of bytes,
-- pointers into them, and `memcpy`. `none` stands for undefined behaviour: an access outside its
-- block, or a copy between ranges that overlap.
pub mod Laws
use nupu_refsi.Prelude.{
  ℕ, zero, suc, ◌+◌, ◌-◌, ◌%◌, ◌^◌, List, [], ◌∷◌, Bool, not, ◌&&◌, Option, none, some, ltb, leb,
  ◌==◌, if◌then◌else◌, length, get_or,
}

-- Block 0 is the host program's own address space, where an offset is a raw address.
pub record Ptr : Type 0 where
  pub block : ℕ
  pub offset : ℕ

-- `extent` is the number of bytes of a block.
pub record HostMemory : Type 0 where
  pub bytes : ℕ → ℕ → ℕ
  pub extent : ℕ → ℕ

abbrev pub host_block : ℕ
host_block = 0

-- `p + n`, in 64 bits.
abbrev pub advance : Ptr → ℕ → Ptr
advance p n = record p { offset = (p.offset + n) % 2 ^ 64 }

-- The n bytes from p on lie in the block.
abbrev pub fits : HostMemory → Ptr → ℕ → Bool
fits m p n = leb (p.offset + n) (m.extent p.block)

-- Byte `o` of block `b` is one of the n bytes from p on.
abbrev pub within : Ptr → ℕ → ℕ → ℕ → Bool
within p n b o = b == p.block && leb p.offset o && ltb o (p.offset + n)

abbrev pub overlap : Ptr → Ptr → ℕ → Bool
overlap p q n = p.block == q.block && ltb p.offset (q.offset + n) && ltb q.offset (p.offset + n)

unfoldable pub slice : (ℕ → ℕ) → ℕ → ℕ → List ℕ
slice f start zero = []
slice f start (suc n) = f start ∷ slice f (suc start) n

-- memcpy from device memory to a buffer of the caller.
unfoldable pub copy_out : HostMemory → Ptr → ℕ → Option (List ℕ)
copy_out m p n = if fits m p n then some (slice (m.bytes p.block) p.offset n) else none

-- The bytes of the list, written from p on.
unfoldable pub write_bytes : HostMemory → Ptr → List ℕ → HostMemory
write_bytes m p bs = record m {
  bytes = λ b o. if within p (length bs) b o then get_or bs (o - p.offset) 0 else m.bytes b o;
}

-- The n bytes from src on, written from dst on.
unfoldable pub move_bytes : HostMemory → Ptr → Ptr → ℕ → HostMemory
move_bytes m dst src n = record m {
  bytes = λ b o.
      if within dst n b o then m.bytes src.block (src.offset + (o - dst.offset)) else m.bytes b o;
}

-- memcpy from a buffer of the caller to device memory.
unfoldable pub copy_in : HostMemory → Ptr → List ℕ → Option HostMemory
copy_in m p bs = if fits m p (length bs) then some (write_bytes m p bs) else none

-- memcpy from device memory to device memory.
unfoldable pub memcpy : HostMemory → Ptr → Ptr → ℕ → Option HostMemory
memcpy m dst src n =
    if fits m dst n && fits m src n && not (overlap dst src n)
    then some (move_bytes m dst src n)
    else none
