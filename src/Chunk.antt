-- ===== src/Chunk.antt =====
-- The arguments of a command: the 64-bit chunks behind its header
-- (RefSiCommandContext of driver/include/refsidrv/refsi_command_processor.h).
use nupu_refsi.Prelude.{ℕ, ◌*◌, Option, none, some}
use nupu_refsi.Bytes.{word_of_bytes}
use nupu_refsi.HostMemory.{HostMemory, Ptr, advance, copy_out}

-- `cmd.chunks[i]`; `none` is a read outside of memory.
abbrev pub Chunks : Type 0
Chunks = ℕ → Option ℕ

-- The chunks from the pointer on.
unfoldable pub chunks_at : HostMemory → Ptr → Chunks
chunks_at m p i = elim (copy_out m (advance p (i * 8)) 8) [
  | none ↦ none
  | some bytes ↦ some (word_of_bytes bytes)
]

-- A step that needs a chunk.
infixl 5 ◌>>=◌
abbrev pub ◌>>=◌ {ℓ κ} : {A : Type ℓ} {B : Type κ} → Option A → (A → Option B) → Option B
none >>= f = none
some a >>= f = f a
