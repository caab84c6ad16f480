-- ===== src/Header/Fields.antt =====
-- Encoder and decoder of a command header, with the masks and shifts of the source.
use nupu_refsi.Prelude.{
  ℕ, ◌*◌, ◌/◌, Option, none, some, bit_and, bit_or, shl, shr, u32, ◌!=◌, if◌then◌else◌,
}

-- What a decoded header tells (the out parameters of refsiDecodeCMPCommand).
pub record Header : Type 0 where
  pub opcode : ℕ
  pub chunk_count : ℕ
  pub inline_chunk : ℕ

-- `none` stands for refsi_failure.
unfoldable pub decode_command : ℕ → Option Header
decode_command header =
    if bit_and header 0xc00000ff != 0xc0000000
    then none
    else some (record {
      opcode = shr (bit_and header 0xff00) 8;
      chunk_count = u32 (shr (bit_and header 0x3fff0000) 16 / 2);
      inline_chunk = u32 (shr header 32);
    })

-- The shift of the opcode, `chunk_count * 2` and its shift are of 32-bit types.
unfoldable pub encode_command : ℕ → ℕ → ℕ → ℕ
encode_command opcode chunk_count inline_chunk =
    bit_or (bit_or (bit_or 0xc0000000 (u32 (shl opcode 8))) (u32 (shl (u32 (chunk_count * 2)) 16)))
      (shl inline_chunk 32)
