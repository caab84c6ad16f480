-- ===== src/Header/Laws.antt =====
-- The codec of command headers is a round trip both ways.
use nupu_refsi.Prelude.{ℕ, ◌+◌, ◌*◌, ◌/◌, ◌%◌, ◌^◌, ◌<◌, ◌≡◌, some, bit_and, arith}
use nupu_refsi.Bits.{
  bit_and_cut, bit_and_mask, bit_and_shifted, bit_or_cut, bit_or_above, bit_or_below, bit_or-zero,
}
use nupu_refsi.Header.Fields.{Header, decode_command, encode_command}

-- The tag: the two highest bits of the low half, and the lowest byte.
tag_fields : (h : ℕ) → bit_and h 0xc00000ff ≡ h / 2 ^ 30 % 4 * 2 ^ 30 + h % 256
tag_fields h = ground (
  arith,
  bit_and_cut 30 (h / 2 ^ 30) 3 (h % 2 ^ 30) 255,
  bit_and_mask 2 (h / 2 ^ 30),
  bit_and_mask 8 (h % 2 ^ 30),
)

opcode_field : (h : ℕ) → bit_and h 0xff00 ≡ h / 2 ^ 8 % 256 * 2 ^ 8
opcode_field h = ground (arith, bit_and_shifted 8 h 255, bit_and_mask 8 (h / 2 ^ 8))

count_field : (h : ℕ) → bit_and h 0x3fff0000 ≡ h / 2 ^ 16 % 2 ^ 14 * 2 ^ 16
count_field h = ground (arith, bit_and_shifted 16 h 0x3fff, bit_and_mask 14 (h / 2 ^ 16))

encode_sum :
    (o c i : ℕ)
    → o < 2 ^ 8
    → c < 2 ^ 13
    → encode_command o c i ≡ i * 2 ^ 32 + 3 * 2 ^ 30 + c * 2 * 2 ^ 16 + o * 2 ^ 8
unfolding encode_command
encode_sum o c i ho hc = ground (
  arith,
  bit_or_below 30 3 (o * 2 ^ 8),
  bit_or_cut 30 3 0 (o * 2 ^ 8) (c * 2 * 2 ^ 16),
  bit_or-zero 3,
  bit_or_above 16 (c * 2) (o * 2 ^ 8),
  bit_or_above 32 i (3 * 2 ^ 30 + c * 2 * 2 ^ 16 + o * 2 ^ 8),
)

-- Decoding what the encoder built gives the three fields back, if the opcode fits a byte, the
-- count 13 bits and the inline chunk 32 bits.
pub decode-encode :
    (o c i : ℕ)
    → o < 2 ^ 8
    → c < 2 ^ 13
    → i < 2 ^ 32
    → decode_command (encode_command o c i)
      ≡ some (record { opcode = o; chunk_count = c; inline_chunk = i })
unfolding decode_command
decode-encode o c i ho hc hi = ground (
  arith,
  encode_sum o c i ho hc,
  tag_fields (encode_command o c i),
  opcode_field (encode_command o c i),
  count_field (encode_command o c i),
)

-- A word that the decoder accepts is what the encoder builds from its fields, but for bit 16,
-- which the decoder drops: `h` is the encoded word, plus 2^16 where that bit is set.
pub encode-decode :
    (h : ℕ) (r : Header)
    → h < 2 ^ 64
    → decode_command h ≡ some r
    → encode_command r.opcode r.chunk_count r.inline_chunk + h / 2 ^ 16 % 2 * 2 ^ 16 ≡ h
unfolding decode_command
encode-decode h r fits e = ground (
  arith,
  tag_fields h,
  opcode_field h,
  count_field h,
  encode_sum r.opcode r.chunk_count r.inline_chunk,
)
