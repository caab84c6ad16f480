-- ===== src/RiscvEncoder/Fields.antt =====
-- The fields of the instruction formats, read back from the encoded words.
use nupu_refsi.Prelude.{
  ℕ, ◌+◌, ◌*◌, ◌/◌, ◌%◌, ◌^◌, ◌<◌, ◌≡◌, ap, ◌∙◌, bit_and, bit_or, shl, shr, arith,
}
use nupu_refsi.Bits.{bit_or_above, bit_and_mask, bit_and_shifted}
use nupu_refsi.RiscvEncoder.{encode_i, encode_s}

-- The fields of the 32-bit formats of RISC-V, by their bit positions.
abbrev pub field : ℕ → ℕ → ℕ → ℕ
field insn low width = insn / 2 ^ low % 2 ^ width

abbrev pub opcode : ℕ → ℕ
opcode insn = field insn 0 7

abbrev pub rd_of : ℕ → ℕ
rd_of insn = field insn 7 5

abbrev pub funct3_of : ℕ → ℕ
funct3_of insn = field insn 12 3

abbrev pub rs1_of : ℕ → ℕ
rs1_of insn = field insn 15 5

abbrev pub rs2_of : ℕ → ℕ
rs2_of insn = field insn 20 5

abbrev pub funct7_of : ℕ → ℕ
funct7_of insn = field insn 25 7

abbrev pub imm_i : ℕ → ℕ
imm_i insn = field insn 20 12

abbrev pub imm_s : ℕ → ℕ
imm_s insn = field insn 25 7 * 2 ^ 5 + field insn 7 5

-- The common lower part of the formats.
lower_sum :
    (opc rd func3 rs1 : ℕ)
    → opc < 2 ^ 7
    → rd < 2 ^ 5
    → func3 < 2 ^ 3
    → bit_or (bit_or (bit_or opc (shl rd 7)) (shl func3 12)) (shl rs1 15)
      ≡ opc + rd * 2 ^ 7 + func3 * 2 ^ 12 + rs1 * 2 ^ 15
lower_sum opc rd func3 rs1 p q r =
    rw
      (
        bit_or_above 7 rd opc p,
        bit_or_above 12 func3 (rd * 2 ^ 7 + opc) (omega (arith, p, q)),
        bit_or_above 15 rs1 (func3 * 2 ^ 12 + (rd * 2 ^ 7 + opc)) (omega (arith, p, q, r)),
      )
      (omega arith)

imm_low : (imm : ℕ) → bit_and imm 0x1f ≡ imm % 2 ^ 5
imm_low imm = bit_and_mask 5 imm

imm_12 : (imm : ℕ) → bit_and imm 0xfff ≡ imm % 2 ^ 12
imm_12 imm = bit_and_mask 12 imm

imm_high : (imm : ℕ) → shr (bit_and imm 0xfe0) 5 ≡ imm / 2 ^ 5 % 2 ^ 7
imm_high imm =
    ap (λ z. shr z 5)
      (bit_and_shifted 5 imm 127 ∙ ap (λ z. z * 2 ^ 5) (bit_and_mask 7 (imm / 2 ^ 5)))
    ∙ omega arith

encode_i_sum :
    (opc func3 rd rs1 imm : ℕ)
    → opc < 2 ^ 7
    → func3 < 2 ^ 3
    → rd < 2 ^ 5
    → rs1 < 2 ^ 5
    → encode_i opc func3 rd rs1 imm
      ≡ opc + rd * 2 ^ 7 + func3 * 2 ^ 12 + rs1 * 2 ^ 15 + imm % 2 ^ 12 * 2 ^ 20
unfolding encode_i
encode_i_sum opc func3 rd rs1 imm p q r t =
    rw
      (
        imm_12 imm,
        lower_sum opc rd func3 rs1 p r q,
        bit_or_above 20 (imm % 2 ^ 12) (opc + rd * 2 ^ 7 + func3 * 2 ^ 12 + rs1 * 2 ^ 15)
            (omega (arith, p, q, r, t)),
      )
      (omega (arith, p, q, r, t))

-- The fields of an I-type word are those it was made of, and the low 12 bits of the immediate.
pub encode_i_fields :
    (opc func3 rd rs1 imm : ℕ)
    → opc < 2 ^ 7
    → func3 < 2 ^ 3
    → rd < 2 ^ 5
    → rs1 < 2 ^ 5
    → (opcode (encode_i opc func3 rd rs1 imm) ≡ opc)
      × (rd_of (encode_i opc func3 rd rs1 imm) ≡ rd)
      × (funct3_of (encode_i opc func3 rd rs1 imm) ≡ func3)
      × (rs1_of (encode_i opc func3 rd rs1 imm) ≡ rs1)
      × (imm_i (encode_i opc func3 rd rs1 imm) ≡ imm % 2 ^ 12)
encode_i_fields opc func3 rd rs1 imm p q r t =
    let e = encode_i_sum opc func3 rd rs1 imm p q r t in
    (
      omega (arith, e, p, q, r, t),
      omega (arith, e, p, q, r, t),
      omega (arith, e, p, q, r, t),
      omega (arith, e, p, q, r, t),
      omega (arith, e, p, q, r, t),
    )

encode_s_sum :
    (opc func3 rs1 rs2 imm : ℕ)
    → opc < 2 ^ 7
    → func3 < 2 ^ 3
    → rs1 < 2 ^ 5
    → rs2 < 2 ^ 5
    → encode_s opc func3 rs1 rs2 imm
      ≡ opc
        + imm % 2 ^ 5 * 2 ^ 7
        + func3 * 2 ^ 12
        + rs1 * 2 ^ 15
        + rs2 * 2 ^ 20
        + imm / 2 ^ 5 % 2 ^ 7 * 2 ^ 25
unfolding encode_s
encode_s_sum opc func3 rs1 rs2 imm p q r t =
    let low = opc + imm % 2 ^ 5 * 2 ^ 7 + func3 * 2 ^ 12 + rs1 * 2 ^ 15 in
    rw
      (
        imm_low imm,
        imm_high imm,
        lower_sum opc (imm % 2 ^ 5) func3 rs1 p (omega arith) q,
        bit_or_above 20 rs2 low (omega (arith, p, q, r, t)),
        bit_or_above 25 (imm / 2 ^ 5 % 2 ^ 7) (rs2 * 2 ^ 20 + low) (omega (arith, p, q, r, t)),
      )
      (omega (arith, p, q, r, t))

-- The fields of an S-type word are those it was made of, and the low 12 bits of the immediate.
pub encode_s_fields :
    (opc func3 rs1 rs2 imm : ℕ)
    → opc < 2 ^ 7
    → func3 < 2 ^ 3
    → rs1 < 2 ^ 5
    → rs2 < 2 ^ 5
    → (opcode (encode_s opc func3 rs1 rs2 imm) ≡ opc)
      × (funct3_of (encode_s opc func3 rs1 rs2 imm) ≡ func3)
      × (rs1_of (encode_s opc func3 rs1 rs2 imm) ≡ rs1)
      × (rs2_of (encode_s opc func3 rs1 rs2 imm) ≡ rs2)
      × (imm_s (encode_s opc func3 rs1 rs2 imm) ≡ imm % 2 ^ 12)
encode_s_fields opc func3 rs1 rs2 imm p q r t =
    let e = encode_s_sum opc func3 rs1 rs2 imm p q r t in
    (
      omega (arith, e, p, q, r, t),
      omega (arith, e, p, q, r, t),
      omega (arith, e, p, q, r, t),
      omega (arith, e, p, q, r, t),
      omega (arith, e, p, q, r, t),
    )
