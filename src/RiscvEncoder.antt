-- ===== src/RiscvEncoder.antt =====
-- The encoder of RISC-V instructions (hal_refsi/source/riscv_encoder.cpp and
-- hal_refsi/include/riscv_encoder.h). An encoder is the list of its instructions.
pub mod Fields
use nupu_refsi.Prelude.{ℕ, ◌*◌, List, [], ◌∷◌, ◌++◌, bit_and, bit_or, u32, shl, shr, length}

abbrev pub reg_zero : ℕ
reg_zero = 0

abbrev pub reg_t1 : ℕ
reg_t1 = 6

abbrev pub reg_t2 : ℕ
reg_t2 = 7

abbrev pub reg_a0 : ℕ
reg_a0 = 10

abbrev pub reg_a1 : ℕ
reg_a1 = 11

abbrev pub reg_a2 : ℕ
reg_a2 = 12

abbrev pub reg_a3 : ℕ
reg_a3 = 13

abbrev pub reg_a7 : ℕ
reg_a7 = 17

abbrev pub mul_divu : ℕ
mul_divu = 5

abbrev pub mul_remu : ℕ
mul_remu = 7

-- An I-type instruction.
unfoldable pub encode_i : ℕ → ℕ → ℕ → ℕ → ℕ → ℕ
encode_i opc func3 rd rs1 imm = u32 (
    bit_or (bit_or (bit_or (bit_or opc (shl rd 7)) (shl func3 12)) (shl rs1 15))
      (shl (bit_and imm 0xfff) 20))

-- An S-type instruction.
unfoldable pub encode_s : ℕ → ℕ → ℕ → ℕ → ℕ → ℕ
encode_s opc funct3 rs1 rs2 imm = u32 (
    bit_or
      (bit_or (bit_or (bit_or (bit_or opc (shl (bit_and imm 0x1f) 7)) (shl funct3 12)) (shl rs1 15))
        (shl rs2 20))
      (shl (shr (bit_and imm 0xfe0) 5) 25))

-- An R-type instruction.
unfoldable pub encode_r : ℕ → ℕ → ℕ → ℕ → ℕ → ℕ → ℕ
encode_r opc func3 func7 rd rs1 rs2 = u32 (
    bit_or
      (bit_or (bit_or (bit_or (bit_or opc (shl rd 7)) (shl func3 12)) (shl rs1 15)) (shl rs2 20))
      (shl func7 25))

unfoldable pub add_addi : List ℕ → ℕ → ℕ → ℕ → List ℕ
add_addi insns rd rs imm = insns ++ encode_i 0x13 0 rd rs imm ∷ []

unfoldable pub add_ecall : List ℕ → List ℕ
add_ecall insns = insns ++ 0x00000073 ∷ []

unfoldable pub add_jalr : List ℕ → ℕ → ℕ → ℕ → List ℕ
add_jalr insns rd rs imm = insns ++ encode_i 0x67 0 rd rs imm ∷ []

unfoldable pub add_lw : List ℕ → ℕ → ℕ → ℕ → List ℕ
add_lw insns rd rs imm = insns ++ encode_i 0x3 0x2 rd rs imm ∷ []

unfoldable pub add_sw : List ℕ → ℕ → ℕ → ℕ → List ℕ
add_sw insns rs2 rs1 imm = insns ++ encode_s 0x23 0x2 rs1 rs2 imm ∷ []

unfoldable pub add_mul_inst : List ℕ → ℕ → ℕ → ℕ → ℕ → List ℕ
add_mul_inst insns opc rd rs1 rs2 = insns ++ encode_r 0x33 opc 0x1 rd rs1 rs2 ∷ []

unfoldable pub add_li : List ℕ → ℕ → ℕ → List ℕ
add_li insns rd imm = add_addi insns rd reg_zero imm

unfoldable pub add_mv : List ℕ → ℕ → ℕ → List ℕ
add_mv insns rd rs = add_addi insns rd rs 0

unfoldable pub add_jr : List ℕ → ℕ → List ℕ
add_jr insns rs = add_jalr insns reg_zero rs 0

-- riscv_encoder::size
unfoldable pub code_size : List ℕ → ℕ
code_size insns = length insns * 4
