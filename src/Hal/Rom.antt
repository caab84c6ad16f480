-- ===== src/Hal/Rom.antt =====
-- The code that the host puts in the ROM of the device: kernel exit and launch
-- (hal_refsi/source/refsi_hal_m1.cpp). Offsets into the structures are those of
-- hal_refsi/include/device/device_if.h, compiled for 64 bits.
use nupu_refsi.Prelude.{ℕ, ◌+◌, ◌*◌, List, [], ◌∷◌, ltb, if◌then◌else◌}
use nupu_refsi.RiscvEncoder.{
  reg_t1, reg_t2, reg_a0, reg_a1, reg_a2, reg_a3, reg_a7, mul_divu, mul_remu, add_addi, add_ecall,
  add_lw, add_sw, add_mul_inst, add_li, add_mv, add_jr, code_size,
}

-- offsetof in exec_state_t and wg_info_t
abbrev pub wg_offset : ℕ
wg_offset = 0

abbrev pub group_id_offset : ℕ
group_id_offset = 0

abbrev pub num_groups_offset : ℕ
num_groups_offset = 24

abbrev pub kernel_entry_offset : ℕ
kernel_entry_offset = 152

-- getRankOffset
abbrev pub rank_offset : ℕ → ℕ → ℕ
rank_offset offset rank = offset + rank * 8

-- refsi_m1_hal_device::encodeKernelExit
unfoldable pub encode_kernel_exit : List ℕ → List ℕ
encode_kernel_exit enc = add_ecall (add_li (add_li enc reg_a0 0) reg_a7 0)

-- group_id[2] = slice_id / num_groups[1]
unfoldable pub encode_group_2 : List ℕ → List ℕ
encode_group_2 enc =
    add_sw (add_mul_inst enc mul_divu reg_t2 reg_a1 reg_t1) reg_t2 reg_a3
      (rank_offset group_id_offset 2)

-- group_id[1] = slice_id % num_groups[1]
unfoldable pub encode_group_1 : List ℕ → List ℕ
encode_group_1 enc =
    add_sw
      (add_mul_inst (add_lw enc reg_t1 reg_a3 (rank_offset num_groups_offset 1)) mul_remu reg_t2
        reg_a1 reg_t1)
      reg_t2 reg_a3 (rank_offset group_id_offset 1)

-- refsi_m1_hal_device::encodeLaunchKernel
unfoldable pub encode_launch_kernel : List ℕ → ℕ → List ℕ
encode_launch_kernel enc num_dims =
    let group_0 = add_sw enc reg_a0 reg_a3 (rank_offset group_id_offset 0) in
    let groups =
      if ltb 1 num_dims
      then (let group_1 = encode_group_1 group_0 in
          if ltb 2 num_dims then encode_group_2 group_1 else group_1)
      else group_0 in
    let args = add_addi (add_mv groups reg_a0 reg_a2) reg_a1 reg_a3 wg_offset in
    add_jr (add_lw args reg_t1 reg_a3 kernel_entry_offset) reg_t1

-- The code that refsi_m1_hal_device::createROM writes.
unfoldable pub rom_code : List ℕ
rom_code =
    encode_launch_kernel (encode_launch_kernel (encode_launch_kernel (encode_kernel_exit []) 1) 2) 3

-- The offsets of the launch functions in that code, for one to three dimensions.
unfoldable pub launch_offsets : List ℕ
launch_offsets =
    let exit = encode_kernel_exit [] in
    let launch_1 = encode_launch_kernel exit 1 in
    let launch_2 = encode_launch_kernel launch_1 2 in
    code_size exit ∷ code_size launch_1 ∷ code_size launch_2 ∷ []
