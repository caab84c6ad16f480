-- ===== src/Examples/Host.antt =====
-- The theorems on windows, kernels, arguments and instructions of the host at concrete inputs.
use nupu_refsi.Prelude.{
  ℕ, ◌+◌, ◌/◌, ◌%◌, ◌^◌, ◌≤◌, ◌≡◌, refl, inr, true, [], ◌∷◌, none, some, get_elem?, bit_and, shr,
  arith,
}
use nupu_refsi.Config.{reg_window_base0, reg_window_target0, reg_window_mode0, reg_window_scale0}
use nupu_refsi.Pointers.{get_scale}
use nupu_refsi.Window.{window_active, window_mode, window_size}
use nupu_refsi.CommandBuffer.{Command, add_all}
use nupu_refsi.Elf.{ElfSegment}
use nupu_refsi.RiscvEncoder.{encode_s}
use nupu_refsi.RiscvEncoder.Fields.{opcode, funct3_of, rs1_of, rs2_of, imm_s, encode_s_fields}
use nupu_refsi.Hal.Args.{round_up_pot}
use nupu_refsi.Hal.Pot.{round_up_pot_lem}
use nupu_refsi.Hal.Windows.{create_window, create_window_lem}
use nupu_refsi.Hal.Kernels.{Launch, segments_fit, slice_commands, num_slices}
use nupu_refsi.Hal.Kernels.Segments.{segments_fit_lem}
use nupu_refsi.Hal.Kernels.Groups.{slice_of, every_group}
use nupu_refsi.Examples.World.{window_config}

create_window_lem_example :
    (scale_val : ℕ) × (mode_val : ℕ) × (create_window [] 1 2 0x14000000 0x103e0000 0x8000 0x8000
      ≡ some (
          add_all [] (
            Command.write_reg64 (reg_window_base0 + 1) 0x14000000
            ∷ Command.write_reg64 (reg_window_target0 + 1) 0x103e0000
            ∷ Command.write_reg64 (reg_window_scale0 + 1) scale_val
            ∷ Command.write_reg64 (reg_window_mode0 + 1) mode_val
            ∷ [])))
    × (window_active mode_val ≡ true)
    × (window_mode mode_val ≡ 2)
    × (window_size mode_val ≡ 0x8000)
    × (get_scale
          (record window_config { scale_a = bit_and scale_val 0x1f; scale_b = shr scale_val 32 })
        ≡ 0x8000)
create_window_lem_example =
    create_window_lem [] 1 2 0x14000000 0x103e0000 0x8000 0x8000 window_config (inr refl)
      (omega arith) (omega arith) (omega arith)

abbrev text : ElfSegment
text = record { address = 0x10000; contents = 1 ∷ []; file_size = 1; memory_size = 0x100 }

text_fits : segments_fit 0x10000 0x7ff0000 (text ∷ []) ≡ true
unfolding segments_fit
text_fits = refl

segments_fit_lem_example : (0x10000 ≤ 0x10000) × (0x10000 + 0x100 ≤ 0x10000 + 0x7ff0000)
segments_fit_lem_example =
    segments_fit_lem 0x10000 0x7ff0000 (text ∷ []) 0 text (omega arith) text_fits refl (omega arith)

abbrev launch : Launch
launch = record {
  kub_addr = 0x40000000;
  exec_offset = 64;
  exec_size = 192;
  num_harts_per_core = 4;
  tcdm_hart_base = 0x14000000;
  tcdm_hart_target = 0x103e0000;
  tcdm_hart_size_per_hart = 0x8000;
  launch_addr = 64;
  rom_base = 4096;
  num_instances = 8;
  slices = 6;
  counters = none;
}

six : 6 ≡ num_slices 3 3 2
unfolding num_slices
six = refl

every_group_example :
    (get_elem? (slice_commands launch 6 0) (slice_of 3 2 1)
      ≡ some (Command.run_instances 4 8 (slice_of 3 2 1 ∷ 0x40000000 ∷ 0x14000000 ∷ [])))
    × (slice_of 3 2 1 % 3 ≡ 2)
    × (slice_of 3 2 1 / 3 ≡ 1)
every_group_example = every_group launch 3 2 2 1 (omega arith) six (omega arith) (omega arith)

round_up_pot_lem_example :
    (n : ℕ) × (round_up_pot 24 ≡ 2 ^ n) × (24 ≤ 2 ^ n) × ((m : ℕ) → 24 ≤ 2 ^ m → n ≤ m)
round_up_pot_lem_example = round_up_pot_lem 24 (omega arith) (omega arith)

encode_s_fields_example :
    (opcode (encode_s 0x23 2 13 10 16) ≡ 0x23)
    × (funct3_of (encode_s 0x23 2 13 10 16) ≡ 2)
    × (rs1_of (encode_s 0x23 2 13 10 16) ≡ 13)
    × (rs2_of (encode_s 0x23 2 13 10 16) ≡ 10)
    × (imm_s (encode_s 0x23 2 13 10 16) ≡ 16 % 2 ^ 12)
encode_s_fields_example =
    encode_s_fields 0x23 2 13 10 16 (omega arith) (omega arith) (omega arith) (omega arith)
