-- ===== src/Examples/Control.antt =====
-- The theorems on windows, headers, units and hart groups at concrete inputs.
use nupu_refsi.Prelude.{
  ℕ, zero, suc, ◌+◌, ◌*◌, ◌/◌, ◌%◌, ◌^◌, ◌≤◌, ◌<◌, ◌≡◌, refl, inl, inr, List, [], ◌∷◌, Bool, none,
  some, true, false, arith,
}
use nupu_refsi.Config.{RefsiResult, reg_window_mode0, window_mode_per_hart}
use nupu_refsi.Header.{decode_command, encode_command}
use nupu_refsi.Header.Laws.{decode-encode, encode-decode}
use nupu_refsi.UnitId.{make_unit, get_unit_kind, get_unit_index, kind_acc_hart}
use nupu_refsi.Machine.{Machine, Device, Window, is_mapped, mem_size, put_device}
use nupu_refsi.Controller.{find_device, find_entry, entry_at, base_in_use}
use nupu_refsi.Pointers.{controller_addr_to_mem, get_scale}
use nupu_refsi.Pointers.Depth.{NoWindowChain}
use nupu_refsi.Window.{enable_window, handle_reg_write, is_window, mapped_to}
use nupu_refsi.Window.Mapping.{window_redirects, enable_window-in_use, resize_disables}
use nupu_refsi.Window.Chain.{handle_reg_write-NoWindowChain}
use nupu_refsi.Soc.{HartState, HartSetup}
use nupu_refsi.Accelerator.{run_groups}
use nupu_refsi.Accelerator.Groups.{groups, run_plan, run_groups_lem}
use nupu_refsi.Examples.World.{world, mapped_world, window, mapped_window, at}

target_is_ram : find_device world.mapping 136 ≡ some (2, 8)
unfolding find_device find_entry
target_is_ram = refl

-- The window in the per-hart mode, with a scale of 4.
abbrev hart_window : Window
hart_window = record window {
  config = record (window.config) { mode = window_mode_per_hart; scale_a = 1; scale_b = 3 };
}

abbrev hart_world : Machine
hart_world = put_device world 3 (Device.window hart_window)

base_free :
    base_in_use (put_device hart_world 3 (Device.window (mapped_to hart_window 2 8))) 1024 ≡ false
unfolding base_in_use find_device find_entry mem_size
base_free = refl

hart_1_kind : get_unit_kind (make_unit kind_acc_hart 1) ≡ kind_acc_hart
unfolding get_unit_kind make_unit
hart_1_kind = refl

hart_1_address :
    16 ≡ 8 + get_unit_index (make_unit kind_acc_hart 1) * get_scale hart_window.config + 4
unfolding get_unit_index make_unit get_scale
hart_1_address = refl

nothing_above : (k : ℕ) → 1024 < k → k ≤ 1024 + 4 → entry_at world.mapping k ≡ none
unfolding entry_at
nothing_above k h h' = ground arith

window_redirects_example :
    ((enable_window hart_world 3 hart_window).0 ≡ RefsiResult.success)
    × (controller_addr_to_mem
          (enable_window hart_world 3 hart_window).1
          (1024 + 4)
          8
          (make_unit kind_acc_hart 1)
        ≡ some (at 2 16))
window_redirects_example =
    window_redirects hart_world 3 hart_window 2 8 2 64 refl target_is_ram refl 4 16 8
      (make_unit kind_acc_hart 1) ((omega arith, tt), (tt, tt)) base_free nothing_above
      (omega arith) (inr (refl, hart_1_kind, hart_1_address)) (omega arith) (omega arith)

-- A window whose base address lies in RAM 1.
abbrev misplaced : Window
misplaced = record window { config = record (window.config) { base_address = 20 } }

base_used : base_in_use (put_device world 3 (Device.window (mapped_to misplaced 2 8))) 20 ≡ true
unfolding base_in_use find_device find_entry mem_size
base_used = refl

ram_no_window : is_window (world.devices 2) ≡ false
unfolding is_window
ram_no_window = refl

enable_window-in_use_example :
    (m' : Machine) × (enable_window world 3 misplaced ≡ (RefsiResult.success, m'))
    × (m'.mapping ≡ world.mapping)
    × (m'.devices 3 ≡ some (Device.window (mapped_to misplaced 2 8)))
enable_window-in_use_example =
    enable_window-in_use world 3 misplaced 2 8 (inl refl) target_is_ram ram_no_window base_used

-- ACTIVE and a size of 64 bytes.
abbrev resize_value : ℕ
resize_value = 63 * 2 ^ 32 + 1

resize_disables_example :
    (m' : Machine) × (w' : Window) × (handle_reg_write mapped_world 3 mapped_window reg_window_mode0
        resize_value
      ≡ (RefsiResult.success, m'))
    × (m'.devices 3 ≡ some (Device.window w'))
    × (is_mapped w' ≡ false)
    × (w'.config.active ≡ false)
resize_disables_example =
    resize_disables mapped_world 3 mapped_window resize_value refl (λ e. absurd (omega arith))

no_chain : NoWindowChain world
no_chain zero t w v is_w mapped bad = absurd (ground arith)
no_chain (suc zero) t w v is_w mapped bad = absurd (ground arith)
no_chain (suc (suc zero)) t w v is_w mapped bad = absurd (ground arith)
no_chain (suc (suc (suc zero))) t w v is_w mapped bad = absurd (ground arith)
no_chain (suc (suc (suc (suc d)))) t w v is_w mapped bad = absurd (ground arith)

handle_reg_write-NoWindowChain_example :
    NoWindowChain (handle_reg_write world 3 window reg_window_mode0 resize_value).1
handle_reg_write-NoWindowChain_example =
    handle_reg_write-NoWindowChain world 3 window reg_window_mode0 resize_value no_chain refl

decode-encode_example :
    decode_command (encode_command 2 1 17)
    ≡ some (record { opcode = 2; chunk_count = 1; inline_chunk = 17 })
decode-encode_example = decode-encode 2 1 17 (omega arith) (omega arith) (omega arith)

accepted :
    decode_command 0x11c0030200 ≡ some (record { opcode = 2; chunk_count = 1; inline_chunk = 17 })
unfolding decode_command
accepted = refl

encode-decode_example : encode_command 2 1 17 + 0x11c0030200 / 2 ^ 16 % 2 * 2 ^ 16 ≡ 0x11c0030200
encode-decode_example =
    encode-decode 0x11c0030200 (record { opcode = 2; chunk_count = 1; inline_chunk = 17 })
      (omega arith) accepted

abbrev two_harts : List HartState
two_harts =
    record { stack_top_addr = 64; extra_args = 1 ∷ [] }
    ∷ record { stack_top_addr = 128; extra_args = 2 ∷ [] }
    ∷ []

-- A simulation that always ends with exit code zero.
always_ok : List HartSetup → Machine → Bool × Machine
always_ok group m = (true, m)

-- Five instances on two harts are three groups, the last with one hart.
run_groups_lem_example :
    run_groups always_ok 5 4096 8192 two_harts world 0 5
    ≡ some (run_plan always_ok (groups 3 4096 8192 two_harts 0 5) world)
run_groups_lem_example =
    run_groups_lem always_ok 5 4096 8192 two_harts world 0 5 3 (omega arith) (omega arith)
      (omega arith) (omega arith)
