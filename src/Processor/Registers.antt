-- ===== src/Processor/Registers.antt =====
-- The commands on registers and memory words: WRITE_REG64, LOAD_REG64, STORE_REG64, STORE_IMM64
-- and COPY_MEM64 (driver/source/refsidrv/refsi_command_processor.cpp).
use nupu_refsi.Prelude.{
  ℕ, zero, suc, ◌*◌, ◌%◌, ◌&&◌, Bool, true, false, Option, none, some, ltb, leb, ◌==◌, ◌!=◌,
  if◌then◌else◌, u32, add64,
}
use nupu_refsi.Config.{RefsiResult, cmp_num_regs, reg_window_base0}
use nupu_refsi.UnitId.{make_unit, kind_cmp}
use nupu_refsi.Bytes.{word_of_bytes, bytes_of_word}
use nupu_refsi.Machine.{Machine, mem_size}
use nupu_refsi.Controller.{find_device}
use nupu_refsi.Pointers.{max_depth}
use nupu_refsi.Access.{load, store, device_load, device_store}
use nupu_refsi.Window.{handle_window_reg_write}
use nupu_refsi.Soc.{Soc}
use nupu_refsi.Chunk.{Chunks, ◌>>=◌}

abbrev pub Executed : Type 0
Executed = Option (RefsiResult × Soc)

abbrev pub fail : Soc → Executed
fail soc = some (RefsiResult.failure, soc)

abbrev pub succeed : Soc → Executed
succeed soc = some (RefsiResult.success, soc)

-- make_unit(unit_kind::cmp)
abbrev pub cmp_unit : ℕ
cmp_unit = make_unit kind_cmp 0

abbrev pub set_register : Soc → ℕ → ℕ → Soc
set_register soc reg val = record soc { registers = λ r. if r == reg then val else soc.registers r }

-- The window register is written first, and a failure there ends the command.
unfoldable pub write_reg : Soc → ℕ → ℕ → Executed
write_reg soc reg val =
    if leb reg_window_base0 reg && ltb reg cmp_num_regs
    then (let (result, m) = handle_window_reg_write soc.machine soc.windows reg val in
        let soc' = record soc { machine = m } in
        elim result [
          | RefsiResult.success ↦ succeed (set_register soc' reg val)
          | other ↦ some (other, soc')
        ])
    else succeed (set_register soc reg val)

unfoldable pub execute_write_reg64 : Soc → ℕ → ℕ → Chunks → Executed
execute_write_reg64 soc num_chunks reg chunk =
    if num_chunks != 1
    then fail soc
    else do imm_val ← chunk 0; if ltb reg cmp_num_regs then write_reg soc reg imm_val else fail soc

-- The register takes the loaded word.
unfoldable pub load_reg : Soc → ℕ → ℕ → Executed
load_reg soc reg src_addr = do
  loaded ← load soc.machine src_addr 8 cmp_unit
  elim loaded [
    | none ↦ fail soc
    | some bytes ↦ succeed (set_register soc reg (word_of_bytes bytes))
  ]

unfoldable pub execute_load_reg64 : Soc → ℕ → ℕ → Chunks → Executed
execute_load_reg64 soc num_chunks reg chunk =
    if num_chunks != 1
    then fail soc
    else do src_addr ← chunk 0; if ltb reg cmp_num_regs then load_reg soc reg src_addr else fail soc

-- A store of the command processor, with its result.
unfoldable pub store_word : Soc → ℕ → ℕ → Executed
store_word soc addr val = do
  (done, m) ← store soc.machine addr 8 (bytes_of_word 8 val) cmp_unit
  if done then succeed (record soc { machine = m }) else fail (record soc { machine = m })

unfoldable pub execute_store_reg64 : Soc → ℕ → ℕ → Chunks → Executed
execute_store_reg64 soc num_chunks reg chunk = if num_chunks != 1 then fail soc else do
  dst_addr ← chunk 0
  if ltb reg cmp_num_regs then store_word soc dst_addr (soc.registers reg) else fail soc

unfoldable pub execute_store_imm64 : Soc → ℕ → ℕ → Chunks → Executed
execute_store_imm64 soc num_chunks dest_addr chunk =
    if num_chunks != 1 then fail soc else do imm_val ← chunk 0; store_word soc dest_addr imm_val

-- The copy loop of COPY_MEM64, from register i on: one load and one store for each register, with
-- the offsets in the two devices.
unfoldable pub copy_registers : ℕ → Soc → ℕ → ℕ → ℕ → ℕ → ℕ → Executed
copy_registers zero soc src src_off dst dst_off unit = succeed soc
copy_registers (suc count) soc src src_off dst dst_off unit =
    elim (device_load max_depth soc.machine src src_off 8 unit) [
      | none ↦ none
      | some none ↦ fail soc
      | some (some bytes) ↦ elim (device_store max_depth soc.machine dst dst_off 8 bytes cmp_unit) [
        | none ↦ none
        | some (done, m) ↦ elim done [
          | true ↦
              copy_registers count (record soc { machine = m }) src (add64 src_off 8) dst
                (add64 dst_off 8) unit
          | false ↦ fail (record soc { machine = m })
        ]
      ]
    ]

-- The size of the device that a lookup gives, and the offset in it.
unfoldable pub range_fits : Machine → ℕ → ℕ → ℕ → Bool
range_fits m dev off copy_size = elim (m.devices dev) [
  | none ↦ false
  | some device ↦ leb (add64 off copy_size) (mem_size device)
]

unfoldable pub copy_mem : Soc → ℕ → ℕ → ℕ → ℕ → Executed
copy_mem soc count src_addr dst_addr unit = elim (find_device soc.machine.mapping src_addr) [
  | none ↦ fail soc
  | some (src, src_off) ↦
      if range_fits soc.machine src src_off (count * 8)
      then elim (find_device soc.machine.mapping dst_addr) [
        | none ↦ fail soc
        | some (dst, dst_off) ↦
            if range_fits soc.machine dst dst_off (count * 8)
            then copy_registers count soc src src_off dst dst_off unit
            else fail soc
      ]
      else fail soc
]

unfoldable pub execute_copy_mem64 : Soc → ℕ → ℕ → Chunks → Executed
execute_copy_mem64 soc num_chunks count chunk = if num_chunks != 3 then fail soc else do
  src_addr ← chunk 0
  dst_addr ← chunk 1
  unit ← chunk 2
  if src_addr % 8 != 0 then fail soc else copy_mem soc count src_addr dst_addr (u32 unit)
