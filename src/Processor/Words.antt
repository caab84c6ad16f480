-- ===== src/Processor/Words.antt =====
-- Words that the command processor stores and loads.
use nupu_refsi.Prelude.{ℕ, ◌^◌, ◌<◌, ◌≡◌, refl, sym, subst, true, some, ltb, arith}
use nupu_refsi.Bytes.{bytes_of_word, length-bytes_of_word, word-bytes}
use nupu_refsi.HostMemory.{Ptr}
use nupu_refsi.Machine.{Machine}
use nupu_refsi.Access.{load, store}
use nupu_refsi.Access.Ram.{RamAt, store-load}
use nupu_refsi.Config.{cmp_num_regs}
use nupu_refsi.Chunk.{Chunks}
use nupu_refsi.Soc.{Soc}
use nupu_refsi.Processor.Registers.{
  store_word, load_reg, execute_store_reg64, execute_load_reg64, execute_store_imm64, set_register,
  succeed, cmp_unit,
}

-- A store and the load of its address, for a word in RAM.
word_round_trip :
    (m : Machine) (addr val : ℕ) (p : Ptr)
    → RamAt m addr 8 p
    → (m' : Machine) × (store m addr 8 (bytes_of_word 8 val) cmp_unit ≡ some (true, m'))
      × (load m' addr 8 cmp_unit ≡ some (some (bytes_of_word 8 val)))
word_round_trip m addr val p r =
    let bytes = bytes_of_word 8 val in
    let len = length-bytes_of_word 8 val in
    subst
      (λ n.
        (m' : Machine) × (store m addr n bytes cmp_unit ≡ some (true, m'))
        × (load m' addr n cmp_unit ≡ some (some bytes)))
      len (store-load m addr cmp_unit cmp_unit bytes p (subst (λ n. RamAt m addr n p) (sym len) r))

-- The parts of the commands behind the tests of their arguments.
store_word-load_reg :
    (soc : Soc) (addr val reg : ℕ) (p : Ptr)
    → val < 2 ^ 64
    → RamAt soc.machine addr 8 p
    → (soc' : Soc) × (store_word soc addr val ≡ succeed soc')
      × (load_reg soc' reg addr ≡ succeed (set_register soc' reg val))
unfolding store_word load_reg
store_word-load_reg soc addr val reg p small r =
    let (m', stored, loaded) = word_round_trip soc.machine addr val p r in
    (record soc { machine = m' }, rw stored refl, rw (loaded, word-bytes 8 val) refl)

-- STORE_REG64 and LOAD_REG64 move a register through RAM, and STORE_IMM64 and LOAD_REG64 an immediate
-- value: with a word of RAM at the address, one chunk each, and registers that exist, every command
-- succeeds, and the loaded register then has the value that was stored, of 64 bits.
pub store-load_reg64 :
    (soc : Soc) (addr val from reg : ℕ) (address value : Chunks) (p : Ptr)
    → address 0 ≡ some addr
    → value 0 ≡ some val
    → val < 2 ^ 64
    → soc.registers from < 2 ^ 64
    → from < cmp_num_regs
    → reg < cmp_num_regs
    → RamAt soc.machine addr 8 p
    → ((s : Soc) × (execute_store_reg64 soc 1 from address ≡ succeed s)
        × (execute_load_reg64 s 1 reg address ≡ succeed (set_register s reg (soc.registers from))))
      × ((t : Soc) × (execute_store_imm64 soc 1 addr value ≡ succeed t)
          × (execute_load_reg64 t 1 reg address ≡ succeed (set_register t reg val)))
unfolding execute_store_reg64 execute_load_reg64 execute_store_imm64
store-load_reg64 soc addr val from reg address value p a v small held low ok r =
    let (s, stored, loaded) = store_word-load_reg soc addr (soc.registers from) reg p held r in
    let (t, written, taken) = store_word-load_reg soc addr val reg p small r in
    let from_ok : ltb from cmp_num_regs ≡ true = ground (arith, low) in
    let reg_ok : ltb reg cmp_num_regs ≡ true = ground (arith, ok) in
    (
      (s, rw (a, execute_store_reg64, from_ok) stored, rw (a, execute_load_reg64, reg_ok) loaded),
      (t, rw (v, execute_store_imm64) written, rw (a, execute_load_reg64, reg_ok) taken),
    )
