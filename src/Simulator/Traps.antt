-- ===== src/Simulator/Traps.antt =====
-- Traps (driver/source/refsidrv/trap_handlers.cpp, the RefSiTrapHandler of
-- driver/source/refsidrv/refsi_accelerator.cpp, and handle_trap and handle_breakpoint of
-- driver/source/refsidrv/slim_sim.cpp).
use nupu_refsi.Prelude.{
  ℕ, Bool, true, false, ◌&&◌, ◌||◌, Option, none, some, bit_or, ◌==◌, if◌then◌else◌, add64,
}
use nupu_refsi.Simulator.{Sim, get_hart, set_exited, handle_barrier}

-- Registers of a hart that take part in traps.
pub record TrapRegs : Type 0 where
  pub mcause : ℕ
  pub mtval : ℕ
  pub mtval2 : ℕ
  pub mtinst : ℕ
  pub mepc : ℕ
  pub pc : ℕ
  pub bp_addr : ℕ

-- What the simulator uses of the Spike library: a number of instructions of a hart, its trap
-- registers and general registers, the length of the instruction at an address (`none` for an
-- access fault), the end of a load reservation, and the causes of traps. `print` is the result of
-- mmio_print.
pub record Spike (W : Type 0) : Type 0 where
  pub hart_step : W → ℕ → ℕ → W
  pub trap_regs : W → ℕ → TrapRegs
  pub put_trap_regs : W → ℕ → TrapRegs → W
  pub xpr : W → ℕ → ℕ → ℕ
  pub insn_length : W → ℕ → ℕ → Option ℕ
  pub yield_load_reservation : W → ℕ → W
  pub cause_fetch_access : ℕ
  pub cause_breakpoint : ℕ
  pub cause_machine_ecall : ℕ
  pub print : W → ℕ → Bool

-- The classes of trap handlers; `return_addr` is the field of RefSiTrapHandler.
pub data Handler : Type 0 where
  base_handler default_handler : Handler
  refsi_handler : (return_addr : ℕ) → Handler

abbrev pub host_io_cmd_exit : ℕ
host_io_cmd_exit = 0

abbrev pub host_io_cmd_putstring : ℕ
host_io_cmd_putstring = 1

abbrev pub host_io_cmd_barrier : ℕ
host_io_cmd_barrier = 2

module _ {W : Type 0} (spike : Spike W) where
  -- The system call of the current hart, by the code in a7 with the argument in a0.
  unfoldable pub dispatch_ecall : Sim W → ℕ → ℕ → Bool × Sim W
  dispatch_ecall s opc val =
      if opc == host_io_cmd_exit
      then (true, set_exited s val)
      else if opc == host_io_cmd_putstring
      then (spike.print s.state val, s)
      else if opc == host_io_cmd_barrier
      then handle_barrier s val
      else (false, s)

  -- default_trap_handler::handle_ecall
  unfoldable pub handle_ecall : Sim W → Bool × Sim W
  handle_ecall s = elim (get_hart s s.current_hart_id) [
    | none ↦ (false, s)
    | some hart ↦ dispatch_ecall s (spike.xpr s.state hart 17) (spike.xpr s.state hart 10)
  ]

  -- A trap that is not handled aborts the simulation.
  unfoldable pub abort : Sim W → ℕ → Bool × Sim W
  abort s cause = (false, set_exited s (bit_or 0x80000000 cause))

  -- default_trap_handler::handle_trap
  unfoldable pub default_handle_trap : ℕ → Sim W → Bool × Sim W
  default_handle_trap cause s =
      if cause == spike.cause_machine_ecall
      then (let (handled, s') = handle_ecall s in if handled then (true, s') else abort s' cause)
      else abort s cause

  -- handle_trap of each class. The kernel's return is a graceful exit of the hart.
  unfoldable pub handler_handle_trap : Handler → ℕ → ℕ → Sim W → Bool × Sim W
  handler_handle_trap Handler.base_handler cause pc s = (false, s)
  handler_handle_trap Handler.default_handler cause pc s = default_handle_trap cause s
  handler_handle_trap (Handler.refsi_handler return_addr) cause pc s =
      if (cause == spike.cause_fetch_access || cause == spike.cause_breakpoint) && pc == return_addr
      then (true, set_exited s 0)
      else default_handle_trap cause s

  -- slim_sim_t::return_from_trap
  unfoldable pub return_from_trap : Sim W → ℕ → ℕ → Sim W
  return_from_trap s hart new_pc = record s {
    state = spike.put_trap_regs s.state hart (record (spike.trap_regs s.state hart) {
      mcause = 0;
      mtval = 0;
      mtval2 = 0;
      mtinst = 0;
      mepc = 0;
      pc = new_pc;
    });
  }

  abbrev insn_end : W → ℕ → ℕ → ℕ
  insn_end w hart pc = elim (spike.insn_length w hart pc) [ none ↦ pc | some n ↦ add64 pc n ]

  -- slim_sim_t::handle_trap
  unfoldable pub handle_trap : Handler → Sim W → ℕ → Sim W
  handle_trap handler s hart =
      let regs = spike.trap_regs s.state hart in
      let (resume, s') = handler_handle_trap handler regs.mcause regs.mepc s in
      if resume
      then (let old_pc = (spike.trap_regs s'.state hart).mepc in
          return_from_trap s' hart (insn_end s'.state hart old_pc))
      else s'

  -- slim_sim_t::handle_breakpoint
  unfoldable pub handle_breakpoint : Option Handler → Sim W → ℕ → Sim W
  handle_breakpoint none s hart = set_exited s (bit_or 0x80000000 spike.cause_breakpoint)
  handle_breakpoint (some handler) s hart =
      (handler_handle_trap handler spike.cause_breakpoint (spike.trap_regs s.state hart).pc s).1
