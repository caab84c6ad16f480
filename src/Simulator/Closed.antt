-- ===== src/Simulator/Closed.antt =====
-- What the operations on the tables of the harts preserve, the traps and the execution of a hart do.
use nupu_refsi.Prelude.{
  ℕ, inl, inr, Bool, false, ◌&&◌, ◌||◌, Option, none, some, ◌==◌, ◌!=◌, get_or, if_ind,
  Option-cases,
}
use nupu_refsi.Simulator.{Sim, get_hart, set_exited, handle_barrier}
use nupu_refsi.Simulator.Traps.{
  Spike, Handler, dispatch_ecall, handle_ecall, abort, default_handle_trap, handler_handle_trap,
  return_from_trap, handle_trap, handle_breakpoint, host_io_cmd_exit, host_io_cmd_putstring,
  host_io_cmd_barrier,
}
use nupu_refsi.Simulator.Turns.{after_step, execute_hart}

-- A property that the end of a hart, the barrier and a change of the harts' own state preserve.
pub record Closed {W : Type 0} (P : Sim W → Type 0) : Type 0 where
  pub exited : (s : Sim W) (code : ℕ) → P s → P (set_exited s code)
  pub barrier : (s : Sim W) (link : ℕ) → P s → P (handle_barrier s link).1
  pub moved : (s : Sim W) (w : W) → P s → P (record s { state = w })

module _ {W : Type 0} (spike : Spike W) (P : Sim W → Type 0) (c : Closed P) where
  dispatch_ecall-keeps : (s : Sim W) (opc val : ℕ) → P s → P (dispatch_ecall spike s opc val).1
  unfolding dispatch_ecall
  dispatch_ecall-keeps s opc val h =
      let Q : Bool × Sim W → Type 0 = λ r. P r.1 in
      if_ind Q (opc == host_io_cmd_exit) _ _ (λ _. c.exited s val h)
        (λ _.
          if_ind Q (opc == host_io_cmd_putstring) _ _ (λ _. h)
            (λ _. if_ind Q (opc == host_io_cmd_barrier) _ _ (λ _. c.barrier s val h) (λ _. h)))

  handle_ecall-keeps : (s : Sim W) → P s → P (handle_ecall spike s).1
  unfolding handle_ecall
  handle_ecall-keeps s h = elim (Option-cases (get_hart s s.current_hart_id)) [
    | inl none_hart ↦ rw (none_hart, handle_ecall) h
    | inr (hart, found) ↦ rw (found, handle_ecall) (dispatch_ecall-keeps s _ _ h)
  ]

  default_handle_trap-keeps :
      (cause : ℕ) (s : Sim W) → P s → P (default_handle_trap spike cause s).1
  unfolding default_handle_trap abort
  default_handle_trap-keeps cause s h =
      let Q : Bool × Sim W → Type 0 = λ r. P r.1 in
      let s' = handle_ecall spike s in
      let h' : P s'.1 = handle_ecall-keeps s h in
      if_ind Q (cause == spike.cause_machine_ecall) _ _
        (λ _. if_ind Q s'.0 _ _ (λ _. h') (λ _. c.exited s'.1 _ h')) (λ _. c.exited s _ h)

  handler_handle_trap-keeps :
      (handler : Handler) (cause pc : ℕ) (s : Sim W)
      → P s
      → P (handler_handle_trap spike handler cause pc s).1
  unfolding handler_handle_trap
  handler_handle_trap-keeps Handler.base_handler cause pc s h = h
  handler_handle_trap-keeps Handler.default_handler cause pc s h =
      default_handle_trap-keeps cause s h
  handler_handle_trap-keeps (Handler.refsi_handler ra) cause pc s h =
      let Q : Bool × Sim W → Type 0 = λ r. P r.1 in
      if_ind Q ((cause == spike.cause_fetch_access || cause == spike.cause_breakpoint) && pc == ra)
        _ _ (λ _. c.exited s 0 h) (λ _. default_handle_trap-keeps cause s h)

  return_from_trap-keeps :
      (s : Sim W) (hart new_pc : ℕ) → P s → P (return_from_trap spike s hart new_pc)
  unfolding return_from_trap
  return_from_trap-keeps s hart new_pc h = c.moved s _ h

  handle_trap-keeps :
      (handler : Handler) (s : Sim W) (hart : ℕ) → P s → P (handle_trap spike handler s hart)
  unfolding handle_trap
  handle_trap-keeps handler s hart h =
      let regs = spike.trap_regs s.state hart in
      let handled = handler_handle_trap spike handler regs.mcause regs.mepc s in
      let h' : P handled.1 = handler_handle_trap-keeps handler _ _ s h in
      if_ind P handled.0 _ _ (λ _. return_from_trap-keeps handled.1 hart _ h') (λ _. h')

  handle_breakpoint-keeps :
      (handler : Option Handler) (s : Sim W) (hart : ℕ)
      → P s
      → P (handle_breakpoint spike handler s hart)
  unfolding handle_breakpoint
  handle_breakpoint-keeps none s hart h = c.exited s _ h
  handle_breakpoint-keeps (some handler) s hart h = handler_handle_trap-keeps handler _ _ s h

  after_step-keeps : (handler : Option Handler) (s : Sim W) → P s → P (after_step spike handler s)
  unfolding after_step
  after_step-keeps none s h =
      let regs = spike.trap_regs s.state s.current_hart_id in
      if_ind P (regs.pc == regs.bp_addr) _ _ (λ _. handle_breakpoint-keeps none s _ h) (λ _. h)
  after_step-keeps (some handler) s h =
      let regs = spike.trap_regs s.state s.current_hart_id in
      if_ind P (regs.mcause != 0) _ _ (λ _. handle_trap-keeps handler s _ h)
        (λ _.
          if_ind P (regs.pc == regs.bp_addr) _ _ (λ _. handle_breakpoint-keeps (some handler) s _ h)
            (λ _. h))

  pub execute_hart-keeps :
      (handler : Option Handler) (steps : ℕ) (s : Sim W)
      → P s
      → P (execute_hart spike handler steps s)
  unfolding execute_hart
  execute_hart-keeps handler steps s h =
      if_ind P (get_or s.is_hart_running s.current_hart_id false) _ _
        (λ _. after_step-keeps handler _ (c.moved s _ h)) (λ _. h)
