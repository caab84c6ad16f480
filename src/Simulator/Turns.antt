-- ===== src/Simulator/Turns.antt =====
-- The loop that gives the harts their turns: slim_sim_t::step, run_single_step and run
-- (driver/source/refsidrv/slim_sim.cpp).
use nupu_refsi.Prelude.{
  ℕ, zero, suc, ◌+◌, ◌-◌, true, false, Option, none, some, min, ltb, ◌==◌, ◌!=◌, if◌then◌else◌,
  get_or, replicate, sub64, u32,
}
use nupu_refsi.Simulator.{Sim, get_hart_number, set_first}
use nupu_refsi.Simulator.Traps.{Spike, Handler, handle_trap, handle_breakpoint}

abbrev pub interleave : ℕ
interleave = 5000

-- The state in which slim_sim_t::run starts its loop; `pre_run_callback` is the user's.
unfoldable pub start_run : {W : Type 0} → (Sim W → Sim W) → Sim W → Sim W
start_run pre_run_callback s = pre_run_callback (record s {
  exit_code = 0;
  signal_exit = false;
  current_hart_id = 0;
  current_step = 0;
  is_hart_running = set_first (get_hart_number s) true (replicate s.harts false);
  hart_barrier_address = replicate s.harts 0;
})

module _ {W : Type 0} (spike : Spike W) (trap_handler : Option Handler) where
  -- What follows the instructions of a hart.
  unfoldable pub after_step : Sim W → Sim W
  after_step s =
      let hart = s.current_hart_id in
      let regs = spike.trap_regs s.state hart in
      elim trap_handler [
        | none ↦ if regs.pc == regs.bp_addr then handle_breakpoint spike none s hart else s
        | some handler ↦
            if regs.mcause != 0
            then handle_trap spike handler s hart
            else if regs.pc == regs.bp_addr
            then handle_breakpoint spike (some handler) s hart
            else s
      ]

  unfoldable pub execute_hart : ℕ → Sim W → Sim W
  execute_hart steps s =
      if get_or s.is_hart_running s.current_hart_id false
      then after_step (record s { state = spike.hart_step s.state s.current_hart_id steps })
      else s

  -- The next hart gets its turn after n steps.
  unfoldable pub next_hart : ℕ → Sim W → Sim W
  next_hart n s =
      if s.current_step == n
      then record s {
        current_step = 0;
        state =
            if get_or s.is_hart_running s.current_hart_id false
            then spike.yield_load_reservation s.state s.current_hart_id
            else s.state;
        current_hart_id =
            if suc s.current_hart_id == get_hart_number s then 0 else suc s.current_hart_id;
      }
      else s

  -- A round of the loop of slim_sim_t::step.
  unfoldable pub turn : ℕ → ℕ → Sim W → Sim W
  turn n steps s =
      let s' = execute_hart steps s in
      next_hart n (record s' { current_step = s'.current_step + steps })

  -- The loop from instruction i on; the first argument bounds its rounds.
  unfoldable pub step_from : ℕ → ℕ → ℕ → Sim W → Option (Sim W)
  step_from zero n i s = if ltb i n then none else some s
  step_from (suc fuel) n i s = elim (ltb i n) [
    | false ↦ some s
    | true ↦
        let steps = min (n - i) (sub64 interleave s.current_step) in
        step_from fuel n (i + steps) (turn n steps s)
  ]

  -- slim_sim_t::step
  unfoldable pub step : ℕ → Sim W → Option (Sim W)
  step n s = step_from n n 0 s

  -- slim_sim_t::run_single_step
  unfoldable pub run_single_step : ℕ → Sim W → Option (Sim W)
  run_single_step zero s = some s
  run_single_step (suc steps) s = elim s.signal_exit [
    | true ↦ some s
    | false ↦ elim (step 1 s) [ none ↦ none | some s' ↦ run_single_step steps s' ]
  ]

  -- The first n rounds of the loop of slim_sim_t::run without the debugger.
  unfoldable pub rounds : ℕ → Sim W → Option (Sim W)
  rounds zero s = some s
  rounds (suc n) s = elim s.signal_exit [
    | true ↦ some s
    | false ↦ elim (step interleave s) [ none ↦ none | some s' ↦ rounds n s' ]
  ]

  -- slim_sim_t::run, with the bits of the int that it returns; `none` when n rounds do not end the
  -- simulation.
  unfoldable pub run : ℕ → (Sim W → Sim W) → Sim W → Option ℕ
  run n pre_run_callback s = elim (rounds n (start_run pre_run_callback s)) [
    | none ↦ none
    | some t ↦ if t.signal_exit then some (u32 t.exit_code) else none
  ]
