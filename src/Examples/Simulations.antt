-- ===== src/Examples/Simulations.antt =====
-- The theorems on the simulator at concrete inputs: four harts on a small simulator, whose state is
-- the number of instructions executed.
use nupu_refsi.Prelude.{
  zero, suc, ℕ, ◌+◌, ◌<◌, ◌≡◌, ◌≢◌, ◌⊎◌, refl, true, false, [], ◌∷◌, Option, some, get_or, bit_or,
  arith, ◌==◌, if◌then◌else◌,
}
use nupu_refsi.Simulator.{Sim, any, sleep_at, handle_barrier, get_hart_number}
use nupu_refsi.Simulator.Traps.{Spike, TrapRegs, Handler, handle_trap}
use nupu_refsi.Simulator.Turns.{rounds, start_run}
use nupu_refsi.Simulator.Alive.{Sized}
use nupu_refsi.Simulator.NoDeadlock.{no_deadlock}
use nupu_refsi.Simulator.Fair.{Placed, every_hart_turn}
use nupu_refsi.Simulator.Barrier.{Woken, barrier-release}
use nupu_refsi.Simulator.Mismatch.{Ended, barrier-mismatch}

-- A hart that makes an environment call with a7 = 2 (a barrier) and a0 = 64 after its instructions.
abbrev regs : TrapRegs
regs = record { mcause = 11; mtval = 0; mtval2 = 0; mtinst = 0; mepc = 64; pc = 64; bp_addr = 0 }

abbrev spike : Spike ℕ
spike = record {
  hart_step = λ w hart steps. w + steps;
  trap_regs = λ w hart. regs;
  put_trap_regs = λ w hart r. w;
  xpr = λ w hart reg. if reg == 17 then 2 else 64;
  insn_length = λ w hart pc. some 4;
  yield_load_reservation = λ w hart. w;
  cause_fetch_access = 1;
  cause_breakpoint = 3;
  cause_machine_ecall = 11;
  print = λ w addr. true;
}

abbrev handler : Option Handler
handler = some (Handler.refsi_handler 4096)

-- Hart 3 runs, the others wait at address 64.
abbrev waiting : Sim ℕ
waiting = record {
  harts = 4;
  max_harts = 0;
  current_step = 0;
  current_hart_id = 3;
  signal_exit = false;
  is_hart_running = false ∷ false ∷ false ∷ true ∷ [];
  hart_barrier_address = 64 ∷ 64 ∷ 64 ∷ 0 ∷ [];
  exit_code = 0;
  state = 0;
}

no_deadlock_example :
    (t : Sim ℕ) × (rounds spike handler 9 (start_run (λ r. r) waiting) ≡ some t)
    × ((t.signal_exit ≡ true) ⊎ (any t.is_hart_running ≡ true))
no_deadlock_example = no_deadlock spike handler waiting 9 (omega arith)

waiting_place : Placed 0 3 4 waiting
unfolding get_hart_number
waiting_place = record { at_step = refl; at_hart = refl; at_number = refl }

every_hart_turn_example :
    (n : ℕ) × (t : Sim ℕ) × (n < 4)
    × (rounds spike handler n waiting ≡ some t)
    × ((t.signal_exit ≡ true) ⊎ (t.current_hart_id ≡ 1))
every_hart_turn_example =
    every_hart_turn spike handler waiting 3 4 1 (omega arith) waiting_place (omega arith)

waiting-Sized : Sized waiting
waiting-Sized = record { running_size = refl; address_size = refl; some_hart = omega arith }

others_sleep : (i : ℕ) → i ≢ 3 → get_or waiting.is_hart_running i false ≡ false
others_sleep zero ne = refl
others_sleep (suc zero) ne = refl
others_sleep (suc (suc zero)) ne = refl
others_sleep (suc (suc (suc zero))) ne = absurd (ne refl)
others_sleep (suc (suc (suc (suc i)))) ne = refl

hart_3 : 3 < get_hart_number waiting
unfolding get_hart_number
hart_3 = omega arith

others_wait :
    (i : ℕ) → i < get_hart_number waiting → i ≢ 3 → get_or waiting.hart_barrier_address i 0 ≡ 64
unfolding get_hart_number
others_wait zero p ne = refl
others_wait (suc zero) p ne = refl
others_wait (suc (suc zero)) p ne = refl
others_wait (suc (suc (suc zero))) p ne = absurd (ne refl)
others_wait (suc (suc (suc (suc i)))) p ne = absurd (omega (arith, p))

barrier-release_example :
    (t : Sim ℕ) × (handle_barrier waiting 64 ≡ (true, t)) × Woken (get_hart_number waiting) t
barrier-release_example = barrier-release waiting 64 waiting-Sized hart_3 others_sleep others_wait

other_place :
    get_or (sleep_at waiting 72).hart_barrier_address 3 0
    ≢ get_or (sleep_at waiting 72).hart_barrier_address 0 0
unfolding sleep_at
other_place e = absurd (omega (arith, e))

-- The same harts, but with the address 72 in a0.
abbrev other_spike : Spike ℕ
other_spike = record spike { xpr = λ w hart reg. if reg == 17 then 2 else 72 }

barrier-mismatch_example :
    Ended (bit_or 0x80000000 11) (handle_trap other_spike (Handler.refsi_handler 4096) waiting 3)
barrier-mismatch_example =
    barrier-mismatch other_spike 4096 waiting 72 3 waiting-Sized hart_3 others_sleep hart_3
      other_place refl (λ e. absurd (omega (arith, e))) refl refl
