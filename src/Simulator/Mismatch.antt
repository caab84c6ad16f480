-- ===== src/Simulator/Mismatch.antt =====
-- A barrier that is refused, through the trap handlers: the end of the simulation.
use nupu_refsi.Prelude.{
  ℕ, zero, suc, ◌<◌, ◌≡◌, ◌≢◌, refl, Bool, true, false, List, [], ◌∷◌, bit_or, ltb, ◌==◌, ◌!=◌,
  ◌&&◌, get_or, set, length, replicate, arith, Bool-cases, inl, inr,
}
use nupu_refsi.Simulator.{Sim, any, get_hart, get_hart_number, set_exited, sleep_at}
use nupu_refsi.Simulator.Alive.{Sized}
use nupu_refsi.Simulator.Barrier.{barrier_refused}
use nupu_refsi.Simulator.Traps.{
  Spike, Handler, host_io_cmd_barrier, dispatch_ecall, handle_ecall, abort, default_handle_trap,
  handler_handle_trap, handle_trap,
}

and_false : (b : Bool) → (b && false) ≡ false
and_false true = refl
and_false false = refl

same_cause : (c : ℕ) → (c == c) ≡ true
same_cause c = ground arith

any-set : (xs : List Bool) (i : ℕ) → any xs ≡ false → any (set xs i false) ≡ false
unfolding any
any-set [] i e = e
any-set (false ∷ xs) zero e = e
any-set (true ∷ xs) i e = absurd (ground (arith, e))
any-set (false ∷ xs) (suc i) e = any-set xs i e

any-replicate : (n : ℕ) → any (replicate n false) ≡ false
unfolding any
any-replicate zero = refl
any-replicate (suc n) = any-replicate n

-- The simulation is over with an exit code.
pub record Ended {W : Type 0} (code : ℕ) (t : Sim W) : Type 0 where
  pub signalled : t.signal_exit ≡ true
  pub with_code : t.exit_code ≡ code
  pub asleep : any t.is_hart_running ≡ false

module _ {W : Type 0} where
  -- An exit when no hart runs ends the simulation, with any code.
  set_exited-Ended :
      (s : Sim W) (code : ℕ) → any s.is_hart_running ≡ false → Ended code (set_exited s code)
  unfolding set_exited
  set_exited-Ended s code idle = elim (Bool-cases (code != 0)) [
    | inl bad ↦
        rw (bad, set_exited)
          (record {
            signalled = refl;
            with_code = refl;
            asleep = any-replicate (length s.is_hart_running);
          })
    | inr good ↦
        rw (good, set_exited, any-set s.is_hart_running s.current_hart_id idle)
          (record {
            signalled = refl;
            with_code = refl;
            asleep = any-set s.is_hart_running s.current_hart_id idle;
          })
  ]

  -- The last running hart calls the barrier while another active hart does not wait at the address
  -- where hart 0 waits: slim_sim_t::handle_trap, with the trap handler of the RefSi device, ends the
  -- simulation, and no hart runs. The exit code is 0x80000000 with the cause of the call, not the -1
  -- of the barrier. The program counter of the call is not the return address of a kernel.
  pub barrier-mismatch :
      (spike : Spike W) (return_addr : ℕ) (s : Sim W) (link i : ℕ)
      → Sized s
      → s.current_hart_id < get_hart_number s
      → ((j : ℕ) → j ≢ s.current_hart_id → get_or s.is_hart_running j false ≡ false)
      → i < get_hart_number s
      → get_or (sleep_at s link).hart_barrier_address i 0
        ≢ get_or (sleep_at s link).hart_barrier_address 0 0
      → (spike.trap_regs s.state s.current_hart_id).mcause ≡ spike.cause_machine_ecall
      → (spike.trap_regs s.state s.current_hart_id).mepc ≢ return_addr
      → spike.xpr s.state s.current_hart_id 17 ≡ host_io_cmd_barrier
      → spike.xpr s.state s.current_hart_id 10 ≡ link
      → Ended
          (bit_or 0x80000000 spike.cause_machine_ecall)
          (handle_trap spike (Handler.refsi_handler return_addr) s s.current_hart_id)
  unfolding handle_trap handler_handle_trap default_handle_trap handle_ecall dispatch_ecall abort
      get_hart
  barrier-mismatch spike return_addr s link i z cur asleep p ne cause pc code arg =
      let (t, refused, idle) = barrier_refused s link i z cur asleep p ne in
      let ended = set_exited-Ended t (bit_or 0x80000000 spike.cause_machine_ecall) idle in
      let here : ltb s.current_hart_id (get_hart_number s) ≡ true = ground (arith, cur) in
      let elsewhere : ((spike.trap_regs s.state s.current_hart_id).mepc == return_addr) ≡ false =
        ground (arith, pc) in
      let called : handle_ecall spike s ≡ (false, t) =
        rw (here, handle_ecall, code, arg, dispatch_ecall) refused in
      let regs = spike.trap_regs s.state s.current_hart_id in
      let trapped : handler_handle_trap spike (Handler.refsi_handler return_addr) regs.mcause
            regs.mepc s
          ≡ (false, set_exited t (bit_or 0x80000000 spike.cause_machine_ecall)) =
        rw
          (
            elsewhere,
            handler_handle_trap,
            and_false,
            cause,
            default_handle_trap,
            same_cause spike.cause_machine_ecall,
            called,
            abort,
          )
          refl in
      rw (trapped, handle_trap) ended
