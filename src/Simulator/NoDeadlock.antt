-- ===== src/Simulator/NoDeadlock.antt =====
-- The loop of slim_sim_t::step keeps the simulation alive.
use nupu_refsi.Prelude.{
  ℕ, ◌<◌, ◌≡◌, ◌⊎◌, inl, inr, refl, ◌∙◌, true, false, Option, some, ◌==◌, replicate, arith, if_ind,
}
use nupu_refsi.Simulator.{Sim, any, get_hart_number}
use nupu_refsi.Simulator.Traps.{Spike, Handler}
use nupu_refsi.Simulator.Turns.{execute_hart, next_hart, turn, interleave, rounds, start_run}
use nupu_refsi.Simulator.Closed.{execute_hart-keeps}
use nupu_refsi.Simulator.Fair.{Placed, rounds_ind}
use nupu_refsi.Simulator.Alive.{
  Sized, Alive, Alive-Closed, reindexed, any-set_first, length-set_first, length-replicate,
  positive_harts,
}

module _ {W : Type 0} (spike : Spike W) where
  next_hart-Alive :
      (handler : Option Handler) (n : ℕ) (s : Sim W) → Alive s → Alive (next_hart spike handler n s)
  unfolding next_hart
  next_hart-Alive handler n s h =
      if_ind Alive (s.current_step == n) _ _ (λ _. reindexed s _ h refl refl refl refl) (λ _. h)

  turn-Alive :
      (handler : Option Handler) (n steps : ℕ) (s : Sim W)
      → Alive s
      → Alive (turn spike handler n steps s)
  unfolding turn
  turn-Alive handler n steps s h = next_hart-Alive handler n _ (
      reindexed (execute_hart spike handler steps s) _
        (execute_hart-keeps spike Alive Alive-Closed handler steps s h) refl refl refl refl)

  start_run-Alive : (s : Sim W) → 0 < s.harts → Alive (start_run (λ r. r) s)
  unfolding start_run
  start_run-Alive s p =
      let idle = replicate s.harts false in
      let sized : Sized (start_run (λ r. r) s) = record {
        running_size =
            length-set_first (get_hart_number s) true idle ∙ length-replicate s.harts false;
        address_size = length-replicate s.harts 0;
        some_hart = p;
      } in
      record {
        sized = sized;
        live = inr (
            any-set_first (get_hart_number s) idle (positive_harts s p)
              (omega (arith, p, length-replicate s.harts false)));
      }

  start_run-Placed : (s : Sim W) → Placed 0 0 (get_hart_number s) (start_run (λ r. r) s)
  unfolding start_run get_hart_number
  start_run-Placed s = record { at_step = refl; at_hart = refl; at_number = refl }

  -- A simulation of one hart or more does not stand still: any number of rounds of run end, and
  -- then the simulation is over or some hart runs.
  pub no_deadlock :
      (handler : Option Handler) (s : Sim W) (n : ℕ)
      → 0 < s.harts
      → (t : Sim W) × (rounds spike handler n (start_run (λ r. r) s) ≡ some t)
        × ((t.signal_exit ≡ true) ⊎ (any t.is_hart_running ≡ true))
  no_deadlock handler s n p =
      let started = start_run-Alive s p in
      let (t, run, end) =
        rounds_ind spike handler Alive (get_hart_number s)
          (turn-Alive handler interleave interleave) n 0 _ (positive_harts s p) (start_run-Placed s)
          started in
      (t, run, elim end [ inl over ↦ inl over | inr (_, alive) ↦ alive.live ])
