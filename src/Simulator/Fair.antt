-- ===== src/Simulator/Fair.antt =====
-- The turns of the harts: a call of slim_sim_t::step is one turn, and every hart gets its turn.
use nupu_refsi.Prelude.{
  ℕ, zero, suc, ◌+◌, ◌-◌, ◌%◌, ◌^◌, ◌<◌, ◌≤◌, ◌≡◌, ◌⊎◌, inl, inr, refl, sym, ap, subst, ◌∙◌, Bool,
  true, false, Option, some, min, ◌==◌, ◌!=◌, if◌then◌else◌, get_or, set, arith, if_ind, Bool-cases,
  sub64, lt→ltb, le→ltb,
}
use native.Mathlib.Nat.{mod_self, mod-eq_of_lt, mod-lt, mod-add-mod, add-mod-mod, add-mod_right}
use nupu_refsi.Simulator.{
  Sim, any, get_hart_number, set_exited, release, handle_barrier, sleep_at, all_equal,
}
use nupu_refsi.Simulator.Closed.{Closed, execute_hart-keeps}
use nupu_refsi.Simulator.Traps.{Spike, Handler}
use nupu_refsi.Simulator.Turns.{execute_hart, next_hart, turn, step_from, step, rounds, interleave}

-- The fields that only the loop of slim_sim_t::step changes.
pub record Placed {W : Type 0} (current_step hart number : ℕ) (s : Sim W) : Type 0 where
  pub at_step : s.current_step ≡ current_step
  pub at_hart : s.current_hart_id ≡ hart
  pub at_number : get_hart_number s ≡ number

module _ {W : Type 0} where
  moved_place :
      (s t : Sim W) {c h n : ℕ}
      → Placed c h n s
      → s.current_step ≡ t.current_step
      → s.current_hart_id ≡ t.current_hart_id
      → get_hart_number s ≡ get_hart_number t
      → Placed c h n t
  moved_place s t p a b e = record {
    at_step = sym a ∙ p.at_step;
    at_hart = sym b ∙ p.at_hart;
    at_number = sym e ∙ p.at_number;
  }

  set_exited-Placed :
      (s : Sim W) (code : ℕ) {c h n : ℕ} → Placed c h n s → Placed c h n (set_exited s code)
  unfolding set_exited get_hart_number
  set_exited-Placed s code {c} {h} {n} p =
      if_ind (Placed c h n) (code != 0) _ _ (λ _. moved_place s _ p refl refl refl)
        (λ _.
          if_ind (Placed c h n) (any (set s.is_hart_running s.current_hart_id false)) _ _
            (λ _. moved_place s _ p refl refl refl) (λ _. moved_place s _ p refl refl refl))

  release-Placed : (s : Sim W) {c h n : ℕ} → Placed c h n s → Placed c h n (release s).1
  unfolding release get_hart_number
  release-Placed s {c} {h} {n} p =
      if_ind (λ (r : Bool × Sim W). Placed c h n r.1)
        (all_equal (get_hart_number s) (get_or s.hart_barrier_address 0 0) s.hart_barrier_address) _
        _ (λ _. moved_place s _ p refl refl refl) (λ _. set_exited-Placed s (2 ^ 64 - 1) p)

  handle_barrier-Placed :
      (s : Sim W) (link : ℕ) {c h n : ℕ} → Placed c h n s → Placed c h n (handle_barrier s link).1
  unfolding handle_barrier sleep_at get_hart_number
  handle_barrier-Placed s link {c} {h} {n} p =
      let asleep : Placed c h n (sleep_at s link) = moved_place s _ p refl refl refl in
      if_ind (λ (r : Bool × Sim W). Placed c h n r.1) (any (sleep_at s link).is_hart_running) _ _
        (λ _. asleep) (λ _. release-Placed (sleep_at s link) asleep)

  Placed-Closed : (c h n : ℕ) → Closed {W = W} (Placed c h n)
  unfolding get_hart_number
  Placed-Closed c h n = record {
    exited = λ s code p. set_exited-Placed s code p;
    barrier = λ s link p. handle_barrier-Placed s link p;
    moved = λ s w p. moved_place s _ p refl refl refl;
  }

  stepped :
      (s : Sim W) (n : ℕ) {h number : ℕ}
      → Placed 0 h number s
      → Placed n h number (record s { current_step = s.current_step + n })
  unfolding get_hart_number
  stepped s n p = record {
    at_step = omega (arith, p.at_step);
    at_hart = p.at_hart;
    at_number = p.at_number;
  }

-- The successor of a hart, the first after the last.
next_id : (h n : ℕ) → h < n → (if suc h == n then 0 else suc h) ≡ (h + 1) % n
next_id h n p =
    let h_one : (suc h == n) ≡ true → h + 1 ≡ n = λ e. ground (arith, e) in
    let below : (suc h == n) ≡ false → h + 1 < n = λ e. ground (arith, e, p) in
    elim (Bool-cases (suc h == n)) [
      | inl last ↦ rw last (sym (ap (λ k. k % n) (h_one last) ∙ mod_self n))
      | inr more ↦ rw more (omega arith ∙ sym (mod-eq_of_lt (below more)))
    ]

module _ {W : Type 0} (spike : Spike W) (handler : Option Handler) where
  next_hart-Placed :
      (n : ℕ) (s : Sim W) {h number : ℕ}
      → Placed n h number s
      → h < number
      → Placed 0 ((h + 1) % number) number (next_hart spike handler n s)
  unfolding next_hart get_hart_number
  next_hart-Placed n s {h} {number} p below =
      if_ind (Placed 0 ((h + 1) % number) number) (s.current_step == n) _ _
        (λ _. record {
          at_step = refl;
          at_hart = rw (p.at_hart, p.at_number) (next_id h number below);
          at_number = p.at_number;
        })
        (λ other. absurd (ground (arith, other, p.at_step)))

  -- A turn of n steps that starts at step 0 ends at step 0, with the next hart.
  pub turn-Placed :
      (n : ℕ) (s : Sim W) {h number : ℕ}
      → Placed 0 h number s
      → h < number
      → Placed 0 ((h + 1) % number) number (turn spike handler n n s)
  unfolding turn
  turn-Placed n s {h} {number} p below =
      let s' = execute_hart spike handler n s in
      let p' : Placed 0 h number s' =
        execute_hart-keeps spike (Placed 0 h number) (Placed-Closed 0 h number) handler n s p in
      next_hart-Placed n (record s' { current_step = s'.current_step + n }) (stepped s' n p') below

  step_from_end : (fuel n : ℕ) (s : Sim W) → step_from spike handler fuel n n s ≡ some s
  unfolding step_from
  step_from_end zero n s = rw (le→ltb n n (omega arith)) refl
  step_from_end (suc fuel) n s = rw (le→ltb n n (omega arith), step_from) refl

  -- A call of step from step 0, with at most 5000 instructions, is a turn.
  pub step_is_turn :
      (n : ℕ) (s : Sim W)
      → 0 < n
      → n ≤ interleave
      → s.current_step ≡ 0
      → step spike handler n s ≡ some (turn spike handler n n s)
  unfolding step step_from
  step_is_turn zero s p q e = absurd (omega (arith, p))
  step_is_turn (suc n) s p q e =
      let steps : min (suc n - 0) (sub64 interleave s.current_step) ≡ suc n =
        rw e (omega (arith, q)) in
      let next : 0 + min (suc n - 0) (sub64 interleave s.current_step) ≡ suc n =
        rw steps (omega arith) in
      rw (lt→ltb 0 (suc n) p, step_from, step)
        (subst
          (λ k.
            step_from spike handler n (suc n) k
              (turn spike handler (suc n) (min (suc n - 0) (sub64 interleave s.current_step)) s)
            ≡ some (turn spike handler (suc n) (suc n) s))
          (sym next)
          (subst
            (λ k.
              step_from spike handler n (suc n) (suc n) (turn spike handler (suc n) k s)
              ≡ some (turn spike handler (suc n) (suc n) s))
            (sym steps) (step_from_end n (suc n) (turn spike handler (suc n) (suc n) s))))

  rounds_over : (n : ℕ) (s : Sim W) → s.signal_exit ≡ true → rounds spike handler n s ≡ some s
  unfolding rounds
  rounds_over zero s over = refl
  rounds_over (suc n) s over = simp (over, rounds)

  -- A round of the loop of slim_sim_t::run is a call of step.
  round_is_step :
      (n : ℕ) (s t : Sim W)
      → s.signal_exit ≡ false
      → step spike handler interleave s ≡ some t
      → rounds spike handler (suc n) s ≡ rounds spike handler n t
  unfolding rounds
  round_is_step n s t going e = simp (going, e, rounds)

  -- An invariant of the turns holds after any number of rounds that do not end the simulation.
  pub rounds_ind :
      (P : Sim W → Type 0) (number : ℕ)
      → ((s : Sim W) → P s → P (turn spike handler interleave interleave s))
      → (n h : ℕ) (s : Sim W) → h < number
      → Placed 0 h number s
      → P s
      → (t : Sim W) × (rounds spike handler n s ≡ some t)
        × ((t.signal_exit ≡ true) ⊎ (Placed 0 ((h + n) % number) number t × P t))
  unfolding rounds
  rounds_ind P number keep zero h s below p q = (
    s,
    refl,
    inr (
      subst (λ k. Placed 0 k number s)
          (sym (ap (λ k. k % number) (omega arith) ∙ mod-eq_of_lt below)) p,
      q,
    ),
  )
  rounds_ind P number keep (suc n) h s below p q = elim (Bool-cases s.signal_exit) [
    | inl over ↦ (s, rounds_over (suc n) s over, inl over)
    | inr going ↦
        let (t, run, end) =
          rounds_ind P number keep n ((h + 1) % number) (turn spike handler interleave interleave s)
            (mod-lt (h + 1) (omega (arith, below))) (turn-Placed interleave s p below) (keep s q) in
        (
          t,
          round_is_step n s _ going
                (step_is_turn interleave s (omega arith) (omega arith) p.at_step)
              ∙ run,
          subst (λ k. (t.signal_exit ≡ true) ⊎ (Placed 0 k number t × P t))
              (mod-add-mod (h + 1) number n ∙ ap (λ k. k % number) (omega arith)) end,
        )
  ]

  -- Whichever hart has the turn, in fewer rounds of run than there are harts the simulation is over
  -- or hart j has the turn: from a state at the start of a turn.
  pub every_hart_turn :
      (s : Sim W) (h number j : ℕ)
      → h < number
      → Placed 0 h number s
      → j < number
      → (n : ℕ) × (t : Sim W) × (n < number)
        × (rounds spike handler n s ≡ some t)
        × ((t.signal_exit ≡ true) ⊎ (t.current_hart_id ≡ j))
  every_hart_turn s h number j below p q =
      let n = (j + (number - h)) % number in
      let (t, run, end) = rounds_ind (λ s. s ≡ s) number (λ s _. refl) n h s below p refl in
      let arrive : (h + n) % number ≡ j =
        add-mod-mod h (j + (number - h)) number
        ∙ ap (λ k. k % number) (omega (arith, below))
        ∙ add-mod_right j number
        ∙ mod-eq_of_lt q in
      (
        n,
        t,
        mod-lt (j + (number - h)) (omega (arith, q)),
        run,
        elim end [ inl over ↦ inl over | inr (placed, _) ↦ inr (placed.at_hart ∙ arrive) ],
      )
