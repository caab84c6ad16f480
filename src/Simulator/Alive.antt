-- ===== src/Simulator/Alive.antt =====
-- While a simulation goes on some hart runs: there is no deadlock.
use nupu_refsi.Prelude.{
  ℕ, zero, suc, ◌-◌, ◌^◌, ◌<◌, ◌≡◌, ◌⊎◌, inl, inr, refl, sym, ap, ◌∙◌, Bool, true, false, List, [],
  ◌∷◌, ◌!=◌, get_or, set, replicate, length, length-set, arith, if_ind, Bool-cases,
}
use nupu_refsi.Simulator.{
  Sim, any, set_first, all_equal, get_hart_number, set_exited, sleep_at, release, handle_barrier,
}
use nupu_refsi.Simulator.Closed.{Closed}

pub length-replicate {ℓ} : {A : Type ℓ} (n : ℕ) (a : A) → length (replicate n a) ≡ n
length-replicate zero a = refl
length-replicate (suc n) a = ap suc (length-replicate n a)

pub length-set_first {ℓ} :
    {A : Type ℓ} (n : ℕ) (v : A) (xs : List A) → length (set_first n v xs) ≡ length xs
unfolding set_first
length-set_first zero v xs = refl
length-set_first (suc n) v [] = refl
length-set_first (suc n) v (x ∷ xs) = ap suc (length-set_first n v xs)

pub any-set_first :
    (n : ℕ) (xs : List Bool) → 0 < n → 0 < length xs → any (set_first n true xs) ≡ true
unfolding any set_first
any-set_first zero xs p q = absurd (omega arith)
any-set_first (suc n) [] p q = absurd (omega arith)
any-set_first (suc n) (x ∷ xs) p q = refl

-- The tables have an entry for each hart, and there is a hart.
pub record Sized {W : Type 0} (s : Sim W) : Type 0 where
  pub running_size : length s.is_hart_running ≡ s.harts
  pub address_size : length s.hart_barrier_address ≡ s.harts
  pub some_hart : 0 < s.harts

-- The simulation is over, or some hart runs.
pub record Alive {W : Type 0} (s : Sim W) : Type 0 where
  pub sized : Sized s
  pub live : (s.signal_exit ≡ true) ⊎ (any s.is_hart_running ≡ true)

module _ {W : Type 0} where
  set_exited-Alive : (s : Sim W) (code : ℕ) → Sized s → Alive (set_exited s code)
  unfolding set_exited
  set_exited-Alive s code z =
      let stopped = set s.is_hart_running s.current_hart_id false in
      let size = length-set s.is_hart_running s.current_hart_id false ∙ z.running_size in
      if_ind Alive (code != 0) _ _
        (λ _. record {
          sized = record {
            running_size = length-replicate (length s.is_hart_running) false ∙ z.running_size;
            address_size = z.address_size;
            some_hart = z.some_hart;
          };
          live = inl refl;
        })
        (λ _.
          if_ind Alive (any stopped) _ _
            (λ up. record {
              sized = record {
                running_size = size;
                address_size = z.address_size;
                some_hart = z.some_hart;
              };
              live = inr up;
            })
            (λ _. record {
              sized = record {
                running_size = size;
                address_size = z.address_size;
                some_hart = z.some_hart;
              };
              live = inl refl;
            }))

  pub positive_harts : (s : Sim W) → 0 < s.harts → 0 < get_hart_number s
  unfolding get_hart_number
  positive_harts s z = ground (arith, z)

  pub sleep_at-Sized : (s : Sim W) (link : ℕ) → Sized s → Sized (sleep_at s link)
  unfolding sleep_at
  sleep_at-Sized s link z = record {
    running_size = length-set s.is_hart_running s.current_hart_id false ∙ z.running_size;
    address_size = length-set s.hart_barrier_address s.current_hart_id link ∙ z.address_size;
    some_hart = z.some_hart;
  }

  release-Alive : (s : Sim W) → Sized s → Alive (release s).1
  unfolding release
  release-Alive s z =
      if_ind (λ (r : Bool × Sim W). Alive r.1)
        (all_equal (get_hart_number s) (get_or s.hart_barrier_address 0 0) s.hart_barrier_address) _
        _
        (λ _. record {
          sized = record {
            running_size =
                length-set_first (get_hart_number s) true s.is_hart_running ∙ z.running_size;
            address_size =
                length-set_first (get_hart_number s) 0 s.hart_barrier_address ∙ z.address_size;
            some_hart = z.some_hart;
          };
          live = inr (
              any-set_first (get_hart_number s) s.is_hart_running (positive_harts s z.some_hart)
                (omega (arith, z.running_size, z.some_hart)));
        })
        (λ _. set_exited-Alive s (2 ^ 64 - 1) z)

  handle_barrier-Alive : (s : Sim W) (link : ℕ) → Sized s → Alive (handle_barrier s link).1
  unfolding handle_barrier
  handle_barrier-Alive s link z = elim (Bool-cases (any (sleep_at s link).is_hart_running)) [
    | inl up ↦ rw (up, handle_barrier) (record { sized = sleep_at-Sized s link z; live = inr up })
    | inr down ↦
        rw (down, handle_barrier) (release-Alive (sleep_at s link) (sleep_at-Sized s link z))
  ]

  -- Only the tables, the number of harts and the end of the simulation take part.
  pub reindexed :
      (s t : Sim W)
      → Alive s
      → s.is_hart_running ≡ t.is_hart_running
      → s.hart_barrier_address ≡ t.hart_barrier_address
      → s.harts ≡ t.harts
      → s.signal_exit ≡ t.signal_exit
      → Alive t
  reindexed s t h r a k e = record {
    sized = record {
      running_size = rw (sym r, sym k) h.sized.running_size;
      address_size = rw (sym a, sym k) h.sized.address_size;
      some_hart = rw (sym k) h.sized.some_hart;
    };
    live = rw (sym r, sym e) h.live;
  }

  -- Being alive does not depend on the state of the harts, and the two operations on the tables
  -- lead to it.
  pub Alive-Closed : Closed {W = W} Alive
  Alive-Closed = record {
    exited = λ s code h. set_exited-Alive s code h.sized;
    barrier = λ s link h. handle_barrier-Alive s link h.sized;
    moved = λ s w h. reindexed s _ h refl refl refl refl;
  }
