-- ===== src/Simulator/Barrier.antt =====
-- The barrier of slim_sim_t::handle_barrier: the last hart to arrive wakes all of them.
use nupu_refsi.Prelude.{
  ℕ, zero, suc, ◌-◌, ◌^◌, ◌<◌, ◌≤◌, ◌≡◌, ◌≢◌, inl, inr, refl, sym, ap, subst, ◌∙◌, Bool, true,
  false, List, [], ◌∷◌, ◌==◌, ◌!=◌, get_or, set, length, replicate, arith, if_ind, Bool-cases,
}
use nupu_refsi.Simulator.{
  Sim, any, set_first, all_equal, get_hart_number, set_exited, sleep_at, release, handle_barrier,
}
use nupu_refsi.Simulator.Alive.{Sized, sleep_at-Sized}

get_or-set_same {ℓ} :
    {A : Type ℓ} (xs : List A) (i : ℕ) (v d : A) → i < length xs → get_or (set xs i v) i d ≡ v
get_or-set_same [] i v d p = absurd (omega (arith, p))
get_or-set_same (x ∷ xs) zero v d p = refl
get_or-set_same (x ∷ xs) (suc i) v d p = get_or-set_same xs i v d (omega (arith, p))

get_or-set_other {ℓ} :
    {A : Type ℓ} (xs : List A) (i j : ℕ) (v d : A) → i ≢ j → get_or (set xs i v) j d ≡ get_or xs j d
get_or-set_other [] i j v d ne = refl
get_or-set_other (x ∷ xs) zero zero v d ne = absurd (ne refl)
get_or-set_other (x ∷ xs) zero (suc j) v d ne = refl
get_or-set_other (x ∷ xs) (suc i) zero v d ne = refl
get_or-set_other (x ∷ xs) (suc i) (suc j) v d ne = get_or-set_other xs i j v d (λ e. ne (ap suc e))

get_or-set_first {ℓ} :
    {A : Type ℓ} (n : ℕ) (xs : List A) (v d : A) (i : ℕ)
    → i < n
    → i < length xs
    → get_or (set_first n v xs) i d ≡ v
unfolding set_first
get_or-set_first zero xs v d i p q = absurd (omega (arith, p))
get_or-set_first (suc n) [] v d i p q = absurd (omega (arith, q))
get_or-set_first (suc n) (x ∷ xs) v d zero p q = refl
get_or-set_first (suc n) (x ∷ xs) v d (suc i) p q =
    get_or-set_first n xs v d i (omega (arith, p)) (omega (arith, q))

get_or-replicate : (n j : ℕ) → get_or (replicate n false) j false ≡ false
get_or-replicate zero j = refl
get_or-replicate (suc n) zero = refl
get_or-replicate (suc n) (suc j) = get_or-replicate n j

none_running : (xs : List Bool) → ((i : ℕ) → get_or xs i false ≡ false) → any xs ≡ false
unfolding any
none_running [] h = refl
none_running (x ∷ xs) h = rw (h 0) (none_running xs (λ i. h (suc i)))

all_alike :
    (n address : ℕ) (xs : List ℕ)
    → ((i : ℕ) → i < n → get_or xs i 0 ≡ address)
    → n ≤ length xs
    → all_equal n address xs ≡ true
unfolding all_equal
all_alike zero address xs h p = refl
all_alike (suc n) address [] h p = refl
all_alike (suc n) address (x ∷ xs) h p =
    if_ind (λ b. b ≡ true) (x != address) _ _ (λ ne. absurd (ground (arith, h 0 (omega arith), ne)))
      (λ _. all_alike n address xs (λ i q. h (suc i) (omega (arith, q))) (omega (arith, p)))

-- One address that is not like the others is seen.
odd_one :
    (n address : ℕ) (xs : List ℕ) (i : ℕ)
    → i < n
    → i < length xs
    → get_or xs i 0 ≢ address
    → all_equal n address xs ≡ false
unfolding all_equal
odd_one zero address xs i p q ne = absurd (omega (arith, p))
odd_one (suc n) address [] i p q ne = absurd (omega (arith, q))
odd_one (suc n) address (x ∷ xs) zero p q ne =
    if_ind (λ b. b ≡ false) (x != address) _ _ (λ _. refl)
      (λ same. absurd (ground (arith, same, ne)))
odd_one (suc n) address (x ∷ xs) (suc i) p q ne =
    if_ind (λ b. b ≡ false) (x != address) _ _ (λ _. refl)
      (λ _. odd_one n address xs i (omega (arith, p)) (omega (arith, q)) ne)

-- The first n harts run, and none of them waits at a barrier.
pub record Woken {W : Type 0} (n : ℕ) (t : Sim W) : Type 0 where
  pub runs : (i : ℕ) → i < n → get_or t.is_hart_running i false ≡ true
  pub reset : (i : ℕ) → i < n → get_or t.hart_barrier_address i 0 ≡ 0

==→eq : (a b : ℕ) → (a == b) ≡ true → a ≡ b
==→eq a b e = ground (arith, e)

module _ {W : Type 0} where
  number_bound : (s : Sim W) (i : ℕ) → i < get_hart_number s → i < s.harts
  unfolding get_hart_number
  number_bound s i p = ground (arith, p)

  number_le : (s : Sim W) → get_hart_number s ≤ s.harts
  unfolding get_hart_number
  number_le s = ground arith

  asleep_all :
      (s : Sim W) (link : ℕ)
      → Sized s
      → s.current_hart_id < get_hart_number s
      → ((i : ℕ) → i ≢ s.current_hart_id → get_or s.is_hart_running i false ≡ false)
      → any (sleep_at s link).is_hart_running ≡ false
  unfolding sleep_at
  asleep_all s link z cur asleep = none_running _ (λ i. elim (Bool-cases (i == s.current_hart_id)) [
    | inl here ↦
        subst (λ k. get_or (set s.is_hart_running s.current_hart_id false) k false ≡ false)
          (sym (==→eq i s.current_hart_id here))
          (get_or-set_same s.is_hart_running s.current_hart_id false false
            (rw z.running_size (number_bound s s.current_hart_id cur)))
    | inr there ↦
        let ne : i ≢ s.current_hart_id = λ e. ground (arith, there, e) in
        get_or-set_other s.is_hart_running s.current_hart_id i false false (λ e. ne (sym e))
        ∙ asleep i ne
  ])

  address_at :
      (s : Sim W) (link : ℕ)
      → Sized s
      → s.current_hart_id < get_hart_number s
      → ((i : ℕ)
          → i < get_hart_number s
          → i ≢ s.current_hart_id
          → get_or s.hart_barrier_address i 0 ≡ link)
      → (i : ℕ) → i < get_hart_number s
      → get_or (sleep_at s link).hart_barrier_address i 0 ≡ link
  unfolding sleep_at
  address_at s link z cur same i p = elim (Bool-cases (i == s.current_hart_id)) [
    | inl here ↦
        subst (λ k. get_or (set s.hart_barrier_address s.current_hart_id link) k 0 ≡ link)
          (sym (==→eq i s.current_hart_id here))
          (get_or-set_same s.hart_barrier_address s.current_hart_id link 0
            (rw z.address_size (number_bound s s.current_hart_id cur)))
    | inr there ↦
        let ne : i ≢ s.current_hart_id = λ e. ground (arith, there, e) in
        get_or-set_other s.hart_barrier_address s.current_hart_id i link 0 (λ e. ne (sym e))
        ∙ same i p ne
  ]

  -- The last of the active harts arrives at the barrier where the others wait: all active harts
  -- run again and their addresses are reset.
  pub barrier-release :
      (s : Sim W) (link : ℕ)
      → Sized s
      → s.current_hart_id < get_hart_number s
      → ((i : ℕ) → i ≢ s.current_hart_id → get_or s.is_hart_running i false ≡ false)
      → ((i : ℕ)
          → i < get_hart_number s
          → i ≢ s.current_hart_id
          → get_or s.hart_barrier_address i 0 ≡ link)
      → (t : Sim W) × (handle_barrier s link ≡ (true, t)) × Woken (get_hart_number s) t
  unfolding handle_barrier release get_hart_number sleep_at
  barrier-release s link z cur asleep same =
      let number = get_hart_number s in
      let s' = sleep_at s link in
      let alike : all_equal number (get_or s'.hart_barrier_address 0 0) s'.hart_barrier_address
          ≡ true =
        all_alike number _ _
          (λ i p.
            address_at s link z cur same i p
            ∙ sym (address_at s link z cur same 0 (omega (arith, cur))))
          (rw (sleep_at-Sized s link z).address_size (number_le s)) in
      let s'-Sized = sleep_at-Sized s link z in
      (
        record s' {
          hart_barrier_address = set_first number 0 s'.hart_barrier_address;
          is_hart_running = set_first number true s'.is_hart_running;
        },
        rw (asleep_all s link z cur asleep, handle_barrier) (rw (alike, release) refl),
        record {
          runs = λ i p.
              get_or-set_first number s'.is_hart_running true false i p
                (rw s'-Sized.running_size (number_bound s i p));
          reset = λ i p.
              get_or-set_first number s'.hart_barrier_address 0 0 i p
                (rw s'-Sized.address_size (number_bound s i p));
        },
      )

  -- The last running hart arrives where another active hart does not wait at the address of hart 0:
  -- the barrier is refused, and no hart runs.
  pub barrier_refused :
      (s : Sim W) (link i : ℕ)
      → Sized s
      → s.current_hart_id < get_hart_number s
      → ((j : ℕ) → j ≢ s.current_hart_id → get_or s.is_hart_running j false ≡ false)
      → i < get_hart_number s
      → get_or (sleep_at s link).hart_barrier_address i 0
        ≢ get_or (sleep_at s link).hart_barrier_address 0 0
      → (t : Sim W) × (handle_barrier s link ≡ (false, t)) × (any t.is_hart_running ≡ false)
  unfolding handle_barrier release set_exited get_hart_number sleep_at
  barrier_refused s link i z cur asleep p ne =
      let s' = sleep_at s link in
      let odd : all_equal (get_hart_number s') (get_or s'.hart_barrier_address 0 0)
            s'.hart_barrier_address
          ≡ false =
        odd_one _ _ _ i p (rw (sleep_at-Sized s link z).address_size (number_bound s i p)) ne in
      (
        set_exited s' (2 ^ 64 - 1),
        rw (asleep_all s link z cur asleep, handle_barrier) (rw (odd, release) refl),
        none_running _ (λ j. get_or-replicate (length s'.is_hart_running) j),
      )
