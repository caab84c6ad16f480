-- ===== src/Simulator.antt =====
-- The simulator of the harts (driver/source/refsidrv/slim_sim.cpp): which harts run, barriers, and
-- the end of a simulation. `W` is the state of the harts, which the Spike library keeps.
pub mod Traps
pub mod Turns
pub mod Closed
pub mod Alive
pub mod NoDeadlock
pub mod Fair
pub mod Barrier
pub mod Mismatch
pub mod Mmio
use nupu_refsi.Prelude.{
  ℕ, zero, suc, ◌-◌, ◌^◌, Bool, true, false, not, ◌&&◌, ◌||◌, List, [], ◌∷◌, Option, none, some,
  min, ltb, ◌==◌, ◌!=◌, if◌then◌else◌, get_or, set, replicate, length,
}

-- `is_hart_running` and `hart_barrier_address` have an entry for each of the `harts` harts.
pub record Sim (W : Type 0) : Type 0 where
  pub harts : ℕ
  pub max_harts : ℕ
  pub current_step : ℕ
  pub current_hart_id : ℕ
  pub signal_exit : Bool
  pub is_hart_running : List Bool
  pub hart_barrier_address : List ℕ
  pub exit_code : ℕ
  pub state : W

-- is_hart_running.any()
unfoldable pub any : List Bool → Bool
any [] = false
any (b ∷ bs) = b || any bs

-- The first n entries set to a value.
unfoldable pub set_first {ℓ} : {A : Type ℓ} → ℕ → A → List A → List A
set_first zero v xs = xs
set_first (suc n) v [] = []
set_first (suc n) v (x ∷ xs) = v ∷ set_first n v xs

-- The first n addresses are `address`.
unfoldable pub all_equal : ℕ → ℕ → List ℕ → Bool
all_equal zero address xs = true
all_equal (suc n) address [] = true
all_equal (suc n) address (x ∷ xs) = if x != address then false else all_equal n address xs

module _ {W : Type 0} where
  -- slim_sim_t::get_hart_number
  unfoldable pub get_hart_number : Sim W → ℕ
  get_hart_number s = if ltb 0 s.max_harts then min s.harts s.max_harts else s.harts

  -- slim_sim_t::get_hart, as the hart's index
  unfoldable pub get_hart : Sim W → ℕ → Option ℕ
  get_hart s index = if ltb index (get_hart_number s) then some index else none

  unfoldable pub set_max_active_harts : Sim W → ℕ → Sim W
  set_max_active_harts s new_max_harts = record s { max_harts = new_max_harts }

  -- slim_sim_t::set_exited
  unfoldable pub set_exited : Sim W → ℕ → Sim W
  set_exited s exit_code =
      if exit_code != 0
      then record s {
        is_hart_running = replicate (length s.is_hart_running) false;
        exit_code = exit_code;
        signal_exit = true;
      }
      else let running = set s.is_hart_running s.current_hart_id false in
        if any running
        then record s { is_hart_running = running }
        else record s { is_hart_running = running; exit_code = exit_code; signal_exit = true }

  -- The hart that hits a barrier is put to sleep.
  unfoldable pub sleep_at : Sim W → ℕ → Sim W
  sleep_at s link_address = record s {
    hart_barrier_address = set s.hart_barrier_address s.current_hart_id link_address;
    is_hart_running = set s.is_hart_running s.current_hart_id false;
  }

  -- The end of slim_sim_t::handle_barrier, when all harts sleep. The exit code -1 is of type reg_t.
  unfoldable pub release : Sim W → Bool × Sim W
  release s =
      if all_equal (get_hart_number s) (get_or s.hart_barrier_address 0 0) s.hart_barrier_address
      then (
        true,
        record s {
          hart_barrier_address = set_first (get_hart_number s) 0 s.hart_barrier_address;
          is_hart_running = set_first (get_hart_number s) true s.is_hart_running;
        },
      )
      else (false, set_exited s (2 ^ 64 - 1))

  -- slim_sim_t::handle_barrier
  unfoldable pub handle_barrier : Sim W → ℕ → Bool × Sim W
  handle_barrier s link_address =
      if any (sleep_at s link_address).is_hart_running
      then (true, sleep_at s link_address)
      else release (sleep_at s link_address)
