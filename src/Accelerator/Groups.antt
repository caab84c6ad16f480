-- ===== src/Accelerator/Groups.antt =====
-- The hart groups of a kernel slice.
use nupu_refsi.Prelude.{
  ℕ, zero, suc, ◌+◌, ◌-◌, ◌≤◌, ◌<◌, ◌≡◌, refl, ap, sym, ◌*◌, get_or, ◌∙◌, min, Bool, true, false,
  List, [], ◌∷◌, some, arith, length, Bool-cases, inl, inr,
}
use mathlib.Core.Path.{ap₂}
use nupu_refsi.Config.{RefsiResult}
use nupu_refsi.Machine.{Machine}
use nupu_refsi.Soc.{HartState, HartSetup}
use nupu_refsi.Accelerator.{group_setup, run_groups}

-- f 0, f 1, … , n of them.
abbrev pub tabulate {ℓ} : {A : Type ℓ} → ℕ → (ℕ → A) → List A
tabulate zero f = []
tabulate (suc n) f = f 0 ∷ tabulate n (λ i. f (suc i))

pub tabulate_congr {ℓ} :
    {A : Type ℓ} (n : ℕ) (f g : ℕ → A) → ((i : ℕ) → i < n → f i ≡ g i) → tabulate n f ≡ tabulate n g
tabulate_congr zero f g h = refl
tabulate_congr (suc n) f g h =
    ap₂ ◌∷◌ (h 0 (omega arith))
      (tabulate_congr n (λ i. f (suc i)) (λ i. g (suc i)) (λ i p. h (suc i) (omega (arith, p))))

abbrev pub no_hart : HartState
no_hart = record { stack_top_addr = 0; extra_args = [] }

-- The registers with which hart `h` starts instance `id`.
abbrev pub hart_start : ℕ → ℕ → List HartState → ℕ → ℕ → HartSetup
hart_start entry_point return_addr harts id h = record {
  pc = entry_point;
  ra = return_addr;
  sp = (get_or harts h no_hart).stack_top_addr;
  a0 = id;
  args = (get_or harts h no_hart).extra_args;
}

-- `count` groups of `left` instances from `id` on: hart h of group g runs the instance that is g
-- times the number of harts, plus h, behind the first, up to the last one.
abbrev pub groups : ℕ → ℕ → ℕ → List HartState → ℕ → ℕ → List (List HartSetup)
groups count entry_point return_addr harts id left = tabulate count (λ g.
    tabulate (min (left - g * length harts) (length harts))
      (λ h. hart_start entry_point return_addr harts (id + g * length harts + h) h))

group_setup-tabulate :
    (n e ra id : ℕ) (harts : List HartState)
    → n ≤ length harts
    → group_setup e ra id n harts ≡ tabulate n (λ h. hart_start e ra harts (id + h) h)
unfolding group_setup
group_setup-tabulate zero e ra id harts p = refl
group_setup-tabulate (suc n) e ra id [] p = absurd (omega (arith, p))
group_setup-tabulate (suc n) e ra id (x ∷ harts) p =
    ap₂ ◌∷◌ (ap (λ k. hart_start e ra (x ∷ harts) k 0) (omega arith)) (
      group_setup-tabulate n e ra (suc id) harts (omega (arith, p))
      ∙ tabulate_congr n (λ h. hart_start e ra harts (suc id + h) h)
          (λ h. hart_start e ra (x ∷ harts) (id + suc h) (suc h))
          (λ h q. ap (λ k. hart_start e ra harts k h) (omega arith)))

harts_le : (g c h : ℕ) → g < c → h ≤ c * h
harts_le g zero h p = absurd (omega (arith, p))
harts_le g (suc c) h p = omega arith

-- The groups behind the first one.
next_groups :
    (c e ra : ℕ) (harts : List HartState) (id left : ℕ)
    → c * length harts < left
    → let active = min left (length harts) in
      tabulate c (λ g.
        tabulate
          (min (left - suc g * length harts) (length harts))
          (λ h. hart_start e ra harts (id + suc g * length harts + h) h))
      ≡ groups c e ra harts (id + active) (left - active)
next_groups c e ra harts id left more =
    let n = length harts in
    let active = min left n in
    tabulate_congr c
      (λ g. tabulate (min (left - suc g * n) n) (λ h. hart_start e ra harts (id + suc g * n + h) h))
      (λ g.
        tabulate (min ((left - active) - g * n) n)
          (λ h. hart_start e ra harts (id + active + g * n + h) h))
      (λ g p.
        let full : active ≡ n = omega (arith, more, harts_le g c n p) in
        let same_size : min (left - suc g * n) n ≡ min ((left - active) - g * n) n =
          omega (arith, full) in
        let same_id : id + suc g * n ≡ id + active + g * n = omega (arith, full) in
        ap (λ k. tabulate k (λ h. hart_start e ra harts (id + suc g * n + h) h)) same_size
        ∙ ap
            (λ k. tabulate (min ((left - active) - g * n) n) (λ h. hart_start e ra harts (k + h) h))
            same_id)

-- The groups in turn, up to the first that fails.
unfoldable pub run_plan :
    (List HartSetup → Machine → Bool × Machine)
    → List (List HartSetup)
    → Machine
    → RefsiResult × Machine
run_plan run [] m = (RefsiResult.success, m)
run_plan run (g ∷ rest) m =
    let (done, m') = run g m in
    elim done [ true ↦ run_plan run rest m' | false ↦ (RefsiResult.failure, m') ]

-- The first group.
first_group :
    (e ra : ℕ) (harts : List HartState) (id left : ℕ)
    → group_setup e ra id (min left (length harts)) harts
      ≡ tabulate
          (min (left - 0 * length harts) (length harts))
          (λ h. hart_start e ra harts (id + 0 * length harts + h) h)
first_group e ra harts id left =
    let n = length harts in
    let same_size : min left n ≡ min (left - 0 * n) n = omega arith in
    let same_id : id ≡ id + 0 * n = omega arith in
    group_setup-tabulate (min left n) e ra id harts (omega arith)
    ∙ ap (λ k. tabulate k (λ h. hart_start e ra harts (id + h) h)) same_size
    ∙ ap (λ k. tabulate (min (left - 0 * n) n) (λ h. hart_start e ra harts (k + h) h)) same_id

-- With a hart and a round for each instance the loop over the hart groups ends, and it runs `count`
-- groups in turn up to the first that fails, as many as it takes for all instances: hart h of group g
-- starts with its own stack and arguments on the instance that is g times the number of harts, plus h,
-- behind the first, and the last group has the harts that are needed for the rest.
pub run_groups_lem :
    (run : List HartSetup → Machine → Bool × Machine) (fuel e ra : ℕ) (harts : List HartState)
    (m : Machine) (id left count : ℕ)
    → 0 < length harts
    → left ≤ fuel
    → left ≤ count * length harts
    → count * length harts < left + length harts
    → run_groups run fuel e ra harts m id left
      ≡ some (run_plan run (groups count e ra harts id left) m)
unfolding run_groups run_plan
run_groups_lem run fuel e ra harts m id zero zero h enough all few = refl
run_groups_lem run fuel e ra harts m id zero (suc c) h enough all few = absurd (omega (arith, few))
run_groups_lem run fuel e ra harts m id (suc left) zero h enough all few =
    absurd (omega (arith, all))
run_groups_lem run zero e ra harts m id (suc left) (suc c) h enough all few =
    absurd (omega (arith, enough))
run_groups_lem run (suc fuel) e ra harts m id (suc left) (suc c) h enough all few =
    let n = length harts in
    let active = min (suc left) n in
    let first = first_group e ra harts id (suc left) in
    let rest = next_groups c e ra harts id (suc left) (omega (arith, few)) in
    let g = group_setup e ra id active harts in
    let planned : groups (suc c) e ra harts id (suc left)
        ≡ g ∷ groups c e ra harts (id + active) (suc left - active) =
      ap₂ ◌∷◌ (sym first) rest in
    let loop : run_groups run (suc fuel) e ra harts m id (suc left)
        ≡ some (run_plan run (g ∷ groups c e ra harts (id + active) (suc left - active)) m) =
      elim (Bool-cases (run g m).0) [
        | inl good ↦
            rw (good, run_groups, run_plan)
              (run_groups_lem run fuel e ra harts (run g m).1 (id + active) (suc left - active) c h
                (omega (arith, enough, h)) (omega (arith, all)) (omega (arith, few, h)))
        | inr bad ↦ rw (bad, run_groups, run_plan)
      ] in
    loop ∙ ap (λ (l : List (List HartSetup)). some (run_plan run l m)) (sym planned)
