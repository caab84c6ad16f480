-- ===== src/Hal/Kernels/Groups.antt =====
-- The work-groups that the slices of a kernel cover.
use nupu_refsi.Prelude.{
  ℕ, zero, suc, ◌+◌, ◌*◌, ◌/◌, ◌%◌, ◌^◌, ◌<◌, ◌≡◌, ap, ◌∙◌, [], ◌∷◌, some, get_elem?, arith,
}
use native.Mathlib.Nat.{
  mul-suc, mul-le-mul_left, mul-add-mod_self_left, mod-eq_of_lt, mul-add-div, div-eq_of_lt,
}
use nupu_refsi.CommandBuffer.{Command}
use nupu_refsi.Hal.Kernels.{Launch, slice_commands, num_slices}

slice_at :
    (l : Launch) (n i k : ℕ)
    → k < n
    → get_elem? (slice_commands l n i) k
      ≡ some (
          Command.run_instances l.num_harts_per_core l.num_instances
            ((i + k) ∷ l.kub_addr ∷ l.tcdm_hart_base ∷ []))
unfolding slice_commands
slice_at l zero i k p = absurd (omega (arith, p))
slice_at l (suc n) i zero p =
    ap
      (λ z. some (
        Command.run_instances l.num_harts_per_core l.num_instances
          (z ∷ l.kub_addr ∷ l.tcdm_hart_base ∷ [])))
      (omega arith)
slice_at l (suc n) i (suc k) p =
    slice_at l n (suc i) k (omega (arith, p))
    ∙ ap
        (λ z. some (
          Command.run_instances l.num_harts_per_core l.num_instances
            (z ∷ l.kub_addr ∷ l.tcdm_hart_base ∷ [])))
        (omega arith)

-- The slice of the group with index g1 in dimension 1 and g2 in dimension 2.
abbrev pub slice_of : ℕ → ℕ → ℕ → ℕ
slice_of groups_1 g1 g2 = groups_1 * g2 + g1

-- Every work-group of a kernel of three dimensions has its slice: the command at its place runs that
-- slice, and the remainder and quotient of the slice by the groups of dimension 1 are the group's
-- indices. For numbers of groups whose product is a 64-bit number.
pub every_group :
    (l : Launch) (groups_1 groups_2 g1 g2 : ℕ)
    → groups_1 * groups_2 < 2 ^ 64
    → l.slices ≡ num_slices 3 groups_1 groups_2
    → g1 < groups_1
    → g2 < groups_2
    → (get_elem? (slice_commands l l.slices 0) (slice_of groups_1 g1 g2)
        ≡ some (
            Command.run_instances l.num_harts_per_core l.num_instances
              (slice_of groups_1 g1 g2 ∷ l.kub_addr ∷ l.tcdm_hart_base ∷ [])))
      × (slice_of groups_1 g1 g2 % groups_1 ≡ g1)
      × (slice_of groups_1 g1 g2 / groups_1 ≡ g2)
unfolding num_slices
every_group l groups_1 groups_2 g1 g2 small slices below_1 below_2 =
    let count : l.slices ≡ groups_1 * groups_2 = slices ∙ mod-eq_of_lt small in
    let in_range : slice_of groups_1 g1 g2 < l.slices = omega (
      arith,
      count,
      below_1,
      mul-suc groups_1 g2,
      mul-le-mul_left {m = suc g2} {n = groups_2} groups_1 (omega (arith, below_2)),
    ) in
    (
      slice_at l l.slices 0 (slice_of groups_1 g1 g2) in_range
          ∙ ap
              (λ z. some (
                Command.run_instances l.num_harts_per_core l.num_instances
                  (z ∷ l.kub_addr ∷ l.tcdm_hart_base ∷ [])))
              (omega arith),
      mul-add-mod_self_left groups_1 g2 g1 ∙ mod-eq_of_lt below_1,
      mul-add-div (omega (arith, below_1)) g2 g1
          ∙ ap (λ z. g2 + z) (div-eq_of_lt below_1)
          ∙ omega arith,
    )
