-- ===== src/Processor/Slices.antt =====
-- RUN_KERNEL_SLICE where a kernel has no thread-specific data.
use nupu_refsi.Prelude.{
  ℕ, ◌<◌, ◌≤◌, ◌≡◌, refl, ap, sym, subst, ◌∙◌, ◌+◌, ◌*◌, ◌%◌, Bool, true, false, List, Option, none,
  some, length, bit_and, ltb, arith,
}
use nupu_refsi.Bits.{bit_and_mask}
use nupu_refsi.Config.{RefsiResult, reg_return_addr}
use nupu_refsi.Machine.{Machine}
use nupu_refsi.Soc.{Soc, HartState, HartSetup}
use nupu_refsi.Accelerator.{
  args_fit, run_on_sim, run_when_created, create_sim, run_with_sim, run_kernel_slice,
}
use nupu_refsi.Accelerator.Groups.{groups, run_plan, run_groups_lem}
use nupu_refsi.Chunk.{Chunks}
use nupu_refsi.Processor.Kernels.{
  harts_to_use, tsd_size, entry_point_addr, run_prepared, execute_run_kernel_slice,
}
use nupu_refsi.Processor.SliceHarts.{
  slice_harts, length-slice_harts, args_fit-slice_harts, prepare_harts-slice_harts, slice_groups,
  groups_lem,
}

-- What a run leaves of the device.
abbrev pub after_run : Soc → RefsiResult × Machine → RefsiResult × Soc
after_run soc (result, m) = (result, record soc { machine = m })

run_kernel_slice-sim :
    (run : List HartSetup → Machine → Bool × Machine) (soc : Soc) (sim_harts n e ra : ℕ)
    (harts : List HartState)
    → soc.sim ≡ some sim_harts
    → run_kernel_slice run soc n e ra harts ≡ run_with_sim run soc (some sim_harts) n e ra harts
unfolding run_kernel_slice
run_kernel_slice-sim run soc sim_harts n e ra harts sim =
    ap
      (λ (s : Option ℕ). elim s [
        | none ↦ run_when_created run (create_sim soc) n e ra harts
        | some h ↦ run_with_sim run soc (some h) n e ra harts
      ])
      sim

run_kernel_slice_lem :
    (run : List HartSetup → Machine → Bool × Machine) (soc : Soc) (sim_harts n e ra count : ℕ)
    (harts : List HartState)
    → soc.sim ≡ some sim_harts
    → args_fit harts ≡ true
    → 0 < length harts
    → length harts ≤ sim_harts
    → n ≤ count * length harts
    → count * length harts < n + length harts
    → run_kernel_slice run soc n e ra harts
      ≡ some (after_run soc (run_plan run (groups count e ra harts 0 n) soc.machine))
unfolding run_with_sim run_on_sim
run_kernel_slice_lem run soc sim_harts n e ra count harts sim fit some_hart enough all few =
    let room : ltb sim_harts (length harts) ≡ false = ground arith in
    run_kernel_slice-sim run soc sim_harts n e ra harts sim
    ∙ rw
        (
          fit,
          run_with_sim,
          run_on_sim,
          room,
          run_groups_lem run n e ra harts soc.machine 0 n count some_hart (omega arith) all few,
        )
        refl

-- RUN_KERNEL_SLICE on a simulator with enough harts, for a kernel without thread-specific data,
-- ends, and runs `count` groups in turn up to the first that fails, as many as it takes for all
-- instances. Hart h of group g starts at the entry point, on the instance that is g times the number
-- of harts plus h, with the slice ID and the address of the kernel uniform block as arguments. Its
-- stack is that of register STACK_TOP if that is set, and else ends with the hart's own part of the
-- TCDM.
pub run_slice_lem :
    (run : List HartSetup → Machine → Bool × Machine) (soc : Soc)
    (inline_chunk num_instances slice_id sim_harts num_harts count : ℕ) (chunk : Chunks)
    → soc.sim ≡ some sim_harts
    → tsd_size soc ≡ 0
    → harts_to_use (inline_chunk % 256) ≡ num_harts
    → num_harts ≤ sim_harts
    → num_instances ≤ count * num_harts
    → count * num_harts < num_instances + num_harts
    → chunk 0 ≡ some num_instances
    → chunk 1 ≡ some slice_id
    → execute_run_kernel_slice run soc 2 inline_chunk chunk
      ≡ some (
          after_run soc
            (run_plan run (slice_groups count soc num_harts slice_id num_instances) soc.machine))
unfolding execute_run_kernel_slice run_prepared
run_slice_lem run soc inline_chunk n slice_id sim_harts num_harts count chunk sim plain same enough
      all few c0 c1 =
    let used : harts_to_use (bit_and inline_chunk 0xff) ≡ num_harts =
      ap harts_to_use (bit_and_mask 8 inline_chunk) ∙ same in
    let positive : 0 < num_harts = ground (arith, same) in
    let size = length-slice_harts num_harts soc num_harts 0 slice_id in
    rw (c0, c1, used, prepare_harts-slice_harts num_harts soc num_harts 0 slice_id plain)
      (run_kernel_slice_lem run soc sim_harts n (entry_point_addr soc)
          (soc.registers reg_return_addr) count (slice_harts num_harts soc num_harts 0 slice_id) sim
          (args_fit-slice_harts num_harts soc num_harts 0 slice_id) (omega (arith, size, positive))
          (omega (arith, size, enough)) (subst (λ k. n ≤ count * k) (sym size) all)
          (subst (λ k. count * k < n + k) (sym size) few)
        ∙ ap (λ (l : List (List HartSetup)). some (after_run soc (run_plan run l soc.machine)))
            (groups_lem count soc num_harts slice_id n))
