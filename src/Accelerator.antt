-- ===== src/Accelerator.antt =====
-- The accelerator (driver/source/refsidrv/refsi_accelerator.cpp): how a kernel slice is cut into
-- hart groups. The simulation of a group, `slim_sim_t::run`, is the parameter `run`: from the
-- registers that the harts start with and the machine, whether the exit code is zero, and the
-- machine it leaves.
pub mod Groups
use nupu_refsi.Prelude.{
  ℕ, zero, suc, ◌+◌, ◌-◌, min, Bool, true, false, not, List, [], ◌∷◌, ◌++◌, Option, none, some,
  bit_and, ltb, ◌==◌, ◌!=◌, ◌||◌, if◌then◌else◌, length, add64,
}
use nupu_refsi.Config.{RefsiResult}
use nupu_refsi.Machine.{Machine}
use nupu_refsi.Soc.{Soc, MmuCall, HartState, HartSetup}

-- RefSiAccelerator::createSim. The test of the number of harts reads the previous configuration,
-- which never exceeds the limit; it has no counterpart here.
unfoldable pub create_sim : Soc → RefsiResult × Soc
create_sim soc =
    if soc.has_isa
    then (RefsiResult.success, record soc { sim = some soc.total_harts })
    else (RefsiResult.failure, soc)

-- The start of the first `count` harts, which run consecutive instances.
unfoldable pub group_setup : ℕ → ℕ → ℕ → ℕ → List HartState → List HartSetup
group_setup entry_point return_addr instance_id zero harts = []
group_setup entry_point return_addr instance_id (suc count) [] = []
group_setup entry_point return_addr instance_id (suc count) (h ∷ harts) =
    record {
      pc = entry_point;
      ra = return_addr;
      sp = h.stack_top_addr;
      a0 = instance_id;
      args = h.extra_args;
    }
    ∷ group_setup entry_point return_addr (suc instance_id) count harts

-- Every hart has at most seven extra arguments.
unfoldable pub args_fit : List HartState → Bool
args_fit [] = true
args_fit (h ∷ harts) = if ltb 7 (length h.extra_args) then false else args_fit harts

module _ (run : List HartSetup → Machine → Bool × Machine) where
  -- The loop over the hart groups; the first argument bounds its rounds.
  unfoldable pub run_groups :
      ℕ → ℕ → ℕ → List HartState → Machine → ℕ → ℕ → Option (RefsiResult × Machine)
  run_groups fuel entry_point return_addr harts m instance_id zero = some (RefsiResult.success, m)
  run_groups zero entry_point return_addr harts m instance_id (suc left) = none
  run_groups (suc fuel) entry_point return_addr harts m instance_id (suc left) =
      let active = min (suc left) (length harts) in
      let (done, m') = run (group_setup entry_point return_addr instance_id active harts) m in
      elim done [
        | true ↦
            run_groups fuel entry_point return_addr harts m' (instance_id + active)
              (suc left - active)
        | false ↦ some (RefsiResult.failure, m')
      ]

  -- RefSiAccelerator::runKernelSlice behind the creation of the simulator, which has `harts`
  -- harts. A hart that the simulator does not have is a null pointer.
  unfoldable pub run_on_sim :
      ℕ → Machine → ℕ → ℕ → ℕ → List HartState → Option (RefsiResult × Machine)
  run_on_sim sim_harts m num_instances entry_point return_addr harts =
      if not (args_fit harts)
      then some (RefsiResult.failure, m)
      else if ltb sim_harts (length harts)
      then none
      else run_groups num_instances entry_point return_addr harts m 0 num_instances

  unfoldable pub run_with_sim :
      Soc → Option ℕ → ℕ → ℕ → ℕ → List HartState → Option (RefsiResult × Soc)
  run_with_sim soc none num_instances entry_point return_addr harts = none
  run_with_sim soc (some sim_harts) num_instances entry_point return_addr harts =
      elim (run_on_sim sim_harts soc.machine num_instances entry_point return_addr harts) [
        | none ↦ none
        | some (result, m) ↦ some (result, record soc { machine = m })
      ]

  unfoldable pub run_when_created :
      RefsiResult × Soc → ℕ → ℕ → ℕ → List HartState → Option (RefsiResult × Soc)
  run_when_created (RefsiResult.success, soc) num_instances entry_point return_addr harts =
      run_with_sim soc soc.sim num_instances entry_point return_addr harts
  run_when_created (result, soc) num_instances entry_point return_addr harts = some (result, soc)

  -- RefSiAccelerator::runKernelSlice
  unfoldable pub run_kernel_slice : Soc → ℕ → ℕ → ℕ → List HartState → Option (RefsiResult × Soc)
  run_kernel_slice soc num_instances entry_point return_addr harts = elim soc.sim [
    | none ↦ run_when_created (create_sim soc) num_instances entry_point return_addr harts
    | some sim_harts ↦ run_with_sim soc (some sim_harts) num_instances entry_point return_addr harts
  ]

-- The calls of RefSiAccelerator::syncCache, hart by hart.
unfoldable pub sync_calls : ℕ → ℕ → List MmuCall → List MmuCall
sync_calls flags zero log = log
sync_calls flags (suc harts) log =
    (if bit_and flags 1 != 0 then MmuCall.flush_tlb harts else MmuCall.flush_icache harts)
    ∷ sync_calls flags harts log

-- RefSiAccelerator::syncCache; without a simulator it goes through a null pointer.
unfoldable pub sync_cache : Soc → ℕ → Option (RefsiResult × Soc)
sync_cache soc flags = elim soc.sim [
  | none ↦ none
  | some harts ↦
      some (RefsiResult.success, record soc { mmu_calls = sync_calls flags harts soc.mmu_calls })
]
