-- ===== src/Examples/Kernels.antt =====
-- The theorems on COPY_MEM64, RUN_KERNEL_SLICE and DMA register addresses at concrete inputs.
use nupu_refsi.Prelude.{zero, suc, ◌≡◌, refl, Bool, true, List, some, arith}
use nupu_refsi.HostMemory.{HostMemory}
use nupu_refsi.Machine.{Machine}
use nupu_refsi.Controller.{find_device, find_entry}
use nupu_refsi.Dma.Rows.{Copied}
use nupu_refsi.Soc.{HartSetup}
use nupu_refsi.Accelerator.Groups.{run_plan}
use nupu_refsi.Chunk.{Chunks}
use nupu_refsi.Processor.Registers.{execute_copy_mem64, succeed}
use nupu_refsi.Processor.Kernels.{tsd_size, execute_run_kernel_slice}
use nupu_refsi.Processor.CopyMem.{RamDevice, with_memory, execute_copy_mem64_lem}
use nupu_refsi.Processor.SliceHarts.{slice_groups}
use nupu_refsi.Processor.Slices.{after_run, run_slice_lem}
use nupu_refsi.Examples.World.{soc, memory, at}

source_found : find_device soc.machine.mapping 24 ≡ some (1, 8)
unfolding find_device find_entry
source_found = refl

destination_found : find_device soc.machine.mapping 144 ≡ some (2, 16)
unfolding find_device find_entry
destination_found = refl

ram_1 : RamDevice soc.machine 1 1 64
ram_1 = record { is_ram = refl; backed = refl; small = omega arith }

ram_2 : RamDevice soc.machine 2 2 64
ram_2 = record { is_ram = refl; backed = refl; small = omega arith }

-- The chunks of a copy from 24 to 144.
abbrev copy_chunks : Chunks
copy_chunks zero = some 24
copy_chunks (suc zero) = some 144
copy_chunks (suc (suc i)) = some 0

execute_copy_mem64_lem_example :
    (m' : HostMemory) × (execute_copy_mem64 soc 3 3 copy_chunks ≡ succeed (with_memory soc m'))
    × Copied memory m' (at 2 16) (at 1 8) 3 8 8 8
execute_copy_mem64_lem_example =
    execute_copy_mem64_lem soc 3 24 144 0 1 8 2 16 1 2 64 64 copy_chunks refl refl refl refl
      source_found destination_found ram_1 ram_2 (λ e. absurd (omega arith)) (omega arith)
      (omega arith)

always_ok : List HartSetup → Machine → Bool × Machine
always_ok group m = (true, m)

-- Six instances of slice 1.
abbrev slice_chunks : Chunks
slice_chunks zero = some 6
slice_chunks (suc i) = some 1

no_tsd : tsd_size soc ≡ 0
unfolding tsd_size
no_tsd = refl

-- Six instances on two harts are three groups.
run_slice_lem_example :
    execute_run_kernel_slice always_ok soc 2 2 slice_chunks
    ≡ some (after_run soc (run_plan always_ok (slice_groups 3 soc 2 1 6) soc.machine))
run_slice_lem_example =
    run_slice_lem always_ok soc 2 6 1 4 2 3 slice_chunks refl no_tsd refl (omega arith)
      (omega arith) (omega arith) refl refl
