-- ===== src/Examples/Submissions.antt =====
-- The theorem on register writes through device memory at a concrete input.
use nupu_refsi.Prelude.{
  ℕ, zero, suc, ◌*◌, ◌≡◌, refl, Bool, true, List, [], ◌∷◌, some, length, arith,
}
use nupu_refsi.Config.{RefsiResult, reg_window_base0}
use nupu_refsi.Machine.{Machine}
use nupu_refsi.Controller.{find_device, find_entry}
use nupu_refsi.Access.Ram.{RamAt}
use nupu_refsi.DeviceApi.{write_device_memory}
use nupu_refsi.Soc.{Soc, HartSetup}
use nupu_refsi.Processor.Execute.{execute}
use nupu_refsi.Header.{encode_command}
use nupu_refsi.CommandBuffer.{add, add_all, add_write_reg64}
use nupu_refsi.CommandBuffer.Refine.{perform_all}
use nupu_refsi.CommandBuffer.Written.{chunk_bytes, AllWords}
use nupu_refsi.CommandBuffer.Submit.{register_writes, submit_lem}
use nupu_refsi.Examples.World.{soc, at}

abbrev windowed : Soc
windowed = record soc { windows = 3 ∷ [] }

-- A kernel's entry point, and the base of window 0.
abbrev writes : List (ℕ × ℕ)
writes = (1, 77) ∷ (reg_window_base0, 2048) ∷ []

no_harts : List HartSetup → Machine → Bool × Machine
no_harts group m = (true, m)

writes-AllWords : AllWords (add_all [] (register_writes writes))
unfolding add_all add add_write_reg64 encode_command
writes-AllWords zero h = omega arith
writes-AllWords (suc zero) h = omega arith
writes-AllWords (suc (suc zero)) h = omega arith
writes-AllWords (suc (suc (suc zero))) h = omega arith
writes-AllWords (suc (suc (suc (suc i)))) h = absurd (omega (arith, h))

buffer-RamAt : RamAt windowed.machine 24 (length (add_all [] (register_writes writes)) * 8) (at 1 8)
unfolding find_device find_entry add_all add add_write_reg64
buffer-RamAt = record {
  dev = 1;
  size = 64;
  found = refl;
  is_ram = refl;
  backed = refl;
  within_ram = omega arith;
  small = omega arith;
}

submit_lem_example :
    (m : Machine) × (write_device_memory windowed.machine 24
        (chunk_bytes (add_all [] (register_writes writes)))
        (length (add_all [] (register_writes writes)) * 8)
        0
      ≡ some (RefsiResult.success, m))
    × (execute no_harts
          (record windowed { machine = m })
          24
          (length (add_all [] (register_writes writes)) * 8)
        ≡ perform_all no_harts (register_writes writes) (record windowed { machine = m }))
submit_lem_example =
    submit_lem no_harts windowed 24 0 (at 1 8) writes (omega arith, (omega arith, tt))
      writes-AllWords buffer-RamAt
