-- ===== src/Examples/Memory.antt =====
-- The theorems on the address map, pointers, loads and stores at concrete inputs.
use nupu_refsi.Prelude.{
  ℕ, zero, suc, ◌+◌, ◌≤◌, ◌<◌, ◌≡◌, ◌⊎◌, refl, inl, [], ◌∷◌, none, some, true, false, arith, sub64,
}
use nupu_refsi.Machine.{Machine, mem_size}
use nupu_refsi.Controller.{
  find_device, find_entry, entry_at, base_in_use, add_device, remove_device,
}
use nupu_refsi.Controller.Lookup.{Sorted, find_entry-nearest}
use nupu_refsi.Controller.Devices.{find_device-add_device, remove-add_device}
use nupu_refsi.Pointers.{addr_to_mem, max_depth, device_pointer, get_effective_address}
use nupu_refsi.Pointers.Bounds.{WellBacked, addr_to_mem-in_bounds}
use nupu_refsi.Pointers.Depth.{NoWindowChain, addr_to_mem_depth}
use nupu_refsi.Access.{load, store}
use nupu_refsi.Access.Ram.{RamAt, store-load, store-load-Apart}
use nupu_refsi.Examples.World.{world, mapped_world, at}

world-Sorted : Sorted world.mapping
world-Sorted = ((omega arith, tt), (tt, tt))

RamAt-at_20 : RamAt world 20 3 (at 1 4)
unfolding find_device find_entry
RamAt-at_20 = record {
  dev = 1;
  size = 64;
  found = refl;
  is_ram = refl;
  backed = refl;
  within_ram = omega arith;
  small = omega arith;
}

RamAt-at_130 : RamAt world 130 2 (at 2 2)
unfolding find_device find_entry
RamAt-at_130 = record {
  dev = 2;
  size = 64;
  found = refl;
  is_ram = refl;
  backed = refl;
  within_ram = omega arith;
  small = omega arith;
}

store-load_example :
    (m' : Machine) × (store world 20 3 (7 ∷ 8 ∷ 9 ∷ []) 0 ≡ some (true, m'))
    × (load m' 20 3 0 ≡ some (some (7 ∷ 8 ∷ 9 ∷ [])))
store-load_example = store-load world 20 0 0 (7 ∷ 8 ∷ 9 ∷ []) (at 1 4) RamAt-at_20

store-load-Apart_example :
    (m' : Machine) × (store world 20 3 (7 ∷ 8 ∷ 9 ∷ []) 0 ≡ some (true, m'))
    × (load m' 130 2 0 ≡ load world 130 2 0)
store-load-Apart_example =
    store-load-Apart world 20 130 2 0 0 (7 ∷ 8 ∷ 9 ∷ []) (at 1 4) (at 2 2) RamAt-at_20 RamAt-at_130
      (inl (λ e. absurd (omega arith)))

find_entry-nearest_example :
    ((find_entry world.mapping 128 ≡ none) × ((128 < 128) ⊎ (entry_at world.mapping 128 ≡ none)))
    ⊎ ((base : ℕ) × (d : ℕ) × (find_entry world.mapping 128 ≡ some (base, d))
        × (entry_at world.mapping base ≡ some d)
        × (base ≤ 128)
        × ((128 ≤ base) ⊎ ((128 < 128) ⊎ (entry_at world.mapping 128 ≡ none))))
find_entry-nearest_example = find_entry-nearest world.mapping 128 128 world-Sorted

free_512 : base_in_use world 512 ≡ false
unfolding base_in_use find_device find_entry mem_size
free_512 = refl

no_key_in_gap : (k : ℕ) → 512 < k → k ≤ 520 → entry_at world.mapping k ≡ none
unfolding entry_at
no_key_in_gap k h h' = ground arith

find_device-add_device_example :
    ((add_device world 512 3).0 ≡ true)
    × Sorted (add_device world 512 3).1.mapping
    × (find_device (add_device world 512 3).1.mapping 520 ≡ some (3, sub64 520 512))
find_device-add_device_example =
    find_device-add_device world 512 3 520 world-Sorted free_512 (omega arith) no_key_in_gap

no_512 : entry_at world.mapping 512 ≡ none
unfolding entry_at
no_512 = refl

remove-add_device_example : remove_device (add_device world 512 3).1 512 ≡ (some 3, world)
remove-add_device_example = remove-add_device world 512 3 world-Sorted free_512 no_512

mapped_world-WellBacked : WellBacked mapped_world
mapped_world-WellBacked zero = tt
mapped_world-WellBacked (suc zero) = refl
mapped_world-WellBacked (suc (suc zero)) = refl
mapped_world-WellBacked (suc (suc (suc zero))) = tt
mapped_world-WellBacked (suc (suc (suc (suc d)))) = tt

through_window : addr_to_mem 2 mapped_world 3 4 8 0 ≡ some (at 2 12)
unfolding addr_to_mem device_pointer get_effective_address
through_window = refl

addr_to_mem-in_bounds_example : 12 + 8 ≤ mapped_world.memory.extent 2
addr_to_mem-in_bounds_example =
    addr_to_mem-in_bounds 2 mapped_world 3 4 8 0 (at 2 12) mapped_world-WellBacked through_window
      (λ e. absurd (omega arith)) (omega arith)

no_chain : NoWindowChain mapped_world
no_chain zero t w v is_w mapped bad = absurd (ground arith)
no_chain (suc zero) t w v is_w mapped bad = absurd (ground arith)
no_chain (suc (suc zero)) t w v is_w mapped bad = absurd (ground arith)
no_chain (suc (suc (suc zero))) t w v is_w mapped bad = absurd (ground arith)
no_chain (suc (suc (suc (suc d)))) t w v is_w mapped bad = absurd (ground arith)

addr_to_mem_depth_example :
    addr_to_mem 5 mapped_world 3 4 8 0 ≡ addr_to_mem max_depth mapped_world 3 4 8 0
addr_to_mem_depth_example = addr_to_mem_depth 3 mapped_world 3 4 8 0 no_chain
