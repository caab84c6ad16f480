-- ===== src/Hal/Args.antt =====
-- The packing of kernel arguments (hal_refsi/source/refsi_hal.cpp). `none` is a failed assertion,
-- `some none` the result false.
use nupu_refsi.Prelude.{
  ℕ, zero, suc, ◌-◌, ◌/◌, Bool, true, false, ◌&&◌, List, [], ◌∷◌, ◌++◌, Option, none, some, max,
  ltb, leb, ◌==◌, if◌then◌else◌, bit_or, shr, u32, add64, sub64, mul64, length, replicate,
}
use nupu_refsi.Bytes.{bytes_of_word}
use nupu_refsi.Machine.{ElfMachine}
use nupu_refsi.Elf.{ElfSegment}

-- v |= v >> k
abbrev pub smear : ℕ → ℕ → ℕ
smear v k = bit_or v (shr v k)

unfoldable pub round_up_pot : ℕ → ℕ
round_up_pot v = add64 (smear (smear (smear (smear (smear (smear (sub64 v 1) 1) 2) 4) 8) 16) 32) 1

-- align_to; an alignment of zero fails the assertion.
unfoldable pub align_to : ℕ → ℕ → Option ℕ
align_to v zero = none
align_to v (suc n) = some (mul64 (sub64 (add64 v (suc n)) 1 / suc n) (suc n))

unfoldable pub get_word_size : ElfMachine → ℕ
get_word_size ElfMachine.riscv_rv32 = 4
get_word_size machine = 8

-- refsi_hal_device::pack_arg, for a value of `length value` bytes.
unfoldable pub pack_arg : List ℕ → List ℕ → ℕ → Option (List ℕ)
pack_arg packed_data value align =
    elim (align_to (length packed_data) (if align == 0 then length value else align)) [
      | none ↦ none
      | some offset ↦ some (packed_data ++ (replicate (offset - length packed_data) 0 ++ value))
    ]

unfoldable pub pack_uint32_arg : List ℕ → ℕ → ℕ → Option (List ℕ)
pack_uint32_arg packed_data value align = pack_arg packed_data (bytes_of_word 4 value) align

unfoldable pub pack_uint64_arg : List ℕ → ℕ → ℕ → Option (List ℕ)
pack_uint64_arg packed_data value align = pack_arg packed_data (bytes_of_word 8 value) align

unfoldable pub pack_word_arg : ElfMachine → List ℕ → ℕ → Option (List ℕ)
pack_word_arg machine packed_data value =
    if get_word_size machine == 8
    then pack_uint64_arg packed_data value (get_word_size machine)
    else pack_uint32_arg packed_data (u32 value) (get_word_size machine)

-- hal_arg_t: an address in local memory (only its size counts), another address, or a value.
pub data Arg : Type 0 where
  local_address : (size : ℕ) → Arg
  address : (addr : ℕ) → Arg
  value : (pod_data : List ℕ) → Arg

-- The start of the local memory that the segments leave.
unfoldable pub local_start : ℕ → ℕ → List ElfSegment → ℕ
local_start start end [] = start
local_start start end (segment ∷ rest) =
    if leb start segment.address && ltb segment.address end
    then local_start (max start (add64 segment.address segment.memory_size)) end rest
    else local_start start end rest

-- The loop over the arguments; `wg` tells of the thread mode REFSI_THREAD_MODE_WG.
unfoldable pub pack_from : ElfMachine → Bool → List ℕ → ℕ → ℕ → List Arg → Option (Option (List ℕ))
pack_from machine wg packed_data start end [] = some (some packed_data)
pack_from machine true packed_data start end (Arg.local_address size ∷ args) =
    elim (pack_word_arg machine packed_data size) [
      | none ↦ none
      | some packed ↦ pack_from machine true packed start end args
    ]
pack_from machine false packed_data start end (Arg.local_address size ∷ args) =
    elim (align_to start 128) [
      | none ↦ none
      | some aligned ↦ elim (pack_word_arg machine packed_data aligned) [
        | none ↦ none
        | some packed ↦ elim (ltb end (add64 aligned size)) [
          | true ↦ some none
          | false ↦ pack_from machine false packed (add64 aligned size) end args
        ]
      ]
    ]
pack_from machine wg packed_data start end (Arg.address addr ∷ args) =
    elim (pack_word_arg machine packed_data addr) [
      | none ↦ none
      | some packed ↦ pack_from machine wg packed start end args
    ]
pack_from machine wg packed_data start end (Arg.value pod_data ∷ args) =
    elim (pack_arg packed_data pod_data (round_up_pot (length pod_data))) [
      | none ↦ none
      | some packed ↦ pack_from machine wg packed start end args
    ]

-- refsi_hal_device::pack_args, with the local memory of the device.
unfoldable pub pack_args :
    ElfMachine → ℕ → ℕ → List ElfSegment → Bool → List ℕ → List Arg → Option (Option (List ℕ))
pack_args machine local_ram_addr local_ram_size segments wg packed_data args =
    let end = add64 local_ram_addr local_ram_size in
    pack_from machine wg packed_data (local_start local_ram_addr end segments) end args
