-- ===== src/Elf.antt =====
-- The ELF loader (driver/source/common/elf_loader.cpp): segments and symbols of a program. The
-- layouts of the structures in an ELF file are the Spike library's (fesvr/elf.h).
pub mod Strings
pub mod Reader
pub mod Symbols
pub mod Program
pub mod Load
pub mod Image
use nupu_refsi.Prelude.{
  ℕ, zero, suc, ◌+◌, ◌-◌, Bool, true, false, List, [], ◌∷◌, Option, none, some, min, ltb, ◌==◌,
  if◌then◌else◌, add64, replicate,
}
use nupu_refsi.Region.{MemoryDevice}

-- `contents` is the source's `data`: empty where the pointer is null.
pub record ElfSegment : Type 0 where
  pub address : ℕ
  pub contents : List ℕ
  pub file_size : ℕ
  pub memory_size : ℕ

-- The fields of Elf64_Ehdr that the loader reads.
pub record Ehdr : Type 0 where
  pub e_ident : List ℕ
  pub e_machine : ℕ
  pub e_entry : ℕ
  pub e_phoff : ℕ
  pub e_shoff : ℕ
  pub e_phentsize : ℕ
  pub e_phnum : ℕ
  pub e_shentsize : ℕ
  pub e_shnum : ℕ
  pub e_shstrndx : ℕ

-- ELFProgram
pub record ElfProgram : Type 0 where
  pub segments : List ElfSegment
  pub symbols : List (List ℕ × ℕ)
  pub header : Ehdr
  pub entry_address : ℕ

abbrev pub invalid_address : ℕ
invalid_address = 0xffffffffffffffff

-- The key is that of a name; std::map keeps one value for each.
unfoldable pub same_name : List ℕ → List ℕ → Bool
same_name [] [] = true
same_name [] (c ∷ cs) = false
same_name (c ∷ cs) [] = false
same_name (c ∷ cs) (d ∷ ds) = if c == d then same_name cs ds else false

-- symbols.find(name)
unfoldable pub lookup : List (List ℕ × ℕ) → List ℕ → Option ℕ
lookup [] name = none
lookup ((key, value) ∷ rest) name = if same_name key name then some value else lookup rest name

-- ELFProgram::find_symbol, for a name that is not null.
unfoldable pub find_symbol : ElfProgram → List ℕ → ℕ
find_symbol program name = elim (lookup program.symbols name) [ none ↦ 0 | some value ↦ value ]

-- ELFProgram::load; `none` is undefined behaviour of the memory.
module _ {S : Type 0} (memory : MemoryDevice S) where
  -- The loop that writes zeros in chunks of 256 bytes; `fuel` bounds its rounds.
  unfoldable pub load_zeros : ℕ → S → ℕ → ℕ → ℕ → Option (Bool × S)
  load_zeros fuel s address zero unit = some (true, s)
  load_zeros zero s address (suc n) unit = none
  load_zeros (suc fuel) s address (suc n) unit =
      let to_write = min 256 (suc n) in
      elim (memory.store s address to_write (replicate to_write 0) unit) [
        | none ↦ none
        | some (false, s') ↦ some (false, s')
        | some (true, s') ↦ load_zeros fuel s' (add64 address to_write) (suc n - to_write) unit
      ]

  -- The segment's data, then its zeros: each round writes one byte or more.
  unfoldable pub load_data : S → ElfSegment → ℕ → Option (Bool × S)
  load_data s segment unit =
      if segment.file_size == 0
      then some (true, s)
      else memory.store s segment.address segment.file_size segment.contents unit

  unfoldable pub load_segment : S → ElfSegment → ℕ → Option (Bool × S)
  load_segment s segment unit = elim (load_data s segment unit) [
    | none ↦ none
    | some (false, s') ↦ some (false, s')
    | some (true, s') ↦
        load_zeros (segment.memory_size - segment.file_size) s'
          (add64 segment.address segment.file_size) (segment.memory_size - segment.file_size) unit
  ]

  unfoldable pub load_segments : S → List ElfSegment → ℕ → Option (Bool × S)
  load_segments s [] unit = some (true, s)
  load_segments s (segment ∷ rest) unit = elim (load_segment s segment unit) [
    | none ↦ none
    | some (false, s') ↦ some (false, s')
    | some (true, s') ↦ load_segments s' rest unit
  ]

  unfoldable pub load_program : S → ElfProgram → ℕ → Option (Bool × S)
  load_program s program unit =
      if program.entry_address == invalid_address
      then some (false, s)
      else load_segments s program.segments unit
