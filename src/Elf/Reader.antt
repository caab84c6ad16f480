-- ===== src/Elf/Reader.antt =====
-- Reading an ELF file: ELFProgram::read and what it calls
-- (driver/source/common/elf_loader.cpp). `none` is undefined behaviour, or the end of the fuel.
use nupu_refsi.Prelude.{
  ℕ, zero, suc, Bool, true, false, not, ◌&&◌, ◌||◌, List, [], ◌∷◌, ◌++◌, Option, none, some, ◌==◌,
  if◌then◌else◌, add64, replicate,
}
use nupu_refsi.Machine.{ElfMachine}
use nupu_refsi.Region.{MemoryDevice}
use nupu_refsi.Elf.{ElfSegment, Ehdr, ElfProgram}

-- The fields of the other structures that the loader reads.
pub record Phdr : Type 0 where
  pub p_type : ℕ
  pub p_offset : ℕ
  pub p_vaddr : ℕ
  pub p_filesz : ℕ
  pub p_memsz : ℕ

pub record Shdr : Type 0 where
  pub sh_name : ℕ
  pub sh_type : ℕ
  pub sh_offset : ℕ
  pub sh_size : ℕ
  pub sh_entsize : ℕ

pub record Sym : Type 0 where
  pub st_name : ℕ
  pub st_info : ℕ
  pub st_value : ℕ

-- The structures of fesvr/elf.h: their sizes, their fields, and the tests on the header.
pub record Format : Type 0 where
  pub ehdr32_size : ℕ
  pub ehdr64_size : ℕ
  pub phdr32_size : ℕ
  pub phdr64_size : ℕ
  pub shdr32_size : ℕ
  pub shdr64_size : ℕ
  pub sym32_size : ℕ
  pub sym64_size : ℕ
  pub ehdr32 : List ℕ → Ehdr
  pub ehdr64 : List ℕ → Ehdr
  pub phdr32 : List ℕ → Phdr
  pub phdr64 : List ℕ → Phdr
  pub shdr32 : List ℕ → Shdr
  pub shdr64 : List ℕ → Shdr
  pub sym32 : List ℕ → Sym
  pub sym64 : List ℕ → Sym
  pub is_elf : Ehdr → Bool
  pub is_elf_riscv : Ehdr → Bool
  pub is_elf32 : Ehdr → Bool
  pub is_elf64 : Ehdr → Bool
  pub pt_load : ℕ

-- ELFProgram::clear
unfoldable pub clear : ElfProgram → ElfProgram
clear program = record {
  segments = [];
  symbols = [];
  header = record {
    e_ident = replicate 16 0;
    e_machine = 0;
    e_entry = 0;
    e_phoff = 0;
    e_shoff = 0;
    e_phentsize = 0;
    e_phnum = 0;
    e_shentsize = 0;
    e_shnum = 0;
    e_shstrndx = 0;
  };
  entry_address = 0;
}

unfoldable pub segment_of : Phdr → List ℕ → ElfSegment
segment_of header contents = record {
  address = header.p_vaddr;
  contents = contents;
  file_size = header.p_filesz;
  memory_size = header.p_memsz;
}

module _ {S : Type 0} (memory : MemoryDevice S) (format : Format) (src : S) (unit : ℕ) where
  -- ELFProgram::get_machine
  unfoldable pub get_machine : Ehdr → ElfMachine
  get_machine header =
      if not (format.is_elf header) || not (format.is_elf_riscv header)
      then ElfMachine.unknown
      else if format.is_elf32 header
      then ElfMachine.riscv_rv32
      else if format.is_elf64 header
      then ElfMachine.riscv_rv64
      else ElfMachine.unknown

  abbrev pub is_rv64 : ElfMachine → Bool
  is_rv64 ElfMachine.riscv_rv64 = true
  is_rv64 machine = false

  -- A structure of `size` bytes at an offset; `some none` when the load fails.
  unfoldable pub read_struct : {T : Type 0} → ℕ → (List ℕ → T) → ℕ → Option (Option T)
  read_struct size parse offset = elim (memory.load src offset size unit) [
    | none ↦ none
    | some none ↦ some none
    | some (some bytes) ↦ some (some (parse bytes))
  ]

  -- ELFProgram::read_header: first as a 32-bit header, whose first fields tell the format.
  unfoldable pub read_header : Option (Option Ehdr)
  read_header = elim (read_struct format.ehdr32_size format.ehdr32 0) [
    | none ↦ none
    | some none ↦ some none
    | some (some header32) ↦
        if not (format.is_elf header32) || not (format.is_elf_riscv header32)
        then some none
        else if format.is_elf32 header32
        then some (some header32)
        else if format.is_elf64 header32
        then read_struct format.ehdr64_size format.ehdr64 0
        else some none
  ]

  unfoldable pub read_program_header : Ehdr → ℕ → Option (Option Phdr)
  read_program_header header offset =
      if is_rv64 (get_machine header)
      then read_struct format.phdr64_size format.phdr64 offset
      else read_struct format.phdr32_size format.phdr32 offset

  unfoldable pub read_section_header : Ehdr → ℕ → Option (Option Shdr)
  read_section_header header offset =
      if is_rv64 (get_machine header)
      then read_struct format.shdr64_size format.shdr64 offset
      else read_struct format.shdr32_size format.shdr32 offset

  unfoldable pub read_symbol : Ehdr → ℕ → Option (Option Sym)
  read_symbol header offset =
      if is_rv64 (get_machine header)
      then read_struct format.sym64_size format.sym64 offset
      else read_struct format.sym32_size format.sym32 offset

  -- A table of n entries, each `entry_size` bytes after the one before.
  unfoldable pub read_table :
      {T : Type 0} → (ℕ → Option (Option T)) → ℕ → ℕ → ℕ → Option (Option (List T))
  read_table read_entry zero offset entry_size = some (some [])
  read_table read_entry (suc n) offset entry_size = elim (read_entry offset) [
    | none ↦ none
    | some none ↦ some none
    | some (some entry) ↦ elim (read_table read_entry n (add64 offset entry_size) entry_size) [
      | none ↦ none
      | some none ↦ some none
      | some (some entries) ↦ some (some (entry ∷ entries))
    ]
  ]

  -- The segment of a program header, with its data from the file.
  unfoldable pub read_segment : Phdr → Option (Option ElfSegment)
  read_segment header =
      if header.p_filesz == 0
      then some (some (segment_of header []))
      else read_struct header.p_filesz (segment_of header) header.p_offset

  -- The segments that are loaded, in order; a failure keeps those before it.
  unfoldable pub read_segments : List Phdr → List ElfSegment → Option (Bool × List ElfSegment)
  read_segments [] segments = some (true, segments)
  read_segments (header ∷ rest) segments =
      if header.p_type == format.pt_load && not (header.p_memsz == 0)
      then elim (read_segment header) [
        | none ↦ none
        | some none ↦ some (false, segments)
        | some (some segment) ↦ read_segments rest (segments ++ segment ∷ [])
      ]
      else read_segments rest segments
