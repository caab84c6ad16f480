-- ===== src/Elf/Symbols.antt =====
-- Symbols of an ELF file, and the whole of ELFProgram::read
-- (driver/source/common/elf_loader.cpp). `none` is undefined behaviour, or the end of the fuel.
use nupu_refsi.Prelude.{
  ℕ, zero, suc, ◌/◌, ◌^◌, Bool, true, false, ◌&&◌, List, [], ◌∷◌, Option, none, some, ltb, ◌==◌,
  if◌then◌else◌, add64, get_elem?,
}
use nupu_refsi.Region.{MemoryDevice}
use nupu_refsi.Elf.{ElfSegment, Ehdr, ElfProgram, same_name}
use nupu_refsi.Elf.Strings.{read_c_string}
use nupu_refsi.Elf.Reader.{
  Shdr, Sym, Format, clear, read_header, read_program_header, read_section_header, read_symbol,
  read_table, read_segments,
}

abbrev pub sht_symtab : ℕ
sht_symtab = 2

abbrev pub sht_strtab : ℕ
sht_strtab = 3

abbrev pub stb_global : ℕ
stb_global = 1

-- ELF32_ST_BIND
abbrev pub st_bind : ℕ → ℕ
st_bind i = i / 2 ^ 4

-- ".symtab" and ".strtab"
abbrev pub symtab_name : List ℕ
symtab_name = 46 ∷ 115 ∷ 121 ∷ 109 ∷ 116 ∷ 97 ∷ 98 ∷ []

abbrev pub strtab_name : List ℕ
strtab_name = 46 ∷ 115 ∷ 116 ∷ 114 ∷ 116 ∷ 97 ∷ 98 ∷ []

-- The sections that have been identified.
pub record Tables : Type 0 where
  pub symtab : Option Shdr
  pub strtab : Option Shdr

unfoldable pub identify : Tables → Shdr → List ℕ → Tables
identify tables section name =
    if section.sh_type == sht_symtab && same_name name symtab_name
    then record tables { symtab = some section }
    else if section.sh_type == sht_strtab && same_name name strtab_name
    then record tables { strtab = some section }
    else tables

module _ {S : Type 0} (memory : MemoryDevice S) (format : Format) (src : S) (unit : ℕ) where
  -- The loop that identifies sections by type and name; one whose name cannot be read is skipped.
  unfoldable pub find_tables : ℕ → ℕ → List Shdr → Tables → Option Tables
  find_tables fuel shstrtab_offset [] tables = some tables
  find_tables fuel shstrtab_offset (section ∷ rest) tables =
      elim (read_c_string memory fuel src unit (add64 shstrtab_offset section.sh_name)) [
        | none ↦ none
        | some (false, name) ↦ find_tables fuel shstrtab_offset rest tables
        | some (true, name) ↦ find_tables fuel shstrtab_offset rest (identify tables section name)
      ]

  -- A global symbol whose name can be read is entered; it hides an earlier one of that name.
  unfoldable pub enter_symbol : ℕ → ℕ → Sym → List (List ℕ × ℕ) → Option (List (List ℕ × ℕ))
  enter_symbol fuel strtab_offset sym symbols =
      if st_bind sym.st_info == stb_global
      then elim (read_c_string memory fuel src unit (add64 strtab_offset sym.st_name)) [
        | none ↦ none
        | some (false, name) ↦ some symbols
        | some (true, name) ↦ some ((name, sym.st_value) ∷ symbols)
      ]
      else some symbols

  -- The loop over the symbol table.
  unfoldable pub enter_symbols :
      ℕ → Ehdr → ℕ → Shdr → ℕ → ℕ → List (List ℕ × ℕ) → Option (Bool × List (List ℕ × ℕ))
  enter_symbols zero header strtab_offset symtab symbol_offset end_offset symbols =
      if ltb symbol_offset end_offset then none else some (true, symbols)
  enter_symbols (suc fuel) header strtab_offset symtab symbol_offset end_offset symbols =
      elim (ltb symbol_offset end_offset) [
        | false ↦ some (true, symbols)
        | true ↦ elim (read_symbol memory format src unit header symbol_offset) [
          | none ↦ none
          | some none ↦ some (false, symbols)
          | some (some sym) ↦ elim (enter_symbol fuel strtab_offset sym symbols) [
            | none ↦ none
            | some symbols' ↦
                enter_symbols fuel header strtab_offset symtab
                  (add64 symbol_offset symtab.sh_entsize) end_offset symbols'
          ]
        ]
      ]

  -- The symbol table is read when both tables were found and its entries are long enough.
  unfoldable pub read_symbol_table : ℕ → Ehdr → Tables → Option (Bool × List (List ℕ × ℕ))
  read_symbol_table fuel header tables = elim tables.symtab [
    | none ↦ some (false, [])
    | some symtab ↦ elim tables.strtab [
      | none ↦ some (false, [])
      | some strtab ↦
          if ltb symtab.sh_entsize
            (if format.is_elf64 header then format.sym64_size else format.sym32_size)
          then some (false, [])
          else enter_symbols fuel header strtab.sh_offset symtab symtab.sh_offset
              (add64 symtab.sh_offset symtab.sh_size) []
    ]
  ]

  -- ELFProgram::read_symbols, on a symbol map that is empty.
  unfoldable pub read_symbols : ℕ → Ehdr → Option (Bool × List (List ℕ × ℕ))
  read_symbols fuel header =
      if ltb header.e_shnum header.e_shstrndx
      then some (false, [])
      else elim (read_table memory format src unit
          (read_section_header memory format src unit header) header.e_shnum header.e_shoff
          header.e_shentsize) [
            | none ↦ none
            | some none ↦ some (false, [])
            | some (some sections) ↦ elim (get_elem? sections header.e_shstrndx) [
              | none ↦ none
              | some names ↦
                  elim (find_tables fuel names.sh_offset sections
                    (record { symtab = none; strtab = none })) [
                      | none ↦ none
                      | some tables ↦ read_symbol_table fuel header tables
                    ]
            ]
          ]

  -- The last part of ELFProgram::read: the symbol table.
  unfoldable pub read_last : ℕ → ElfProgram → Option (Bool × ElfProgram)
  read_last fuel program = elim (read_symbols fuel program.header) [
    | none ↦ none
    | some (done, symbols) ↦ some (done, record program { symbols = symbols })
  ]

  -- What follows the loop over the segments: a failure of the loop ends it.
  unfoldable pub read_rest : ℕ → ElfProgram → Bool × List ElfSegment → Option (Bool × ElfProgram)
  read_rest fuel program (false, segments) = some (false, record program { segments = segments })
  read_rest fuel program (true, segments) = read_last fuel (record program { segments = segments })

  -- ELFProgram::read
  unfoldable pub read : ℕ → ElfProgram → Option (Bool × ElfProgram)
  read fuel program = elim (read_header memory format src unit) [
    | none ↦ none
    | some none ↦ some (false, clear program)
    | some (some header) ↦
        let started = record (clear program) { header = header; entry_address = header.e_entry } in
        elim (read_table memory format src unit (read_program_header memory format src unit header)
          header.e_phnum header.e_phoff header.e_phentsize) [
            | none ↦ none
            | some none ↦ some (false, started)
            | some (some headers) ↦ elim (read_segments memory format src unit headers []) [
              | none ↦ none
              | some outcome ↦ read_rest fuel started outcome
            ]
          ]
  ]
