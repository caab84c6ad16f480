-- ===== src/Elf/Program.antt =====
-- What a program that has been read is made of (ELFProgram::read).
use nupu_refsi.Prelude.{
  ℕ, ◌≡◌, ap, subst, ◌∙◌, Bool, true, false, not, ◌&&◌, List, [], ◌∷◌, ◌++◌, Option, some, length,
  ◌==◌, arith, if_ind, option_ind, some-injective,
}
use nupu_refsi.Region.{MemoryDevice}
use nupu_refsi.Elf.{ElfSegment, ElfProgram}
use nupu_refsi.Elf.Reader.{
  Phdr, Format, segment_of, read_struct, read_segment, read_segments, read_header, read_table,
  read_program_header, clear,
}
use nupu_refsi.Elf.Symbols.{read, read_rest, read_last, read_symbols}

-- Every segment has the bytes that its size in the file says.
pub data Whole : List ElfSegment → Type 0 where
  nil : Whole []
  cons :
      (segment : ElfSegment) (rest : List ElfSegment)
      (whole : length segment.contents ≡ segment.file_size) (wholes : Whole rest)
      → Whole (segment ∷ rest)

Whole-append :
    (segments : List ElfSegment) (segment : ElfSegment)
    → Whole segments
    → length segment.contents ≡ segment.file_size
    → Whole (segments ++ segment ∷ [])
Whole-append [] segment w e = Whole.cons segment [] e Whole.nil
Whole-append (first ∷ rest) segment (Whole.cons _ _ whole wholes) e =
    Whole.cons first (rest ++ segment ∷ []) whole (Whole-append rest segment wholes e)

module _ {S : Type 0} (memory : MemoryDevice S) (format : Format) (src : S) (unit : ℕ)
    (full : (a n : ℕ) (bs : List ℕ)
      → memory.load src a n unit ≡ some (some bs)
      → length bs ≡ n) where
  read_struct-length :
      {T : Type 0} (n : ℕ) (parse : List ℕ → T) (offset : ℕ) (result : T)
      → read_struct memory format src unit n parse offset ≡ some (some result)
      → (bs : List ℕ) × (length bs ≡ n) × (parse bs ≡ result)
  unfolding read_struct
  read_struct-length {T} n parse offset result =
      let P : Option (Option T) → Type 0 =
        λ r. r ≡ some (some result) → (bs : List ℕ) × (length bs ≡ n) × (parse bs ≡ result) in
      option_ind P (memory.load src offset n unit) _ _ (λ e. cc)
        (λ loaded at.
          option_ind
            (λ r.
              memory.load src offset n unit ≡ some loaded
              → r ≡ some (some result)
              → (bs : List ℕ) × (length bs ≡ n) × (parse bs ≡ result))
            loaded _ _ (λ _ e. cc)
            (λ bs same at' e. (
              bs,
              full offset n bs (at' ∙ ap some same),
              some-injective _ _ (some-injective _ _ e),
            ))
            at)

  read_segment-whole :
      (header : Phdr) (segment : ElfSegment)
      → read_segment memory format src unit header ≡ some (some segment)
      → length segment.contents ≡ segment.file_size
  unfolding read_segment segment_of
  read_segment-whole header segment =
      if_ind (λ r. r ≡ some (some segment) → length segment.contents ≡ segment.file_size)
        (header.p_filesz == 0) _ _
        (λ empty e.
          let same = some-injective _ _ (some-injective _ _ e) in
          subst (λ z. length z.contents ≡ z.file_size) same (ground (arith, empty)))
        (λ _ e.
          let (bs, size, same) =
            read_struct-length header.p_filesz (segment_of header) header.p_offset segment e in
          subst (λ z. length z.contents ≡ z.file_size) same size)

  abbrev Good : Option (Bool × List ElfSegment) → Type 0
  Good r = (done : Bool) (result : List ElfSegment) → r ≡ some (done, result) → Whole result

  read_segments-Whole :
      (headers : List Phdr) (segments : List ElfSegment)
      → Whole segments
      → Good (read_segments memory format src unit headers segments)
  unfolding read_segments
  read_segments-Whole [] segments w =
      λ done result e. subst Whole (ap (λ z. z.1) (some-injective _ _ e)) w
  read_segments-Whole (header ∷ rest) segments w =
      if_ind Good (header.p_type == format.pt_load && not (header.p_memsz == 0)) _ _
        (λ _.
          option_ind Good (read_segment memory format src unit header) _ _ (λ done result e. cc)
            (λ loaded at.
              option_ind (λ r. read_segment memory format src unit header ≡ some loaded → Good r)
                loaded _ _ (λ _ done result e. subst Whole (ap (λ z. z.1) (some-injective _ _ e)) w)
                (λ segment same at'. read_segments-Whole rest (segments ++ segment ∷ []) (
                  Whole-append segments segment w
                    (read_segment-whole header segment (at' ∙ ap some same))))
                at))
        (λ _. read_segments-Whole rest segments w)

  abbrev Sound : Option (Bool × ElfProgram) → Type 0
  Sound r = (done : Bool) (result : ElfProgram) → r ≡ some (done, result) → Whole result.segments

  read_last-Whole :
      (fuel : ℕ) (program : ElfProgram)
      → Whole program.segments
      → Sound (read_last memory format src unit fuel program)
  unfolding read_last
  read_last-Whole fuel program w =
      option_ind Sound (read_symbols memory format src unit fuel program.header) _ _
        (λ done result e. cc)
        (λ (symbols : Bool × List (List ℕ × ℕ)) _ done result e.
          subst (λ z. Whole z.segments) (ap (λ z. z.1) (some-injective _ _ e)) w)

  settled : (d : Bool) (program : ElfProgram) → Whole program.segments → Sound (some (d, program))
  settled d program w done result e =
      subst (λ z. Whole z.segments) (ap (λ z. z.1) (some-injective _ _ e)) w

  read_rest-Whole :
      (fuel : ℕ) (program : ElfProgram) (outcome : Bool × List ElfSegment)
      → Whole outcome.1
      → Sound (read_rest memory format src unit fuel program outcome)
  unfolding read_rest
  read_rest-Whole fuel program (false, segments) w =
      settled false (record program { segments = segments }) w
  read_rest-Whole fuel program (true, segments) w =
      read_last-Whole fuel (record program { segments = segments }) w

  read-Sound : (fuel : ℕ) (program : ElfProgram) → Sound (read memory format src unit fuel program)
  unfolding read clear
  read-Sound fuel program =
      option_ind Sound (read_header memory format src unit) _ _ (λ done result e. cc)
        (λ read_it _.
          option_ind Sound read_it _ _
            (λ done result e. settled false (clear program) Whole.nil done result e)
            (λ header _.
              option_ind Sound
                (read_table memory format src unit
                  (read_program_header memory format src unit header) header.e_phnum header.e_phoff
                  header.e_phentsize)
                _ _ (λ done result e. cc)
                (λ table _. option_ind Sound table _ _ (settled false _ Whole.nil) (λ headers _.
                  option_ind Sound (read_segments memory format src unit headers []) _ _
                    (λ done result e. cc)
                    (λ outcome at.
                      read_rest-Whole fuel _ outcome
                        (read_segments-Whole headers [] Whole.nil outcome.0 outcome.1 at))))))

  -- Whatever ELFProgram::read returns, every segment it leaves has as many bytes of data as its size
  -- in the file: for a source that gives the bytes it is asked for.
  pub read-Whole :
      (fuel : ℕ) (program result : ElfProgram) (done : Bool)
      → read memory format src unit fuel program ≡ some (done, result)
      → Whole result.segments
  read-Whole fuel program result done = read-Sound fuel program done result
