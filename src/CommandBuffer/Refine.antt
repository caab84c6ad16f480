-- ===== src/CommandBuffer/Refine.antt =====
-- The command processor executes a buffer that the builder wrote as the calls say, in turn.
use nupu_refsi.Prelude.{
  ℕ, zero, suc, ◌+◌, ◌*◌, ◌/◌, ◌%◌, ◌^◌, ◌<◌, ◌≤◌, ◌≡◌, refl, ap, ◌∙◌, Bool, true, false, List, [],
  ◌∷◌, Option, none, some, ltb, ◌==◌, if◌then◌else◌, length, get_elem?, arith, length-append,
}
use nupu_refsi.Config.{RefsiResult}
use nupu_refsi.HostMemory.{Ptr, HostMemory, advance, copy_out}
use nupu_refsi.Bytes.{word_of_bytes}
use nupu_refsi.Machine.{Machine}
use nupu_refsi.Pointers.{controller_addr_to_mem}
use nupu_refsi.Soc.{Soc, HartSetup}
use nupu_refsi.Chunk.{chunks_at}
use nupu_refsi.Processor.Registers.{Executed, succeed, cmp_unit}
use nupu_refsi.Processor.Execute.{cmp_finish, after_command, execute_from, execute}
use nupu_refsi.CommandBuffer.{Command, add, add_all}
use nupu_refsi.CommandBuffer.Layout.{
  header_of, args_of, header_word, add_lem, length-args_of, Typed, decode-header_word,
}
use nupu_refsi.CommandBuffer.Meaning.{perform, Reads, execute_command-perform}

abbrev pub is_finish : Command → Bool
is_finish Command.finish = true
is_finish c = false

finish_opcode : (c : Command) → ((header_of c).opcode == cmp_finish) ≡ is_finish c
finish_opcode Command.finish = refl
finish_opcode (Command.write_reg64 reg value) = refl
finish_opcode (Command.store_imm64 dest_addr value) = refl
finish_opcode (Command.load_reg64 reg src_addr) = refl
finish_opcode (Command.store_reg64 reg dest_addr) = refl
finish_opcode (Command.copy_mem64 src_addr dest_addr count unit_id) = refl
finish_opcode (Command.run_kernel_slice max_harts n id) = refl
finish_opcode (Command.run_instances max_harts n args) = refl
finish_opcode (Command.sync_cache flags) = refl
finish_opcode (Command.write_dma_reg dma_reg value) = refl

-- A failure or FINISH ends the sequence.
abbrev pub follow : Command → (Soc → Executed) → Executed → Executed
follow c next none = none
follow c next (some (RefsiResult.success, soc)) = if is_finish c then succeed soc else next soc
follow c next (some (result, soc)) = some (result, soc)

-- The calls in turn, on the device.
abbrev pub perform_all : (List HartSetup → Machine → Bool × Machine) → List Command → Soc → Executed
perform_all run [] soc = succeed soc
perform_all run (c ∷ cs) soc = follow c (perform_all run cs) (perform run soc c)

-- The words at chunk `pos` of the buffer and behind.
abbrev pub Holds : HostMemory → Ptr → ℕ → List ℕ → Type 0
Holds m buffer pos words =
    (i : ℕ) → i < length words → chunks_at m buffer (pos + i) ≡ get_elem? words i

-- The chunks of each call are in the buffer when the call is reached.
abbrev pub Intact :
    (List HartSetup → Machine → Bool × Machine) → Ptr → ℕ → List Command → Soc → Type 0
Intact run buffer pos [] soc = Unit {0}
Intact run buffer pos (c ∷ cs) soc =
    Holds soc.machine.memory buffer pos (header_word c ∷ args_of c)
    × ((soc' : Soc)
        → perform run soc c ≡ some (RefsiResult.success, soc')
        → Intact run buffer (pos + 1 + (header_of c).chunk_count) cs soc')

abbrev pub AllTyped : List Command → Type 0
AllTyped [] = Unit {0}
AllTyped (c ∷ cs) = Typed c × AllTyped cs

after-follow :
    (run : List HartSetup → Machine → Bool × Machine) (c : Command) (f g : Soc → Executed)
    (e : Executed)
    → ((soc : Soc) → e ≡ some (RefsiResult.success, soc) → f soc ≡ g soc)
    → after_command run (header_of c) f e ≡ follow c g e
unfolding after_command
after-follow run c f g none h = refl
after-follow run c f g (some (RefsiResult.success, soc)) h =
    rw (finish_opcode c) (ap (λ x. if is_finish c then succeed soc else x) (h soc refl))
after-follow run c f g (some (RefsiResult.failure, soc)) h = refl
after-follow run c f g (some (RefsiResult.invalid_device, soc)) h = refl
after-follow run c f g (some (RefsiResult.device_closed, soc)) h = refl
after-follow run c f g (some (RefsiResult.not_supported, soc)) h = refl

word_at : HostMemory → ℕ → ℕ → Option ℕ
word_at m block offset =
    let p : Ptr = record { block = block; offset = offset } in
    elim (copy_out m p 8) [ none ↦ none | some bytes ↦ some (word_of_bytes bytes) ]

chunks_at-advance :
    (m : HostMemory) (p : Ptr) (k i : ℕ) → chunks_at m (advance p (k * 8)) i ≡ chunks_at m p (k + i)
unfolding chunks_at word_at
chunks_at-advance m p k i = ap (word_at m p.block) same
  where
    same : ((p.offset + k * 8) % 2 ^ 64 + i * 8) % 2 ^ 64 ≡ (p.offset + (k + i) * 8) % 2 ^ 64
    same = omega arith

-- The chunks that the calls take.
abbrev total : List Command → ℕ
total [] = 0
total (c ∷ cs) = 1 + (header_of c).chunk_count + total cs

length-add_all :
    (chunks : List ℕ) (cs : List Command) → length (add_all chunks cs) ≡ length chunks + total cs
unfolding add_all
length-add_all chunks [] = omega arith
length-add_all chunks (c ∷ cs) = omega (
  arith,
  length-add_all (add chunks c) cs,
  ap (length {A = ℕ}) (add_lem chunks c),
  length-append chunks (header_word c ∷ args_of c),
  length-args_of c,
)

module _ (run : List HartSetup → Machine → Bool × Machine) (buffer : Ptr) where
  args-Reads :
      (m : HostMemory) (pos : ℕ) (c : Command)
      → Holds m buffer pos (header_word c ∷ args_of c)
      → Reads (chunks_at m (advance buffer ((pos + 1) * 8))) (args_of c)
  args-Reads m pos c h i p =
      chunks_at-advance m buffer (pos + 1) i
      ∙ ap (chunks_at m buffer) (omega arith)
      ∙ h (suc i) (omega arith)

  execute_from-perform_all :
      (fuel top : ℕ) (cs : List Command) (soc : Soc) (pos : ℕ)
      → length cs ≤ fuel
      → pos + total cs ≡ top
      → AllTyped cs
      → Intact run buffer pos cs soc
      → execute_from run fuel soc buffer top pos ≡ perform_all run cs soc
  unfolding execute_from
  execute_from-perform_all zero top [] soc pos enough end typed intact = ground arith
  execute_from-perform_all (suc fuel) top [] soc pos enough end typed intact = ground arith
  execute_from-perform_all zero top (c ∷ cs) soc pos enough end typed intact = absurd (omega arith)
  execute_from-perform_all (suc fuel) top (c ∷ cs) soc pos enough end typed intact =
      let memory = soc.machine.memory in
      let more : ltb pos top ≡ true = ground arith in
      let header : chunks_at memory buffer pos ≡ some (header_word c) =
        ap (chunks_at memory buffer) (omega arith) ∙ intact.0 0 (omega arith) in
      let handled =
        execute_command-perform run soc c (chunks_at memory (advance buffer ((pos + 1) * 8)))
          (args-Reads memory pos c intact.0) in
      rw (more, execute_from, header, decode-header_word c typed.0, handled)
        (after-follow run c _ (perform_all run cs) (perform run soc c) (λ soc' done.
          execute_from-perform_all fuel top cs soc' (pos + 1 + (header_of c).chunk_count)
            (omega arith) (omega arith) typed.1 (intact.1 soc' done)))

length-total : (cs : List Command) → length cs ≤ total cs
length-total [] = omega arith
length-total (c ∷ cs) = omega (arith, length-total cs)

pub execute-add_all :
    (run : List HartSetup → Machine → Bool × Machine) (soc : Soc) (addr : ℕ) (buffer : Ptr)
    (cs : List Command)
    → AllTyped cs
    → controller_addr_to_mem soc.machine addr (length (add_all [] cs) * 8) cmp_unit ≡ some buffer
    → Intact run buffer 0 cs soc
    → execute run soc addr (length (add_all [] cs) * 8) ≡ perform_all run cs soc
unfolding execute
execute-add_all run soc addr buffer cs typed found intact =
    let size : length (add_all [] cs) ≡ total cs = omega (arith, length-add_all [] cs) in
    let words : length (add_all [] cs) * 8 / 8 ≡ length (add_all [] cs) = omega arith in
    rw (found, execute, words)
      (execute_from-perform_all run buffer (length (add_all [] cs)) (length (add_all [] cs)) cs soc
        0 (omega (arith, length-total cs)) (omega arith) typed intact)
