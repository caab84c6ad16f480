-- ===== src/CommandBuffer/Submit.antt =====
-- Register writes from the builder through device memory to the command processor.
use nupu_refsi.Prelude.{
  ℕ, zero, suc, ◌+◌, ◌*◌, ◌≡◌, refl, sym, ap, subst, ◌∙◌, true, ◌&&◌, List, [], ◌∷◌, ◌++◌, Option,
  some, ltb, leb, Bool, inl, inr, Bool-cases, some-injective, length, arith,
}
use nupu_refsi.Config.{RefsiResult, reg_window_base0, cmp_num_regs}
use nupu_refsi.HostMemory.{HostMemory, Ptr, write_bytes}
use nupu_refsi.Machine.{Machine}
use nupu_refsi.Access.{store}
use nupu_refsi.Access.Ram.{RamAt, RamAt-write_bytes, controller_addr_to_mem_ram, store_ram}
use nupu_refsi.DeviceApi.{write_device_memory}
use nupu_refsi.Soc.{Soc, HartSetup}
use nupu_refsi.Chunk.{chunks_at}
use nupu_refsi.Window.{handle_window_reg_write}
use nupu_refsi.Window.Memory.{handle_window_reg_write-memory}
use nupu_refsi.Processor.Registers.{write_reg, set_register, cmp_unit}
use nupu_refsi.Processor.Execute.{execute}
use nupu_refsi.CommandBuffer.{Command, add, add_all}
use nupu_refsi.CommandBuffer.Layout.{header_word, add_lem}
use nupu_refsi.CommandBuffer.Meaning.{perform}
use nupu_refsi.CommandBuffer.Refine.{Holds, Intact, AllTyped, perform_all, execute-add_all}
use nupu_refsi.CommandBuffer.Written.{chunk_bytes, length-chunk_bytes, AllWords, write-Holds}

-- A call of addWRITE_REG64 for each pair of a register and a value.
abbrev pub register_writes : List (ℕ × ℕ) → List Command
register_writes [] = []
register_writes ((reg, value) ∷ writes) = Command.write_reg64 reg value ∷ register_writes writes

-- What a command leaves in memory, whatever its result.
abbrev Ends : Soc → Option (RefsiResult × Soc) → Type 0
Ends soc done =
    (r : RefsiResult) × (soc' : Soc) × (done ≡ some (r, soc'))
    × (soc'.machine.memory ≡ soc.machine.memory)

abbrev after_window : Soc → ℕ → ℕ → Soc
after_window soc reg value = record soc {
  machine = (handle_window_reg_write soc.machine soc.windows reg value).1;
}

write_window_reg :
    (soc : Soc) (reg value : ℕ) (r : RefsiResult)
    → (leb reg_window_base0 reg && ltb reg cmp_num_regs) ≡ true
    → (handle_window_reg_write soc.machine soc.windows reg value).0 ≡ r
    → Ends soc (write_reg soc reg value)
unfolding write_reg
write_window_reg soc reg value RefsiResult.success c e = (
  RefsiResult.success,
  set_register (after_window soc reg value) reg value,
  rw (c, write_reg, e) refl,
  handle_window_reg_write-memory soc.machine soc.windows reg value,
)
write_window_reg soc reg value RefsiResult.failure c e = (
  RefsiResult.failure,
  after_window soc reg value,
  rw (c, write_reg, e) refl,
  handle_window_reg_write-memory soc.machine soc.windows reg value,
)
write_window_reg soc reg value RefsiResult.invalid_device c e = (
  RefsiResult.invalid_device,
  after_window soc reg value,
  rw (c, write_reg, e) refl,
  handle_window_reg_write-memory soc.machine soc.windows reg value,
)
write_window_reg soc reg value RefsiResult.device_closed c e = (
  RefsiResult.device_closed,
  after_window soc reg value,
  rw (c, write_reg, e) refl,
  handle_window_reg_write-memory soc.machine soc.windows reg value,
)
write_window_reg soc reg value RefsiResult.not_supported c e = (
  RefsiResult.not_supported,
  after_window soc reg value,
  rw (c, write_reg, e) refl,
  handle_window_reg_write-memory soc.machine soc.windows reg value,
)

write_reg-Ends : (soc : Soc) (reg value : ℕ) → Ends soc (write_reg soc reg value)
unfolding write_reg
write_reg-Ends soc reg value =
    elim (Bool-cases (leb reg_window_base0 reg && ltb reg cmp_num_regs)) [
      | inl c ↦ write_window_reg soc reg value _ c refl
      | inr c ↦ (RefsiResult.success, set_register soc reg value, rw (c, write_reg) refl, refl)
    ]

module _ (run : List HartSetup → Machine → Bool × Machine) where
  perform-Ends :
      (soc : Soc) (reg value : ℕ) → Ends soc (perform run soc (Command.write_reg64 reg value))
  perform-Ends soc reg value = elim (Bool-cases (ltb reg cmp_num_regs)) [
    | inl c ↦ rw (c) (write_reg-Ends soc reg value)
    | inr c ↦ (RefsiResult.failure, soc, rw (c) refl, refl)
  ]

  perform-memory :
      (soc soc' : Soc) (reg value : ℕ)
      → perform run soc (Command.write_reg64 reg value) ≡ some (RefsiResult.success, soc')
      → soc.machine.memory ≡ soc'.machine.memory
  perform-memory soc soc' reg value done =
      let (r, last, ended, same) = perform-Ends soc reg value in
      sym same
      ∙ ap (λ (z : RefsiResult × Soc). z.1.machine.memory) (some-injective _ _ (sym ended ∙ done))

  -- The chunks of the calls.
  abbrev words_of : List (ℕ × ℕ) → List ℕ
  words_of [] = []
  words_of ((reg, value) ∷ writes) =
      header_word (Command.write_reg64 reg value) ∷ value ∷ words_of writes

  Holds-Intact :
      (p : Ptr) (pos : ℕ) (writes : List (ℕ × ℕ)) (soc : Soc)
      → Holds soc.machine.memory p pos (words_of writes)
      → Intact run p pos (register_writes writes) soc
  Holds-Intact p pos [] soc h = tt
  Holds-Intact p pos ((reg, value) ∷ writes) soc h = (
    first,
    λ soc' done. Holds-Intact p (pos + 1 + 1) writes soc' (
        subst (λ (m : HostMemory). Holds m p (pos + 1 + 1) (words_of writes))
          (perform-memory soc soc' reg value done)
          (λ i q.
            ap (chunks_at soc.machine.memory p) (omega arith)
            ∙ h (suc (suc i)) (omega (arith, q)))),
  )
    where
      first :
          Holds soc.machine.memory p pos (header_word (Command.write_reg64 reg value) ∷ value ∷ [])
      first zero q = h zero (omega arith)
      first (suc zero) q = h (suc zero) (omega arith)
      first (suc (suc i)) q = absurd (omega (arith, q))

append-[] : (xs : List ℕ) → xs ++ [] ≡ xs
append-[] [] = refl
append-[] (x ∷ xs) = ap (λ (l : List ℕ). x ∷ l) (append-[] xs)

append_assoc : (xs ys zs : List ℕ) → (xs ++ ys) ++ zs ≡ xs ++ (ys ++ zs)
append_assoc [] ys zs = refl
append_assoc (x ∷ xs) ys zs = ap (λ (l : List ℕ). x ∷ l) (append_assoc xs ys zs)

add_all-words_of :
    (run : List HartSetup → Machine → Bool × Machine) (chunks : List ℕ) (writes : List (ℕ × ℕ))
    → add_all chunks (register_writes writes) ≡ chunks ++ words_of run writes
unfolding add_all
add_all-words_of run chunks [] = sym (append-[] chunks)
add_all-words_of run chunks ((reg, value) ∷ writes) =
    add_all-words_of run (add chunks (Command.write_reg64 reg value)) writes
    ∙ ap (λ (l : List ℕ). l ++ words_of run writes) (add_lem chunks (Command.write_reg64 reg value))
    ∙ append_assoc chunks _ (words_of run writes)

-- The host writes the chunks of register writes to plain memory and hands the buffer over: the write
-- succeeds, and the command processor then performs the writes, one after the other up to a failure,
-- also where they reconfigure memory windows. The registers and the chunks are of their types.
pub submit_lem :
    (run : List HartSetup → Machine → Bool × Machine) (soc : Soc) (addr unit : ℕ) (p : Ptr)
    (writes : List (ℕ × ℕ))
    → AllTyped (register_writes writes)
    → AllWords (add_all [] (register_writes writes))
    → RamAt soc.machine addr (length (add_all [] (register_writes writes)) * 8) p
    → (m : Machine) × (write_device_memory soc.machine addr
          (chunk_bytes (add_all [] (register_writes writes)))
          (length (add_all [] (register_writes writes)) * 8)
          unit
        ≡ some (RefsiResult.success, m))
      × (execute run
            (record soc { machine = m })
            addr
            (length (add_all [] (register_writes writes)) * 8)
          ≡ perform_all run (register_writes writes) (record soc { machine = m }))
unfolding write_device_memory
submit_lem run soc addr unit p writes typed words r =
    let chunks : List ℕ = add_all [] (register_writes writes) in
    let bytes : List ℕ = chunk_bytes chunks in
    let m : Machine = record soc.machine { memory = write_bytes soc.machine.memory p bytes } in
    let stored : store soc.machine addr (length chunks * 8) bytes unit ≡ some (true, m) =
      subst (λ n. store soc.machine addr n bytes unit ≡ some (true, m)) (length-chunk_bytes chunks)
        (store_ram soc.machine addr unit bytes p
          (subst (λ n. RamAt soc.machine addr n p) (sym (length-chunk_bytes chunks)) r)) in
    let held : Holds m.memory p 0 chunks =
      write-Holds soc.machine.memory p chunks words (omega (arith, r.within_ram, r.backed))
        (omega (arith, r.backed, r.small)) in
    (
      m,
      rw (stored, write_device_memory) refl,
      execute-add_all run (record soc { machine = m }) addr p (register_writes writes) typed
          (controller_addr_to_mem_ram m addr (length chunks * 8) cmp_unit p
            (RamAt-write_bytes soc.machine addr (length chunks * 8) p p bytes r))
          (Holds-Intact run p 0 writes (record soc { machine = m })
            (subst (λ (l : List ℕ). Holds m.memory p 0 l) (add_all-words_of run [] writes) held)),
    )
