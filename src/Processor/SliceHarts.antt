-- ===== src/Processor/SliceHarts.antt =====
-- The harts of RUN_KERNEL_SLICE, and the registers that they start with.
use nupu_refsi.Prelude.{
  ℕ, zero, suc, ◌<◌, ◌≤◌, ◌≡◌, refl, ap, ◌∙◌, ◌+◌, ◌-◌, ◌*◌, ◌/◌, ◌%◌, ◌^◌, ◌==◌, if◌then◌else◌,
  min, get_or, true, List, [], ◌∷◌, some, length, arith,
}
use native.Mathlib.Nat.{mul-le-mul_left, mul-div-le}
use nupu_refsi.Bits.{bit_and_mask}
use nupu_refsi.Config.{
  reg_return_addr, reg_stack_top, reg_entry_pt_fn, reg_kub_desc, tcdm_hart_base, tcdm_hart_size,
}
use nupu_refsi.Soc.{Soc, HartState, HartSetup}
use nupu_refsi.Accelerator.{args_fit}
use nupu_refsi.Accelerator.Groups.{tabulate, tabulate_congr, no_hart, hart_start, groups}
use nupu_refsi.Processor.Kernels.{
  kub_addr, tsd_size, entry_point_addr, slice_stack_top, copy_tsd, prepare_harts, tcdm_hart_address,
}

-- The data of one hart.
abbrev slice_hart : Soc → ℕ → ℕ → ℕ → HartState
slice_hart soc num_harts slice_id hart = record {
  stack_top_addr = slice_stack_top soc num_harts hart;
  extra_args = slice_id ∷ kub_addr soc ∷ 0 ∷ [];
}

abbrev setup_of : ℕ → ℕ → ℕ → HartState → HartSetup
setup_of entry_point return_addr id x = record {
  pc = entry_point;
  ra = return_addr;
  sp = x.stack_top_addr;
  a0 = id;
  args = x.extra_args;
}

-- The data of `left` harts from hart `hart` on: each has its own stack, and the same arguments.
abbrev pub slice_harts : ℕ → Soc → ℕ → ℕ → ℕ → List HartState
slice_harts zero soc num_harts hart slice_id = []
slice_harts (suc left) soc num_harts hart slice_id =
    record {
      stack_top_addr = slice_stack_top soc num_harts hart;
      extra_args = slice_id ∷ kub_addr soc ∷ 0 ∷ [];
    }
    ∷ slice_harts left soc num_harts (suc hart) slice_id

pub length-slice_harts :
    (left : ℕ) (soc : Soc) (num_harts hart slice_id : ℕ)
    → length (slice_harts left soc num_harts hart slice_id) ≡ left
length-slice_harts zero soc num_harts hart slice_id = refl
length-slice_harts (suc left) soc num_harts hart slice_id =
    ap suc (length-slice_harts left soc num_harts (suc hart) slice_id)

pub args_fit-slice_harts :
    (left : ℕ) (soc : Soc) (num_harts hart slice_id : ℕ)
    → args_fit (slice_harts left soc num_harts hart slice_id) ≡ true
unfolding args_fit
args_fit-slice_harts zero soc num_harts hart slice_id = refl
args_fit-slice_harts (suc left) soc num_harts hart slice_id =
    args_fit-slice_harts left soc num_harts (suc hart) slice_id

pub prepare_harts-slice_harts :
    (left : ℕ) (soc : Soc) (num_harts hart slice_id : ℕ)
    → tsd_size soc ≡ 0
    → prepare_harts left soc num_harts hart slice_id
      ≡ some (some (slice_harts left soc num_harts hart slice_id), soc)
unfolding prepare_harts copy_tsd
prepare_harts-slice_harts zero soc num_harts hart slice_id e = refl
prepare_harts-slice_harts (suc left) soc num_harts hart slice_id e =
    rw
      (
        e,
        prepare_harts,
        copy_tsd,
        prepare_harts-slice_harts left soc num_harts (suc hart) slice_id e,
      )
      refl

-- The top of the stack of hart `h`: that of register STACK_TOP if it is set, and else the end of the
-- hart's part of the TCDM.
abbrev pub stack_of : Soc → ℕ → ℕ → ℕ
stack_of soc num_harts h =
    if soc.registers reg_stack_top == 0
    then tcdm_hart_base + (h + 1) * (tcdm_hart_size / num_harts)
    else soc.registers reg_stack_top

-- The registers with which hart `h` starts instance `id` of a slice.
abbrev pub slice_start : Soc → ℕ → ℕ → ℕ → ℕ → HartSetup
slice_start soc num_harts slice_id id h = record {
  pc = soc.registers reg_entry_pt_fn % 2 ^ 32;
  ra = soc.registers reg_return_addr;
  sp = stack_of soc num_harts h;
  a0 = id;
  args = slice_id ∷ soc.registers reg_kub_desc % 2 ^ 48 ∷ 0 ∷ [];
}

-- `count` groups of `n` instances: hart h of group g runs instance g times the number of harts, plus
-- h.
abbrev pub slice_groups : ℕ → Soc → ℕ → ℕ → ℕ → List (List HartSetup)
slice_groups count soc num_harts slice_id n = tabulate count (λ g.
    tabulate (min (n - g * num_harts) num_harts)
      (λ h. slice_start soc num_harts slice_id (g * num_harts + h) h))

stack_of_lem :
    (soc : Soc) (num_harts h : ℕ)
    → h < num_harts
    → slice_stack_top soc num_harts h ≡ stack_of soc num_harts h
unfolding tcdm_hart_address
stack_of_lem soc num_harts h p =
    let part : ℕ = tcdm_hart_size / num_harts in
    let within : part * (h + 1) ≤ part * num_harts = mul-le-mul_left part (omega (arith, p)) in
    let total : num_harts * part ≤ tcdm_hart_size = mul-div-le tcdm_hart_size num_harts in
    let inside : (h + 1) * part ≤ 2 ^ 21 = omega (arith, within, total) in
    let address : tcdm_hart_address num_harts h part ≡ tcdm_hart_base + (h + 1) * part =
      omega (arith, inside) in
    ground (arith, address)

get_or-slice_harts :
    (left : ℕ) (soc : Soc) (num_harts hart slice_id h : ℕ)
    → h < left
    → get_or (slice_harts left soc num_harts hart slice_id) h no_hart ≡ record {
      stack_top_addr = slice_stack_top soc num_harts (hart + h);
      extra_args = slice_id ∷ kub_addr soc ∷ 0 ∷ [];
    }
get_or-slice_harts zero soc num_harts hart slice_id h p = absurd (omega (arith, p))
get_or-slice_harts (suc left) soc num_harts hart slice_id zero p =
    ap (slice_hart soc num_harts slice_id) (omega arith)
get_or-slice_harts (suc left) soc num_harts hart slice_id (suc h) p =
    get_or-slice_harts left soc num_harts (suc hart) slice_id h (omega (arith, p))
    ∙ ap (slice_hart soc num_harts slice_id) (omega arith)

start_lem :
    (soc : Soc) (num_harts slice_id id h : ℕ)
    → h < num_harts
    → hart_start
        (entry_point_addr soc)
        (soc.registers reg_return_addr)
        (slice_harts num_harts soc num_harts 0 slice_id)
        id
        h
      ≡ slice_start soc num_harts slice_id id h
unfolding entry_point_addr kub_addr
start_lem soc num_harts slice_id id h p =
    let ra = soc.registers reg_return_addr in
    let entry : entry_point_addr soc ≡ soc.registers reg_entry_pt_fn % 2 ^ 32 =
      bit_and_mask 32 (soc.registers reg_entry_pt_fn) in
    let kub : kub_addr soc ≡ soc.registers reg_kub_desc % 2 ^ 48 =
      bit_and_mask 48 (soc.registers reg_kub_desc) in
    let stack : slice_stack_top soc num_harts (0 + h) ≡ stack_of soc num_harts h =
      ap (slice_stack_top soc num_harts) (omega arith) ∙ stack_of_lem soc num_harts h p in
    ap (λ (x : HartState). setup_of (entry_point_addr soc) ra id x)
      (get_or-slice_harts num_harts soc num_harts 0 slice_id h p)
    ∙ (λ i. record {
      pc = entry i;
      ra = ra;
      sp = stack i;
      a0 = id;
      args = slice_id ∷ kub i ∷ 0 ∷ [];
    })

pub groups_lem :
    (count : ℕ) (soc : Soc) (num_harts slice_id n : ℕ)
    → groups count
        (entry_point_addr soc)
        (soc.registers reg_return_addr)
        (slice_harts num_harts soc num_harts 0 slice_id)
        0
        n
      ≡ slice_groups count soc num_harts slice_id n
groups_lem count soc num_harts slice_id n =
    let harts = slice_harts num_harts soc num_harts 0 slice_id in
    let start : ℕ → ℕ → HartSetup =
      hart_start (entry_point_addr soc) (soc.registers reg_return_addr) harts in
    ap (λ k. tabulate count (λ g. tabulate (min (n - g * k) k) (λ h. start (0 + g * k + h) h)))
      (length-slice_harts num_harts soc num_harts 0 slice_id)
    ∙ tabulate_congr count
        (λ g. tabulate (min (n - g * num_harts) num_harts) (λ h. start (0 + g * num_harts + h) h))
        (λ g.
          tabulate (min (n - g * num_harts) num_harts)
            (λ h. slice_start soc num_harts slice_id (g * num_harts + h) h))
        (λ g _.
          tabulate_congr (min (n - g * num_harts) num_harts) (λ h. start (0 + g * num_harts + h) h)
            (λ h. slice_start soc num_harts slice_id (g * num_harts + h) h)
            (λ h p.
              start_lem soc num_harts slice_id (0 + g * num_harts + h) h (omega (arith, p))
              ∙ ap (λ k. slice_start soc num_harts slice_id k h) (omega arith)))
