-- ===== src/Dma/Rows.antt =====
-- The row loop of a strided transfer against its specification: which bytes it writes, with which
-- values, and that it writes no others.
use nupu_refsi.Prelude.{
  ℕ, zero, suc, ◌+◌, ◌-◌, ◌*◌, ◌%◌, ◌^◌, ◌≤◌, ◌<◌, ◌≡◌, ◌≢◌, ◌⊎◌, inl, refl, sym, ap, ◌∙◌, some,
  arith,
}
use nupu_refsi.HostMemory.{Ptr, HostMemory, advance, move_bytes, memcpy}
use nupu_refsi.HostMemory.Laws.{memcpy-Apart}
use nupu_refsi.Dma.{copy_rows}

-- Row y of `size` bytes, the rows `stride` bytes apart, lies in its block.
abbrev pub RowsFit : HostMemory → Ptr → ℕ → ℕ → ℕ → Type 0
RowsFit m p n size stride = (y : ℕ) → y < n → p.offset + y * stride + size ≤ m.extent p.block

-- The offset lies in none of the n rows.
abbrev pub OutsideRows : Ptr → ℕ → ℕ → ℕ → ℕ → Type 0
OutsideRows p n size stride o =
    (y : ℕ) → y < n → (o < p.offset + y * stride) ⊎ (p.offset + y * stride + size ≤ o)

-- Memory `m'` is `m` with n rows copied.
pub record Copied (m m' : HostMemory) (dst src : Ptr) (n size ds ss : ℕ) : Type 0 where
  pub same_extent : (b : ℕ) → m'.extent b ≡ m.extent b
  pub other_blocks : (b o : ℕ) → b ≢ dst.block → m'.bytes b o ≡ m.bytes b o
  pub outside : (o : ℕ) → OutsideRows dst n size ds o → m'.bytes dst.block o ≡ m.bytes dst.block o
  pub rows :
      (y i : ℕ)
      → y < n
      → i < size
      → m'.bytes dst.block (dst.offset + y * ds + i) ≡ m.bytes src.block (src.offset + y * ss + i)

-- The first row, as a memory.
move-other :
    (m : HostMemory) (dst src : Ptr) (n b o : ℕ)
    → b ≢ dst.block
    → (move_bytes m dst src n).bytes b o ≡ m.bytes b o
unfolding move_bytes
move-other m dst src n b o h = ground arith

move-outside :
    (m : HostMemory) (dst src : Ptr) (n o : ℕ)
    → (o < dst.offset) ⊎ (dst.offset + n ≤ o)
    → (move_bytes m dst src n).bytes dst.block o ≡ m.bytes dst.block o
unfolding move_bytes
move-outside m dst src n o h = ground arith

move-inside :
    (m : HostMemory) (dst src : Ptr) (n i : ℕ)
    → i < n
    → (move_bytes m dst src n).bytes dst.block (dst.offset + i) ≡ m.bytes src.block (src.offset + i)
unfolding move_bytes
move-inside m dst src n i h =
    ground (arith, ap (λ (t : ℕ). m.bytes src.block (src.offset + t)) cancel)
  where
    cancel : dst.offset + i - dst.offset ≡ i
    cancel = omega arith

move-extent :
    (m : HostMemory) (dst src : Ptr) (n b : ℕ) → (move_bytes m dst src n).extent b ≡ m.extent b
unfolding move_bytes
move-extent m dst src n b = refl

module _ (m : HostMemory) (dst src : Ptr) (n size ds ss : ℕ) where
  -- What holds of the rest of the loop, started behind the first row.
  abbrev Rest : HostMemory → Type 0
  Rest m' = Copied (move_bytes m dst src size) m' (advance dst ds) (advance src ss) n size ds ss

  module _ (apart : src.block ≢ dst.block) (wide : size ≤ ds)
      (dst_end : m.extent dst.block < 2 ^ 64) (src_end : m.extent src.block < 2 ^ 64)
      (dst_fit : RowsFit m dst (suc n) size ds) (src_fit : RowsFit m src (suc n) size ss)
      (m' : HostMemory) (rest : Rest m') where
    -- With a row left the pointers do not wrap.
    dst_next : 0 < n → (advance dst ds).offset ≡ dst.offset + ds
    dst_next h = omega (arith, dst_fit 1)

    src_next : 0 < n → (advance src ss).offset ≡ src.offset + ss
    src_next h = omega (arith, src_fit 1)

    row_step :
        (y i : ℕ)
        → y < suc n
        → i < size
        → m'.bytes dst.block (dst.offset + y * ds + i) ≡ m.bytes src.block (src.offset + y * ss + i)
    row_step zero i hy hi =
        ap (m'.bytes dst.block) (omega arith)
        ∙ rest.outside (dst.offset + i) (λ y p. inl (omega (arith, dst_next (omega arith))))
        ∙ move-inside m dst src size i hi
        ∙ ap (m.bytes src.block) (omega arith)
    row_step (suc y) i hy hi =
        ap (m'.bytes dst.block) (omega (arith, dst_next (omega arith)))
        ∙ rest.rows y i (omega arith) hi
        ∙ move-other m dst src size src.block _ apart
        ∙ ap (m.bytes src.block) (omega (arith, src_next (omega arith)))

    outside_rest :
        (o y : ℕ)
        → OutsideRows dst (suc n) size ds o
        → y < n
        → (o < (advance dst ds).offset + y * ds) ⊎ ((advance dst ds).offset + y * ds + size ≤ o)
    outside_rest o y h p = ground (arith, h (suc y), dst_next (omega arith))

    step-Copied : Copied m m' dst src (suc n) size ds ss
    step-Copied = record {
      same_extent = λ b. rest.same_extent b ∙ move-extent m dst src size b;
      other_blocks = λ b o h. rest.other_blocks b o h ∙ move-other m dst src size b o h;
      outside = λ o h.
          rest.outside o (λ y p. outside_rest o y h p)
          ∙ move-outside m dst src size o (ground (arith, h 0));
      rows = row_step;
    }

-- A run of the row loop to its end, `count` strides on.
pub record RowsRun (count : ℕ) (m : HostMemory) (dst src : Ptr) (size ds ss : ℕ) : Type 0 where
  pub m' : HostMemory
  pub dst' : Ptr
  pub src' : Ptr
  pub ran : copy_rows count m dst src size ds ss ≡ some (m', dst', src')
  pub copied : Copied m m' dst src count size ds ss
  pub dst_off : dst'.offset % 2 ^ 64 ≡ (dst.offset + count * ds) % 2 ^ 64
  pub src_off : src'.offset % 2 ^ 64 ≡ (src.offset + count * ss) % 2 ^ 64
  pub dst_blk : dst'.block ≡ dst.block
  pub src_blk : src'.block ≡ src.block

pub copy_rows_step :
    (n : ℕ) (m first : HostMemory) (dst src : Ptr) (size ds ss : ℕ)
    → memcpy m dst src size ≡ some first
    → copy_rows (suc n) m dst src size ds ss
      ≡ copy_rows n first (advance dst ds) (advance src ss) size ds ss
unfolding copy_rows
copy_rows_step n m first dst src size ds ss e = rw (e, copy_rows) refl

-- The row loop runs to its end without a fault, copies every row and nothing else, and leaves the
-- pointers `count` strides on.
pub copy_rows_lem :
    (count : ℕ) (m : HostMemory) (dst src : Ptr) (size ds ss : ℕ)
    → src.block ≢ dst.block
    → size ≤ ds
    → m.extent dst.block < 2 ^ 64
    → m.extent src.block < 2 ^ 64
    → RowsFit m dst count size ds
    → RowsFit m src count size ss
    → RowsRun count m dst src size ds ss
unfolding copy_rows
copy_rows_lem zero m dst src size ds ss apart wide de se df sf = record {
  m' = m;
  dst' = dst;
  src' = src;
  ran = refl;
  copied = record {
    same_extent = λ b. refl;
    other_blocks = λ b o h. refl;
    outside = λ o h. refl;
    rows = λ y i h. elim h [ ];
  };
  dst_off = omega arith;
  src_off = omega arith;
  dst_blk = refl;
  src_blk = refl;
}
copy_rows_lem (suc n) m dst src size ds ss apart wide de se df sf =
    let first =
      memcpy-Apart m dst src size (omega (arith, df 0)) (omega (arith, sf 0))
        (inl (λ e. apart (sym e))) in
    let r =
      copy_rows_lem n (move_bytes m dst src size) (advance dst ds) (advance src ss) size ds ss apart
        wide (omega (arith, move-extent m dst src size dst.block))
        (omega (arith, move-extent m dst src size src.block))
        (λ y h. omega (arith, df (suc y), move-extent m dst src size dst.block))
        (λ y h. omega (arith, sf (suc y), move-extent m dst src size src.block)) in
    record {
      m' = r.m';
      dst' = r.dst';
      src' = r.src';
      ran = copy_rows_step n m (move_bytes m dst src size) dst src size ds ss first ∙ r.ran;
      copied = step-Copied m dst src n size ds ss apart wide de se df sf r.m' r.copied;
      dst_off = omega (arith, r.dst_off);
      src_off = omega (arith, r.src_off);
      dst_blk = r.dst_blk;
      src_blk = r.src_blk;
    }
