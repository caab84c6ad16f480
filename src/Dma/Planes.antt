-- ===== src/Dma/Planes.antt =====
-- The plane loop of a 3D transfer against its specification.
use nupu_refsi.Prelude.{
  ℕ, zero, suc, ◌+◌, ◌*◌, ◌%◌, ◌^◌, ◌≤◌, ◌<◌, ◌≡◌, ◌≢◌, ◌⊎◌, inl, refl, ap, ◌∙◌, some, arith, sub64,
  mul64,
}
use mathlib.Core.Path.{ap₂}
use nupu_refsi.HostMemory.{Ptr, HostMemory, advance}
use nupu_refsi.Dma.{copy_rows, copy_planes}
use nupu_refsi.Dma.Rows.{Copied, copy_rows_lem}

-- Row y of plane z lies in its block.
abbrev pub PlanesFit : HostMemory → Ptr → ℕ → ℕ → ℕ → ℕ → ℕ → Type 0
PlanesFit m p planes n size stride0 stride1 =
    (z y : ℕ) → z < planes → y < n → p.offset + z * stride1 + y * stride0 + size ≤ m.extent p.block

abbrev pub OutsidePlanes : Ptr → ℕ → ℕ → ℕ → ℕ → ℕ → ℕ → Type 0
OutsidePlanes p planes n size stride0 stride1 o =
    (z y : ℕ)
    → z < planes
    → y < n
    → (o < p.offset + z * stride1 + y * stride0) ⊎ (p.offset + z * stride1 + y * stride0 + size ≤ o)

-- Memory `m'` is `m` with the rows of all planes copied.
pub record PlanesCopied (m m' : HostMemory) (dst src : Ptr) (planes n size d0 d1 s0 s1 : ℕ)
    : Type 0 where
  pub other_blocks : (b o : ℕ) → b ≢ dst.block → m'.bytes b o ≡ m.bytes b o
  pub outside :
      (o : ℕ) → OutsidePlanes dst planes n size d0 d1 o → m'.bytes dst.block o ≡ m.bytes dst.block o
  pub cells :
      (z y i : ℕ)
      → z < planes
      → y < n
      → i < size
      → m'.bytes dst.block (dst.offset + z * d1 + y * d0 + i)
        ≡ m.bytes src.block (src.offset + z * s1 + y * s0 + i)

-- From the end of the rows the pointer goes to the next plane.
next_plane :
    (p q : Ptr) (n d0 d1 : ℕ)
    → q.offset % 2 ^ 64 ≡ (p.offset + n * d0) % 2 ^ 64
    → q.block ≡ p.block
    → advance q (sub64 d1 (mul64 n d0)) ≡ advance p d1
next_plane p q n d0 d1 e b = λ i. record { block = b i; offset = same i }
  where
    same : (q.offset + sub64 d1 (mul64 n d0)) % 2 ^ 64 ≡ (p.offset + d1) % 2 ^ 64
    same = omega arith

module _ (m m' last : HostMemory) (dst src : Ptr) (planes n size d0 d1 s0 s1 : ℕ)
    (apart : src.block ≢ dst.block) (gap : n * d0 ≤ d1) (wide : size ≤ d0) (positive : 0 < n)
    (dst_end : m.extent dst.block < 2 ^ 64) (src_end : m.extent src.block < 2 ^ 64)
    (dst_fit : PlanesFit m dst (suc planes) n size d0 d1)
    (src_fit : PlanesFit m src (suc planes) n size s0 s1) (plane : Copied m m' dst src n size d0 s0)
    (rest : PlanesCopied m' last (advance dst d1) (advance src s1) planes n size d0 d1 s0 s1) where
  dst_next : 0 < planes → (advance dst d1).offset ≡ dst.offset + d1
  dst_next h = omega (arith, dst_fit 1 0)

  src_next : 0 < planes → (advance src s1).offset ≡ src.offset + s1
  src_next h = omega (arith, src_fit 1 0)

  -- A row of the first plane ends before the next plane.
  row_end : (y : ℕ) → y < n → y * d0 + size ≤ d1
  row_end y h = grind arith

  cell_step :
      (z y i : ℕ)
      → z < suc planes
      → y < n
      → i < size
      → last.bytes dst.block (dst.offset + z * d1 + y * d0 + i)
        ≡ m.bytes src.block (src.offset + z * s1 + y * s0 + i)
  cell_step zero y i hz hy hi =
      rest.outside _ (λ z' y' p q. inl (omega (arith, dst_next (omega arith), row_end y hy)))
      ∙ ap (m'.bytes dst.block) (omega arith)
      ∙ plane.rows y i hy hi
      ∙ ap (m.bytes src.block) (omega arith)
  cell_step (suc z) y i hz hy hi =
      ap (last.bytes dst.block) (omega (arith, dst_next (omega arith)))
      ∙ rest.cells z y i (omega arith) hy hi
      ∙ plane.other_blocks src.block _ apart
      ∙ ap (m.bytes src.block) (omega (arith, src_next (omega arith)))

  outside_rest :
      (o z y : ℕ)
      → OutsidePlanes dst (suc planes) n size d0 d1 o
      → z < planes
      → y < n
      → (o < (advance dst d1).offset + z * d1 + y * d0)
        ⊎ ((advance dst d1).offset + z * d1 + y * d0 + size ≤ o)
  outside_rest o z y h p q = ground (arith, h (suc z) y, dst_next (omega arith))

  planes_step : PlanesCopied m last dst src (suc planes) n size d0 d1 s0 s1
  planes_step = record {
    other_blocks = λ b o h. rest.other_blocks b o h ∙ plane.other_blocks b o h;
    outside = λ o h.
        rest.outside o (λ z y p q. outside_rest o z y h p q)
        ∙ plane.outside o (λ y p. ground (arith, h 0 y));
    cells = cell_step;
  }

-- A run of the plane loop to its end.
pub record PlanesRun (planes n : ℕ) (m : HostMemory) (dst src : Ptr) (size d0 d1 s0 s1 : ℕ)
    : Type 0 where
  pub last : HostMemory
  pub dst' : Ptr
  pub src' : Ptr
  pub ran : copy_planes planes n m dst src size d0 d1 s0 s1 ≡ some (last, dst', src')
  pub copied : PlanesCopied m last dst src planes n size d0 d1 s0 s1

copy_planes_step :
    (planes n : ℕ) (m m' : HostMemory) (dst src dst' src' : Ptr) (size d0 d1 s0 s1 : ℕ)
    → copy_rows n m dst src size d0 s0 ≡ some (m', dst', src')
    → dst'.offset % 2 ^ 64 ≡ (dst.offset + n * d0) % 2 ^ 64
    → src'.offset % 2 ^ 64 ≡ (src.offset + n * s0) % 2 ^ 64
    → dst'.block ≡ dst.block
    → src'.block ≡ src.block
    → copy_planes (suc planes) n m dst src size d0 d1 s0 s1
      ≡ copy_planes planes n m' (advance dst d1) (advance src s1) size d0 d1 s0 s1
unfolding copy_planes
copy_planes_step planes n m m' dst src dst' src' size d0 d1 s0 s1 e eo so eb sb =
    rw (e, copy_planes)
      (ap₂ (λ p q. copy_planes planes n m' p q size d0 d1 s0 s1) (next_plane dst dst' n d0 d1 eo eb)
        (next_plane src src' n s0 s1 so sb))

-- The plane loop runs to its end without a fault, and copies every row of every plane and nothing
-- else, where the planes of the destination are disjoint.
pub copy_planes_lem :
    (planes n : ℕ) (m : HostMemory) (dst src : Ptr) (size d0 d1 s0 s1 : ℕ)
    → src.block ≢ dst.block
    → 0 < n
    → size ≤ d0
    → n * d0 ≤ d1
    → m.extent dst.block < 2 ^ 64
    → m.extent src.block < 2 ^ 64
    → PlanesFit m dst planes n size d0 d1
    → PlanesFit m src planes n size s0 s1
    → PlanesRun planes n m dst src size d0 d1 s0 s1
unfolding copy_planes
copy_planes_lem zero n m dst src size d0 d1 s0 s1 apart pos wide gap de se df sf = record {
  last = m;
  dst' = dst;
  src' = src;
  ran = refl;
  copied = record {
    other_blocks = λ b o h. refl;
    outside = λ o h. refl;
    cells = λ z y i h. elim h [ ];
  };
}
copy_planes_lem (suc k) n m dst src size d0 d1 s0 s1 apart pos wide gap de se df sf =
    let r =
      copy_rows_lem n m dst src size d0 s0 apart wide de se (λ y h. omega (arith, df 0 y))
        (λ y h. omega (arith, sf 0 y)) in
    let rest =
      copy_planes_lem k n r.m' (advance dst d1) (advance src s1) size d0 d1 s0 s1 apart pos wide gap
        (omega (arith, r.copied.same_extent dst.block))
        (omega (arith, r.copied.same_extent src.block))
        (λ z y p q. omega (arith, df (suc z) y, r.copied.same_extent dst.block))
        (λ z y p q. omega (arith, sf (suc z) y, r.copied.same_extent src.block)) in
    record {
      last = rest.last;
      dst' = rest.dst';
      src' = rest.src';
      ran =
          copy_planes_step k n m r.m' dst src r.dst' r.src' size d0 d1 s0 s1 r.ran r.dst_off
            r.src_off r.dst_blk r.src_blk
          ∙ rest.ran;
      copied =
          planes_step m r.m' rest.last dst src k n size d0 d1 s0 s1 apart gap wide pos de se df sf
            r.copied rest.copied;
    }
