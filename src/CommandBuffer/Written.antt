-- ===== src/CommandBuffer/Written.antt =====
-- The chunks of a command buffer as the bytes that the host writes to device memory.
use nupu_refsi.Prelude.{
  ℕ, zero, suc, ◌+◌, ◌-◌, ◌*◌, ◌%◌, ◌^◌, ◌<◌, ◌≤◌, ◌≡◌, refl, sym, ap, subst, ◌∙◌, List, [], ◌∷◌,
  ◌++◌, some, length, get_elem?, get_or, arith, length-append,
}
use nupu_refsi.HostMemory.{Ptr, HostMemory, advance, copy_out, write_bytes, slice}
use nupu_refsi.HostMemory.Laws.{slice-get_or, copy_out_fits, extent-write_bytes}
use nupu_refsi.Bytes.{bytes_of_word, length-bytes_of_word, word-bytes}
use nupu_refsi.Chunk.{chunks_at}
use nupu_refsi.CommandBuffer.Refine.{Holds}

-- chunks.data(), as bytes.
unfoldable pub chunk_bytes : List ℕ → List ℕ
chunk_bytes [] = []
chunk_bytes (w ∷ ws) = bytes_of_word 8 w ++ chunk_bytes ws

pub length-chunk_bytes : (ws : List ℕ) → length (chunk_bytes ws) ≡ length ws * 8
unfolding chunk_bytes
length-chunk_bytes [] = refl
length-chunk_bytes (w ∷ ws) =
    length-append (bytes_of_word 8 w) (chunk_bytes ws)
    ∙ omega (arith, length-bytes_of_word 8 w, length-chunk_bytes ws)

get_or-left : (bs r : List ℕ) (j : ℕ) → j < length bs → get_or (bs ++ r) j 0 ≡ get_or bs j 0
get_or-left [] r j h = absurd (omega (arith, h))
get_or-left (b ∷ bs) r zero h = refl
get_or-left (b ∷ bs) r (suc j) h = get_or-left bs r j (omega (arith, h))

get_or-right : (bs r : List ℕ) (n k : ℕ) → n ≡ length bs + k → get_or (bs ++ r) n 0 ≡ get_or r k 0
get_or-right [] r n k e = let same : n ≡ k = omega (arith, e) in ap (λ z. get_or r z 0) same
get_or-right (b ∷ bs) r zero k e = absurd (omega (arith, e))
get_or-right (b ∷ bs) r (suc n) k e = get_or-right bs r n k (omega (arith, e))

-- Byte j of chunk i.
get_or-chunk_bytes :
    (ws : List ℕ) (i j : ℕ)
    → i < length ws
    → j < 8
    → get_or (chunk_bytes ws) (i * 8 + j) 0 ≡ get_or (bytes_of_word 8 (get_or ws i 0)) j 0
unfolding chunk_bytes
get_or-chunk_bytes [] i j h k = absurd (omega (arith, h))
get_or-chunk_bytes (w ∷ ws) zero j h k =
    let place : 0 * 8 + j ≡ j = omega arith in
    ap (λ n. get_or (bytes_of_word 8 w ++ chunk_bytes ws) n 0) place
    ∙ get_or-left (bytes_of_word 8 w) (chunk_bytes ws) j
        (omega (arith, k, length-bytes_of_word 8 w))
get_or-chunk_bytes (w ∷ ws) (suc i) j h k =
    get_or-right (bytes_of_word 8 w) (chunk_bytes ws) (suc i * 8 + j) (i * 8 + j)
      (omega (arith, length-bytes_of_word 8 w))
    ∙ get_or-chunk_bytes ws i j (omega (arith, h)) k

get_elem?-get_or : (ws : List ℕ) (i : ℕ) → i < length ws → get_elem? ws i ≡ some (get_or ws i 0)
get_elem?-get_or [] i h = absurd (omega (arith, h))
get_elem?-get_or (w ∷ ws) zero h = refl
get_elem?-get_or (w ∷ ws) (suc i) h = get_elem?-get_or ws i (omega (arith, h))

abbrev pub AllWords : List ℕ → Type 0
AllWords ws = (i : ℕ) → i < length ws → get_or ws i 0 < 2 ^ 64

-- The bytes of chunk i, in the memory that was written.
written_chunk :
    (m : HostMemory) (p : Ptr) (ws : List ℕ) (i : ℕ)
    → i < length ws
    → slice ((write_bytes m p (chunk_bytes ws)).bytes p.block) (p.offset + i * 8) 8
      ≡ bytes_of_word 8 (get_or ws i 0)
unfolding write_bytes
written_chunk m p ws i h =
    let bs : List ℕ = bytes_of_word 8 (get_or ws i 0) in
    let f : ℕ → ℕ = (write_bytes m p (chunk_bytes ws)).bytes p.block in
    subst (λ n. slice f (p.offset + i * 8) n ≡ bs) (length-bytes_of_word 8 (get_or ws i 0))
      (slice-get_or f bs (p.offset + i * 8) (λ o a b.
        let j : ℕ = o - (p.offset + i * 8) in
        let place : o - p.offset ≡ i * 8 + j = omega (arith, a) in
        let byte : get_or (chunk_bytes ws) (o - p.offset) 0 ≡ get_or bs j 0 =
          ap (λ n. get_or (chunk_bytes ws) n 0) place
          ∙ get_or-chunk_bytes ws i j h
              (omega (arith, a, b, length-bytes_of_word 8 (get_or ws i 0))) in
        ground
          (arith, byte, a, b, h, length-chunk_bytes ws, length-bytes_of_word 8 (get_or ws i 0))))

-- What was written is what the command processor reads.
pub write-Holds :
    (m : HostMemory) (p : Ptr) (ws : List ℕ)
    → AllWords ws
    → p.offset + length ws * 8 ≤ m.extent p.block
    → m.extent p.block < 2 ^ 64
    → Holds (write_bytes m p (chunk_bytes ws)) p 0 ws
unfolding chunks_at
write-Holds m p ws typed fits small i h =
    let v : ℕ = get_or ws i 0 in
    let m' : HostMemory = write_bytes m p (chunk_bytes ws) in
    let q : Ptr = record p { offset = p.offset + i * 8 } in
    let offset : (p.offset + (0 + i) * 8) % 2 ^ 64 ≡ p.offset + i * 8 =
      omega (arith, fits, small, h) in
    let room : p.offset + i * 8 + 8 ≤ m'.extent p.block =
      subst (λ n. p.offset + i * 8 + 8 ≤ n) (sym (extent-write_bytes m p (chunk_bytes ws) p.block))
        (omega (arith, fits, h)) in
    let copied : copy_out m' (advance p ((0 + i) * 8)) 8 ≡ some (bytes_of_word 8 v) =
      ap (λ n. copy_out m' (record p { offset = n }) 8) offset
      ∙ copy_out_fits m' q 8 room
      ∙ ap (λ (bs : List ℕ). some bs) (written_chunk m p ws i h) in
    rw (copied, chunks_at)
      (ap (λ n. some n) (word-bytes 8 v (typed i h)) ∙ sym (get_elem?-get_or ws i h))
