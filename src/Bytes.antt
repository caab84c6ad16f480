-- ===== src/Bytes.antt =====
-- Words in memory: little-endian lists of bytes.
use nupu_refsi.Prelude.{
  ℕ, zero, suc, ◌+◌, ◌*◌, ◌/◌, ◌%◌, ◌^◌, ◌<◌, ◌≡◌, refl, List, [], ◌∷◌, length, arith,
}
use native.Mathlib.Nat.{pow-suc}

-- `*(const uint64_t *)bytes` and the like.
unfoldable pub word_of_bytes : List ℕ → ℕ
word_of_bytes [] = 0
word_of_bytes (b ∷ bs) = b + 256 * word_of_bytes bs

-- The n bytes of a word, as `memcpy(bytes, &val, n)` leaves them.
unfoldable pub bytes_of_word : ℕ → ℕ → List ℕ
bytes_of_word zero v = []
bytes_of_word (suc n) v = (v % 256) ∷ bytes_of_word n (v / 256)

pub length-bytes_of_word : (n v : ℕ) → length (bytes_of_word n v) ≡ n
unfolding bytes_of_word
length-bytes_of_word zero v = refl
length-bytes_of_word (suc n) v = omega (arith, length-bytes_of_word n (v / 256))

-- A word that fits n bytes is read back from them.
pub word-bytes : (n v : ℕ) → v < 256 ^ n → word_of_bytes (bytes_of_word n v) ≡ v
unfolding word_of_bytes bytes_of_word
word-bytes zero v h = omega arith
word-bytes (suc n) v h = omega (arith, word-bytes n (v / 256) (omega (arith, pow-suc 256 n)))
