-- ===== src/Wire/Words.antt =====
-- Words to bytes and back.
use aple.Base.{ℕ, zero, suc, ◌/◌, ◌^◌, ◌<◌, ◌≡◌, refl, ap, length, arith}
use aple.Wire.{bytes_of, word_of}

pub length-bytes_of : (k n : ℕ) → length (bytes_of k n) ≡ k
unfolding bytes_of
length-bytes_of zero n = refl
length-bytes_of (suc k) n = ap suc (length-bytes_of k (n / 256))

-- A word comes back from its bytes, where it fits into them.
pub word_of-bytes_of : (k n : ℕ) → n < 256 ^ k → word_of (bytes_of k n) ≡ n
unfolding bytes_of word_of
word_of-bytes_of zero n h = omega arith
word_of-bytes_of (suc k) n h = omega (arith, word_of-bytes_of k (n / 256) (omega arith))
