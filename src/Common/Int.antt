-- ===== src/Common/Int.antt =====
-- Signed machine integers: the library's ℤ over the native numbers, words read as two's
-- complement, and the division of C.
use Prim.Native.Nat.{ℕ, suc, ◌+◌, ◌-◌, ◌*◌, ◌/◌, ◌%◌, ◌^◌}
use anbo_mos.Common.Tests.{ltb, leb, if◌then◌else◌}

-- `negsuc n` is -(n + 1).
pub data ℤ : Type 0 where
  pos : ℕ → ℤ
  negsuc : ℕ → ℤ

-- -n
abbrev pub neg : ℕ → ℤ
neg n = if leb 1 n then negsuc (n - 1) else pos 0

abbrev pub magnitude : ℤ → ℕ
magnitude (pos n) = n
magnitude (negsuc n) = suc n

-- The number that a word of `2 * half` values stands for.
abbrev pub signed : (half w : ℕ) → ℤ
signed half w = if ltb w half then pos w else negsuc (2 * half - w - 1)

-- `z * k` for a `k` without a sign.
unfoldable pub scale : ℤ → ℕ → ℤ
scale (pos n) k = pos (n * k)
scale (negsuc n) k = neg (suc n * k)

-- The word of `2 * half` values that holds `z`, where it is in range modulo that number.
abbrev pub word_of : (half : ℕ) → ℤ → ℕ
word_of half (pos n) = n % (2 * half)
word_of half (negsuc n) = 2 * half - n % (2 * half) - 1

-- What an `int32_t` holds of a result.
unfoldable pub wrap32 : ℤ → ℤ
wrap32 z = signed (2 ^ 31) (word_of (2 ^ 31) z)

-- `z / k`, which rounds towards zero.
unfoldable pub quot : ℤ → ℕ → ℤ
quot (pos n) k = pos (n / k)
quot (negsuc n) k = neg (suc n / k)

-- `k + z`
unfoldable pub add_to : ℕ → ℤ → ℤ
add_to k (pos n) = pos (k + n)
add_to k (negsuc n) = if ltb n k then pos (k - n - 1) else negsuc (n - k)
