-- ===== src/Common/Words.antt =====
-- The unsigned arithmetic of C on 32-bit words, and its signed readings.
use Prim.Native.Nat.{ℕ, ◌+◌, ◌-◌, ◌%◌, ◌^◌, ◌<◌}
use mathlib.Core.Path.{◌≡◌}
use mathlib.Core.Bool.{Bool}
use native.Mathlib.Omega.{arith}
use anbo_mos.Common.Tests.{ltb}

-- `a + b` and `a - b` on uint32_t.
abbrev pub add32 : ℕ → ℕ → ℕ
add32 a b = (a + b) % 2 ^ 32

abbrev pub sub32 : ℕ → ℕ → ℕ
sub32 a b = (a + 2 ^ 32 - b) % 2 ^ 32

-- `(int32_t)a > (int32_t)b` of two words: adding 2 ^ 31 turns the signed order into the plain one.
abbrev pub gt_signed : ℕ → ℕ → Bool
gt_signed a b = ltb ((b + 2 ^ 31) % 2 ^ 32) ((a + 2 ^ 31) % 2 ^ 32)

-- `time_diff` of the kernel, as the word that is read as signed.
unfoldable pub time_diff : ℕ → ℕ → ℕ
time_diff a b = sub32 a b

-- For instants less than 2 ^ 31 after a common base, the sign of the difference is their order.
pub time_diff-order :
    (base a b : ℕ)
    → a < 2 ^ 32
    → b < 2 ^ 32
    → base < 2 ^ 32
    → sub32 a base < 2 ^ 31
    → sub32 b base < 2 ^ 31
    → gt_signed (time_diff a b) 0 ≡ ltb (sub32 b base) (sub32 a base)
unfolding time_diff
time_diff-order base a b ha hb hbase ka kb = ground arith
