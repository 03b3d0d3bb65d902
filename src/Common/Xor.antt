-- ===== src/Common/Xor.antt =====
-- The exclusive or of two words is a word.
use Prim.Native.Nat.{ℕ, zero, suc, ◌/◌, ◌%◌, ◌^◌, ◌<◌, bit_xor, digits, differ, bit_xor-bitwise}
use mathlib.Core.Path.{subst, sym}
use native.Mathlib.Nat.{pow-suc}
use native.Mathlib.Omega.{arith}

differ-lt : (x y : ℕ) → x < 2 → y < 2 → differ x y < 2
differ-lt zero y p q = q
differ-lt (suc x) zero p q = p
differ-lt (suc x) (suc y) p q = differ-lt x y (omega arith) (omega arith)

-- the digits of `a ^ b`, on fuel
abbrev xor_on : ℕ → ℕ → ℕ → ℕ
xor_on n a b = digits (λ b. b) differ n a b

xor_on-lt : (n k a b : ℕ) → a < 2 ^ k → b < 2 ^ k → xor_on n a b < 2 ^ k
xor_on-lt zero k a b p q = q
xor_on-lt (suc n) k zero b p q = q
xor_on-lt (suc n) zero (suc a) b p q = absurd (omega arith)
xor_on-lt (suc n) (suc k) (suc a) b p q = omega (
  arith,
  pow-suc 2 k,
  xor_on-lt n k (suc a / 2) (b / 2) (omega (arith, pow-suc 2 k)) (omega (arith, pow-suc 2 k)),
  differ-lt (suc a % 2) (b % 2) (omega arith) (omega arith),
)

pub bit_xor-lt : (k a b : ℕ) → a < 2 ^ k → b < 2 ^ k → bit_xor a b < 2 ^ k
bit_xor-lt k a b p q = subst (λ x. x < 2 ^ k) (sym (bit_xor-bitwise a b)) (xor_on-lt a k a b p q)
