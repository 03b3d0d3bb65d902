-- ===== src/Common/Bits.antt =====
-- `x & mask` for a mask of low ones, and the test `(v & (v - 1)) == 0`, as arithmetic. Both are
-- read off the recursion on binary digits that the native operation stands for.
use Prim.Native.Nat.{
  ℕ, zero, suc, ◌+◌, ◌-◌, ◌*◌, ◌/◌, ◌%◌, ◌^◌, ◌≤◌, ◌<◌, min, bit_and, digits, bit_and-bitwise,
}
use mathlib.Core.Path.{◌≡◌, refl, sym, ◌∙◌}
use mathlib.Core.Logic.{◌≢◌}
use native.Mathlib.Nat.{pow-suc, one-le-pow, mod_self, mod-mod_of_dvd, dvd_of_mod-eq-zero}
use native.Mathlib.Decide.{dec_lt}
use native.Mathlib.Numerals.{sub-one}
use native.Mathlib.Omega.{arith}
use mathlib.Core.Bool.{Bool, true, false}
use anbo_mos.Common.Tests.{◌==◌, ==_iff, if◌then◌else◌}

-- the digits of `a & b`, on fuel
abbrev and_on : ℕ → ℕ → ℕ → ℕ
and_on n a b = digits (λ _. zero) min n a b

and_on-zero : (n a : ℕ) → a ≤ n → and_on n a 0 ≡ 0
and_on-zero zero zero h = refl
and_on-zero zero (suc a) h = absurd (omega arith)
and_on-zero (suc n) zero h = refl
and_on-zero (suc n) (suc a) h = omega (arith, and_on-zero n (suc a / 2) (omega arith))

half-mod : (x m : ℕ) → 0 < m → (x / 2) % m * 2 + x % 2 ≡ x % (m * 2)
half-mod x m h = grind arith

half_mask : (k : ℕ) → (2 ^ suc k - 1) / 2 ≡ 2 ^ k - 1
half_mask k = omega (arith, pow-suc 2 k, one-le-pow k 2)

digit_step :
    (d x m : ℕ) → 0 < m → d ≡ (x / 2) % m → d * 2 + min (x % 2) ((m * 2 - 1) % 2) ≡ x % (m * 2)
digit_step d x m h e = omega (arith, half-mod x m h)

and_on-mask : (n k a : ℕ) → a ≤ n → and_on n a (2 ^ k - 1) ≡ a % 2 ^ k
and_on-mask n zero a h = and_on-zero n a h ∙ (omega arith)
and_on-mask zero (suc k) zero h = omega (arith, pow-suc 2 k, one-le-pow k 2)
and_on-mask zero (suc k) (suc a) h = absurd (omega arith)
and_on-mask (suc n) (suc k) zero h = omega (arith, pow-suc 2 k, one-le-pow k 2)
and_on-mask (suc n) (suc k) (suc a) h =
    rw (half_mask k, pow-suc 2 k)
      (digit_step _ (suc a) (2 ^ k) (one-le-pow k 2 (omega arith))
        (and_on-mask n k (suc a / 2) (omega arith)))

pub bit_and_mask : (k a : ℕ) → bit_and a (2 ^ k - 1) ≡ a % 2 ^ k
bit_and_mask k a = bit_and-bitwise a (2 ^ k - 1) ∙ and_on-mask a k a (omega arith)

-- A number's digits against its own, and against its predecessor's.
and_on_self : (n a : ℕ) → a ≤ n → and_on n a a ≡ a
and_on_self zero zero h = refl
and_on_self zero (suc a) h = absurd (omega arith)
and_on_self (suc n) zero h = refl
and_on_self (suc n) (suc a) h = omega (arith, and_on_self n (suc a / 2) (omega arith))

odd-pred : (n a : ℕ) → a ≤ n → a % 2 ≡ 0 → and_on (suc n) (suc a) a ≡ 0 → suc a ≡ 1
odd-pred n a h p e =
    let same : suc a / 2 ≡ a / 2 = omega arith in
    let low = and_on_self n (a / 2) (omega arith) in let e' = rw same at e in omega arith

even-pred : (n a : ℕ) → and_on (suc n) (suc a) a ≡ 0 → and_on n (suc a / 2) (a / 2) ≡ 0
even-pred n a e = omega arith

and_on-pred : (n v : ℕ) → v ≤ n → v ≢ 0 → and_on n v (v - 1) ≡ 0 → (k : ℕ) × (v ≡ 2 ^ k)
and_on-pred n zero h ne e = absurd (ne refl)
and_on-pred zero (suc a) h ne e = absurd (omega arith)
and_on-pred (suc n) (suc a) h ne e = elim (dec_lt 0 (a % 2)) [
  | no odd ↦ (zero, odd-pred n a (omega arith) (omega arith) (rw sub-one at e))
  | yes even ↦
      let w = suc a / 2 in
      let halves : a / 2 ≡ w - 1 = omega arith in
      let (k, p) =
        and_on-pred n w (omega arith) (omega arith)
          (rw halves at (even-pred n a (rw sub-one at e))) in
      (suc k, rw (pow-suc 2 k) (omega arith))
]

pub pow_of_and-pred : (v : ℕ) → v ≢ 0 → bit_and v (v - 1) ≡ 0 → (k : ℕ) × (v ≡ 2 ^ k)
pow_of_and-pred v ne e = and_on-pred v v (omega arith) ne (sym (bit_and-bitwise v (v - 1)) ∙ e)

pub and-pred_pow : (k : ℕ) → bit_and (2 ^ k) (2 ^ k - 1) ≡ 0
and-pred_pow k = bit_and_mask k (2 ^ k) ∙ mod_self (2 ^ k)

-- A statement about all numbers below a small bound, by running through them.
unfoldable pub holds_below : (ℕ → Bool) → ℕ → Bool
holds_below test zero = true
holds_below test (suc n) = if test n then holds_below test n else false

pub holds_below-lt : (test : ℕ → Bool) (n x : ℕ) → x < n → holds_below test n ≡ true → test x ≡ true
unfolding holds_below
holds_below-lt test zero x h all = elim h [ ]
holds_below-lt test (suc n) x h all = elim (dec_lt x n) [
  | yes p ↦ holds_below-lt test n x p (ground arith)
  | no p ↦ let last : x ≡ n = omega arith in rw last (ground arith)
]

pow-divides-word : holds_below (λ k. 2 ^ 32 % 2 ^ k == 0) 33 ≡ true
unfolding holds_below
pow-divides-word = refl

-- The powers of two up to 2 ^ 32 divide the range of a word.
pub word-mod_pow : (k x : ℕ) → k < 33 → x % 2 ^ 32 % 2 ^ k ≡ x % 2 ^ k
word-mod_pow k x h = mod-mod_of_dvd (2 ^ k) x (
    dvd_of_mod-eq-zero (2 ^ k)
      ((==_iff _ 0).0 (holds_below-lt (λ k. 2 ^ 32 % 2 ^ k == 0) 33 k h pow-divides-word)))
