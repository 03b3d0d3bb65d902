-- ===== src/Port/Fault.antt =====
-- port/stm32l4s5/b_l4s5i_port.c: the report of a hard fault, character by character.
use native.Mathlib.Nat.{div-div-eq-div-mul, mod-add-div', pow-suc, one-le-pow}
use anbo_mos.Common.{
  ℕ, zero, suc, ◌+◌, ◌-◌, ◌*◌, ◌/◌, ◌%◌, ◌^◌, ◌<◌, List, [], ◌∷◌, ◌++◌, ◌≡◌, ap, sym, ◌∙◌, arith,
  ltb, if◌then◌else◌,
}

-- `hex[d]`, the character of a digit.
unfoldable pub fault_digit : ℕ → ℕ
fault_digit d = if ltb d 10 then 48 + d else 55 + d

-- The loop over `_i`, which is `4 * n` after this round.
unfoldable pub fault_digits : (n val : ℕ) → List ℕ
unfolding fault_digit
fault_digits zero val = []
fault_digits (suc n) val = fault_digit (val / 2 ^ (4 * n) % 2 ^ 4) ∷ fault_digits n val

-- `FAULT_PRINT_HEX`
unfoldable pub fault_print_hex : (label : List ℕ) (val : ℕ) → List ℕ
unfolding fault_digits
fault_print_hex label val = label ++ 48 ∷ 120 ∷ fault_digits 8 val

-- The registers of the report: those of the fault, and the words of the stack frame.
pub record FaultRegs : Type 0 where
  pub cfsr : ℕ
  pub hfsr : ℕ
  pub pc : ℕ
  pub lr : ℕ
  pub r0 : ℕ
  pub r12 : ℕ
  pub bfar : ℕ
  pub msp : ℕ

-- "\r\n!!! HARDFAULT !!!\r\n"
abbrev pub fault_msg : List ℕ
fault_msg =
    13 ∷ 10 ∷ 33 ∷ 33 ∷ 33 ∷ 32 ∷ 72 ∷ 65 ∷ 82 ∷ 68 ∷ 70 ∷ 65 ∷ 85 ∷ 76 ∷ 84 ∷ 32 ∷ 33 ∷ 33 ∷ 33
    ∷ 13 ∷ 10 ∷ []

-- The characters that the handler sends; then it halts.
unfoldable pub fault_report : FaultRegs → List ℕ
unfolding fault_print_hex
fault_report r =
    fault_msg
    ++ fault_print_hex (67 ∷ 70 ∷ 83 ∷ 82 ∷ 61 ∷ []) r.cfsr
    ++ fault_print_hex (32 ∷ 72 ∷ 70 ∷ 83 ∷ 82 ∷ 61 ∷ []) r.hfsr
    ++ fault_print_hex (13 ∷ 10 ∷ 32 ∷ 80 ∷ 67 ∷ 61 ∷ []) r.pc
    ++ fault_print_hex (32 ∷ 32 ∷ 76 ∷ 82 ∷ 61 ∷ []) r.lr
    ++ fault_print_hex (13 ∷ 10 ∷ 32 ∷ 82 ∷ 48 ∷ 61 ∷ []) r.r0
    ++ fault_print_hex (32 ∷ 82 ∷ 49 ∷ 50 ∷ 61 ∷ []) r.r12
    ++ fault_print_hex (13 ∷ 10 ∷ 66 ∷ 70 ∷ 65 ∷ 82 ∷ 61 ∷ []) r.bfar
    ++ fault_print_hex (32 ∷ 77 ∷ 83 ∷ 80 ∷ 61 ∷ []) r.msp
    ++ 13 ∷ 10 ∷ []

-- The number that a text of upper-case hexadecimal digits stands for, behind the digits of `acc`.
unfoldable pub read_hex : (acc : ℕ) → List ℕ → ℕ
read_hex acc [] = acc
read_hex acc (c ∷ cs) = read_hex (acc * 16 + (if ltb c 58 then c - 48 else c - 55)) cs

fault_digit-reads :
    (d : ℕ)
    → d < 16
    → (if ltb (fault_digit d) 58 then fault_digit d - 48 else fault_digit d - 55) ≡ d
unfolding fault_digit
fault_digit-reads d h = ground arith

mod-16 : (x m : ℕ) → 0 < m → x / m % 16 * m + x % m ≡ x % (m * 16)
mod-16 x m h =
    let quotients : x / (m * 16) ≡ x / m / 16 = sym (div-div-eq-div-mul x m 16) in
    let whole = mod-add-div' x (m * 16) in
    let part = mod-add-div' x m in
    let split : x / m * m ≡ (x / m / 16 * 16 + x / m % 16) * m = ap (λ p. p * m) (omega arith) in
    let whole' = rw quotients at whole in grind arith

pow-16 : (n : ℕ) → 2 ^ (4 * suc n) ≡ 2 ^ (4 * n) * 16
pow-16 n =
    let four : 4 * suc n ≡ suc (suc (suc (suc (4 * n)))) = omega arith in
    rw
      (
        four,
        pow-suc 2 (suc (suc (suc (4 * n)))),
        pow-suc 2 (suc (suc (4 * n))),
        pow-suc 2 (suc (4 * n)),
        pow-suc 2 (4 * n),
      )
      (omega arith)

top_digit :
    (n val : ℕ) → val / 2 ^ (4 * n) % 16 * 2 ^ (4 * n) + val % 2 ^ (4 * n) ≡ val % 2 ^ (4 * suc n)
top_digit n val = rw (pow-16 n) (mod-16 val (2 ^ (4 * n)) (omega (arith, one-le-pow (4 * n) 2)))

regroup : (acc d m r p q : ℕ) → p ≡ m * 16 → d * m + r ≡ q → (acc * 16 + d) * m + r ≡ acc * p + q
regroup acc d m r p q e f = rw e (grind arith)

read_hex-fault_digits :
    (n acc val : ℕ) → read_hex acc (fault_digits n val) ≡ acc * 2 ^ (4 * n) + val % 2 ^ (4 * n)
unfolding read_hex fault_digits
read_hex-fault_digits zero acc val = omega arith
read_hex-fault_digits (suc n) acc val =
    let d = val / 2 ^ (4 * n) % 16 in
    ap (λ e. read_hex (acc * 16 + e) (fault_digits n val)) (fault_digit-reads d (omega arith))
    ∙ read_hex-fault_digits n (acc * 16 + d) val
    ∙ regroup acc d (2 ^ (4 * n)) (val % 2 ^ (4 * n)) (2 ^ (4 * suc n)) (val % 2 ^ (4 * suc n))
        (pow-16 n) (top_digit n val)

-- The eight digits that the handler of a hard fault sends for a register read back as its value.
pub fault_digits-read_hex : (val : ℕ) → val < 2 ^ 32 → read_hex 0 (fault_digits 8 val) ≡ val
fault_digits-read_hex val h = read_hex-fault_digits 8 0 val ∙ omega arith
