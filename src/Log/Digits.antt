-- ===== src/Log/Digits.antt =====
-- The text of a number reads back as the number.
use anbo_mos.Common.{
  ℕ, zero, suc, ◌+◌, ◌-◌, ◌*◌, ◌/◌, ◌%◌, ◌^◌, ◌≤◌, ◌<◌, bit_and, true, Option, some, List, [], ◌∷◌,
  ◌++◌, ◌≡◌, refl, ap, ◌∙◌, sym, inl, inr, Bool-cases, arith, ltb, ◌==◌, ==_iff, if◌then◌else◌,
  length, length-append, take_all, sub32, add32,
}
use native.Mathlib.Nat.{pow-suc, pow-zero, div-add-mod, div-lt_iff_lt-mul}
use mathlib.Core.Path.{ap₂}
use anbo_mos.Common.Bits.{bit_and_mask, holds_below, holds_below-lt}
use anbo_mos.Log.{
  digits_loop, reversed, filled, zero_char, dec_digit, u32_to_dec, minus_char, i32_to_dec,
  u32_to_text, nibble_to_hex, hex_digit, u32_to_hex,
}

-- What a digit character of a number in base 10 or 16 stands for.
abbrev pub digit_value : ℕ → ℕ
digit_value c = if ltb c 58 then c - 48 else c - 87

length-reversed : (tmp : List ℕ) → length (reversed tmp) ≡ length tmp
unfolding reversed
length-reversed [] = refl
length-reversed (c ∷ tmp) =
    omega (arith, length-append (reversed tmp) (c ∷ []), length-reversed tmp)

filled-reversed :
    (size room : ℕ) (tmp : List ℕ)
    → length tmp ≤ room
    → room ≤ size
    → filled size (some tmp) ≡ some (reversed tmp, length (reversed tmp))
filled-reversed size room tmp l s =
    ap (λ out. some (out, length out))
      (take_all size (reversed tmp) (omega (arith, length-reversed tmp)))

module _ (base : ℕ) where
  -- The number that a text stands for, read from the left, as `strtoul` reads it.
  unfoldable pub parsed : List ℕ → ℕ → ℕ
  parsed [] acc = acc
  parsed (c ∷ cs) acc = parsed cs (acc * base + digit_value c)

  parsed-append :
      (xs : List ℕ) (c acc : ℕ) → parsed (xs ++ c ∷ []) acc ≡ parsed xs acc * base + digit_value c
  unfolding parsed
  parsed-append [] c acc = refl
  parsed-append (x ∷ xs) c acc = parsed-append xs c (acc * base + digit_value x)

  module _ (digit : ℕ → ℕ) (reads : (v : ℕ) → digit_value (digit v) ≡ v % base) where
    -- Within `base ^ room` the loop ends in the array, with at most `room` digits.
    digits_loop-parsed :
        (room val : ℕ)
        → 1 < base
        → val < base ^ room
        → (tmp : List ℕ) × (digits_loop base digit room val ≡ some tmp)
          × (parsed (reversed tmp) 0 ≡ val)
          × (length tmp ≤ room)
    unfolding digits_loop reversed parsed
    digits_loop-parsed zero val b h =
        let none_left : val ≡ 0 = omega (arith, pow-zero base) in
        rw none_left ([], refl, refl, omega arith)
    digits_loop-parsed (suc room) val b h = elim (Bool-cases (val == 0)) [
      | inl ends ↦ rw ends ([], refl, sym ((==_iff val 0).0 ends), omega arith)
      | inr more ↦
          let (tmp, e, p, l) =
            digits_loop-parsed room (val / base) b
              ((div-lt_iff_lt-mul {k = base} (omega arith)).1 (rw pow-suc at h)) in
          rw (more, e)
            (
              digit val ∷ tmp,
              refl,
              parsed-append (reversed tmp) (digit val) 0
                  ∙ ap₂ (λ q r. q * base + r) p (reads val)
                  ∙ (grind (arith, div-add-mod val base)),
              omega arith,
            )
    ]

-- The digit characters of the two bases stand for the digits.
dec_digit-value : (v : ℕ) → digit_value (dec_digit v) ≡ v % 10
dec_digit-value v = ground arith

-- what `nibble_to_hex` computes from the nibble
abbrev hex_char : ℕ → ℕ
hex_char n = (n + zero_char + bit_and (sub32 (sub32 n 10 / 2 ^ 31) 1) 39) % 2 ^ 8

hex_char-value : holds_below (λ n. digit_value (hex_char n) == n) 16 ≡ true
unfolding holds_below
hex_char-value = refl

hex_digit-value : (v : ℕ) → digit_value (hex_digit v) ≡ v % 16
unfolding nibble_to_hex
hex_digit-value v =
    let low : bit_and (v % 2 ^ 8) 15 ≡ v % 16 = bit_and_mask 4 (v % 2 ^ 8) ∙ (omega arith) in
    ap (λ n. digit_value (hex_char n)) low
    ∙ (==_iff _ (v % 16)).0 (
        holds_below-lt (λ n. digit_value (hex_char n) == n) 16 (v % 16) (omega arith)
          hex_char-value)

-- A conversion has written the text `out` of at most `most` characters, returns its length, and the
-- text reads back as `val`.
abbrev pub Written : (base most val : ℕ) → Option (List ℕ × ℕ) → Type 0
Written base most val result =
    (out : List ℕ) × (result ≡ some (out, length out))
    × (parsed base out 0 ≡ val)
    × (length out ≤ most)

u32_to_text-Written :
    (base room size val : ℕ) (digit : ℕ → ℕ)
    → ((v : ℕ) → digit_value (digit v) ≡ v % base)
    → 1 < base
    → 0 < room
    → room ≤ size
    → val < base ^ room
    → Written base room val (u32_to_text base digit room size val)
unfolding u32_to_text parsed
u32_to_text-Written base room size val digit reads b r s h = elim (Bool-cases (val == 0)) [
  | inl none_left ↦
      let fits : ltb 0 size ≡ true = ground arith in
      rw (none_left, fits)
        (zero_char ∷ [], refl, grind (arith, (==_iff val 0).0 none_left), omega arith)
  | inr more ↦
      let (tmp, e, p, l) = digits_loop-parsed base digit reads room val b h in
      rw (more, e)
        (reversed tmp, filled-reversed size room tmp l s, p, omega (arith, length-reversed tmp))
]

-- `u32_to_dec` into 10 characters or more ends and writes the decimal text of any word, which has at
-- most the 10 characters of its array.
pub u32_to_dec-Written :
    (size val : ℕ) → 10 ≤ size → val < 2 ^ 32 → Written 10 10 val (u32_to_dec size val)
unfolding u32_to_dec
u32_to_dec-Written size val s h =
    u32_to_text-Written 10 10 size val dec_digit dec_digit-value (omega arith) (omega arith) s
      (omega arith)

-- `u32_to_hex` into 8 characters or more ends and writes the hexadecimal text of any word, which has
-- at most the 8 characters of its array.
pub u32_to_hex-Written :
    (size val : ℕ) → 8 ≤ size → val < 2 ^ 32 → Written 16 8 val (u32_to_hex size val)
unfolding u32_to_hex
u32_to_hex-Written size val s h =
    u32_to_text-Written 16 8 size val hex_digit hex_digit-value (omega arith) (omega arith) s
      (omega arith)

-- `i32_to_dec` into 12 characters or more ends and writes the decimal text of a number that is not
-- negative, and of a negative one, INT32_MIN included, a minus sign and the text of its magnitude.
pub i32_to_dec-Written :
    (size val : ℕ)
    → 12 ≤ size
    → val < 2 ^ 32
    → if ltb val (2 ^ 31)
      then Written 10 10 val (i32_to_dec size val)
      else (out : List ℕ) × (i32_to_dec size val ≡ some (minus_char ∷ out, suc (length out)))
        × (parsed 10 out 0 ≡ 2 ^ 32 - val)
        × (length out ≤ 10)
unfolding i32_to_dec
i32_to_dec-Written size val s h = elim (Bool-cases (ltb val (2 ^ 31))) [
  | inl plain ↦ rw plain (u32_to_dec-Written size val (omega arith) h)
  | inr negative ↦
      let fits : ltb 0 size ≡ true = ground arith in
      let big : 2 ^ 31 ≤ val = ground arith in
      let (out, e, p, l) =
        u32_to_dec-Written (size - 1) (add32 (2 ^ 32 - 1 - val) 1) (omega arith) (omega arith) in
      rw (negative, fits)
        (out, rw e (ap (λ n. some (minus_char ∷ out, n)) (omega arith)), p ∙ (omega arith), l)
]
