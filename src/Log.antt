-- ===== src/Log.antt =====
-- kernel/src/anbo_log.c: the conversions of numbers to text of the formatter. Characters are their
-- codes; a buffer with room for `size` characters is the list of those written to its start.
pub mod Digits
pub mod Format
pub mod Fits
pub mod Conversion
pub mod Bounds
mod Examples
use anbo_mos.Common.{
  ℕ, zero, suc, ◌+◌, ◌-◌, ◌*◌, ◌/◌, ◌%◌, ◌^◌, bit_and, Option, none, some, List, [], ◌∷◌, ◌++◌, ltb,
  ◌==◌, if◌then◌else◌, length, take, add32, sub32,
}

-- `tmp[i - 1u - j]` for `j` from 0 to `i - 1`.
unfoldable pub reversed : List ℕ → List ℕ
reversed [] = []
reversed (c ∷ tmp) = reversed tmp ++ c ∷ []

abbrev pub zero_char : ℕ
zero_char = 48

-- The characters written, and the result.
abbrev pub filled : (size : ℕ) → Option (List ℕ) → Option (List ℕ × ℕ)
filled size none = none
filled size (some tmp) = let out = take size (reversed tmp) in some (out, length out)

-- The loop `while (val != 0u)` that fills `tmp`, the last digit first; `room` is what is left of the
-- array, and `none` means that the loop would write past it.
module _ (base : ℕ) (digit : ℕ → ℕ) where
  unfoldable pub digits_loop : (room val : ℕ) → Option (List ℕ)
  digits_loop zero val = if val == 0 then some [] else none
  digits_loop (suc room) val =
      let rest = digits_loop room (val / base) in
      if val == 0 then some [] else elim rest [ none ↦ none | some tmp ↦ some (digit val ∷ tmp) ]

  -- The common shape of `u32_to_dec` and `u32_to_hex`, whose `tmp` has `room` characters.
  unfoldable pub u32_to_text : (room size val : ℕ) → Option (List ℕ × ℕ)
  unfolding digits_loop reversed
  u32_to_text room size val =
      if val == 0
      then some (if ltb 0 size then zero_char ∷ [] else [], 1)
      else filled size (digits_loop room val)

abbrev pub dec_digit : ℕ → ℕ
dec_digit val = zero_char + val % 10

unfoldable pub u32_to_dec : (size val : ℕ) → Option (List ℕ × ℕ)
unfolding u32_to_text
u32_to_dec = u32_to_text 10 dec_digit 10

abbrev pub minus_char : ℕ
minus_char = 45

abbrev pub after_sign : List ℕ → Option (List ℕ × ℕ) → Option (List ℕ × ℕ)
after_sign sign none = none
after_sign sign (some (out, n)) = some (sign ++ out, length sign + n)

-- `val` is the word of an `int32_t`; `-(val + 1)` of a negative one is `2 ^ 32 - 1 - val`.
unfoldable pub i32_to_dec : (size val : ℕ) → Option (List ℕ × ℕ)
unfolding u32_to_dec
i32_to_dec size val =
    if ltb val (2 ^ 31)
    then u32_to_dec size val
    else let sign = if ltb 0 size then minus_char ∷ [] else [] in
      after_sign sign (u32_to_dec (size - length sign) (add32 (2 ^ 32 - 1 - val) 1))

unfoldable pub nibble_to_hex : ℕ → ℕ
nibble_to_hex n =
    let n = bit_and n 15 in
    let mask = sub32 (sub32 n 10 / 2 ^ 31) 1 in (n + zero_char + bit_and mask 39) % 2 ^ 8

abbrev pub hex_digit : ℕ → ℕ
hex_digit val = nibble_to_hex (val % 2 ^ 8)

unfoldable pub u32_to_hex : (size val : ℕ) → Option (List ℕ × ℕ)
unfolding u32_to_text
u32_to_hex = u32_to_text 16 hex_digit 8
