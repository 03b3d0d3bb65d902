-- ===== src/Log/Examples.antt =====
-- The conversions at concrete inputs: tests, and the theorems applied.
use anbo_mos.Common.{true, ℕ, suc, ◌-◌, ◌^◌, ◌≤◌, some, List, [], ◌∷◌, ◌≡◌, refl, arith, length}
use anbo_mos.Log.{u32_to_dec, i32_to_dec, u32_to_hex, nibble_to_hex, minus_char}
use anbo_mos.Log.Format.{Arg, word, text, done, format_v}
use anbo_mos.Log.Fits.{in_text, fits}
use anbo_mos.Log.Bounds.{Ended, format_v-Ended}
use anbo_mos.Log.Digits.{parsed, i32_to_dec-Written}

-- "7010"
four_digits : u32_to_dec 12 7010 ≡ some (55 ∷ 48 ∷ 49 ∷ 48 ∷ [], 4)
unfolding u32_to_dec
four_digits = refl

-- "-5"
minus_five : i32_to_dec 12 (2 ^ 32 - 5) ≡ some (45 ∷ 53 ∷ [], 2)
unfolding i32_to_dec
minus_five = refl

-- "a07f"
four_nibbles : u32_to_hex 8 41087 ≡ some (97 ∷ 48 ∷ 55 ∷ 102 ∷ [], 4)
unfolding u32_to_hex nibble_to_hex
four_nibbles = refl

-- INT32_MIN
i32_to_dec-Written_example :
    (out : List ℕ) × (i32_to_dec 12 2147483648 ≡ some (minus_char ∷ out, suc (length out)))
    × (parsed 10 out 0 ≡ 2147483648)
    × (length out ≤ 10)
i32_to_dec-Written_example = i32_to_dec-Written 12 2147483648 (omega arith) (omega arith)

-- "x=%04x" with 0xa7 in a buffer of 16
padded :
    format_v 16 (some (120 ∷ 61 ∷ 37 ∷ 48 ∷ 52 ∷ 120 ∷ [])) (word 167 ∷ [])
    ≡ done (120 ∷ 61 ∷ 48 ∷ 48 ∷ 97 ∷ 55 ∷ [])
unfolding format_v nibble_to_hex
padded = refl

-- "%10u" is read as the width 1 and the unknown conversion "0": it comes out as "%0u".
width_of_ten :
    format_v 16 (some (37 ∷ 49 ∷ 48 ∷ 117 ∷ [])) (word 7 ∷ []) ≡ done (37 ∷ 48 ∷ 117 ∷ [])
unfolding format_v
width_of_ten = refl

-- "%s=%u" with "ab" and 7010, in a buffer of 6
abbrev equation : List ℕ
equation = 37 ∷ 115 ∷ 61 ∷ 37 ∷ 117 ∷ []

abbrev two_args : List Arg
two_args = text (some (97 ∷ 98 ∷ [])) ∷ word 7010 ∷ []

asked_for : fits in_text equation two_args ≡ true
unfolding fits
asked_for = refl

format_v-Ended_example : Ended 5 equation two_args (format_v 6 (some equation) two_args)
format_v-Ended_example = format_v-Ended 6 equation two_args (omega arith) (omega arith, tt)
