-- ===== src/Log/Format.antt =====
-- `Anbo_Format_V`: the loop over a format string. A string is the list of its characters, without
-- the zero that ends it.
use anbo_mos.Common.{
  ℕ, zero, suc, ◌+◌, ◌-◌, ◌*◌, ◌%◌, ◌^◌, Bool, ◌&&◌, ◌||◌, not, Option, none, some, List, [], ◌∷◌,
  ◌++◌, ltb, ◌==◌, if◌then◌else◌, length, take, replicate, add32,
}
use anbo_mos.Log.{i32_to_dec, u32_to_dec, u32_to_hex}

-- What `va_arg` takes: a word, or a pointer to a string.
pub data Arg : Type 0 where
  word : ℕ → Arg
  text : Option (List ℕ) → Arg

-- `bad_args` is a call of `va_arg` that the C standard leaves undefined; `overrun` is a write past the
-- array of a conversion; `out_of_rounds` means that the bound on the rounds was too small.
pub data Outcome : Type 0 where
  done : (out : List ℕ) → Outcome
  bad_args : Outcome
  overrun : Outcome
  out_of_rounds : Outcome

-- `if (*p == '0')`: the pad character, and what follows.
unfoldable pub pad_flag : List ℕ → ℕ × List ℕ
pad_flag [] = (32, [])
pad_flag (c ∷ p) = if c == 48 then (48, p) else (32, c ∷ p)

-- The loop `while (*p >= '1' && *p <= '9')`.
unfoldable pub width_loop : (width : ℕ) → List ℕ → ℕ × List ℕ
width_loop width [] = (width, [])
width_loop width (c ∷ p) =
    let rest = width_loop (add32 ((width * 10) % 2 ^ 32) (c - 48)) p in
    if ltb 48 c && ltb c 58 then rest else (width, c ∷ p)

-- `for (k = 0u; k < n && pos < size; k++) buf[pos++] = s[k];`
abbrev pub put_all : (size : ℕ) → (out s : List ℕ) → List ℕ
put_all size out s = out ++ take (size - length out) s

-- The two loops behind the conversion of a number.
abbrev pub put_number : (size width pad : ℕ) → (out : List ℕ) → Option (List ℕ × ℕ) → Outcome
put_number size width pad out none = overrun
put_number size width pad out (some (digits, n)) = done (
    put_all size (put_all size out (replicate (if ltb n width then width - n else 0) pad))
      (take n digits))

-- "(null)"
abbrev pub null_text : List ℕ
null_text = 40 ∷ 110 ∷ 117 ∷ 108 ∷ 108 ∷ 41 ∷ []

abbrev pub text_of : Option (List ℕ) → List ℕ
text_of none = null_text
text_of (some s) = s

-- The cases that take an argument.
unfoldable pub convert : (size width pad c : ℕ) → Arg → (out : List ℕ) → Outcome
unfolding i32_to_dec u32_to_dec u32_to_hex
convert size width pad c (word v) out =
    if c == 100
    then put_number size width pad out (i32_to_dec 12 v)
    else if c == 117
    then put_number size width pad out (u32_to_dec 10 v)
    else if c == 120
    then put_number size width pad out (u32_to_hex 8 v)
    else if c == 99
    then done (out ++ (v % 2 ^ 8) ∷ [])
    else bad_args
convert size width pad c (text s) out =
    if c == 115 then done (put_all size out (text_of s)) else bad_args

abbrev pub takes_arg : ℕ → Bool
takes_arg c = (c == 100) || (c == 117) || (c == 120) || (c == 115) || (c == 99)

-- `case '%'` and `default`.
abbrev pub put_plain : (size c : ℕ) → List ℕ → List ℕ
put_plain size c out = if c == 37 then out ++ 37 ∷ [] else put_all size out (37 ∷ c ∷ [])

-- The `switch`, and what is left of the arguments.
unfoldable pub conversion : (size width pad c : ℕ) → List Arg → (out : List ℕ) → Outcome × List Arg
unfolding convert
conversion size width pad c [] out =
    (if takes_arg c then bad_args else done (put_plain size c out), [])
conversion size width pad c (a ∷ args) out =
    if takes_arg c
    then (convert size width pad c a out, args)
    else (done (put_plain size c out), a ∷ args)

-- The loop over the format; `size` has been reduced by the byte of the final zero.
unfoldable pub format_loop : ℕ → (size : ℕ) → (fmt : List ℕ) → List Arg → (out : List ℕ) → Outcome
unfolding pad_flag width_loop conversion
format_loop zero size fmt args out = out_of_rounds
format_loop (suc fuel) size [] args out = done out
format_loop (suc fuel) size (c ∷ fmt) args out =
    let plain = format_loop fuel size fmt args (out ++ c ∷ []) in
    let (pad, p) = pad_flag fmt in
    let (width, q) = width_loop 0 p in
    if not (ltb (length out) size) then done out else if not (c == 37) then plain else elim q [
      | [] ↦ done out
      | ◌∷◌ spec rest ↦
          let (result, args') = conversion size width pad spec args out in
          elim result [
            | done o ↦ format_loop fuel size rest args' o
            | bad_args ↦ bad_args
            | overrun ↦ overrun
            | out_of_rounds ↦ out_of_rounds
          ]
    ]

-- `none` for `buf` or `fmt` is `NULL`: nothing is written.
unfoldable pub format_v : (size : ℕ) → (fmt : Option (List ℕ)) → List Arg → Outcome
unfolding format_loop
format_v size none args = done []
format_v size (some fmt) args =
    if size == 0 then done [] else format_loop (length fmt + 1) (size - 1) fmt args []
