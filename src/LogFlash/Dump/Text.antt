-- ===== src/LogFlash/Dump/Text.antt =====
-- The texts that the dump puts together.
use anbo_mos.Common.{
  ℕ, suc, ◌+◌, ◌-◌, ◌≤◌, ◌<◌, ◌^◌, Bool, true, false, not, ◌&&◌, some, List, [], ◌∷◌, ◌++◌,
  append-nil, append_assoc, ◌≡◌, refl, ap, ◌∙◌, sym, arith, ◌==◌, ltb, if◌then◌else◌, length,
  length-append, replicate, take, take_all,
}
use mathlib.Core.Path.{ap₂}
use anbo_mos.Log.{u32_to_dec}
use anbo_mos.Log.Digits.{parsed, u32_to_dec-Written}
use anbo_mos.Log.Format.{
  Arg, word, done, put_all, pad_flag, width_loop, convert, conversion, format_loop, format_v,
}
use anbo_mos.LogFlash.Dump.{end_before, end_after, end_format}

-- No character of the text starts a conversion.
abbrev no_percent : List ℕ → Bool
no_percent [] = true
no_percent (c ∷ text) = not (c == 37) && no_percent text

format_loop-char :
    (fuel size c : ℕ) (rest : List ℕ) (args : List Arg) (out : List ℕ)
    → (c == 37) ≡ false
    → length out < size
    → format_loop (suc fuel) size (c ∷ rest) args out
      ≡ format_loop fuel size rest args (out ++ c ∷ [])
unfolding format_loop
format_loop-char fuel size c rest args out other room =
    let fits : ltb (length out) size ≡ true = ground arith in rw (fits, other) refl

-- The formatter copies a text without conversions, where there is room.
format_loop-plain :
    (fuel size : ℕ) (pre rest : List ℕ) (args : List Arg) (out : List ℕ)
    → no_percent pre ≡ true
    → length out + length pre ≤ size
    → format_loop (length pre + fuel) size (pre ++ rest) args out
      ≡ format_loop fuel size rest args (out ++ pre)
format_loop-plain fuel size [] rest args out plain room =
    ap₂ (λ f o. format_loop f size rest args o) (omega arith) (sym (append-nil out))
format_loop-plain fuel size (c ∷ pre) rest args out plain room =
    ap (λ f. format_loop f size (c ∷ (pre ++ rest)) args out) (omega arith)
    ∙ format_loop-char (length pre + fuel) size c (pre ++ rest) args out (ground arith)
        (omega arith)
    ∙ format_loop-plain fuel size pre rest args (out ++ c ∷ []) (ground arith)
        (omega (arith, length-append out (c ∷ [])))
    ∙ ap (λ o. format_loop fuel size rest args o) (append_assoc out (c ∷ []) pre)

take-empty : (n : ℕ) → take {A = ℕ} n [] ≡ []
take-empty n = take_all n [] (omega arith)

-- A number that is not padded.
put_all-unpadded :
    (size : ℕ) (out digits : List ℕ)
    → length out + length digits ≤ size
    → put_all size
        (put_all size out (replicate (if ltb (length digits) 0 then 0 - length digits else 0) 32))
        (take (length digits) digits)
      ≡ out ++ digits
put_all-unpadded size out digits room =
    let unpadded : ltb (length digits) 0 ≡ false = ground arith in
    let all : take (length digits) digits ≡ digits =
      take_all (length digits) digits (omega arith) in
    rw (unpadded, all, take-empty (size - length out), append-nil out)
      (ap (λ d. out ++ d) (take_all (size - length out) digits (omega arith)))

-- "%u" writes the decimal text.
format_loop-number :
    (fuel size v : ℕ) (rest : List ℕ) (args : List Arg) (out digits : List ℕ)
    → u32_to_dec 10 v ≡ some (digits, length digits)
    → length out < size
    → length out + length digits ≤ size
    → format_loop (suc fuel) size (37 ∷ 117 ∷ rest) (word v ∷ args) out
      ≡ format_loop fuel size rest args (out ++ digits)
unfolding format_loop conversion convert pad_flag width_loop
format_loop-number fuel size v rest args out digits e some_room room =
    let fits : ltb (length out) size ≡ true = ground arith in
    rw (fits, e)
      (ap (λ o. format_loop fuel size rest args o) (put_all-unpadded size out digits room))

-- The footer of a dump of `count` entries: the number in decimal.
pub end-text :
    (count : ℕ)
    → count < 2 ^ 32
    → (digits : List ℕ) × (parsed 10 digits 0 ≡ count)
      × (length digits ≤ 10)
      × (format_v 64 (some end_format) (word count ∷ [])
          ≡ done (end_before ++ (digits ++ end_after)))
unfolding format_v
end-text count h =
    let (digits, e, reads, short) = u32_to_dec-Written 10 count (omega arith) h in
    (
      digits,
      reads,
      short,
      format_loop-plain 18 63 end_before (37 ∷ 117 ∷ end_after) (word count ∷ []) [] refl
            (omega arith)
          ∙ format_loop-number 17 63 count end_after [] end_before digits e (omega arith)
              (omega arith)
          ∙ format_loop-plain 2 63 end_after [] [] (end_before ++ digits) refl
              (omega (arith, length-append end_before digits))
          ∙ ap done (append_assoc end_before digits end_after),
    )
