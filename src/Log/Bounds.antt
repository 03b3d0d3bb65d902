-- ===== src/Log/Bounds.antt =====
-- `Anbo_Format_V` ends, and stays within its buffer and the arrays of the conversions.
use anbo_mos.Common.{
  ℕ, zero, suc, ◌+◌, ◌-◌, ◌≤◌, ◌<◌, true, false, some, List, [], ◌∷◌, ◌++◌, ◌≡◌, refl, ap, ◌∙◌, ◌⊎◌,
  inl, inr, Bool-cases, arith, ltb, ◌==◌, length, length-append,
}
use anbo_mos.Log.Format.{Arg, Outcome, bad_args, pad_flag, width_loop, format_loop, format_v}
use anbo_mos.Log.Fits.{in_text, fits, fits_spec, fits-pad_flag}
use anbo_mos.Log.Conversion.{
  AreWords, Within, Converted, conversion-Converted, length-pad_flag, length-width_loop,
}

-- The run has met an undefined use of `va_arg`, for arguments that do not fit, or has ended with at
-- most `size` characters; in particular it has not written past an array, or run out of rounds.
abbrev pub Ended : ℕ → (fmt : List ℕ) → List Arg → Outcome → Type 0
Ended size fmt args o = ((o ≡ bad_args) × (fits in_text fmt args ≡ false)) ⊎ Within size o

List-cases {ℓ} :
    {A : Type ℓ} (xs : List A) → (xs ≡ []) ⊎ ((x : A) × (rest : List A) × (xs ≡ x ∷ rest))
List-cases [] = inl refl
List-cases (x ∷ rest) = inr (x, rest, refl)

fits-plain :
    (c : ℕ) (fmt : List ℕ) (args : List Arg)
    → (c == 37) ≡ false
    → fits in_text (c ∷ fmt) args ≡ fits in_text fmt args
unfolding fits
fits-plain c fmt args e = rw e refl

fits-percent :
    (c : ℕ) (fmt : List ℕ) (args : List Arg)
    → (c == 37) ≡ true
    → fits in_text (c ∷ fmt) args ≡ fits_spec (width_loop 0 (pad_flag fmt).1).1 args
unfolding fits
fits-percent c fmt args e = rw e (fits-pad_flag fmt args)

format_loop-Ended :
    (fuel size : ℕ) (fmt : List ℕ) (args : List Arg) (out : List ℕ)
    → length fmt < fuel
    → length out ≤ size
    → AreWords args
    → Ended size fmt args (format_loop fuel size fmt args out)
unfolding format_loop Converted
format_loop-Ended zero size fmt args out f h w = absurd (omega arith)
format_loop-Ended (suc fuel) size [] args out f h w = inr (out, refl, h)
format_loop-Ended (suc fuel) size (c ∷ fmt) args out f h w =
    let (pad, p) = pad_flag fmt in
    let (width, q) = width_loop 0 p in
    elim (Bool-cases (ltb (length out) size)) [
      | inr full ↦ rw full (inr (out, refl, h))
      | inl room ↦
          let small : length out < size = ground arith in
          elim (Bool-cases (c == 37)) [
            | inr plain ↦
                rw (room, plain, fits-plain c fmt args plain)
                  (format_loop-Ended fuel size fmt args (out ++ c ∷ []) (omega arith)
                    (omega (arith, length-append out (c ∷ []))) w)
            | inl percent ↦
                let asks = fits-percent c fmt args percent in
                elim (List-cases q) [
                  | inl e ↦ rw (room, percent, e) (inr (out, refl, h))
                  | inr (spec, rest, e) ↦
                      let short : length rest < fuel =
                        omega (arith, length-pad_flag fmt, length-width_loop 0 p, ap length e) in
                      let asks' = asks ∙ ap (λ r. fits_spec r args) e in
                      elim (conversion-Converted size width pad spec rest args out small w) [
                        | inl (bad, misfit) ↦
                            rw (room, percent, e, bad) (inl (refl, asks' ∙ misfit))
                        | inr ((o, good, l), w', left) ↦
                            rw (room, percent, e, good, asks' ∙ left)
                              (format_loop-Ended fuel size rest _ o short l w')
                      ]
                ]
          ]
    ]

-- `Anbo_Format_V` ends for every format and all arguments that are words and texts, and never writes
-- past its buffer or the array of a conversion: if the arguments are those that the format asks for,
-- in number and kind, it leaves a text that is shorter than the buffer, so that the final zero fits
-- as well; otherwise it leaves such a text or takes an argument that is missing or of the wrong kind.
pub format_v-Ended :
    (size : ℕ) (fmt : List ℕ) (args : List Arg)
    → 0 < size
    → AreWords args
    → Ended (size - 1) fmt args (format_v size (some fmt) args)
unfolding format_v
format_v-Ended size fmt args h w =
    let used : (size == 0) ≡ false = ground arith in
    rw used
      (format_loop-Ended (length fmt + 1) (size - 1) fmt args [] (omega arith) (omega arith) w)
