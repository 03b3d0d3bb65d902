-- ===== src/Log/Fits.antt =====
-- Which arguments a format string asks for: a description of it character by character.
use anbo_mos.Common.{
  ℕ, ◌^◌, Bool, true, false, not, ◌&&◌, ◌||◌, List, [], ◌∷◌, ◌≡◌, refl, ◌∙◌, inl, inr, Bool-cases,
  ltb, ◌==◌, if◌then◌else◌, add32, ◌*◌, ◌%◌, ◌-◌,
}
use anbo_mos.Log.Format.{Arg, word, text, pad_flag, width_loop}

-- In plain text, behind a percent sign, or behind the flag of a conversion.
pub data ScanMode : Type 0 where
  in_text at_flag at_width : ScanMode

-- "%d", "%u", "%x", "%s" and "%c" take an argument.
abbrev pub wants_arg : ℕ → Bool
wants_arg c = (c == 100) || (c == 117) || (c == 120) || (c == 115) || (c == 99)

-- "%s" takes a text, and the others a number.
abbrev pub suits : ℕ → Arg → Bool
suits c (word v) = not (c == 115)
suits c (text s) = c == 115

-- The arguments are those that the format asks for, in number and kind, or more.
unfoldable pub fits : ScanMode → (fmt : List ℕ) → List Arg → Bool
fits in_text [] args = true
fits at_flag [] args = true
fits at_width [] args = true
fits in_text (c ∷ fmt) args = if c == 37 then fits at_flag fmt args else fits in_text fmt args
fits at_flag (c ∷ fmt) args =
    if (c == 48) || (ltb 48 c && ltb c 58)
    then fits at_width fmt args
    else if wants_arg c
    then elim args [ [] ↦ false | ◌∷◌ a rest ↦ suits c a && fits in_text fmt rest ]
    else fits in_text fmt args
fits at_width (c ∷ fmt) args =
    if ltb 48 c && ltb c 58
    then fits at_width fmt args
    else if wants_arg c
    then elim args [ [] ↦ false | ◌∷◌ a rest ↦ suits c a && fits in_text fmt rest ]
    else fits in_text fmt args

-- From the character of a conversion on.
abbrev pub fits_spec : List ℕ → List Arg → Bool
fits_spec [] args = true
fits_spec (c ∷ fmt) args =
    if wants_arg c
    then elim args [ [] ↦ false | ◌∷◌ a rest ↦ suits c a && fits in_text fmt rest ]
    else fits in_text fmt args

pub fits-width_loop :
    (w : ℕ) (p : List ℕ) (args : List Arg)
    → fits at_width p args ≡ fits_spec (width_loop w p).1 args
unfolding fits width_loop
fits-width_loop w [] args = refl
fits-width_loop w (c ∷ p) args = elim (Bool-cases (ltb 48 c && ltb c 58)) [
  | inl digit ↦ rw digit (fits-width_loop (add32 ((w * 10) % 2 ^ 32) (c - 48)) p args)
  | inr other ↦ rw other refl
]

fits-flag_char :
    (c : ℕ) (p : List ℕ) (args : List Arg)
    → (c == 48) ≡ true
    → fits at_flag (c ∷ p) args ≡ fits at_width p args
unfolding fits
fits-flag_char c p args e = rw e refl

fits-other_char :
    (c : ℕ) (p : List ℕ) (args : List Arg)
    → (c == 48) ≡ false
    → fits at_flag (c ∷ p) args ≡ fits at_width (c ∷ p) args
unfolding fits
fits-other_char c p args e = rw e refl

pub fits-pad_flag :
    (p : List ℕ) (args : List Arg)
    → fits at_flag p args ≡ fits_spec (width_loop 0 (pad_flag p).1).1 args
unfolding pad_flag
fits-pad_flag [] args = unfold fits width_loop in refl
fits-pad_flag (c ∷ p) args = elim (Bool-cases (c == 48)) [
  | inl flag ↦ rw flag (fits-flag_char c p args flag ∙ fits-width_loop 0 p args)
  | inr other ↦ rw other (fits-other_char c p args other ∙ fits-width_loop 0 (c ∷ p) args)
]
