-- ===== src/Log/Conversion.antt =====
-- One conversion of the formatter: it stays within the buffer and its own array.
use anbo_mos.Common.{
  ℕ, suc, ◌-◌, ◌*◌, ◌%◌, ◌^◌, ◌≤◌, ◌<◌, Bool, true, false, ◌||◌, ◌&&◌, some, List, [], ◌∷◌, ◌≡◌,
  refl, ◌⊎◌, inl, inr, Bool-cases, arith, ltb, ◌==◌, length, length-append, length-take, take,
  add32,
}
use anbo_mos.Log.{i32_to_dec, minus_char}
use anbo_mos.Log.Digits.{i32_to_dec-Written, u32_to_dec-Written, u32_to_hex-Written}
use anbo_mos.Log.Format.{
  Arg, word, text, Outcome, done, bad_args, pad_flag, width_loop, put_all, put_number, text_of,
  convert, put_plain, conversion,
}
use anbo_mos.Log.Fits.{in_text, wants_arg, suits, fits, fits_spec}

pub length-pad_flag : (p : List ℕ) → length (pad_flag p).1 ≤ length p
unfolding pad_flag
length-pad_flag [] = omega arith
length-pad_flag (c ∷ p) = ground arith

pub length-width_loop : (w : ℕ) (p : List ℕ) → length (width_loop w p).1 ≤ length p
unfolding width_loop
length-width_loop w [] = omega arith
length-width_loop w (c ∷ p) = elim (Bool-cases (ltb 48 c && ltb c 58)) [
  | inl digit ↦
      let w' = add32 ((w * 10) % 2 ^ 32) (c - 48) in
      rw digit (omega (arith, length-width_loop w' p))
  | inr other ↦ rw other (omega arith)
]

put_all-length :
    (size : ℕ) (out s : List ℕ) → length out ≤ size → length (put_all size out s) ≤ size
put_all-length size out s h =
    omega (arith, length-append out (take (size - length out) s), length-take (size - length out) s)

-- The arguments are words of the machine, and texts.
abbrev pub AreWords : List Arg → Type 0
AreWords [] = Unit
AreWords (word v ∷ args) = (v < 2 ^ 32) × AreWords args
AreWords (text s ∷ args) = AreWords args

-- The run has ended with at most `size` characters.
abbrev pub Within : ℕ → Outcome → Type 0
Within size o = (out : List ℕ) × (o ≡ done out) × (length out ≤ size)

put_number-Within :
    (size width pad : ℕ) (out : List ℕ) (digits : List ℕ) (n : ℕ)
    → length out ≤ size
    → Within size (put_number size width pad out (some (digits, n)))
put_number-Within size width pad out digits n h =
    (_, refl, put_all-length size _ (take n digits) (put_all-length size out _ h))

i32_to_dec-some : (v : ℕ) → v < 2 ^ 32 → (r : List ℕ × ℕ) × (i32_to_dec 12 v ≡ some r)
i32_to_dec-some v h =
    let w = i32_to_dec-Written 12 v (omega arith) h in
    elim (Bool-cases (ltb v (2 ^ 31))) [
      | inl plain ↦ let (out, e, _, _) = rw plain at w in ((out, length out), e)
      | inr negative ↦
          let (out, e, _, _) = rw negative at w in ((minus_char ∷ out, suc (length out)), e)
    ]

-- A conversion that suits its argument leaves at most `size` characters, and does not write past its
-- array; the others are undefined.
unfoldable Suited : (size c : ℕ) → Arg → Outcome → Type 0
Suited size c a o = ((o ≡ bad_args) × (suits c a ≡ false)) ⊎ (Within size o × (suits c a ≡ true))

one_left :
    (a b c d e : Bool)
    → a || b || c || d || e ≡ true
    → a ≡ false
    → b ≡ false
    → c ≡ false
    → e ≡ false
    → d ≡ true
one_left a b c d e w p q r t = ground arith

convert-Suited :
    (size width pad c : ℕ) (a : Arg) (args : List Arg) (out : List ℕ)
    → length out < size
    → AreWords (a ∷ args)
    → wants_arg c ≡ true
    → Suited size c a (convert size width pad c a out)
unfolding convert Suited
convert-Suited size width pad c (word v) args out h (small, _) w = elim (Bool-cases (c == 100)) [
  | inl e ↦
      let ((digits, n), r) = i32_to_dec-some v small in
      rw (e, r) (inr (put_number-Within size width pad out digits n (omega arith), ground arith))
  | inr e1 ↦ rw e1 (elim (Bool-cases (c == 117)) [
    | inl e ↦
        let (digits, r, _, _) = u32_to_dec-Written 10 v (omega arith) small in
        rw (e, r)
          (inr (
            put_number-Within size width pad out digits (length digits) (omega arith),
            ground arith,
          ))
    | inr e2 ↦ rw e2 (elim (Bool-cases (c == 120)) [
      | inl e ↦
          let (digits, r, _, _) = u32_to_hex-Written 8 v (omega arith) small in
          rw (e, r)
            (inr (
              put_number-Within size width pad out digits (length digits) (omega arith),
              ground arith,
            ))
      | inr e3 ↦ rw e3 (elim (Bool-cases (c == 99)) [
        | inl e ↦
            rw e (inr ((_, refl, omega (arith, length-append out (v % 2 ^ 8 ∷ []))), ground arith))
        | inr e4 ↦
            let last : (c == 115) ≡ true =
              one_left (c == 100) (c == 117) (c == 120) (c == 115) (c == 99) w e1 e2 e3 e4 in
            rw (e4, last) (inl (refl, refl))
      ])
    ])
  ])
]
convert-Suited size width pad c (text s) args out h w' w = elim (Bool-cases (c == 115)) [
  | inl e ↦ rw e (inr ((_, refl, put_all-length size out (text_of s) (omega arith)), refl))
  | inr e ↦ rw e (inl (refl, refl))
]

put_plain-length :
    (size c : ℕ) (out : List ℕ) → length out < size → length (put_plain size c out) ≤ size
put_plain-length size c out h = elim (Bool-cases (c == 37)) [
  | inl e ↦ rw e (omega (arith, length-append out (37 ∷ [])))
  | inr e ↦ rw e (put_all-length size out (37 ∷ c ∷ []) (omega arith))
]

-- One conversion: undefined where the arguments do not fit; otherwise it leaves at most `size`
-- characters, and the arguments for the rest of the format.
unfoldable pub Converted : (size c : ℕ) → (rest : List ℕ) → List Arg → Outcome × List Arg → Type 0
Converted size c rest args (o, args') =
    ((o ≡ bad_args) × (fits_spec (c ∷ rest) args ≡ false))
    ⊎ (Within size o × AreWords args' × (fits_spec (c ∷ rest) args ≡ fits in_text rest args'))

tail-AreWords : (a : Arg) (args : List Arg) → AreWords (a ∷ args) → AreWords args
tail-AreWords (word v) args w = w.1
tail-AreWords (text s) args w = w

pub conversion-Converted :
    (size width pad c : ℕ) (rest : List ℕ) (args : List Arg) (out : List ℕ)
    → length out < size
    → AreWords args
    → Converted size c rest args (conversion size width pad c args out)
unfolding conversion Converted Suited
conversion-Converted size width pad c rest [] out h w = elim (Bool-cases (wants_arg c)) [
  | inl e ↦ rw e (inl (refl, refl))
  | inr e ↦ rw e (inr ((put_plain size c out, refl, put_plain-length size c out h), tt, refl))
]
conversion-Converted size width pad c rest (a ∷ args) out h w = elim (Bool-cases (wants_arg c)) [
  | inl e ↦ elim (convert-Suited size width pad c a args out h w e) [
    | inl (bad, misfit) ↦ rw e (inl (bad, rw misfit refl))
    | inr (good, suited) ↦ rw e (inr (good, tail-AreWords a args w, rw suited refl))
  ]
  | inr e ↦ rw e (inr ((put_plain size c out, refl, put_plain-length size c out h), w, refl))
]
