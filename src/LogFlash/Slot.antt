-- ===== src/LogFlash/Slot.antt =====
-- A slot that was put together reads back; the numbering of the slots.
use anbo_mos.Common.{
  ℕ, zero, suc, ◌+◌, ◌-◌, ◌/◌, ◌^◌, ◌≤◌, ◌<◌, bit_and, true, false, List, [], ◌∷◌, ◌++◌, ◌≡◌, ◌≢◌,
  refl, ap, ◌∙◌, sym, arith, ◌==◌, ltb, length, length-append, length-replicate, get_or, take, drop,
  take-append_long, take_all, replicate, append-nil, append_assoc,
}
use Prim.Native.Nat.{bit_xor}
use anbo_mos.Common.Bits.{bit_and_mask, holds_below, holds_below-lt}
use anbo_mos.Common.Xor.{bit_xor-lt}
use anbo_mos.LogFlash.Format.{
  slot_size, crc_offset, seq_empty, text_offset, text_capacity, crc32_lut, crc32_nibble, crc32_loop,
  crc32_calc, word_bytes, word_at, seq_after, seq_next, slot_ok, slot_body, build_slot, until_zero,
}

lut_words : holds_below (λ i. ltb (get_or crc32_lut i 0) (2 ^ 32)) 16 ≡ true
unfolding holds_below
lut_words = refl

crc32_nibble-lt : (crc nibble : ℕ) → crc < 2 ^ 32 → crc32_nibble crc nibble < 2 ^ 32
unfolding crc32_nibble
crc32_nibble-lt crc nibble h =
    let i = bit_and (bit_xor crc nibble) 15 in
    let small : i < 16 = omega (arith, bit_and_mask 4 (bit_xor crc nibble)) in
    let word = holds_below-lt (λ i. ltb (get_or crc32_lut i 0) (2 ^ 32)) 16 i small lut_words in
    bit_xor-lt 32 (get_or crc32_lut i 0) (crc / 2 ^ 4) (ground arith) (omega arith)

crc32_loop-lt : (bytes : List ℕ) (crc : ℕ) → crc < 2 ^ 32 → crc32_loop bytes crc < 2 ^ 32
unfolding crc32_loop
crc32_loop-lt [] crc h = h
crc32_loop-lt (p ∷ rest) crc h =
    crc32_loop-lt rest _ (crc32_nibble-lt _ (p / 2 ^ 4) (crc32_nibble-lt crc p h))

crc32_calc-lt : (bytes : List ℕ) → crc32_calc bytes < 2 ^ 32
unfolding crc32_calc
crc32_calc-lt bytes =
    bit_xor-lt 32 _ (2 ^ 32 - 1) (crc32_loop-lt bytes (2 ^ 32 - 1) (omega arith)) (omega arith)

get_or-append :
    (xs ys : List ℕ) (i k : ℕ) → k ≡ length xs + i → get_or (xs ++ ys) k 0 ≡ get_or ys i 0
get_or-append [] ys i k e = let same : k ≡ i = omega arith in ap (λ j. get_or ys j 0) same
get_or-append (x ∷ xs) ys i zero e = absurd (omega arith)
get_or-append (x ∷ xs) ys i (suc k) e = get_or-append xs ys i k (omega arith)

drop-append : (n : ℕ) (xs ys : List ℕ) → n ≡ length xs → drop n (xs ++ ys) ≡ ys
drop-append zero [] ys e = refl
drop-append zero (x ∷ xs) ys e = absurd (omega arith)
drop-append (suc n) [] ys e = absurd (omega arith)
drop-append (suc n) (x ∷ xs) ys e = drop-append n xs ys (omega arith)

-- The four bytes of a word, behind `xs`, are read as that word.
word_at-bytes :
    (xs ys : List ℕ) (w k : ℕ)
    → k ≡ length xs
    → w < 2 ^ 32
    → word_at (xs ++ (word_bytes w ++ ys)) k ≡ w
unfolding word_at word_bytes
word_at-bytes xs ys w k e h =
    let all = word_bytes w ++ ys in
    rw
      (
        get_or-append xs all 0 k (omega arith),
        get_or-append xs all 1 (k + 1) (omega arith),
        get_or-append xs all 2 (k + 2) (omega arith),
        get_or-append xs all 3 (k + 3) (omega arith),
      )
      (omega arith)

length-body :
    (seq : ℕ) (text : List ℕ)
    → length text ≤ text_capacity
    → length (slot_body seq text) ≡ crc_offset
unfolding slot_body word_bytes
length-body seq text h = omega (
  arith,
  length-append text (replicate (text_capacity - length text) 0),
  length-replicate {A = ℕ} (text_capacity - length text) 0,
)

-- No byte of the text is the zero that ends it.
abbrev pub NoZero : List ℕ → Type 0
NoZero [] = Unit
NoZero (b ∷ rest) = (b ≢ 0) × NoZero rest

until_zero-padded :
    (text : List ℕ) (n : ℕ) → NoZero text → until_zero (text ++ replicate n 0) ≡ text
unfolding until_zero
until_zero-padded [] zero h = refl
until_zero-padded [] (suc n) h = refl
until_zero-padded (b ∷ text) n (ne, h) =
    let shown : (b == 0) ≡ false = ground arith in rw (shown, until_zero-padded text n h) refl

slot_ok-lem :
    (buf : List ℕ) (seq crc : ℕ)
    → word_at buf 0 ≡ seq
    → seq ≢ seq_empty
    → word_at buf crc_offset ≡ crc
    → crc32_calc (take crc_offset buf) ≡ crc
    → slot_ok buf ≡ true
unfolding slot_ok
slot_ok-lem buf seq crc a used b c = rw (a, b, c) (ground arith)

module _ (seq : ℕ) (text : List ℕ) (fits : length text ≤ text_capacity) where
  abbrev padded : List ℕ
  padded = text ++ replicate (text_capacity - length text) 0

  abbrev crc_bytes : List ℕ
  crc_bytes = word_bytes (crc32_calc (slot_body seq text))

  length-padded : length padded ≡ text_capacity
  length-padded = omega (
    arith,
    length-append text (replicate (text_capacity - length text) 0),
    length-replicate {A = ℕ} (text_capacity - length text) 0,
  )

  build_slot-crc : word_at (build_slot seq text) crc_offset ≡ crc32_calc (slot_body seq text)
  unfolding build_slot
  build_slot-crc =
      ap (λ r. word_at (slot_body seq text ++ r) crc_offset) (sym (append-nil crc_bytes))
      ∙ word_at-bytes (slot_body seq text) [] _ crc_offset (sym (length-body seq text fits))
          (crc32_calc-lt (slot_body seq text))

  build_slot-seq : seq < 2 ^ 32 → word_at (build_slot seq text) 0 ≡ seq
  unfolding build_slot slot_body
  build_slot-seq h =
      ap (λ r. word_at r 0) (append_assoc (word_bytes seq) padded crc_bytes)
      ∙ word_at-bytes [] (padded ++ crc_bytes) seq 0 refl h

  pub build_slot-valid :
      seq < 2 ^ 32
      → seq ≢ seq_empty
      → (length (build_slot seq text) ≡ slot_size)
        × (slot_ok (build_slot seq text) ≡ true)
        × (word_at (build_slot seq text) 0 ≡ seq)
  unfolding build_slot word_bytes
  build_slot-valid h used =
      let head : take crc_offset (build_slot seq text) ≡ slot_body seq text =
        take-append_long crc_offset (slot_body seq text) crc_bytes
          (omega (arith, length-body seq text fits))
        ∙ take_all crc_offset (slot_body seq text) (omega (arith, length-body seq text fits)) in
      (
        omega (arith, length-append (slot_body seq text) crc_bytes, length-body seq text fits),
        slot_ok-lem (build_slot seq text) seq _ (build_slot-seq h) used build_slot-crc
            (ap crc32_calc head),
        build_slot-seq h,
      )

  build_slot-text :
      NoZero text → until_zero (take text_capacity (drop text_offset (build_slot seq text))) ≡ text
  unfolding build_slot slot_body word_bytes
  build_slot-text clean =
      ap until_zero (
        take-append_long text_capacity padded crc_bytes (omega (arith, length-padded))
        ∙ take_all text_capacity padded (omega (arith, length-padded)))
      ∙ until_zero-padded text (text_capacity - length text) clean

  -- A slot that `BSP_LogFlash_Write` puts together for a sequence number other than the mark of an
  -- empty slot has the size of a slot, passes the checks of `slot_read_valid`, carries that number,
  -- and gives back its text, if that has no zero byte.
  pub build_slot-reads :
      seq < 2 ^ 32
      → seq ≢ seq_empty
      → NoZero text
      → (length (build_slot seq text) ≡ slot_size)
        × (slot_ok (build_slot seq text) ≡ true)
        × (word_at (build_slot seq text) 0 ≡ seq)
        × (until_zero (take text_capacity (drop text_offset (build_slot seq text))) ≡ text)
  build_slot-reads h used clean =
      let (size, valid, number) = build_slot-valid h used in
      (size, valid, number, build_slot-text clean)

-- The number after a number below the mark of an empty slot is below it too, and newer.
pub seq_next-after :
    (s : ℕ) → s < seq_empty → (seq_next s < seq_empty) × (seq_after (seq_next s) s ≡ true)
unfolding seq_next seq_after
seq_next-after s h = ground arith
