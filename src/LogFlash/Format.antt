-- ===== src/LogFlash/Format.antt =====
-- port/stm32l4s5/b_l4s5i_log_flash.c: the format of a slot, the checksum, and the sequence numbers.
use anbo_mos.Common.{
  ℕ, ◌+◌, ◌-◌, ◌*◌, ◌/◌, ◌%◌, ◌^◌, bit_and, Bool, not, ◌&&◌, List, [], ◌∷◌, ◌++◌, ◌==◌, leb,
  if◌then◌else◌, length, get_or, take, replicate, add32, sub32, gt_signed,
}
use Prim.Native.Nat.{bit_xor}
use anbo_mos.Output.{log_line_max}

abbrev pub slot_size : ℕ
slot_size = log_line_max

abbrev pub crc_offset : ℕ
crc_offset = slot_size - 4

abbrev pub seq_empty : ℕ
seq_empty = 2 ^ 32 - 1

abbrev pub text_offset : ℕ
text_offset = 4

abbrev pub text_capacity : ℕ
text_capacity = crc_offset - text_offset

abbrev pub crc32_lut : List ℕ
crc32_lut =
    0 ∷ 498536548 ∷ 997073096 ∷ 651767980 ∷ 1994146192 ∷ 1802195444 ∷ 1303535960 ∷ 1342533948
    ∷ 3988292384 ∷ 4027552580 ∷ 3604390888 ∷ 3412177804 ∷ 2607071920 ∷ 2262029012 ∷ 2685067896
    ∷ 3183342108 ∷ []

-- One line of the loop of `crc32_calc`, with `nibble` or'd into the index.
unfoldable pub crc32_nibble : (crc nibble : ℕ) → ℕ
crc32_nibble crc nibble =
    bit_xor (get_or crc32_lut (bit_and (bit_xor crc nibble) 15) 0) (crc / 2 ^ 4)

unfoldable pub crc32_loop : List ℕ → ℕ → ℕ
unfolding crc32_nibble
crc32_loop [] crc = crc
crc32_loop (p ∷ rest) crc = crc32_loop rest (crc32_nibble (crc32_nibble crc p) (p / 2 ^ 4))

unfoldable pub crc32_calc : List ℕ → ℕ
unfolding crc32_loop
crc32_calc bytes = bit_xor (crc32_loop bytes (2 ^ 32 - 1)) (2 ^ 32 - 1)

-- A word in four bytes, the lowest first, and back.
unfoldable pub word_bytes : ℕ → List ℕ
word_bytes w = (w % 2 ^ 8) ∷ (w / 2 ^ 8 % 2 ^ 8) ∷ (w / 2 ^ 16 % 2 ^ 8) ∷ (w / 2 ^ 24 % 2 ^ 8) ∷ []

unfoldable pub word_at : List ℕ → ℕ → ℕ
word_at bytes i =
    get_or bytes i 0
    + get_or bytes (i + 1) 0 * 2 ^ 8
    + get_or bytes (i + 2) 0 * 2 ^ 16
    + get_or bytes (i + 3) 0 * 2 ^ 24

unfoldable pub seq_after : (a b : ℕ) → Bool
seq_after a b = gt_signed (sub32 a b) 0

unfoldable pub seq_next : ℕ → ℕ
seq_next s = let n = add32 s 1 in if n == seq_empty then 0 else n

-- The tests of `slot_read_valid` on the slot read.
unfoldable pub slot_ok : List ℕ → Bool
unfolding crc32_calc word_at
slot_ok buf =
    not (word_at buf 0 == seq_empty) && word_at buf crc_offset == crc32_calc (take crc_offset buf)

-- What `BSP_LogFlash_Write` puts together in `slot_buf`.
unfoldable pub slot_body : (seq : ℕ) → List ℕ → List ℕ
unfolding word_bytes
slot_body seq text = word_bytes seq ++ (text ++ replicate (text_capacity - length text) 0)

unfoldable pub build_slot : (seq : ℕ) → List ℕ → List ℕ
unfolding slot_body crc32_calc
build_slot seq text = slot_body seq text ++ word_bytes (crc32_calc (slot_body seq text))

-- The line without its end, and no longer than the text of a slot.
unfoldable pub strip : List ℕ → List ℕ
strip bytes =
    let len = length bytes in
    if leb 2 len && (get_or bytes (len - 2) 0 == 13 && get_or bytes (len - 1) 0 == 10)
    then take (len - 2) bytes
    else if leb 1 len && get_or bytes (len - 1) 0 == 10
    then take (len - 1) bytes
    else bytes

-- The text up to its end.
unfoldable pub until_zero : List ℕ → List ℕ
until_zero [] = []
until_zero (b ∷ rest) = let more = until_zero rest in if b == 0 then [] else b ∷ more
