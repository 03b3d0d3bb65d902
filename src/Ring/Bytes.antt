-- ===== src/Ring/Bytes.antt =====
-- The steps of a ring: storing one byte at the head, and moving the tail on.
use native.Mathlib.Numerals.{add-one}
use anbo_mos.Common.{
  ℕ, ◌+◌, ◌-◌, ◌%◌, ◌≤◌, ◌<◌, [], ◌∷◌, ◌++◌, ◌≡◌, ap, ◌∙◌, sym, arith, length, length-set, drop,
  add32,
}
use anbo_mos.Ring.{Ring, count, store_byte}
use anbo_mos.Ring.Valid.{IsValid, index-mod, word-mod, size-lt, head-eq}
use anbo_mos.Ring.Window.{window, length-window, window-mod, window-set, drop-window, contents}

-- the ring with its tail moved on
abbrev pub advance : Ring → ℕ → Ring
advance rb n = record rb { tail = add32 rb.tail n }

module _ {rb : Ring} (v : IsValid rb) where
  pub length-contents : length (contents rb) ≡ count rb
  unfolding contents
  length-contents = length-window rb.buf rb.size rb.tail (count rb)

  pub count-store : (b : ℕ) → count rb < rb.size → count (store_byte rb b) ≡ count rb + 1
  unfolding count store_byte
  count-store b h = omega (arith, v.head_word, v.tail_word, size-lt v)

  -- The masked head is where the next byte belongs.
  pub head-index : rb.head % rb.size ≡ (rb.tail + count rb) % rb.size
  head-index = ap (λ x. x % rb.size) (head-eq v) ∙ word-mod v (rb.tail + count rb)

  pub contents-store :
      (b : ℕ) → count rb < rb.size → contents (store_byte rb b) ≡ contents rb ++ (b ∷ [])
  unfolding contents store_byte
  contents-store b h =
      rw (count-store b h, add-one)
        (window-set rb.buf rb.size b (count rb) rb.tail _ v.storage h
          (index-mod v rb.head ∙ head-index))

  pub store-IsValid : (b : ℕ) → count rb < rb.size → IsValid (store_byte rb b)
  unfolding store_byte
  store-IsValid b h = record {
    order = v.order;
    order_small = v.order_small;
    size_eq = v.size_eq;
    mask_eq = v.mask_eq;
    storage = length-set rb.buf _ b ∙ v.storage;
    head_word = omega arith;
    tail_word = v.tail_word;
    within = omega (arith, count-store b h);
  }

  pub count-advance : (n : ℕ) → n ≤ count rb → count (advance rb n) ≡ count rb - n
  unfolding count
  count-advance n h = omega (arith, v.head_word, v.tail_word)

  pub advance-IsValid : (n : ℕ) → n ≤ count rb → IsValid (advance rb n)
  advance-IsValid n h = record {
    order = v.order;
    order_small = v.order_small;
    size_eq = v.size_eq;
    mask_eq = v.mask_eq;
    storage = v.storage;
    head_word = v.head_word;
    tail_word = omega arith;
    within = omega (arith, count-advance n h, v.within);
  }

  pub contents-advance : (n : ℕ) → n ≤ count rb → contents (advance rb n) ≡ drop n (contents rb)
  unfolding contents
  contents-advance n h = rw (count-advance n h) (
      window-mod rb.buf rb.size _ (rb.tail + n) (count rb - n) (word-mod v (rb.tail + n))
      ∙ sym (drop-window rb.buf rb.size rb.tail n (count rb) h))

  pub contents-empty : count rb ≡ 0 → contents rb ≡ []
  unfolding contents window
  contents-empty h = ap (window rb.buf rb.size rb.tail) h
