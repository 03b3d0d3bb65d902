-- ===== src/Nvm/Internal/Layout.antt =====
-- Where the slots lie: no two of them, and no two pages, overlap.
use anbo_mos.Common.{
  ℕ, ◌+◌, ◌*◌, ◌^◌, ◌≤◌, ◌<◌, false, ◌&&◌, ◌≡◌, ◌≢◌, ap, arith, ◌==◌, inl, inr, ◌⊎◌, add32,
}
use native.Mathlib.Decide.{dec_lt}
use native.Mathlib.Nat.{div-mul-le_self}
use anbo_mos.Nvm.{Geometry, Backend, page_addr, slot_addr, max_slots}

-- The area fits in the address space, and a page holds a record of `dw` double-words.
pub record IsLaid (g : Geometry) (dw : ℕ) : Type 0 where
  pub words : g.rec_size ≡ dw * 8
  pub some_word : 0 < dw
  pub holds_record : g.rec_size ≤ g.page_size
  pub some_page : 0 < g.num_pages
  pub above_zero : g.num_pages * g.page_size ≤ g.first_addr + g.page_size
  pub below_end : g.first_addr + g.page_size ≤ 2 ^ 32

module _ {ℓ} {Mem : Type ℓ} {Rec : Type 0} (g : Geometry) (d : Backend Mem Rec) {dw : ℕ}
    (v : IsLaid g dw) where
  pages-le : (pg : ℕ) → pg < g.num_pages → pg * g.page_size ≤ g.first_addr
  pages-le pg h = grind (arith, v.above_zero)

  slot_end : (i : ℕ) → i < max_slots g d → i * g.rec_size + g.rec_size ≤ g.page_size
  slot_end i h = grind (arith, div-mul-le_self g.page_size g.rec_size)

  pub page_addr-eq :
      (pg : ℕ) → pg < g.num_pages → page_addr g d pg + pg * g.page_size ≡ g.first_addr
  unfolding page_addr
  page_addr-eq pg h =
      omega (arith, pages-le pg h, v.below_end, v.holds_record, v.some_word, v.words)

  pub slot_addr-eq :
      (pg i : ℕ)
      → pg < g.num_pages
      → i < max_slots g d
      → slot_addr g d pg i ≡ page_addr g d pg + i * g.rec_size
  slot_addr-eq pg i h l =
      omega (arith, page_addr-eq pg h, slot_end i l, v.below_end, v.some_word, v.words)

  -- The words of a slot lie in the address space.
  pub word_addr-eq :
      (pg i k : ℕ)
      → pg < g.num_pages
      → i < max_slots g d
      → k < dw
      → add32 (slot_addr g d pg i) (k * 8) ≡ slot_addr g d pg i + k * 8
  word_addr-eq pg i k h l w =
      omega (arith, slot_addr-eq pg i h l, page_addr-eq pg h, slot_end i l, v.below_end, v.words)

  multiple-le : (a b s : ℕ) → a < b → a * s + s ≤ b * s
  multiple-le a b s h = grind arith

  -- Different slots have no word in common.
  pub slots_apart :
      (pg i q j k l : ℕ)
      → (pg < g.num_pages) × (i < max_slots g d)
      → (q < g.num_pages) × (j < max_slots g d)
      → (q == pg) && (j == i) ≡ false
      → k < dw
      → l < dw
      → slot_addr g d pg i + k * 8 ≢ slot_addr g d q j + l * 8
  slots_apart pg i q j k l (hp, hi) (hq, hj) ne hk hl e = elim (dec_lt q pg) [
    | yes above ↦ omega (
      arith,
      multiple-le q pg g.page_size above,
      slot_addr-eq pg i hp hi,
      slot_addr-eq q j hq hj,
      page_addr-eq pg hp,
      page_addr-eq q hq,
      slot_end i hi,
      v.words,
    )
    | no not_above ↦ elim (dec_lt pg q) [
      | yes below ↦ omega (
        arith,
        multiple-le pg q g.page_size below,
        slot_addr-eq pg i hp hi,
        slot_addr-eq q j hq hj,
        page_addr-eq pg hp,
        page_addr-eq q hq,
        slot_end j hj,
        v.words,
      )
      | no not_below ↦
          let here : q ≡ pg = omega arith in
          let base : page_addr g d q ≡ page_addr g d pg = ap (page_addr g d) here in
          elim (dec_lt i j) [
            | yes before ↦ omega (
              arith,
              multiple-le i j g.rec_size before,
              slot_addr-eq pg i hp hi,
              slot_addr-eq q j hq hj,
              base,
              v.words,
            )
            | no not_before ↦
                let behind : j < i = ground arith in
                omega (
                  arith,
                  multiple-le j i g.rec_size behind,
                  slot_addr-eq pg i hp hi,
                  slot_addr-eq q j hq hj,
                  base,
                  v.words,
                )
          ]
    ]
  ]

  -- A word of a page lies in no other page.
  pub page_apart :
      (pg q j l : ℕ)
      → pg < g.num_pages
      → q < g.num_pages
      → j < max_slots g d
      → q ≢ pg
      → l < dw
      → (slot_addr g d q j + l * 8 < page_addr g d pg)
        ⊎ (page_addr g d pg + g.page_size ≤ slot_addr g d q j + l * 8)
  page_apart pg q j l hp hq hj ne hl = elim (dec_lt pg q) [
    | yes below ↦ inl (
        omega (
          arith,
          multiple-le pg q g.page_size below,
          slot_addr-eq q j hq hj,
          page_addr-eq pg hp,
          page_addr-eq q hq,
          slot_end j hj,
          v.words,
        ))
    | no not_below ↦
        let above : q < pg = omega arith in
        inr (
          omega (
            arith,
            multiple-le q pg g.page_size above,
            slot_addr-eq q j hq hj,
            page_addr-eq pg hp,
            page_addr-eq q hq,
            slot_end j hj,
            v.words,
          ))
  ]
