-- ===== src/Nvm/Internal/Flash.antt =====
-- The internal flash serves the record store.
use anbo_mos.Common.{
  ℕ, zero, suc, ◌+◌, ◌*◌, ◌≤◌, ◌<◌, true, false, some, List, [], ◌∷◌, ◌≡◌, ◌≢◌, refl, ap, ◌∙◌, sym,
  ◌⊎◌, inl, inr, Bool-cases, arith, ◌==◌, ==_iff, length, get_or, add32,
}
use mathlib.Core.Path.{ap₂}
use native.Mathlib.Decide.{dec_lt}
use native.Mathlib.Nat.{le-div_iff_mul-le}
use anbo_mos.Nvm.{Geometry, Backend, slot_addr, page_addr}
use anbo_mos.Nvm.Scan.{empty_at}
use anbo_mos.Nvm.Interface.{In, Same, IsFlash}
use anbo_mos.Nvm.Internal.{
  Words, erased_word, Hal, dwords, slot_is_empty, copy, program_loop, page_num, erase_page, backend,
}
use anbo_mos.Nvm.Internal.Layout.{IsLaid, slots_apart, page_apart, word_addr-eq}

-- What the vendor library documents: a double-word programmed where the flash is erased reads back,
-- and no other is changed; erasing a page changes no word outside that page.
pub record IsHal (g : Geometry) (hal : Hal) (page_num0 : ℕ) : Type 0 where
  pub programmed :
      (m m' : Words) (a w : ℕ) → m a ≡ erased_word → hal.program a w m ≡ (true, m') → m' a ≡ w
  pub program_apart :
      (m m' : Words) (a w b : ℕ) → hal.program a w m ≡ (true, m') → b ≢ a → m' b ≡ m b
  pub erase_apart :
      (m m' : Words) (pg b : ℕ)
      → pg < g.num_pages
      → hal.erase (page_num g hal page_num0 pg) m ≡ (true, m')
      → (b < page_addr g (backend g hal page_num0) pg)
        ⊎ (page_addr g (backend g hal page_num0) pg + g.page_size ≤ b)
      → m' b ≡ m b

module _ (g : Geometry) (hal : Hal) (page_num0 : ℕ) where
  abbrev d : Backend Words (List ℕ)
  d = backend g hal page_num0

  abbrev dw : ℕ
  dw = dwords g hal page_num0

  abbrev pub Blank : Words → ℕ → Type 0
  Blank m a = (k : ℕ) → k < dw → m (a + k * 8) ≡ erased_word

  abbrev pub Usable : List ℕ → Type 0
  Usable r = (length r ≡ dw) × (get_or r 0 0 ≢ erased_word)

  copy-congr :
      (n : ℕ) (m m' : Words) (a : ℕ)
      → ((k : ℕ) → k < n → m' (a + k * 8) ≡ m (a + k * 8))
      → copy g hal page_num0 n m' a ≡ copy g hal page_num0 n m a
  unfolding copy
  copy-congr zero m m' a same = refl
  copy-congr (suc n) m m' a same =
      ap₂ ◌∷◌ (ap m' (omega arith) ∙ same 0 (omega arith) ∙ ap m (omega arith)) (
        copy-congr n m m' (a + 8)
          (λ k h. ap m' (omega arith) ∙ same (suc k) (omega arith) ∙ ap m (omega arith)))

  module _ (h : IsHal g hal page_num0) where
    -- One round of the loop that programs a record.
    program_loop-step :
        (n i a : ℕ) (r : List ℕ) (m m' : Words)
        → add32 a (i * 8) ≡ a + i * 8
        → program_loop g hal page_num0 (suc n) i a r m ≡ (true, m')
        → (m1 : Words) × (hal.program (a + i * 8) (get_or r i 0) m ≡ (true, m1))
          × (program_loop g hal page_num0 n (i + 1) a r m1 ≡ (true, m'))
    unfolding program_loop
    program_loop-step n i a r m m' fits e =
        let step = hal.program (add32 a (i * 8)) (get_or r i 0) m in
        elim (Bool-cases step.0) [
          | inr failed ↦ absurd (ground arith)
          | inl done ↦ (
            step.1,
            ap (λ x. hal.program x (get_or r i 0) m) (sym fits) ∙ ap (λ b. (b, step.1)) done,
            rw done at e,
          )
        ]

    -- The loop writes nothing but the words of the record.
    program_loop-apart :
        (n i a : ℕ) (r : List ℕ) (m m' : Words) (b : ℕ)
        → ((k : ℕ) → k < i + n → add32 a (k * 8) ≡ a + k * 8)
        → program_loop g hal page_num0 n i a r m ≡ (true, m')
        → ((k : ℕ) → i ≤ k → k < i + n → b ≢ a + k * 8)
        → m' b ≡ m b
    unfolding program_loop
    program_loop-apart zero i a r m m' b fits e out = ap (λ s. s.1 b) (sym e)
    program_loop-apart (suc n) i a r m m' b fits e out =
        let (m1, ran, e') = program_loop-step n i a r m m' (fits i (omega arith)) e in
        program_loop-apart n (i + 1) a r m1 m' b (λ k p. fits k (omega arith)) e'
          (λ k p q. out k (omega arith) (omega arith))
        ∙ h.program_apart m m1 (a + i * 8) (get_or r i 0) b ran (out i (omega arith) (omega arith))

    -- On erased flash it writes them one after another.
    program_loop-words :
        (n i a : ℕ) (r : List ℕ) (m m' : Words)
        → ((k : ℕ) → i ≤ k → k < i + n → m (a + k * 8) ≡ erased_word)
        → ((k : ℕ) → k < i + n → add32 a (k * 8) ≡ a + k * 8)
        → program_loop g hal page_num0 n i a r m ≡ (true, m')
        → (k : ℕ) → i ≤ k
        → k < i + n
        → m' (a + k * 8) ≡ get_or r k 0
    program_loop-words zero i a r m m' clean fits e k p q = absurd (omega arith)
    program_loop-words (suc n) i a r m m' clean fits e k p q =
        let (m1, ran, e') = program_loop-step n i a r m m' (fits i (omega arith)) e in
        let w = get_or r i 0 in
        elim (dec_lt i k) [
          | yes behind ↦
              program_loop-words n (i + 1) a r m1 m'
                (λ x u v.
                  h.program_apart m m1 (a + i * 8) w (a + x * 8) ran (omega arith)
                  ∙ clean x (omega arith) (omega arith))
                (λ x u. fits x (omega arith)) e' k (omega arith) (omega arith)
          | no first ↦
              let same : k ≡ i = omega arith in
              ap (λ x. m' (a + x * 8)) same
              ∙ program_loop-apart n (i + 1) a r m1 m' (a + i * 8) (λ x u. fits x (omega arith)) e'
                  (λ x u v. omega arith)
              ∙ h.programmed m m1 (a + i * 8) w (clean i (omega arith) (omega arith)) ran
              ∙ ap (λ x. get_or r x 0) (sym same)
        ]

    copy-words :
        (n a : ℕ) (r : List ℕ) (m : Words)
        → length r ≡ n
        → ((k : ℕ) → k < n → m (a + k * 8) ≡ get_or r k 0)
        → copy g hal page_num0 n m a ≡ r
    unfolding copy
    copy-words zero a [] m len words = refl
    copy-words zero a (w ∷ r) m len words = absurd (omega arith)
    copy-words (suc n) a [] m len words = absurd (omega arith)
    copy-words (suc n) a (w ∷ r) m len words =
        ap₂ ◌∷◌ (ap m (omega arith) ∙ words 0 (omega arith)) (
          copy-words n (a + 8) r m (omega arith)
            (λ k p. ap m (omega arith) ∙ words (suc k) (omega arith)))

    module _ (v : IsLaid g dw) where
      program-words :
          (m m' : Words) (pg i : ℕ) (r : List ℕ)
          → In g d Blank pg i
          → Blank m (slot_addr g d pg i)
          → d.program m (slot_addr g d pg i) r ≡ (true, m')
          → ((k : ℕ) → k < dw → m' (slot_addr g d pg i + k * 8) ≡ get_or r k 0)
      unfolding backend
      program-words m m' pg i r (hp, hi) clean e = λ k p.
          program_loop-words dw 0 (slot_addr g d pg i) r m m' (λ x u w. clean x (omega arith))
            (λ x u. word_addr-eq g d v pg i x hp hi (omega arith)) e k (omega arith) (omega arith)

      words-Same :
          (m m' : Words) (q j : ℕ)
          → ((l : ℕ) → l < dw → m' (slot_addr g d q j + l * 8) ≡ m (slot_addr g d q j + l * 8))
          → Same g d Blank m m' q j
      unfolding backend slot_is_empty
      words-Same m m' q j same =
          let a = slot_addr g d q j in
          let first : m' a ≡ m a =
            ap m' (omega arith) ∙ same 0 (omega (arith, v.some_word)) ∙ ap m (omega arith) in
          (
            ap (λ w. w == erased_word) first,
            λ clean k p. same k p ∙ clean k p,
            ap some (copy-congr dw m m' a same),
          )

      Blank-empty : (m : Words) (a : ℕ) → Blank m a → d.slot_is_empty m a ≡ true
      unfolding backend slot_is_empty
      Blank-empty m a clean =
          (==_iff _ _).1 (ap m (omega arith) ∙ clean 0 (omega (arith, v.some_word)))

      program-stored :
          (m m' : Words) (pg i : ℕ) (r : List ℕ)
          → In g d Blank pg i
          → Blank m (slot_addr g d pg i)
          → Usable r
          → d.program m (slot_addr g d pg i) r ≡ (true, m')
          → (empty_at g d m' pg i ≡ false) × (d.read_slot m' (slot_addr g d pg i) ≡ some r)
      unfolding backend slot_is_empty
      program-stored m m' pg i r inside clean (len, fresh) e =
          let words = program-words m m' pg i r inside clean e in
          let a = slot_addr g d pg i in
          let first : m' a ≡ get_or r 0 0 =
            ap m' (omega arith) ∙ words 0 (omega (arith, v.some_word)) in
          (
            ap (λ w. w == erased_word) first ∙ ground (arith, fresh),
            ap some (copy-words dw a r m' len words),
          )

      -- With the documented behaviour of the vendor library, and slots laid out in the address
      -- space, the internal flash gives what the record store relies on; a record is usable if it
      -- has the size of a slot and does not start like erased flash.
      pub backend-IsFlash : IsFlash g d Blank Usable
      unfolding backend erase_page
      backend-IsFlash = record {
        holds_slots =
            (le-div_iff_mul-le {k = g.rec_size} (omega (arith, v.some_word, v.words))).1
              (omega (arith, v.holds_record));
        blank_empty = Blank-empty;
        programmed = program-stored;
        program_apart = λ m m' pg i q j r inside other ne e. words-Same m m' q j λ l p.
            program_loop-apart dw 0 (slot_addr g d pg i) r m m' (slot_addr g d q j + l * 8)
              (λ k u. word_addr-eq g d v pg i k inside.0 inside.1 (omega arith)) e
              (λ k u w t. slots_apart g d v pg i q j k l inside other ne (omega arith) p (sym t));
        erase_apart = λ m m' pg q j hp (hq, hj) ne e. words-Same m m' q j λ l p.
            h.erase_apart m m' pg (slot_addr g d q j + l * 8) hp e
              (page_apart g d v pg q j l hp hq hj ne p);
      }
