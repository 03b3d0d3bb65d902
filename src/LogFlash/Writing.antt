-- ===== src/LogFlash/Writing.antt =====
-- Writing an entry, and restarting after it.
use mathlib.Core.Path.{ap₂}
use anbo_mos.Common.{
  ℕ, ◌+◌, ◌≤◌, ◌<◌, true, false, not, ◌&&◌, ◌||◌, some, List, ◌≡◌, ◌≢◌, refl, ap, ◌∙◌, sym, inl,
  inr, Bool-cases, arith, ◌==◌, ltb, length, length-take, take, replicate,
}
use native.Mathlib.Decide.{dec_lt}
use anbo_mos.LogFlash.{
  Area, Flash, Cursors, slots_per_page, slot_addr, slot_at, slot_seq, slot_is_empty, next_page,
  write_slot, write,
}
use anbo_mos.LogFlash.Format.{
  slot_size, seq_empty, text_capacity, word_at, slot_ok, build_slot, strip, seq_next,
}
use anbo_mos.LogFlash.Recover.{init}
use anbo_mos.LogFlash.Slot.{build_slot-valid}
use anbo_mos.LogFlash.Scan.{page_ok, page_seq}
use anbo_mos.LogFlash.Recovery.{IsLog, init-recovers}
use anbo_mos.LogFlash.Format.{seq_after}

module _ {ℓ} {Mem : Type ℓ} (g : Area) (d : Flash Mem) where
  abbrev pub In : (pg s : ℕ) → Type 0
  In pg s = (pg < g.num_pages) × (s < slots_per_page g d)

  -- What is documented of the flash: the first bytes of a slot are read alike alone and with the
  -- others; a slot programmed where the flash is erased reads back, and no other is changed.
  pub record IsFlash : Type ℓ where
    pub reads_prefix : (m : Mem) (pg s : ℕ) → slot_seq g d m pg s ≡ word_at (slot_at g d m pg s) 0
    pub programmed :
        (m m' : Mem) (pg s : ℕ) (slot : List ℕ)
        → In pg s
        → length slot ≡ slot_size
        → slot_at g d m pg s ≡ replicate slot_size 255
        → d.page_program m (slot_addr g d pg s) slot ≡ (true, m')
        → slot_at g d m' pg s ≡ slot
    pub apart :
        (m m' : Mem) (pg s q j : ℕ) (slot : List ℕ)
        → In pg s
        → In q j
        → (q == pg) && (j == s) ≡ false
        → d.page_program m (slot_addr g d pg s) slot ≡ (true, m')
        → slot_at g d m' q j ≡ slot_at g d m q j

  module _ (f : IsFlash) where
    empty-slot :
        (m m' : Mem) (pg s : ℕ)
        → slot_at g d m' pg s ≡ slot_at g d m pg s
        → slot_is_empty g d m' pg s ≡ slot_is_empty g d m pg s
    unfolding slot_is_empty
    empty-slot m m' pg s e =
        ap (λ n. n == seq_empty)
          (f.reads_prefix m' pg s ∙ ap (λ b. word_at b 0) e ∙ sym (f.reads_prefix m pg s))

    used-slot :
        (m : Mem) (pg s n : ℕ)
        → word_at (slot_at g d m pg s) 0 ≡ n
        → n ≢ seq_empty
        → slot_is_empty g d m pg s ≡ false
    unfolding slot_is_empty
    used-slot m pg s n e ne = rw (f.reads_prefix m pg s ∙ e) (ground arith)

    -- A valid slot with a number, programmed behind the last used one, is the last entry of the log.
    program-IsLog :
        (m m' : Mem) (head tail used last n : ℕ) (slot : List ℕ)
        → IsLog g d m head tail used last
        → used < slots_per_page g d
        → slot_at g d m tail used ≡ replicate slot_size 255
        → length slot ≡ slot_size
        → slot_ok slot ≡ true
        → word_at slot 0 ≡ n
        → n ≢ seq_empty
        → d.page_program m (slot_addr g d tail used) slot ≡ (true, m')
        → IsLog g d m' head tail (used + 1) used
    program-IsLog m m' head tail used last n slot l room blank size valid number ne e =
        let inside : In tail used = (l.tail_in, room) in
        let now = f.programmed m m' tail used slot inside size blank e in
        let first : (pg : ℕ) → pg < g.num_pages → slot_at g d m' pg 0 ≡ slot_at g d m pg 0 = λ pg h.
          f.apart m m' tail used pg 0 slot inside (h, omega arith) (ground (arith, l.last_in)) e in
        let ok_same : (pg : ℕ) → pg < g.num_pages → page_ok g d m' pg ≡ page_ok g d m pg =
          λ pg h. ap slot_ok (first pg h) in
        let seq_same : (pg : ℕ) → pg < g.num_pages → page_seq g d m' pg ≡ page_seq g d m pg =
          λ pg h. ap (λ b. word_at b 0) (first pg h) in
        let other : (i : ℕ)
            → i < slots_per_page g d
            → i ≢ used
            → slot_at g d m' tail i ≡ slot_at g d m tail i =
          λ i h k. f.apart m m' tail used tail i slot inside (l.tail_in, h) (ground arith) e in
        record {
          head_in = l.head_in;
          tail_in = l.tail_in;
          head_ok = ok_same head l.head_in ∙ l.head_ok;
          tail_ok = ok_same tail l.tail_in ∙ l.tail_ok;
          words = λ pg h. rw (seq_same pg h) (l.words pg h);
          newest = λ pg h o k.
              ap₂ seq_after (seq_same tail l.tail_in) (seq_same pg h)
              ∙ l.newest pg h (sym (ok_same pg h) ∙ o) k;
          oldest = λ pg h o k.
              ap₂ seq_after (seq_same pg h) (seq_same head l.head_in)
              ∙ l.oldest pg h (sym (ok_same pg h) ∙ o) k;
          used_in = omega arith;
          last_in = omega arith;
          written = λ i h. elim (dec_lt i used) [
            | yes before ↦
                empty-slot m m' tail i (other i (omega arith) (omega arith)) ∙ l.written i before
            | no here ↦
                let same : i ≡ used = omega arith in
                ap (slot_is_empty g d m' tail) same
                ∙ used-slot m' tail used n (ap (λ b. word_at b 0) now ∙ number) ne
          ];
          free =
              λ i h k. empty-slot m m' tail i (other i k (omega arith)) ∙ l.free i (omega arith) k;
          last_ok = ap slot_ok now ∙ valid;
          spoilt = λ i h k. absurd (omega arith);
        }

    write_slot-done :
        (m m' : Mem) (c c' : Cursors) (text : List ℕ) (n : ℕ)
        → write_slot g d m c text ≡ (n, (m', c'))
        → 0 < n
        → (d.page_program m (slot_addr g d c.cur_page c.cur_slot) (build_slot c.seq_counter text)
            ≡ (true, m'))
          × (c' ≡ record c { seq_counter = seq_next c.seq_counter; cur_slot = c.cur_slot + 1 })
    unfolding write_slot
    write_slot-done m m' c c' text n e some_taken =
        let step =
          d.page_program m (slot_addr g d c.cur_page c.cur_slot) (build_slot c.seq_counter text) in
        elim (Bool-cases step.0) [
          | inr failed ↦
              let nothing : 0 ≡ n = ap (λ r. r.0) (rw (failed, write_slot) at e) in
              absurd (omega arith)
          | inl done ↦
              let ran = rw (done, write_slot) at e in
              (ap₂ (λ b x. (b, x)) done (ap (λ r. r.1.0) ran), sym (ap (λ r. r.1.1) ran))
        ]

    next_page-room :
        (m : Mem) (c : Cursors)
        → c.cur_slot < slots_per_page g d
        → next_page g d m c ≡ (true, (m, c))
    unfolding next_page
    next_page-room m c room =
        let here : ltb c.cur_slot (slots_per_page g d) ≡ true = ground arith in rw here refl

    -- A write that takes something, where the current page has room.
    write-goes :
        (m m' : Mem) (c c' : Cursors) (bytes : List ℕ) (n : ℕ)
        → c.cur_slot < slots_per_page g d
        → write g d m c bytes ≡ (n, (m', c'))
        → 0 < n
        → (write_slot g d m c (take text_capacity (strip bytes)) ≡ (n, (m', c')))
          × (c.inited ≡ true)
    unfolding write
    write-goes m m' c c' bytes n room e some_taken =
        elim (Bool-cases (not c.inited || (length bytes == 0 || length (strip bytes) == 0))) [
          | inl refused ↦
              let nothing : 0 ≡ n = ap (λ r. r.0) (rw (refused, write) at e) in absurd (omega arith)
          | inr goes ↦ (rw (goes, next_page-room m c room, write) at e, ground arith)
        ]

    -- `BSP_LogFlash_Write` on a log whose current page has room, at an erased slot: if it takes
    -- something, the log has grown by one entry, and a restart at any later time finds the cursors
    -- exactly as the write left them.
    pub write-recovers :
        (m m' : Mem) (c c' c0 : Cursors) (bytes : List ℕ) (n last : ℕ)
        → IsLog g d m c.head_page c.cur_page c.cur_slot last
        → c.head_slot ≡ 0
        → c.seq_counter < seq_empty
        → c.cur_slot < slots_per_page g d
        → slot_at g d m c.cur_page c.cur_slot ≡ replicate slot_size 255
        → write g d m c bytes ≡ (n, (m', c'))
        → 0 < n
        → IsLog g d m' c.head_page c.cur_page (c.cur_slot + 1) c.cur_slot
          × (init g d m' c0 ≡ some c')
    write-recovers m m' c c' c0 bytes n last l start small room blank e some_taken =
        let text = take text_capacity (strip bytes) in
        let slot = build_slot c.seq_counter text in
        let fits : length text ≤ text_capacity =
          omega (arith, length-take text_capacity (strip bytes)) in
        let (went, on) = write-goes m m' c c' bytes n room e some_taken in
        let (ran, after) = write_slot-done m m' c c' text n went some_taken in
        let (size, valid, number) =
          build_slot-valid c.seq_counter text fits (omega arith) (omega arith) in
        let l' =
          program-IsLog m m' c.head_page c.cur_page c.cur_slot last c.seq_counter slot l room blank
            size valid number (omega arith) ran in
        let stored : word_at (slot_at g d m' c.cur_page c.cur_slot) 0 ≡ c.seq_counter =
          ap (λ b. word_at b 0)
            (f.programmed m m' c.cur_page c.cur_slot slot (l.tail_in, room) size blank ran)
          ∙ number in
        (l', init-recovers g d m' l' c0 ∙ ap some (rw (stored, sym start, sym on) (sym after)))
