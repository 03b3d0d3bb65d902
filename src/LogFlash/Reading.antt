-- ===== src/LogFlash/Reading.antt =====
-- Reading the log back from a ring whose oldest page is not page 0.
use anbo_mos.Common.{
  ℕ, zero, suc, ◌+◌, ◌-◌, ◌%◌, ◌^◌, ◌≤◌, ◌<◌, true, false, ◌&&◌, ◌||◌, some, List, ◌≡◌, ◌≢◌, refl,
  ap, ◌∙◌, sym, inl, inr, Bool-cases, arith, ◌==◌, ltb, take, drop, min,
}
use mathlib.Core.Path.{subst, ap₂}
use native.Mathlib.Decide.{dec_lt}
use native.Mathlib.Nat.{mod-eq_of_lt, mod_self}
use anbo_mos.LogFlash.{
  Area, Flash, Cursors, slots_per_page, slot_at, slot_is_empty, slot_read_valid, find_in_page,
  find_in_pages, ctx_done, ctx_place, ctx_of, place_after, ctx_after, read,
}
use anbo_mos.LogFlash.Format.{text_offset, text_capacity, until_zero}

-- A read in a run of reads: the text of a slot, and the context for the next read.
module _ {ℓ} {Mem : Type ℓ} (g : Area) (d : Flash Mem) (m : Mem) (c : Cursors) (buf_size : ℕ) where
  -- The pages from the head to the last are full of valid slots, page 0 is in use, and the write
  -- position is in front of the head: so it is once a page has been erased for reuse.
  pub record IsWrapped : Type 0 where
    pub some_room : 0 < buf_size
    pub pages_fit : g.num_pages ≤ 2 ^ 16
    pub some_slot : 0 < slots_per_page g d
    pub slots_fit : slots_per_page g d < 2 ^ 16
    pub head_in : c.head_page < g.num_pages
    pub head_start : c.head_slot ≡ 0
    pub writer : c.cur_page < c.head_page
    pub writer_on : 0 < c.cur_page + c.cur_slot
    pub used :
        (pg si : ℕ)
        → c.head_page ≤ pg
        → pg < g.num_pages
        → si < slots_per_page g d
        → slot_is_empty g d m pg si ≡ false
    pub valid :
        (pg si : ℕ)
        → c.head_page ≤ pg
        → pg < g.num_pages
        → si < slots_per_page g d
        → slot_read_valid g d m pg si ≡ true
    pub first_used : slot_is_empty g d m 0 0 ≡ false

  -- The context after `n` reads from the start.
  abbrev pub ctx_of_reads : ℕ → ℕ
  ctx_of_reads zero = 0
  ctx_of_reads (suc n) = (read g d m c buf_size (ctx_of_reads n)).1

  abbrev pub text_at : (pg si : ℕ) → List ℕ
  text_at pg si =
      until_zero (take (min text_capacity buf_size) (drop text_offset (slot_at g d m pg si)))

  -- A context that stands for a slot between the head and the last page.
  pub record IsInside (ctx : ℕ) : Type 0 where
    pub pg : ℕ
    pub si : ℕ
    pub from_head : c.head_page ≤ pg
    pub page_in : pg < g.num_pages
    pub slot_in : si < slots_per_page g d
    pub place : ctx_place g d c ctx ≡ (pg, si)
    pub goes_on : ctx ≢ ctx_done g d

  module _ (v : IsWrapped) where
    find_in_page-here :
        (n si pg : ℕ)
        → 0 < n
        → slot_is_empty g d m pg si ≡ false
        → slot_read_valid g d m pg si ≡ true
        → find_in_page g d n si pg m ≡ some si
    unfolding find_in_page
    find_in_page-here zero si pg h u w = absurd (omega arith)
    find_in_page-here (suc n) si pg h u w = rw (u, w) refl

    find_in_pages-here :
        (n pg si : ℕ)
        → 0 < n
        → find_in_page g d (slots_per_page g d - si) si pg m ≡ some si
        → find_in_pages g d n pg si m ≡ some (pg, si)
    unfolding find_in_pages
    find_in_pages-here zero pg si h e = absurd (omega arith)
    find_in_pages-here (suc n) pg si h e = rw (e, find_in_pages) refl

    start-IsInside : IsInside 0
    unfolding ctx_place
    start-IsInside = record {
      pg = c.head_page;
      si = 0;
      from_head = omega arith;
      page_in = v.head_in;
      slot_in = v.some_slot;
      place = ap (λ s. (c.head_page, s)) v.head_start;
      goes_on = omega arith;
    }

    ctx_of-origin : ctx_of g d 0 0 ≡ 0
    unfolding ctx_of
    ctx_of-origin = refl

    ctx_of-IsInside :
        (pg si : ℕ)
        → c.head_page ≤ pg
        → pg < g.num_pages
        → si < slots_per_page g d
        → IsInside (ctx_of g d pg si)
    unfolding ctx_place ctx_of
    ctx_of-IsInside pg si h p s =
        let started : (ctx_of g d pg si == 0) ≡ false =
          ground (arith, v.pages_fit, v.slots_fit, v.writer) in
        record {
          pg = pg;
          si = si;
          from_head = h;
          page_in = p;
          slot_in = s;
          place = rw started (
              ap₂ (λ a b. (a, b)) (omega (arith, v.pages_fit, v.slots_fit))
                (omega (arith, v.pages_fit, v.slots_fit)));
          goes_on = omega (arith, v.pages_fit, v.slots_fit);
        }

    ctx_after-used :
        (pg si pg' si' : ℕ)
        → place_after g d pg si ≡ (pg', si')
        → (pg' == c.cur_page && si' == c.cur_slot) ≡ false
        → slot_is_empty g d m pg' si' ≡ false
        → ctx_after g d m c pg si ≡ ctx_of g d pg' si'
    unfolding ctx_after
    ctx_after-used pg si pg' si' e off u = elim (Bool-cases (ltb si' (slots_per_page g d))) [
      | inl inside ↦ rw e (rw (off, inside, u) refl)
      | inr outside ↦ rw e (rw (off, outside) refl)
    ]

    place_after-next :
        (pg si : ℕ) → si + 1 < slots_per_page g d → place_after g d pg si ≡ (pg, si + 1)
    unfolding place_after
    place_after-next pg si h = ground arith

    place_after-turn :
        (pg si pg' : ℕ)
        → slots_per_page g d ≤ si + 1
        → (pg + 1) % g.num_pages ≡ pg'
        → place_after g d pg si ≡ (pg', 0)
    unfolding place_after
    place_after-turn pg si pg' h e = ground arith

    -- The next read goes on behind the slot, or from the head again: it is never told to stop.
    ctx_after-IsInside :
        (pg si : ℕ)
        → c.head_page ≤ pg
        → pg < g.num_pages
        → si < slots_per_page g d
        → IsInside (ctx_after g d m c pg si)
    ctx_after-IsInside pg si h p s = elim (dec_lt (si + 1) (slots_per_page g d)) [
      | yes more ↦
          rw
            (ctx_after-used pg si pg (si + 1) (place_after-next pg si more)
              (ground (arith, v.writer)) (v.used pg (si + 1) h p more))
            (ctx_of-IsInside pg (si + 1) h p more)
      | no last ↦ elim (dec_lt (pg + 1) g.num_pages) [
        | yes further ↦
            rw
              (ctx_after-used pg si (pg + 1) 0
                (place_after-turn pg si (pg + 1) (omega arith) (mod-eq_of_lt further))
                (ground (arith, v.writer)) (v.used (pg + 1) 0 (omega arith) further v.some_slot))
              (ctx_of-IsInside (pg + 1) 0 (omega arith) further v.some_slot)
        | no end ↦
            let all : pg + 1 ≡ g.num_pages = omega arith in
            rw
              (ctx_after-used pg si 0 0
                (place_after-turn pg si 0 (omega arith)
                  (ap (λ n. n % g.num_pages) all ∙ mod_self g.num_pages))
                (ground (arith, v.writer_on)) v.first_used)
              (subst IsInside (sym ctx_of-origin) start-IsInside)
      ]
    ]

    read-inside :
        (ctx : ℕ) (i : IsInside ctx)
        → ((read g d m c buf_size ctx).0 ≡ text_at i.pg i.si)
          × ((read g d m c buf_size ctx).1 ≡ ctx_after g d m c i.pg i.si)
    unfolding read
    read-inside ctx i =
        let asked : (buf_size == 0 || ctx == ctx_done g d) ≡ false =
          ground (arith, v.some_room, i.goes_on) in
        let here = find_in_pages-here g.num_pages i.pg i.si (omega (arith, v.head_in)) (
          find_in_page-here (slots_per_page g d - i.si) i.si i.pg (omega (arith, i.slot_in))
            (v.used i.pg i.si i.from_head i.page_in i.slot_in)
            (v.valid i.pg i.si i.from_head i.page_in i.slot_in)) in
        rw (i.place) (rw (asked, here) (refl, refl))

    -- Once a page in front of the head has been erased for reuse, and so long as the write position
    -- is in front of the head but not at the first slot of page 0, the pages from the head to the
    -- last one are full of valid entries and page 0 is in use, reading the log into a buffer from
    -- its start never ends: no number of reads leads to the mark of the end, and each read gives the
    -- text of a slot between the head and the last page, so that the newer entries from page 0 on are
    -- never reached.
    pub read-never_ends :
        (n : ℕ)
        → (i : IsInside (ctx_of_reads n)) × ((read g d m c buf_size (ctx_of_reads n)).0
            ≡ text_at i.pg i.si)
    read-never_ends zero = (start-IsInside, (read-inside 0 start-IsInside).0)
    read-never_ends (suc n) =
        let i = (read-never_ends n).0 in
        let next =
          subst IsInside (sym (read-inside (ctx_of_reads n) i).1)
            (ctx_after-IsInside i.pg i.si i.from_head i.page_in i.slot_in) in
        (next, (read-inside (ctx_of_reads (suc n)) next).0)
