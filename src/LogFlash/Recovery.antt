-- ===== src/LogFlash/Recovery.antt =====
-- What `BSP_LogFlash_Init` finds after a restart.
use mathlib.Core.Path.{subst}
use anbo_mos.Common.{
  ℕ, zero, suc, ◌+◌, ◌^◌, ◌≤◌, ◌<◌, true, false, not, Option, none, some, ◌≡◌, ◌≢◌, refl, ap, ◌∙◌,
  arith, ◌==◌, if◌then◌else◌,
}
use native.Mathlib.Decide.{dec_lt}
use anbo_mos.LogFlash.{
  Area, Flash, Cursors, slots_per_page, slot_at, slot_is_empty, slot_read_valid, zeroed,
}
use anbo_mos.LogFlash.Format.{word_at, seq_after, seq_next}
use anbo_mos.LogFlash.Recover.{
  PageScan, scan_page, scan_pages, no_pages, search_loop, last_seq, settle, find_cursors, init,
}
use anbo_mos.LogFlash.Search.{search_loop-first_empty}
use anbo_mos.LogFlash.Best.{IsBest, Tracks, Tracks-step}
use anbo_mos.LogFlash.Scan.{seq_after-asym, page_ok, page_seq, earlier, scan_page-fields}

module _ {ℓ} {Mem : Type ℓ} (g : Area) (d : Flash Mem) (m : Mem) where
  -- A log on the flash: among the pages whose first slot is valid, `head` has the oldest one and
  -- `tail` the newest; on the page `tail` the slots below `used` are not empty, the others are, and
  -- `last` is the last valid one. The slots between `last` and `used` were spoilt by a power failure.
  pub record IsLog (head tail used last : ℕ) : Type 0 where
    pub head_in : head < g.num_pages
    pub tail_in : tail < g.num_pages
    pub head_ok : (page_ok g d m) head ≡ true
    pub tail_ok : (page_ok g d m) tail ≡ true
    pub words : (pg : ℕ) → pg < g.num_pages → (page_seq g d m) pg < 2 ^ 32
    pub newest :
        (pg : ℕ)
        → pg < g.num_pages
        → (page_ok g d m) pg ≡ true
        → pg ≢ tail
        → seq_after ((page_seq g d m) tail) ((page_seq g d m) pg) ≡ true
    pub oldest :
        (pg : ℕ)
        → pg < g.num_pages
        → (page_ok g d m) pg ≡ true
        → pg ≢ head
        → seq_after ((page_seq g d m) pg) ((page_seq g d m) head) ≡ true
    pub used_in : used ≤ slots_per_page g d
    pub last_in : last < used
    pub written : (i : ℕ) → i < used → slot_is_empty g d m tail i ≡ false
    pub free : (i : ℕ) → used ≤ i → i < slots_per_page g d → slot_is_empty g d m tail i ≡ true
    pub last_ok : slot_read_valid g d m tail last ≡ true
    pub spoilt : (i : ℕ) → last < i → i < used → slot_read_valid g d m tail i ≡ false

  module _ {head tail used last : ℕ} (l : IsLog head tail used last) where
    tail-IsBest : IsBest (page_ok g d m) (page_seq g d m) seq_after g.num_pages tail
    tail-IsBest = record {
      target_in = l.tail_in;
      target_ok = l.tail_ok;
      wins = l.newest;
      loses = λ pg h o ne.
          seq_after-asym _ _ (l.words tail l.tail_in) (l.words pg h) (l.newest pg h o ne);
    }

    head-IsBest : IsBest (page_ok g d m) (page_seq g d m) (earlier g d m) g.num_pages head
    head-IsBest = record {
      target_in = l.head_in;
      target_ok = l.head_ok;
      wins = l.oldest;
      loses = λ pg h o ne.
          seq_after-asym _ _ (l.words pg h) (l.words head l.head_in) (l.oldest pg h o ne);
    }

    abbrev Scanned : ℕ → PageScan → Type 0
    Scanned pg v =
        Tracks (page_ok g d m) (page_seq g d m) seq_after tail pg v.found v.max_seq v.max_page
        × Tracks (page_ok g d m) (page_seq g d m) (earlier g d m) head pg v.found v.min_seq
            v.min_page

    scan_page-Scanned :
        (pg : ℕ) (v : PageScan)
        → pg < g.num_pages
        → Scanned pg v
        → Scanned (pg + 1) (scan_page g d pg m v)
    scan_page-Scanned pg v h (newer, older) =
        let (f, s, p, s', p') = scan_page-fields g d m pg v in
        rw (f, s, p, s', p')
          (
            Tracks-step (page_ok g d m) (page_seq g d m) seq_after tail-IsBest pg v.found v.max_seq
                v.max_page h newer,
            Tracks-step (page_ok g d m) (page_seq g d m) (earlier g d m) head-IsBest pg v.found
                v.min_seq v.min_page h older,
          )

    scan_pages-Scanned :
        (n pg : ℕ) (v : PageScan)
        → pg + n ≡ g.num_pages
        → Scanned pg v
        → Scanned g.num_pages (scan_pages g d n pg m v)
    unfolding scan_pages
    scan_pages-Scanned zero pg v e t =
        let here : pg ≡ g.num_pages = omega arith in subst (λ k. Scanned k v) here t
    scan_pages-Scanned (suc n) pg v e t =
        scan_pages-Scanned n (pg + 1) (scan_page g d pg m v) (omega arith)
          (scan_page-Scanned pg v (omega arith) t)

    last_seq-last :
        (n : ℕ) (s : ℕ)
        → last < n
        → n ≤ used
        → last_seq g d n tail m s ≡ word_at (slot_at g d m tail last) 0
    unfolding last_seq
    last_seq-last zero s a b = absurd (omega arith)
    last_seq-last (suc n) s a b = elim (dec_lt last n) [
      | yes behind ↦ rw (l.spoilt n behind (omega arith)) (last_seq-last n s behind (omega arith))
      | no here ↦
          let e : n ≡ last = omega arith in
          rw (ap (slot_read_valid g d m tail) e ∙ l.last_ok)
            (ap (λ i. word_at (slot_at g d m tail i) 0) e)
    ]

    abbrev recovered : Cursors → Cursors
    recovered c = record c {
      cur_page = tail;
      cur_slot = used;
      seq_counter = seq_next (word_at (slot_at g d m tail last) 0);
      head_page = head;
      head_slot = 0;
    }

    settle-recovered :
        (v : PageScan) (c : Cursors)
        → v.max_page ≡ tail
        → v.min_page ≡ head
        → settle g d v used m c ≡ recovered c
    unfolding settle
    settle-recovered v c at_tail at_head =
        let some_used : (used == 0) ≡ false = ground (arith, l.last_in) in
        rw some_used
          (rw (at_tail, at_head) (rw (last_seq-last used v.max_seq l.last_in (omega arith)) refl))

    find_cursors-found :
        (c : Cursors)
        → let v = scan_pages g d g.num_pages 0 m (no_pages g d) in
          v.found ≡ true
          → search_loop g d (slots_per_page g d) 0 (slots_per_page g d) v.max_page m ≡ some used
          → find_cursors g d m c ≡ some (settle g d v used m c)
    unfolding find_cursors
    find_cursors-found c found top =
        let v = scan_pages g d g.num_pages 0 m (no_pages g d) in
        let after : Option ℕ → Option Cursors =
          λ o. elim o [ none ↦ none | some lo ↦ some (settle g d v lo m c) ] in
        ap
          (λ f.
            if not f
            then some (zeroed g d c)
            else after (search_loop g d (slots_per_page g d) 0 (slots_per_page g d) v.max_page m))
          found
        ∙ ap after top

    -- `BSP_LogFlash_Init` recovers the cursors of a log: the head is the page with the oldest entry,
    -- writing goes on in the first empty slot of the newest page, past all spoilt slots, and with the
    -- number after the last valid entry's.
    pub init-recovers :
        (c : Cursors)
        → init g d m c
          ≡ some (record {
            cur_page = tail;
            cur_slot = used;
            seq_counter = seq_next (word_at (slot_at g d m tail last) 0);
            head_page = head;
            head_slot = 0;
            inited = true;
          })
    unfolding init
    init-recovers c =
        let v = scan_pages g d g.num_pages 0 m (no_pages g d) in
        let none_yet : Scanned 0 (no_pages g d) = (
          record { held = λ e. absurd (cc); settled = λ h. absurd (omega arith) },
          record { held = λ e. absurd (cc); settled = λ h. absurd (omega arith) },
        ) in
        let (newer, older) =
          scan_pages-Scanned g.num_pages 0 (no_pages g d) (omega arith) none_yet in
        let (found, at_tail) = newer.settled l.tail_in in
        let top =
          search_loop-first_empty g d (slots_per_page g d) 0 (slots_per_page g d) used tail m
            l.written l.free (omega arith) l.used_in (omega arith) (omega arith) in
        let there =
          find_cursors-found c found (
            ap (λ pg. search_loop g d (slots_per_page g d) 0 (slots_per_page g d) pg m) at_tail
            ∙ top)
          ∙ ap some (settle-recovered v c at_tail (older.settled l.head_in).1) in
        rw (there, init) refl
