-- ===== src/LogFlash/Recover.antt =====
-- `find_cursors`: where the log stands after a restart.
use anbo_mos.Common.{
  ℕ, zero, suc, ◌+◌, ◌-◌, ◌/◌, Bool, true, false, not, ◌||◌, Option, none, some, ◌==◌, ltb,
  if◌then◌else◌,
}
use anbo_mos.LogFlash.{
  Area, Flash, Cursors, slots_per_page, slot_at, slot_is_empty, slot_read_valid, zeroed,
}
use anbo_mos.LogFlash.Format.{seq_empty, seq_after, seq_next, word_at}

-- The variables of phase 1 of `find_cursors`.
pub record PageScan : Type 0 where
  pub min_seq : ℕ
  pub max_seq : ℕ
  pub min_page : ℕ
  pub max_page : ℕ
  pub found : Bool

module _ {ℓ} {Mem : Type ℓ} (g : Area) (d : Flash Mem) where
  -- A round of the loop of phase 1, at `pg`.
  unfoldable pub scan_page : (pg : ℕ) → Mem → PageScan → PageScan
  unfolding seq_after
  scan_page pg m v =
      let seq = word_at (slot_at g d m pg 0) 0 in
      let v1 =
        if not v.found || seq_after v.min_seq seq
        then record v { min_seq = seq; min_page = pg }
        else v in
      let v2 =
        if not v.found || seq_after seq v.max_seq
        then record v1 { max_seq = seq; max_page = pg }
        else v1 in
      if slot_read_valid g d m pg 0 then record v2 { found = true } else v

  -- The loop with `n` rounds left, at `pg`.
  unfoldable pub scan_pages : (n pg : ℕ) → Mem → PageScan → PageScan
  unfolding scan_page
  scan_pages zero pg m v = v
  scan_pages (suc n) pg m v = scan_pages n (pg + 1) m (scan_page pg m v)

  -- The binary search of phase 2 with `n` rounds left, of which `hi - lo` are enough.
  unfoldable pub search_loop : (n lo hi pg : ℕ) → Mem → Option ℕ
  unfolding slot_is_empty
  search_loop zero lo hi pg m = if ltb lo hi then none else some lo
  search_loop (suc n) lo hi pg m =
      let mid = lo + (hi - lo) / 2 in
      let empty = slot_is_empty g d m pg mid in
      let rest = search_loop n (if empty then lo else mid + 1) (if empty then mid else hi) pg m in
      if ltb lo hi then rest else some lo

  -- The backward scan over the slots below `i` for the last valid one.
  unfoldable pub last_seq : (i pg : ℕ) → Mem → (max_seq : ℕ) → ℕ
  last_seq zero pg m max_seq = max_seq
  last_seq (suc i) pg m max_seq =
      if slot_read_valid g d m pg i then word_at (slot_at g d m pg i) 0 else last_seq i pg m max_seq

  -- The cursors of a log whose page scan has found a page, where the search gave `lo`.
  unfoldable pub settle : PageScan → (lo : ℕ) → Mem → Cursors → Cursors
  unfolding last_seq seq_next
  settle v lo m c =
      let head = record c { head_page = v.min_page; head_slot = 0; cur_page = v.max_page } in
      if lo == 0 then record head { cur_slot = 0; seq_counter = v.max_seq } else record head {
        cur_slot = lo;
        seq_counter = seq_next (last_seq lo v.max_page m v.max_seq);
      }

  abbrev pub no_pages : PageScan
  no_pages = record { min_seq = seq_empty; max_seq = 0; min_page = 0; max_page = 0; found = false }

  -- The search has as many rounds as a page has slots; `none` would be a search that needs more.
  unfoldable pub find_cursors : Mem → Cursors → Option Cursors
  unfolding scan_pages search_loop settle
  find_cursors m c =
      let v = scan_pages g.num_pages 0 m no_pages in
      if not v.found
      then some (zeroed g d c)
      else elim (search_loop (slots_per_page g d) 0 (slots_per_page g d) v.max_page m) [
        | none ↦ none
        | some lo ↦ some (settle v lo m c)
      ]

  unfoldable pub init : Mem → Cursors → Option Cursors
  unfolding find_cursors
  init m c = elim (find_cursors m c) [ none ↦ none | some c' ↦ some (record c' { inited = true }) ]
