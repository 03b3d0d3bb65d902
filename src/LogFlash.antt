-- ===== src/LogFlash.antt =====
-- port/stm32l4s5/b_l4s5i_log_flash.c: the persistent log, a ring of flash pages with slots of fixed
-- size, in the configuration for the external flash, whose driver is a parameter.
pub mod Format
pub mod Recover
pub mod Slot
pub mod Search
pub mod Best
pub mod Scan
pub mod Recovery
pub mod Writing
pub mod Reading
pub mod Dump
mod Examples
mod RestartExamples
use anbo_mos.Common.{
  ℕ, zero, suc, ◌+◌, ◌-◌, ◌*◌, ◌/◌, ◌%◌, ◌^◌, Bool, true, false, not, ◌&&◌, ◌||◌, Option, none,
  some, List, [], ◌∷◌, ◌==◌, ltb, leb, if◌then◌else◌, length, take, drop, min, add32, sub32,
}
use anbo_mos.LogFlash.Format.{
  slot_size, seq_empty, text_offset, text_capacity, word_at, slot_ok, build_slot, strip, seq_next,
  until_zero,
}

-- The macros of the configuration.
pub record Area : Type 0 where
  pub first_addr : ℕ
  pub page_size : ℕ
  pub num_pages : ℕ

-- The driver of the flash: what the buffer of `len` bytes holds after `BSP_OSPI_Read`, and
-- `BSP_OSPI_PageProgram` and `BSP_OSPI_SectorErase`.
pub record Flash {ℓ} (Mem : Type ℓ) : Type ℓ where
  pub read_bytes : Mem → (addr len : ℕ) → List ℕ
  pub page_program : Mem → (addr : ℕ) → List ℕ → Bool × Mem
  pub sector_erase : Mem → (addr : ℕ) → Bool × Mem

-- The static variables.
pub record Cursors : Type 0 where
  pub cur_page : ℕ
  pub cur_slot : ℕ
  pub seq_counter : ℕ
  pub head_page : ℕ
  pub head_slot : ℕ
  pub inited : Bool

module _ {ℓ} {Mem : Type ℓ} (g : Area) (d : Flash Mem) where
  abbrev pub slots_per_page : ℕ
  slots_per_page = g.page_size / slot_size

  unfoldable pub page_addr : ℕ → ℕ
  page_addr pg = sub32 g.first_addr ((pg * g.page_size) % 2 ^ 32)

  abbrev pub slot_addr : (pg s : ℕ) → ℕ
  slot_addr pg s = add32 (page_addr pg) ((s * slot_size) % 2 ^ 32)

  abbrev pub slot_at : Mem → (pg s : ℕ) → List ℕ
  slot_at m pg s = d.read_bytes m (slot_addr pg s) slot_size

  unfoldable pub slot_seq : Mem → (pg s : ℕ) → ℕ
  unfolding word_at
  slot_seq m pg s = word_at (d.read_bytes m (slot_addr pg s) 4) 0

  unfoldable pub slot_is_empty : Mem → (pg s : ℕ) → Bool
  unfolding slot_seq
  slot_is_empty m pg s = slot_seq m pg s == seq_empty

  unfoldable pub page_is_empty : Mem → (pg : ℕ) → Bool
  unfolding slot_is_empty
  page_is_empty m pg = slot_is_empty m pg 0

  abbrev pub slot_read_valid : Mem → (pg s : ℕ) → Bool
  slot_read_valid m pg s = slot_ok (slot_at m pg s)

  unfoldable pub erase_page : Mem → (pg : ℕ) → Bool × Mem
  erase_page m pg = d.sector_erase m (page_addr pg)

  -- The page to write to: the next one, emptied, if the current one is full. `false` is a failed
  -- erase.
  unfoldable pub next_page : Mem → Cursors → Bool × (Mem × Cursors)
  unfolding page_is_empty erase_page
  next_page m c =
      let next = (c.cur_page + 1) % g.num_pages in
      let (done, m') = erase_page m next in
      let head =
        if c.head_page == next
        then record c { head_page = (next + 1) % g.num_pages; head_slot = 0 }
        else c in
      if ltb c.cur_slot slots_per_page
      then (true, (m, c))
      else if page_is_empty m next
      then (true, (m, record c { cur_page = next; cur_slot = 0 }))
      else if done
      then (true, (m', record head { cur_page = next; cur_slot = 0 }))
      else (false, (m', c))

  unfoldable pub write_slot : Mem → Cursors → (text : List ℕ) → ℕ × (Mem × Cursors)
  unfolding build_slot seq_next
  write_slot m c text =
      let (done, m') =
        d.page_program m (slot_addr c.cur_page c.cur_slot) (build_slot c.seq_counter text) in
      if done
      then (
        length text,
        (m', record c { seq_counter = seq_next c.seq_counter; cur_slot = c.cur_slot + 1 }),
      )
      else (0, (m', c))

  unfoldable pub write : Mem → Cursors → List ℕ → ℕ × (Mem × Cursors)
  unfolding strip next_page write_slot
  write m c bytes =
      let (ready, (m', c')) = next_page m c in
      if not c.inited || (length bytes == 0 || length (strip bytes) == 0)
      then (0, (m, c))
      else if ready
      then write_slot m' c' (take text_capacity (strip bytes))
      else (0, (m', c'))

  -- The inner loop of `BSP_LogFlash_Read` with `n` rounds left: the next valid slot of the page.
  unfoldable pub find_in_page : (n si pg : ℕ) → Mem → Option ℕ
  unfolding slot_is_empty
  find_in_page zero si pg m = none
  find_in_page (suc n) si pg m =
      let rest = find_in_page n (si + 1) pg m in
      if slot_is_empty m pg si then none else if slot_read_valid m pg si then some si else rest

  -- The outer loop, with `n` pages left to visit.
  unfoldable pub find_in_pages : (n pg si : ℕ) → Mem → Option (ℕ × ℕ)
  unfolding find_in_page
  find_in_pages zero pg si m = none
  find_in_pages (suc n) pg si m = elim (find_in_page (slots_per_page - si) si pg m) [
    | some s ↦ some (pg, s)
    | none ↦ find_in_pages n ((pg + 1) % g.num_pages) 0 m
  ]

  abbrev pub ctx_done : ℕ
  ctx_done = 2 ^ 32 - 1

  -- The position that a context stands for: 0 is the head.
  unfoldable pub ctx_place : Cursors → (ctx : ℕ) → ℕ × ℕ
  ctx_place c ctx =
      if ctx == 0 then (c.head_page, c.head_slot) else (ctx / 2 ^ 16 % 2 ^ 16, ctx % 2 ^ 16)

  unfoldable pub ctx_of : (pg si : ℕ) → ℕ
  ctx_of pg si = pg % 2 ^ 16 * 2 ^ 16 + si % 2 ^ 16

  unfoldable pub place_after : (pg si : ℕ) → ℕ × ℕ
  place_after pg si =
      if leb slots_per_page (si + 1) then ((pg + 1) % g.num_pages, 0) else (pg, si + 1)

  -- The context after the slot `si` of `pg` was read.
  unfoldable pub ctx_after : Mem → Cursors → (pg si : ℕ) → ℕ
  unfolding ctx_of place_after slot_is_empty
  ctx_after m c pg si =
      let (pg', si') = place_after pg si in
      if (pg' == c.cur_page && si' == c.cur_slot)
        || (ltb si' slots_per_page && slot_is_empty m pg' si')
      then ctx_done
      else ctx_of pg' si'

  -- The text copied out, up to its end, and the new context; the result is the length of the text.
  unfoldable pub read : Mem → Cursors → (buf_size ctx : ℕ) → List ℕ × ℕ
  unfolding find_in_pages ctx_place ctx_after until_zero
  read m c buf_size ctx =
      let (pg, si) = ctx_place c ctx in
      if buf_size == 0 || ctx == ctx_done
      then ([], ctx)
      else elim (find_in_pages g.num_pages pg si m) [
        | none ↦ ([], ctx_done)
        | some (pg', si') ↦ (
          until_zero (take (min text_capacity buf_size) (drop text_offset (slot_at m pg' si'))),
          ctx_after m c pg' si',
        )
      ]

  abbrev pub zeroed : Cursors → Cursors
  zeroed c = record c { cur_page = 0; cur_slot = 0; seq_counter = 0; head_page = 0; head_slot = 0 }

  unfoldable pub erase_pages : (n pg : ℕ) → Mem → Bool × Mem
  unfolding page_is_empty erase_page
  erase_pages zero pg m = (true, m)
  erase_pages (suc n) pg m =
      let (done, m') = erase_page m pg in
      let rest = erase_pages n (pg + 1) (if page_is_empty m pg then m else m') in
      if page_is_empty m pg || done then rest else (false, m')

  unfoldable pub erase : Mem → Cursors → Bool × (Mem × Cursors)
  unfolding erase_pages
  erase m c =
      let (done, m') = erase_pages g.num_pages 0 m in (done, (m', if done then zeroed c else c))
