-- ===== src/Nvm.antt =====
-- port/stm32l4s5/b_l4s5i_flash_drv.c and b_l4s5i_ospi_flash_drv.c: the log-structured store of
-- parameter records. The two drivers run one algorithm over two kinds of flash; what differs stands
-- in a backend. The area is laid out downwards from its first page.
pub mod Scan
pub mod Interface
pub mod Store
pub mod Exhausted
pub mod Internal
pub mod External
mod Examples
use anbo_mos.Common.{
  ℕ, zero, suc, ◌+◌, ◌-◌, ◌*◌, ◌/◌, ◌%◌, ◌^◌, Bool, true, false, not, ◌&&◌, Option, none, some, ltb,
  ◌==◌, if◌then◌else◌, add32, sub32,
}

-- The macros of the configuration, and the size of a record.
pub record Geometry : Type 0 where
  pub first_addr : ℕ
  pub page_size : ℕ
  pub num_pages : ℕ
  pub rec_size : ℕ

-- What a driver does with the flash: `slot_is_empty` and the copy of a record at an address, the
-- loop that programs a record, `erase_page`. `none` is a read that failed.
pub record Backend {ℓ} (Mem : Type ℓ) (Rec : Type 0) : Type ℓ where
  pub slot_is_empty : Mem → ℕ → Bool
  pub read_slot : Mem → ℕ → Option Rec
  pub program : Mem → ℕ → Rec → Bool × Mem
  pub erase_page : Mem → ℕ → Bool × Mem

module _ {ℓ} {Mem : Type ℓ} {Rec : Type 0} (g : Geometry) (d : Backend Mem Rec) where
  unfoldable pub page_addr : ℕ → ℕ
  page_addr pg = sub32 g.first_addr ((pg * g.page_size) % 2 ^ 32)

  abbrev pub slot_addr : (pg i : ℕ) → ℕ
  slot_addr pg i = add32 (page_addr pg) ((i * g.rec_size) % 2 ^ 32)

  abbrev pub max_slots : ℕ
  max_slots = g.page_size / g.rec_size

  unfoldable pub page_is_empty : Mem → ℕ → Bool
  page_is_empty m pg = d.slot_is_empty m (page_addr pg)

  -- The loop of `find_active_page` with `n` rounds left, at `pg`. `none` is -1.
  unfoldable pub find_active_loop : (n pg : ℕ) → Option ℕ → Mem → Option ℕ
  unfolding page_is_empty
  find_active_loop zero pg active m = active
  find_active_loop (suc n) pg active m =
      find_active_loop n (pg + 1) (if page_is_empty m pg then active else some pg) m

  unfoldable pub find_active_page : Mem → Option ℕ
  find_active_page m = find_active_loop g.num_pages 0 none m

  -- The backward scan, from the slot below `n` on: the last slot that is not empty.
  unfoldable pub last_written : (n pg : ℕ) → Mem → Option ℕ
  last_written zero pg m = none
  last_written (suc n) pg m =
      if d.slot_is_empty m (slot_addr pg n) then last_written n pg m else some n

  unfoldable pub read_latest : Mem → Option Rec
  read_latest m = elim (find_active_page m) [
    | none ↦ none
    | some pg ↦ elim (last_written max_slots pg m) [
      | none ↦ none
      | some i ↦ d.read_slot m (slot_addr pg i)
    ]
  ]

  abbrev pub accepted : Option (Rec → Bool) → Rec → Bool
  accepted none r = true
  accepted (some validator) r = validator r

  -- The backward scan of `BSP_Flash_ReadValidated` within a page: the last record that passes.
  unfoldable pub last_valid : Option (Rec → Bool) → (n pg : ℕ) → Mem → Option Rec
  last_valid validator zero pg m = none
  last_valid validator (suc n) pg m =
      let earlier = last_valid validator n pg m in
      if d.slot_is_empty m (slot_addr pg n)
      then earlier
      else elim (d.read_slot m (slot_addr pg n)) [
        | none ↦ earlier
        | some r ↦ if accepted validator r then some r else earlier
      ]

  -- Its loop over the pages with `n` rounds left, at the `p`-th page before the active one.
  unfoldable pub read_validated_loop : Option (Rec → Bool) → (n p active : ℕ) → Mem → Option Rec
  unfolding page_is_empty last_valid
  read_validated_loop validator zero p active m = none
  read_validated_loop validator (suc n) p active m =
      let pg = (active + g.num_pages - p) % g.num_pages in
      let rest = read_validated_loop validator n (p + 1) active m in
      if ltb 0 p && page_is_empty m pg
      then rest
      else elim (last_valid validator max_slots pg m) [ none ↦ rest | some r ↦ some r ]

  unfoldable pub read_validated : Option (Rec → Bool) → Mem → Option Rec
  read_validated validator m = elim (find_active_page m) [
    | none ↦ none
    | some active ↦ read_validated_loop validator g.num_pages 0 active m
  ]

  -- The forward scan of `BSP_Flash_WriteAppend` with `n` rounds left, at the slot `i`.
  unfoldable pub first_empty : (n i pg : ℕ) → Mem → Option ℕ
  first_empty zero i pg m = none
  first_empty (suc n) i pg m =
      if d.slot_is_empty m (slot_addr pg i) then some i else first_empty n (i + 1) pg m

  -- The next page, erased if it is not empty; `false` if that failed.
  unfoldable pub rotate : Mem → ℕ → Bool × Mem
  unfolding page_is_empty
  rotate m pg = if page_is_empty m pg then (true, m) else d.erase_page m pg

  unfoldable pub write_append : Mem → Rec → Bool × Mem
  write_append m r = elim (find_active_page m) [
    | none ↦ d.program m (slot_addr 0 0) r
    | some active ↦ elim (first_empty max_slots 0 active m) [
      | some i ↦ d.program m (slot_addr active i) r
      | none ↦
          let pg = (active + 1) % g.num_pages in
          let (done, m') = rotate m pg in
          if done then d.program m' (slot_addr pg 0) r else (false, m')
    ]
  ]
