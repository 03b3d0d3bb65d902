-- ===== src/Nvm/External.antt =====
-- port/stm32l4s5/b_l4s5i_ospi_flash_drv.c: the backend for the external flash, and the driver's
-- functions as the shared ones over it. The bus driver is a parameter.
pub mod Chunks
use anbo_mos.Common.{
  ℕ, zero, suc, ◌+◌, ◌-◌, ◌*◌, ◌%◌, ◌^◌, bit_and, Bool, true, false, Option, none, some, List, [],
  ◌∷◌, ◌==◌, ltb, if◌then◌else◌, length, take, drop, add32, sub32,
}
use anbo_mos.Nvm.{
  Geometry, Backend, page_is_empty, find_active_page, read_latest, read_validated, write_append,
}

-- `BSP_OSPI_Read`, where `none` is a failure, `BSP_OSPI_PageProgram` and `BSP_OSPI_SectorErase`.
pub record Ospi {ℓ} (Mem : Type ℓ) : Type ℓ where
  pub read : Mem → (addr len : ℕ) → Option (List ℕ)
  pub page_program : Mem → (addr : ℕ) → List ℕ → Bool × Mem
  pub sector_erase : Mem → (addr : ℕ) → Bool × Mem

abbrev pub ospi_page_size : ℕ
ospi_page_size = 256

-- The loop over `hdr`.
unfoldable pub all_erased : List ℕ → Bool
all_erased [] = true
all_erased (b ∷ hdr) = let rest = all_erased hdr in if b == 255 then rest else false

-- How many of the `remaining` bytes fit in the page of the flash.
unfoldable pub chunk_len : (addr remaining : ℕ) → ℕ
chunk_len addr remaining =
    let chunk = ospi_page_size - bit_and addr (ospi_page_size - 1) in
    if ltb remaining chunk then remaining else chunk

module _ {ℓ} {Mem : Type ℓ} (g : Geometry) (bus : Ospi Mem) where
  unfoldable pub slot_is_empty : Mem → ℕ → Bool
  unfolding all_erased
  slot_is_empty m addr = elim (bus.read m addr 8) [ none ↦ true | some hdr ↦ all_erased hdr ]

  -- The loop that programs what remains of a record, with `n` rounds left; `none` if they run out.
  unfoldable pub program_chunks : (n addr : ℕ) → List ℕ → Mem → Option (Bool × Mem)
  unfolding chunk_len
  program_chunks zero addr src m = if length src == 0 then some (true, m) else none
  program_chunks (suc n) addr src m =
      let chunk = chunk_len addr (length src) in
      let (done, m') = bus.page_program m addr (take chunk src) in
      let rest = program_chunks n (add32 addr chunk) (drop chunk src) m' in
      if length src == 0 then some (true, m) else if done then rest else some (false, m')

  -- A record has as many rounds as bytes.
  unfoldable pub program : Mem → ℕ → List ℕ → Bool × Mem
  unfolding program_chunks
  program m addr r = elim (program_chunks (length r) addr r m) [ none ↦ (false, m) | some s ↦ s ]

  unfoldable pub sector_addr : ℕ → ℕ
  sector_addr s = sub32 g.first_addr ((s * g.page_size) % 2 ^ 32)

  unfoldable pub backend : Backend Mem (List ℕ)
  unfolding slot_is_empty program sector_addr
  backend = record {
    slot_is_empty = slot_is_empty;
    read_slot = λ m addr. bus.read m addr g.rec_size;
    program = program;
    erase_page = λ m s. bus.sector_erase m (sector_addr s);
  }

  -- The functions of this driver.
  abbrev pub sector_is_empty : Mem → ℕ → Bool
  sector_is_empty = page_is_empty g backend

  abbrev pub find_active_sector : Mem → Option ℕ
  find_active_sector = find_active_page g backend

  abbrev pub ospi_read_latest : Mem → Option (List ℕ)
  ospi_read_latest = read_latest g backend

  abbrev pub ospi_read_validated : Option (List ℕ → Bool) → Mem → Option (List ℕ)
  ospi_read_validated = read_validated g backend

  abbrev pub ospi_write_append : Mem → List ℕ → Bool × Mem
  ospi_write_append = write_append g backend
