-- ===== src/Nvm/Internal.antt =====
-- port/stm32l4s5/b_l4s5i_flash_drv.c: the backend for the internal flash. The flash is its 64-bit
-- words, by their addresses; the functions of the vendor library are parameters.
pub mod Layout
pub mod Flash
use anbo_mos.Common.{
  ℕ, zero, suc, ◌+◌, ◌-◌, ◌*◌, ◌/◌, ◌%◌, ◌^◌, Bool, true, false, Option, none, some, List, [], ◌∷◌,
  ◌==◌, if◌then◌else◌, get_or, add32, sub32,
}
use anbo_mos.Nvm.{Geometry, Backend}

abbrev pub Words : Type 0
Words = ℕ → ℕ

abbrev pub erased_word : ℕ
erased_word = 2 ^ 64 - 1

-- `HAL_FLASH_Program` of a double-word and `HAL_FLASHEx_Erase` of a page by its number: whether it
-- returned `HAL_OK`, and the flash after it.
pub record Hal : Type 0 where
  pub program : (addr word : ℕ) → Words → Bool × Words
  pub erase : (page : ℕ) → Words → Bool × Words

module _ (g : Geometry) (hal : Hal) (page_num0 : ℕ) where
  abbrev pub dwords : ℕ
  dwords = g.rec_size / 8

  unfoldable pub slot_is_empty : Words → ℕ → Bool
  slot_is_empty m addr = m addr == erased_word

  -- `memcpy` of `n` double-words
  unfoldable pub copy : (n : ℕ) → Words → ℕ → List ℕ
  copy zero m addr = []
  copy (suc n) m addr = m addr ∷ copy n m (addr + 8)

  -- The loop that programs a record with `n` rounds left, at `i`.
  unfoldable pub program_loop : (n i addr : ℕ) → List ℕ → Words → Bool × Words
  program_loop zero i addr src m = (true, m)
  program_loop (suc n) i addr src m =
      let (done, m') = hal.program (add32 addr (i * 8)) (get_or src i 0) m in
      let rest = program_loop n (i + 1) addr src m' in if done then rest else (false, m')

  unfoldable pub page_num : ℕ → ℕ
  page_num pg = sub32 page_num0 pg

  unfoldable pub erase_page : Words → ℕ → Bool × Words
  unfolding page_num
  erase_page m pg = hal.erase (page_num pg) m

  unfoldable pub backend : Backend Words (List ℕ)
  unfolding slot_is_empty copy program_loop erase_page
  backend = record {
    slot_is_empty = slot_is_empty;
    read_slot = λ m addr. some (copy dwords m addr);
    program = λ m addr r. program_loop dwords 0 addr r m;
    erase_page = erase_page;
  }
