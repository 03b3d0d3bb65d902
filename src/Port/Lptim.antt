-- ===== src/Port/Lptim.antt =====
-- port/stm32l4s5/b_l4s5i_hw.c: the low-power timer that ends a sleep, by its registers.
use anbo_mos.Common.{
  ℕ, zero, suc, ◌+◌, ◌-◌, ◌%◌, ◌^◌, Bool, true, false, Option, none, some, ◌==◌, ltb, if◌then◌else◌,
}

-- The accesses to LPTIM1. A look at ISR or CNT takes time, in which the timer goes on; a reading is
-- the value and the state after it. Its flags are cleared by writes to ICR.
pub record LptimRegs {ℓ} (Mem : Type ℓ) : Type ℓ where
  pub enable : Bool → Mem → Mem
  pub clear_arrm : Mem → Mem
  pub clear_arrok : Mem → Mem
  pub write_arr : ℕ → Mem → Mem
  pub start_single : Mem → Mem
  pub read_arrok : Mem → Bool × Mem
  pub read_arrm : Mem → Bool × Mem
  pub read_arr : Mem → ℕ × Mem
  pub read_cnt : Mem → ℕ × Mem

module _ {ℓ} {Mem : Type ℓ} (lpt : LptimRegs Mem) where
  -- A reading that is repeated until two agree, three times at most.
  unfoldable pub lptim_read_cnt : Mem → ℕ × Mem
  lptim_read_cnt m =
      let (a, m1) = lpt.read_cnt m in
      let (b, m2) = lpt.read_cnt m1 in if a == b then (a, m2) else lpt.read_cnt m2

  -- The period that stands for `ms`.
  unfoldable pub lptim_period : (ms : ℕ) → ℕ
  lptim_period ms =
      let period = if ms == 0 then 1 else ms in if ltb 0xffff period then 0xffff else period

  -- The loop that waits for ARROK, with `rounds` left; `none` if they run out.
  unfoldable pub wait_arrok : (rounds : ℕ) → Mem → Option Mem
  wait_arrok zero m = none
  wait_arrok (suc rounds) m =
      let (ok, m') = lpt.read_arrok m in elim ok [ true ↦ some m' | false ↦ wait_arrok rounds m' ]

  unfoldable pub lptim_start_once : (rounds ms : ℕ) → Mem → Option Mem
  unfolding lptim_period wait_arrok
  lptim_start_once rounds ms m =
      let m1 = lpt.clear_arrok (lpt.clear_arrm (lpt.enable true m)) in
      elim (wait_arrok rounds (lpt.write_arr (lptim_period ms - 1) m1)) [
        | none ↦ none
        | some m2 ↦ some (lpt.start_single (lpt.clear_arrok m2))
      ]

  -- What has elapsed: the whole period if the timer has run out, or else its count.
  unfoldable pub lptim_stop_and_read : Mem → ℕ × Mem
  unfolding lptim_read_cnt
  lptim_stop_and_read m =
      let (cnt, m1) = lptim_read_cnt m in
      let (arr, m2) = lpt.read_arr m1 in
      let (arrm, m3) = lpt.read_arrm m2 in
      let m4 = lpt.enable false (if arrm then lpt.clear_arrm m3 else m3) in
      if arrm then ((arr + 1) % 2 ^ 32, m4) else (cnt, m4)
