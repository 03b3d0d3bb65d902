-- ===== src/Port.antt =====
-- port/stm32l4s5/b_l4s5i_port.c: what the kernel needs of the board, in the configuration with the
-- watchdog, the sleep and the timers driven by the tick interrupt.
pub mod Critical
pub mod Lptim
pub mod Fault
pub mod Boot
pub mod Idle
mod Examples
use anbo_mos.Common.{
  ℕ, ◌+◌, ◌%◌, ◌^◌, Bool, true, false, ◌&&◌, ◌||◌, Option, none, some, List, ◌==◌, leb, ltb,
  if◌then◌else◌, length, add32, Status, ok, failed,
}
use anbo_mos.Dev.{Device, DevOps, async_write}
use anbo_mos.Port.Lptim.{LptimRegs, lptim_start_once, lptim_stop_and_read}

-- The tick, the mask of the interrupts, whether the tick interrupts of the kernel and of the
-- vendor's library are on, how often the watchdog was fed, and the rest of the machine.
pub record Board {ℓ} (Mem : Type ℓ) : Type ℓ where
  pub tick_ms : ℕ
  pub irq_off : Bool
  pub systick_on : Bool
  pub hal_tick_on : Bool
  pub feeds : ℕ
  pub hw : Mem

-- The vendor's library and the processor: `__WFI`, the flag of the wake-up, `HAL_PWREx_...`,
-- the restart of the clocks, in which a failure is a loop for ever, and the pending flag of LPTIM1.
pub record Power {ℓ} (Mem : Type ℓ) : Type ℓ where
  pub wfi : Mem → Mem
  pub clear_wu : Mem → Mem
  pub enter_stop2 : Mem → Mem
  pub osc_config : Mem → Bool × Mem
  pub clock_config : Mem → Bool × Mem
  pub clear_pending : Mem → Mem

module _ {ℓ} {Mem : Type ℓ} where
  unfoldable pub get_tick : Board Mem → ℕ
  get_tick s = s.tick_ms

  unfoldable pub wdt_feed : Board Mem → Board Mem
  wdt_feed s = record s { feeds = s.feeds + 1 }

  -- `HAL_IncTick` and `Anbo_Timer_Update` are arguments.
  unfoldable pub systick_handler :
      (inc_tick : Mem → Mem) (timer_update : ℕ → Mem → Mem) → Board Mem → Board Mem
  systick_handler inc_tick timer_update s =
      let tick = add32 s.tick_ms 1 in
      record s { tick_ms = tick; hw = timer_update tick (inc_tick s.hw) }

module _ {ℓ} {Mem : Type ℓ} (pwr : Power Mem) (lpt : LptimRegs Mem) where
  -- `none` is the loop after a failure.
  unfoldable pub clock_recovery : Mem → Option Mem
  clock_recovery m =
      let (started, m1) = pwr.osc_config m in
      let (switched, m2) = pwr.clock_config m1 in
      if started then (if switched then some m2 else none) else none

  -- Up to the sleep: `ms` is at least 3.
  unfoldable pub fall_asleep : (rounds ms : ℕ) → Board Mem → Option (Board Mem)
  unfolding wdt_feed lptim_start_once
  fall_asleep rounds ms s = elim (lptim_start_once lpt rounds ms s.hw) [
    | none ↦ none
    | some m ↦
        let s' : Board Mem =
          wdt_feed (record s { systick_on = false; hal_tick_on = false; hw = pwr.clear_wu m }) in
        some (record s' { irq_off = true; hw = pwr.enter_stop2 s'.hw })
  ]

  -- From the wake-up on.
  unfoldable pub wake_up : Board Mem → Option (Board Mem)
  unfolding wdt_feed lptim_stop_and_read clock_recovery
  wake_up s =
      let (elapsed, m) = lptim_stop_and_read lpt s.hw in
      elim (clock_recovery m) [
        | none ↦ none
        | some m' ↦ some (record (wdt_feed s) {
          tick_ms = add32 s.tick_ms elapsed;
          irq_off = false;
          hal_tick_on = true;
          systick_on = true;
          hw = pwr.clear_pending m';
        })
      ]

  -- `rounds` bounds the waiting for the timer; the log message is left out.
  unfoldable pub idle : (rounds ms : ℕ) → Board Mem → Option (Board Mem)
  unfolding fall_asleep wake_up
  idle rounds ms s =
      if ms == 0
      then some s
      else if leb ms 2
      then some (record s { hw = pwr.wfi s.hw })
      else elim (fall_asleep rounds (if ltb 1500 ms then 1500 else ms) s) [
        | none ↦ none
        | some s' ↦ wake_up s'
      ]

-- `BSP_USART1_GetDevice` gives the device; a call of the source returns 0 or -1.
unfoldable pub transmit_dma :
    {H : Type 0} → Option (DevOps H) → Device H → (buf : Option (List ℕ)) → Status × Device H
transmit_dma ops dev none = (failed, dev)
transmit_dma ops dev (some bytes) =
    let (written, dev') = async_write ops dev bytes in
    if length bytes == 0
    then (failed, dev)
    else if ltb 0 written
    then (ok, dev')
    else (failed, dev')

abbrev pub sig_user_button : ℕ
sig_user_button = 0x0020

abbrev pub sig_imu_int1 : ℕ
sig_imu_int1 = 0x0030

-- `GPIO_PIN_13` and `GPIO_PIN_11`
abbrev pub btn_pin : ℕ
btn_pin = 0x2000

abbrev pub int1_pin : ℕ
int1_pin = 0x0800

-- The publications on the event bus are arguments.
unfoldable pub exti_callback {ℓ} :
    {W : Type ℓ} → (publish publish_silent : ℕ → W → W) → (gpio_pin : ℕ) → W → W
exti_callback publish publish_silent pin w =
    let w' = if pin == btn_pin then publish sig_user_button w else w in
    if pin == int1_pin then publish_silent sig_imu_int1 w' else w'
