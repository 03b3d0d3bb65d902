-- ===== src/Port/Boot.antt =====
-- port/stm32l4s5/b_l4s5i_hw.c: the watchdog of the board, the reason of a reset, and the wake-up timer
-- of the real-time clock.
use anbo_mos.Common.{
  ℕ, ◌-◌, ◌*◌, ◌/◌, Bool, false, Option, none, some, ◌==◌, ltb, if◌then◌else◌, ◌≡◌, refl,
}

-- What `HAL_IWDG_Init` is given: the clock of 32 kHz is divided by 32.
unfoldable pub iwdg_reload : (timeout_ms : ℕ) → ℕ
iwdg_reload timeout_ms = if ltb 4095 timeout_ms then 4095 else timeout_ms

-- The flags of RCC_CSR that say why the processor was reset.
pub record ResetFlags : Type 0 where
  pub iwdg_rst : Bool
  pub wwdg_rst : Bool
  pub sft_rst : Bool
  pub lpwr_rst : Bool
  pub pin_rst : Bool
  pub bor_rst : Bool

pub data ResetReason : Type 0 where
  iwdg wwdg software low_power nrst_pin bor por : ResetReason

abbrev pub no_flags : ResetFlags
no_flags = record {
  iwdg_rst = false;
  wwdg_rst = false;
  sft_rst = false;
  lpwr_rst = false;
  pin_rst = false;
  bor_rst = false;
}

-- The reason, what `out_csr` receives, and the flags after `RMVF` was set.
unfoldable pub get_reset_reason : ResetFlags → ResetReason × (ResetFlags × ResetFlags)
get_reset_reason csr = (
  if csr.iwdg_rst
      then iwdg
      else if csr.wwdg_rst
      then wwdg
      else if csr.sft_rst
      then software
      else if csr.lpwr_rst
      then low_power
      else if csr.pin_rst
      then nrst_pin
      else if csr.bor_rst
      then bor
      else por,
  (csr, no_flags),
)

-- What `HAL_RTCEx_SetWakeUpTimer_IT` is given; `none` is no call.
unfoldable pub rtc_wakeup_count : (seconds : ℕ) → Option ℕ
rtc_wakeup_count seconds =
    let s = if ltb 65535 seconds then 65535 else seconds in
    if seconds == 0 then none else some (s - 1)

-- The settings of the clocks that decide the speed: the source in Hz, and the factors of the PLL.
pub record ClockTree : Type 0 where
  pub msi_hz : ℕ
  pub pllm : ℕ
  pub plln : ℕ
  pub pllr : ℕ
  pub ahb_div : ℕ
  pub apb1_div : ℕ
  pub apb2_div : ℕ
  pub flash_latency : ℕ

-- `SystemClock_Config` at the start, and `SystemClock_Recovery` after a sleep.
abbrev pub config_clocks : ClockTree
config_clocks = record {
  msi_hz = 4_000_000;
  pllm = 1;
  plln = 60;
  pllr = 2;
  ahb_div = 1;
  apb1_div = 1;
  apb2_div = 1;
  flash_latency = 5;
}

abbrev pub recovery_clocks : ClockTree
recovery_clocks = record {
  msi_hz = 4_000_000;
  pllm = 1;
  plln = 60;
  pllr = 2;
  ahb_div = 1;
  apb1_div = 1;
  apb2_div = 1;
  flash_latency = 5;
}

abbrev pub sysclk_hz : ClockTree → ℕ
sysclk_hz t = t.msi_hz / t.pllm * t.plln / t.pllr / t.ahb_div

sysclk_same : (sysclk_hz config_clocks ≡ 120_000_000) × (recovery_clocks ≡ config_clocks)
sysclk_same = (refl, refl)
