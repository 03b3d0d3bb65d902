-- ===== src/Imu.antt =====
-- port/stm32l4s5/b_l4s5i_imu_drv.c and its header: the driver of the motion sensor LSM6DSL, over
-- the access to its registers. Log messages and the set-up of the interrupt pin are left out.
pub mod Scale
pub mod Regs
mod Exact
pub mod Samples
mod Fifo
mod Setup
mod Examples
use anbo_mos.Common.{
  ℕ, zero, suc, ◌+◌, ◌*◌, ◌/◌, ◌%◌, ◌^◌, Option, none, some, List, [], ◌∷◌, ◌==◌, ltb,
  if◌then◌else◌,
}
use anbo_mos.Common.Io.{Io, done, fail, after, guard, attempt, ◌>>=◌, ◌>>◌}
use anbo_mos.Common.Int.{ℤ}
use anbo_mos.I2c.{Registers}
use anbo_mos.Imu.Scale.{
  XlFs, xl_4g, GyFs, xl_fs_code, gy_fs_code, byte, raw_at, raw_to_mg, raw_to_mdps, raw_to_temp,
  no_temp, Axes, Sample, axes_at, sample_of,
}
use anbo_mos.Imu.Regs.{
  Reg, fifo_ctrl1, fifo_ctrl2, fifo_ctrl3, fifo_ctrl5, int1_ctrl, who_am_i, ctrl1_xl, ctrl2_g,
  ctrl3_c, wake_up_src, out_temp_l, outx_l_g, outx_l_xl, fifo_status1, fifo_data_out_l, tap_cfg,
  wake_up_ths, wake_up_dur, md1_cfg, address, who_am_i_val, ctrl3_c_sw_reset, ctrl3_c_bdu_if_inc,
  fifo_ctrl3_dec_none, fifo_mode_continuous, int1_fth, fifo_words_per_set, Odr, odr_12_5hz,
  odr_code,
}

-- The static variables, and the rest of the machine.
pub record Imu {ℓ} (Mem : Type ℓ) : Type ℓ where
  pub xl_fs : XlFs
  pub gy_fs : GyFs
  pub bus : Mem

module _ {ℓ} {Mem : Type ℓ} where
  abbrev pub on_bus : {A : Type 0} → Io Mem A → Io (Imu Mem) A
  on_bus c s = let (r, m) = c s.bus in (r, record s { bus = m })

  abbrev pub store_scales : XlFs → GyFs → Io (Imu Mem) (Unit {0})
  store_scales xl gy s = (some tt, record s { xl_fs = xl; gy_fs = gy })

-- The threshold in words, a `uint16_t`.
unfoldable pub wtm_words : (fifo_wtm : ℕ) → ℕ
wtm_words fifo_wtm =
    let words = fifo_wtm * fifo_words_per_set % 2 ^ 16 in if ltb 4095 words then 4095 else words

-- `(xl_odr > gy_odr) ? xl_odr : gy_odr`
abbrev pub fifo_odr : (xl_odr gy_odr : Odr) → ℕ
fifo_odr xl_odr gy_odr =
    if ltb (odr_code gy_odr) (odr_code xl_odr) then odr_code xl_odr else odr_code gy_odr

module _ {ℓ} {Mem : Type ℓ} (dev : Registers Mem) where
  unfoldable pub reg_write : Reg → (val : ℕ) → Io (Imu Mem) (Unit {0})
  reg_write reg val = on_bus (dev.write_reg (address reg) (val % 2 ^ 8 ∷ []))

  unfoldable pub reg_read_multi : Reg → (len : ℕ) → Io (Imu Mem) (List ℕ)
  reg_read_multi reg len = on_bus (dev.read_reg (address reg) len)

  unfoldable pub reg_read : Reg → Io (Imu Mem) ℕ
  unfolding reg_read_multi
  reg_read reg = do buf ← reg_read_multi reg 1; done (byte buf 0)

  -- The loop that waits for the end of the reset, with `retry` readings left.
  unfoldable pub wait_reset : (retry : ℕ) → Io (Imu Mem) (Unit {0})
  unfolding reg_read
  wait_reset zero = fail
  wait_reset (suc retry) = do
    ctrl3 ← reg_read ctrl3_c
    if ctrl3 % 2 == 0 then done tt else wait_reset retry

  unfoldable pub config_fifo : (xl_odr gy_odr : Odr) → (fifo_wtm : ℕ) → Io (Imu Mem) (Unit {0})
  unfolding reg_write wtm_words
  config_fifo xl_odr gy_odr fifo_wtm = do
    let words = wtm_words fifo_wtm
    reg_write fifo_ctrl1 (words % 2 ^ 8)
    reg_write fifo_ctrl2 (words / 2 ^ 8 % 2 ^ 3)
    reg_write fifo_ctrl3 fifo_ctrl3_dec_none
    reg_write fifo_ctrl5 (fifo_odr xl_odr gy_odr * 2 ^ 3 + fifo_mode_continuous)
    reg_write int1_ctrl int1_fth

  -- The part of `BSP_IMU_Init` that looks for the sensor and resets it.
  unfoldable pub identify : Io (Imu Mem) (Unit {0})
  unfolding reg_read reg_write wait_reset
  identify = do
    on_bus dev.is_ready
    who ← reg_read who_am_i
    guard (who == who_am_i_val)
    reg_write ctrl3_c ctrl3_c_sw_reset
    wait_reset 100

  -- The codes take up disjoint bits, so `|` is a sum.
  unfoldable pub init :
      (xl_odr : Odr) (xl : XlFs) (gy_odr : Odr) (gy : GyFs) (fifo_wtm : ℕ) → Io (Imu Mem) (Unit {0})
  unfolding identify reg_write config_fifo
  init xl_odr xl gy_odr gy fifo_wtm = do
    identify
    reg_write ctrl3_c ctrl3_c_bdu_if_inc
    reg_write ctrl1_xl (odr_code xl_odr * 2 ^ 4 + xl_fs_code xl * 2 ^ 2)
    reg_write ctrl2_g (odr_code gy_odr * 2 ^ 4 + gy_fs_code gy * 2 ^ 2)
    store_scales xl gy
    if ltb 0 fifo_wtm then config_fifo xl_odr gy_odr fifo_wtm else done tt

  unfoldable pub read_accel : Io (Imu Mem) Axes
  unfolding reg_read_multi axes_at raw_to_mg
  read_accel s =
      after (reg_read_multi outx_l_xl 6 s) λ buf. done (axes_at (raw_to_mg s.xl_fs) buf 0)

  unfoldable pub read_gyro : Io (Imu Mem) Axes
  unfolding reg_read_multi axes_at raw_to_mdps
  read_gyro s =
      after (reg_read_multi outx_l_g 6 s) λ buf. done (axes_at (raw_to_mdps s.gy_fs) buf 0)

  -- Eleven bits of the two status registers; 0 where they could not be read.
  unfoldable pub fifo_get_level : Imu Mem → ℕ × Imu Mem
  unfolding reg_read_multi
  fifo_get_level s =
      let (r, s') = reg_read_multi fifo_status1 2 s in
      (elim r [ none ↦ 0 | some buf ↦ byte buf 0 + byte buf 1 % 2 ^ 3 * 2 ^ 8 ], s')

  -- The loop over `i`, with `n` sets left: the sets that it stores.
  unfoldable pub read_sets : (n : ℕ) → Imu Mem → List Sample × Imu Mem
  unfolding reg_read_multi sample_of
  read_sets zero s = ([], s)
  read_sets (suc n) s =
      let (r, s') = reg_read_multi fifo_data_out_l 12 s in
      elim r [
        | none ↦ ([], s')
        | some raw ↦ let (out, s'') = read_sets n s' in (sample_of s.xl_fs s.gy_fs raw ∷ out, s'')
      ]

  -- What `out` receives; the result of the function is the number of these sets.
  unfoldable pub fifo_read : (max_sets : ℕ) → Imu Mem → List Sample × Imu Mem
  unfolding fifo_get_level read_sets
  fifo_read max_sets s =
      let (words, s') = fifo_get_level s in
      let avail_sets = words / fifo_words_per_set in
      if avail_sets == 0
      then ([], s')
      else read_sets (if ltb max_sets avail_sets then max_sets else avail_sets) s'

  unfoldable pub read_temp : Imu Mem → ℤ × Imu Mem
  unfolding reg_read_multi raw_at raw_to_temp
  read_temp s =
      let (r, s') = reg_read_multi out_temp_l 2 s in
      (elim r [ none ↦ no_temp | some buf ↦ raw_to_temp (raw_at buf 0) ], s')

  unfoldable pub power_down : Io (Imu Mem) (Unit {0})
  unfolding reg_write
  power_down = do
    attempt (reg_write int1_ctrl 0x00)
    attempt (reg_write fifo_ctrl5 0x00)
    attempt (reg_write ctrl1_xl 0x00)
    attempt (reg_write ctrl2_g 0x00)

  unfoldable pub config_wakeup : (thresh_6bit : ℕ) → Io (Imu Mem) (Unit {0})
  unfolding reg_write reg_read
  config_wakeup thresh_6bit = do
    attempt (reg_write int1_ctrl 0x00)
    attempt (reg_write fifo_ctrl5 0x00)
    attempt (reg_write ctrl2_g 0x00)
    attempt (reg_write ctrl1_xl (odr_code odr_12_5hz * 2 ^ 4 + xl_fs_code xl_4g * 2 ^ 2))
    attempt (reg_write tap_cfg 0x91)
    let thresh = if ltb 63 thresh_6bit then 63 else thresh_6bit
    attempt (reg_write wake_up_ths thresh)
    attempt (reg_write wake_up_dur 0x00)
    attempt (reg_write md1_cfg 0x20)
    attempt (reg_read wake_up_src)

  unfoldable pub read_wake_up_src : Io (Imu Mem) ℕ
  unfolding reg_read
  read_wake_up_src = reg_read wake_up_src
