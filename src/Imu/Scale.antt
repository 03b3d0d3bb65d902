-- ===== src/Imu/Scale.antt =====
-- port/stm32l4s5/b_l4s5i_imu_drv.c: the full-scale ranges, and the raw readings of the sensor in
-- physical units.
use anbo_mos.Common.{ℕ, ◌+◌, ◌-◌, ◌*◌, ◌^◌, List, get_or}
use anbo_mos.Common.Int.{ℤ, negsuc, signed, scale, wrap32, quot, add_to}

pub data XlFs : Type 0 where
  xl_2g xl_4g xl_8g xl_16g : XlFs

pub data GyFs : Type 0 where
  gy_250dps gy_500dps gy_1000dps gy_2000dps : GyFs

-- The codes of the ranges in the control registers.
abbrev pub xl_fs_code : XlFs → ℕ
xl_fs_code xl_2g = 0
xl_fs_code xl_4g = 2
xl_fs_code xl_8g = 3
xl_fs_code xl_16g = 1

abbrev pub gy_fs_code : GyFs → ℕ
gy_fs_code gy_250dps = 0
gy_fs_code gy_500dps = 1
gy_fs_code gy_1000dps = 2
gy_fs_code gy_2000dps = 3

-- The sensitivities, in thousandths of a unit.
abbrev pub xl_sens : XlFs → ℕ
xl_sens xl_2g = 61
xl_sens xl_4g = 122
xl_sens xl_8g = 244
xl_sens xl_16g = 488

abbrev pub gy_sens : GyFs → ℕ
gy_sens gy_250dps = 8750
gy_sens gy_500dps = 17500
gy_sens gy_1000dps = 35000
gy_sens gy_2000dps = 70000

-- The bytes of a buffer that the bus has filled; the driver reads none past its end.
abbrev pub byte : List ℕ → ℕ → ℕ
byte buf i = get_or buf i 0

-- `(int16_t)((uint16_t)buf[i + 1] << 8u | buf[i])`; the bytes are below 256, so `|` is a sum.
unfoldable pub raw_at : List ℕ → ℕ → ℤ
raw_at buf i = signed (2 ^ 15) (byte buf (i + 1) * 2 ^ 8 + byte buf i)

-- The product is that of `int32_t`; where it overflows, the model wraps it as the processor does.
unfoldable pub raw_to_mg : XlFs → ℤ → ℤ
unfolding scale wrap32 quot
raw_to_mg fs raw = quot (wrap32 (scale raw (xl_sens fs))) 1000

unfoldable pub raw_to_mdps : GyFs → ℤ → ℤ
unfolding scale wrap32 quot
raw_to_mdps fs raw = quot (wrap32 (scale raw (gy_sens fs))) 1000

-- `250 + ((int32_t)raw * 10) / 256`, in tenths of a degree; this product always fits.
unfoldable pub raw_to_temp : ℤ → ℤ
unfolding scale quot add_to
raw_to_temp raw = add_to 250 (quot (scale raw 10) 256)

-- `INT32_MIN`
abbrev pub no_temp : ℤ
no_temp = negsuc (2 ^ 31 - 1)

pub record Axes : Type 0 where
  pub x : ℤ
  pub y : ℤ
  pub z : ℤ

pub record Sample : Type 0 where
  pub accel : Axes
  pub gyro : Axes

-- Three readings from the byte `i` on.
unfoldable pub axes_at : (ℤ → ℤ) → List ℕ → (i : ℕ) → Axes
unfolding raw_at
axes_at convert buf i = record {
  x = convert (raw_at buf i);
  y = convert (raw_at buf (i + 2));
  z = convert (raw_at buf (i + 4));
}

-- One set of the FIFO: three words of the gyroscope, then three of the accelerometer.
unfoldable pub sample_of : XlFs → GyFs → List ℕ → Sample
unfolding axes_at raw_to_mg raw_to_mdps
sample_of xl gy raw = record {
  accel = axes_at (raw_to_mg xl) raw 6;
  gyro = axes_at (raw_to_mdps gy) raw 0;
}
