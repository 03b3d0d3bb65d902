-- ===== src/Imu/Samples.antt =====
-- The values that the words of the sensor's FIFO stand for.
use mathlib.Core.Path.{subst}
use anbo_mos.Common.{
  ℕ, zero, suc, ◌+◌, ◌*◌, ◌/◌, ◌^◌, ◌<◌, List, [], ◌∷◌, ◌≡◌, ◌↔◌, refl, ap, arith, length, get_or,
  drop,
}
use anbo_mos.Common.Int.{ℤ, signed, magnitude}
use anbo_mos.Imu.Exact.{IsScaled, Is16, raw_to_mg-IsScaled, raw_to_mdps-IsScaled_iff}
use anbo_mos.Imu.Scale.{
  XlFs, xl_2g, xl_4g, xl_8g, xl_16g, GyFs, gy_250dps, gy_500dps, gy_1000dps, gy_2000dps, xl_sens,
  gy_sens, raw_to_mg, raw_to_mdps, Axes, Sample,
}

-- What the driver makes of three words from the word `i` on.
abbrev pub axes_of : (ℤ → ℤ) → List ℕ → ℕ → Axes
axes_of convert ws i = record {
  x = convert (signed (2 ^ 15) (get_or ws i 0));
  y = convert (signed (2 ^ 15) (get_or ws (i + 1) 0));
  z = convert (signed (2 ^ 15) (get_or ws (i + 2) 0));
}

-- The first `n` sets of six words: gyroscope, then accelerometer.
abbrev pub sets_of : XlFs → GyFs → (n : ℕ) → List ℕ → List Sample
sets_of xl gy zero ws = []
sets_of xl gy (suc n) ws =
    record { accel = axes_of (raw_to_mg xl) ws 3; gyro = axes_of (raw_to_mdps gy) ws 0 }
    ∷ sets_of xl gy n (drop 6 ws)

-- The data sheet: a unit of the reading is 0.061 mg for each 2 g of the range of the accelerometer,
-- and 35 microdegrees per second for each degree per second of that of the gyroscope.
abbrev pub xl_unit : XlFs → ℕ
xl_unit xl_2g = 61 * (2 / 2)
xl_unit xl_4g = 61 * (4 / 2)
xl_unit xl_8g = 61 * (8 / 2)
xl_unit xl_16g = 61 * (16 / 2)

abbrev pub gy_unit : GyFs → ℕ
gy_unit gy_250dps = 35 * 250
gy_unit gy_500dps = 35 * 500
gy_unit gy_1000dps = 35 * 1000
gy_unit gy_2000dps = 35 * 2000

-- `out` is the value of the word `w`, a signed reading in `unit` thousandths, cut towards zero.
abbrev pub IsValue : (unit w : ℕ) → ℤ → Type 0
IsValue unit w out = IsScaled unit (signed (2 ^ 15) w) out

-- It is so exactly if the product of the two fits an `int32_t`.
abbrev pub FitsValue : (unit w : ℕ) → ℤ → Type 0
FitsValue unit w out = IsValue unit w out ↔ magnitude (signed (2 ^ 15) w) * unit < 2 ^ 31

-- One sample is the values of six words: gyroscope, then accelerometer.
pub record IsSample (xl : XlFs) (gy : GyFs) (ws : List ℕ) (out : Sample) : Type 0 where
  pub gyro_x : FitsValue (gy_unit gy) (get_or ws 0 0) (out.gyro.x)
  pub gyro_y : FitsValue (gy_unit gy) (get_or ws 1 0) (out.gyro.y)
  pub gyro_z : FitsValue (gy_unit gy) (get_or ws 2 0) (out.gyro.z)
  pub accel_x : IsValue (xl_unit xl) (get_or ws 3 0) (out.accel.x)
  pub accel_y : IsValue (xl_unit xl) (get_or ws 4 0) (out.accel.y)
  pub accel_z : IsValue (xl_unit xl) (get_or ws 5 0) (out.accel.z)

-- The samples are those of the words, six for each, from the oldest on.
abbrev pub AreSamples : XlFs → GyFs → (ws : List ℕ) → List Sample → Type 0
AreSamples xl gy ws [] = Unit
AreSamples xl gy ws (out ∷ outs) = IsSample xl gy ws out × AreSamples xl gy (drop 6 ws) outs

xl_unit-sens : (fs : XlFs) → xl_sens fs ≡ xl_unit fs
xl_unit-sens xl_2g = refl
xl_unit-sens xl_4g = refl
xl_unit-sens xl_8g = refl
xl_unit-sens xl_16g = refl

gy_unit-sens : (fs : GyFs) → gy_sens fs ≡ gy_unit fs
gy_unit-sens gy_250dps = refl
gy_unit-sens gy_500dps = refl
gy_unit-sens gy_1000dps = refl
gy_unit-sens gy_2000dps = refl

reading-Is16 : (w : ℕ) → w < 2 ^ 16 → Is16 (signed (2 ^ 15) w)
reading-Is16 w h = ground arith

raw_to_mg-IsValue :
    (fs : XlFs) (w : ℕ) → w < 2 ^ 16 → IsValue (xl_unit fs) w (raw_to_mg fs (signed (2 ^ 15) w))
raw_to_mg-IsValue fs w h =
    subst (λ u. IsValue u w (raw_to_mg fs (signed (2 ^ 15) w))) (xl_unit-sens fs)
      (raw_to_mg-IsScaled fs (signed (2 ^ 15) w) (reading-Is16 w h))

raw_to_mdps-FitsValue :
    (fs : GyFs) (w : ℕ) → w < 2 ^ 16 → FitsValue (gy_unit fs) w (raw_to_mdps fs (signed (2 ^ 15) w))
raw_to_mdps-FitsValue fs w h =
    subst (λ u. FitsValue u w (raw_to_mdps fs (signed (2 ^ 15) w))) (gy_unit-sens fs)
      (raw_to_mdps-IsScaled_iff fs (signed (2 ^ 15) w) (reading-Is16 w h))

get_or-drop : (n i : ℕ) (ws : List ℕ) → get_or (drop n ws) i 0 ≡ get_or ws (n + i) 0
get_or-drop zero i ws = ap (λ j. get_or ws j 0) (omega arith)
get_or-drop (suc n) i [] = refl
get_or-drop (suc n) i (w ∷ ws) =
    let next : suc n + i ≡ suc (n + i) = omega arith in rw next (get_or-drop n i ws)

pub sets_of-AreSamples :
    (xl : XlFs) (gy : GyFs) (n : ℕ) (ws : List ℕ)
    → ((i : ℕ) → get_or ws i 0 < 2 ^ 16)
    → AreSamples xl gy ws (sets_of xl gy n ws)
sets_of-AreSamples xl gy zero ws h = tt
sets_of-AreSamples xl gy (suc n) ws h = (
  record {
    gyro_x = raw_to_mdps-FitsValue gy (get_or ws 0 0) (h 0);
    gyro_y = raw_to_mdps-FitsValue gy (get_or ws 1 0) (h 1);
    gyro_z = raw_to_mdps-FitsValue gy (get_or ws 2 0) (h 2);
    accel_x = raw_to_mg-IsValue xl (get_or ws 3 0) (h 3);
    accel_y = raw_to_mg-IsValue xl (get_or ws 4 0) (h 4);
    accel_z = raw_to_mg-IsValue xl (get_or ws 5 0) (h 5);
  },
  sets_of-AreSamples xl gy n (drop 6 ws) λ i. rw (get_or-drop 6 i ws) (h (6 + i)),
)

pub length-sets_of : (xl : XlFs) (gy : GyFs) (n : ℕ) (ws : List ℕ) → length (sets_of xl gy n ws) ≡ n
length-sets_of xl gy zero ws = refl
length-sets_of xl gy (suc n) ws = omega (arith, length-sets_of xl gy n (drop 6 ws))
