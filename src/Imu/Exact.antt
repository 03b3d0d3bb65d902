-- ===== src/Imu/Exact.antt =====
-- When the conversions of the driver give the physical value.
use native.Mathlib.Decide.{dec_lt}
use anbo_mos.Common.{
  ℕ, ◌+◌, ◌*◌, ◌^◌, ◌≤◌, ◌<◌, Bool, true, false, none, List, ◌≡◌, ◌↔◌, ◌≢◌, refl, inl, inr,
  Option-cases, arith,
}
use anbo_mos.Common.Int.{ℤ, pos, negsuc, magnitude, wrap32, scale, quot}
use anbo_mos.I2c.{Registers}
use anbo_mos.Imu.{Imu, reg_read_multi, read_temp}
use anbo_mos.Imu.Regs.{out_temp_l}
use anbo_mos.Imu.Scale.{
  XlFs, xl_2g, xl_4g, xl_8g, xl_16g, GyFs, gy_250dps, gy_500dps, gy_1000dps, gy_2000dps, xl_sens,
  gy_sens, raw_at, raw_to_mg, raw_to_mdps, raw_to_temp, no_temp,
}

abbrev pub is_neg : ℤ → Bool
is_neg (pos n) = false
is_neg (negsuc n) = true

-- `out` is `raw` times `sens` thousandths, cut to an integer towards zero.
pub record IsScaled (sens : ℕ) (raw out : ℤ) : Type 0 where
  pub below : magnitude out * 1000 ≤ magnitude raw * sens
  pub above : magnitude raw * sens < magnitude out * 1000 + 1000
  pub sign : 0 < magnitude out → is_neg out ≡ is_neg raw

-- The values of an `int16_t`.
abbrev pub Is16 : ℤ → Type 0
Is16 (pos n) = n < 2 ^ 15
Is16 (negsuc n) = n < 2 ^ 15

-- Whatever the bytes, a reading is an `int16_t`.
raw_at-Is16 : (buf : List ℕ) (i : ℕ) → Is16 (raw_at buf i)
unfolding raw_at
raw_at-Is16 buf i = ground arith

-- The two conversions, at any sensitivity.
abbrev convert_at : ℕ → ℤ → ℤ
convert_at sens raw = quot (wrap32 (scale raw sens)) 1000

convert_at-IsScaled :
    (sens : ℕ) (raw : ℤ) → magnitude raw * sens < 2 ^ 31 → IsScaled sens raw (convert_at sens raw)
unfolding scale wrap32 quot
convert_at-IsScaled sens (pos n) h = ground arith
convert_at-IsScaled sens (negsuc n) h = ground arith

-- A product that does not fit comes out with the other sign, or too small.
convert_overflows :
    (sens : ℕ) (raw : ℤ)
    → 2 ^ 31 < magnitude raw * sens
    → magnitude raw * sens < 2 ^ 32
    → IsScaled sens raw (convert_at sens raw)
    → ⊥
unfolding scale wrap32 quot
convert_overflows sens (pos n) lo hi e = ground (arith, e.below, e.above, e.sign)
convert_overflows sens (negsuc n) lo hi e = ground (arith, e.below, e.above, e.sign)

Is16-magnitude : (raw : ℤ) → Is16 raw → magnitude raw ≤ 2 ^ 15
Is16-magnitude (pos n) h = omega arith
Is16-magnitude (negsuc n) h = omega arith

xl_product-lt : (fs : XlFs) (raw : ℤ) → Is16 raw → magnitude raw * xl_sens fs < 2 ^ 31
xl_product-lt xl_2g raw h = omega (arith, Is16-magnitude raw h)
xl_product-lt xl_4g raw h = omega (arith, Is16-magnitude raw h)
xl_product-lt xl_8g raw h = omega (arith, Is16-magnitude raw h)
xl_product-lt xl_16g raw h = omega (arith, Is16-magnitude raw h)

gy_product-lt :
    (fs : GyFs) (raw : ℤ)
    → Is16 raw
    → (magnitude raw * gy_sens fs < 2 ^ 32) × (magnitude raw * gy_sens fs ≢ 2 ^ 31)
gy_product-lt gy_250dps raw h = omega (arith, Is16-magnitude raw h)
gy_product-lt gy_500dps raw h = omega (arith, Is16-magnitude raw h)
gy_product-lt gy_1000dps raw h = omega (arith, Is16-magnitude raw h)
gy_product-lt gy_2000dps raw h = omega (arith, Is16-magnitude raw h)

pub raw_to_mg-IsScaled :
    (fs : XlFs) (raw : ℤ) → Is16 raw → IsScaled (xl_sens fs) raw (raw_to_mg fs raw)
unfolding raw_to_mg
raw_to_mg-IsScaled fs raw h = convert_at-IsScaled (xl_sens fs) raw (xl_product-lt fs raw h)

-- For a reading of 16 bits the rate in mdps is the reading times its sensitivity, cut towards zero,
-- exactly if the product of the two is below 2 ^ 31.
pub raw_to_mdps-IsScaled_iff :
    (fs : GyFs) (raw : ℤ)
    → Is16 raw
    → IsScaled (gy_sens fs) raw (raw_to_mdps fs raw) ↔ magnitude raw * gy_sens fs < 2 ^ 31
unfolding raw_to_mdps
raw_to_mdps-IsScaled_iff fs raw h =
    let (small, odd) = gy_product-lt fs raw h in
    (
      λ e. elim (dec_lt (magnitude raw * gy_sens fs) (2 ^ 31)) [
        | yes p ↦ p
        | no p ↦ absurd (convert_overflows (gy_sens fs) raw (omega arith) small e)
      ],
      convert_at-IsScaled (gy_sens fs) raw,
    )

raw_to_temp-ne : (raw : ℤ) → Is16 raw → raw_to_temp raw ≢ no_temp
unfolding raw_to_temp
raw_to_temp-ne (pos n) h = ground arith
raw_to_temp-ne (negsuc n) h = ground arith

-- `BSP_IMU_ReadTemp` returns INT32_MIN, its sign of an error, exactly if the registers could not be
-- read, whatever the bytes of a successful reading.
pub read_temp-fails_iff {ℓ} :
    {Mem : Type ℓ} (dev : Registers Mem) (s : Imu Mem)
    → ((read_temp dev s).0 ≡ no_temp) ↔ ((reg_read_multi dev out_temp_l 2 s).0 ≡ none)
unfolding read_temp
read_temp-fails_iff dev s = elim (Option-cases (reg_read_multi dev out_temp_l 2 s).0) [
  | inl e ↦ (λ _. e, λ _. rw (e, read_temp) refl)
  | inr (buf, e) ↦ (
    λ t. absurd (raw_to_temp-ne (raw_at buf 0) (raw_at-Is16 buf 0) (rw (e, read_temp) at t)),
    λ t. cc,
  )
]
