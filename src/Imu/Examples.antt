-- ===== src/Imu/Examples.antt =====
-- A sensor of registers and a FIFO, and runs of the driver on it.
use anbo_mos.Common.{
  ℕ, ◌+◌, ◌*◌, ◌/◌, ◌%◌, ◌^◌, ◌<◌, ◌≤◌, ◌&&◌, Option, none, some, List, [], ◌∷◌, ◌≡◌, ◌↔◌, refl, ap,
  sym, ◌∙◌, arith, length, take, drop, ◌==◌, if◌then◌else◌,
}
use anbo_mos.Common.Io.{Io}
use anbo_mos.Common.Int.{pos, negsuc}
use anbo_mos.I2c.{Registers}
use anbo_mos.Imu.{Imu, init, reg_read_multi, read_temp, config_wakeup}
use anbo_mos.Imu.Scale.{xl_4g, gy_500dps, gy_2000dps, xl_2g, raw_to_mg, raw_to_mdps, no_temp}
use anbo_mos.Imu.Regs.{out_temp_l, odr_104hz, odr_208hz}
use anbo_mos.Imu.Exact.{IsScaled, raw_to_mg-IsScaled, raw_to_mdps-IsScaled_iff, read_temp-fails_iff}
use anbo_mos.Imu.Fifo.{bytes_of}
use anbo_mos.Imu.Setup.{
  IsRegs, IsConfigured, IsCollecting, threshold, set_reg, init-IsConfigured, init-threshold_iff,
}

record Sensor : Type 0 where
  pub regs : ℕ → ℕ
  pub fifo : List ℕ

-- A reset is over at once.
abbrev stored : ℕ → ℕ → ℕ
stored r v = if (r == 0x12) && (v % 2 == 1) then 0 else v

abbrev sensor_write : ℕ → List ℕ → Io Sensor (Unit {0})
sensor_write r [] m = (none, m)
sensor_write r (v ∷ vs) m = (some tt, record m { regs = set_reg m.regs r (stored r v) })

abbrev status_bytes : ℕ → List ℕ
status_bytes n = n % 2 ^ 8 ∷ n / 2 ^ 8 ∷ []

abbrev sensor_read : ℕ → ℕ → Io Sensor (List ℕ)
sensor_read r len m =
    if r == 0x3a
    then (some (status_bytes (length m.fifo)), m)
    else if r == 0x3e
    then (some (bytes_of (take 6 m.fifo)), record m { fifo = drop 6 m.fifo })
    else (some (take len (m.regs r ∷ m.regs (r + 1) ∷ [])), m)

abbrev sensor : Registers Sensor
sensor = record { write_reg = sensor_write; read_reg = sensor_read; is_ready = λ m. (some tt, m) }

sensor-IsRegs : IsRegs sensor (λ m. m.regs)
sensor-IsRegs = record {
  written = λ r v m m' h e q.
      let keeps : stored r v ≡ v = rw h refl in
      sym (ap (λ p. p.1.regs q) e) ∙ ap (λ w. set_reg m.regs r w q) keeps;
}

abbrev at_start : Imu Sensor
at_start = record {
  xl_fs = xl_2g;
  gy_fs = gy_2000dps;
  bus = record {
    regs = λ r. if r == 0x0f then 0x6a else 0;
    fifo = 100 ∷ 200 ∷ 65535 ∷ 1000 ∷ 2000 ∷ 64536 ∷ 1 ∷ 2 ∷ 3 ∷ 4 ∷ 5 ∷ 6 ∷ 7 ∷ [];
  };
}

abbrev configured : Option (Unit {0}) × Imu Sensor
configured = init sensor odr_104hz xl_4g odr_208hz gy_500dps 300 at_start

abbrev overdone : Imu Sensor
overdone = (init sensor odr_104hz xl_4g odr_208hz gy_500dps 342 at_start).1

-- A watermark of 342 sets is a threshold of four words.
threshold_342 : threshold (λ m. m.regs) overdone ≡ 4
unfolding init
threshold_342 = refl

-- A full turn to the one side reads as a turn to the other.
turns_back : raw_to_mdps gy_2000dps (pos 30679) ≡ negsuc 2147436
unfolding raw_to_mdps
turns_back = refl

wakes_at_2g : (config_wakeup sensor 32 at_start).1.bus.regs 0x5b ≡ 32
unfolding config_wakeup
wakes_at_2g = refl

raw_to_mg-IsScaled_example : IsScaled 122 (negsuc 16383) (raw_to_mg xl_4g (negsuc 16383))
raw_to_mg-IsScaled_example = raw_to_mg-IsScaled xl_4g (negsuc 16383) (omega arith)

raw_to_mdps-IsScaled_iff_example :
    IsScaled 70000 (pos 30678) (raw_to_mdps gy_2000dps (pos 30678)) ↔ 30678 * 70000 < 2 ^ 31
raw_to_mdps-IsScaled_iff_example = raw_to_mdps-IsScaled_iff gy_2000dps (pos 30678) (omega arith)

read_temp-fails_iff_example :
    ((read_temp sensor at_start).0 ≡ no_temp)
    ↔ ((reg_read_multi sensor out_temp_l 2 at_start).0 ≡ none)
read_temp-fails_iff_example = read_temp-fails_iff sensor at_start

init-IsConfigured_example :
    IsConfigured (λ m. m.regs) odr_104hz xl_4g odr_208hz gy_500dps configured.1
unfolding init
init-IsConfigured_example =
    init-IsConfigured sensor sensor-IsRegs odr_104hz xl_4g odr_208hz gy_500dps 300 at_start
      configured.1 refl

init-threshold_iff_example :
    IsCollecting (λ m. m.regs) 5 configured.1
    × (threshold (λ m. m.regs) configured.1 ≡ 1800 ↔ 300 ≤ 341)
unfolding init
init-threshold_iff_example =
    init-threshold_iff sensor sensor-IsRegs odr_104hz xl_4g odr_208hz gy_500dps 300 at_start
      configured.1 refl (omega arith) (omega arith)
