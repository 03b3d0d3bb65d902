-- ===== src/Imu/Fifo.antt =====
-- The driver reads the sensor's FIFO in whole sets, oldest first.
use anbo_mos.Common.{ℕ, ◌+◌, ◌*◌, ◌/◌, ◌%◌, ◌^◌, ◌≤◌, some, List, [], ◌∷◌, ◌≡◌, length, take, drop}
use anbo_mos.I2c.{Registers}
use anbo_mos.Imu.{Imu}
use anbo_mos.Imu.Scale.{byte}
use anbo_mos.Imu.Regs.{address, fifo_status1, fifo_data_out_l}

-- The low byte of each word comes first.
abbrev pub bytes_of : List ℕ → List ℕ
bytes_of [] = []
bytes_of (w ∷ ws) = w % 2 ^ 8 ∷ w / 2 ^ 8 ∷ bytes_of ws

-- What the data sheet says of the FIFO, which holds `words`: the status registers tell how many,
-- and a burst of twelve bytes takes six words out.
pub record IsFifo {ℓ} {Mem : Type ℓ} (dev : Registers Mem) (words : Mem → List ℕ) : Type ℓ where
  pub level : Mem → List ℕ
  pub status :
      (m : Mem)
      → (m' : Mem) × (dev.read_reg (address fifo_status1) 2 m ≡ (some (level m), m'))
        × (words m' ≡ words m)
  pub counts :
      (m : Mem) → byte (level m) 0 + byte (level m) 1 % 2 ^ 3 * 2 ^ 8 ≡ length (words m) % 2 ^ 11
  pub burst :
      (m : Mem)
      → 6 ≤ length (words m)
      → (m' : Mem) × (dev.read_reg (address fifo_data_out_l) 12 m
          ≡ (some (bytes_of (take 6 (words m))), m'))
        × (words m' ≡ drop 6 (words m))
