-- ===== src/I2c.antt =====
-- port/stm32l4s5/b_l4s5i_i2c_drv.c: blocking access to the registers of the sensors. The vendor's
-- functions are parameters; a call fails where they do not return HAL_OK.
use anbo_mos.Common.{ℕ, ◌*◌, ◌%◌, ◌^◌, List}
use anbo_mos.Common.Io.{Io, attempt, ◌>>◌}

-- The vendor's library: `HAL_I2C_Init`, the filters, `HAL_I2C_Mem_Write`, `HAL_I2C_Mem_Read`,
-- whose result is what the buffer holds, and `HAL_I2C_IsDeviceReady`.
pub record I2cHal {ℓ} (Mem : Type ℓ) : Type ℓ where
  pub hal_init : (timing : ℕ) → Io Mem (Unit {0})
  pub config_analog_filter : Io Mem (Unit {0})
  pub config_digital_filter : ℕ → Io Mem (Unit {0})
  pub mem_write : (addr reg : ℕ) → (bytes : List ℕ) → (timeout : ℕ) → Io Mem (Unit {0})
  pub mem_read : (addr reg len timeout : ℕ) → Io Mem (List ℕ)
  pub is_device_ready : (addr trials timeout : ℕ) → Io Mem (Unit {0})

-- What the drivers of the sensors use, at one address of the bus.
pub record Registers {ℓ} (Mem : Type ℓ) : Type ℓ where
  pub write_reg : (reg : ℕ) → (bytes : List ℕ) → Io Mem (Unit {0})
  pub read_reg : (reg len : ℕ) → Io Mem (List ℕ)
  pub is_ready : Io Mem (Unit {0})

abbrev pub i2c2_timeout : ℕ
i2c2_timeout = 100

module _ {ℓ} {Mem : Type ℓ} (hal : I2cHal Mem) where
  -- `BSP_I2C2_Init`, less the set-up of clocks and pins.
  unfoldable pub i2c2_init : Io Mem (Unit {0})
  i2c2_init = do
    hal.hal_init 0x00702991
    attempt hal.config_analog_filter
    attempt (hal.config_digital_filter 0)

  -- `(uint16_t)(dev_addr << 1u)`
  abbrev pub bus_addr : ℕ → ℕ
  bus_addr dev_addr = dev_addr * 2 % 2 ^ 16

  unfoldable pub i2c2_write_reg : (dev_addr reg : ℕ) → List ℕ → Io Mem (Unit {0})
  i2c2_write_reg dev_addr reg bytes = hal.mem_write (bus_addr dev_addr) reg bytes i2c2_timeout

  unfoldable pub i2c2_read_reg : (dev_addr reg len : ℕ) → Io Mem (List ℕ)
  i2c2_read_reg dev_addr reg len = hal.mem_read (bus_addr dev_addr) reg len i2c2_timeout

  unfoldable pub i2c2_is_ready : (dev_addr : ℕ) → Io Mem (Unit {0})
  i2c2_is_ready dev_addr = hal.is_device_ready (bus_addr dev_addr) 3 i2c2_timeout

  unfoldable pub registers : (dev_addr : ℕ) → Registers Mem
  unfolding i2c2_write_reg i2c2_read_reg i2c2_is_ready
  registers dev_addr = record {
    write_reg = i2c2_write_reg dev_addr;
    read_reg = i2c2_read_reg dev_addr;
    is_ready = i2c2_is_ready dev_addr;
  }
