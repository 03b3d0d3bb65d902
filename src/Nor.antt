-- ===== src/Nor.antt =====
-- port/stm32l4s5/b_l4s5i_ospi_drv.c: the driver of the external flash MX25R6435F. The vendor's
-- functions are parameters; a call fails where they do not return HAL_OK.
pub mod Wait
pub mod Sheet
pub mod Chip
mod Examples
use anbo_mos.Common.{
  ℕ, zero, suc, ◌-◌, ◌%◌, Bool, true, false, ◌&&◌, Option, none, some, List, ◌==◌, ltb, length,
  get_or, sub32,
}
use anbo_mos.Common.Io.{Io, guard, attempt, ◌>>=◌, ◌>>◌}
use anbo_mos.Nvm.External.{Ospi}

-- What varies in `OSPI_RegularCmdTypeDef`: all goes over one line, an address has 24 bits, and
-- `none` is `HAL_OSPI_ADDRESS_NONE` and `HAL_OSPI_DATA_NONE`.
pub record Command : Type 0 where
  pub instruction : ℕ
  pub address : Option ℕ
  pub nb_data : Option ℕ

-- The vendor's library: the clocks, `HAL_OSPI_Init`, `HAL_OSPIM_Config`, `HAL_OSPI_Command`,
-- `HAL_OSPI_Transmit`, `HAL_OSPI_Receive`, whose result is what the buffer holds, and
-- `HAL_GetTick`.
pub record OspiHal {ℓ} (Mem : Type ℓ) : Type ℓ where
  pub periph_clk_config : Io Mem (Unit {0})
  pub hal_init : Io Mem (Unit {0})
  pub ospim_config : (timeout : ℕ) → Io Mem (Unit {0})
  pub command : Command → (timeout : ℕ) → Io Mem (Unit {0})
  pub transmit : List ℕ → (timeout : ℕ) → Io Mem (Unit {0})
  pub receive : (timeout : ℕ) → Io Mem (List ℕ)
  pub get_tick : Mem → ℕ

-- The instructions of the chip.
pub data Instr : Type 0 where
  rdid wren rdsr se pp read_data rdp : Instr

abbrev pub opcode : Instr → ℕ
opcode rdid = 0x9f
opcode wren = 0x06
opcode rdsr = 0x05
opcode se = 0x20
opcode pp = 0x02
opcode read_data = 0x03
opcode rdp = 0xab

abbrev pub ospi_timeout : ℕ
ospi_timeout = 500

abbrev pub plain : Instr → Command
plain cmd = record { instruction = opcode cmd; address = none; nb_data = none }

abbrev pub reading : Instr → (len : ℕ) → Command
reading cmd len = record { instruction = opcode cmd; address = none; nb_data = some len }

abbrev pub at_addr : Instr → (addr : ℕ) → Option ℕ → Command
at_addr cmd addr len = record { instruction = opcode cmd; address = some addr; nb_data = len }

-- `id[0] == MX25R_JEDEC_MFR && ...`
abbrev pub jedec_ok : List ℕ → Bool
jedec_ok id = (get_or id 0 0 == 0xc2) && ((get_or id 1 0 == 0x28) && (get_or id 2 0 == 0x17))

-- `(sr & MX25R_SR_WIP) == 0u`
abbrev pub is_idle : List ℕ → Bool
is_idle sr = get_or sr 0 0 % 2 == 0

module _ {ℓ} {Mem : Type ℓ} (hal : OspiHal Mem) where
  unfoldable pub ospi_cmd_only : (cmd : Instr) → Io Mem (Unit {0})
  ospi_cmd_only cmd = hal.command (plain cmd) ospi_timeout

  unfoldable pub ospi_read_reg : (cmd : Instr) (len : ℕ) → Io Mem (List ℕ)
  ospi_read_reg cmd len = do hal.command (reading cmd len) ospi_timeout; hal.receive ospi_timeout

  unfoldable pub ospi_write_enable : Io Mem (Unit {0})
  unfolding ospi_cmd_only
  ospi_write_enable = ospi_cmd_only wren

  -- The loop of `ospi_wait_ready`, with `rounds` left; `none` if they run out.
  unfoldable pub wait_loop : (rounds t0 timeout_ms : ℕ) → Mem → Option (Option (Unit {0}) × Mem)
  unfolding ospi_read_reg
  wait_loop zero t0 timeout_ms m = none
  wait_loop (suc rounds) t0 timeout_ms m =
      let (r, m') = ospi_read_reg rdsr 1 m in
      elim r [
        | none ↦ some (none, m')
        | some sr ↦ elim (is_idle sr) [
          | true ↦ some (some tt, m')
          | false ↦ elim (ltb timeout_ms (sub32 (hal.get_tick m') t0)) [
            | true ↦ some (none, m')
            | false ↦ wait_loop rounds t0 timeout_ms m'
          ]
        ]
      ]

  unfoldable pub ospi_wait_ready : (rounds timeout_ms : ℕ) → Mem → Option (Option (Unit {0}) × Mem)
  unfolding wait_loop
  ospi_wait_ready rounds timeout_ms m = wait_loop rounds (hal.get_tick m) timeout_ms m

  -- Less the set-up of clocks and pins by registers, the delay after `MX25R_CMD_RDP`, and the log.
  unfoldable pub ospi_init : Io Mem (Unit {0})
  unfolding ospi_cmd_only ospi_read_reg
  ospi_init = do
    hal.periph_clk_config
    hal.hal_init
    hal.ospim_config ospi_timeout
    attempt (ospi_cmd_only rdp)
    id ← ospi_read_reg rdid 3
    guard (jedec_ok id)

  unfoldable pub ospi_read : (addr len : ℕ) → Io Mem (List ℕ)
  ospi_read addr len = do
    hal.command (at_addr read_data addr (some len)) ospi_timeout
    hal.receive ospi_timeout

  -- The calls before the waiting.
  unfoldable pub start_program : (addr : ℕ) → List ℕ → Io Mem (Unit {0})
  unfolding ospi_write_enable
  start_program addr bytes = do
    ospi_write_enable
    hal.command (at_addr pp addr (some (length bytes))) ospi_timeout
    hal.transmit bytes ospi_timeout

  unfoldable pub start_erase : (addr : ℕ) → Io Mem (Unit {0})
  unfolding ospi_write_enable
  start_erase addr = do ospi_write_enable; hal.command (at_addr se addr none) ospi_timeout

  -- Calls, and then the waiting for their end.
  unfoldable pub then_wait :
      Io Mem (Unit {0}) → (rounds timeout_ms : ℕ) → Mem → Option (Option (Unit {0}) × Mem)
  unfolding ospi_wait_ready
  then_wait c rounds timeout_ms m =
      let (r, m') = c m in
      elim r [ none ↦ some (none, m') | some u ↦ ospi_wait_ready rounds timeout_ms m' ]

  unfoldable pub ospi_page_program :
      (rounds addr : ℕ) → List ℕ → Mem → Option (Option (Unit {0}) × Mem)
  unfolding start_program then_wait
  ospi_page_program rounds addr bytes = then_wait (start_program addr bytes) rounds 50

  unfoldable pub ospi_sector_erase : (rounds addr : ℕ) → Mem → Option (Option (Unit {0}) × Mem)
  unfolding start_erase then_wait
  ospi_sector_erase rounds addr = then_wait (start_erase addr) rounds 500

-- The `bool` of the source.
abbrev pub succeeded {ℓ} : {Mem : Type ℓ} → Mem → Option (Option (Unit {0}) × Mem) → Bool × Mem
succeeded m none = (false, m)
succeeded m (some (none, m')) = (false, m')
succeeded m (some (some u, m')) = (true, m')

-- The driver as the record store uses it: a reading is a function of the memory, and the exchange with
-- the chip, which leaves its bytes alone, is not kept.
unfoldable pub nor_bus {ℓ} : {Mem : Type ℓ} → OspiHal Mem → (rounds : ℕ) → Ospi Mem
unfolding ospi_read ospi_page_program ospi_sector_erase
nor_bus hal rounds = record {
  read = λ m addr len. (ospi_read hal addr len m).0;
  page_program = λ m addr bytes. succeeded m (ospi_page_program hal rounds addr bytes m);
  sector_erase = λ m addr. succeeded m (ospi_sector_erase hal rounds addr m);
}
