-- ===== src/Nor/Sheet.antt =====
-- The chip, and what its data sheet says of the commands that the driver sends.
use anbo_mos.Common.{
  ℕ, ◌+◌, ◌/◌, ◌%◌, ◌≤◌, ◌<◌, Bool, true, false, none, some, List, ◌≡◌, ◌≢◌, ◌⊎◌, length, get_or,
  if◌then◌else◌,
}
use anbo_mos.Nor.{OspiHal, wren, rdsr, se, pp, read_data, plain, reading, at_addr, ospi_timeout}

-- The chip: its bytes, with those that a running operation is about to write, whether it accepts
-- such an operation, and whether one is running.
pub record Chip : Type 0 where
  pub cells : ℕ → ℕ
  pub enabled : Bool
  pub busy : Bool

abbrev pub sector_size : ℕ
sector_size = 4096

-- What the data sheet says, for exchanges that the bus completes. A chip that is not busy accepts
-- instructions, and starts to program or to erase only if it was enabled just before; the lowest bit
-- of the status is set while it is busy.
pub record IsChip {ℓ} {Mem : Type ℓ} (hal : OspiHal Mem) (chip : Mem → Chip) (size : ℕ)
    : Type ℓ where
  pub enables :
      (m m' : Mem)
      → (chip m).busy ≡ false
      → hal.command (plain wren) ospi_timeout m ≡ (some tt, m')
      → chip m' ≡ record (chip m) { enabled = true }
  pub status :
      (m m1 m' : Mem) (sr : List ℕ)
      → hal.command (reading rdsr 1) ospi_timeout m ≡ (some tt, m1)
      → hal.receive ospi_timeout m1 ≡ (some sr, m')
      → ((chip m').cells ≡ (chip m).cells) × (get_or sr 0 0 % 2 ≡ 0 → (chip m').busy ≡ false)
  pub programs :
      (m m1 m' : Mem) (a : ℕ) (bytes : List ℕ)
      → (chip m).busy ≡ false
      → (chip m).enabled ≡ true
      → a % 256 + length bytes ≤ 256
      → a + length bytes ≤ size
      → hal.command (at_addr pp a (some (length bytes))) ospi_timeout m ≡ (some tt, m1)
      → hal.transmit bytes ospi_timeout m1 ≡ (some tt, m')
      → ((k : ℕ)
          → k < length bytes
          → (chip m).cells (a + k) ≡ 255
          → (chip m').cells (a + k) ≡ get_or bytes k 0)
        × ((b : ℕ) → (b < a) ⊎ (a + length bytes ≤ b) → (chip m').cells b ≡ (chip m).cells b)
  pub erases :
      (m m' : Mem) (a : ℕ)
      → (chip m).busy ≡ false
      → (chip m).enabled ≡ true
      → a < size
      → hal.command (at_addr se a none) ospi_timeout m ≡ (some tt, m')
      → (b : ℕ)
      → (b / sector_size ≡ a / sector_size → (chip m').cells b ≡ 255)
        × (b / sector_size ≢ a / sector_size → (chip m').cells b ≡ (chip m).cells b)
  pub reads :
      (m m1 m' : Mem) (a len : ℕ) (buf : List ℕ)
      → (chip m).busy ≡ false
      → a + len ≤ size
      → hal.command (at_addr read_data a (some len)) ospi_timeout m ≡ (some tt, m1)
      → hal.receive ospi_timeout m1 ≡ (some buf, m')
      → (length buf ≡ len) × ((k : ℕ) → k < len → get_or buf k 0 ≡ (chip m).cells (a + k))

-- A byte as a reading shows it: a busy chip shows nothing.
abbrev pub shown {ℓ} : {Mem : Type ℓ} → (Mem → Chip) → Mem → ℕ → ℕ
shown chip m a = if (chip m).busy then 0 else (chip m).cells a
