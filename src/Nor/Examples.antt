-- ===== src/Nor/Examples.antt =====
-- A chip that takes two looks at its status to program or to erase, and the driver over it.
use anbo_mos.Common.{
  ℕ, zero, suc, ◌+◌, ◌-◌, ◌*◌, ◌/◌, ◌%◌, ◌^◌, ◌≤◌, ◌<◌, Bool, true, false, not, ◌&&◌, Option, none,
  some, List, [], ◌∷◌, ◌≡◌, ◌≢◌, refl, ap, sym, ◌∙◌, arith, length, get_or, if◌then◌else◌, ◌==◌,
  ltb, leb,
}
use anbo_mos.Nvm.{Geometry}
use anbo_mos.Nvm.External.Chunks.{IsOspi}
use anbo_mos.Nor.{
  Command, OspiHal, plain, reading, at_addr, rdsr, pp, read_data, rdp, ospi_read_reg, ospi_init,
  ospi_wait_ready, nor_bus,
}
use anbo_mos.Nor.Wait.{IsTimed, ospi_wait_ready-Ends}
use anbo_mos.Nor.Sheet.{Chip, IsChip, shown}
use anbo_mos.Nor.Chip.{nor_bus-IsOspi, sector_erase-shown}

record Sim : Type 0 where
  pub cells : ℕ → ℕ
  pub enabled : Bool
  pub left : ℕ
  pub last : Command
  pub time : ℕ

abbrev addr_of : Option ℕ → ℕ
addr_of none = 0
addr_of (some a) = a

abbrev erased_around : (ℕ → ℕ) → ℕ → ℕ → ℕ
erased_around f a b = if b / 4096 == a / 4096 then 255 else f b

abbrev written_over : (ℕ → ℕ) → ℕ → List ℕ → ℕ → ℕ
written_over f a bytes b =
    if leb a b && ltb b (a + length bytes) then get_or bytes (b - a) 0 else f b

abbrev copied : (ℕ → ℕ) → (len a : ℕ) → List ℕ
copied f zero a = []
copied f (suc len) a = f a ∷ copied f len (a + 1)

abbrev sim_command : Command → Sim → Sim
sim_command c m =
    if c.instruction == 0x06
    then record m { enabled = true }
    else if c.instruction == 0x20
    then record m { cells = erased_around m.cells (addr_of c.address); enabled = false; left = 2 }
    else record m { last = c }

abbrev sim_transmit : List ℕ → Sim → Sim
sim_transmit bytes m = record m {
  cells = written_over m.cells (addr_of m.last.address) bytes;
  enabled = false;
  left = 2;
}

abbrev sim_answer : Sim → List ℕ
sim_answer m =
    if m.last.instruction == 0x05
    then (if m.left == 0 then 0 else 1) ∷ []
    else if m.last.instruction == 0x9f
    then 0xc2 ∷ 0x28 ∷ 0x17 ∷ []
    else copied m.cells (addr_of m.last.nb_data) (addr_of m.last.address)

abbrev sim_hal : OspiHal Sim
sim_hal = record {
  periph_clk_config = λ m. (some tt, m);
  hal_init = λ m. (some tt, m);
  ospim_config = λ t m. (some tt, m);
  command = λ c t m. (some tt, sim_command c m);
  transmit = λ bytes t m. (some tt, sim_transmit bytes m);
  receive = λ t m. (some (sim_answer m), record m { left = m.left - 1; time = m.time + 1 });
  get_tick = λ m. m.time % 2 ^ 32;
}

abbrev sim_chip : Sim → Chip
sim_chip m = record { cells = m.cells; enabled = m.enabled; busy = not (m.left == 0) }

sim-IsTimed : IsTimed sim_hal 1 (λ m. m.time)
unfolding ospi_read_reg
sim-IsTimed = record { ticks = λ m. omega arith; runs = omega arith; takes = λ m. omega arith }

copied-get : (f : ℕ → ℕ) (len a k : ℕ) → k < len → get_or (copied f len a) k 0 ≡ f (a + k)
copied-get f zero a k h = absurd (omega arith)
copied-get f (suc len) a zero h = ap f (omega arith)
copied-get f (suc len) a (suc k) h = copied-get f len (a + 1) k (omega arith) ∙ ap f (omega arith)

length-copied : (f : ℕ → ℕ) (len a : ℕ) → length (copied f len a) ≡ len
length-copied f zero a = refl
length-copied f (suc len) a = ap suc (length-copied f len (a + 1))

abbrev bytes_of : Option (List ℕ) → List ℕ
bytes_of none = []
bytes_of (some buf) = buf

sim-IsChip : IsChip sim_hal sim_chip (2 ^ 23)
sim-IsChip = record {
  enables = λ m m' idle e. sym (ap (λ p. sim_chip p.1) e);
  status = λ m m1 m' sr e e'.
      let both : sim_hal.receive 500 (sim_command (reading rdsr 1) m) ≡ (some sr, m') =
        ap (λ p. sim_hal.receive 500 p.1) e ∙ e' in
      let bit : (if m.left == 0 then 0 else 1) ≡ get_or sr 0 0 =
        ap (λ p. get_or (bytes_of p.0) 0 0) both in
      let rest : m.left - 1 ≡ m'.left = ap (λ p. p.1.left) both in
      (sym (ap (λ p. p.1.cells) both), λ h. ground arith);
  programs = λ m m1 m' a bytes idle on within fits e e'.
      let both : sim_hal.transmit bytes 500 (sim_command (at_addr pp a (some (length bytes))) m)
          ≡ (some tt, m') =
        ap (λ p. sim_hal.transmit bytes 500 p.1) e ∙ e' in
      (
        λ k h clean.
            sym (ap (λ p. p.1.cells (a + k)) both)
            ∙ (let inside : (leb a (a + k) && ltb (a + k) (a + length bytes)) ≡ true =
                  ground arith in
                rw inside (ap (λ j. get_or bytes j 0) (omega arith))),
        λ b out.
            sym (ap (λ p. p.1.cells b) both)
            ∙ (let outside : (leb a b && ltb b (a + length bytes)) ≡ false = ground arith in
                rw outside refl),
      );
  erases = λ m m' a idle on fits e b.
      let now : erased_around m.cells a b ≡ m'.cells b = ap (λ p. p.1.cells b) e in
      (λ same. ground arith, λ apart. ground arith);
  reads = λ m m1 m' a len buf idle fits e e'.
      let both : sim_hal.receive 500 (sim_command (at_addr read_data a (some len)) m)
          ≡ (some buf, m') =
        ap (λ p. sim_hal.receive 500 p.1) e ∙ e' in
      let got : copied m.cells len a ≡ buf = ap (λ p. bytes_of p.0) both in
      (
        sym (ap (λ l. length l) got) ∙ length-copied m.cells len a,
        λ k h. sym (ap (λ l. get_or l k 0) got) ∙ copied-get m.cells len a k h,
      );
}

abbrev at_start : Sim
at_start = record {
  cells = λ a. if ltb a 8 then a else 255;
  enabled = false;
  left = 0;
  last = plain rdp;
  time = 7;
}

finds_the_chip : (ospi_init sim_hal at_start).0 ≡ some tt
unfolding ospi_init
finds_the_chip = refl

programs_a_byte : ((nor_bus sim_hal 5).page_program at_start 9 (42 ∷ [])).0 ≡ true
unfolding nor_bus
programs_a_byte = refl

abbrev erased : Sim
erased = ((nor_bus sim_hal 5).sector_erase at_start 5).1

abbrev records : Geometry
records = record { first_addr = 8192; page_size = 4096; num_pages = 2; rec_size = 64 }

nor_bus-IsOspi_example : IsOspi records (nor_bus sim_hal 5) (shown sim_chip) (2 ^ 23)
nor_bus-IsOspi_example = nor_bus-IsOspi sim_hal (2 ^ 23) sim-IsChip records 5

sector_erase-shown_example :
    ((b : ℕ)
      → (b / 4096 ≡ 0 → shown sim_chip erased b ≡ 255)
        × (b / 4096 ≢ 0 → shown sim_chip erased b ≡ shown sim_chip at_start b))
    × ((addr len : ℕ) (buf : List ℕ)
        → addr + len ≤ 2 ^ 23
        → (nor_bus sim_hal 5).read erased addr len ≡ some buf
        → (length buf ≡ len)
          × ((k : ℕ) → k < len → get_or buf k 0 ≡ shown sim_chip erased (addr + k)))
unfolding nor_bus
sector_erase-shown_example =
    sector_erase-shown sim_hal (2 ^ 23) sim-IsChip 5 at_start erased 5 refl (omega arith) refl

ospi_wait_ready-Ends_example :
    (r : Option (Unit {0})) × (m' : Sim) × (ospi_wait_ready sim_hal 51 50 at_start ≡ some (r, m'))
    × (m'.time ≤ at_start.time + (50 + 1001) * 1)
ospi_wait_ready-Ends_example =
    ospi_wait_ready-Ends sim_hal 1 (λ m. m.time) sim-IsTimed 50 51 at_start (omega arith)
      (omega arith)
