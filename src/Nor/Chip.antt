-- ===== src/Nor/Chip.antt =====
-- The driver over a chip that does what its data sheet says.
use mathlib.Core.Path.{subst}
use anbo_mos.Common.{
  ℕ, zero, suc, ◌+◌, ◌/◌, ◌%◌, ◌≤◌, ◌<◌, true, false, some, List, ◌≡◌, ◌≢◌, refl, ap, sym, ◌∙◌, ◌⊎◌,
  inl, inr, arith, Bool-cases, Option-cases, length, get_or, ltb, sub32,
}
use anbo_mos.Common.Io.{Io, >>=-eq-some}
use anbo_mos.Nvm.{Geometry}
use anbo_mos.Nvm.External.Chunks.{IsOspi}
use anbo_mos.Nor.{
  OspiHal, rdsr, pp, read_data, reading, at_addr, ospi_timeout, is_idle, ospi_read_reg,
  ospi_write_enable, wait_loop, ospi_wait_ready, start_program, start_erase, then_wait, ospi_read,
  nor_bus, succeeded,
}
use anbo_mos.Nor.Sheet.{Chip, sector_size, IsChip, shown}

false-ne_true : false ≢ true
false-ne_true e = cc

module _ {ℓ} {Mem : Type ℓ} (hal : OspiHal Mem) {chip : Mem → Chip} (size : ℕ)
    (v : IsChip hal chip size) where
  poll-chip :
      (m m' : Mem) (sr : List ℕ)
      → ospi_read_reg hal rdsr 1 m ≡ (some sr, m')
      → ((chip m').cells ≡ (chip m).cells) × (is_idle sr ≡ true → (chip m').busy ≡ false)
  unfolding ospi_read_reg
  poll-chip m m' sr e =
      let (u, m1, asked, e1) = >>=-eq-some (hal.command (reading rdsr 1) ospi_timeout) _ m e in
      let (same, idle) = v.status m m1 m' sr asked e1 in (same, λ h. idle (ground arith))

  -- The waiting ends well only when the chip is idle, and changes no byte.
  wait_loop-Idle :
      (n t0 t : ℕ) (m0 m m' : Mem)
      → succeeded m0 (wait_loop hal n t0 t m) ≡ (true, m')
      → ((chip m').busy ≡ false) × ((chip m').cells ≡ (chip m).cells)
  unfolding wait_loop
  wait_loop-Idle zero t0 t m0 m m' e = cc
  wait_loop-Idle (suc n) t0 t m0 m m' e =
      let r = ospi_read_reg hal rdsr 1 m in
      elim (Option-cases r.0) [
        | inl failed ↦ absurd (false-ne_true (ap (λ p. p.0) (rw (failed, wait_loop) at e)))
        | inr (sr, got) ↦
            let (same, idle) = poll-chip m r.1 sr (ap (λ o. (o, r.1)) got) in
            elim (Bool-cases (is_idle sr)) [
              | inl now ↦
                  let last : r.1 ≡ m' = ap (λ p. p.1) (rw (got, now, wait_loop) at e) in
                  subst (λ w. ((chip w).busy ≡ false) × ((chip w).cells ≡ (chip m).cells)) last
                    (idle now, same)
              | inr later ↦ elim (Bool-cases (ltb t (sub32 (hal.get_tick r.1) t0))) [
                | inl over ↦
                    absurd (false-ne_true (ap (λ p. p.0) (rw (got, later, over, wait_loop) at e)))
                | inr more ↦
                    let (ready, kept) =
                      wait_loop-Idle n t0 t m0 r.1 m' (rw (got, later, more, wait_loop) at e) in
                    (ready, kept ∙ same)
              ]
            ]
      ]

  start_program-chip :
      (m m' : Mem) (a : ℕ) (bytes : List ℕ)
      → (chip m).busy ≡ false
      → a % 256 + length bytes ≤ 256
      → a + length bytes ≤ size
      → start_program hal a bytes m ≡ (some tt, m')
      → ((k : ℕ)
          → k < length bytes
          → (chip m).cells (a + k) ≡ 255
          → (chip m').cells (a + k) ≡ get_or bytes k 0)
        × ((b : ℕ) → (b < a) ⊎ (a + length bytes ≤ b) → (chip m').cells b ≡ (chip m).cells b)
  unfolding start_program
  start_program-chip m m' a bytes idle within fits e =
      let (u, m1, on, e1) = >>=-eq-some (ospi_write_enable hal) _ m e in
      let (u', m2, sent, e2) =
        >>=-eq-some (hal.command (at_addr pp a (some (length bytes))) ospi_timeout) _ m1 e1 in
      let now = v.enables m m1 idle on in
      let (here, apart) =
        v.programs m1 m2 m' a bytes (ap (λ c. c.busy) now ∙ idle) (ap (λ c. c.enabled) now) within
          fits sent e2 in
      let cells = ap (λ c. c.cells) now in
      (
        λ k h clean. here k h (ap (λ f. f (a + k)) cells ∙ clean),
        λ b out. apart b out ∙ ap (λ f. f b) cells,
      )

  start_erase-chip :
      (m m' : Mem) (a : ℕ)
      → (chip m).busy ≡ false
      → a < size
      → start_erase hal a m ≡ (some tt, m')
      → (b : ℕ)
      → (b / sector_size ≡ a / sector_size → (chip m').cells b ≡ 255)
        × (b / sector_size ≢ a / sector_size → (chip m').cells b ≡ (chip m).cells b)
  unfolding start_erase
  start_erase-chip m m' a idle fits e b =
      let (u, m1, on, sent) = >>=-eq-some (ospi_write_enable hal) _ m e in
      let now = v.enables m m1 idle on in
      let (inside, outside) =
        v.erases m1 m' a (ap (λ c. c.busy) now ∙ idle) (ap (λ c. c.enabled) now) fits sent b in
      (inside, λ ne. outside ne ∙ ap (λ c. c.cells b) now)

  -- Calls with the waiting for their end, in parts.
  then_wait-Idle :
      (c : Io Mem (Unit {0})) (n t : ℕ) (m m' : Mem)
      → succeeded m (then_wait hal c n t m) ≡ (true, m')
      → (m1 : Mem) × (c m ≡ (some tt, m1))
        × ((chip m').busy ≡ false)
        × ((chip m').cells ≡ (chip m1).cells)
  unfolding then_wait ospi_wait_ready
  then_wait-Idle c n t m m' e = elim (Option-cases (c m).0) [
    | inl failed ↦ absurd (false-ne_true (ap (λ p. p.0) (rw (failed, then_wait) at e)))
    | inr (u, went) ↦
        let (ready, same) =
          wait_loop-Idle n (hal.get_tick (c m).1) t m (c m).1 m' (rw (went, then_wait) at e) in
        ((c m).1, ap (λ o. (o, (c m).1)) went, ready, same)
  ]

  shown-idle : (m : Mem) (a : ℕ) → shown chip m a ≡ 255 → (chip m).busy ≡ false
  shown-idle m a e = ground arith

  shown-cells : (m : Mem) (a : ℕ) → (chip m).busy ≡ false → shown chip m a ≡ (chip m).cells a
  shown-cells m a idle = rw idle refl

  -- Over a chip that does what its data sheet says, for any bound of the rounds, a page program of the driver that reports success is
  -- what the chunks of the record store rely on: within a page, onto erased bytes, it leaves exactly
  -- the bytes given, and leaves all others alone, where a byte is what a reading of the idle chip
  -- shows.
  pub nor_bus-IsOspi : (g : Geometry) (n : ℕ) → IsOspi g (nor_bus hal n) (shown chip) size
  unfolding nor_bus
  nor_bus-IsOspi g n = record {
    programmed = λ m m' a bytes within fits more clean e k h.
        let idle = shown-idle m (a + 0) (clean 0 more) in
        let (m1, went, ready, same) = then_wait-Idle (start_program hal a bytes) n 50 m m' e in
        let (here, apart) = start_program-chip m m1 a bytes idle within fits went in
        shown-cells m' (a + k) ready
        ∙ ap (λ f. f (a + k)) same
        ∙ here k h (sym (shown-cells m (a + k) idle) ∙ clean k h);
    apart = λ m m' a b bytes within fits more clean e out.
        let idle = shown-idle m (a + 0) (clean 0 more) in
        let (m1, went, ready, same) = then_wait-Idle (start_program hal a bytes) n 50 m m' e in
        let (here, apart) = start_program-chip m m1 a bytes idle within fits went in
        shown-cells m' b ready ∙ ap (λ f. f b) same ∙ apart b out ∙ sym (shown-cells m b idle);
  }

  -- An erase of an idle chip that reports success leaves it idle, with every byte of the sector
  -- around the address erased and all the others as they were; a reading that succeeds then gives
  -- the bytes shown from its address on.
  pub sector_erase-shown :
      (n : ℕ) (m m' : Mem) (a : ℕ)
      → (chip m).busy ≡ false
      → a < size
      → (nor_bus hal n).sector_erase m a ≡ (true, m')
      → ((b : ℕ)
          → (b / sector_size ≡ a / sector_size → shown chip m' b ≡ 255)
            × (b / sector_size ≢ a / sector_size → shown chip m' b ≡ shown chip m b))
        × ((addr len : ℕ) (buf : List ℕ)
            → addr + len ≤ size
            → (nor_bus hal n).read m' addr len ≡ some buf
            → (length buf ≡ len) × ((k : ℕ) → k < len → get_or buf k 0 ≡ shown chip m' (addr + k)))
  unfolding nor_bus
  sector_erase-shown n m m' a idle fits e =
      let (m1, went, ready, same) = then_wait-Idle (start_erase hal a) n 500 m m' e in
      (
        λ b.
            let (inside, outside) = start_erase-chip m m1 a idle fits went b in
            let now = shown-cells m' b ready ∙ ap (λ f. f b) same in
            (λ h. now ∙ inside h, λ h. now ∙ outside h ∙ sym (shown-cells m b idle)),
        λ addr len buf h r.
            let m2 = (ospi_read hal addr len m').1 in
            let (u, m3, asked, got) =
              >>=-eq-some (hal.command (at_addr read_data addr (some len)) ospi_timeout) _ m'
                {m' = m2} (ap (λ o. (o, m2)) r) in
            let (long, eq) = v.reads m' m3 m2 addr len buf ready h asked got in
            (long, λ k l. eq k l ∙ sym (shown-cells m' (addr + k) ready)),
      )
