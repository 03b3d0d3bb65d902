-- ===== src/Imu/Setup.antt =====
-- What the registers of the sensor hold after its initialisation.
use mathlib.Core.Path.{fun_ext, subst}
use anbo_mos.Common.{
  ℕ, ◌+◌, ◌*◌, ◌/◌, ◌%◌, ◌^◌, ◌≤◌, ◌<◌, false, ◌&&◌, some, [], ◌∷◌, ◌≡◌, ◌↔◌, refl, ap, sym, ◌∙◌,
  arith, inl, inr, Bool-cases, ltb, lt→ltb, ◌==◌, if◌then◌else◌,
}
use anbo_mos.Common.Io.{Io, done, ◌>>◌, >>=-eq-some}
use anbo_mos.I2c.{Registers}
use anbo_mos.Imu.{Imu, reg_write, identify, config_fifo, wtm_words, fifo_odr, init}
use anbo_mos.Imu.Scale.{XlFs, GyFs, xl_fs_code, gy_fs_code}
use anbo_mos.Imu.Regs.{
  Reg, address, fifo_ctrl1, fifo_ctrl2, fifo_ctrl3, fifo_ctrl5, int1_ctrl, ctrl1_xl, ctrl2_g,
  ctrl3_c, Odr, odr_code, ctrl3_c_bdu_if_inc, fifo_ctrl3_dec_none, fifo_mode_continuous, int1_fth,
}

abbrev pub set_reg : (ℕ → ℕ) → ℕ → ℕ → ℕ → ℕ
set_reg f r v q = if r == q then v else f q

-- What the data sheet says of the registers: a byte written stays in its register, and no other
-- one changes. A write that starts a reset is not of this kind.
pub record IsRegs {ℓ} {Mem : Type ℓ} (dev : Registers Mem) (reg : Mem → ℕ → ℕ) : Type ℓ where
  pub written :
      (r v : ℕ) (m m' : Mem)
      → ((r == address ctrl3_c) && (v % 2 == 1)) ≡ false
      → dev.write_reg r (v ∷ []) m ≡ (some tt, m')
      → (q : ℕ) → reg m' q ≡ set_reg (reg m) r v q

-- The sensor measures at the given rates and in the given ranges, which the driver knows.
pub record IsConfigured {ℓ} {Mem : Type ℓ} (reg : Mem → ℕ → ℕ) (xl_odr : Odr) (xl : XlFs)
    (gy_odr : Odr) (gy : GyFs) (s : Imu Mem) : Type 0 where
  pub ctrl3 : reg s.bus (address ctrl3_c) ≡ ctrl3_c_bdu_if_inc
  pub xl_rate : reg s.bus (address ctrl1_xl) / 2 ^ 4 ≡ odr_code xl_odr
  pub xl_range : reg s.bus (address ctrl1_xl) / 2 ^ 2 % 2 ^ 2 ≡ xl_fs_code xl
  pub gy_rate : reg s.bus (address ctrl2_g) / 2 ^ 4 ≡ odr_code gy_odr
  pub gy_range : reg s.bus (address ctrl2_g) / 2 ^ 2 % 2 ^ 2 ≡ gy_fs_code gy
  pub xl_known : s.xl_fs ≡ xl
  pub gy_known : s.gy_fs ≡ gy

-- The FIFO collects, at the faster rate, and interrupt 1 tells of its threshold.
pub record IsCollecting {ℓ} {Mem : Type ℓ} (reg : Mem → ℕ → ℕ) (rate : ℕ) (s : Imu Mem)
    : Type 0 where
  pub decimation : reg s.bus (address fifo_ctrl3) ≡ fifo_ctrl3_dec_none
  pub mode : reg s.bus (address fifo_ctrl5) % 2 ^ 3 ≡ fifo_mode_continuous
  pub fifo_rate : reg s.bus (address fifo_ctrl5) / 2 ^ 3 ≡ rate
  pub routed : reg s.bus (address int1_ctrl) ≡ int1_fth

-- The threshold that the sensor uses, of eleven bits.
abbrev pub threshold {ℓ} : {Mem : Type ℓ} → (Mem → ℕ → ℕ) → Imu Mem → ℕ
threshold reg s = reg s.bus (address fifo_ctrl1) + reg s.bus (address fifo_ctrl2) % 2 ^ 3 * 2 ^ 8

odr_code-le : (o : Odr) → odr_code o ≤ 8
odr_code-le o = ground arith

fifo_odr-le : (xl_odr gy_odr : Odr) → fifo_odr xl_odr gy_odr ≤ 8
fifo_odr-le xl_odr gy_odr = ground (arith, odr_code-le xl_odr, odr_code-le gy_odr)

-- The words that the driver writes to the threshold's eleven bits.
threshold_words :
    (wtm : ℕ)
    → wtm < 2 ^ 16
    → (wtm_words wtm % 2 ^ 8 % 2 ^ 8 + wtm_words wtm / 2 ^ 8 % 2 ^ 3 % 2 ^ 8 % 2 ^ 3 * 2 ^ 8
        ≡ wtm * 6)
      ↔ wtm ≤ 341
unfolding wtm_words
threshold_words wtm h = (λ e. ground arith, λ e. ground arith)

xl_fs_code-le : (fs : XlFs) → xl_fs_code fs ≤ 3
xl_fs_code-le fs = ground arith

gy_fs_code-le : (fs : GyFs) → gy_fs_code fs ≤ 3
gy_fs_code-le fs = ground arith

-- The registers and the static variables after a successful call.
abbrev Kept {ℓ} : {Mem : Type ℓ} → (Mem → ℕ → ℕ) → (ℕ → ℕ) → Imu Mem → Imu Mem → Type 0
Kept reg regs s s' = (reg s'.bus ≡ regs) × (s'.xl_fs ≡ s.xl_fs) × (s'.gy_fs ≡ s.gy_fs)

module _ {ℓ} {Mem : Type ℓ} (dev : Registers Mem) {reg : Mem → ℕ → ℕ} (v : IsRegs dev reg) where
  reg_write-Kept :
      (r : Reg) (val : ℕ) (s s' : Imu Mem)
      → ((address r == address ctrl3_c) && (val % 2 ^ 8 % 2 == 1)) ≡ false
      → reg_write dev r val s ≡ (some tt, s')
      → Kept reg (set_reg (reg s.bus) (address r) (val % 2 ^ 8)) s s'
  unfolding reg_write
  reg_write-Kept r val s s' ne e = (
    fun_ext λ q. v.written (address r) (val % 2 ^ 8) s.bus s'.bus ne (ap (λ p. (p.0, p.1.bus)) e) q,
    sym (ap (λ p. p.1.xl_fs) e),
    sym (ap (λ p. p.1.gy_fs) e),
  )

  -- A write in front of other calls.
  write-then :
      (r : Reg) (val : ℕ) (k : Io (Imu Mem) (Unit {0})) (s s'' : Imu Mem)
      → ((address r == address ctrl3_c) && (val % 2 ^ 8 % 2 == 1)) ≡ false
      → (reg_write dev r val >> k) s ≡ (some tt, s'')
      → (s' : Imu Mem) × Kept reg (set_reg (reg s.bus) (address r) (val % 2 ^ 8)) s s'
        × (k s' ≡ (some tt, s''))
  write-then r val k s s'' ne e =
      let (a, s', first, rest) = >>=-eq-some (reg_write dev r val) (λ _. k) s e in
      (s', reg_write-Kept r val s s' ne first, rest)

  config_fifo-Kept :
      (xl_odr gy_odr : Odr) (wtm : ℕ) (s s' : Imu Mem)
      → config_fifo dev xl_odr gy_odr wtm s ≡ (some tt, s')
      → Kept reg
          (set_reg
            (set_reg
              (set_reg
                (set_reg
                  (set_reg (reg s.bus) 0x06 (wtm_words wtm % 2 ^ 8 % 2 ^ 8))
                  0x07
                  (wtm_words wtm / 2 ^ 8 % 2 ^ 3 % 2 ^ 8))
                0x08
                fifo_ctrl3_dec_none)
              0x0a
              ((fifo_odr xl_odr gy_odr * 2 ^ 3 + fifo_mode_continuous) % 2 ^ 8))
            0x0d
            int1_fth)
          s
          s'
  unfolding config_fifo
  config_fifo-Kept xl_odr gy_odr wtm s s' e =
      let (s1, (r1, x1, g1), e1) = write-then fifo_ctrl1 (wtm_words wtm % 2 ^ 8) _ s s' refl e in
      let (s2, (r2, x2, g2), e2) =
        write-then fifo_ctrl2 (wtm_words wtm / 2 ^ 8 % 2 ^ 3) _ s1 s' refl e1 in
      let (s3, (r3, x3, g3), e3) = write-then fifo_ctrl3 fifo_ctrl3_dec_none _ s2 s' refl e2 in
      let (s4, (r4, x4, g4), e4) =
        write-then fifo_ctrl5 (fifo_odr xl_odr gy_odr * 2 ^ 3 + fifo_mode_continuous) _ s3 s' refl
          e3 in
      let (r5, x5, g5) = reg_write-Kept int1_ctrl int1_fth s4 s' refl e4 in (cc, cc, cc)

  -- The registers after the first part of the initialisation.
  abbrev scaled : (ℕ → ℕ) → Odr → XlFs → Odr → GyFs → ℕ → ℕ
  scaled f xl_odr xl gy_odr gy =
      set_reg
        (set_reg (set_reg f 0x12 ctrl3_c_bdu_if_inc) 0x10
          ((odr_code xl_odr * 2 ^ 4 + xl_fs_code xl * 2 ^ 2) % 2 ^ 8))
        0x11 ((odr_code gy_odr * 2 ^ 4 + gy_fs_code gy * 2 ^ 2) % 2 ^ 8)

  init-scaled :
      (xl_odr : Odr) (xl : XlFs) (gy_odr : Odr) (gy : GyFs) (wtm : ℕ) (s s' : Imu Mem)
      → init dev xl_odr xl gy_odr gy wtm s ≡ (some tt, s')
      → (t u : Imu Mem) × (reg u.bus ≡ scaled (reg t.bus) xl_odr xl gy_odr gy)
        × (u.xl_fs ≡ xl)
        × (u.gy_fs ≡ gy)
        × ((if ltb 0 wtm then config_fifo dev xl_odr gy_odr wtm else done tt) u ≡ (some tt, s'))
  unfolding init
  init-scaled xl_odr xl gy_odr gy wtm s s' e =
      let (a, t, looked, e0) = >>=-eq-some (identify dev) _ s e in
      let (s1, (r1, x1, g1), e1) = write-then ctrl3_c ctrl3_c_bdu_if_inc _ t s' refl e0 in
      let (s2, (r2, x2, g2), e2) =
        write-then ctrl1_xl (odr_code xl_odr * 2 ^ 4 + xl_fs_code xl * 2 ^ 2) _ s1 s' refl e1 in
      let (s3, (r3, x3, g3), e3) =
        write-then ctrl2_g (odr_code gy_odr * 2 ^ 4 + gy_fs_code gy * 2 ^ 2) _ s2 s' refl e2 in
      (t, record s3 { xl_fs = xl; gy_fs = gy }, cc, refl, refl, e3)

  scaled-IsConfigured :
      (xl_odr : Odr) (xl : XlFs) (gy_odr : Odr) (gy : GyFs) (f : ℕ → ℕ) {u : Imu Mem}
      → reg u.bus (address ctrl3_c) ≡ scaled f xl_odr xl gy_odr gy (address ctrl3_c)
      → reg u.bus (address ctrl1_xl) ≡ scaled f xl_odr xl gy_odr gy (address ctrl1_xl)
      → reg u.bus (address ctrl2_g) ≡ scaled f xl_odr xl gy_odr gy (address ctrl2_g)
      → u.xl_fs ≡ xl
      → u.gy_fs ≡ gy
      → IsConfigured reg xl_odr xl gy_odr gy u
  scaled-IsConfigured xl_odr xl gy_odr gy f c a b kx kg = record {
    ctrl3 = c;
    xl_rate = rw a (omega (arith, odr_code-le xl_odr, xl_fs_code-le xl));
    xl_range = rw a (omega (arith, odr_code-le xl_odr, xl_fs_code-le xl));
    gy_rate = rw b (omega (arith, odr_code-le gy_odr, gy_fs_code-le gy));
    gy_range = rw b (omega (arith, odr_code-le gy_odr, gy_fs_code-le gy));
    xl_known = kx;
    gy_known = kg;
  }

  module _ (xl_odr : Odr) (xl : XlFs) (gy_odr : Odr) (gy : GyFs) (wtm : ℕ) (s s' : Imu Mem)
      (e : init dev xl_odr xl gy_odr gy wtm s ≡ (some tt, s')) where
    -- If the initialisation succeeds, the sensor measures as was asked for, and the driver's
    -- scales are those of its ranges.
    pub init-IsConfigured : IsConfigured reg xl_odr xl gy_odr gy s'
    init-IsConfigured =
        let (t, u, r, kx, kg, rest) = init-scaled xl_odr xl gy_odr gy wtm s s' e in
        elim (Bool-cases (ltb 0 wtm)) [
          | inl on ↦
              let (r', x', g') = config_fifo-Kept xl_odr gy_odr wtm u s' (rw on at rest) in
              scaled-IsConfigured xl_odr xl gy_odr gy (reg t.bus)
                (ap (λ f. f 0x12) r' ∙ ap (λ f. f 0x12) r)
                (ap (λ f. f 0x10) r' ∙ ap (λ f. f 0x10) r)
                (ap (λ f. f 0x11) r' ∙ ap (λ f. f 0x11) r) (x' ∙ kx) (g' ∙ kg)
          | inr off ↦
              let same : u ≡ s' = ap (λ p. p.1) (rw off at rest) in
              subst (IsConfigured reg xl_odr xl gy_odr gy) same (
                scaled-IsConfigured xl_odr xl gy_odr gy (reg t.bus) (ap (λ f. f 0x12) r)
                  (ap (λ f. f 0x10) r) (ap (λ f. f 0x11) r) kx kg)
        ]

    -- If it succeeds with a watermark, the FIFO collects, and its threshold is as many words as
    -- the watermark asks for exactly if that is at most 341 sets.
    pub init-threshold_iff :
        0 < wtm
        → wtm < 2 ^ 16
        → IsCollecting reg (fifo_odr xl_odr gy_odr) s' × (threshold reg s' ≡ wtm * 6 ↔ wtm ≤ 341)
    init-threshold_iff lo hi =
        let (t, u, r, kx, kg, rest) = init-scaled xl_odr xl gy_odr gy wtm s s' e in
        let (r', x', g') = config_fifo-Kept xl_odr gy_odr wtm u s' (rw (lt→ltb _ _ lo) at rest) in
        let r1 = ap (λ f. f 0x06) r' in
        let r2 = ap (λ f. f 0x07) r' in
        let r5 = ap (λ f. f 0x0a) r' in
        (
          record {
            decimation = ap (λ f. f 0x08) r';
            mode = rw r5 (omega (arith, fifo_odr-le xl_odr gy_odr));
            fifo_rate = rw r5 (omega (arith, fifo_odr-le xl_odr gy_odr));
            routed = ap (λ f. f 0x0d) r';
          },
          rw (r1, r2) (threshold_words wtm hi),
        )
