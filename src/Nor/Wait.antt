-- ===== src/Nor/Wait.antt =====
-- The waiting for the chip ends.
use native.Mathlib.Decide.{dec_lt}
use anbo_mos.Common.{
  ℕ, zero, suc, ◌+◌, ◌*◌, ◌/◌, ◌%◌, ◌^◌, ◌≤◌, ◌<◌, false, Option, none, some, ◌≡◌, refl, inl, inr,
  arith, Bool-cases, Option-cases, ltb, sub32,
}
use anbo_mos.Nor.{OspiHal, rdsr, is_idle, ospi_read_reg, wait_loop, ospi_wait_ready}

-- What is known of the time: the tick counts the milliseconds of a clock, modulo 2 ^ 32, and a look
-- at the status takes a time, but no more than the two time limits of its calls.
pub record IsTimed {ℓ} {Mem : Type ℓ} (hal : OspiHal Mem) (rate : ℕ) (clock : Mem → ℕ)
    : Type ℓ where
  pub ticks : (m : Mem) → hal.get_tick m ≡ clock m / rate % 2 ^ 32
  pub runs : 0 < rate
  pub takes :
      (m : Mem)
      → let m' = (ospi_read_reg hal rdsr 1 m).1 in
        (clock m < clock m') × (clock m' ≤ clock m + 1000 * rate)

mul_mono : (a b m : ℕ) → a ≤ b → a * m ≤ b * m
mul_mono a b m h = grind arith

-- A quotient, by the products around the dividend.
quotient : (rate c : ℕ) → 0 < rate → (c / rate * rate ≤ c) × (c < c / rate * rate + rate)
quotient rate c r = grind arith

-- Times that differ by less than `k` milliseconds have quotients that differ by at most `k`.
quotient_mono : (rate p q k : ℕ) → p * rate < (q + k) * rate → p < q + k
quotient_mono rate p q k h = elim (dec_lt p (q + k)) [
  | yes l ↦ l
  | no l ↦
      let more : (q + k) * rate ≤ p * rate = mul_mono (q + k) p rate (omega arith) in
      absurd (omega arith)
]

-- The milliseconds since `c0`, where they fit a word.
elapsed :
    (rate c0 c t : ℕ)
    → 0 < rate
    → t < 2 ^ 31
    → c0 ≤ c
    → c ≤ c0 + (t + 1001) * rate
    → ltb t (sub32 (c / rate % 2 ^ 32) (c0 / rate % 2 ^ 32)) ≡ false
    → c < c0 + (t + 1) * rate
elapsed rate c0 c t r ht le hi e =
    let (lo0, hi0) = quotient rate c0 r in
    let (lo1, hi1) = quotient rate c r in
    let later : c0 / rate < c / rate + 1 =
      quotient_mono rate (c0 / rate) (c / rate) 1 (grind arith) in
    let near : c / rate < c0 / rate + (t + 1002) =
      quotient_mono rate (c / rate) (c0 / rate) (t + 1002) (grind arith) in
    let soon : c / rate ≤ c0 / rate + t = ground arith in
    let product : (c / rate + 1) * rate ≤ (c0 / rate + t + 1) * rate =
      mul_mono (c / rate + 1) (c0 / rate + t + 1) rate (omega arith) in
    grind arith

module _ {ℓ} {Mem : Type ℓ} (hal : OspiHal Mem) (rate : ℕ) (clock : Mem → ℕ)
    (v : IsTimed hal rate clock) where
  abbrev Ends : ℕ → Option (Option (Unit {0}) × Mem) → Type ℓ
  Ends limit o = (r : Option (Unit {0})) × (m' : Mem) × (o ≡ some (r, m')) × (clock m' ≤ limit)

  wait_loop-Ends :
      (n t c0 : ℕ) (m : Mem)
      → t < 2 ^ 31
      → c0 ≤ clock m
      → clock m < c0 + (t + 1) * rate
      → c0 + (t + 1) * rate ≤ clock m + n
      → Ends (c0 + (t + 1001) * rate) (wait_loop hal n (c0 / rate % 2 ^ 32) t m)
  unfolding wait_loop
  wait_loop-Ends zero t c0 m ht lo hi enough = absurd (omega arith)
  wait_loop-Ends (suc n) t c0 m ht lo hi enough =
      let r = ospi_read_reg hal rdsr 1 m in
      let (on, bound) = v.takes m in
      let soon : clock r.1 ≤ c0 + (t + 1001) * rate = grind arith in
      elim (Option-cases r.0) [
        | inl failed ↦ (none, r.1, rw (failed, wait_loop) refl, soon)
        | inr (sr, got) ↦ elim (Bool-cases (is_idle sr)) [
          | inl idle ↦ (some tt, r.1, rw (got, idle, wait_loop) refl, soon)
          | inr busy ↦ elim (Bool-cases (ltb t (sub32 (hal.get_tick r.1) (c0 / rate % 2 ^ 32)))) [
            | inl over ↦ (none, r.1, rw (got, busy, over, wait_loop) refl, soon)
            | inr more ↦
                let left =
                  elapsed rate c0 (clock r.1) t v.runs ht (omega arith) soon
                    (rw (v.ticks r.1) at more) in
                let (b, m', e, last) =
                  wait_loop-Ends n t c0 r.1 ht (omega arith) left (omega arith) in
                (b, m', rw (got, busy, more, wait_loop) e, last)
          ]
        ]
      ]

  -- `ospi_wait_ready` returns, whatever the chip answers: with as many rounds as its time limit and
  -- one millisecond have units of the clock, and within the limit and the time that one look at the
  -- status may take.
  pub ospi_wait_ready-Ends :
      (t n : ℕ) (m : Mem)
      → t < 2 ^ 31
      → (t + 1) * rate ≤ n
      → (r : Option (Unit {0})) × (m' : Mem) × (ospi_wait_ready hal n t m ≡ some (r, m'))
        × (clock m' ≤ clock m + (t + 1001) * rate)
  unfolding ospi_wait_ready
  ospi_wait_ready-Ends t n m ht enough =
      let runs = v.runs in
      rw (v.ticks m) (wait_loop-Ends n t (clock m) m ht (omega arith) (grind arith) (omega arith))
