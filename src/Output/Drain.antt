-- ===== src/Output/Drain.antt =====
-- `Anbo_Log_DrainAll`: it ends, whatever the line does, and when.
use anbo_mos.Common.{
  ℕ, zero, suc, ◌+◌, ◌*◌, ◌≤◌, ◌<◌, Bool, true, false, ◌&&◌, Option, none, some, List, ◌≡◌, refl,
  ap, ◌∙◌, ◌⊎◌, inl, inr, Bool-cases, Nat-cases, arith, ltb,
}
use mathlib.Core.Path.{subst}
use anbo_mos.Output.{
  Output, LogDevice, pending, flush, drain_limit, spin_rounds, drain_log, drain_tx, drain_device,
  drain_all,
}

-- `k` rounds of `step`.
abbrev pub rounds {ℓ} : {S : Type ℓ} → (S → S) → ℕ → S → S
rounds step zero s = s
rounds step (suc k) s = rounds step k (step s)

-- A loop under the guard `g` makes exactly `k` rounds from `s` on: it goes on as long as there is
-- work to do and the time is not up.
pub record Rounds {ℓ} {S : Type ℓ} (busy : S → Bool) (step : S → S) (g k : ℕ) (s : S) : Type ℓ where
  pub goes_on :
      (i : ℕ) → i < k → (busy (rounds step i s) ≡ true) × (g + i * spin_rounds < drain_limit)
  pub ends : (busy (rounds step k s) ≡ false) ⊎ (drain_limit ≤ g + k * spin_rounds)

module _ {ℓ} {S : Type ℓ} (busy : S → Bool) (step : S → S) (g : ℕ) (s : S) where
  Rounds-zero : busy s && ltb g drain_limit ≡ false → Rounds busy step g 0 s
  Rounds-zero over = record { goes_on = λ i h. absurd (omega arith); ends = ground arith }

  Rounds-suc :
      (k : ℕ)
      → busy s && ltb g drain_limit ≡ true
      → Rounds busy step (g + spin_rounds) k (step s)
      → Rounds busy step g (suc k) s
  Rounds-suc k more r = record {
    goes_on = λ i h. elim (Nat-cases i) [
      | inl e ↦ rw e (ground arith, ground arith)
      | inr (j, e) ↦
          let (busy_still, time) = r.goes_on j (omega arith) in rw e (busy_still, omega arith)
    ];
    ends = elim r.ends [ inl idle ↦ inl idle | inr over ↦ inr (omega arith) ];
  }

module _ {W : Type 0} (transmit_dma : List ℕ → W → Bool × W) (put_char : ℕ → W → W)
    (spin : W × Output W → W × Output W) where
  -- A round of the first loop, and what it waits for.
  abbrev pub flush_round : W × Output W → W × Output W
  flush_round s = spin (flush transmit_dma put_char s)

  abbrev pub is_pending : W × Output W → Bool
  is_pending s = ltb 0 (pending s.1)

  drain_log-Rounds :
      (n g : ℕ) (s : W × Output W)
      → drain_limit ≤ g + n * spin_rounds
      → (k : ℕ) × (drain_log transmit_dma put_char spin n g s
          ≡ some (g + k * spin_rounds, rounds flush_round k s))
        × Rounds is_pending flush_round g k s
  unfolding drain_log
  drain_log-Rounds zero g s h =
      let over : (ltb 0 (pending s.1) && ltb g drain_limit) ≡ false = ground arith in
      rw over (0, ap (λ x. some (x, s)) (omega arith), Rounds-zero is_pending flush_round g s over)
  drain_log-Rounds (suc n) g s h = elim (Bool-cases (ltb 0 (pending s.1) && ltb g drain_limit)) [
    | inl more ↦
        let (k, e, r) = drain_log-Rounds n (g + spin_rounds) (flush_round s) (omega arith) in
        rw more (
          suc k,
          e ∙ ap (λ x. some (x, rounds flush_round k (flush_round s))) (omega arith),
          Rounds-suc is_pending flush_round g s k more r,
        )
    | inr over ↦
        rw over
          (0, ap (λ x. some (x, s)) (omega arith), Rounds-zero is_pending flush_round g s over)
  ]

  -- What the second loop waits for.
  abbrev pub is_sending : LogDevice W → W × Output W → Bool
  is_sending dev s = dev.tx_held s.0

  drain_tx-Rounds :
      (dev : LogDevice W) (n g : ℕ) (s : W × Output W)
      → drain_limit ≤ g + n * spin_rounds
      → (j : ℕ) × (drain_tx transmit_dma put_char spin dev n g s
          ≡ some (g + j * spin_rounds, rounds spin j s))
        × Rounds (is_sending dev) spin g j s
  unfolding drain_tx
  drain_tx-Rounds dev zero g s h =
      let over : (dev.tx_held s.0 && ltb g drain_limit) ≡ false = ground arith in
      rw over (0, ap (λ x. some (x, s)) (omega arith), Rounds-zero (is_sending dev) spin g s over)
  drain_tx-Rounds dev (suc n) g s h = elim (Bool-cases (dev.tx_held s.0 && ltb g drain_limit)) [
    | inl more ↦
        let (j, e, r) = drain_tx-Rounds dev n (g + spin_rounds) (spin s) (omega arith) in
        rw more (
          suc j,
          e ∙ ap (λ x. some (x, rounds spin j (spin s))) (omega arith),
          Rounds-suc (is_sending dev) spin g s j more r,
        )
    | inr over ↦
        rw over (0, ap (λ x. some (x, s)) (omega arith), Rounds-zero (is_sending dev) spin g s over)
  ]

  -- The rounds of the second phase, which needs a device.
  abbrev pub Waits : Option (LogDevice W) → (g j : ℕ) → W × Output W → Type 0
  Waits none g j s = j ≡ 0
  Waits (some dev) g j s = Rounds (is_sending dev) spin g j s

  drain_device-Waits :
      (dev : Option (LogDevice W)) (n g : ℕ) (s : W × Output W)
      → drain_limit ≤ g + n * spin_rounds
      → (j : ℕ) × (drain_device transmit_dma put_char spin dev n g s
          ≡ some (g + j * spin_rounds, rounds spin j s))
        × Waits dev g j s
  unfolding drain_device
  drain_device-Waits none n g s h = (0, ap (λ x. some (x, s)) (omega arith), refl)
  drain_device-Waits (some dev) n g s h = drain_tx-Rounds dev n g s h

  -- `Anbo_Log_DrainAll` ends within 2500 rounds of each loop, whatever happens during its waits. It
  -- flushes and waits until nothing is pending in the log or the time is up, and no longer; then, if
  -- a device is bound, it waits until the transmit ring is empty or the time is up, and no longer.
  pub drain_all-ends :
      (n : ℕ) (s : W × Output W)
      → 2500 ≤ n
      → (k j : ℕ) × let s1 = rounds flush_round k s in
          (drain_all transmit_dma put_char spin n s
            ≡ some ((k + j) * spin_rounds, rounds spin j s1))
          × Rounds is_pending flush_round 0 k s
          × Waits s1.1.log_dev (k * spin_rounds) j s1
  unfolding drain_all
  drain_all-ends n s h =
      let (k, e1, flushed) = drain_log-Rounds n 0 s (omega arith) in
      let s1 = rounds flush_round k s in
      let g = 0 + k * spin_rounds in
      let same : g ≡ k * spin_rounds = omega arith in
      let (j, e2, waited) = drain_device-Waits s1.1.log_dev n g s1 (omega arith) in
      (
        k,
        j,
        (
          rw (e1, drain_all) (e2 ∙ ap (λ x. some (x, rounds spin j s1)) (omega arith)),
          flushed,
          subst (λ x. Waits s1.1.log_dev x j s1) same waited,
        ),
      )
