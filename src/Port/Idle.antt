-- ===== src/Port/Idle.antt =====
-- The tick after a sleep.
use mathlib.Core.Path.{ap₂}
use anbo_mos.Common.{
  ℕ, zero, suc, ◌+◌, ◌-◌, ◌%◌, ◌^◌, ◌≤◌, ◌<◌, min, Bool, true, false, some, ◌≡◌, refl, ap, ◌∙◌,
  arith, inl, inr, Bool-cases, if◌then◌else◌, add32, ltb, leb, ◌==◌,
}
use anbo_mos.Port.{Board, Power, clock_recovery, fall_asleep, wake_up, idle}
use anbo_mos.Port.Lptim.{
  LptimRegs, lptim_read_cnt, lptim_period, wait_arrok, lptim_start_once, lptim_stop_and_read,
}

module _ {ℓ} {Mem : Type ℓ} (pwr : Power Mem) (lpt : LptimRegs Mem) where
  -- The state after so many looks at ARROK.
  abbrev pub looked : ℕ → Mem → Mem
  looked zero m = m
  looked (suc k) m = looked k (lpt.read_arrok m).1

  -- What the manual says: ARR keeps what was written until it is written again, and ARROK comes within
  -- `syncs` looks at it.
  pub record IsTimer (arr : Mem → ℕ) (syncs : ℕ) : Type ℓ where
    pub arr_written : (p : ℕ) (m : Mem) → arr (lpt.write_arr p m) ≡ p
    pub arr_read : (m : Mem) → (lpt.read_arr m).0 ≡ arr m
    pub arr_looked : (m : Mem) → arr (lpt.read_arrok m).1 ≡ arr m
    pub arr_cleared : (m : Mem) → arr (lpt.clear_arrok m) ≡ arr m
    pub arr_started : (m : Mem) → arr (lpt.start_single m) ≡ arr m
    pub arr_counted : (m : Mem) → arr (lpt.read_cnt m).1 ≡ arr m
    pub arr_wu : (m : Mem) → arr (pwr.clear_wu m) ≡ arr m
    pub arr_slept : (m : Mem) → arr (pwr.enter_stop2 m) ≡ arr m
    pub synced :
        (p : ℕ) (m : Mem)
        → (k : ℕ) × (k < syncs) × ((lpt.read_arrok (looked k (lpt.write_arr p m))).0 ≡ true)

  -- The vendor's calls that start the clocks again succeed in the state `m`. Where one does not, the
  -- code stays in an endless loop.
  abbrev pub Restarts : Mem → Type 0
  Restarts m = ((pwr.osc_config m).0 ≡ true) × ((pwr.clock_config (pwr.osc_config m).1).0 ≡ true)

  clock_recovery-runs :
      (m : Mem)
      → Restarts m
      → clock_recovery pwr lpt m ≡ some (pwr.clock_config (pwr.osc_config m).1).1
  unfolding clock_recovery
  clock_recovery-runs m (osc, clk) = rw (osc, clk, clock_recovery) refl

  -- Whether the timer has run out, as the code finds it when it wakes up.
  abbrev pub ran_out : Mem → Bool
  ran_out m = (lpt.read_arrm (lpt.read_arr (lptim_read_cnt lpt m).1).1).0

  module _ {arr : Mem → ℕ} {syncs : ℕ} (v : IsTimer arr syncs) where
    wait_arrok-ends :
        (n k : ℕ) (m : Mem)
        → k < n
        → (lpt.read_arrok (looked k m)).0 ≡ true
        → (m' : Mem) × (wait_arrok lpt n m ≡ some m') × (arr m' ≡ arr m)
    unfolding wait_arrok
    wait_arrok-ends zero k m h e = absurd (omega arith)
    wait_arrok-ends (suc n) zero m h e =
        ((lpt.read_arrok m).1, rw (e, wait_arrok) refl, v.arr_looked m)
    wait_arrok-ends (suc n) (suc k) m h e = elim (Bool-cases (lpt.read_arrok m).0) [
      | inl now ↦ ((lpt.read_arrok m).1, rw (now, wait_arrok) refl, v.arr_looked m)
      | inr later ↦
          let (m', ends, same) = wait_arrok-ends n k (lpt.read_arrok m).1 (omega arith) e in
          (m', rw (later, wait_arrok) ends, same ∙ v.arr_looked m)
    ]

    -- The timer is armed with the period that stands for `ms`.
    start_once-arms :
        (n ms : ℕ) (m : Mem)
        → syncs ≤ n
        → (m' : Mem) × (lptim_start_once lpt n ms m ≡ some m') × (arr m' ≡ lptim_period lpt ms - 1)
    unfolding lptim_start_once
    start_once-arms n ms m h =
        let m1 = lpt.clear_arrok (lpt.clear_arrm (lpt.enable true m)) in
        let p = lptim_period lpt ms - 1 in
        let (k, soon, set) = v.synced p m1 in
        let (m2, ends, same) = wait_arrok-ends n k (lpt.write_arr p m1) (omega arith) set in
        (
          lpt.start_single (lpt.clear_arrok m2),
          rw (ends, lptim_start_once) refl,
          v.arr_started _ ∙ v.arr_cleared m2 ∙ same ∙ v.arr_written p m1,
        )

    read_cnt-keeps : (m : Mem) → arr (lptim_read_cnt lpt m).1 ≡ arr m
    unfolding lptim_read_cnt
    read_cnt-keeps m =
        let (a, m1) = lpt.read_cnt m in
        let (b, m2) = lpt.read_cnt m1 in
        let twice = v.arr_counted m1 ∙ v.arr_counted m in
        elim (Bool-cases (a == b)) [
          | inl agree ↦ rw (agree, lptim_read_cnt) twice
          | inr differ ↦ rw (differ, lptim_read_cnt) (v.arr_counted m2 ∙ twice)
        ]

    -- What has elapsed, by whether the timer ran out.
    stop_and_read-elapsed :
        (m : Mem)
        → (lptim_stop_and_read lpt m).0
          ≡ (if ran_out m then (arr m + 1) % 2 ^ 32 else (lptim_read_cnt lpt m).0)
    unfolding lptim_stop_and_read
    stop_and_read-elapsed m =
        let m1 = (lptim_read_cnt lpt m).1 in
        elim (Bool-cases (ran_out m)) [
          | inl out ↦
              rw (out, lptim_stop_and_read)
                (ap (λ a. (a + 1) % 2 ^ 32) (v.arr_read m1 ∙ read_cnt-keeps m))
          | inr early ↦ rw (early, lptim_stop_and_read) refl
        ]

    fall_asleep-IsAsleep :
        (n ms : ℕ) (s : Board Mem)
        → syncs ≤ n
        → (a : Board Mem) × (fall_asleep pwr lpt n ms s ≡ some a)
          × (arr a.hw ≡ lptim_period lpt ms - 1)
          × (a.tick_ms ≡ s.tick_ms)
          × (a.irq_off ≡ true)
          × (a.feeds ≡ s.feeds + 1)
    unfolding fall_asleep
    fall_asleep-IsAsleep n ms s h =
        let (m, arms, period) = start_once-arms n ms s.hw h in
        (
          record s {
            systick_on = false;
            hal_tick_on = false;
            feeds = s.feeds + 1;
            irq_off = true;
            hw = pwr.enter_stop2 (pwr.clear_wu m);
          },
          rw (arms, fall_asleep) refl,
          v.arr_slept _ ∙ v.arr_wu m ∙ period,
          refl,
          refl,
          refl,
        )

    -- What holds after a sleep from `s` on that ended in the state `a`, of at most `ms`.
    pub record IsAwake (ms : ℕ) (s a s' : Board Mem) : Type ℓ where
      pub masked : a.irq_off ≡ true
      pub tick :
          s'.tick_ms
          ≡ add32 s.tick_ms (if ran_out a.hw then min ms 1500 else (lptim_read_cnt lpt a.hw).0)
      pub irq : s'.irq_off ≡ false
      pub systick : s'.systick_on ≡ true
      pub hal_tick : s'.hal_tick_on ≡ true
      pub fed : s'.feeds ≡ s.feeds + 2

    idle-long :
        (n ms : ℕ) (s a : Board Mem)
        → 3 ≤ ms
        → fall_asleep pwr lpt n (min ms 1500) s ≡ some a
        → idle pwr lpt n ms s ≡ wake_up pwr lpt a
    unfolding idle
    idle-long n ms s a h e =
        let some_time : (ms == 0) ≡ false = ground arith in
        let long : leb ms 2 ≡ false = ground arith in
        let cap : (if ltb 1500 ms then 1500 else ms) ≡ min ms 1500 = ground arith in
        rw (some_time, long, cap, e, idle) refl

    slept :
        (out : Bool) (ms arr cnt : ℕ)
        → 3 ≤ ms
        → arr ≡ lptim_period lpt (min ms 1500) - 1
        → (if out then (arr + 1) % 2 ^ 32 else cnt) ≡ (if out then min ms 1500 else cnt)
    unfolding lptim_period
    slept out ms arr cnt h e = ground arith

    -- The state after the wake-up, where the clocks run in `m`.
    abbrev awake : Board Mem → Mem → Board Mem
    awake a m = record a {
      feeds = a.feeds + 1;
      tick_ms = add32 a.tick_ms (lptim_stop_and_read lpt a.hw).0;
      irq_off = false;
      hal_tick_on = true;
      systick_on = true;
      hw = pwr.clear_pending m;
    }

    wake_up-awake :
        (a : Board Mem) (m' : Mem)
        → clock_recovery pwr lpt (lptim_stop_and_read lpt a.hw).1 ≡ some m'
        → wake_up pwr lpt a ≡ some (awake a m')
    unfolding wake_up
    wake_up-awake a m' f = rw (f, wake_up) refl

    -- `Anbo_Arch_Idle` for three milliseconds or more returns, where the vendor's calls that start the
    -- clocks again succeed, and ARROK comes within the rounds allowed. It sleeps with the interrupts
    -- masked; the tick goes on by the count of the timer if something else woke the processor, and by the time
    -- asked for, at most 1500 ms, if the timer ran out. Then the interrupts and both ticks are on
    -- again, and the watchdog was fed before and after the sleep.
    pub idle-IsAwake :
        (n ms : ℕ) (s : Board Mem)
        → 3 ≤ ms
        → syncs ≤ n
        → ((m : Mem) → Restarts m)
        → (a s' : Board Mem) × (fall_asleep pwr lpt n (min ms 1500) s ≡ some a)
          × (idle pwr lpt n ms s ≡ some s')
          × IsAwake ms s a s'
    idle-IsAwake n ms s h enough restarts =
        let (a, e, period, same, masked, fed) = fall_asleep-IsAsleep n (min ms 1500) s enough in
        let m = (lptim_stop_and_read lpt a.hw).1 in
        let m' = (pwr.clock_config (pwr.osc_config m).1).1 in
        (
          a,
          awake a m',
          e,
          idle-long n ms s a h e ∙ wake_up-awake a m' (clock_recovery-runs m (restarts m)),
          record {
            masked = masked;
            tick =
                ap₂ (λ t x. add32 t x) same
                  (stop_and_read-elapsed a.hw ∙ slept (ran_out a.hw) ms (arr a.hw) _ h period);
            irq = refl;
            systick = refl;
            hal_tick = refl;
            fed = omega (arith, fed);
          },
        )
