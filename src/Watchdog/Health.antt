-- ===== src/Watchdog/Health.antt =====
-- When the watchdog is fed.
use anbo_mos.Common.{
  ℕ, zero, suc, ◌+◌, ◌^◌, ◌≤◌, ◌<◌, true, false, ◌&&◌, none, List, [], ◌∷◌, ◌≡◌, refl, ◌↔◌, ◌⊎◌,
  inl, inr, Bool-cases, arith, get_or, take, length, sub32, gt_signed, time_diff,
}
use anbo_mos.Watchdog.{
  Slot, SlotState, slot_active, Watchdog, is_active, free_slot, timed_out, monitor_loop, monitor,
  first_timeout_loop, first_timeout,
}

-- A slot at rest, or one whose last check-in is at most its timeout ago.
abbrev pub IsHealthy : ℕ → Slot → Type 0
IsHealthy now s = s.state ≡ slot_active → sub32 now s.last_checkin ≤ s.timeout_ms

-- The times of a slot for which signed arithmetic is sound.
pub record InRange (now : ℕ) (s : Slot) : Type 0 where
  pub timeout_small : s.timeout_ms < 2 ^ 31
  pub elapsed_small : sub32 now s.last_checkin < 2 ^ 31

timed_out_iff : (now : ℕ) (s : Slot) → InRange now s → (timed_out now s ≡ false) ↔ IsHealthy now s
unfolding timed_out time_diff
timed_out_iff now s r = (to s.state, from s.state)
  where
    to :
        (st : SlotState)
        → is_active st && gt_signed (sub32 now s.last_checkin) s.timeout_ms ≡ false
        → st ≡ slot_active
        → sub32 now s.last_checkin ≤ s.timeout_ms
    to slot_active e a = ground (arith, r.timeout_small, r.elapsed_small)
    to st e a = cc

    from :
        (st : SlotState)
        → (st ≡ slot_active → sub32 now s.last_checkin ≤ s.timeout_ms)
        → is_active st && gt_signed (sub32 now s.last_checkin) s.timeout_ms ≡ false
    from slot_active h = let le = h refl in ground (arith, r.timeout_small, r.elapsed_small)
    from st h = refl

-- Every slot of a list has a property.
abbrev pub Every : List Slot → (Slot → Type 0) → Type 0
Every slots P = (i : ℕ) → i < length slots → P (get_or slots i free_slot)

monitor_loop-Every :
    (now : ℕ) (slots : List Slot)
    → Every slots (InRange now)
    → monitor_loop now slots ≡ true
    → Every slots (IsHealthy now)
unfolding monitor_loop
monitor_loop-Every now [] r e i h = absurd (omega arith)
monitor_loop-Every now (s ∷ rest) r e zero h =
    (timed_out_iff now s (r 0 (omega arith))).0 (ground arith)
monitor_loop-Every now (s ∷ rest) r e (suc i) h =
    monitor_loop-Every now rest (λ j k. r (suc j) (omega arith)) (ground arith) i (omega arith)

monitor_loop_of_every :
    (now : ℕ) (slots : List Slot)
    → Every slots (InRange now)
    → Every slots (IsHealthy now)
    → monitor_loop now slots ≡ true
unfolding monitor_loop
monitor_loop_of_every now [] r h = refl
monitor_loop_of_every now (s ∷ rest) r h =
    rw ((timed_out_iff now s (r 0 (omega arith))).1 (h 0 (omega arith))) (
      monitor_loop_of_every now rest (λ j k. r (suc j) (omega arith))
        (λ j k. h (suc j) (omega arith)))

-- `Anbo_WDT_Monitor`, with timeouts and elapsed times below 2 ^ 31, either finds every registered
-- slot at rest or within its timeout, returns 1 and feeds the hardware watchdog once, or finds one
-- that is not, returns 0 and does not feed it. No slot changes.
pub monitor-feeds :
    (w : Watchdog) (now : ℕ)
    → Every (take w.slot_count w.slots) (InRange now)
    → (Every (take w.slot_count w.slots) (IsHealthy now)
        × (monitor w now ≡ (true, record w { feeds = w.feeds + 1 })))
      ⊎ (¬ Every (take w.slot_count w.slots) (IsHealthy now) × (monitor w now ≡ (false, w)))
unfolding monitor
monitor-feeds w now r =
    let slots = take w.slot_count w.slots in
    elim (Bool-cases (monitor_loop now slots)) [
      | inl all_well ↦ inl (monitor_loop-Every now slots r all_well, rw all_well)
      | inr late ↦ inr (λ h. cc (monitor_loop_of_every now slots r h), rw late)
    ]

-- What the two loops see of the same slots.
first_timeout_loop-late :
    (now : ℕ) (slots : List Slot)
    → ((monitor_loop now slots ≡ true) × (first_timeout_loop now slots ≡ none))
      ⊎ ((i : ℕ) × (i < length slots)
          × (monitor_loop now slots ≡ false)
          × (timed_out now (get_or slots i free_slot) ≡ true)
          × (first_timeout_loop now slots ≡ (get_or slots i free_slot).name)
          × ((j : ℕ) → j < i → timed_out now (get_or slots j free_slot) ≡ false))
unfolding monitor_loop first_timeout_loop
first_timeout_loop-late now [] = inl (refl, refl)
first_timeout_loop-late now (s ∷ rest) = elim (Bool-cases (timed_out now s)) [
  | inl late ↦ inr (0, omega arith, rw late, late, rw late, λ j h. absurd (omega arith))
  | inr well ↦ elim (first_timeout_loop-late now rest) [
    | inl (m, f) ↦ inl (rw well m, rw well f)
    | inr (i, lt, m, t, f, before) ↦
        inr (suc i, omega arith, rw well m, t, rw well f, early s rest i well before)
  ]
]
  where
    early :
        (s : Slot) (rest : List Slot) (i : ℕ)
        → timed_out now s ≡ false
        → ((j : ℕ) → j < i → timed_out now (get_or rest j free_slot) ≡ false)
        → (j : ℕ) → j < suc i
        → timed_out now (get_or (s ∷ rest) j free_slot) ≡ false
    early s rest i well before zero h = well
    early s rest i well before (suc j) h = before j (omega arith)

-- `Anbo_WDT_FirstTimeout` agrees with `Anbo_WDT_Monitor`: where that feeds the watchdog it returns
-- `NULL`, and where that does not it returns the name of the first registered slot that has timed
-- out.
pub first_timeout-monitor :
    (w : Watchdog) (now : ℕ)
    → let slots = take w.slot_count w.slots in
      (((monitor w now).0 ≡ true) × (first_timeout w now ≡ none))
      ⊎ ((i : ℕ) × (i < length slots)
          × ((monitor w now).0 ≡ false)
          × (timed_out now (get_or slots i free_slot) ≡ true)
          × (first_timeout w now ≡ (get_or slots i free_slot).name)
          × ((j : ℕ) → j < i → timed_out now (get_or slots j free_slot) ≡ false))
unfolding monitor first_timeout
first_timeout-monitor w now = elim (first_timeout_loop-late now (take w.slot_count w.slots)) [
  | inl (m, f) ↦ inl (rw m, f)
  | inr (i, lt, m, t, f, before) ↦ inr (i, lt, rw m, t, f, before)
]
