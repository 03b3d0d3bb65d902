-- ===== src/Watchdog/Examples.antt =====
-- The watchdog monitor at concrete inputs: tests, and the theorems applied.
use anbo_mos.Common.{
  ℕ, zero, suc, ◌^◌, ◌≤◌, ◌<◌, true, false, none, some, [], ◌∷◌, ◌≡◌, refl, ◌⊎◌, arith, get_or,
  take, replicate, get_or-replicate, ap, time_diff, ◌-◌,
}
use anbo_mos.Watchdog.{
  Slot, slot_free, slot_active, Watchdog, slot_at, free_slot, timed_out, monitor, first_timeout,
}
use anbo_mos.Watchdog.Health.{IsHealthy, InRange, Every, monitor-feeds, first_timeout-monitor}
use anbo_mos.Watchdog.Slots.{IsValid}

-- Two tasks, one checked in at 90, the other just before the tick count wrapped.
abbrev slot_a : Slot
slot_a = record { name = some 1; timeout_ms = 50; last_checkin = 90; state = slot_active }

abbrev slot_b : Slot
slot_b = record { name = some 2; timeout_ms = 100; last_checkin = 2 ^ 32 - 10; state = slot_active }

abbrev two_tasks : Watchdog
two_tasks = record { slots = slot_a ∷ slot_b ∷ replicate 6 free_slot; slot_count = 2; feeds = 7 }

two_tasks-IsValid : IsValid two_tasks
two_tasks-IsValid = record { table = refl; counted = omega arith; rest_free = rest }
  where
    rest : (i : ℕ) → 2 ≤ i → i < 8 → (slot_at two_tasks i).state ≡ slot_free
    rest zero p q = absurd (omega arith)
    rest (suc zero) p q = absurd (omega arith)
    rest (suc (suc i)) p q = ap (λ s. s.state) (get_or-replicate 6 i free_slot)

second_is_late : (monitor two_tasks 95).0 ≡ false
unfolding monitor time_diff
second_is_late = refl

name_of_late : first_timeout two_tasks 95 ≡ some 2
unfolding first_timeout time_diff
name_of_late = refl

both_well : (monitor two_tasks 90).1.feeds ≡ 8
unfolding monitor time_diff
both_well = refl

two_tasks-InRange : Every (take 2 two_tasks.slots) (InRange 95)
two_tasks-InRange zero h = omega arith
two_tasks-InRange (suc zero) h = omega arith
two_tasks-InRange (suc (suc i)) h = absurd (omega arith)

monitor-feeds_example :
    (Every (slot_a ∷ slot_b ∷ []) (IsHealthy 95)
      × (monitor two_tasks 95 ≡ (true, record two_tasks { feeds = 8 })))
    ⊎ (¬ Every (slot_a ∷ slot_b ∷ []) (IsHealthy 95) × (monitor two_tasks 95 ≡ (false, two_tasks)))
monitor-feeds_example = monitor-feeds two_tasks 95 two_tasks-InRange

first_timeout-monitor_example :
    let slots = slot_a ∷ slot_b ∷ [] in
    (((monitor two_tasks 95).0 ≡ true) × (first_timeout two_tasks 95 ≡ none))
    ⊎ ((i : ℕ) × (i < 2)
        × ((monitor two_tasks 95).0 ≡ false)
        × (timed_out 95 (get_or slots i free_slot) ≡ true)
        × (first_timeout two_tasks 95 ≡ (get_or slots i free_slot).name)
        × ((j : ℕ) → j < i → timed_out 95 (get_or slots j free_slot) ≡ false))
first_timeout-monitor_example = first_timeout-monitor two_tasks 95
