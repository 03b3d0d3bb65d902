-- ===== src/Watchdog/Session.antt =====
-- A client's calls on the watchdog monitor, and the monitored life of a slot.
use anbo_mos.Common.{
  ℕ, ◌^◌, ◌≤◌, ◌<◌, true, false, ◌&&◌, Option, ◌≡◌, ◌∙◌, inl, inr, Bool-cases, take, ap, arith, ltb,
  sub32, gt_signed, time_diff,
}
use anbo_mos.Watchdog.{
  Slot, slot_active, Watchdog, is_active, slot_at, slot_valid, timed_out, init, register, checkin,
  suspend, resume, monitor_loop, monitor,
}
use anbo_mos.Watchdog.Slots.{
  IsValid, init-IsValid, register_lem, checkin-IsValid, suspend-IsValid, resume-IsValid,
  suspend-set_slot, resume-set_slot,
}

-- One call, at a tick, with any handle.
pub data Step (w : Watchdog) : Watchdog → Type 0 where
  registered :
      (tick : ℕ) (name : Option ℕ) (timeout_ms : ℕ) → Step w (register tick w name timeout_ms).1
  checked_in : (tick slot : ℕ) → Step w (checkin tick w slot)
  suspended : (slot : ℕ) → Step w (suspend w slot)
  resumed : (tick slot : ℕ) → Step w (resume tick w slot)
  monitored : (now : ℕ) → Step w (monitor w now).1

pub data Reach : Watchdog → Type 0 where
  started : (w : Watchdog) → Reach (init w)
  next : {w w' : Watchdog} → Reach w → Step w w' → Reach w'

monitor-IsValid : (w : Watchdog) (now : ℕ) → IsValid w → IsValid (monitor w now).1
unfolding monitor
monitor-IsValid w now v = elim (Bool-cases (monitor_loop now (take w.slot_count w.slots))) [
  | inl fed ↦ rw fed (record { table = v.table; counted = v.counted; rest_free = v.rest_free })
  | inr late ↦ rw late v
]

Step-IsValid : {w w' : Watchdog} → Step w w' → IsValid w → IsValid w'
Step-IsValid {w} (registered tick name timeout_ms) v = (register_lem w v tick name timeout_ms).0
Step-IsValid {w} (checked_in tick slot) v = checkin-IsValid w v tick slot
Step-IsValid {w} (suspended slot) v = suspend-IsValid w v slot
Step-IsValid {w} (resumed tick slot) v = resume-IsValid w v tick slot
Step-IsValid {w} (monitored now) v = monitor-IsValid w now v

-- After `Anbo_WDT_Init`, whatever calls are made, with whatever handles, the table keeps its 8
-- slots, at most 8 are counted, and those from the count on are free.
pub Reach-IsValid : {w : Watchdog} → Reach w → IsValid w
Reach-IsValid (started w) = init-IsValid w
Reach-IsValid (next r s) = Step-IsValid s (Reach-IsValid r)

-- A suspended slot never times out, and a check-in does not bring it back.
pub suspend-silent :
    (w : Watchdog) (slot tick now : ℕ)
    → IsValid w
    → slot_valid w slot ≡ true
    → (checkin tick (suspend w slot) slot ≡ suspend w slot)
      × (timed_out now (slot_at (suspend w slot) slot) ≡ false)
unfolding checkin timed_out
suspend-silent w slot tick now v ok =
    let e = ap (λ (s : Slot). is_active s.state) (suspend-set_slot w v slot ok) in
    (ground arith, ground arith)

-- A resumed slot times out exactly when the resumption is longer ago than its timeout.
pub resume-monitored :
    (w : Watchdog) (slot tick now : ℕ)
    → IsValid w
    → slot_valid w slot ≡ true
    → (slot_at w slot).timeout_ms < 2 ^ 31
    → sub32 now tick < 2 ^ 31
    → timed_out now (slot_at (resume tick w slot) slot)
      ≡ ltb (slot_at w slot).timeout_ms (sub32 now tick)
unfolding timed_out time_diff
resume-monitored w slot tick now v ok small near =
    ap (timed_out now) (resume-set_slot w v tick slot ok) ∙ (ground arith)

-- A monitored slot with a timeout of 2 ^ 31 ms or more, which the code reads as a negative number,
-- counts as timed out from the tick of its check-in on, however little time has passed.
pub timed_out_large :
    (s : Slot) (now : ℕ)
    → s.state ≡ slot_active
    → 2 ^ 31 ≤ s.timeout_ms
    → s.timeout_ms < 2 ^ 32
    → sub32 now s.last_checkin < 2 ^ 31
    → timed_out now s ≡ true
unfolding timed_out time_diff
timed_out_large s now a big word near =
    ap (λ st. is_active st && gt_signed (sub32 now s.last_checkin) s.timeout_ms) a ∙ (ground arith)
