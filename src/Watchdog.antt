-- ===== src/Watchdog.antt =====
-- kernel/src/anbo_wdt.c: software watchdog slots. The hardware watchdog is fed only when no
-- monitored slot has timed out. A handle is the byte of an `int8_t`: 255 is -1.
pub mod Health
pub mod Slots
pub mod Session
mod Examples
use anbo_mos.Common.{
  ℕ, zero, suc, ◌+◌, ◌%◌, ◌^◌, Bool, true, false, ◌&&◌, Option, none, some, List, [], ◌∷◌, ltb, leb,
  ◌==◌, if◌then◌else◌, get_or, set, take, replicate, gt_signed, time_diff,
}

pub data SlotState : Type 0 where
  slot_free slot_active slot_suspended : SlotState

-- `WDT_Slot`. A name is known by a number, and `none` is `NULL`.
pub record Slot : Type 0 where
  pub name : Option ℕ
  pub timeout_ms : ℕ
  pub last_checkin : ℕ
  pub state : SlotState

-- `s_slots` and `s_slot_count`, and how often the hardware watchdog has been fed.
pub record Watchdog : Type 0 where
  pub slots : List Slot
  pub slot_count : ℕ
  pub feeds : ℕ

abbrev pub max_slots : ℕ
max_slots = 8

abbrev pub slot_invalid : ℕ
slot_invalid = 255

abbrev pub free_slot : Slot
free_slot = record { name = none; timeout_ms = 0; last_checkin = 0; state = slot_free }

abbrev pub is_active : SlotState → Bool
is_active slot_active = true
is_active _ = false

abbrev pub slot_at : Watchdog → ℕ → Slot
slot_at w i = get_or w.slots i free_slot

abbrev pub set_slot : Watchdog → ℕ → Slot → Watchdog
set_slot w i s = record w { slots = set w.slots i s }

-- `(slot >= 0) && ((uint8_t)slot < s_slot_count)`
unfoldable pub slot_valid : Watchdog → ℕ → Bool
slot_valid w slot = ltb slot 128 && ltb slot w.slot_count

unfoldable pub init : Watchdog → Watchdog
init w = record w { slots = replicate max_slots free_slot; slot_count = 0 }

-- `tick` is what `Anbo_Arch_GetTick` returns.
unfoldable pub register : (tick : ℕ) → Watchdog → Option ℕ → (timeout_ms : ℕ) → ℕ × Watchdog
register tick w name timeout_ms = if leb max_slots w.slot_count then (slot_invalid, w) else (
  w.slot_count,
  record w {
    slots =
        set w.slots w.slot_count (record {
          name = name;
          timeout_ms = timeout_ms;
          last_checkin = tick;
          state = slot_active;
        });
    slot_count = (w.slot_count + 1) % 2 ^ 8;
  },
)

unfoldable pub checkin : (tick : ℕ) → Watchdog → ℕ → Watchdog
unfolding slot_valid
checkin tick w slot =
    if slot_valid w slot
    then if is_active (slot_at w slot).state
      then set_slot w slot (record (slot_at w slot) { last_checkin = tick })
      else w
    else w

unfoldable pub suspend : Watchdog → ℕ → Watchdog
unfolding slot_valid
suspend w slot =
    if slot_valid w slot
    then set_slot w slot (record (slot_at w slot) { state = slot_suspended })
    else w

unfoldable pub resume : (tick : ℕ) → Watchdog → ℕ → Watchdog
unfolding slot_valid
resume tick w slot =
    if slot_valid w slot
    then set_slot w slot (record (slot_at w slot) { last_checkin = tick; state = slot_active })
    else w

-- The test in the loops: the slot is monitored, and its last check-in is too long ago.
unfoldable pub timed_out : (now : ℕ) → Slot → Bool
timed_out now s = is_active s.state && gt_signed (time_diff now s.last_checkin) s.timeout_ms

-- The loop of `Anbo_WDT_Monitor` over the slots that are left: whether it runs through.
unfoldable pub monitor_loop : (now : ℕ) → List Slot → Bool
unfolding timed_out
monitor_loop now [] = true
monitor_loop now (s ∷ rest) = if timed_out now s then false else monitor_loop now rest

unfoldable pub monitor : Watchdog → (now : ℕ) → Bool × Watchdog
unfolding monitor_loop
monitor w now =
    if monitor_loop now (take w.slot_count w.slots)
    then (true, record w { feeds = w.feeds + 1 })
    else (false, w)

unfoldable pub first_timeout_loop : (now : ℕ) → List Slot → Option ℕ
unfolding timed_out
first_timeout_loop now [] = none
first_timeout_loop now (s ∷ rest) = if timed_out now s then s.name else first_timeout_loop now rest

unfoldable pub first_timeout : Watchdog → (now : ℕ) → Option ℕ
unfolding first_timeout_loop
first_timeout w now = first_timeout_loop now (take w.slot_count w.slots)
