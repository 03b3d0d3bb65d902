-- ===== src/Watchdog/Slots.antt =====
-- Handles and slots: what registering, checking in, suspending and resuming change.
use anbo_mos.Common.{
  ℕ, ◌+◌, ◌%◌, ◌^◌, ◌≤◌, ◌<◌, true, Option, ◌≡◌, refl, ◌≢◌, ◌∙◌, get_or-replicate, ◌⊎◌, inl, inr,
  Bool-cases, ap, sym, arith, leb, length, length-set, get_or-set_self, get_or-set_ne,
}
use anbo_mos.Watchdog.{
  Slot, slot_free, slot_active, slot_suspended, Watchdog, slot_at, set_slot, free_slot,
  slot_invalid, max_slots, slot_valid, init, register, checkin, suspend, resume,
}

-- There are as many slots as the table has, and those from the count on are free.
pub record IsValid (w : Watchdog) : Type 0 where
  pub table : length w.slots ≡ max_slots
  pub counted : w.slot_count ≤ max_slots
  pub rest_free : (i : ℕ) → w.slot_count ≤ i → i < max_slots → (slot_at w i).state ≡ slot_free

pub init-IsValid : (w : Watchdog) → IsValid (init w)
unfolding init
init-IsValid w = record {
  table = refl;
  counted = omega arith;
  rest_free = λ i _ h. ap (λ s. s.state) (get_or-replicate max_slots i free_slot);
}

module _ (w : Watchdog) (v : IsValid w) where
  -- `Anbo_WDT_Register` hands out the handles 0 to 7 in turn, each of a slot that was free, is now
  -- monitored from this tick on and carries the given name and timeout; from then on it returns -1
  -- and changes nothing. No other slot changes.
  pub register_lem :
      (tick : ℕ) (name : Option ℕ) (timeout_ms : ℕ)
      → let (h, w') = register tick w name timeout_ms in
        IsValid w'
        × (((w.slot_count ≡ max_slots) × (h ≡ slot_invalid) × (w' ≡ w))
            ⊎ ((h ≡ w.slot_count)
                × (slot_valid w' h ≡ true)
                × ((slot_at w h).state ≡ slot_free)
                × (slot_at w' h ≡ record {
                  name = name;
                  timeout_ms = timeout_ms;
                  last_checkin = tick;
                  state = slot_active;
                })
                × ((i : ℕ) → i ≢ h → slot_at w' i ≡ slot_at w i)))
  unfolding register slot_valid
  register_lem tick name timeout_ms =
      let n = w.slot_count in
      let made : Slot = record {
        name = name;
        timeout_ms = timeout_ms;
        last_checkin = tick;
        state = slot_active;
      } in
      elim (Bool-cases (leb max_slots n)) [
        | inl full ↦ rw full (v, inl (ground (arith, v.counted), refl, refl))
        | inr room ↦
            let h : n < max_slots = ground arith in
            let grown : (n + 1) % 2 ^ 8 ≡ n + 1 = omega arith in
            rw (room, grown)
              (
                record {
                  table = rw length-set v.table;
                  counted = omega arith;
                  rest_free = λ i p q.
                      ap (λ s. s.state) (get_or-set_ne w.slots n i made free_slot (omega arith))
                      ∙ v.rest_free i (omega arith) q;
                },
                inr (
                  refl,
                  ground arith,
                  v.rest_free n (omega arith) h,
                  get_or-set_self w.slots n made free_slot (omega (arith, v.table)),
                  λ i ne. get_or-set_ne w.slots n i made free_slot (λ e. ne (sym e)),
                ),
              )
      ]

  -- A change of one registered slot.
  set_slot-IsValid : (i : ℕ) (s : Slot) → i < w.slot_count → IsValid (set_slot w i s)
  set_slot-IsValid i s h = record {
    table = length-set w.slots i s ∙ v.table;
    counted = v.counted;
    rest_free = λ j p q.
        ap (λ t. t.state) (get_or-set_ne w.slots i j s free_slot (omega arith)) ∙ v.rest_free j p q;
  }

  slot_at-set_slot : (i : ℕ) (s : Slot) → i < w.slot_count → slot_at (set_slot w i s) i ≡ s
  slot_at-set_slot i s h = get_or-set_self w.slots i s free_slot (omega (arith, v.table, v.counted))

  pub checkin-IsValid : (tick h : ℕ) → IsValid (checkin tick w h)
  unfolding checkin
  checkin-IsValid tick h =
      ground (arith, v, set_slot-IsValid h (record (slot_at w h) { last_checkin = tick }))

  pub suspend-IsValid : (h : ℕ) → IsValid (suspend w h)
  unfolding suspend
  suspend-IsValid h =
      ground (arith, v, set_slot-IsValid h (record (slot_at w h) { state = slot_suspended }))

  pub resume-IsValid : (tick h : ℕ) → IsValid (resume tick w h)
  unfolding resume
  resume-IsValid tick h = ground (
    arith,
    v,
    set_slot-IsValid h (record (slot_at w h) { last_checkin = tick; state = slot_active }),
  )

  pub suspend-set_slot :
      (h : ℕ)
      → slot_valid w h ≡ true
      → slot_at (suspend w h) h ≡ record (slot_at w h) { state = slot_suspended }
  unfolding suspend
  suspend-set_slot h ok =
      rw ok (slot_at-set_slot h (record (slot_at w h) { state = slot_suspended }) (ground arith))

  pub resume-set_slot :
      (tick h : ℕ)
      → slot_valid w h ≡ true
      → slot_at (resume tick w h) h
        ≡ record (slot_at w h) { last_checkin = tick; state = slot_active }
  unfolding resume
  resume-set_slot tick h ok = rw ok (
      slot_at-set_slot h (record (slot_at w h) { last_checkin = tick; state = slot_active })
        (ground arith))
