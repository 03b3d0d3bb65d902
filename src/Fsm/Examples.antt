-- ===== src/Fsm/Examples.antt =====
-- State machines at concrete inputs: tests, and the theorems applied.
use anbo_mos.Common.{ℕ, none, some, List, [], ◌∷◌, ◌≡◌, refl, arith}
use anbo_mos.EBus.{Bus}
use anbo_mos.EBus
use anbo_mos.EBus.Registry.{started, next, subscribed, Reach-IsBus}
use anbo_mos.Fsm.{State, Fsm, subscribe, unsubscribe_all, transfer}
use anbo_mos.Fsm.Subscriptions.{others, IsListening, unsubscribe_all-IsListening}

abbrev quiet : Bus
quiet = EBus.init (record {
  links = record { next = λ n. n; prev = λ n. n };
  subs = λ n. record { sig = 0; handler = 0; ctx = n };
})

abbrev machine : Fsm
machine = record { name = some 1; current = none; subs = 100; sub_count = 0; user_data = 0 }

abbrev idle : State
idle = record { name = some 7; on_entry = some 70; on_exit = some 71; on_event = none }

abbrev busy : State
busy = record { name = some 8; on_entry = some 80; on_exit = some 81; on_event = none }

-- The exit of the old state comes before the entry of the new one.
idle_to_busy :
    (transfer {World = List ℕ}
      (λ c (fsm, w). (fsm, c ∷ w))
      (λ c e s. s)
      (λ fsm target w. w)
      (record machine { current = some idle }, [])
      (some busy))
    ≡ (record machine { current = some busy }, 80 ∷ 71 ∷ [])
unfolding transfer
idle_to_busy = refl

-- The machine subscribes between two others, 90 and 91.
abbrev first_bus : Bus
first_bus = EBus.subscribe quiet (some 90) 40 (some 1) 0

abbrev once : Bus × Fsm
once = (subscribe 5 9 (first_bus, machine) 40).1

abbrev crowded : Bus
crowded = EBus.subscribe once.0 (some 91) 8 (some 2) 0

crowded-IsListening : IsListening crowded once.1 (90 ∷ 100 ∷ 91 ∷ [])
unfolding subscribe
crowded-IsListening = record {
  bus = Reach-IsBus (
      next
        (next (next (started _) (subscribed 90 40 1 0 refl (omega arith)))
          (subscribed 100 40 5 9 refl (omega arith)))
        (subscribed 91 8 2 0 refl (omega arith)));
  few = omega arith;
  apart = omega arith;
  own = λ i h. ground arith;
}

unsubscribe_all-IsListening_example :
    let s = unsubscribe_all (crowded, once.1) in
    IsListening s.0 s.1 (90 ∷ 91 ∷ []) × (s.1.sub_count ≡ 0)
unfolding others subscribe
unsubscribe_all-IsListening_example = unsubscribe_all-IsListening crowded-IsListening
