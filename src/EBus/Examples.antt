-- ===== src/EBus/Examples.antt =====
-- The event bus at concrete inputs: tests, and the theorems applied.
use anbo_mos.Common.{ℕ, Bool, none, some, List, [], ◌∷◌, ◌≡◌, refl, ap, arith, ◌==◌, if◌then◌else◌}
use anbo_mos.Links
use anbo_mos.Links.{Node, Links}
use anbo_mos.EBus.{Event, Subscriber, Bus, init, set_sub, subscribe, unsubscribe, publish}
use anbo_mos.EBus.Buckets.{bucket}
use anbo_mos.EBus.Registry.{IsBus, subscribed, Reach, started, next, Reach-IsBus}
use anbo_mos.EBus.Publish.{told, staying, publish-told}
use anbo_mos.EBus.Stuck.{publish-stuck}

abbrev fresh : Bus
fresh = record {
  links = record { next = λ n. n; prev = λ n. n };
  subs = λ n. record { sig = 0; handler = 0; ctx = n };
}

-- 40 and 42 listen to the signal 7, and 41 to 39, whose bucket is the same.
abbrev three_listen : Bus
three_listen =
    subscribe (subscribe (subscribe (init fresh) (some 40) 7 (some 1) 40) (some 41) 39 (some 2) 41)
      (some 42) 7 (some 3) 42

three_listen-Reach : Reach three_listen (40 ∷ 41 ∷ 42 ∷ [])
three_listen-Reach =
    next
      (next (next (started fresh) (subscribed 40 7 1 40 refl (omega arith)))
        (subscribed 41 39 2 41 refl (omega arith)))
      (subscribed 42 7 3 42 refl (omega arith))

Reach-IsBus_example : IsBus three_listen (40 ∷ 41 ∷ 42 ∷ [])
Reach-IsBus_example = Reach-IsBus three_listen-Reach

abbrev listeners : Node → Subscriber
listeners =
    set_sub
      (set_sub (set_sub fresh.subs 40 (record { sig = 7; handler = 1; ctx = 40 })) 41
        (record { sig = 39; handler = 2; ctx = 41 }))
      42 (record { sig = 7; handler = 3; ctx = 42 })

listener_ctx : (n : Node) → (listeners n).ctx ≡ n
listener_ctx n = ground arith

three-IsBus : IsBus (record { links = three_listen.links; subs = listeners }) (40 ∷ 41 ∷ 42 ∷ [])
unfolding subscribe init
three-IsBus = Reach-IsBus three_listen-Reach

-- Every handler notes its context, and that of 40 unsubscribes it.
abbrev act : ℕ → Event → ℕ → Bus × List ℕ → Bus × List ℕ
act h e ctx (b, w) =
    (record b { links = if ctx == 40 then Links.remove b.links ctx else b.links }, ctx ∷ w)

abbrev quits : Node → Bool
quits n = n == 40

abbrev note : Node → List ℕ → List ℕ
note n w = n ∷ w

abbrev ping : Event
ping = record { sig = 7; param = 0 }

called : told ping listeners quits note (40 ∷ 41 ∷ 42 ∷ []) [] ≡ 42 ∷ 40 ∷ []
unfolding told
called = refl

publish-told_example :
    (l' : Links) × (publish act
        (λ sig w. sig ∷ w)
        9
        (some ping)
        (record { links = three_listen.links; subs = listeners }, [])
      ≡ some (
        record { links = l'; subs = listeners },
        told ping listeners quits note (40 ∷ 41 ∷ 42 ∷ []) (7 ∷ []),
      ))
    × IsBus
        (record { links = l'; subs = listeners })
        (staying {World = List ℕ} ping listeners quits note
          (bucket listeners 7 (40 ∷ 41 ∷ 42 ∷ []))
          (40 ∷ 41 ∷ 42 ∷ []))
publish-told_example =
    publish-told ping listeners quits note act
      (λ x l w. ap (λ c. act 0 ping c (record { links = l; subs = listeners }, w)) (listener_ctx x))
      (λ sig w. sig ∷ w) 9 (40 ∷ 41 ∷ 42 ∷ []) three_listen.links [] three-IsBus (omega arith)

-- The handler 1, of 40, unsubscribes 41.
abbrev stops_next : ℕ → Event → ℕ → Bus × ℕ → Bus × ℕ
stops_next h e ctx (b, w) = if h == 1 then (unsubscribe b (some 41), w) else (b, w)

publish-stuck_example :
    publish stops_next
      (λ sig w. w)
      1000
      (some ping)
      (record { links = three_listen.links; subs = listeners }, 0)
    ≡ none
unfolding bucket
publish-stuck_example =
    publish-stuck stops_next ping listeners 40 41 (λ b w. refl) (λ b w. refl) (λ sig w. w) 1000
      (record { links = three_listen.links; subs = listeners }) 0 (40 ∷ 41 ∷ 42 ∷ []) (42 ∷ [])
      three-IsBus refl refl refl
