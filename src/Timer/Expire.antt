-- ===== src/Timer/Expire.antt =====
-- One expiry: the timer leaves the active list, and comes back at a later place if it is periodic.
use anbo_mos.Common.{
  ℕ, ◌<◌, false, some, List, [], ◌∷◌, ◌≡◌, refl, ◌≢◌, inl, inr, Bool-cases, arith, if◌then◌else◌,
  length, add32,
}
use anbo_mos.Links
use anbo_mos.Links.{Node, Links}
use anbo_mos.Links.Chain.{mem}
use anbo_mos.Links.Remove.{remove-IsRing}
use anbo_mos.Timer.{Timers, Timer, stopped, active_list, is_periodic, set_timer, later, expire}
use anbo_mos.Timer.Place.{place}
use anbo_mos.Timer.Start.{IsActive, armed, arm-Armed}

abbrev pub Clock : Type 0
Clock = (Node → Timer) × List Node

-- the timers once `e` is marked as stopped
abbrev pub stopped_at : (Node → Timer) → Node → Node → Timer
stopped_at ts e = set_timer ts e (record (ts e) { state = stopped })

-- and once it is armed again
abbrev pub rearmed : ℕ → (Node → Timer) → Node → Node → Timer
rearmed now ts e = armed (stopped_at ts e) e (add32 now (ts e).period)

-- What an expiry of `e` makes of the timers and of the list of the others.
unfoldable pub settled : ℕ → Clock → Node → Clock
settled now (ts, rs) e =
    if is_periodic (ts e).mode
    then (
      rearmed now ts e,
      place (λ y. later (rearmed now ts e y).deadline (rearmed now ts e e).deadline) e rs,
    )
    else (stopped_at ts e, rs)

-- The first timer of the active list expires as specified.
pub expire-settled :
    (rounds now : ℕ) (s : Timers) (e : Node) (rs : List Node)
    → IsActive s (e ∷ rs)
    → length rs < rounds
    → (s' : Timers) × (expire rounds now s e ≡ some s')
      × IsActive s' (settled now (s.timers, rs) e).1
      × (s'.timers ≡ (settled now (s.timers, rs) e).0)
unfolding expire settled
expire-settled rounds now s e rs v f =
    let (ring, _, _) = remove-IsRing s.links active_list e [] rs v.ring in
    let ne : e ≢ active_list = ground (arith, v.ring.apart) in
    let out : mem e rs ≡ false = v.ring.distinct.0 in
    let s1 : Timers = record { links = Links.remove s.links e; timers = stopped_at s.timers e } in
    elim (Bool-cases (is_periodic (s.timers e).mode)) [
      | inl again ↦
          let (s', eq, a) =
            arm-Armed rounds s1 e (add32 now (s.timers e).period) rs ne ring
              (λ n d. ground (arith, v.marked n)) out f in
          rw again (s', eq, a.active, a.timers_eq)
      | inr once ↦
          rw once (s1, refl, record { ring = ring; marked = λ n. ground (arith, v.marked n) }, refl)
    ]
