-- ===== src/Timer/Start.antt =====
-- `Anbo_Timer_Start` and `Anbo_Timer_Stop`: which timers run, and in which order.
use mathlib.Core.Path.{subst}
use anbo_mos.Common.{
  ℕ, ◌<◌, false, some, List, ◌≡◌, refl, ◌≢◌, ap, ◌∙◌, inl, inr, Bool-cases, arith, length, add32,
}
use anbo_mos.Links.{Node}
use anbo_mos.Links.Chain.{mem, IsRing}
use anbo_mos.Links.Remove.{erase, erase-absent, mem-erase, length-erase, remove-erase}
use anbo_mos.Timer.{
  Timers, Timer, running, active_list, is_active, set_timer, later, unlink, arm, start, stop,
}
use anbo_mos.Timer.Place.{place, mem-place}
use anbo_mos.Timer.Insert.{after, insert_sorted-place}

-- The active list holds `xs`, and these are the timers that are marked as running.
pub record IsActive (s : Timers) (xs : List Node) : Type 0 where
  pub ring : IsRing s.links active_list xs
  pub marked : (n : Node) → is_active (s.timers n).state ≡ mem n xs

module _ (s : Timers) (xs : List Node) (v : IsActive s xs) (tmr : Node) where
  unlink-IsRing : IsRing (unlink s tmr).links active_list (erase tmr xs)
  unfolding unlink
  unlink-IsRing = elim (Bool-cases (mem tmr xs)) [
    | inl held ↦ rw (v.marked tmr ∙ held) (remove-erase s.links active_list tmr xs v.ring held)
    | inr absent ↦ rw (v.marked tmr ∙ absent, erase-absent tmr xs absent) v.ring
  ]

  timers-unlink : (unlink s tmr).timers ≡ s.timers
  unfolding unlink
  timers-unlink = ground arith

  -- Stopping a timer takes it off the active list, keeps the order of the others, and marks it so.
  pub stop-IsActive : IsActive (stop s (some tmr)) (erase tmr xs)
  unfolding stop
  stop-IsActive = elim (Bool-cases (mem tmr xs)) [
    | inl held ↦ rw (v.marked tmr ∙ held) (record {
      ring = remove-erase s.links active_list tmr xs v.ring held;
      marked = λ n. ground (arith, mem-erase n tmr xs v.ring.distinct, v.marked n);
    })
    | inr absent ↦ rw (v.marked tmr ∙ absent, erase-absent tmr xs absent) v
  ]

-- the timers once one of them is armed
abbrev pub armed : (Node → Timer) → Node → (deadline : ℕ) → Node → Timer
armed ts tmr deadline = set_timer ts tmr (record (ts tmr) { deadline = deadline; state = running })

-- Only this timer has changed: it is armed for `deadline`, and the active list holds it behind all
-- the timers of `xs` that do not expire later, and before the others.
pub record Armed (ts : Node → Timer) (tmr : Node) (deadline : ℕ) (xs : List Node) (s' : Timers)
    : Type 0 where
  pub timers_eq : s'.timers ≡ armed ts tmr deadline
  pub active : IsActive s' (
      place
        (λ y. later (armed ts tmr deadline y).deadline (armed ts tmr deadline tmr).deadline)
        tmr
        xs)

pub arm-Armed :
    (fuel : ℕ) (s : Timers) (tmr : Node) (deadline : ℕ) (xs : List Node)
    → tmr ≢ active_list
    → IsRing s.links active_list xs
    → ((n : Node) → n ≢ tmr → is_active (s.timers n).state ≡ mem n xs)
    → mem tmr xs ≡ false
    → length xs < fuel
    → (s' : Timers) × (arm fuel s tmr deadline ≡ some s') × Armed s.timers tmr deadline xs s'
unfolding arm
arm-Armed fuel s tmr deadline xs ne ring marked out f =
    let s1 : Timers = record s { timers = armed s.timers tmr deadline } in
    let (l, e, r) = insert_sorted-place fuel s1 tmr xs ne ring out f in
    (
      record s1 { links = l },
      e,
      record {
        timers_eq = refl;
        active = record {
          ring = r;
          marked = λ n. ground (arith, mem-place n (after s1 tmr) tmr xs, marked n);
        };
      },
    )

start-arm :
    (fuel tick : ℕ) (s : Timers) (tmr : Node) (cb : ℕ)
    → (s.timers tmr).callback ≡ some cb
    → start fuel tick s (some tmr) ≡ arm fuel (unlink s tmr) tmr (add32 tick (s.timers tmr).period)
unfolding start
start-arm fuel tick s tmr cb h = rw (h, start)

-- `Anbo_Timer_Start`, on a timer with a callback, whether it runs already or not: within enough
-- rounds it arms the timer for the tick plus its period, and moves it to its place in the order.
pub start-Armed :
    (fuel tick : ℕ) (s : Timers) (xs : List Node) (tmr : Node) (cb : ℕ)
    → IsActive s xs
    → tmr ≢ active_list
    → (s.timers tmr).callback ≡ some cb
    → length xs < fuel
    → (s' : Timers) × (start fuel tick s (some tmr) ≡ some s')
      × Armed s.timers tmr (add32 tick (s.timers tmr).period) (erase tmr xs) s'
unfolding start
start-Armed fuel tick s xs tmr cb v ne has_cb f =
    let due = add32 tick (s.timers tmr).period in
    let ts = timers-unlink s xs v tmr in
    let (s', e, a) =
      arm-Armed fuel (unlink s tmr) tmr due (erase tmr xs) ne (unlink-IsRing s xs v tmr)
        (λ n d.
          ap (λ t. is_active (t n).state) ts
          ∙ (rw (v.marked n) (ground (arith, mem-erase n tmr xs v.ring.distinct))))
        (ground (arith, mem-erase tmr tmr xs v.ring.distinct))
        (omega (arith, length-erase tmr xs)) in
    (
      s',
      start-arm fuel tick s tmr cb has_cb ∙ e,
      subst (λ t. Armed t tmr due (erase tmr xs) s') ts a,
    )
