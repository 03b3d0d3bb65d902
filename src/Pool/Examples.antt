-- ===== src/Pool/Examples.antt =====
-- The pool at concrete inputs: tests, and the theorems applied.
use anbo_mos.Common.{
  ℕ, ◌-◌, ◌≤◌, ◌<◌, none, some, [], ◌∷◌, ◌≡◌, refl, arith, ◌==◌, if◌then◌else◌, replicate, set,
}
use anbo_mos.Ring.Window.{window}
use anbo_mos.Ring.Session.{push}
use anbo_mos.Pool.{Pool, link, event, init, alloc, free, post, set_block, dispatch}
use anbo_mos.Pool.Owners.{allocated, written, freed, Reach, started, next, IsOwned, Reach-IsOwned}
use anbo_mos.Pool.Queue.{IsQueue, pending, post-push}
use anbo_mos.Pool.Counts.{retain_times, release_times, dispatch-lifetime, dispatch-wrapped}

abbrev nothing : Pool
nothing = record {
  blocks = λ b. link none;
  free_head = none;
  free_count = 0;
  evtq = replicate 32 0;
  evtq_head = 0;
  evtq_tail = 0;
}

abbrev without_first : Pool
without_first = record (init nothing) { free_head = some 1; free_count = 19 }

-- One block is allocated, written with an event, and freed again.
cycle-Reach : Reach (free (set_block without_first 0 (event 7 1)) (some 0)) []
unfolding init alloc
cycle-Reach =
    next (next (next (started nothing) (allocated 0 refl)) (written 0 (event 7 1) refl))
      (freed [] 0 [] refl refl)

Reach-IsOwned_example : IsOwned (free (set_block without_first 0 (event 7 1)) (some 0)) []
Reach-IsOwned_example = Reach-IsOwned cycle-Reach

-- Events 4 and 9 wait; the next write goes to the start of the array.
abbrev turning : Pool
turning = record nothing {
  evtq = set (set (replicate 32 0) 30 4) 31 9;
  evtq_head = 0;
  evtq_tail = 30;
}

turning-IsQueue : IsQueue turning
turning-IsQueue = record { storage = refl; head_in = omega arith; tail_in = omega arith }

turning-pending : pending turning ≡ 4 ∷ 9 ∷ []
unfolding pending window
turning-pending = refl

post-push_example :
    let (r, s') = post turning (some 5) in
    ((r, pending s') ≡ push 31 (pending turning) 5) × IsQueue s'
post-push_example = post-push turning turning-IsQueue 5

abbrev holding : Pool
holding = set_block nothing 3 (event 7 0)

dispatch-lifetime_example :
    (dispatch (λ sig e. retain_times 2 e) holding (some 3) ≡ some (set_block holding 3 (event 7 2)))
    × ((j : ℕ)
        → j ≤ 2
        → 0 < 2
        → release_times j 3 (set_block holding 3 (event 7 2))
          ≡ some
              (if 2 - j == 0 then free holding (some 3) else set_block holding 3 (event 7 (2 - j))))
dispatch-lifetime_example = dispatch-lifetime holding 3 7 2 0 refl (omega arith)

dispatch-wrapped_example :
    dispatch (λ sig e. retain_times 255 e) holding (some 3) ≡ some (free holding (some 3))
dispatch-wrapped_example = dispatch-wrapped holding 3 7 0 refl
