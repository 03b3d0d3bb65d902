-- ===== src/Timer/Examples.antt =====
-- The timers at concrete inputs: tests, and the theorems applied.
use mathlib.Core.Option.{map}
use anbo_mos.Common.{
  ℕ, Option, inl, inr, Bool-cases, ◌-◌, ◌^◌, none, some, List, [], ◌∷◌, ◌≡◌, refl, arith, ◌==◌,
  ◌||◌, if◌then◌else◌, time_diff,
}
use anbo_mos.Links
use anbo_mos.Links.{Node, Links}
use anbo_mos.Links.Remove.{erase}
use anbo_mos.Timer.{
  Timer, Timers, oneshot, periodic, stopped, running, start, stop, update, insert_sorted,
}
use anbo_mos.Timer.Compensate.{compensate_all}
use anbo_mos.Timer.Compensate.Result.{HasPeriod, IsCompensated, compensate_all-IsCompensated}
use anbo_mos.Timer.Place.{IsSorted}
use anbo_mos.Timer.Start.{IsActive, Armed, start-Armed}
use anbo_mos.Timer.Order.{since, start-IsSorted}
use anbo_mos.Timer.Due.{settle_all}
use anbo_mos.Timer.Window.{Timely, Timely-Due}
use anbo_mos.Timer.Update.{noted_all, update-settled}
use anbo_mos.Timer.Stuck.{update-stuck}

-- Timer 5 was due 5 ticks before the tick count wrapped, and is periodic; 6 is due at 3, 7 at 50.
abbrev timer_at : Node → Timer
timer_at n =
    if n == 5
    then record {
      deadline = 2 ^ 32 - 5;
      period = 100;
      mode = periodic;
      state = running;
      callback = some 1;
      user_data = 0;
    }
    else if n == 6
    then record {
      deadline = 3;
      period = 8;
      mode = oneshot;
      state = running;
      callback = some 2;
      user_data = 0;
    }
    else if n == 7
    then record {
      deadline = 50;
      period = 50;
      mode = oneshot;
      state = running;
      callback = none;
      user_data = 0;
    }
    else record {
      deadline = 0;
      period = 20;
      mode = oneshot;
      state = stopped;
      callback = some 3;
      user_data = 0;
    }

abbrev three_timers : Timers
three_timers = record {
  links = record {
    next = λ n.
        if n == 0 then 5 else if n == 5 then 6 else if n == 6 then 7 else if n == 7 then 0 else n;
    prev = λ n.
        if n == 0 then 7 else if n == 5 then 0 else if n == 6 then 5 else if n == 7 then 6 else n;
  };
  timers = timer_at;
}

three_timers-IsActive : IsActive three_timers (5 ∷ 6 ∷ 7 ∷ [])
three_timers-IsActive = record {
  ring = record {
    chain = (refl, refl, (refl, refl, (refl, refl, (refl, refl))));
    apart = refl;
    distinct = (refl, (refl, (refl, tt)));
  };
  marked = λ n. ground arith;
}

-- The world is the list of the callbacks made so far, the last one first.
abbrev record_call : ℕ → Node → List (ℕ × Node) → List (ℕ × Node)
record_call cb n calls = (cb, n) ∷ calls

abbrev recorder : ℕ → Node → Timers × List (ℕ × Node) → Timers × List (ℕ × Node)
recorder cb n (s, calls) = (s, record_call cb n calls)

updated_calls : map (λ r. r.1) (update recorder 9 10 three_timers []) ≡ some ((2, 6) ∷ (1, 5) ∷ [])
unfolding update time_diff Links.remove Links.insert_tail Links.insert_between map
updated_calls = refl

now_is-Timely : Timely (2 ^ 32 - 100) 10 timer_at (5 ∷ 6 ∷ []) (7 ∷ [])
now_is-Timely = record {
  base_word = omega arith;
  now_word = omega arith;
  now_near = omega arith;
  word = λ n. ground arith;
  reached = λ e i. ground arith;
  ahead = λ r i. ground arith;
  near = λ r i. ground arith;
  period_pos = λ e i p. ground arith;
  period_near = λ e i p. ground arith;
}

start-Armed_example :
    (s' : Timers) × (start 4 10 three_timers (some 6) ≡ some s')
    × Armed timer_at 6 18 (5 ∷ 7 ∷ []) s'
unfolding erase
start-Armed_example =
    start-Armed 4 10 three_timers (5 ∷ 6 ∷ 7 ∷ []) 6 2 three_timers-IsActive (omega arith) refl
      (omega arith)

start-IsSorted_example :
    (s' : Timers) × (ys : List Node) × (start 4 10 three_timers (some 8) ≡ some s')
    × IsActive s' ys
    × IsSorted (since (2 ^ 32 - 100) s'.timers) ys
start-IsSorted_example =
    start-IsSorted (2 ^ 32 - 100) 4 10 three_timers (5 ∷ 6 ∷ 7 ∷ []) 8 3 three_timers-IsActive
      (record { base_word = omega arith; word = λ n. ground arith; near = λ n i. ground arith })
      (omega arith) (omega arith) refl (omega arith) (omega arith)

update-settled_example :
    (s' : Timers) × (update recorder 4 10 three_timers []
      ≡ some (s', noted_all record_call timer_at (5 ∷ 6 ∷ []) []))
    × IsActive s' (settle_all 10 (timer_at, 7 ∷ []) (5 ∷ 6 ∷ [])).1
    × (s'.timers ≡ (settle_all 10 (timer_at, 7 ∷ []) (5 ∷ 6 ∷ [])).0)
update-settled_example =
    update-settled record_call recorder (λ cb n s w. refl) 4 10 (5 ∷ 6 ∷ []) (7 ∷ []) three_timers
      [] three_timers-IsActive (Timely-Due now_is-Timely) (omega arith)

-- Timers 6 and 7 have expired at 60, and the callback of 6 stops 7.
abbrev two_timers : Timers
two_timers = record {
  links = record {
    next = λ n. if n == 0 then 6 else if n == 6 then 7 else if n == 7 then 0 else n;
    prev = λ n. if n == 0 then 7 else if n == 6 then 0 else if n == 7 then 6 else n;
  };
  timers = λ n. record (timer_at n) {
    state = if (n == 6) || (n == 7) then running else stopped;
    callback = some (if n == 6 then 4 else 5);
  };
}

two_timers-IsActive : IsActive two_timers (6 ∷ 7 ∷ [])
two_timers-IsActive = record {
  ring = record {
    chain = (refl, refl, (refl, refl, (refl, refl)));
    apart = refl;
    distinct = (refl, (refl, tt));
  };
  marked = λ n. ground arith;
}

abbrev stops_seven : ℕ → Node → Timers × ℕ → Timers × ℕ
stops_seven cb n (s, w) = if cb == 4 then (stop s (some 7), w) else (s, w)

update-stuck_example : update stops_seven 1000 60 two_timers 0 ≡ none
update-stuck_example =
    update-stuck stops_seven 60 6 7 4 5 (λ s w. refl) (λ s w. refl) 1000 [] two_timers 0
      two_timers-IsActive (record { once = refl; due = unfold time_diff in refl; calls = refl })
      (record { once = refl; due = unfold time_diff in refl; calls = refl })

abbrev next_of : Option Timers → Node → Node
next_of none n = n
next_of (some s) n = s.links.next n

-- After a sleep until 10 the order is 6, 7, 5.
compensated_order :
    let next = next_of (compensate_all 5 10 100 three_timers) in
    (next 0 ≡ 6) × (next 6 ≡ 7) × (next 7 ≡ 5) × (next 5 ≡ 0)
unfolding compensate_all Links.is_empty Links.init Links.insert_tail Links.remove insert_sorted
    time_diff
compensated_order = (refl, refl, refl, refl)

timer_at-HasPeriod : (n : Node) → HasPeriod (timer_at n)
timer_at-HasPeriod n = elim (Bool-cases (n == 5)) [
  | inl five ↦ rw five (inr (omega arith))
  | inr other ↦ inl (ground arith)
]

compensate_all-IsCompensated_example :
    (s' : Timers) × (ys : List Node) × (compensate_all 5 10 100 three_timers ≡ some s')
    × IsCompensated 10 three_timers s' (5 ∷ 6 ∷ 7 ∷ []) ys
compensate_all-IsCompensated_example =
    compensate_all-IsCompensated 10 three_timers (5 ∷ 6 ∷ 7 ∷ []) three_timers-IsActive
      (omega arith) (λ n. ground arith) timer_at-HasPeriod 5 100 (omega arith) refl (omega arith)
