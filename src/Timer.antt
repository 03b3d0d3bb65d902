-- ===== src/Timer.antt =====
-- kernel/src/anbo_timer.c: software timers on an intrusive list in order of their deadlines.
-- A timer is known by the address of its list node. Critical sections are not modelled: between
-- two callbacks the code runs alone. Each loop takes fuel, a bound on its rounds.
pub mod Place
pub mod Insert
pub mod Start
pub mod Expire
pub mod Due
pub mod Order
pub mod Window
pub mod Update
pub mod Stuck
pub mod Compensate
mod Examples
use anbo_mos.Common.{
  ℕ, zero, suc, ◌+◌, ◌^◌, ◌-◌, Bool, true, false, not, ◌&&◌, Option, none, some, ltb, ◌==◌,
  if◌then◌else◌, add32, gt_signed, time_diff,
}
use anbo_mos.Links
use anbo_mos.Links.{Node, Links}

pub data Mode : Type 0 where
  oneshot periodic : Mode

pub data RunState : Type 0 where
  stopped running : RunState

-- `Anbo_Timer`, less its node. A callback is known by a number, and `none` is `NULL`.
pub record Timer : Type 0 where
  pub deadline : ℕ
  pub period : ℕ
  pub mode : Mode
  pub state : RunState
  pub callback : Option ℕ
  pub user_data : ℕ

-- The list pointers and the timers of the memory.
pub record Timers : Type 0 where
  pub links : Links
  pub timers : Node → Timer

-- The address of `s_active_list`.
abbrev pub active_list : Node
active_list = 0

abbrev pub is_periodic : Mode → Bool
is_periodic oneshot = false
is_periodic periodic = true

abbrev pub is_active : RunState → Bool
is_active stopped = false
is_active running = true

abbrev pub set_timer : (Node → Timer) → Node → Timer → Node → Timer
set_timer ts n t m = if m == n then t else ts m

-- `time_diff(a, b) > 0`
abbrev pub later : ℕ → ℕ → Bool
later a b = gt_signed (time_diff a b) 0

-- The loop of `timer_insert_sorted` from `pos` on.
unfoldable pub insert_sorted_loop : ℕ → Timers → (tmr pos : Node) → Option Timers
insert_sorted_loop zero s tmr pos = none
insert_sorted_loop (suc fuel) s tmr pos =
    let rest = insert_sorted_loop fuel s tmr (s.links.next pos) in
    if pos == active_list
    then some (record s { links = Links.insert_tail s.links active_list tmr })
    else if later (s.timers pos).deadline (s.timers tmr).deadline
    then some (record s { links = Links.insert_between s.links tmr (s.links.prev pos) pos })
    else rest

unfoldable pub insert_sorted : ℕ → Timers → Node → Option Timers
unfolding insert_sorted_loop
insert_sorted fuel s tmr = insert_sorted_loop fuel s tmr (s.links.next active_list)

unfoldable pub init : Timers → Timers
init s = record s { links = Links.init s.links active_list }

unfoldable pub create :
    Timers → (tmr : Option Node) → Mode → (period : ℕ) → (cb : Option ℕ) → (user_data : ℕ) → Timers
create s none mode period_ms cb user_data = s
create s (some tmr) mode period_ms cb user_data = record {
  links = Links.init s.links tmr;
  timers = set_timer s.timers tmr (record {
    deadline = 0;
    period = period_ms;
    mode = mode;
    state = stopped;
    callback = cb;
    user_data = user_data;
  });
}

-- `if (tmr->state == ANBO_TIMER_RUNNING) Anbo_List_Remove(&tmr->node);`
unfoldable pub unlink : Timers → Node → Timers
unlink s tmr =
    if is_active (s.timers tmr).state then record s { links = Links.remove s.links tmr } else s

-- Arms the timer for `deadline`, and inserts it.
unfoldable pub arm : ℕ → Timers → Node → (deadline : ℕ) → Option Timers
unfolding insert_sorted
arm fuel s tmr deadline =
    insert_sorted fuel
      (record s {
        timers =
            set_timer s.timers tmr (record (s.timers tmr) { deadline = deadline; state = running });
      })
      tmr

-- `tick` is what `Anbo_Arch_GetTick` returns.
unfoldable pub start : ℕ → (tick : ℕ) → Timers → Option Node → Option Timers
unfolding unlink arm
start fuel tick s none = some s
start fuel tick s (some tmr) = elim (s.timers tmr).callback [
  | none ↦ some s
  | some cb ↦ arm fuel (unlink s tmr) tmr (add32 tick (s.timers tmr).period)
]

unfoldable pub stop : Timers → Option Node → Timers
stop s none = s
stop s (some tmr) =
    if is_active (s.timers tmr).state
    then record {
      links = Links.remove s.links tmr;
      timers = set_timer s.timers tmr (record (s.timers tmr) { state = stopped });
    }
    else s

unfoldable pub set_period : Timers → Option Node → ℕ → Timers
set_period s none period_ms = s
set_period s (some tmr) period_ms = record s {
  timers = set_timer s.timers tmr (record (s.timers tmr) { period = period_ms });
}

unfoldable pub is_running : Timers → Option Node → Bool
is_running s none = false
is_running s (some tmr) = is_active (s.timers tmr).state

-- The expired timer leaves the list, and a periodic one is armed again.
unfoldable pub expire : ℕ → (now : ℕ) → Timers → Node → Option Timers
unfolding arm
expire fuel now s tmr =
    let s' : Timers = record {
      links = Links.remove s.links tmr;
      timers = set_timer s.timers tmr (record (s.timers tmr) { state = stopped });
    } in
    if is_periodic (s.timers tmr).mode
    then arm fuel s' tmr (add32 now (s.timers tmr).period)
    else some s'

-- What a callback does to the timers and to the rest of the world.
module _ {ℓ} {World : Type ℓ} (call : ℕ → Node → Timers × World → Timers × World) where
  -- `if (tmr->callback != NULL) tmr->callback(tmr);`
  unfoldable pub fire : Timers → Node → World → Timers × World
  fire s tmr w = elim (s.timers tmr).callback [ none ↦ (s, w) | some cb ↦ call cb tmr (s, w) ]

  -- The loop of `Anbo_Timer_Update` at `pos`, with the successor `tmp` noted beforehand; `rounds`
  -- bounds the loop of an insertion.
  unfoldable pub update_loop :
      ℕ → (rounds now : ℕ) → (pos tmp : Node) → Timers → World → Option (Timers × World)
  unfolding expire fire
  update_loop zero rounds now pos tmp s w = none
  update_loop (suc fuel) rounds now pos tmp s w =
      if pos == active_list
      then some (s, w)
      else if later (s.timers pos).deadline now
      then some (s, w)
      else elim (expire rounds now s pos) [
        | none ↦ none
        | some s' ↦
            let (s'', w') = fire s' pos w in
            update_loop fuel rounds now tmp (s''.links.next tmp) s'' w'
      ]

  unfoldable pub update : ℕ → (now : ℕ) → Timers → World → Option (Timers × World)
  unfolding update_loop
  update fuel now s w =
      let pos = s.links.next active_list in update_loop fuel fuel now pos (s.links.next pos) s w

unfoldable pub ms_to_next : Timers → (now : ℕ) → ℕ
ms_to_next s now =
    if Links.is_empty s.links active_list
    then 2 ^ 32 - 1
    else let diff = time_diff (s.timers (s.links.next active_list)).deadline now in
      if gt_signed diff 0 then diff else 0
