-- ===== src/Timer/Compensate.antt =====
-- kernel/src/anbo_timer.c: `Anbo_Timer_CompensateAll`, after a sleep in which the tick has jumped.
pub mod Loops
pub mod Sorted
pub mod Result
use anbo_mos.Common.{ℕ, zero, suc, Option, none, some, ◌==◌, if◌then◌else◌, add32}
use anbo_mos.Links
use anbo_mos.Links.{Node}
use anbo_mos.Timer.{Timer, Timers, active_list, is_periodic, set_timer, later, insert_sorted}

-- A deadline that has passed is moved ahead.
unfoldable pub snap : (now : ℕ) → Timer → Timer
snap now t =
    if later t.deadline now
    then t
    else record t { deadline = if is_periodic t.mode then add32 now t.period else add32 now 1 }

-- The first loop from `pos` on; `tmp_head` is the address of the temporary list.
unfoldable pub collect_loop : ℕ → (now : ℕ) → (tmp_head pos : Node) → Timers → Option Timers
unfolding snap
collect_loop zero now tmp_head pos s = none
collect_loop (suc fuel) now tmp_head pos s =
    let tmp = s.links.next pos in
    let s' : Timers = record {
      links = Links.insert_tail (Links.remove s.links pos) tmp_head pos;
      timers = set_timer s.timers pos (snap now (s.timers pos));
    } in
    let rest = collect_loop fuel now tmp_head tmp s' in if pos == active_list then some s else rest

-- The second loop from `pos` on; `rounds` bounds the loop of an insertion.
unfoldable pub reinsert_loop : ℕ → (rounds : ℕ) → (tmp_head pos : Node) → Timers → Option Timers
reinsert_loop zero rounds tmp_head pos s = none
reinsert_loop (suc fuel) rounds tmp_head pos s =
    let tmp = s.links.next pos in
    if pos == tmp_head
    then some s
    else elim (insert_sorted rounds (record s { links = Links.remove s.links pos }) pos) [
      | none ↦ none
      | some s' ↦ reinsert_loop fuel rounds tmp_head tmp s'
    ]

unfoldable pub compensate_all : ℕ → (now : ℕ) → (tmp_head : Node) → Timers → Option Timers
unfolding collect_loop reinsert_loop
compensate_all fuel now tmp_head s =
    let s0 : Timers = record s { links = Links.init s.links tmp_head } in
    if Links.is_empty s.links active_list
    then some s
    else elim (collect_loop fuel now tmp_head (s0.links.next active_list) s0) [
      | none ↦ none
      | some s1 ↦ reinsert_loop fuel fuel tmp_head (s1.links.next tmp_head) s1
    ]
