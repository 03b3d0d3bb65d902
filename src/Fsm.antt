-- ===== src/Fsm.antt =====
-- kernel/src/anbo_fsm.c: state machines, which listen to the event bus. The subscribers of a machine
-- are eight nodes in a row. Clearing them in `Anbo_FSM_Init` is left out: a subscription sets every
-- field before the bus reads it.
pub mod Subscriptions
mod Examples
use anbo_mos.Common.{
  ℕ, zero, suc, ◌+◌, ◌%◌, ◌^◌, Option, none, some, Status, ok, failed, ltb, if◌then◌else◌,
}
use anbo_mos.Links.{Node}
use anbo_mos.EBus
use anbo_mos.EBus.{Bus, Event}

-- `Anbo_State`: names and callbacks are known by numbers, and `none` is `NULL`.
pub record State : Type 0 where
  pub name : Option ℕ
  pub on_entry : Option ℕ
  pub on_exit : Option ℕ
  pub on_event : Option ℕ

-- `Anbo_FSM`, with the node of its first subscriber.
pub record Fsm : Type 0 where
  pub name : Option ℕ
  pub current : Option State
  pub subs : Node
  pub sub_count : ℕ
  pub user_data : ℕ

abbrev pub max_subs : ℕ
max_subs = 8

-- `ebus_handler` is `fsm_ebus_handler`, and `self` the address of the machine.
module _ (ebus_handler self : ℕ) where
  unfoldable pub subscribe : Bus × Fsm → (sig : ℕ) → Status × (Bus × Fsm)
  subscribe (b, fsm) sig =
      if ltb fsm.sub_count max_subs
      then (
        ok,
        (
          EBus.subscribe b (some (fsm.subs + fsm.sub_count)) sig (some ebus_handler) self,
          record fsm { sub_count = (fsm.sub_count + 1) % 2 ^ 8 },
        ),
      )
      else (failed, (b, fsm))

-- The loop of `Anbo_FSM_UnsubscribeAll` with `n` rounds left, at the node `sub`.
unfoldable pub unsubscribe_loop : ℕ → Node → Bus → Bus
unsubscribe_loop zero sub b = b
unsubscribe_loop (suc n) sub b = unsubscribe_loop n (sub + 1) (EBus.unsubscribe b (some sub))

unfoldable pub unsubscribe_all : Bus × Fsm → Bus × Fsm
unfolding unsubscribe_loop
unsubscribe_all (b, fsm) = (unsubscribe_loop fsm.sub_count fsm.subs b, record fsm { sub_count = 0 })

-- `run` is what an entry or exit callback does to the machine and the rest of the world, and
-- `handle` what an event callback does.
module _ {ℓ} {World : Type ℓ} (run : ℕ → Fsm × World → Fsm × World)
    (handle : ℕ → Event → Fsm × World → Fsm × World) where
  abbrev pub run_if : Option ℕ → Fsm × World → Fsm × World
  run_if none s = s
  run_if (some callback) s = run callback s

  unfoldable pub init :
      Fsm × World → (name : Option ℕ) → (initial : Option State) → (user_data : ℕ) → Fsm × World
  init (fsm, w) name none user_data =
      (record fsm { name = name; current = none; sub_count = 0; user_data = user_data }, w)
  init (fsm, w) name (some initial) user_data =
      run_if initial.on_entry (
        record fsm { name = name; current = some initial; sub_count = 0; user_data = user_data },
        w,
      )

  abbrev pub exit_current : Fsm × World → Fsm × World
  exit_current (fsm, w) = elim fsm.current [
    | none ↦ (fsm, w)
    | some state ↦ run_if state.on_exit (fsm, w)
  ]

  -- `trace` is `ANBO_TRACE_FSM_TRANSFER`.
  unfoldable pub transfer :
      (trace : Fsm → State → World → World) → Fsm × World → Option State → Fsm × World
  transfer trace s none = s
  transfer trace (fsm, w) (some target) =
      let (fsm', w') = exit_current (fsm, trace fsm target w) in
      run_if target.on_entry (record fsm' { current = some target }, w')

  unfoldable pub dispatch : Fsm × World → Option Event → Fsm × World
  dispatch s none = s
  dispatch (fsm, w) (some evt) = elim fsm.current [
    | none ↦ (fsm, w)
    | some state ↦ elim state.on_event [ none ↦ (fsm, w) | some h ↦ handle h evt (fsm, w) ]
  ]

  -- The handler of the machine's subscribers; `trace` is `ANBO_TRACE_FSM_DISPATCH`.
  unfoldable pub fsm_ebus_handler :
      (trace : Fsm → (sig : ℕ) → World → World) → Event → Fsm × World → Fsm × World
  fsm_ebus_handler trace evt (fsm, w) = elim fsm.current [
    | none ↦ (fsm, w)
    | some state ↦ elim state.on_event [
      | none ↦ (fsm, w)
      | some h ↦ handle h evt (fsm, trace fsm evt.sig w)
    ]
  ]

-- `none` is the text "?".
unfoldable pub state_name : Fsm → Option ℕ
state_name fsm = elim fsm.current [ none ↦ none | some state ↦ state.name ]
