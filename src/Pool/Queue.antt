-- ===== src/Pool/Queue.antt =====
-- The queue of event pointers: a ring of 32 entries, one of which stays unused.
use mathlib.Core.Path.{ap₂}
use anbo_mos.Common.{
  ℕ, suc, ◌+◌, ◌-◌, ◌%◌, ◌<◌, bit_and, true, false, some, List, [], ◌∷◌, ◌≡◌, refl, inl, inr,
  Bool-cases, ap, ◌∙◌, arith, ok, ◌==◌, length, length-set, get_or, add32,
}
use anbo_mos.Common.Bits.{bit_and_mask}
use anbo_mos.Ring.Window.{window, length-window, window-mod, window-set}
use anbo_mos.Ring.Session.{push, pop}
use anbo_mos.Pool.{Pool, evtq_depth, evtq_mask, evtq_init, post, get}

pub record IsQueue (s : Pool) : Type 0 where
  pub storage : length s.evtq ≡ evtq_depth
  pub head_in : s.evtq_head < evtq_depth
  pub tail_in : s.evtq_tail < evtq_depth

abbrev pub waiting : Pool → ℕ
waiting s = (s.evtq_head + evtq_depth - s.evtq_tail) % evtq_depth

-- The events that wait in the queue, the oldest first.
unfoldable pub pending : Pool → List ℕ
pending s = window s.evtq evtq_depth s.evtq_tail (waiting s)

-- `Anbo_EvtQ_Init` empties the queue.
pub evtq_init-IsQueue :
    (s : Pool) → length s.evtq ≡ evtq_depth → IsQueue (evtq_init s) × (pending (evtq_init s) ≡ [])
unfolding evtq_init pending window
evtq_init-IsQueue s e = (record { storage = e; head_in = omega arith; tail_in = omega arith }, refl)

module _ (s : Pool) (v : IsQueue s) where
  length-pending : length (pending s) ≡ waiting s
  unfolding pending
  length-pending = length-window s.evtq evtq_depth s.evtq_tail (waiting s)

  succ-mod : (i : ℕ) → i < evtq_depth → bit_and (add32 i 1) evtq_mask ≡ (i + 1) % evtq_depth
  succ-mod i h = bit_and_mask 5 (add32 i 1) ∙ (omega arith)

  -- `Anbo_EvtQ_Post` is an insertion into a first-in first-out queue of at most 31 events.
  pub post-push :
      (evt : ℕ)
      → let (r, s') = post s (some evt) in
        ((r, pending s') ≡ push (evtq_depth - 1) (pending s) evt) × IsQueue s'
  unfolding post push pending
  post-push evt =
      rw (length-window s.evtq evtq_depth s.evtq_tail (waiting s), succ-mod s.evtq_head v.head_in)
        (elim (Bool-cases ((s.evtq_head + 1) % evtq_depth == s.evtq_tail)) [
          | inl full ↦
              let h : (waiting s == 31) ≡ true = ground (arith, v.head_in, v.tail_in) in
              rw (full, h) (refl, v)
          | inr room ↦
              let h : (waiting s == 31) ≡ false = ground (arith, v.head_in, v.tail_in) in
              let grown : ((s.evtq_head + 1) % evtq_depth + evtq_depth - s.evtq_tail) % evtq_depth
                  ≡ suc (waiting s) =
                ground (arith, v.head_in, v.tail_in) in
              rw (room, h, grown)
                (
                  ap (λ q. (ok, q))
                      (window-set s.evtq evtq_depth evt (waiting s) s.evtq_tail s.evtq_head
                        v.storage (ground (arith, v.head_in, v.tail_in))
                        (omega (arith, v.head_in, v.tail_in))),
                  record {
                    storage = length-set s.evtq s.evtq_head evt ∙ v.storage;
                    head_in = omega arith;
                    tail_in = v.tail_in;
                  },
                )
        ])

  pending-empty : waiting s ≡ 0 → pending s ≡ []
  unfolding pending window
  pending-empty h = ap (window s.evtq evtq_depth s.evtq_tail) h

  -- the queue without its oldest event
  abbrev advanced : Pool
  advanced = record s { evtq_tail = (s.evtq_tail + 1) % evtq_depth }

  pending-head : 0 < waiting s → pending s ≡ get_or s.evtq s.evtq_tail 0 ∷ pending advanced
  unfolding pending window
  pending-head h =
      let more : waiting s ≡ suc (waiting advanced) = ground (arith, v.head_in, v.tail_in) in
      let here : s.evtq_tail % evtq_depth ≡ s.evtq_tail = omega (arith, v.tail_in) in
      ap (window s.evtq evtq_depth s.evtq_tail) more
      ∙ ap₂ ◌∷◌ (ap (λ i. get_or s.evtq i 0) here) (
          window-mod s.evtq evtq_depth (suc s.evtq_tail) ((s.evtq_tail + 1) % evtq_depth)
            (waiting advanced) (omega arith))

  -- `Anbo_EvtQ_Get` takes the oldest event out of that queue.
  pub get-pop : let (x, s') = get s in ((x, pending s') ≡ pop (pending s)) × IsQueue s'
  unfolding get pop
  get-pop = elim (Bool-cases (s.evtq_head == s.evtq_tail)) [
    | inl empty ↦
        let h : waiting s ≡ 0 = ground (arith, v.head_in, v.tail_in) in
        rw empty (rw (pending-empty h) (refl, v))
    | inr more ↦
        let h : 0 < waiting s = ground (arith, v.head_in, v.tail_in) in
        rw (more, succ-mod s.evtq_tail v.tail_in, pending-head h)
          (refl, record { storage = v.storage; head_in = v.head_in; tail_in = omega arith })
  ]
