-- ===== src/Timer/Due.antt =====
-- Which timers are due, and what handling them in turn makes of the clock.
use mathlib.Core.Path.{ap₂}
use anbo_mos.Common.{
  ℕ, suc, ◌≤◌, true, false, List, [], ◌∷◌, ◌++◌, ◌≡◌, ◌≢◌, ap, ◌∙◌, sym, inl, inr, Bool-cases,
  arith, length, add32, ==_iff,
}
use anbo_mos.Links.{Node}
use anbo_mos.Links.Chain.{mem, mem-ne}
use anbo_mos.Timer.{Timer, is_periodic, later}
use anbo_mos.Timer.Place.{place-append, mem-place, length-place}
use anbo_mos.Timer.Expire.{Clock, rearmed, settled}

-- the expiries of several timers in turn
unfoldable pub settle_all : ℕ → Clock → List Node → Clock
settle_all now c [] = c
settle_all now c (e ∷ es) = settle_all now (settled now c e) es

-- At `now` the timers `es` have expired and those of `rs` have not. A periodic one of `es`, armed
-- again, will not have expired, and will come behind all of `es`.
pub record Due (now : ℕ) (ts : Node → Timer) (es rs : List Node) : Type 0 where
  pub expired : (e : Node) → mem e es ≡ true → later (ts e).deadline now ≡ false
  pub pending : (r : Node) → mem r rs ≡ true → later (ts r).deadline now ≡ true
  pub behind :
      (e d : Node)
      → mem e es ≡ true
      → mem d es ≡ true
      → is_periodic (ts e).mode ≡ true
      → later (ts d).deadline (add32 now (ts e).period) ≡ false
  pub ahead :
      (e : Node)
      → mem e es ≡ true
      → is_periodic (ts e).mode ≡ true
      → later (add32 now (ts e).period) now ≡ true

module _ (now : ℕ) (ts : Node → Timer) (e : Node) (rs : List Node) where
  pub settled-same : (n : Node) → n ≢ e → (settled now (ts, rs) e).0 n ≡ ts n
  unfolding settled
  settled-same n ne = ground arith

  pub callback-settled : (n : Node) → ((settled now (ts, rs) e).0 n).callback ≡ (ts n).callback
  unfolding settled
  callback-settled n = ground (arith, ==_iff n e, ap (λ k. (ts k).callback) {x = n} {y = e})

  pub length-settled : length (settled now (ts, rs) e).1 ≤ suc (length rs)
  unfolding settled
  length-settled = ground (
    arith,
    length-place (λ y. later (rearmed now ts e y).deadline (rearmed now ts e e).deadline) e rs,
  )

  module _ (es : List Node) (due : Due now ts (e ∷ es) rs) (out : mem e es ≡ false)
      (out' : mem e rs ≡ false) where
    -- The expiry of the first does not move the others that are due.
    pub settled-append :
        settled now (ts, es ++ rs) e
        ≡ ((settled now (ts, rs) e).0, es ++ (settled now (ts, rs) e).1)
    unfolding settled
    settled-append = elim (Bool-cases (is_periodic (ts e).mode)) [
      | inl again ↦ rw again (
          ap (λ r. (rearmed now ts e, r))
            (place-append _ e es rs (λ d i. ground (arith, due.behind e d, mem-ne d e es))))
      | inr once ↦ rw once
    ]

    pending-settled :
        (r : Node)
        → mem r (settled now (ts, rs) e).1 ≡ true
        → later ((settled now (ts, rs) e).0 r).deadline now ≡ true
    unfolding settled
    pending-settled r i = elim (Bool-cases (is_periodic (ts e).mode)) [
      | inl again ↦ ground (
        arith,
        due.ahead e,
        due.pending r,
        mem-place r (λ y. later (rearmed now ts e y).deadline (rearmed now ts e e).deadline) e rs,
      )
      | inr once ↦ ground (arith, due.pending r)
    ]

    pub Due-settled : Due now (settled now (ts, rs) e).0 es (settled now (ts, rs) e).1
    Due-settled =
        let same = λ (d : Node) (i : mem d es ≡ true). settled-same d (mem-ne d e es i out) in
        let wider =
          λ (d : Node) (i : mem d es ≡ true). let j : mem d (e ∷ es) ≡ true = ground arith in j in
        record {
          expired = λ d i. ap (λ t. later t.deadline now) (same d i) ∙ due.expired d (wider d i);
          pending = pending-settled;
          behind = λ d c i j p.
              ap₂ (λ t u. later t.deadline (add32 now u.period)) (same c j) (same d i)
              ∙ due.behind d c (wider d i) (wider c j)
                  (ap (λ t. is_periodic t.mode) (sym (same d i)) ∙ p);
          ahead = λ d i p.
              ap (λ t. later (add32 now t.period) now) (same d i)
              ∙ due.ahead d (wider d i) (ap (λ t. is_periodic t.mode) (sym (same d i)) ∙ p);
        }
