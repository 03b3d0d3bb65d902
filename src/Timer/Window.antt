-- ===== src/Timer/Window.antt =====
-- The instants for which the signed comparison of deadlines is sound.
use anbo_mos.Common.{
  ℕ, ◌+◌, ◌^◌, ◌≤◌, ◌<◌, true, List, ◌≡◌, ◌∙◌, arith, add32, sub32, time_diff-order,
}
use anbo_mos.Links.{Node}
use anbo_mos.Links.Chain.{mem}
use anbo_mos.Timer.{Timer, is_periodic}
use anbo_mos.Timer.Due.{Due}

-- Counted from `base`, all instants lie within 2 ^ 31 ticks: `now`, every deadline, and the next
-- deadline of every periodic timer that has expired. Those of `es` have been reached, those of `rs`
-- not.
pub record Timely (base now : ℕ) (ts : Node → Timer) (es rs : List Node) : Type 0 where
  pub base_word : base < 2 ^ 32
  pub now_word : now < 2 ^ 32
  pub now_near : sub32 now base < 2 ^ 31
  pub word : (n : Node) → (ts n).deadline < 2 ^ 32
  pub reached : (e : Node) → mem e es ≡ true → sub32 (ts e).deadline base ≤ sub32 now base
  pub ahead : (r : Node) → mem r rs ≡ true → sub32 now base < sub32 (ts r).deadline base
  pub near : (r : Node) → mem r rs ≡ true → sub32 (ts r).deadline base < 2 ^ 31
  pub period_pos : (e : Node) → mem e es ≡ true → is_periodic (ts e).mode ≡ true → 0 < (ts e).period
  pub period_near :
      (e : Node)
      → mem e es ≡ true
      → is_periodic (ts e).mode ≡ true
      → sub32 now base + (ts e).period < 2 ^ 31

-- For such instants the code's comparisons find the expired timers expired and the others not, and
-- a periodic timer, armed again, comes behind all that have expired.
pub Timely-Due :
    {base now : ℕ} {ts : Node → Timer} {es rs : List Node}
    → Timely base now ts es rs
    → Due now ts es rs
Timely-Due {base} {now} {ts} {es} {rs} t = record {
  expired = λ e i.
      time_diff-order base (ts e).deadline now (t.word e) t.now_word t.base_word
        (omega (arith, t.reached e i, t.now_near)) t.now_near
      ∙ ground (arith, t.reached e i);
  pending = λ r i.
      time_diff-order base (ts r).deadline now (t.word r) t.now_word t.base_word (t.near r i)
        t.now_near
      ∙ ground (arith, t.ahead r i);
  behind = λ e d i j p.
      time_diff-order base (ts d).deadline (add32 now (ts e).period) (t.word d) (omega arith)
        t.base_word (omega (arith, t.reached d j, t.now_near)) (omega (arith, next-near e i p))
      ∙ ground (arith, t.reached d j, next-near e i p);
  ahead = λ e i p.
      time_diff-order base (add32 now (ts e).period) now (omega arith) t.now_word t.base_word
        (omega (arith, next-near e i p, t.period_near e i p)) t.now_near
      ∙ ground (arith, next-near e i p, t.period_pos e i p);
}
  where
    next-near :
        (e : Node)
        → mem e es ≡ true
        → is_periodic (ts e).mode ≡ true
        → sub32 (add32 now (ts e).period) base ≡ sub32 now base + (ts e).period
    next-near e i p = omega (arith, t.period_near e i p, t.now_word, t.base_word)
