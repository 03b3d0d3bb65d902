-- ===== src/Timer/Order.antt =====
-- The active list stays in ascending order of the deadlines.
use anbo_mos.Common.{
  ℕ, ◌^◌, ◌<◌, true, false, some, List, [], ◌∷◌, ◌≡◌, ◌≢◌, ap, sym, arith, ltb, length, add32,
  sub32, time_diff-order,
}
use mathlib.Core.Path.{subst}
use anbo_mos.Links.{Node}
use anbo_mos.Links.Chain.{mem, mem-ne}
use anbo_mos.Links.Remove.{erase, mem-erase}
use anbo_mos.Timer.{Timer, Timers, active_list, later, start}
use anbo_mos.Timer.Place.{place, place_congr, AllFrom, AllFrom-le, IsSorted, place-IsSorted}
use anbo_mos.Timer.Start.{IsActive, armed, start-Armed}

-- the deadline, counted from an instant before all of them
abbrev pub since : ℕ → (Node → Timer) → Node → ℕ
since base ts n = sub32 (ts n).deadline base

AllFrom-congr :
    (key key' : Node → ℕ) (k : ℕ) (xs : List Node)
    → ((n : Node) → mem n xs ≡ true → key' n ≡ key n)
    → AllFrom key k xs
    → AllFrom key' k xs
AllFrom-congr key key' k [] h a = tt
AllFrom-congr key key' k (x ∷ xs) h (a, r) =
    (omega (arith, h x (ground arith)), AllFrom-congr key key' k xs (λ n i. h n (ground arith)) r)

IsSorted-congr :
    (key key' : Node → ℕ) (xs : List Node)
    → ((n : Node) → mem n xs ≡ true → key' n ≡ key n)
    → IsSorted key xs
    → IsSorted key' xs
IsSorted-congr key key' [] h s = tt
IsSorted-congr key key' (x ∷ xs) h (a, s) =
    let same = λ (n : Node) (i : mem n xs ≡ true). h n (ground arith) in
    (
      AllFrom-le key' (key' x) (key x) xs (omega (arith, h x (ground arith)))
          (AllFrom-congr key key' (key x) xs same a),
      IsSorted-congr key key' xs same s,
    )

AllFrom-erase :
    (key : Node → ℕ) (k : ℕ) (n : Node) (xs : List Node)
    → AllFrom key k xs
    → AllFrom key k (erase n xs)
unfolding erase
AllFrom-erase key k n [] a = tt
AllFrom-erase key k n (x ∷ xs) (a, r) = ground (arith, AllFrom-erase key k n xs r)

pub erase-IsSorted :
    (key : Node → ℕ) (n : Node) (xs : List Node) → IsSorted key xs → IsSorted key (erase n xs)
unfolding erase
erase-IsSorted key n [] s = tt
erase-IsSorted key n (x ∷ xs) (a, s) =
    ground (arith, AllFrom-erase key (key x) n xs a, erase-IsSorted key n xs s)

-- Counted from `base`, the deadlines of the timers of `xs` lie within 2 ^ 31 ticks.
pub record Near (base : ℕ) (ts : Node → Timer) (xs : List Node) : Type 0 where
  pub base_word : base < 2 ^ 32
  pub word : (n : Node) → (ts n).deadline < 2 ^ 32
  pub near : (n : Node) → mem n xs ≡ true → sub32 (ts n).deadline base < 2 ^ 31

armed-IsSorted :
    (base : ℕ) (ts : Node → Timer) (tmr : Node) (deadline : ℕ) (xs : List Node)
    → Near base ts xs
    → deadline < 2 ^ 32
    → sub32 deadline base < 2 ^ 31
    → mem tmr xs ≡ false
    → IsSorted (since base ts) xs
    → IsSorted (since base (armed ts tmr deadline)) (
        place
          (λ y. later (armed ts tmr deadline y).deadline (armed ts tmr deadline tmr).deadline)
          tmr
          xs)
armed-IsSorted base ts tmr deadline xs n word near out s =
    let ts' = armed ts tmr deadline in
    let key = since base ts' in
    let same = λ (m : Node) (i : mem m xs ≡ true).
      let e : ts' m ≡ ts m = ground (arith, mem-ne m tmr xs i out) in e in
    let due : (ts' tmr).deadline ≡ deadline = ground arith in
    let s' =
      IsSorted-congr (since base ts) key xs (λ m i. ap (λ t. sub32 t.deadline base) (same m i)) s in
    subst (IsSorted key)
      (sym (
        place_congr _ (λ y. ltb (key tmr) (key y)) tmr xs
          λ m i.
            time_diff-order base (ts' m).deadline (ts' tmr).deadline (rw (same m i) (n.word m))
              (rw due word) n.base_word (rw (same m i) (n.near m i)) (rw due near)))
      (place-IsSorted key tmr xs s')

-- `Anbo_Timer_Start` keeps the active list in ascending order of the deadlines, counted from an
-- instant that precedes the active timers' deadlines and the new one by less than 2 ^ 31 ticks.
pub start-IsSorted :
    (base fuel tick : ℕ) (s : Timers) (xs : List Node) (tmr : Node) (cb : ℕ)
    → IsActive s xs
    → Near base s.timers xs
    → IsSorted (since base s.timers) xs
    → tmr ≢ active_list
    → (s.timers tmr).callback ≡ some cb
    → sub32 (add32 tick (s.timers tmr).period) base < 2 ^ 31
    → length xs < fuel
    → (s' : Timers) × (ys : List Node) × (start fuel tick s (some tmr) ≡ some s')
      × IsActive s' ys
      × IsSorted (since base s'.timers) ys
start-IsSorted base fuel tick s xs tmr cb v n sorted ne has_cb near f =
    let (s', e, a) = start-Armed fuel tick s xs tmr cb v ne has_cb f in
    let held = λ (m : Node) (i : mem m (erase tmr xs) ≡ true).
      let j : mem m xs ≡ true = ground (arith, mem-erase m tmr xs v.ring.distinct) in j in
    let n' : Near base s.timers (erase tmr xs) = record {
      base_word = n.base_word;
      word = n.word;
      near = λ m i. n.near m (held m i);
    } in
    (
      s',
      _,
      e,
      a.active,
      rw a.timers_eq (
          armed-IsSorted base s.timers tmr (add32 tick (s.timers tmr).period) (erase tmr xs) n'
            (omega arith) near (ground (arith, mem-erase tmr tmr xs v.ring.distinct))
            (erase-IsSorted (since base s.timers) tmr xs sorted)),
    )
