-- ===== src/Timer/Compensate/Sorted.antt =====
-- The second loop of `Anbo_Timer_CompensateAll` sorts: its result as a list.
use mathlib.Core.Path.{subst}
use anbo_mos.Common.{
  ℕ, ◌^◌, Bool, ◌<◌, true, false, ◌||◌, List, [], ◌∷◌, ◌≡◌, refl, sym, arith, ltb, time_diff-order,
}
use anbo_mos.Links.{Node}
use anbo_mos.Links.Chain.{mem}
use anbo_mos.Timer.{Timer, later}
use anbo_mos.Timer.Place.{place, mem-place, IsSorted, place_congr, place-IsSorted}
use anbo_mos.Timer.Order.{since}
use anbo_mos.Timer.Compensate.Loops.{resort}

pub or_false : (c : Bool) → (c || false) ≡ c
or_false c = ground arith

pub mem-resort :
    (ts : Node → Timer) (xs ys : List Node) (a : Node)
    → mem a (resort ts xs ys) ≡ (mem a xs || mem a ys)
unfolding resort
mem-resort ts [] ys a = refl
mem-resort ts (x ∷ xs) ys a =
    let test = λ (y : Node). later (ts y).deadline (ts x).deadline in
    ground (arith, mem-resort ts xs (place test x ys) a, mem-place a test x ys)

pub resort-IsSorted :
    (base : ℕ) (ts : Node → Timer) (xs ys : List Node)
    → base < 2 ^ 32
    → ((n : Node) → (ts n).deadline < 2 ^ 32)
    → ((n : Node) → mem n xs || mem n ys ≡ true → since base ts n < 2 ^ 31)
    → IsSorted (since base ts) ys
    → IsSorted (since base ts) (resort ts xs ys)
unfolding resort
resort-IsSorted base ts [] ys b word near s = s
resort-IsSorted base ts (x ∷ xs) ys b word near s =
    let key = since base ts in
    let test = λ (y : Node). later (ts y).deadline (ts x).deadline in
    resort-IsSorted base ts xs (place test x ys) b word
      (λ n i. near n (ground (arith, mem-place n test x ys)))
      (subst (IsSorted key)
        (sym (
          place_congr test (λ y. ltb (key x) (key y)) x ys
            λ m i.
              time_diff-order base (ts m).deadline (ts x).deadline (word m) (word x) b
                (near m (ground arith)) (near x (ground arith))))
        (place-IsSorted key x ys s))
