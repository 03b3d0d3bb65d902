-- ===== src/Timer/Compensate/Result.antt =====
-- What `Anbo_Timer_CompensateAll` makes of the active timers.
use mathlib.Core.Path.{fun_ext, subst}
use anbo_mos.Common.{
  ℕ, ◌^◌, ◌<◌, true, false, some, List, [], ◌∷◌, ◌≡◌, ◌≢◌, ◌⊎◌, refl, ap, ◌∙◌, sym, inl, inr,
  Bool-cases, arith, length, sub32, time_diff,
}
use anbo_mos.Links
use anbo_mos.Links.{Node, Links}
use anbo_mos.Links.Chain.{mem, mem-ne, IsRing, first, Chain-seam}
use anbo_mos.Links.Insert.{init-IsRing, init-other}
use anbo_mos.Links.Pair.{IsPair, IsPair-swap}
use anbo_mos.Timer.{Timer, Timers, active_list, is_active, is_periodic, later}
use anbo_mos.Timer.Place.{IsSorted}
use anbo_mos.Timer.Order.{since}
use anbo_mos.Timer.Start.{IsActive}
use anbo_mos.Timer.Compensate.{snap, collect_loop, reinsert_loop, compensate_all}
use anbo_mos.Timer.Compensate.Loops.{snapped, collect_loop-snapped, resort, reinsert_loop-resort}
use anbo_mos.Timer.Compensate.Sorted.{or_false, mem-resort, resort-IsSorted}

-- The period of a periodic timer.
abbrev pub HasPeriod : Timer → Type 0
HasPeriod t = (is_periodic t.mode ≡ false) ⊎ ((0 < t.period) × (t.period < 2 ^ 31))

snap-ahead :
    (now : ℕ) (t : Timer)
    → now < 2 ^ 32
    → t.deadline < 2 ^ 32
    → HasPeriod t
    → (later (snap now t).deadline now ≡ true) × (sub32 (snap now t).deadline now < 2 ^ 31)
unfolding snap time_diff
snap-ahead now t b w p = ground arith

snap-word : (now : ℕ) (t : Timer) → t.deadline < 2 ^ 32 → (snap now t).deadline < 2 ^ 32
unfolding snap
snap-word now t w = ground arith

state-snap : (now : ℕ) (t : Timer) → (snap now t).state ≡ t.state
unfolding snap
state-snap now t = ground arith

-- What holds of the timers of `xs` after the compensation at `now`, which has put them into the
-- order `ys`.
pub record IsCompensated (now : ℕ) (s s' : Timers) (xs ys : List Node) : Type 0 where
  pub active : IsActive s' ys
  pub same : (n : Node) → mem n ys ≡ mem n xs
  pub sorted : IsSorted (since now s'.timers) ys
  pub ahead : (n : Node) → mem n xs ≡ true → later (s'.timers n).deadline now ≡ true
  pub timers : (n : Node) → s'.timers n ≡ snapped now s.timers xs n

empty-ring :
    (l : Links) (h : Node) (xs : List Node) → IsRing l h xs → Links.is_empty l h ≡ true → xs ≡ []
unfolding Links.is_empty
empty-ring l h [] ring e = refl
empty-ring l h (x ∷ xs) ring e = absurd (ground (arith, ring.apart, ring.chain.0))

module _ (now : ℕ) (s : Timers) (xs : List Node) (v : IsActive s xs) (b : now < 2 ^ 32)
    (word : (n : Node) → (s.timers n).deadline < 2 ^ 32)
    (periods : (n : Node) → HasPeriod (s.timers n)) where
  abbrev ts' : Node → Timer
  ts' = snapped now s.timers xs

  snapped-here : (n : Node) → mem n xs ≡ true → ts' n ≡ snap now (s.timers n)
  snapped-here n i = rw i refl

  snapped-word : (n : Node) → (ts' n).deadline < 2 ^ 32
  snapped-word n = elim (Bool-cases (mem n xs)) [
    | inl i ↦ rw i (snap-word now (s.timers n) (word n))
    | inr o ↦ rw o (word n)
  ]

  state-snapped : (n : Node) → (ts' n).state ≡ (s.timers n).state
  state-snapped n = elim (Bool-cases (mem n xs)) [
    | inl i ↦ rw i (state-snap now (s.timers n))
    | inr o ↦ rw o refl
  ]

  snapped-near : (n : Node) → mem n xs ≡ true → sub32 (ts' n).deadline now < 2 ^ 31
  snapped-near n i = rw i (snap-ahead now (s.timers n) b (word n) (periods n)).1

  result-IsCompensated :
      (s' : Timers) (g : Node)
      → IsPair s'.links g active_list [] (resort ts' xs [])
      → s'.timers ≡ ts'
      → IsCompensated now s s' xs (resort ts' xs [])
  result-IsCompensated s' g p t =
      let members = λ (n : Node). mem-resort ts' xs [] n ∙ or_false (mem n xs) in
      record {
        active = record {
          ring = p.other;
          marked = λ n.
              ap (λ u. is_active (u n).state) t
              ∙ ap is_active (state-snapped n)
              ∙ v.marked n
              ∙ sym (members n);
        };
        same = members;
        sorted = rw t (
            resort-IsSorted now ts' xs [] b snapped-word (λ n i. snapped-near n (ground arith)) tt);
        ahead = λ n i.
            ap (λ u. later (u n).deadline now) t
            ∙ (rw i (snap-ahead now (s.timers n) b (word n) (periods n)).0);
        timers = λ n. ap (λ u. u n) t;
      }

  fresh-IsPair :
      (g : Node)
      → g ≢ active_list
      → mem g xs ≡ false
      → IsPair (Links.init s.links g) active_list g xs []
  fresh-IsPair g ne out = record {
    one = init-other s.links g active_list xs v.ring (ground arith);
    other = init-IsRing s.links g;
    apart = λ a i. ground (arith, mem-ne a g (active_list ∷ xs) i);
  }

  compensate_all-loops :
      (fuel : ℕ) (g : Node) (s1 s' : Timers)
      → Links.is_empty s.links active_list ≡ false
      → collect_loop fuel now g
          ((Links.init s.links g).next active_list)
          (record s { links = Links.init s.links g })
        ≡ some s1
      → reinsert_loop fuel fuel g (s1.links.next g) s1 ≡ some s'
      → compensate_all fuel now g s ≡ some s'
  unfolding compensate_all
  compensate_all-loops fuel g s1 s' more e e' = rw (more, e, compensate_all) e'

  compensate_all-empty :
      (fuel : ℕ) (g : Node)
      → Links.is_empty s.links active_list ≡ true
      → compensate_all fuel now g s ≡ some s
  unfolding compensate_all
  compensate_all-empty fuel g none_left = rw (none_left, compensate_all) refl

  empty-IsCompensated : xs ≡ [] → IsCompensated now s s xs xs
  empty-IsCompensated e =
      let gone : (n : Node) → mem n xs ≡ false = λ n. ap (λ ys. mem n ys) e in
      record {
        active = v;
        same = λ n. refl;
        sorted = subst (IsSorted (since now s.timers)) (sym e) tt;
        ahead = λ n i. absurd (cc (gone n));
        timers = λ n. rw (gone n) refl;
      }

  -- The two loops, one after the other.
  both_loops :
      (fuel : ℕ) (g : Node)
      → Links.is_empty s.links active_list ≡ false
      → g ≢ active_list
      → mem g xs ≡ false
      → length xs < fuel
      → (s' : Timers) × (compensate_all fuel now g s ≡ some s')
        × IsCompensated now s s' xs (resort ts' xs [])
  both_loops fuel g more ne out f =
      let l0 = Links.init s.links g in
      let p0 = fresh-IsPair g ne out in
      let start : l0.next active_list ≡ first xs active_list =
        (Chain-seam l0 active_list [] xs active_list p0.one.chain).0 in
      let (s1, e1, p1, t1) = collect_loop-snapped fuel now g (record s { links = l0 }) xs [] p0 f in
      let again : s1.links.next g ≡ first xs g = (Chain-seam s1.links g [] xs g p1.other.chain).0 in
      let (s', e2, p2, t2) =
        reinsert_loop-resort fuel fuel g s1 xs [] (IsPair-swap p1) f (omega arith) in
      let ts : s1.timers ≡ ts' = fun_ext t1 in
      (
        s',
        compensate_all-loops fuel g s1 s' more
            (ap (λ pos. collect_loop fuel now g pos (record s { links = l0 })) start ∙ e1)
            (ap (λ pos. reinsert_loop fuel fuel g pos s1) again ∙ e2),
        result-IsCompensated s' g
            (subst (λ u. IsPair s'.links g active_list [] (resort u xs [])) ts p2) (t2 ∙ ts),
      )

  -- `Anbo_Timer_CompensateAll` ends, for a temporary list at an address of its own and words as
  -- deadlines and for periods of the periodic timers from 1 to 2 ^ 31 - 1: the same timers are
  -- active, every deadline that had passed is moved ahead of `now` and no other one changes, and the
  -- active list is in ascending order again.
  pub compensate_all-IsCompensated :
      (fuel : ℕ) (g : Node)
      → g ≢ active_list
      → mem g xs ≡ false
      → length xs < fuel
      → (s' : Timers) × (ys : List Node) × (compensate_all fuel now g s ≡ some s')
        × IsCompensated now s s' xs ys
  compensate_all-IsCompensated fuel g ne out f =
      elim (Bool-cases (Links.is_empty s.links active_list)) [
        | inl none_left ↦ (
          s,
          xs,
          compensate_all-empty fuel g none_left,
          empty-IsCompensated (empty-ring s.links active_list xs v.ring none_left),
        )
        | inr more ↦
            let (s', e, c) = both_loops fuel g more ne out f in (s', resort ts' xs [], e, c)
      ]
