-- ===== src/Timer/Compensate/Loops.antt =====
-- The two loops of `Anbo_Timer_CompensateAll` on a pair of rings.
use mathlib.Core.Path.{subst}
use anbo_mos.Common.{
  ℕ, zero, suc, ◌+◌, ◌<◌, true, false, Option, none, some, List, [], ◌∷◌, ◌++◌, append_assoc,
  append-nil, ◌≡◌, refl, ap, ◌∙◌, sym, inl, inr, Bool-cases, arith, ◌==◌, ==_iff, if◌then◌else◌,
  length,
}
use anbo_mos.Links
use anbo_mos.Links.{Node, Links}
use anbo_mos.Links.Chain.{mem, mem-append, IsRing, first, last, mem-last, Chain-seam, Chain-tail}
use anbo_mos.Links.Pair.{IsPair, remove-IsPair, insert_between-IsPair, move-IsPair}
use anbo_mos.Timer.{Timer, Timers, active_list, set_timer, later, insert_sorted_loop, insert_sorted}
use anbo_mos.Timer.Place.{place, mem-place, length-place}
use anbo_mos.Timer.Insert.{after, insert_sorted-place}
use anbo_mos.Timer.Compensate.{snap, collect_loop, reinsert_loop}

-- The timers of `xs` with their deadlines moved ahead, and the others as they were.
abbrev pub snapped : ℕ → (Node → Timer) → List Node → Node → Timer
snapped now ts xs n = if mem n xs then snap now (ts n) else ts n

snapped-step :
    (now : ℕ) (ts : Node → Timer) (x : Node) (xs : List Node) (n : Node)
    → mem x xs ≡ false
    → snapped now (set_timer ts x (snap now (ts x))) xs n ≡ snapped now ts (x ∷ xs) n
snapped-step now ts x xs n out = elim (Bool-cases (n == x)) [
  | inl same ↦
      let e = (==_iff n x).0 same in
      let gone : mem n xs ≡ false = ap (λ a. mem a xs) e ∙ out in
      rw (same, gone) (ap (λ a. snap now (ts a)) (sym e))
  | inr differ ↦ rw differ refl
]

-- Every round takes the first active timer to the end of the temporary list.
pub collect_loop-snapped :
    (fuel now : ℕ) (g : Node) (s : Timers) (xs zs : List Node)
    → IsPair s.links active_list g xs zs
    → length xs < fuel
    → (s' : Timers) × (collect_loop fuel now g (first xs active_list) s ≡ some s')
      × IsPair s'.links active_list g [] (zs ++ xs)
      × ((n : Node) → s'.timers n ≡ snapped now s.timers xs n)
unfolding collect_loop
collect_loop-snapped zero now g s xs zs p f = absurd (omega arith)
collect_loop-snapped (suc fuel) now g s [] zs p f = (s, refl, rw append-nil p, λ n. refl)
collect_loop-snapped (suc fuel) now g s (x ∷ xs) zs p f =
    let s1 : Timers = record {
      links = Links.insert_tail (Links.remove s.links x) g x;
      timers = set_timer s.timers x (snap now (s.timers x));
    } in
    let at_node : (x == active_list) ≡ false = ground (arith, p.one.apart) in
    let next : s.links.next x ≡ first xs active_list =
      (Chain-seam s.links x [] xs active_list p.one.chain.2).0 in
    let (s', e, q, t) =
      collect_loop-snapped fuel now g s1 xs (zs ++ x ∷ [])
        (move-IsPair s.links active_list g x xs zs p) (omega arith) in
    (
      s',
      rw (at_node, next) e,
      rw append_assoc at q,
      λ n. t n ∙ snapped-step now s.timers x xs n p.one.distinct.0,
    )

-- An insertion puts the timer between two neighbours of the ring.
insert_sorted_loop-between :
    (fuel : ℕ) (s : Timers) (tmr : Node) (xs ys : List Node)
    → IsRing s.links active_list (xs ++ ys)
    → length ys < fuel
    → (before behind : Node) × (insert_sorted_loop fuel s tmr (first ys active_list)
        ≡ some (record s { links = Links.insert_between s.links tmr before behind }))
      × (mem before (active_list ∷ xs ++ ys) ≡ true)
      × (mem behind (active_list ∷ xs ++ ys) ≡ true)
unfolding insert_sorted_loop Links.insert_tail
insert_sorted_loop-between zero s tmr xs ys ring f = absurd (omega arith)
insert_sorted_loop-between (suc fuel) s tmr xs [] ring f =
    let back : s.links.prev active_list ≡ last active_list xs =
      (Chain-seam s.links active_list xs [] active_list ring.chain).1 in
    (
      s.links.prev active_list,
      active_list,
      refl,
      ap (λ a. mem a (active_list ∷ xs ++ [])) back ∙ mem-last active_list xs [],
      ground arith,
    )
insert_sorted_loop-between (suc fuel) s tmr xs (y ∷ ys) ring f =
    let at_node : (y == active_list) ≡ false =
      ground (arith, ring.apart, mem-append active_list xs (y ∷ ys)) in
    let back : s.links.prev y ≡ last active_list xs =
      (Chain-seam s.links active_list xs (y ∷ ys) active_list ring.chain).1 in
    elim (Bool-cases (after s tmr y)) [
      | inl is_later ↦ (
        s.links.prev y,
        y,
        rw (at_node, is_later) refl,
        ap (λ a. mem a (active_list ∷ xs ++ y ∷ ys)) back ∙ mem-last active_list xs (y ∷ ys),
        ground (arith, mem-append y xs (y ∷ ys)),
      )
      | inr not_later ↦
          let seam =
            Chain-seam s.links y [] ys active_list
              (Chain-tail s.links active_list xs y ys active_list ring.chain) in
          let split : (xs ++ y ∷ []) ++ ys ≡ xs ++ y ∷ ys = append_assoc xs (y ∷ []) ys in
          let (before, behind, e, b, c) =
            insert_sorted_loop-between fuel s tmr (xs ++ y ∷ []) ys (rw split ring) (omega arith) in
          (
            before,
            behind,
            rw (at_node, not_later, seam.0) e,
            ap (λ l. mem before (active_list ∷ l)) (sym split) ∙ b,
            ap (λ l. mem behind (active_list ∷ l)) (sym split) ∙ c,
          )
    ]

insert_sorted-between :
    (fuel : ℕ) (s : Timers) (tmr : Node) (xs : List Node)
    → IsRing s.links active_list xs
    → length xs < fuel
    → (before behind : Node) × (insert_sorted fuel s tmr
        ≡ some (record s { links = Links.insert_between s.links tmr before behind }))
      × (mem before (active_list ∷ xs) ≡ true)
      × (mem behind (active_list ∷ xs) ≡ true)
unfolding insert_sorted
insert_sorted-between fuel s tmr xs ring f =
    rw (Chain-seam s.links active_list [] xs active_list ring.chain).0
      (insert_sorted_loop-between fuel s tmr [] xs ring f)

-- The timers of `xs` in turn, each put at its place among those before it.
unfoldable pub resort : (Node → Timer) → (xs ys : List Node) → List Node
resort ts [] ys = ys
resort ts (x ∷ xs) ys = resort ts xs (place (λ y. later (ts y).deadline (ts x).deadline) x ys)

abbrev links_of : Timers → Option Timers → Links
links_of s none = s.links
links_of s (some s') = s'.links

-- One round of the second loop.
reinsert-IsPair :
    (rounds : ℕ) (g x : Node) (s : Timers) (xs ys : List Node)
    → IsPair s.links g active_list (x ∷ xs) ys
    → length ys < rounds
    → (l : Links) × (insert_sorted rounds (record s { links = Links.remove s.links x }) x
        ≡ some (record s { links = l }))
      × IsPair l g active_list xs (place (after s x) x ys)
reinsert-IsPair rounds g x s xs ys p f =
    let q = remove-IsPair s.links g active_list x xs ys p in
    let s1 : Timers = record s { links = Links.remove s.links x } in
    let out : mem x (active_list ∷ ys) ≡ false = p.apart x (ground arith) in
    let (before, behind, e, b, c) = insert_sorted-between rounds s1 x ys q.other f in
    let (l, e', ring) =
      insert_sorted-place rounds s1 x ys (ground arith) q.other (ground arith) f in
    let same : l ≡ Links.insert_between s1.links x before behind = ap (links_of s) (sym e' ∙ e) in
    (
      Links.insert_between s1.links x before behind,
      e,
      insert_between-IsPair s1.links g active_list x before behind xs ys (place (after s x) x ys) q
          (ground (arith, p.one.apart, p.one.distinct)) b c
          (subst (λ k. IsRing k active_list (place (after s x) x ys)) same ring)
          (λ a i. sym (mem-place a (after s x) x ys) ∙ i),
    )

reinsert_loop-suc :
    (fuel rounds : ℕ) (g x : Node) (s s' : Timers)
    → (x == g) ≡ false
    → insert_sorted rounds (record s { links = Links.remove s.links x }) x ≡ some s'
    → reinsert_loop (suc fuel) rounds g x s ≡ reinsert_loop fuel rounds g (s.links.next x) s'
unfolding reinsert_loop
reinsert_loop-suc fuel rounds g x s s' at_node e = rw (at_node, e, reinsert_loop) refl

pub reinsert_loop-resort :
    (fuel rounds : ℕ) (g : Node) (s : Timers) (xs ys : List Node)
    → IsPair s.links g active_list xs ys
    → length xs < fuel
    → length xs + length ys < rounds
    → (s' : Timers) × (reinsert_loop fuel rounds g (first xs g) s ≡ some s')
      × IsPair s'.links g active_list [] (resort s.timers xs ys)
      × (s'.timers ≡ s.timers)
unfolding reinsert_loop resort
reinsert_loop-resort zero rounds g s xs ys p f r = absurd (omega arith)
reinsert_loop-resort (suc fuel) rounds g s [] ys p f r =
    let at_head : (g == g) ≡ true = ground arith in (s, rw (at_head, reinsert_loop) refl, p, refl)
reinsert_loop-resort (suc fuel) rounds g s (x ∷ xs) ys p f r =
    let at_node : (x == g) ≡ false = ground (arith, p.one.apart) in
    let next : s.links.next x ≡ first xs g = (Chain-seam s.links x [] xs g p.one.chain.2).0 in
    let (l, e, q) = reinsert-IsPair rounds g x s xs ys p (omega arith) in
    let (s', e', q', t) =
      reinsert_loop-resort fuel rounds g (record s { links = l }) xs (place (after s x) x ys) q
        (omega arith) (omega (arith, length-place (after s x) x ys)) in
    (
      s',
      reinsert_loop-suc fuel rounds g x s (record s { links = l }) at_node e
          ∙ ap (λ pos. reinsert_loop fuel rounds g pos (record s { links = l })) next
          ∙ e',
      q',
      t,
    )
