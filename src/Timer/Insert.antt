-- ===== src/Timer/Insert.antt =====
-- `timer_insert_sorted` on a ring.
use anbo_mos.Common.{
  ℕ, zero, suc, ◌<◌, Bool, false, Option, some, List, [], ◌∷◌, ◌++◌, append_assoc, append-nil, ◌≡◌,
  refl, ◌≢◌, inl, inr, Bool-cases, arith, ◌==◌, length,
}
use anbo_mos.Links
use anbo_mos.Links.{Node, Links}
use anbo_mos.Links.Chain.{mem, mem-append, IsRing, first, Chain-seam, Chain-tail}
use anbo_mos.Links.Insert.{insert_between-IsRing, insert_tail-IsRing}
use anbo_mos.Timer.{Timers, active_list, later, insert_sorted_loop, insert_sorted}
use anbo_mos.Timer.Place.{place}

-- the nodes that expire after the timer
abbrev pub after : Timers → Node → Node → Bool
after s tmr y = later (s.timers y).deadline (s.timers tmr).deadline

-- The insertion has ended, has changed only list pointers, and the ring holds `xs`.
abbrev pub Inserted : Timers → Option Timers → List Node → Type 0
Inserted s out xs = (l : Links) × (out ≡ some (record s { links = l })) × IsRing l active_list xs

insert_sorted_loop-place :
    (fuel : ℕ) (s : Timers) (tmr : Node) (xs ys : List Node)
    → tmr ≢ active_list
    → IsRing s.links active_list (xs ++ ys)
    → mem tmr (xs ++ ys) ≡ false
    → length ys < fuel
    → Inserted s
        (insert_sorted_loop fuel s tmr (first ys active_list))
        (xs ++ place (after s tmr) tmr ys)
unfolding insert_sorted_loop place
insert_sorted_loop-place zero s tmr xs ys ne ring out f = absurd (omega arith)
insert_sorted_loop-place (suc fuel) s tmr xs [] ne ring out f = (
  Links.insert_tail s.links active_list tmr,
  refl,
  insert_tail-IsRing s.links active_list tmr ne xs (rw append-nil at ring) (rw append-nil at out),
)
insert_sorted_loop-place (suc fuel) s tmr xs (y ∷ ys) ne ring out f =
    let at_node : (y == active_list) ≡ false =
      ground (arith, ring.apart, mem-append active_list xs (y ∷ ys)) in
    elim (Bool-cases (after s tmr y)) [
      | inl is_later ↦
          rw (at_node, is_later)
            (
              Links.insert_between s.links tmr (s.links.prev y) y,
              refl,
              insert_between-IsRing s.links active_list tmr ne xs (y ∷ ys) ring out,
            )
      | inr not_later ↦
          let seam =
            Chain-seam s.links y [] ys active_list
              (Chain-tail s.links active_list xs y ys active_list ring.chain) in
          let split : (xs ++ y ∷ []) ++ ys ≡ xs ++ y ∷ ys = append_assoc xs (y ∷ []) ys in
          let ih =
            insert_sorted_loop-place fuel s tmr (xs ++ y ∷ []) ys ne (rw split ring) (rw split out)
              (omega arith) in
          rw (at_node, not_later, seam.0) (rw append_assoc at ih)
    ]

-- Within enough rounds, `timer_insert_sorted` puts a new timer before the first one that expires
-- later, and changes nothing else.
pub insert_sorted-place :
    (fuel : ℕ) (s : Timers) (tmr : Node) (xs : List Node)
    → tmr ≢ active_list
    → IsRing s.links active_list xs
    → mem tmr xs ≡ false
    → length xs < fuel
    → Inserted s (insert_sorted fuel s tmr) (place (after s tmr) tmr xs)
unfolding insert_sorted
insert_sorted-place fuel s tmr xs ne ring out f =
    rw (Chain-seam s.links active_list [] xs active_list ring.chain).0
      (insert_sorted_loop-place fuel s tmr [] xs ne ring out f)
