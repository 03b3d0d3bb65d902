-- ===== src/Timer/Update.antt =====
-- `Anbo_Timer_Update`: every expired timer is handled once, in order, and no other.
use mathlib.Core.Path.{subst}
use anbo_mos.Common.{
  ℕ, zero, suc, ◌+◌, ◌≤◌, ◌<◌, true, false, Option, none, some, List, [], ◌∷◌, ◌++◌, ◌≡◌, refl, ◌≢◌,
  ap, ◌∙◌, sym, ◌⊎◌, inl, inr, Option-cases, arith, ◌==◌, length, length-append,
}
use anbo_mos.Links.{Node}
use anbo_mos.Links.Chain.{mem, mem-ne, mem-append, first, Chain-seam}
use anbo_mos.Timer.{Timers, Timer, active_list, later, expire, fire, update_loop, update}
use anbo_mos.Timer.Start.{IsActive}
use anbo_mos.Timer.Expire.{Clock, settled, expire-settled}
use anbo_mos.Timer.Due.{
  settle_all, Due, Due-settled, settled-append, settled-same, callback-settled, length-settled,
}

first-append : (xs ys : List Node) (q : Node) → first (xs ++ ys) q ≡ first xs (first ys q)
first-append [] ys q = refl
first-append (x ∷ xs) ys q = refl

module _ {ℓ} {World : Type ℓ} (note : ℕ → Node → World → World) where
  -- the effect of a timer's callback, and of those of several timers in turn
  abbrev pub noted : (Node → Timer) → Node → World → World
  noted ts e w = elim (ts e).callback [ none ↦ w | some cb ↦ note cb e w ]

  unfoldable pub noted_all : (Node → Timer) → List Node → World → World
  noted_all ts [] w = w
  noted_all ts (e ∷ es) w = noted_all ts es (noted ts e w)

  noted_all_congr :
      (ts us : Node → Timer) (es : List Node) (w : World)
      → ((n : Node) → (ts n).callback ≡ (us n).callback)
      → noted_all ts es w ≡ noted_all us es w
  unfolding noted_all
  noted_all_congr ts us [] w h = refl
  noted_all_congr ts us (e ∷ es) w h =
      noted_all_congr ts us es (noted ts e w) h
      ∙ ap (noted_all us es) (
          ap (λ (c : Option ℕ). let r : World = elim c [ none ↦ w | some cb ↦ note cb e w ] in r)
            (h e))

  module _ (call : ℕ → Node → Timers × World → Timers × World)
      (neutral : (cb : ℕ) (n : Node) (s : Timers) (w : World)
        → call cb n (s, w) ≡ (s, note cb n w)) where
    fire-noted : (s : Timers) (e : Node) (w : World) → fire call s e w ≡ (s, noted s.timers e w)
    unfolding fire
    fire-noted s e w = elim (Option-cases (s.timers e).callback) [
      | inl h ↦ ground arith
      | inr (cb, h) ↦ ground (arith, neutral cb e s w)
    ]

    -- The walk has ended at a clock, and has left a world.
    abbrev Ended : Option (Timers × World) → Clock → World → Type ℓ
    Ended out c w = (s : Timers) × (out ≡ some (s, w)) × IsActive s c.1 × (s.timers ≡ c.0)

    Ended-congr :
        (now : ℕ) (es rs : List Node) {ts us : Node → Timer} {w u : World}
        {out out' : Option (Timers × World)}
        → ts ≡ us
        → w ≡ u
        → out' ≡ out
        → Ended out (settle_all now (ts, rs) es) w
        → Ended out' (settle_all now (us, rs) es) u
    Ended-congr now es rs {w} {out'} p q r (s, e, a, t) =
        let k = ap (λ x. settle_all now (x, rs) es) p in
        (s, r ∙ e ∙ ap (λ x. some (s, x)) q, subst (λ x. IsActive s x.1) k a, t ∙ ap (λ x. x.0) k)

    -- where the walk stops: at the head, or at a timer that has not expired
    abbrev Stops : ℕ → Timers → Node → Type 0
    Stops now s p = (p ≡ active_list) ⊎ (later (s.timers p).deadline now ≡ true)

    first-Stops :
        (now : ℕ) (s : Timers) (rs : List Node)
        → ((r : Node) → mem r rs ≡ true → later (s.timers r).deadline now ≡ true)
        → Stops now s (first rs active_list)
    first-Stops now s [] h = inl refl
    first-Stops now s (r ∷ rs) h = inr (h r (ground arith))

    -- the walk at a node `p` where it stops
    update_loop-stop :
        (fuel rounds now : ℕ) (p tmp : Node) (s : Timers) (w : World)
        → Stops now s p
        → update_loop call (suc fuel) rounds now p tmp s w ≡ some (s, w)
    unfolding update_loop
    update_loop-stop fuel rounds now p tmp s w (inl e) = ground arith
    update_loop-stop fuel rounds now p tmp s w (inr e) = ground arith

    -- and at an expired timer
    update_loop-step :
        (fuel rounds now : ℕ) (e tmp : Node) (s s' : Timers) (w : World)
        → e ≢ active_list
        → later (s.timers e).deadline now ≡ false
        → expire rounds now s e ≡ some s'
        → update_loop call (suc fuel) rounds now e tmp s w
          ≡ update_loop call fuel rounds now tmp (s'.links.next tmp) s' (noted s'.timers e w)
    unfolding update_loop
    update_loop-step fuel rounds now e tmp s s' w ne due eq =
        let head : (e == active_list) ≡ false = ground arith in
        rw (head, due, eq, fire-noted s' e w)

    update_loop-settled :
        (fuel rounds now : ℕ) (es rs : List Node) (p : Node) (s : Timers) (w : World)
        → IsActive s (es ++ rs)
        → Due now s.timers es rs
        → Stops now s p
        → length es < fuel
        → length es + length rs ≤ rounds
        → Ended
            (update_loop call fuel rounds now (first es p) (s.links.next (first es p)) s w)
            (settle_all now (s.timers, rs) es)
            (noted_all s.timers es w)
    unfolding settle_all noted_all
    update_loop-settled zero rounds now es rs p s w v due stops f g = absurd (omega arith)
    update_loop-settled (suc fuel) rounds now [] rs p s w v due stops f g =
        (s, update_loop-stop fuel rounds now p _ s w stops, v, refl)
    update_loop-settled (suc fuel) rounds now (e ∷ es) rs p s w v due stops f g =
        let out : mem e es ≡ false = ground (arith, v.ring.distinct, mem-append e es rs) in
        let out' : mem e rs ≡ false = ground (arith, v.ring.distinct, mem-append e es rs) in
        let c = settled now (s.timers, rs) e in
        let (s', eq, act, te) =
          expire-settled rounds now s e (es ++ rs) v (omega (arith, length-append es rs)) in
        let moved = settled-append now s.timers e rs es due out out' in
        let te' : s'.timers ≡ c.0 = te ∙ ap (λ k. k.0) moved in
        let act' : IsActive s' (es ++ c.1) = subst (λ k. IsActive s' k.1) moved act in
        let due' : Due now s'.timers es c.1 =
          subst (λ t. Due now t es c.1) (sym te') (Due-settled now s.timers e rs es due out out') in
        let q = first rs active_list in
        let here : s.links.next e ≡ first es q =
          (Chain-seam s.links e [] (es ++ rs) active_list (v.ring.chain).2).0
          ∙ first-append es rs active_list in
        let stops' : Stops now s' q = first-Stops now s' rs λ r i.
          ap (λ t. later (t r).deadline now) te'
          ∙ ap (λ t. later t.deadline now) (settled-same now s.timers e rs r (mem-ne r e rs i out'))
          ∙ due.pending r i in
        let w' = noted s'.timers e w in
        let ih =
          update_loop-settled fuel rounds now es c.1 q s' w' act' due' stops' (omega arith)
            (omega (arith, length-settled now s.timers e rs)) in
        let same_notes : noted_all s'.timers es w' ≡ noted_all s.timers (e ∷ es) w =
          noted_all_congr s'.timers s.timers (e ∷ es) w
            λ n. ap (λ t. (t n).callback) te' ∙ callback-settled now s.timers e rs n in
        let step =
          update_loop-step fuel rounds now e (s.links.next e) s s' w (ground (arith, v.ring.apart))
            (due.expired e (ground arith)) eq
          ∙ ap (λ t. update_loop call fuel rounds now t (s'.links.next t) s' w') here in
        Ended-congr now es c.1 te' same_notes step ih

    -- `Anbo_Timer_Update`, within more rounds than there are active timers and with callbacks that
    -- leave the timers alone, ends, if every expired periodic timer, once it is armed again at `now`,
    -- comes after `now` and behind all the expired timers (which rules out a period of 0). It has
    -- called back exactly the timers that had expired, once each and in order, and the active list and
    -- the timers are what their expiries in turn make.
    pub update-settled :
        (fuel now : ℕ) (es rs : List Node) (s : Timers) (w : World)
        → IsActive s (es ++ rs)
        → Due now s.timers es rs
        → length es + length rs < fuel
        → (s' : Timers) × (update call fuel now s w ≡ some (s', noted_all s.timers es w))
          × IsActive s' (settle_all now (s.timers, rs) es).1
          × (s'.timers ≡ (settle_all now (s.timers, rs) es).0)
    unfolding update
    update-settled fuel now es rs s w v due f =
        let q = first rs active_list in
        let here : s.links.next active_list ≡ first es q =
          (Chain-seam s.links active_list [] (es ++ rs) active_list v.ring.chain).0
          ∙ first-append es rs active_list in
        Ended-congr now es rs refl refl
          (ap (λ p. update_loop call fuel fuel now p (s.links.next p) s w) here)
          (update_loop-settled fuel fuel now es rs q s w v due (first-Stops now s rs due.pending)
            (omega arith) (omega arith))
