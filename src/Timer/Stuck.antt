-- ===== src/Timer/Stuck.antt =====
-- When the update does not end: a callback that stops the timer that comes next.
use mathlib.Core.Path.{subst}
use anbo_mos.Common.{
  ℕ, zero, suc, true, false, none, some, List, ◌∷◌, ◌≡◌, ◌≢◌, refl, ap, ◌∙◌, sym, arith, ◌==◌,
  ==_iff, inl, inr, Bool-cases,
}
use anbo_mos.Links
use anbo_mos.Links.{Node}
use anbo_mos.Links.Remove.{next-remove_self}
use anbo_mos.Timer.{
  Timer, Timers, active_list, is_active, is_periodic, later, stop, expire, fire, update_loop,
  update,
}
use anbo_mos.Timer.Start.{IsActive}
use anbo_mos.Timer.Expire.{stopped_at}

-- A one-shot timer that is due, with its callback.
pub record IsOnce (now : ℕ) (cb : ℕ) (t : Timer) : Type 0 where
  pub once : is_periodic t.mode ≡ false
  pub due : later t.deadline now ≡ false
  pub calls : t.callback ≡ some cb

stopped-IsOnce :
    (now cb : ℕ) (ts : Node → Timer) (e n : Node)
    → IsOnce now cb (ts n)
    → IsOnce now cb (stopped_at ts e n)
stopped-IsOnce now cb ts e n t = elim (Bool-cases (n == e)) [
  | inl same ↦
      let here : n ≡ e = (==_iff n e).0 same in
      rw same (rw (← here) (record { once = t.once; due = t.due; calls = t.calls }))
  | inr other ↦ rw other t
]

expire-once :
    (rounds now : ℕ) (s : Timers) (x : Node)
    → is_periodic (s.timers x).mode ≡ false
    → expire rounds now s x
      ≡ some (record { links = Links.remove s.links x; timers = stopped_at s.timers x })
unfolding expire
expire-once rounds now s x h = rw h

stop-running :
    (s : Timers) (y : Node)
    → is_active (s.timers y).state ≡ true
    → stop s (some y) ≡ record { links = Links.remove s.links y; timers = stopped_at s.timers y }
unfolding stop
stop-running s y h = rw h refl

module _ {ℓ} {World : Type ℓ} (call : ℕ → Node → Timers × World → Timers × World) (now : ℕ) where
  -- One round at a timer that is due.
  update_loop-round :
      (fuel rounds : ℕ) (x tmp : Node) (s : Timers) (w : World) (cb : ℕ)
      → x ≢ active_list
      → IsOnce now cb (s.timers x)
      → let s' : Timers = record {
        links = Links.remove s.links x;
        timers = stopped_at s.timers x;
      } in
        let r = call cb x (s', w) in
        update_loop call (suc fuel) rounds now x tmp s w
        ≡ update_loop call fuel rounds now tmp (r.0.links.next tmp) r.0 r.1
  unfolding update_loop fire
  update_loop-round fuel rounds x tmp s w cb ne t =
      let head : (x == active_list) ≡ false = ground arith in
      let s' : Timers = record { links = Links.remove s.links x; timers = stopped_at s.timers x } in
      let calls : (s'.timers x).callback ≡ some cb = (stopped-IsOnce now cb s.timers x x t).calls in
      rw (head, t.due, expire-once rounds now s x t.once, calls, fire) refl

  module _ (x y : Node) (c d : ℕ)
      (stops : (s : Timers) (w : World) → (call c x (s, w)).0 ≡ stop s (some y))
      (quiet : (s : Timers) (w : World) → (call d y (s, w)).0 ≡ s) where
    -- The walk at `y`, which leads to itself.
    self-stuck :
        (fuel rounds : ℕ) (s : Timers) (w : World)
        → y ≢ active_list
        → s.links.next y ≡ y
        → IsOnce now d (s.timers y)
        → update_loop call fuel rounds now y y s w ≡ none
    self-stuck zero rounds s w ne self t = unfold update_loop in refl
    self-stuck (suc fuel) rounds s w ne self t =
        let s' : Timers = record {
          links = Links.remove s.links y;
          timers = stopped_at s.timers y;
        } in
        let r = call d y (s', w) in
        let same = quiet s' w in
        let self' : r.0.links.next y ≡ y =
          ap (λ u. u.links.next y) same ∙ next-remove_self s.links y in
        update_loop-round fuel rounds y y s w d ne t
        ∙ ap (λ p. update_loop call fuel rounds now y p r.0 r.1) self'
        ∙ self-stuck fuel rounds r.0 r.1 ne self' (
            subst (λ u. IsOnce now d (u.timers y)) (sym same) (stopped-IsOnce now d s.timers y y t))

    -- If the first two timers of the active list are one-shot and have expired, the callback of the
    -- first calls `Anbo_Timer_Stop` on the second, and that of the second leaves the timers alone, then
    -- `Anbo_Timer_Update` never ends, however many rounds it is allowed.
    pub update-stuck :
        (fuel : ℕ) (rest : List Node) (s : Timers) (w : World)
        → IsActive s (x ∷ y ∷ rest)
        → IsOnce now c (s.timers x)
        → IsOnce now d (s.timers y)
        → update call fuel now s w ≡ none
    unfolding update
    update-stuck zero rest s w v tx ty = unfold update_loop in refl
    update-stuck (suc fuel) rest s w v tx ty =
        let s1 : Timers = record {
          links = Links.remove s.links x;
          timers = stopped_at s.timers x;
        } in
        let ne : x ≢ active_list = ground (arith, v.ring.apart) in
        let ne' : y ≢ active_list = ground (arith, v.ring.apart) in
        let apart : (y == x) ≡ false = ground (arith, v.ring.distinct) in
        let running : is_active (s1.timers y).state ≡ true =
          rw apart (v.marked y ∙ (ground arith)) in
        let s2 : Timers = record {
          links = Links.remove s1.links y;
          timers = stopped_at s1.timers y;
        } in
        let r = call c x (s1, w) in
        let stopped : r.0 ≡ s2 = stops s1 w ∙ stop-running s1 y running in
        let self : r.0.links.next y ≡ y =
          ap (λ u. u.links.next y) stopped ∙ next-remove_self s1.links y in
        let first : s.links.next active_list ≡ x = v.ring.chain.0 in
        let second : s.links.next x ≡ y = (v.ring.chain).2.0 in
        ap (λ p. update_loop call (suc fuel) (suc fuel) now p (s.links.next p) s w) first
        ∙ ap (λ p. update_loop call (suc fuel) (suc fuel) now x p s w) second
        ∙ update_loop-round fuel (suc fuel) x y s w c ne tx
        ∙ ap (λ p. update_loop call fuel (suc fuel) now y p r.0 r.1) self
        ∙ self-stuck fuel (suc fuel) r.0 r.1 ne' self (
            subst (λ u. IsOnce now d (u.timers y)) (sym stopped)
              (stopped-IsOnce now d s1.timers y y (stopped-IsOnce now d s.timers x y ty)))
