-- ===== src/EBus/Stuck.antt =====
-- When a publication does not end: a handler that unsubscribes the subscriber that comes next.
use mathlib.Core.Path.{subst}
use anbo_mos.Common.{
  ℕ, zero, suc, false, true, none, some, List, ◌∷◌, ◌≡◌, refl, ◌≢◌, ap, ◌∙◌, inl, inr, Bool-cases,
  arith, ◌==◌,
}
use anbo_mos.Links.{Node}
use anbo_mos.Links.Chain.{IsRing}
use anbo_mos.Links.Remove.{next-remove_self}
use anbo_mos.EBus.{
  Event, Subscriber, Bus, sig_to_idx, unsubscribe, notify, dispatch_loop, ebus_dispatch, publish,
}
use anbo_mos.EBus.Buckets.{bucket}
use anbo_mos.EBus.Registry.{IsBus}

module _ {ℓ} {World : Type ℓ} (call : (handler : ℕ) → Event → (ctx : ℕ) → Bus × World → Bus × World)
    (evt : Event) (subs : Node → Subscriber) (x y : Node)
    (stops : (b : Bus) (w : World)
      → (call (subs x).handler evt (subs x).ctx (b, w)).0 ≡ unsubscribe b (some y))
    (quiet : (b : Bus) (w : World) → (call (subs y).handler evt (subs y).ctx (b, w)).0 ≡ b) where
  -- A round of the loop, away from the head.
  dispatch_loop-round :
      (fuel : ℕ) (head p tmp : Node) (s : Bus × World)
      → p ≢ head
      → dispatch_loop call (suc fuel) evt head p tmp s
        ≡ dispatch_loop call fuel evt head tmp
            ((notify call evt p s).0.links.next tmp)
            (notify call evt p s)
  unfolding dispatch_loop
  dispatch_loop-round fuel head p tmp s ne =
      let away : (p == head) ≡ false = ground arith in rw away refl

  notify-quiet : (s : Bus × World) → s.0.subs ≡ subs → (notify call evt y s).0 ≡ s.0
  unfolding notify
  notify-quiet (b, w) e = elim (Bool-cases ((subs y).sig == evt.sig)) [
    | inl own ↦ rw (e, own) (quiet (record b { subs = subs }) w)
    | inr other ↦ rw (e, other) refl
  ]

  notify-stops :
      (b : Bus) (w : World)
      → b.subs ≡ subs
      → (subs x).sig ≡ evt.sig
      → (notify call evt x (b, w)).0 ≡ unsubscribe b (some y)
  unfolding notify
  notify-stops b w e hears =
      let own : ((subs x).sig == evt.sig) ≡ true = ground arith in
      rw (e, own) (stops (record b { subs = subs }) w)

  -- The walk at `y`, which leads to itself.
  self-stuck :
      (fuel : ℕ) (head : Node) (s : Bus × World)
      → y ≢ head
      → s.0.links.next y ≡ y
      → s.0.subs ≡ subs
      → dispatch_loop call fuel evt head y y s ≡ none
  self-stuck zero head s ne self e = unfold dispatch_loop in refl
  self-stuck (suc fuel) head s ne self e =
      let s' = notify call evt y s in
      let same = notify-quiet s e in
      let self' : s'.0.links.next y ≡ y = ap (λ b. b.links.next y) same ∙ self in
      dispatch_loop-round fuel head y y s ne
      ∙ ap (λ t. dispatch_loop call fuel evt head y t s') self'
      ∙ self-stuck fuel head s' ne self' (ap (λ b. b.subs) same ∙ e)

  -- If the first two subscribers in the bucket of the event are `x`, which listens to its signal, and
  -- `y`, the handler of `x` calls `Anbo_EBus_Unsubscribe` on `y`, and that of `y` leaves the bus alone,
  -- then `Anbo_EBus_Publish` never ends, however many rounds it is allowed.
  pub publish-stuck :
      (trace : ℕ → World → World) (fuel : ℕ) (b : Bus) (w : World) (reg more : List Node)
      → IsBus b reg
      → b.subs ≡ subs
      → bucket b.subs (sig_to_idx evt.sig) reg ≡ x ∷ y ∷ more
      → (subs x).sig ≡ evt.sig
      → publish call trace fuel (some evt) (b, w) ≡ none
  unfolding publish ebus_dispatch unsubscribe
  publish-stuck trace zero b w reg more v e here hears = unfold dispatch_loop in refl
  publish-stuck trace (suc fuel) b w reg more v e here hears =
      let head = sig_to_idx evt.sig in
      let ring = subst (IsRing b.links head) here (v.rings head (omega arith)) in
      let s : Bus × World = (b, trace evt.sig w) in
      let r = notify call evt x s in
      let off : r.0 ≡ unsubscribe b (some y) = notify-stops b s.1 e hears in
      let self : r.0.links.next y ≡ y = ap (λ u. u.links.next y) off ∙ next-remove_self b.links y in
      let first : b.links.next head ≡ x = ring.chain.0 in
      let second : b.links.next x ≡ y = (ring.chain).2.0 in
      ap (λ p. dispatch_loop call (suc fuel) evt head p (b.links.next p) s) first
      ∙ ap (λ p. dispatch_loop call (suc fuel) evt head x p s) second
      ∙ dispatch_loop-round fuel head x y s (ground (arith, ring.apart))
      ∙ ap (λ p. dispatch_loop call fuel evt head y p r) self
      ∙ self-stuck fuel head r (ground (arith, ring.apart)) self (ap (λ u. u.subs) off ∙ e)
