-- ===== src/EBus/Publish.antt =====
-- What a publication does: whom `ebus_dispatch` calls, and in which order.
use mathlib.Core.Path.{subst}
use anbo_mos.Common.{
  ℕ, zero, suc, ◌<◌, Bool, true, false, ◌&&◌, Option, some, List, [], ◌∷◌, ◌++◌, append_assoc, ◌≡◌,
  refl, ◌≢◌, ap, ◌∙◌, sym, inl, inr, Bool-cases, arith, ◌==◌, if◌then◌else◌, length,
}
use anbo_mos.Links
use anbo_mos.Links.{Node, Links}
use anbo_mos.Links.Chain.{mem, mem-append, IsRing, first, Distinct, Chain-seam, Chain-tail}
use anbo_mos.Links.Remove.{erase, mem-remove_self}
use anbo_mos.EBus.{
  Event, Subscriber, Bus, sig_to_idx, unsubscribe, notify, dispatch_loop, ebus_dispatch, publish,
}
use anbo_mos.EBus.Buckets.{bucket, mem-bucket, bucket-erase, length-bucket}
use anbo_mos.EBus.Registry.{IsBus, unsubscribe-IsBus}

pub erase-middle :
    (x : Node) (xs ys : List Node) → mem x xs ≡ false → erase x (xs ++ x ∷ ys) ≡ xs ++ ys
unfolding erase
erase-middle x [] ys o = ground arith
erase-middle x (z ∷ xs) ys o = ground (arith, erase-middle x xs ys)

-- A handler may take its own subscriber `x` off the bus, which `quits x` tells, and do `note x` to
-- the rest of the world.
module _ {ℓ} {World : Type ℓ} (evt : Event) (subs : Node → Subscriber) (quits : Node → Bool)
    (note : Node → World → World) where
  abbrev pub bus : Links → Bus
  bus l = record { links = l; subs = subs }

  abbrev pub hears : Node → Bool
  hears x = (subs x).sig == evt.sig

  -- the world after the event, for the subscribers `xs`
  unfoldable pub told : List Node → World → World
  told [] w = w
  told (x ∷ xs) w = told xs (if hears x then note x w else w)

  -- the subscribers after the event
  unfoldable pub staying : List Node → List Node → List Node
  staying [] reg = reg
  staying (x ∷ xs) reg = staying xs (if hears x && quits x then erase x reg else reg)

  told-bucket :
      (reg : List Node) (w : World) → told (bucket subs (sig_to_idx evt.sig) reg) w ≡ told reg w
  unfolding told bucket
  told-bucket [] w = refl
  told-bucket (x ∷ reg) w = elim (Bool-cases (sig_to_idx (subs x).sig == sig_to_idx evt.sig)) [
    | inl here ↦ rw here (told-bucket reg (if hears x then note x w else w))
    | inr there ↦
        let deaf : hears x ≡ false = ground arith in
        rw there (told-bucket reg w ∙ ap (λ c. told reg (if c then note x w else w)) (sym deaf))
  ]

  abbrev topic : ℕ
  topic = sig_to_idx evt.sig

  -- the links after `x` has been told
  abbrev linked : Node → Links → Links
  linked x l = if hears x && quits x then Links.remove l x else l

  -- A walk has ended, with the world `w` and the subscribers `reg`.
  abbrev Ended : Option (Bus × World) → List Node → World → Type ℓ
  Ended out reg w = (l : Links) × (out ≡ some (bus l, w)) × IsBus (bus l) reg

  bucket-quit :
      (x : Node) (done ys reg : List Node) (l : Links)
      → IsBus (bus l) reg
      → bucket subs topic reg ≡ done ++ x ∷ ys
      → IsBus (bus (linked x l)) (if hears x && quits x then erase x reg else reg)
        × (done' : List Node) × (bucket subs topic (if hears x && quits x then erase x reg else reg)
            ≡ done' ++ ys)
  unfolding unsubscribe
  bucket-quit x done ys reg l v e = elim (Bool-cases (hears x && quits x)) [
    | inl leaves ↦
        let own : (sig_to_idx (subs x).sig == topic) ≡ true = ground arith in
        let parts = subst Distinct e (v.rings topic (omega arith)).distinct in
        let here : mem x reg ≡ true =
          ground (arith, mem-bucket subs topic x reg, ap (mem x) e, mem-append x done (x ∷ ys)) in
        let out : mem x done ≡ false =
          ground (arith, mem-remove_self x done ys parts, mem-append x done ys) in
        rw leaves (
          unsubscribe-IsBus v x here,
          done,
          bucket-erase subs topic x reg
              ∙ ap (λ t. if t then erase x (bucket subs topic reg) else bucket subs topic reg) own
              ∙ ap (erase x) e
              ∙ erase-middle x done ys out,
        )
    | inr stays ↦ rw stays (v, done ++ x ∷ [], e ∙ sym (append_assoc done (x ∷ []) ys))
  ]

  module _ (call : (handler : ℕ) → Event → (ctx : ℕ) → Bus × World → Bus × World)
      (behaved : (x : Node) (l : Links) (w : World)
        → call (subs x).handler evt (subs x).ctx (bus l, w)
          ≡ (bus (if quits x then Links.remove l x else l), note x w)) where
    notify-behaved :
        (x : Node) (l : Links) (w : World)
        → notify call evt x (bus l, w) ≡ (bus (linked x l), if hears x then note x w else w)
    unfolding notify
    notify-behaved x l w = elim (Bool-cases (hears x)) [
      | inl own ↦ rw own (behaved x l w)
      | inr other ↦ rw other refl
    ]

    dispatch_loop-step :
        (fuel : ℕ) (x tmp : Node) (l : Links) (w : World)
        → x ≢ topic
        → dispatch_loop call (suc fuel) evt topic x tmp (bus l, w)
          ≡ dispatch_loop call fuel evt topic tmp
              ((linked x l).next tmp)
              (bus (linked x l), if hears x then note x w else w)
    unfolding dispatch_loop
    dispatch_loop-step fuel x tmp l w ne =
        let away : (x == topic) ≡ false = ground arith in
        rw away (
          ap (λ s. dispatch_loop call fuel evt topic tmp (s.0.links.next tmp) s)
            (notify-behaved x l w))

    dispatch_loop-end :
        (fuel : ℕ) (tmp : Node) (s : Bus × World)
        → dispatch_loop call (suc fuel) evt topic topic tmp s ≡ some s
    unfolding dispatch_loop
    dispatch_loop-end fuel tmp s = ground arith

    dispatch_loop-told :
        (fuel : ℕ) (done ys reg : List Node) (l : Links) (w : World)
        → IsBus (bus l) reg
        → bucket subs topic reg ≡ done ++ ys
        → length ys < fuel
        → Ended
            (dispatch_loop call fuel evt topic
              (first ys topic)
              (l.next (first ys topic))
              (bus l, w))
            (staying ys reg)
            (told ys w)
    unfolding told staying
    dispatch_loop-told zero done ys reg l w v e f = absurd (omega arith)
    dispatch_loop-told (suc fuel) done [] reg l w v e f =
        (l, dispatch_loop-end fuel (l.next topic) (bus l, w), v)
    dispatch_loop-told (suc fuel) done (x ∷ ys) reg l w v e f =
        let ring : IsRing l topic (done ++ x ∷ ys) =
          subst (IsRing l topic) e (v.rings topic (omega arith)) in
        let ne : x ≢ topic = ground (arith, ring.apart, mem-append topic done (x ∷ ys)) in
        let (v', done', e') = bucket-quit x done ys reg l v e in
        let here : l.next x ≡ first ys topic =
          (Chain-seam l x [] ys topic (Chain-tail l topic done x ys topic ring.chain)).0 in
        let w' = if hears x then note x w else w in
        let (l', eq, v'') =
          dispatch_loop-told fuel done' ys _ (linked x l) w' v' e' (omega arith) in
        (
          l',
          dispatch_loop-step fuel x (l.next x) l w ne
              ∙ ap
                  (λ t.
                    dispatch_loop call fuel evt topic t ((linked x l).next t)
                      (bus (linked x l), w'))
                  here
              ∙ eq,
          v'',
        )

    -- `Anbo_EBus_Publish`, within more rounds than there are subscribers, ends, if a handler does
    -- no more to the bus than take its own subscriber off it. The handlers of all the subscribers
    -- of the signal, and no others, have been called once each in the order of subscription, after
    -- the trace, and those that took themselves off are the only ones that are off the bus.
    pub publish-told :
        (trace : ℕ → World → World) (fuel : ℕ) (reg : List Node) (l : Links) (w : World)
        → IsBus (bus l) reg
        → length reg < fuel
        → (l' : Links) × (publish call trace fuel (some evt) (bus l, w)
            ≡ some (bus l', told reg (trace evt.sig w)))
          × IsBus (bus l') (staying (bucket subs topic reg) reg)
    unfolding publish ebus_dispatch
    publish-told trace fuel reg l w v f =
        let ys = bucket subs topic reg in
        let here : l.next topic ≡ first ys topic =
          (Chain-seam l topic [] ys topic (v.rings topic (omega arith)).chain).0 in
        let w' = trace evt.sig w in
        let (l', eq, v') =
          dispatch_loop-told fuel [] ys reg l w' v refl
            (omega (arith, length-bucket subs topic reg)) in
        (
          l',
          ap (λ p. dispatch_loop call fuel evt topic p (l.next p) (bus l, w')) here
              ∙ eq
              ∙ ap (λ u. some (bus l', u)) (told-bucket reg w'),
          v',
        )
