-- ===== src/EBus/Registry.antt =====
-- The subscriptions: the 32 lists together hold the subscribers in the order of subscription.
use native.Mathlib.Decide.{dec_lt}
use anbo_mos.Common.{
  ℕ, zero, suc, ◌+◌, ◌≤◌, ◌<◌, true, false, some, List, [], ◌∷◌, ◌++◌, append-nil, ◌≡◌, ◌≢◌, inl,
  inr, Bool-cases, arith, ◌==◌, ==_iff, if◌then◌else◌,
}
use anbo_mos.Links
use anbo_mos.Links.{Node, Links}
use anbo_mos.Links.Chain.{mem, mem-append, mem-last, Distinct, IsRing, last, Chain-seam}
use anbo_mos.Links.Insert.{
  Distinct-insert, insert_tail-IsRing, insert_between-other, init-IsRing, init-other,
}
use anbo_mos.Links.Remove.{erase, mem-erase, remove-erase, remove-other, neighbours}
use anbo_mos.EBus.{Bus, max_topics, sig_to_idx, init_loop, init, subscribe, unsubscribe}
use anbo_mos.EBus.Buckets.{bucket, mem-bucket, bucket-grown, bucket-erase}

-- `reg` are the subscribers, in the order of subscription; none of them is a head.
pub record IsBus (b : Bus) (reg : List Node) : Type 0 where
  pub distinct : Distinct reg
  pub apart : (x : Node) → mem x reg ≡ true → max_topics ≤ x
  pub rings : (i : ℕ) → i < max_topics → IsRing b.links i (bucket b.subs i reg)

Distinct-erase : (n : Node) (xs : List Node) → Distinct xs → Distinct (erase n xs)
unfolding erase
Distinct-erase n [] d = d
Distinct-erase n (x ∷ xs) (dx, d) = elim (Bool-cases (x == n)) [
  | inl same ↦ rw same d
  | inr other ↦ rw other (ground (arith, mem-erase x n xs d), Distinct-erase n xs d)
]

module _ {b : Bus} {reg : List Node} (v : IsBus b reg) where
  abbrev members : ℕ → List Node
  members i = bucket b.subs i reg

  -- The buckets have no node in common.
  elsewhere :
      (i j x : ℕ)
      → i < max_topics
      → j < max_topics
      → i ≢ j
      → mem x (j ∷ members j) ≡ true
      → mem x (i ∷ members i) ≡ false
  elsewhere i j x hi hj ne h = elim (Bool-cases (mem x reg)) [
    | inl inside ↦
        ground (arith, v.apart x inside, mem-bucket b.subs i x reg, mem-bucket b.subs j x reg)
    | inr outside ↦ ground (arith, mem-bucket b.subs i x reg, mem-bucket b.subs j x reg)
  ]

  -- One bucket after a subscription: its own has grown at the end, the others are as before.
  subscribed-IsRing :
      (sub k i : ℕ)
      → mem sub reg ≡ false
      → max_topics ≤ sub
      → k < max_topics
      → i < max_topics
      → IsRing
          (Links.insert_tail (Links.init b.links sub) k sub)
          i
          (if k == i then members i ++ sub ∷ [] else members i)
  unfolding Links.insert_tail
  subscribed-IsRing sub k i out far hk hi =
      let l = Links.init b.links sub in
      let outside : (j : ℕ) → j < max_topics → mem sub (j ∷ members j) ≡ false =
        λ j h. ground (arith, mem-bucket b.subs j sub reg) in
      let ring : (j : ℕ) → j < max_topics → IsRing l j (members j) =
        λ j h. init-other b.links sub j (members j) (v.rings j h) (outside j h) in
      elim (Bool-cases (k == i)) [
        | inl same ↦
            let e : k ≡ i = (==_iff k i).0 same in
            rw (same, e)
              (insert_tail-IsRing l i sub (omega arith) (members i) (ring i hi)
                (ground (arith, outside i hi)))
        | inr other ↦
            let ne : i ≢ k = ground arith in
            let (n, p) = Chain-seam l k (members k) [] k (rw append-nil (ring k hk).chain) in
            rw (other, p)
              (insert_between-other l sub (last k (members k)) k i (members i) (ring i hi)
                (outside i hi)
                (elsewhere i k _ hi hk ne (rw append-nil at (mem-last k (members k) [])))
                (elsewhere i k k hi hk ne (ground arith)))
      ]

  -- `Anbo_EBus_Subscribe` of a new subscriber puts it behind the others.
  pub subscribe-IsBus :
      (sub sig handler ctx : ℕ)
      → mem sub reg ≡ false
      → max_topics ≤ sub
      → IsBus (subscribe b (some sub) sig (some handler) ctx) (reg ++ sub ∷ [])
  unfolding subscribe
  subscribe-IsBus sub sig handler ctx out far = record {
    distinct = Distinct-insert sub reg [] (rw append-nil v.distinct) (rw append-nil out);
    apart = λ x i. ground (arith, mem-append x reg (sub ∷ []), v.apart x);
    rings = λ i h.
        rw (bucket-grown b.subs i sub _ reg out)
          (subscribed-IsRing sub (sig_to_idx sig) i out far (omega arith) h);
  }

  -- `Anbo_EBus_Unsubscribe` of a subscriber takes out that one.
  pub unsubscribe-IsBus :
      (sub : Node) → mem sub reg ≡ true → IsBus (unsubscribe b (some sub)) (erase sub reg)
  unfolding unsubscribe
  unsubscribe-IsBus sub i = record {
    distinct = Distinct-erase sub reg v.distinct;
    apart = λ x j. v.apart x (ground (arith, mem-erase x sub reg v.distinct));
    rings = λ j h.
        let k = sig_to_idx (b.subs sub).sig in
        let hk : k < max_topics = omega arith in
        let inside : mem sub (members k) ≡ true = ground (arith, mem-bucket b.subs k sub reg) in
        let (before, behind) = neighbours b.links k sub (members k) (v.rings k hk) inside in
        rw (bucket-erase b.subs j sub reg) (elim (Bool-cases (k == j)) [
          | inl same ↦
              let e : k ≡ j = (==_iff k j).0 same in
              rw same (remove-erase b.links j sub (members j) (v.rings j h) (rw e at inside))
          | inr other ↦
              let ne : j ≢ k = ground arith in
              rw other (
                remove-other b.links sub j (members j) (v.rings j h)
                  (elsewhere j k sub h hk ne (ground arith)) (elsewhere j k _ h hk ne before)
                  (elsewhere j k _ h hk ne behind))
        ]);
  }

init_loop-IsRing :
    (n i : ℕ) (l : Links) (j : ℕ)
    → (j < i → IsRing l j [])
    → j < i + n
    → IsRing (init_loop n i l) j []
unfolding init_loop
init_loop-IsRing zero i l j ring h = ring (omega arith)
init_loop-IsRing (suc n) i l j ring h =
    init_loop-IsRing n (i + 1) (Links.init l i) j
      (λ p. elim (dec_lt j i) [
        | yes before ↦ init-other l i j [] (ring before) (ground arith)
        | no late ↦ let e : i ≡ j = omega arith in rw e (init-IsRing l j)
      ])
      (omega arith)

-- `Anbo_EBus_Init` leaves no subscriber.
pub init-IsBus : (b : Bus) → IsBus (init b) []
unfolding init bucket
init-IsBus b = record {
  distinct = tt;
  apart = λ x i. absurd (ground arith);
  rings = λ i h. init_loop-IsRing max_topics 0 b.links i (λ p. absurd (omega arith)) (omega arith);
}

-- A client's calls, and the subscribers in the order of subscription. A subscriber is subscribed
-- when it is not, and unsubscribed when it is, as the interface demands.
pub data Step : Bus → List Node → Bus → List Node → Type 0 where
  subscribed :
      {b : Bus} {reg : List Node} (sub sig handler ctx : ℕ)
      → mem sub reg ≡ false
      → max_topics ≤ sub
      → Step b reg (subscribe b (some sub) sig (some handler) ctx) (reg ++ sub ∷ [])
  unsubscribed :
      {b : Bus} {reg : List Node} (sub : Node)
      → mem sub reg ≡ true
      → Step b reg (unsubscribe b (some sub)) (erase sub reg)

pub data Reach : Bus → List Node → Type 0 where
  started : (b : Bus) → Reach (init b) []
  next : {b b' : Bus} {reg reg' : List Node} → Reach b reg → Step b reg b' reg' → Reach b' reg'

-- After `Anbo_EBus_Init` and any subscriptions and unsubscriptions each of the 32 lists is a
-- well-formed ring that holds exactly the subscribers whose signals belong there, in the order of
-- subscription.
pub Reach-IsBus : {b : Bus} {reg : List Node} → Reach b reg → IsBus b reg
Reach-IsBus (started b) = init-IsBus b
Reach-IsBus (next r (subscribed sub sig handler ctx out far)) =
    subscribe-IsBus (Reach-IsBus r) sub sig handler ctx out far
Reach-IsBus (next r (unsubscribed sub i)) = unsubscribe-IsBus (Reach-IsBus r) sub i
