-- ===== src/Fsm/Subscriptions.antt =====
-- The subscriptions of a state machine on the event bus.
use mathlib.Core.Path.{subst}
use anbo_mos.Common.{
  ℕ, zero, suc, ◌+◌, ◌%◌, ◌^◌, ◌≤◌, ◌<◌, Bool, true, false, not, ◌&&◌, some, List, [], ◌∷◌, ◌++◌,
  ◌≡◌, refl, ◌∙◌, sym, inl, inr, Bool-cases, arith, ok, failed, ltb, leb, ◌==◌, ==_iff,
  if◌then◌else◌,
}
use anbo_mos.Links.{Node}
use anbo_mos.Links.Chain.{mem, mem-append, Distinct}
use anbo_mos.Links.Remove.{erase}
use anbo_mos.EBus
use anbo_mos.EBus.{Bus, max_topics}
use anbo_mos.EBus.Registry.{IsBus, subscribe-IsBus, unsubscribe-IsBus}
use anbo_mos.Fsm.{Fsm, max_subs, subscribe, unsubscribe_loop, unsubscribe_all}

-- `x` is one of the `n` nodes from `lo` on.
abbrev pub in_row : (lo n x : ℕ) → Bool
in_row lo n x = leb lo x && ltb x (lo + n)

-- The subscribers that are none of these nodes, in their order.
unfoldable pub others : (lo n : ℕ) → List Node → List Node
others lo n [] = []
others lo n (x ∷ xs) = let rest = others lo n xs in if in_row lo n x then rest else x ∷ rest

mem-others :
    (a lo n : ℕ) (xs : List Node) → mem a (others lo n xs) ≡ (not (in_row lo n a) && mem a xs)
unfolding others
mem-others a lo n [] = ground arith
mem-others a lo n (x ∷ xs) = elim (Bool-cases (a == x)) [
  | inl same ↦
      let here : a ≡ x = (==_iff a x).0 same in rw here ground (arith, mem-others a lo n xs)
  | inr other ↦ ground (arith, mem-others a lo n xs)
]

others-zero : (lo : ℕ) (xs : List Node) → others lo 0 xs ≡ xs
unfolding others
others-zero lo [] = refl
others-zero lo (x ∷ xs) = ground (arith, others-zero lo xs)

-- One node more, which is no subscriber, and which is one.
others-absent :
    (lo n : ℕ) (xs : List Node) → mem (lo + n) xs ≡ false → others lo (suc n) xs ≡ others lo n xs
unfolding others
others-absent lo n [] o = refl
others-absent lo n (x ∷ xs) o = ground (arith, others-absent lo n xs)

erase-others :
    (lo n : ℕ) (xs : List Node)
    → Distinct xs
    → mem (lo + n) xs ≡ true
    → erase (lo + n) (others lo n xs) ≡ others lo (suc n) xs
unfolding others erase
erase-others lo n [] d i = absurd (ground arith)
erase-others lo n (x ∷ xs) (dx, d) i = elim (Bool-cases (x == lo + n)) [
  | inl same ↦
      let here : x ≡ lo + n = (==_iff x (lo + n)).0 same in
      let out : mem (lo + n) xs ≡ false = rw (← here) dx in ground (arith, others-absent lo n xs)
  | inr other ↦ ground (arith, erase-others lo n xs)
]

-- Of the subscribers `reg`, those of the machine are the first `sub_count` of its nodes, wherever they
-- stand among the others; its nodes are no heads.
pub record IsListening (b : Bus) (fsm : Fsm) (reg : List Node) : Type 0 where
  pub bus : IsBus b reg
  pub few : fsm.sub_count ≤ max_subs
  pub apart : max_topics ≤ fsm.subs
  pub own : (i : ℕ) → i < max_subs → mem (fsm.subs + i) reg ≡ ltb i fsm.sub_count

module _ (h self : ℕ) {b : Bus} {fsm : Fsm} {reg : List Node} (v : IsListening b fsm reg) where
  -- `Anbo_FSM_Subscribe` succeeds as long as the machine has fewer than 8 subscriptions, and puts
  -- the next of its nodes behind all the subscribers; with 8 it fails and changes nothing.
  pub subscribe-IsListening :
      (sig : ℕ)
      → let (r, s) = subscribe h self (b, fsm) sig in
        if ltb fsm.sub_count max_subs
        then IsListening s.0 s.1 (reg ++ (fsm.subs + fsm.sub_count) ∷ [])
          × (r ≡ ok)
          × (s.1.sub_count ≡ suc fsm.sub_count)
        else IsListening s.0 s.1 reg × (r ≡ failed) × (s ≡ (b, fsm))
  unfolding subscribe
  subscribe-IsListening sig = elim (Bool-cases (ltb fsm.sub_count max_subs)) [
    | inr full ↦ rw full (v, refl, refl)
    | inl room ↦
        let n = fsm.sub_count in
        let more : (n + 1) % 2 ^ 8 ≡ suc n = ground arith in
        let out : mem (fsm.subs + n) reg ≡ false = ground (arith, v.own n) in
        rw (room, more)
          (
            record {
              bus = subscribe-IsBus v.bus (fsm.subs + n) sig h self out (omega (arith, v.apart));
              few = ground arith;
              apart = v.apart;
              own = λ i l.
                  ground (arith, v.own i l, mem-append (fsm.subs + i) reg ((fsm.subs + n) ∷ []));
            },
            refl,
            refl,
          )
  ]

unsubscribe_loop-IsBus :
    (n k lo : ℕ) (b : Bus) (reg : List Node)
    → Distinct reg
    → ((i : ℕ) → k ≤ i → i < k + n → mem (lo + i) reg ≡ true)
    → IsBus b (others lo k reg)
    → IsBus (unsubscribe_loop n (lo + k) b) (others lo (k + n) reg)
unfolding unsubscribe_loop
unsubscribe_loop-IsBus zero k lo b reg d own v = let same : k + zero ≡ k = omega arith in rw same v
unsubscribe_loop-IsBus (suc n) k lo b reg d own v =
    let here : mem (lo + k) reg ≡ true = own k (omega arith) (omega arith) in
    let inside : mem (lo + k) (others lo k reg) ≡ true =
      ground (arith, mem-others (lo + k) lo k reg) in
    let b' = EBus.unsubscribe b (some (lo + k)) in
    let off : IsBus b' (others lo (suc k) reg) =
      subst (IsBus b') (erase-others lo k reg d here) (unsubscribe-IsBus v (lo + k) inside) in
    let next : lo + k + 1 ≡ lo + suc k = omega arith in
    let total : k + suc n ≡ suc k + n = omega arith in
    rw (next, total)
      (unsubscribe_loop-IsBus n (suc k) lo b' reg d (λ i l u. own i (omega arith) (omega arith))
        off)

-- `Anbo_FSM_UnsubscribeAll` takes all the subscriptions of the machine off the bus, wherever they
-- stand among the subscribers, and no others, whose order it keeps; the machine can then subscribe
-- to 8 signals again.
pub unsubscribe_all-IsListening :
    {b : Bus} {fsm : Fsm} {reg : List Node}
    → IsListening b fsm reg
    → let s = unsubscribe_all (b, fsm) in
      IsListening s.0 s.1 (others fsm.subs fsm.sub_count reg) × (s.1.sub_count ≡ 0)
unfolding unsubscribe_all
unsubscribe_all-IsListening {b} {fsm} {reg} v =
    let start : fsm.subs + 0 ≡ fsm.subs = omega arith in
    let all : 0 + fsm.sub_count ≡ fsm.sub_count = omega arith in
    let off : IsBus (unsubscribe_loop fsm.sub_count (fsm.subs + 0) b)
        (others fsm.subs (0 + fsm.sub_count) reg) =
      unsubscribe_loop-IsBus fsm.sub_count 0 fsm.subs b reg v.bus.distinct
        (λ i l u. ground (arith, v.own i, v.few))
        (subst (IsBus b) (sym (others-zero fsm.subs reg)) v.bus) in
    (
      record {
        bus = rw (start, all) at off;
        few = omega arith;
        apart = v.apart;
        own =
            λ i l. mem-others (fsm.subs + i) fsm.subs fsm.sub_count reg ∙ ground (arith, v.own i l);
      },
      refl,
    )
