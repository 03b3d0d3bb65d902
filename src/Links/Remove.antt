-- ===== src/Links/Remove.antt =====
-- Taking a node out of a ring.
use mathlib.Core.Path.{subst}
use anbo_mos.Common.{
  inl, inr, Bool-cases, ==_iff, not, ◌&&◌, length, ◌≤◌, true, false, List, [], ◌∷◌, ◌++◌, ◌≡◌, refl,
  ◌≢◌, ap, ◌∙◌, sym, arith, ◌==◌, if◌then◌else◌,
}
use anbo_mos.Links.{Node, Links, remove}
use anbo_mos.Links.Chain.{
  mem, mem-ne, Distinct, Chain, IsRing, last, first, Chain-frame, mem-append, mem-last, mem-first,
  Chain-seam, Chain-tail,
}

remove-Chain :
    (l : Links) (x q : Node) (ys : List Node)
    → x ≢ q
    → (p : Node) (xs : List Node) → Chain l p (xs ++ x ∷ ys) q
    → l.prev x ≡ last p xs
    → l.next x ≡ first ys q
    → mem q (xs ++ x ∷ ys) ≡ false
    → mem p (xs ++ x ∷ ys) ≡ false
    → Distinct (xs ++ x ∷ ys)
    → Chain (remove l x) p (xs ++ ys) q
unfolding remove
remove-Chain l x q [] xq p [] (c, b, rest) before after oq op d = ground arith
remove-Chain l x q (y ∷ ys) xq p [] (c, b, (c', b', rest)) before after oq op (dx, (dy, d)) = (
  ground arith,
  ground arith,
  Chain-frame l (remove l x) y ys q rest
      (λ a i. ground (arith, mem-ne a p (y ∷ ys), mem-ne a x (y ∷ ys)))
      (λ a i. ground (arith, mem-ne a y ys, mem-ne a x ys)),
)
remove-Chain l x q ys xq p (z ∷ xs) (c, b, rest) before after oq op (dz, d) = (
  ground (
    arith,
    mem-ne (last z xs) p (z ∷ xs ++ x ∷ ys),
    mem-last z xs (x ∷ ys),
    mem-append p xs (x ∷ ys),
  ),
  ground (
    arith,
    mem-first z xs ys q (ground (arith, mem-append z xs (x ∷ ys), mem-append z xs ys)),
    mem-append z xs (x ∷ ys),
  ),
  remove-Chain l x q ys xq z xs rest before after (ground arith) dz d,
)

pub mem-remove_self :
    (x : Node) (xs ys : List Node) → Distinct (xs ++ x ∷ ys) → mem x (xs ++ ys) ≡ false
mem-remove_self x [] ys d = d.0
mem-remove_self x (z ∷ xs) ys (dz, d) =
    ground (arith, mem-remove_self x xs ys d, mem-append z xs (x ∷ ys))

pub Distinct-remove : (x : Node) (xs ys : List Node) → Distinct (xs ++ x ∷ ys) → Distinct (xs ++ ys)
Distinct-remove x [] ys d = d.1
Distinct-remove x (z ∷ xs) ys (dz, d) =
    (ground (arith, mem-append z xs ys, mem-append z xs (x ∷ ys)), Distinct-remove x xs ys d)

-- `Anbo_List_Remove` takes a node out of its ring, keeps the order of the others, and leaves the
-- node pointing to itself.
pub remove-IsRing :
    (l : Links) (h x : Node) (xs ys : List Node)
    → IsRing l h (xs ++ x ∷ ys)
    → IsRing (remove l x) h (xs ++ ys) × ((remove l x).next x ≡ x) × ((remove l x).prev x ≡ x)
unfolding remove
remove-IsRing l h x xs ys ring =
    let xh : x ≢ h = ground (arith, mem-append h xs (x ∷ ys), ring.apart) in
    (
      record {
        chain =
            remove-Chain l x h ys xh h xs ring.chain (Chain-seam l h xs (x ∷ ys) h ring.chain).1
              (Chain-seam l x [] ys h (Chain-tail l h xs x ys h ring.chain)).0 ring.apart ring.apart
              ring.distinct;
        apart = ground (arith, mem-append h xs (x ∷ ys), mem-append h xs ys, ring.apart);
        distinct = Distinct-remove x xs ys ring.distinct;
      },
      ground arith,
      ground arith,
    )

-- A ring to which neither the node nor its neighbours belong is left as it was.
pub remove-other :
    (l : Links) (x g : Node) (zs : List Node)
    → IsRing l g zs
    → mem x (g ∷ zs) ≡ false
    → mem (l.prev x) (g ∷ zs) ≡ false
    → mem (l.next x) (g ∷ zs) ≡ false
    → IsRing (remove l x) g zs
unfolding remove
remove-other l x g zs ring ox op on = record {
  chain =
      Chain-frame l (remove l x) g zs g ring.chain
        (λ a i. ground (arith, mem-ne a x (g ∷ zs), mem-ne a (l.prev x) (g ∷ zs)))
        (λ a i. ground (arith, mem-ne a x (g ∷ zs), mem-ne a (l.next x) (g ∷ zs)));
  apart = ring.apart;
  distinct = ring.distinct;
}

-- A list without the first occurrence of a node.
unfoldable pub erase : Node → List Node → List Node
erase n [] = []
erase n (x ∷ xs) = if x == n then xs else x ∷ erase n xs

-- A ring's list, split at a node that it holds.
pub split_at :
    (n : Node) (xs : List Node)
    → mem n xs ≡ true
    → (before behind : List Node) × (xs ≡ before ++ n ∷ behind) × (erase n xs ≡ before ++ behind)
unfolding erase
split_at n [] i = absurd (ground arith)
split_at n (x ∷ xs) i = elim (Bool-cases (x == n)) [
  | inl here ↦ ([], xs, ap (λ y. y ∷ xs) ((==_iff x n).0 here), rw here)
  | inr other ↦
      let (before, behind, e, e') = split_at n xs (ground arith) in
      (x ∷ before, behind, ap (λ r. x ∷ r) e, rw other (ap (λ r. x ∷ r) e'))
]

pub erase-absent : (n : Node) (xs : List Node) → mem n xs ≡ false → erase n xs ≡ xs
unfolding erase
erase-absent n [] o = refl
erase-absent n (x ∷ xs) o = ground (arith, erase-absent n xs)

pub mem-erase :
    (a n : Node) (xs : List Node) → Distinct xs → mem a (erase n xs) ≡ (not (a == n) && mem a xs)
unfolding erase
mem-erase a n [] d = ground arith
mem-erase a n (x ∷ xs) (dx, d) = ground (arith, mem-erase a n xs d)

pub length-erase : (n : Node) (xs : List Node) → length (erase n xs) ≤ length xs
unfolding erase
length-erase n [] = omega arith
length-erase n (x ∷ xs) = ground (arith, length-erase n xs)

-- `Anbo_List_Remove` of a node that the ring holds.
pub remove-erase :
    (l : Links) (h x : Node) (xs : List Node)
    → IsRing l h xs
    → mem x xs ≡ true
    → IsRing (remove l x) h (erase x xs)
remove-erase l h x xs ring i =
    let (before, behind, e, e') = split_at x xs i in
    rw e' (remove-IsRing l h x before behind (rw (← e) ring)).0

pub next-remove_self : (l : Links) (x : Node) → (remove l x).next x ≡ x
unfolding remove
next-remove_self l x = ground arith

mem-first_behind :
    (h x : Node) (before behind : List Node)
    → mem (first behind h) (h ∷ before ++ x ∷ behind) ≡ true
mem-first_behind h x before [] = ground arith
mem-first_behind h x before (y ∷ behind) = ground (arith, mem-append y before (x ∷ y ∷ behind))

-- The nodes around a node of a ring belong to it, or are its head.
pub neighbours :
    (l : Links) (h x : Node) (xs : List Node)
    → IsRing l h xs
    → mem x xs ≡ true
    → (mem (l.prev x) (h ∷ xs) ≡ true) × (mem (l.next x) (h ∷ xs) ≡ true)
neighbours l h x xs ring i =
    let (before, behind, e, e') = split_at x xs i in
    let c : Chain l h (before ++ x ∷ behind) h = subst (λ ys. Chain l h ys h) e ring.chain in
    let (n, p) = Chain-seam l h before (x ∷ behind) h c in
    let (n', p') = Chain-seam l x [] behind h (Chain-tail l h before x behind h c) in
    (
      subst (λ ys. mem (l.prev x) (h ∷ ys) ≡ true) (sym e)
          (ap (λ a. mem a (h ∷ before ++ x ∷ behind)) p ∙ mem-last h before (x ∷ behind)),
      subst (λ ys. mem (l.next x) (h ∷ ys) ≡ true) (sym e)
          (ap (λ a. mem a (h ∷ before ++ x ∷ behind)) n' ∙ mem-first_behind h x before behind),
    )
