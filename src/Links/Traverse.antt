-- ===== src/Links/Traverse.antt =====
-- `ANBO_LIST_FOR_EACH` on a ring, and `Anbo_List_IsEmpty`.
use anbo_mos.Common.{
  ℕ, zero, suc, ◌<◌, false, none, some, List, [], ◌∷◌, ◌≡◌, refl, ◌≢◌, ap, ◌∙◌, arith, ◌==◌, length,
}
use anbo_mos.Links.{Node, Links, remove, is_empty, for_each}
use anbo_mos.Links.Chain.{mem, Chain, IsRing, first, Chain-seam}

for_each-Chain :
    (fuel : ℕ) (l : Links) (h p : Node) (xs : List Node)
    → Chain l p xs h
    → mem h xs ≡ false
    → length xs < fuel
    → for_each fuel l h (first xs h) ≡ some xs
unfolding for_each
for_each-Chain zero l h p xs c out fuel = absurd (omega arith)
for_each-Chain (suc fuel) l h p [] c out f = ground arith
for_each-Chain (suc fuel) l h p (x ∷ xs) (c, b, rest) out f =
    let (n, _) = Chain-seam l x [] xs h rest in
    let ih : for_each fuel l h (l.next x) ≡ some xs =
      rw n (for_each-Chain fuel l h x xs rest (ground arith) (omega arith)) in
    rw ih (ground arith)

-- With more rounds allowed than the ring has nodes, the traversal ends, and visits exactly the
-- nodes of the ring, in order.
pub for_each-IsRing :
    (fuel : ℕ) (l : Links) (h : Node) (xs : List Node)
    → IsRing l h xs
    → length xs < fuel
    → for_each fuel l h (l.next h) ≡ some xs
for_each-IsRing fuel l h xs ring f =
    rw (Chain-seam l h [] xs h ring.chain).0 (for_each-Chain fuel l h h xs ring.chain ring.apart f)

-- `Anbo_List_IsEmpty` tells whether the ring holds no node.
pub is_empty-IsRing :
    (l : Links) (h : Node) (xs : List Node) → IsRing l h xs → is_empty l h ≡ (length xs == 0)
unfolding is_empty
is_empty-IsRing l h [] ring = ground (arith, ring.chain)
is_empty-IsRing l h (x ∷ xs) ring = ground (arith, ring.chain, ring.apart)

-- A traversal that stands at a node which has been removed from its ring never ends, however many
-- rounds it is allowed: the node leads to itself, and is not the head.
pub for_each-remove_here :
    (fuel : ℕ) (l : Links) (h x : Node) → x ≢ h → for_each fuel (remove l x) h x ≡ none
unfolding for_each remove
for_each-remove_here zero l h x ne = refl
for_each-remove_here (suc fuel) l h x ne =
    let stays : (remove l x).next x ≡ x = ground arith in
    let ih : for_each fuel (remove l x) h ((remove l x).next x) ≡ none =
      ap (for_each fuel (remove l x) h) stays ∙ for_each-remove_here fuel l h x ne in
    rw ih (ground arith)
