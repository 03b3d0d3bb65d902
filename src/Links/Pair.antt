-- ===== src/Links/Pair.antt =====
-- Two rings side by side, and a node that moves from the one to the other.
use anbo_mos.Common.{
  true, false, ◌||◌, List, [], ◌∷◌, ◌++◌, append-nil, ◌≡◌, ap, ◌∙◌, sym, inl, inr, Bool-cases,
  arith, ◌==◌, ==_iff,
}
use anbo_mos.Links.{Node, Links, insert_between, insert_tail, remove}
use anbo_mos.Links.Chain.{mem, mem-append, mem-last, IsRing, last, first, Chain-seam}
use anbo_mos.Links.Insert.{insert_tail-IsRing, insert_between-other}
use anbo_mos.Links.Remove.{remove-IsRing, remove-other}

-- The rings of `h` and of `g` hold `xs` and `zs`, and share no node.
pub record IsPair (l : Links) (h g : Node) (xs zs : List Node) : Type 0 where
  pub one : IsRing l h xs
  pub other : IsRing l g zs
  pub apart : (a : Node) → mem a (h ∷ xs) ≡ true → mem a (g ∷ zs) ≡ false

IsPair-back :
    {l : Links} {h g : Node} {xs zs : List Node}
    → IsPair l h g xs zs
    → (a : Node) → mem a (g ∷ zs) ≡ true
    → mem a (h ∷ xs) ≡ false
IsPair-back {l} {h} {g} {xs} {zs} p a i = elim (Bool-cases (mem a (h ∷ xs))) [
  | inl both ↦ absurd (cc (p.apart a both))
  | inr out ↦ out
]

pub IsPair-swap :
    {l : Links} {h g : Node} {xs zs : List Node} → IsPair l h g xs zs → IsPair l g h zs xs
IsPair-swap p = record { one = p.other; other = p.one; apart = IsPair-back p }

first-mem : (h : Node) (xs : List Node) → mem (first xs h) (h ∷ xs) ≡ true
first-mem h [] = ground arith
first-mem h (y ∷ ys) = ground arith

last-mem : (h : Node) (xs : List Node) → mem (last h xs) (h ∷ xs) ≡ true
last-mem h xs = ap (λ ys. mem (last h xs) (h ∷ ys)) (sym (append-nil xs)) ∙ mem-last h xs []

-- The first node of the one ring is taken out.
pub remove-IsPair :
    (l : Links) (h g x : Node) (xs zs : List Node)
    → IsPair l h g (x ∷ xs) zs
    → IsPair (remove l x) h g xs zs
remove-IsPair l h g x xs zs p =
    let (ring, _, _) = remove-IsRing l h x [] xs p.one in
    let before : l.prev x ≡ h = p.one.chain.1 in
    let behind : l.next x ≡ first xs h = (Chain-seam l x [] xs h p.one.chain.2).0 in
    record {
      one = ring;
      other =
          remove-other l x g zs p.other (p.apart x (ground arith))
            (ap (λ a. mem a (g ∷ zs)) before ∙ p.apart h (ground arith))
            (ap (λ a. mem a (g ∷ zs)) behind
              ∙ p.apart (first xs h) (ground (arith, first-mem h xs)));
      apart = λ a i. p.apart a (ground arith);
    }

-- A node of neither ring is put into the other one, anywhere between two neighbours.
pub insert_between-IsPair :
    (l : Links) (h g x before behind : Node) (xs zs ws : List Node)
    → IsPair l h g xs zs
    → mem x (h ∷ xs) ≡ false
    → mem before (g ∷ zs) ≡ true
    → mem behind (g ∷ zs) ≡ true
    → IsRing (insert_between l x before behind) g ws
    → ((a : Node) → mem a ws ≡ true → (a == x) || mem a zs ≡ true)
    → IsPair (insert_between l x before behind) h g xs ws
insert_between-IsPair l h g x before behind xs zs ws p out b c ring new =
    let back = IsPair-back p in
    IsPair-swap (record {
      one = ring;
      other = insert_between-other l x before behind h xs p.one out (back before b) (back behind c);
      apart = λ a i. elim (Bool-cases (a == x)) [
        | inl same ↦ ap (λ b. mem b (h ∷ xs)) ((==_iff a x).0 same) ∙ out
        | inr not_x ↦ back a (ground (arith, new a))
      ];
    })

-- The first node of the one ring goes to the end of the other.
pub move-IsPair :
    (l : Links) (h g x : Node) (xs zs : List Node)
    → IsPair l h g (x ∷ xs) zs
    → IsPair (insert_tail (remove l x) g x) h g xs (zs ++ x ∷ [])
unfolding insert_tail
move-IsPair l h g x xs zs p =
    let q = remove-IsPair l h g x xs zs p in
    let l1 = remove l x in
    let out : mem x (g ∷ zs) ≡ false = p.apart x (ground arith) in
    let ends : l1.prev g ≡ last g zs = (Chain-seam l1 g zs [] g (rw append-nil q.other.chain)).1 in
    insert_between-IsPair l1 h g x (l1.prev g) g xs zs (zs ++ x ∷ []) q
      (ground (arith, p.one.apart, p.one.distinct)) (ap (λ a. mem a (g ∷ zs)) ends ∙ last-mem g zs)
      (ground arith) (insert_tail-IsRing l1 g x (ground arith) zs q.other (ground arith))
      (λ a i. ground (arith, mem-append a zs (x ∷ [])))
