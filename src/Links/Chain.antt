-- ===== src/Links/Chain.antt =====
-- When the nodes of a memory form a ring that stands for a list.
use anbo_mos.Common.{Bool, true, false, ◌||◌, List, [], ◌∷◌, ◌++◌, ◌≡◌, refl, ◌≢◌, ap, arith, ◌==◌}
use anbo_mos.Links.{Node, Links}

abbrev pub mem : Node → List Node → Bool
mem a [] = false
mem a (x ∷ xs) = (a == x) || mem a xs

abbrev pub Distinct : List Node → Type 0
Distinct [] = Unit
Distinct (x ∷ xs) = (mem x xs ≡ false) × Distinct xs

-- From `p` the `next` pointers lead through `xs` to `q`, and the `prev` pointers back.
abbrev pub Chain : Links → Node → List Node → Node → Type 0
Chain l p [] q = (l.next p ≡ q) × (l.prev q ≡ p)
Chain l p (x ∷ xs) q = (l.next p ≡ x) × (l.prev x ≡ p) × Chain l x xs q

-- The ring of the head `h` holds the distinct nodes `xs`, in this order.
pub record IsRing (l : Links) (h : Node) (xs : List Node) : Type 0 where
  pub chain : Chain l h xs h
  pub apart : mem h xs ≡ false
  pub distinct : Distinct xs

abbrev pub last : Node → List Node → Node
last p [] = p
last p (x ∷ xs) = last x xs

abbrev pub first : List Node → Node → Node
first [] q = q
first (y ∷ ys) q = y

-- A chain survives changes that spare the pointers it goes through.
pub Chain-frame :
    (l l' : Links) (p : Node) (xs : List Node) (q : Node)
    → Chain l p xs q
    → ((a : Node) → (a == p) || mem a xs ≡ true → l'.next a ≡ l.next a)
    → ((a : Node) → (a == q) || mem a xs ≡ true → l'.prev a ≡ l.prev a)
    → Chain l' p xs q
Chain-frame l l' p [] q c n r = ground (arith, n p, r q)
Chain-frame l l' p (x ∷ xs) q (c, d, rest) n r = (
  ground (arith, n p),
  ground (arith, r x),
  Chain-frame l l' x xs q rest (λ a i. n a (ground arith)) (λ a i. r a (ground arith)),
)

-- Nodes inside and outside a list differ.
pub mem-ne : (a b : Node) (xs : List Node) → mem a xs ≡ true → mem b xs ≡ false → a ≢ b
mem-ne a b xs i o e = cc (ap (λ c. mem c xs) e)

pub mem-append : (a : Node) (xs ys : List Node) → mem a (xs ++ ys) ≡ (mem a xs || mem a ys)
mem-append a [] ys = refl
mem-append a (x ∷ xs) ys = ground (arith, mem-append a xs ys)

pub mem-last : (x : Node) (xs ys : List Node) → mem (last x xs) (x ∷ xs ++ ys) ≡ true
mem-last x [] ys = ground arith
mem-last x (y ∷ xs) ys = ground (arith, mem-last y xs ys)

pub mem-first :
    (a : Node) (xs ys : List Node) (q : Node) → mem a (xs ++ ys) ≡ false → a ≢ q → a ≢ first ys q
mem-first a xs [] q h ne = ne
mem-first a xs (y ∷ ys) q h ne = ground (arith, mem-append a xs (y ∷ ys))

-- At the seam of two parts of a chain the pointers of its ends meet.
pub Chain-seam :
    (l : Links) (p : Node) (xs ys : List Node) (q : Node)
    → Chain l p (xs ++ ys) q
    → (l.next (last p xs) ≡ first ys q) × (l.prev (first ys q) ≡ last p xs)
Chain-seam l p [] [] q c = c
Chain-seam l p [] (y ∷ ys) q (c, d, rest) = (c, d)
Chain-seam l p (x ∷ xs) ys q (c, d, rest) = Chain-seam l x xs ys q rest

-- What follows a node of a chain is a chain.
pub Chain-tail :
    (l : Links) (p : Node) (xs : List Node) (x : Node) (ys : List Node) (q : Node)
    → Chain l p (xs ++ x ∷ ys) q
    → Chain l x ys q
Chain-tail l p [] x ys q (c, b, rest) = rest
Chain-tail l p (z ∷ xs) x ys q (c, b, rest) = Chain-tail l z xs x ys q rest
