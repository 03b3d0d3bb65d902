-- ===== src/Timer/Place.antt =====
-- The order of the active list, and the insertion that keeps it, on lists.
use anbo_mos.Common.{
  ℕ, suc, ◌≤◌, Bool, true, false, ◌||◌, List, [], ◌∷◌, ◌++◌, ◌≡◌, refl, arith, ltb, ◌==◌,
  if◌then◌else◌, length,
}
use anbo_mos.Links.{Node}
use anbo_mos.Links.Chain.{mem}

-- `x` goes before the first node that is later.
unfoldable pub place : (Node → Bool) → Node → List Node → List Node
place is_later x [] = x ∷ []
place is_later x (y ∷ ys) = if is_later y then x ∷ y ∷ ys else y ∷ place is_later x ys

pub length-place :
    (t : Node → Bool) (x : Node) (xs : List Node) → length (place t x xs) ≡ suc (length xs)
unfolding place
length-place t x [] = refl
length-place t x (y ∷ ys) = ground (arith, length-place t x ys)

pub mem-place :
    (a : Node) (t : Node → Bool) (x : Node) (xs : List Node)
    → mem a (place t x xs) ≡ ((a == x) || mem a xs)
unfolding place
mem-place a t x [] = refl
mem-place a t x (y ∷ ys) = ground (arith, mem-place a t x ys)

-- Nodes that are not later are passed by.
pub place-append :
    (t : Node → Bool) (x : Node) (es rs : List Node)
    → ((e : Node) → mem e es ≡ true → t e ≡ false)
    → place t x (es ++ rs) ≡ es ++ place t x rs
unfolding place
place-append t x [] rs h = refl
place-append t x (e ∷ es) rs h =
    let ih = place-append t x es rs (λ a i. h a (ground arith)) in ground (arith, h e)

-- Only the test at the nodes of the list matters.
pub place_congr :
    (t u : Node → Bool) (x : Node) (xs : List Node)
    → ((a : Node) → mem a xs ≡ true → t a ≡ u a)
    → place t x xs ≡ place u x xs
unfolding place
place_congr t u x [] h = refl
place_congr t u x (y ∷ ys) h =
    let ih = place_congr t u x ys (λ a i. h a (ground arith)) in ground (arith, h y)

-- No node has a greater key than one behind it.
abbrev pub AllFrom : (Node → ℕ) → ℕ → List Node → Type 0
AllFrom key k [] = Unit
AllFrom key k (x ∷ xs) = (k ≤ key x) × AllFrom key k xs

abbrev pub IsSorted : (Node → ℕ) → List Node → Type 0
IsSorted key [] = Unit
IsSorted key (x ∷ xs) = AllFrom key (key x) xs × IsSorted key xs

pub AllFrom-le :
    (key : Node → ℕ) (j k : ℕ) (xs : List Node) → j ≤ k → AllFrom key k xs → AllFrom key j xs
AllFrom-le key j k [] h a = tt
AllFrom-le key j k (x ∷ xs) h (a, r) = (omega arith, AllFrom-le key j k xs h r)

AllFrom-place :
    (key : Node → ℕ) (k : ℕ) (t : Node → Bool) (x : Node) (xs : List Node)
    → k ≤ key x
    → AllFrom key k xs
    → AllFrom key k (place t x xs)
unfolding place
AllFrom-place key k t x [] h a = (h, tt)
AllFrom-place key k t x (y ∷ ys) h (a, r) = ground (arith, AllFrom-place key k t x ys h r)

-- An insertion before the first greater key keeps the order.
pub place-IsSorted :
    (key : Node → ℕ) (x : Node) (xs : List Node)
    → IsSorted key xs
    → IsSorted key (place (λ y. ltb (key x) (key y)) x xs)
unfolding place
place-IsSorted key x [] s = (tt, tt)
place-IsSorted key x (y ∷ ys) (a, s) = ground (
  arith,
  place-IsSorted key x ys s,
  AllFrom-place key (key y) (λ y. ltb (key x) (key y)) x ys,
  AllFrom-le key (key x) (key y) ys,
)
