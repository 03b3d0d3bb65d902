-- ===== src/EBus/Buckets.antt =====
-- Which subscribers belong in which bucket.
use anbo_mos.Common.{
  ℕ, ◌≤◌, false, ◌&&◌, List, [], ◌∷◌, ◌++◌, append-nil, ◌≡◌, refl, ap, ◌∙◌, inl, inr, Bool-cases,
  arith, ◌==◌, ==_iff, if◌then◌else◌, length,
}
use anbo_mos.Links.{Node}
use anbo_mos.Links.Chain.{mem}
use anbo_mos.Links.Remove.{erase}
use anbo_mos.EBus.{Subscriber, sig_to_idx, set_sub}

-- the subscribers of `reg` that belong in the bucket `i`
unfoldable pub bucket : (Node → Subscriber) → ℕ → List Node → List Node
bucket subs i [] = []
bucket subs i (x ∷ xs) =
    if sig_to_idx (subs x).sig == i then x ∷ bucket subs i xs else bucket subs i xs

pub mem-bucket :
    (subs : Node → Subscriber) (i x : ℕ) (xs : List Node)
    → mem x (bucket subs i xs) ≡ ((sig_to_idx (subs x).sig == i) && mem x xs)
unfolding bucket
mem-bucket subs i x [] = ground arith
mem-bucket subs i x (y ∷ xs) = elim (Bool-cases (x == y)) [
  | inl same ↦ let e : x ≡ y = (==_iff x y).0 same in rw e ground (arith, mem-bucket subs i x xs)
  | inr other ↦ ground (arith, mem-bucket subs i x xs)
]

pub bucket-append :
    (subs : Node → Subscriber) (i : ℕ) (xs ys : List Node)
    → bucket subs i (xs ++ ys) ≡ bucket subs i xs ++ bucket subs i ys
unfolding bucket
bucket-append subs i [] ys = refl
bucket-append subs i (x ∷ xs) ys = ground (arith, bucket-append subs i xs ys)

pub bucket-set_sub :
    (subs : Node → Subscriber) (i n : ℕ) (c : Subscriber) (xs : List Node)
    → mem n xs ≡ false
    → bucket (set_sub subs n c) i xs ≡ bucket subs i xs
unfolding bucket
bucket-set_sub subs i n c [] o = refl
bucket-set_sub subs i n c (x ∷ xs) o = ground (arith, bucket-set_sub subs i n c xs)

pub bucket-grown :
    (subs : Node → Subscriber) (i n : ℕ) (c : Subscriber) (xs : List Node)
    → mem n xs ≡ false
    → bucket (set_sub subs n c) i (xs ++ n ∷ [])
      ≡ (if sig_to_idx c.sig == i then bucket subs i xs ++ n ∷ [] else bucket subs i xs)
unfolding bucket
bucket-grown subs i n c xs o =
    bucket-append (set_sub subs n c) i xs (n ∷ [])
    ∙ ap (λ ys. ys ++ bucket (set_sub subs n c) i (n ∷ [])) (bucket-set_sub subs i n c xs o)
    ∙ elim (Bool-cases (sig_to_idx c.sig == i)) [
      | inl own ↦ ground arith
      | inr other ↦ grind (arith, append-nil)
    ]

pub bucket-erase :
    (subs : Node → Subscriber) (i n : ℕ) (xs : List Node)
    → bucket subs i (erase n xs)
      ≡ (if sig_to_idx (subs n).sig == i then erase n (bucket subs i xs) else bucket subs i xs)
unfolding bucket erase
bucket-erase subs i n [] = ground arith
bucket-erase subs i n (x ∷ xs) = elim (Bool-cases (x == n)) [
  | inl same ↦ let e : x ≡ n = (==_iff x n).0 same in rw e ground arith
  | inr other ↦ ground (arith, bucket-erase subs i n xs)
]

pub length-bucket :
    (subs : Node → Subscriber) (i : ℕ) (xs : List Node) → length (bucket subs i xs) ≤ length xs
unfolding bucket
length-bucket subs i [] = omega arith
length-bucket subs i (x ∷ xs) = ground (arith, length-bucket subs i xs)
