-- ===== src/Links/Insert.antt =====
-- Inserting a node into a ring.
use anbo_mos.Common.{false, List, [], ◌∷◌, ◌++◌, append-nil, ◌≡◌, refl, ◌≢◌, sym, arith}
use anbo_mos.Links.{Node, Links, init, insert_between, insert_head, insert_tail}
use anbo_mos.Links.Chain.{
  mem, mem-ne, Distinct, Chain, IsRing, last, first, Chain-frame, mem-append, mem-last, mem-first,
  Chain-seam,
}

-- What follows the inserted node.
after :
    (l : Links) (node p : Node) (ys : List Node) (q : Node)
    → Chain l p ys q
    → node ≢ p
    → node ≢ q
    → mem node ys ≡ false
    → mem p ys ≡ false
    → mem q ys ≡ false
    → Distinct ys
    → Chain (insert_between l node p (first ys q)) node ys q
unfolding insert_between
after l node p [] q c np nq on op oq d = ground arith
after l node p (y ∷ ys) q (c, b, rest) np nq on op oq (dy, d) = (
  ground arith,
  ground arith,
  Chain-frame l (insert_between l node p y) y ys q rest
      (λ a i. ground (arith, mem-ne a p (y ∷ ys), mem-ne a node (y ∷ ys)))
      (λ a i. ground (arith, mem-ne a y ys, mem-ne a node ys)),
)

-- `anbo_list_insert_between` at the seam of two parts of a chain puts the node there.
pub insert_between-Chain :
    (l : Links) (node q : Node) (ys : List Node)
    → node ≢ q
    → (p : Node) (xs : List Node) → Chain l p (xs ++ ys) q
    → mem node (xs ++ ys) ≡ false
    → node ≢ p
    → mem q (xs ++ ys) ≡ false
    → mem p (xs ++ ys) ≡ false
    → Distinct (xs ++ ys)
    → Chain (insert_between l node (last p xs) (first ys q)) p (xs ++ node ∷ ys) q
unfolding insert_between
insert_between-Chain l node q ys nq p [] c out np oq op d =
    (ground arith, ground arith, after l node p ys q c np nq out op oq d)
insert_between-Chain l node q ys nq p (x ∷ xs) (c, b, rest) out np oq op (dx, d) = (
  ground (arith, mem-ne (last x xs) p (x ∷ xs ++ ys), mem-last x xs ys),
  ground (arith, mem-first x xs ys q dx (ground arith)),
  insert_between-Chain l node q ys nq x xs rest (ground arith) (ground arith) (ground arith) dx d,
)

pub Distinct-insert :
    (node : Node) (xs ys : List Node)
    → Distinct (xs ++ ys)
    → mem node (xs ++ ys) ≡ false
    → Distinct (xs ++ node ∷ ys)
Distinct-insert node [] ys d out = (out, d)
Distinct-insert node (x ∷ xs) ys (dx, d) out = (
  ground (arith, mem-append x xs ys, mem-append x xs (node ∷ ys)),
  Distinct-insert node xs ys d (ground arith),
)

mem-insert :
    (a node : Node) (xs ys : List Node)
    → a ≢ node
    → mem a (xs ++ ys) ≡ false
    → mem a (xs ++ node ∷ ys) ≡ false
mem-insert a node xs ys ne out = ground (arith, mem-append a xs ys, mem-append a xs (node ∷ ys))

-- `Anbo_List_Init` makes an empty ring of its node.
pub init-IsRing : (l : Links) (h : Node) → IsRing (init l h) h []
unfolding init
init-IsRing l h = record { chain = ground arith; apart = refl; distinct = tt }

module _ (l : Links) (h node : Node) (ne : node ≢ h) where
  -- `anbo_list_insert_between`, given a node of a ring (or its head) and the one before it, inserts
  -- a new node there.
  pub insert_between-IsRing :
      (xs ys : List Node)
      → IsRing l h (xs ++ ys)
      → mem node (xs ++ ys) ≡ false
      → IsRing (insert_between l node (l.prev (first ys h)) (first ys h)) h (xs ++ node ∷ ys)
  insert_between-IsRing xs ys ring out = rw (Chain-seam l h xs ys h ring.chain).1 (record {
    chain =
        insert_between-Chain l node h ys ne h xs ring.chain out ne ring.apart ring.apart
          ring.distinct;
    apart = mem-insert h node xs ys (λ e. ne (sym e)) ring.apart;
    distinct = Distinct-insert node xs ys ring.distinct out;
  })

  -- `Anbo_List_InsertTail` appends a new node to a ring.
  pub insert_tail-IsRing :
      (xs : List Node)
      → IsRing l h xs
      → mem node xs ≡ false
      → IsRing (insert_tail l h node) h (xs ++ node ∷ [])
  unfolding insert_tail
  insert_tail-IsRing xs ring out =
      insert_between-IsRing xs [] (rw append-nil ring) (rw append-nil out)

  -- `Anbo_List_InsertHead` puts a new node in front of a ring.
  pub insert_head-IsRing :
      (xs : List Node)
      → IsRing l h xs
      → mem node xs ≡ false
      → IsRing (insert_head l h node) h (node ∷ xs)
  unfolding insert_head
  insert_head-IsRing xs ring out =
      let (n, p) = Chain-seam l h [] xs h ring.chain in
      rw n (rw p at (insert_between-IsRing [] xs ring out))

-- A ring to which none of the three nodes belongs is left as it was.
pub insert_between-other :
    (l : Links) (node prev next g : Node) (zs : List Node)
    → IsRing l g zs
    → mem node (g ∷ zs) ≡ false
    → mem prev (g ∷ zs) ≡ false
    → mem next (g ∷ zs) ≡ false
    → IsRing (insert_between l node prev next) g zs
unfolding insert_between
insert_between-other l node prev next g zs ring on op ox = record {
  chain =
      Chain-frame l (insert_between l node prev next) g zs g ring.chain
        (λ a i. ground (arith, mem-ne a node (g ∷ zs), mem-ne a prev (g ∷ zs)))
        (λ a i. ground (arith, mem-ne a node (g ∷ zs), mem-ne a next (g ∷ zs)));
  apart = ring.apart;
  distinct = ring.distinct;
}

-- Initialising a node that does not belong to a ring leaves the ring as it was.
pub init-other :
    (l : Links) (node g : Node) (zs : List Node)
    → IsRing l g zs
    → mem node (g ∷ zs) ≡ false
    → IsRing (init l node) g zs
unfolding init
init-other l node g zs ring out = record {
  chain =
      Chain-frame l (init l node) g zs g ring.chain (λ a i. ground (arith, mem-ne a node (g ∷ zs)))
        (λ a i. ground (arith, mem-ne a node (g ∷ zs)));
  apart = ring.apart;
  distinct = ring.distinct;
}
