-- ===== src/Pool/FreeList.antt =====
-- The free list: which blocks can be allocated.
use anbo_mos.Common.{
  ℕ, zero, suc, ◌+◌, ◌^◌, ◌<◌, true, false, Option, none, some, List, [], ◌∷◌, ◌≡◌, refl, ◌⊎◌, inl,
  inr, ◌∙◌, arith, length, sub32,
}
use anbo_mos.Links.Chain.{mem, mem-ne, Distinct}
use anbo_mos.Pool.{Pool, Block, link, next_of, block_count, set_block, init, alloc, free}

-- From `head` the links lead through `xs` to the end.
abbrev pub Linked : (ℕ → Block) → Option ℕ → List ℕ → Type 0
Linked blocks head [] = head ≡ none
Linked blocks head (x ∷ xs) =
    (head ≡ some x) × ((n : Option ℕ) × (blocks x ≡ link n) × Linked blocks n xs)

-- The free blocks are the distinct `xs`, in the order of allocation, and are counted.
pub record IsFree (s : Pool) (xs : List ℕ) : Type 0 where
  pub linked : Linked s.blocks s.free_head xs
  pub distinct : Distinct xs
  pub counted : s.free_count ≡ length xs
  pub small : length xs < 2 ^ 32

Linked-frame :
    (blocks blocks' : ℕ → Block) (head : Option ℕ) (xs : List ℕ)
    → ((b : ℕ) → mem b xs ≡ true → blocks' b ≡ blocks b)
    → Linked blocks head xs
    → Linked blocks' head xs
Linked-frame blocks blocks' head [] same l = l
Linked-frame blocks blocks' head (x ∷ xs) same (h, (n, e, l)) = (
  h,
  (n, same x (ground arith) ∙ e, Linked-frame blocks blocks' n xs (λ b i. same b (ground arith)) l),
)

-- Writing a block that is not free does not disturb the free list.
pub set_block-IsFree :
    (s : Pool) (xs : List ℕ) (b : ℕ) (c : Block)
    → IsFree s xs
    → mem b xs ≡ false
    → IsFree (set_block s b c) xs
set_block-IsFree s xs b c v out = record {
  linked =
      Linked-frame s.blocks (set_block s b c).blocks s.free_head xs
        (λ a i. ground (arith, mem-ne a b xs i out)) v.linked;
  distinct = v.distinct;
  counted = v.counted;
  small = v.small;
}

alloc-empty : (s : Pool) → s.free_head ≡ none → alloc s ≡ some (none, s)
unfolding alloc
alloc-empty s h = ground arith

alloc-head :
    (s : Pool) (blk : ℕ) (n : Option ℕ)
    → s.free_head ≡ some blk
    → s.blocks blk ≡ link n
    → alloc s ≡ some (some blk, record s { free_head = n; free_count = sub32 s.free_count 1 })
unfolding alloc
alloc-head s blk n h e = rw (h, alloc) (rw (e, next_of))

-- `Anbo_Pool_Alloc` returns the first free block and leaves the others free; when none is left it
-- returns `NULL` and changes nothing.
pub alloc-IsFree :
    (s : Pool) (xs : List ℕ)
    → IsFree s xs
    → ((xs ≡ []) × (alloc s ≡ some (none, s)))
      ⊎ ((x : ℕ) × (rest : List ℕ) × (s' : Pool) × (xs ≡ x ∷ rest)
          × (alloc s ≡ some (some x, s'))
          × IsFree s' rest
          × (s'.blocks ≡ s.blocks))
alloc-IsFree s [] v = inl (refl, alloc-empty s v.linked)
alloc-IsFree s (x ∷ xs) v =
    let (h, (n, e, l)) = v.linked in
    inr (
      x,
      xs,
      record s { free_head = n; free_count = sub32 s.free_count 1 },
      refl,
      alloc-head s x n h e,
      record {
        linked = l;
        distinct = v.distinct.1;
        counted = omega (arith, v.counted, v.small);
        small = omega (arith, v.small);
      },
      refl,
    )

-- `Anbo_Pool_Free` of a block that is not free puts it in front of the free ones.
pub free-IsFree :
    (s : Pool) (xs : List ℕ) (b : ℕ)
    → IsFree s xs
    → mem b xs ≡ false
    → length xs + 1 < 2 ^ 32
    → IsFree (free s (some b)) (b ∷ xs)
unfolding free
free-IsFree s xs b v out room = record {
  linked = (
    refl,
    (s.free_head, ground arith, (set_block-IsFree s xs b (link s.free_head) v out).linked),
  );
  distinct = (out, v.distinct);
  counted = omega (arith, v.counted);
  small = omega arith;
}

-- the numbers from `i` on, `n` of them
unfoldable pub numbers : ℕ → ℕ → List ℕ
numbers i zero = []
numbers i (suc n) = i ∷ numbers (i + 1) n

-- After `Anbo_Pool_Init` all 20 blocks are free.
pub init-IsFree : (s : Pool) → IsFree (init s) (numbers 0 block_count)
unfolding init numbers
init-IsFree s = record {
  linked = ground arith;
  distinct = ground arith;
  counted = refl;
  small = omega arith;
}
