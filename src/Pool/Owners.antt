-- ===== src/Pool/Owners.antt =====
-- Who holds the blocks: a client that allocates blocks, writes those it holds, and frees those.
use mathlib.Core.Path.{subst}
use anbo_mos.Common.{
  ℕ, true, false, some, List, [], ◌∷◌, ◌++◌, append_assoc, append-nil, zero, suc, ◌+◌, ◌&&◌, leb,
  ltb, ◌≡◌, refl, inl, inr, ap, ◌∙◌, sym, arith, length, length-append,
}
use anbo_mos.Links.Chain.{mem, mem-ne, mem-append, Distinct}
use anbo_mos.Links.Insert.{Distinct-insert}
use anbo_mos.Links.Remove.{mem-remove_self, Distinct-remove}
use anbo_mos.Pool.{Pool, Block, block_count, set_block, init, alloc, free}
use anbo_mos.Pool.FreeList.{
  IsFree, numbers, init-IsFree, alloc-IsFree, free-IsFree, set_block-IsFree,
}

-- The blocks in the client's hands are `held`.
pub data Step : Pool → List ℕ → Pool → List ℕ → Type 0 where
  allocated :
      {s s' : Pool} {held : List ℕ} (b : ℕ)
      → alloc s ≡ some (some b, s')
      → Step s held s' (b ∷ held)
  written :
      {s : Pool} {held : List ℕ} (b : ℕ) (c : Block)
      → mem b held ≡ true
      → Step s held (set_block s b c) held
  freed :
      {s : Pool} {held held' : List ℕ} (before : List ℕ) (b : ℕ) (behind : List ℕ)
      → held ≡ before ++ b ∷ behind
      → held' ≡ before ++ behind
      → Step s held (free s (some b)) held'

pub data Reach : Pool → List ℕ → Type 0 where
  started : (s : Pool) → Reach (init s) []
  next : {s s' : Pool} {held held' : List ℕ} → Reach s held → Step s held s' held' → Reach s' held'

-- Every block of the pool is either free or held, and none is both or held twice; nothing else is.
pub record IsOwned (s : Pool) (held : List ℕ) : Type 0 where
  pub free_blocks : List ℕ
  pub is_free : IsFree s free_blocks
  pub apart : Distinct (free_blocks ++ held)
  pub complete : length (free_blocks ++ held) ≡ block_count
  pub blocks : (b : ℕ) → mem b (free_blocks ++ held) ≡ ltb b block_count

mem-numbers : (b i n : ℕ) → mem b (numbers i n) ≡ (leb i b && ltb b (i + n))
unfolding numbers
mem-numbers b i zero = ground arith
mem-numbers b i (suc n) = ground (arith, mem-numbers b (i + 1) n)

Distinct-apart : (b : ℕ) (xs ys : List ℕ) → Distinct (xs ++ ys) → mem b ys ≡ true → mem b xs ≡ false
Distinct-apart b [] ys d i = refl
Distinct-apart b (x ∷ xs) ys (dx, d) i =
    ground (arith, Distinct-apart b xs ys d i, mem-append x xs ys, mem-ne b x ys i)

Step-IsOwned :
    {s s' : Pool} {held held' : List ℕ} → Step s held s' held' → IsOwned s held → IsOwned s' held'
Step-IsOwned {s} {held} (allocated {s' = s'} b e) v =
    elim (alloc-IsFree s v.free_blocks v.is_free) [
      | inl (_, none_left) ↦ absurd (cc)
      | inr (x, rest, t, split, got, is_free, _) ↦
          let same_block : x ≡ b = cc in
          let same_state : t ≡ s' = cc in
          let parts = subst (λ l. Distinct (l ++ held)) split v.apart in
          record {
            free_blocks = rest;
            is_free = subst (λ u. IsFree u rest) same_state is_free;
            apart =
                subst (λ c. Distinct (rest ++ c ∷ held)) same_block
                  (Distinct-insert x rest held parts.1 parts.0);
            complete = omega (
              arith,
              v.complete,
              ap (λ l. length (l ++ held)) split,
              length-append rest (b ∷ held),
              length-append rest held,
            );
            blocks = λ a. ground (
              arith,
              v.blocks a,
              ap (λ l. mem a (l ++ held)) split,
              mem-append a rest held,
              mem-append a rest (b ∷ held),
            );
          }
    ]
Step-IsOwned {s} {held} (written b c i) v = record {
  free_blocks = v.free_blocks;
  is_free =
      set_block-IsFree s v.free_blocks b c v.is_free
        (Distinct-apart b v.free_blocks held v.apart i);
  apart = v.apart;
  complete = v.complete;
  blocks = v.blocks;
}
Step-IsOwned {s} {held} (freed before b behind h h') v =
    let xs = v.free_blocks in
    let split : xs ++ held ≡ (xs ++ before) ++ b ∷ behind =
      ap (λ l. xs ++ l) h ∙ sym (append_assoc xs before (b ∷ behind)) in
    let parts = subst Distinct split v.apart in
    let total = ap length split in
    let out = mem-remove_self b (xs ++ before) behind parts in
    record {
      free_blocks = b ∷ xs;
      is_free =
          free-IsFree s xs b v.is_free
            (ground (arith, out, mem-append b (xs ++ before) behind, mem-append b xs before))
            (omega (arith, v.complete, length-append xs held));
      apart = rw (h', ← append_assoc) (out, Distinct-remove b (xs ++ before) behind parts);
      complete = rw h' (
          omega (
            arith,
            total,
            v.complete,
            length-append (xs ++ before) (b ∷ behind),
            length-append xs before,
            length-append xs (before ++ behind),
            length-append before behind,
          ));
      blocks = λ a. rw h' (
          ground (
            arith,
            v.blocks a,
            ap (mem a) split,
            mem-append a (xs ++ before) (b ∷ behind),
            mem-append a xs before,
            mem-append a xs (before ++ behind),
            mem-append a before behind,
          ));
    }

-- From `Anbo_Pool_Init` on, as long as the client frees and writes only blocks that it holds, the
-- free blocks, which the free list links, and the held ones are together exactly the blocks 0 to 19 of
-- the pool, each once: none is lost or handed out twice.
pub Reach-IsOwned : {s : Pool} {held : List ℕ} → Reach s held → IsOwned s held
Reach-IsOwned (started s) = record {
  free_blocks = numbers 0 block_count;
  is_free = init-IsFree s;
  apart = unfold numbers in ground arith;
  complete = unfold numbers in refl;
  blocks = λ b.
      ap (mem b) (append-nil (numbers 0 block_count)) ∙ mem-numbers b 0 block_count ∙ ground arith;
}
Reach-IsOwned (next r st) = Step-IsOwned st (Reach-IsOwned r)
