-- ===== src/Pool.antt =====
-- kernel/src/anbo_pool.c: the block pool with its free list, the queue of event pointers, and the
-- reference counts of pooled events. A block is known by its number; a critical section runs alone.
pub mod FreeList
pub mod Owners
pub mod Queue
pub mod Counts
mod Examples
use anbo_mos.Common.{
  ℕ, zero, suc, ◌+◌, ◌-◌, ◌%◌, ◌^◌, bit_and, Bool, true, false, Option, none, some, List, [], ◌∷◌,
  Status, ok, failed, ltb, ◌==◌, if◌then◌else◌, get_or, set, add32, sub32,
}

-- `PoolBlock`, a union: the link of a free block, or the `Anbo_PoolEvent` that its user wrote.
pub data Block : Type 0 where
  link : Option ℕ → Block
  event : (sig ref_count : ℕ) → Block

-- The static variables of the file.
pub record Pool : Type 0 where
  pub blocks : ℕ → Block
  pub free_head : Option ℕ
  pub free_count : ℕ
  pub evtq : List ℕ
  pub evtq_head : ℕ
  pub evtq_tail : ℕ

abbrev pub block_count : ℕ
block_count = 20

abbrev pub evtq_depth : ℕ
evtq_depth = 32

abbrev pub evtq_mask : ℕ
evtq_mask = evtq_depth - 1

abbrev pub set_block : Pool → ℕ → Block → Pool
set_block s b c = record s { blocks = λ a. if a == b then c else s.blocks a }

-- The loop of `Anbo_Pool_Init` with `n` rounds left, at `i`.
unfoldable pub init_loop : ℕ → ℕ → Pool → Pool
init_loop zero i s = s
init_loop (suc n) i s = init_loop n (i + 1) (set_block s i (link (some (i + 1))))

unfoldable pub init : Pool → Pool
unfolding init_loop
init s = record (set_block (init_loop (block_count - 1) 0 s) (block_count - 1) (link none)) {
  free_head = some 0;
  free_count = block_count;
}

-- What `blk->next` reads. In a block that holds an event the union has no link: `none`.
abbrev pub next_of : Block → Option (Option ℕ)
next_of (link n) = some n
next_of (event sig ref_count) = none

-- The result `none` inside is `NULL`; the outer `none` is a read of a link that is not there.
unfoldable pub alloc : Pool → Option (Option ℕ × Pool)
alloc s = elim s.free_head [
  | none ↦ some (none, s)
  | some blk ↦ elim (next_of (s.blocks blk)) [
    | none ↦ none
    | some n ↦ some (some blk, record s { free_head = n; free_count = sub32 s.free_count 1 })
  ]
]

unfoldable pub free : Pool → Option ℕ → Pool
free s none = s
free s (some blk) = record (set_block s blk (link s.free_head)) {
  free_head = some blk;
  free_count = add32 s.free_count 1;
}

unfoldable pub evtq_init : Pool → Pool
evtq_init s = record s { evtq_head = 0; evtq_tail = 0 }

unfoldable pub post : Pool → Option ℕ → Status × Pool
post s none = (failed, s)
post s (some evt) =
    let next = bit_and (add32 s.evtq_head 1) evtq_mask in
    if next == s.evtq_tail
    then (failed, s)
    else (ok, record s { evtq = set s.evtq s.evtq_head evt; evtq_head = next })

-- `none` is the return of -1, for an empty queue; the pointer to the result is not null.
unfoldable pub get : Pool → Option ℕ × Pool
get s = if s.evtq_head == s.evtq_tail then (none, s) else (
  some (get_or s.evtq s.evtq_tail 0),
  record s { evtq_tail = bit_and (add32 s.evtq_tail 1) evtq_mask },
)

unfoldable pub evtq_is_empty : Pool → Bool
evtq_is_empty s = s.evtq_head == s.evtq_tail

-- `none` is an access to the count of a block that holds no event.
abbrev pub with_event : Pool → ℕ → ((sig ref_count : ℕ) → Option Pool) → Option Pool
with_event s evt f = elim (s.blocks evt) [ link n ↦ none | event sig rc ↦ f sig rc ]

unfoldable pub retain : Pool → Option ℕ → Option Pool
retain s none = some s
retain s (some evt) =
    with_event s evt λ sig rc. some (set_block s evt (event sig ((rc + 1) % 2 ^ 8)))

unfoldable pub release : Pool → Option ℕ → Option Pool
unfolding free
release s none = some s
release s (some evt) = with_event s evt λ sig rc.
    let rc' = if ltb 0 rc then rc - 1 else rc in
    let s' = set_block s evt (event sig rc') in some (if rc' == 0 then free s' (some evt) else s')

-- `publish` is what the subscribers of a signal do with the event and the pool.
unfoldable pub dispatch : ((sig evt : ℕ) → Pool → Option Pool) → Pool → Option ℕ → Option Pool
unfolding release
dispatch publish s none = some s
dispatch publish s (some evt) = with_event s evt λ sig rc.
    elim (publish sig evt (set_block s evt (event sig 1))) [
      | none ↦ none
      | some s' ↦ release s' (some evt)
    ]
