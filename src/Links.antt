-- ===== src/Links.antt =====
-- kernel/include/anbo_list.h: the intrusive circular doubly-linked list. A node is known by its
-- address; the memory gives the two pointers of every node.
pub mod Chain
pub mod Insert
pub mod Remove
pub mod Pair
pub mod Traverse
mod Examples
use anbo_mos.Common.{ℕ, zero, suc, Bool, Option, none, some, List, [], ◌∷◌, ◌==◌, if◌then◌else◌}

abbrev pub Node : Type 0
Node = ℕ

-- `Anbo_ListNode`, over all nodes.
pub record Links : Type 0 where
  pub next : Node → Node
  pub prev : Node → Node

abbrev pub update : (Node → Node) → Node → Node → Node → Node
update f a x b = if b == a then x else f b

-- `a->next = x` and `a->prev = x`
abbrev pub set_next : Links → Node → Node → Links
set_next l a x = record l { next = update l.next a x }

abbrev pub set_prev : Links → Node → Node → Links
set_prev l a x = record l { prev = update l.prev a x }

unfoldable pub init : Links → Node → Links
init l head = set_prev (set_next l head head) head head

unfoldable pub insert_between : Links → (node prev next : Node) → Links
insert_between l node prev next =
    let l = set_prev l next node in
    let l = set_next l node next in let l = set_prev l node prev in set_next l prev node

unfoldable pub insert_head : Links → (head node : Node) → Links
unfolding insert_between
insert_head l head node = insert_between l node head (l.next head)

unfoldable pub insert_tail : Links → (head node : Node) → Links
unfolding insert_between
insert_tail l head node = insert_between l node (l.prev head) head

unfoldable pub remove : Links → Node → Links
remove l node =
    let l = set_next l (l.prev node) (l.next node) in
    let l = set_prev l (l.next node) (l.prev node) in
    let l = set_next l node node in set_prev l node node

unfoldable pub is_empty : Links → Node → Bool
is_empty l head = l.next head == head

-- `ANBO_LIST_FOR_EACH` from `pos` on: the nodes that it visits. `none` means that the fuel, a bound
-- on the rounds, ran out.
unfoldable pub for_each : ℕ → Links → (head pos : Node) → Option (List Node)
for_each zero l head pos = none
for_each (suc fuel) l head pos =
    let rest = for_each fuel l head (l.next pos) in
    if pos == head then some [] else elim rest [ none ↦ none | some nodes ↦ some (pos ∷ nodes) ]
