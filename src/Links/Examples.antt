-- ===== src/Links/Examples.antt =====
-- The list at concrete inputs: tests, and the theorems applied.
use anbo_mos.Common.{some, [], ◌∷◌, ◌≡◌, refl}
use anbo_mos.Links.{Links, init, insert_tail, remove, for_each}
use anbo_mos.Links.Chain.{IsRing}

-- A ring with the head 0 that holds 5, 6 and 7, by the code's own operations.
abbrev self_linked : Links
self_linked = record { next = λ n. n; prev = λ n. n }

three : Links
unfolding init insert_tail
three = insert_tail (insert_tail (insert_tail (init self_linked 0) 0 5) 0 6) 0 7

three-IsRing : IsRing three 0 (5 ∷ 6 ∷ 7 ∷ [])
unfolding three
three-IsRing = record {
  chain = (refl, refl, (refl, refl, (refl, refl, (refl, refl))));
  apart = refl;
  distinct = (refl, (refl, (refl, tt)));
}

other-IsRing : IsRing three 9 []
unfolding three
other-IsRing = record { chain = (refl, refl); apart = refl; distinct = tt }

removed_from_middle : for_each 3 (remove three 6) 0 5 ≡ some (5 ∷ 7 ∷ [])
unfolding three remove for_each
removed_from_middle = refl
