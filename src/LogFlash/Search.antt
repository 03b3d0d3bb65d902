-- ===== src/LogFlash/Search.antt =====
-- The binary search of `find_cursors`, and the backward scan behind it.
use anbo_mos.Common.{
  ℕ, zero, suc, ◌+◌, ◌-◌, ◌/◌, ◌≤◌, ◌<◌, true, false, some, ◌≡◌, refl, arith, ltb,
}
use native.Mathlib.Decide.{dec_lt}
use anbo_mos.LogFlash.{Area, Flash, slot_is_empty, slots_per_page}
use anbo_mos.LogFlash.Recover.{search_loop}

module _ {ℓ} {Mem : Type ℓ} (g : Area) (d : Flash Mem) where
  -- On a page that is written up to the slot `used` and empty behind it, the search ends within as
  -- many rounds as there are slots, and finds `used`.
  pub search_loop-first_empty :
      (n lo hi used pg : ℕ) (m : Mem)
      → ((i : ℕ) → i < used → slot_is_empty g d m pg i ≡ false)
      → ((i : ℕ) → used ≤ i → i < slots_per_page g d → slot_is_empty g d m pg i ≡ true)
      → lo ≤ used
      → used ≤ hi
      → hi ≤ slots_per_page g d
      → hi - lo ≤ n
      → search_loop g d n lo hi pg m ≡ some used
  unfolding search_loop
  search_loop-first_empty zero lo hi used pg m written free a b top h =
      let over : ltb lo hi ≡ false = ground arith in
      let here : lo ≡ used = omega arith in rw (over, here) refl
  search_loop-first_empty (suc n) lo hi used pg m written free a b top h =
      let mid = lo + (hi - lo) / 2 in
      elim (dec_lt lo hi) [
        | no over ↦
            let done : ltb lo hi ≡ false = ground arith in
            let here : lo ≡ used = omega arith in rw (done, here) refl
        | yes more ↦
            let goes : ltb lo hi ≡ true = ground arith in
            elim (dec_lt mid used) [
              | yes low ↦
                  rw (goes, written mid low)
                    (search_loop-first_empty n (mid + 1) hi used pg m written free (omega arith) b
                      top (omega arith))
              | no high ↦
                  rw (goes, free mid (omega arith) (omega arith))
                    (search_loop-first_empty n lo mid used pg m written free a (omega arith)
                      (omega arith) (omega arith))
            ]
      ]
