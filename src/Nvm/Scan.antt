-- ===== src/Nvm/Scan.antt =====
-- What the scans of the record store find.
use anbo_mos.Common.{
  ℕ, zero, suc, ◌+◌, ◌≤◌, ◌<◌, Bool, true, false, Option, none, some, ◌≡◌, refl, ap, ◌∙◌, sym, inl,
  inr, Bool-cases, arith,
}
use native.Mathlib.Decide.{dec_lt}
use anbo_mos.Nvm.{
  Geometry, Backend, page_addr, slot_addr, page_is_empty, find_active_loop, last_written,
  first_empty,
}

module _ {ℓ} {Mem : Type ℓ} {Rec : Type 0} (g : Geometry) (d : Backend Mem Rec) where
  -- The first slot of a page stands at the page's address.
  pub slot_addr-zero : (pg : ℕ) → slot_addr g d pg 0 ≡ page_addr g d pg
  unfolding page_addr
  slot_addr-zero pg = omega arith

  abbrev pub empty_at : Mem → (pg i : ℕ) → Bool
  empty_at m pg i = d.slot_is_empty m (slot_addr g d pg i)

  pub page_is_empty-at : (m : Mem) (pg : ℕ) → page_is_empty g d m pg ≡ empty_at m pg 0
  unfolding page_is_empty
  page_is_empty-at m pg = ap (d.slot_is_empty m) (sym (slot_addr-zero pg))

  -- Over empty pages it keeps what it has.
  pub find_active_loop-none :
      (n pg : ℕ) (active : Option ℕ) (m : Mem)
      → ((q : ℕ) → pg ≤ q → q < pg + n → empty_at m q 0 ≡ true)
      → find_active_loop g d n pg active m ≡ active
  unfolding find_active_loop
  find_active_loop-none zero pg active m all = refl
  find_active_loop-none (suc n) pg active m all =
      rw (page_is_empty-at m pg ∙ all pg (omega arith) (omega arith))
        (find_active_loop-none n (pg + 1) active m (λ q a b. all q (omega arith) (omega arith)))

  -- The scan over the pages finds the last that is not empty.
  pub find_active_loop-last :
      (n pg p : ℕ) (active : Option ℕ) (m : Mem)
      → pg ≤ p
      → p < pg + n
      → empty_at m p 0 ≡ false
      → ((q : ℕ) → p < q → q < pg + n → empty_at m q 0 ≡ true)
      → find_active_loop g d n pg active m ≡ some p
  unfolding find_active_loop
  find_active_loop-last zero pg p active m h k e later = absurd (omega arith)
  find_active_loop-last (suc n) pg p active m h k e later = elim (dec_lt pg p) [
    | yes before ↦
        find_active_loop-last n (pg + 1) p _ m (omega arith) (omega arith) e
          (λ q a b. later q a (omega arith))
    | no here ↦
        let same : pg ≡ p = omega arith in
        let used : page_is_empty g d m pg ≡ false =
          page_is_empty-at m pg ∙ ap (λ x. empty_at m x 0) same ∙ e in
        rw used (
          find_active_loop-none n (pg + 1) (some pg) m
            (λ q a b. later q (omega arith) (omega arith))
          ∙ ap some same)
  ]

  pub last_written-lem :
      (n pg k : ℕ) (m : Mem)
      → k < n
      → empty_at m pg k ≡ false
      → ((j : ℕ) → k < j → j < n → empty_at m pg j ≡ true)
      → last_written g d n pg m ≡ some k
  unfolding last_written
  last_written-lem zero pg k m h e later = absurd (omega arith)
  last_written-lem (suc n) pg k m h e later = elim (dec_lt k n) [
    | yes below ↦
        rw (later n below (omega arith))
          (last_written-lem n pg k m below e (λ j a b. later j a (omega arith)))
    | no here ↦
        let same : k ≡ n = omega arith in
        let used : empty_at m pg n ≡ false = ap (empty_at m pg) (sym same) ∙ e in
        rw used (ap some (sym same))
  ]

  pub first_empty-lem :
      (n i pg k : ℕ) (m : Mem)
      → i ≤ k
      → k < i + n
      → empty_at m pg k ≡ true
      → ((j : ℕ) → i ≤ j → j < k → empty_at m pg j ≡ false)
      → first_empty g d n i pg m ≡ some k
  unfolding first_empty
  first_empty-lem zero i pg k m h l e before = absurd (omega arith)
  first_empty-lem (suc n) i pg k m h l e before = elim (dec_lt i k) [
    | yes more ↦ rw (before i (omega arith) more) (
        first_empty-lem n (i + 1) pg k m (omega arith) (omega arith) e
          (λ j a b. before j (omega arith) b))
    | no here ↦
        let same : k ≡ i = omega arith in
        let free : empty_at m pg i ≡ true = ap (empty_at m pg) (sym same) ∙ e in
        rw free (ap some (sym same))
  ]

  pub first_empty-full :
      (n i pg : ℕ) (m : Mem)
      → ((j : ℕ) → i ≤ j → j < i + n → empty_at m pg j ≡ false)
      → first_empty g d n i pg m ≡ none
  unfolding first_empty
  first_empty-full zero i pg m used = refl
  first_empty-full (suc n) i pg m used =
      rw (used i (omega arith) (omega arith))
        (first_empty-full n (i + 1) pg m (λ j a b. used j (omega arith) (omega arith)))

  -- A page none of whose slots is empty, by the scan for an empty one.
  pub full-first_empty :
      (n i pg j : ℕ) (m : Mem)
      → first_empty g d n i pg m ≡ none
      → i ≤ j
      → j < i + n
      → empty_at m pg j ≡ false
  unfolding first_empty
  full-first_empty zero i pg j m e h l = absurd (omega arith)
  full-first_empty (suc n) i pg j m e h l = elim (Bool-cases (empty_at m pg i)) [
    | inl free ↦ absurd (ground (arith))
    | inr used ↦ elim (dec_lt i j) [
      | yes more ↦ full-first_empty n (i + 1) pg j m (rw used at e) (omega arith) (omega arith)
      | no here ↦ let same : j ≡ i = omega arith in ap (empty_at m pg) same ∙ used
    ]
  ]
