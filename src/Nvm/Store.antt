-- ===== src/Nvm/Store.antt =====
-- Appending a record, and reading the latest one back.
use mathlib.Core.Path.{subst, ap₂}
use anbo_mos.Common.{
  ℕ, suc, ◌+◌, ◌<◌, true, none, some, ◌≡◌, ap, ◌∙◌, sym, inl, inr, ◌⊎◌, Bool-cases, arith,
  if◌then◌else◌, ltb,
}
use native.Mathlib.Decide.{dec_lt}
use native.Mathlib.Nat.{mod-eq_of_lt}
use anbo_mos.Nvm.{
  Geometry, Backend, slot_addr, max_slots, find_active_page, read_latest, rotate, write_append,
}
use anbo_mos.Nvm.Scan.{
  empty_at, page_is_empty-at, find_active_loop-none, find_active_loop-last, last_written-lem,
  first_empty-lem, first_empty-full,
}
use anbo_mos.Nvm.Interface.{In, IsFlash, IsFilled, free_empty, later_empty}

-- `blank m a` tells that the slot at the address `a` is erased as a whole.
module _ {ℓ} {Mem : Type ℓ} {Rec : Type 0} (g : Geometry) (d : Backend Mem Rec)
    (blank : Mem → ℕ → Type 0) {usable : Rec → Type 0} (f : IsFlash g d blank usable) where
  pub find_active_page-used :
      (m : Mem) (active used : ℕ)
      → IsFilled g d blank m active used
      → 0 < used
      → find_active_page g d m ≡ some active
  unfolding find_active_page
  find_active_page-used m active used v h =
      find_active_loop-last g d g.num_pages 0 active none m (omega arith)
        (omega (arith, v.active_in)) (v.written 0 h)
        (λ q a b. later_empty g d blank f v q a (omega arith))

  find_active_page-blank : (m : Mem) → IsFilled g d blank m 0 0 → find_active_page g d m ≡ none
  unfolding find_active_page
  find_active_page-blank m v = find_active_loop-none g d g.num_pages 0 none m λ q a b.
      elim (dec_lt 0 q) [
        | yes p ↦ later_empty g d blank f v q p (omega arith)
        | no p ↦
            let here : q ≡ 0 = omega arith in
            ap (λ x. empty_at g d m x 0) here
            ∙ free_empty g d blank f v 0 (omega arith) f.holds_slots
      ]

  pub read_latest-used :
      (m : Mem) (active used : ℕ)
      → IsFilled g d blank m active (suc used)
      → read_latest g d m ≡ d.read_slot m (slot_addr g d active used)
  unfolding read_latest
  read_latest-used m active used v =
      rw (find_active_page-used m active (suc used) v (omega arith), read_latest)
        (rw (
          last_written-lem g d (max_slots g d) active used m (omega (arith, v.used_in))
            (v.written used (omega arith)) (λ j a b. free_empty g d blank f v j (omega arith) b)))

  -- A record programmed into the first free slot of the log is the latest.
  program-IsFilled :
      (m m' : Mem) (active used : ℕ) (r : Rec)
      → IsFilled g d blank m active used
      → used < max_slots g d
      → usable r
      → d.program m (slot_addr g d active used) r ≡ (true, m')
      → IsFilled g d blank m' active (suc used) × (read_latest g d m' ≡ some r)
  program-IsFilled m m' active used r v h fresh e =
      let inside : In g d blank active used = (v.active_in, h) in
      let (now, stored) =
        f.programmed m m' active used r inside (v.free used (omega arith) h) fresh e in
      let v' : IsFilled g d blank m' active (suc used) = record {
        active_in = v.active_in;
        used_in = omega arith;
        written = λ i p. elim (dec_lt i used) [
          | yes before ↦
              (f.program_apart m m' active used active i r inside (v.active_in, omega arith)
                (ground arith) e).0
              ∙ v.written i before
          | no last ↦ let here : i ≡ used = omega arith in ap (empty_at g d m' active) here ∙ now
        ];
        free = λ i p q.
            (f.program_apart m m' active used active i r inside (v.active_in, q) (ground arith) e).1
              (v.free i (omega arith) q);
        later = λ q i p a b.
            (f.program_apart m m' active used q i r inside (a, b) (ground arith) e).1
              (v.later q i p a b);
      } in
      (v', read_latest-used m' active used v' ∙ stored)

  -- Where the next record goes, if the area does not have to be reused: to the next slot, or to the
  -- next page.
  abbrev pub next_place : (active used : ℕ) → ℕ × ℕ
  next_place active used = if ltb used (max_slots g d) then (active, used) else (active + 1, 0)

  write_append-blank :
      (m : Mem) (r : Rec)
      → IsFilled g d blank m 0 0
      → write_append g d m r ≡ d.program m (slot_addr g d 0 0) r
  unfolding write_append
  write_append-blank m r v = rw (find_active_page-blank m v, write_append)

  write_append-room :
      (m : Mem) (active used : ℕ) (r : Rec)
      → IsFilled g d blank m active used
      → 0 < used
      → used < max_slots g d
      → write_append g d m r ≡ d.program m (slot_addr g d active used) r
  unfolding write_append
  write_append-room m active used r v p h =
      rw (find_active_page-used m active used v p, write_append)
        (rw (
          first_empty-lem g d (max_slots g d) 0 active used m (omega arith) (omega arith)
            (free_empty g d blank f v used (omega arith) h) (λ j a b. v.written j b)))

  write_append-place :
      (m : Mem) (active used : ℕ) (r : Rec)
      → IsFilled g d blank m active used
      → (used ≡ 0 → active ≡ 0)
      → used < max_slots g d
      → write_append g d m r ≡ d.program m (slot_addr g d active used) r
  write_append-place m active used r v start h = elim (dec_lt 0 used) [
    | yes p ↦ write_append-room m active used r v p h
    | no p ↦
        let u : used ≡ 0 = omega arith in
        let a : active ≡ 0 = start u in
        let v' : IsFilled g d blank m 0 0 =
          subst (λ n. IsFilled g d blank m n 0) a (subst (IsFilled g d blank m active) u v) in
        write_append-blank m r v' ∙ ap₂ (λ n k. d.program m (slot_addr g d n k) r) (sym a) (sym u)
  ]

  write_append-turn :
      (m : Mem) (active : ℕ) (r : Rec)
      → IsFilled g d blank m active (max_slots g d)
      → active + 1 < g.num_pages
      → write_append g d m r ≡ d.program m (slot_addr g d (active + 1) 0) r
  unfolding write_append rotate
  write_append-turn m active r v h =
      rw (find_active_page-used m active (max_slots g d) v f.holds_slots, write_append)
        (rw (first_empty-full g d (max_slots g d) 0 active m (λ j a b. v.written j (omega arith))) (
          rw (mod-eq_of_lt h) (
            rw (
              page_is_empty-at g d m (active + 1)
              ∙ later_empty g d blank f v (active + 1) (omega arith) h))))

  turned :
      (m : Mem) (active : ℕ)
      → IsFilled g d blank m active (max_slots g d)
      → active + 1 < g.num_pages
      → IsFilled g d blank m (active + 1) 0
  turned m active v h = record {
    active_in = h;
    used_in = omega arith;
    written = λ i p. absurd (omega arith);
    free = λ i p q. v.later (active + 1) i (omega arith) h q;
    later = λ q i p a b. v.later q i (omega arith) a b;
  }

  -- `BSP_Flash_WriteAppend` of a usable record onto a log whose
  -- last page is not full: if it reports success, `BSP_Flash_ReadLatest` then reads that record,
  -- and the log has grown by its slot, on a new page if the active one was full.
  pub write_append-read_latest :
      (m m' : Mem) (active used : ℕ) (r : Rec)
      → IsFilled g d blank m active used
      → (used ≡ 0 → active ≡ 0)
      → (used < max_slots g d) ⊎ (active + 1 < g.num_pages)
      → usable r
      → write_append g d m r ≡ (true, m')
      → let (pg, i) = next_place active used in
        IsFilled g d blank m' pg (suc i) × (read_latest g d m' ≡ some r)
  write_append-read_latest m m' active used r v start room fresh e =
      elim (Bool-cases (ltb used (max_slots g d))) [
        | inl more ↦
            let h : used < max_slots g d = ground arith in
            rw more (
              program-IsFilled m m' active used r v h fresh
                (sym (write_append-place m active used r v start h) ∙ e))
        | inr full ↦
            let all_used : used ≡ max_slots g d = ground (arith, v.used_in) in
            let next_in : active + 1 < g.num_pages = ground (arith) in
            let v' : IsFilled g d blank m active (max_slots g d) =
              subst (IsFilled g d blank m active) all_used v in
            rw full (
              program-IsFilled m m' (active + 1) 0 r (turned m active v' next_in) f.holds_slots
                fresh (sym (write_append-turn m active r v' next_in) ∙ e))
      ]
