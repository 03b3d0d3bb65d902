-- ===== src/Nvm/Exhausted.antt =====
-- What becomes of the record store once the last page of the area is full.
use mathlib.Core.Path.{subst}
use anbo_mos.Common.{
  ℕ, suc, ◌+◌, ◌-◌, ◌%◌, ◌<◌, true, false, ◌≡◌, refl, ap, ◌∙◌, sym, inl, inr, Bool-cases, arith,
  if◌then◌else◌,
}
use native.Mathlib.Nat.{mod_self}
use anbo_mos.Nvm.{
  Geometry, Backend, slot_addr, max_slots, page_is_empty, read_latest, rotate, write_append,
}
use anbo_mos.Nvm.Scan.{first_empty-full}
use anbo_mos.Nvm.Interface.{Same, IsFlash, IsFilled}
use anbo_mos.Nvm.Store.{find_active_page-used, read_latest-used}

module _ {ℓ} {Mem : Type ℓ} {Rec : Type 0} (g : Geometry) (d : Backend Mem Rec)
    {blank : Mem → ℕ → Type 0} {usable : Rec → Type 0} (f : IsFlash g d blank usable) (last : ℕ)
    (last_page : last + 1 ≡ g.num_pages) (several : 0 < last) where
  rotate-Same :
      (m : Mem) (j : ℕ)
      → j < max_slots g d
      → (rotate g d m 0).0 ≡ true
      → Same g d blank m (rotate g d m 0).1 last j
  unfolding rotate
  rotate-Same m j h done = elim (Bool-cases (page_is_empty g d m 0)) [
    | inl clean ↦ rw clean (refl, λ b. b, refl)
    | inr used ↦
        let erase_done = rw used at done in
        rw used (
          f.erase_apart m (d.erase_page m 0).1 0 last j (omega arith) (omega arith, h) (omega arith)
            (ap (λ b. (b, (d.erase_page m 0).1)) erase_done))
  ]

  write_append-reuse :
      (m : Mem) (r : Rec)
      → IsFilled g d blank m last (max_slots g d)
      → write_append g d m r ≡ (
          if (rotate g d m 0).0
          then d.program (rotate g d m 0).1 (slot_addr g d 0 0) r
          else (false, (rotate g d m 0).1))
  unfolding write_append
  write_append-reuse m r v =
      let again : (last + 1) % g.num_pages ≡ 0 =
        ap (λ n. n % g.num_pages) last_page ∙ mod_self g.num_pages in
      rw (find_active_page-used g d blank f m last (max_slots g d) v f.holds_slots, write_append)
        (rw (first_empty-full g d (max_slots g d) 0 last m (λ j a b. v.written j (omega arith)))
          (rw again refl))

  read_latest-full :
      (m : Mem)
      → IsFilled g d blank m last (max_slots g d)
      → read_latest g d m ≡ d.read_slot m (slot_addr g d last (max_slots g d - 1))
  read_latest-full m v =
      let top : max_slots g d ≡ suc (max_slots g d - 1) = omega (arith, f.holds_slots) in
      read_latest-used g d blank f m last (max_slots g d - 1)
        (subst (IsFilled g d blank m last) top v)

  -- On an area of two pages or more whose last page is full, a `BSP_Flash_WriteAppend` that reports
  -- success goes to the first page and is lost to `BSP_Flash_ReadLatest`: that reads what it read
  -- before, since the last page still counts as the active one, and so it stays for every further
  -- record.
  pub write_append-stale :
      (m m' : Mem) (r : Rec)
      → IsFilled g d blank m last (max_slots g d)
      → write_append g d m r ≡ (true, m')
      → IsFilled g d blank m' last (max_slots g d) × (read_latest g d m' ≡ read_latest g d m)
  write_append-stale m m' r v e = elim (Bool-cases (rotate g d m 0).0) [
    | inr failed ↦ let no = sym (write_append-reuse m r v) ∙ e in absurd (cc)
    | inl done ↦
        let m1 = (rotate g d m 0).1 in
        let programmed : d.program m1 (slot_addr g d 0 0) r ≡ (true, m') =
          rw done at (sym (write_append-reuse m r v) ∙ e) in
        let same : (j : ℕ) → j < max_slots g d → Same g d blank m m' last j = λ j h.
          let (a, b, c) = rotate-Same m j h done in
          let (a', b', c') =
            f.program_apart m1 m' 0 0 last j r (omega arith, f.holds_slots) (omega arith, h)
              (ground arith) programmed in
          (a' ∙ a, λ x. b' (b x), c' ∙ c) in
        let v' : IsFilled g d blank m' last (max_slots g d) = record {
          active_in = v.active_in;
          used_in = v.used_in;
          written = λ i p. (same i p).0 ∙ v.written i p;
          free = λ i p q. absurd (omega arith);
          later = λ q i p a b. absurd (omega arith);
        } in
        (
          v',
          read_latest-full m' v'
              ∙ (same (max_slots g d - 1) (omega (arith, f.holds_slots))).2
              ∙ sym (read_latest-full m v),
        )
  ]
