-- ===== src/LogFlash/Best.antt =====
-- A scan over numbered pages for the best of the valid ones.
use anbo_mos.Common.{
  ℕ, ◌+◌, ◌<◌, Bool, true, false, not, ◌&&◌, ◌||◌, ◌≡◌, ◌≢◌, refl, ap, ◌∙◌, ◌⊎◌, inl, inr,
  Bool-cases, arith, if◌then◌else◌,
}
use native.Mathlib.Decide.{dec_lt}

-- `target` is valid, and beats every other valid page.
pub record IsBest (ok : ℕ → Bool) (seq : ℕ → ℕ) (beats : ℕ → ℕ → Bool) (pages target : ℕ)
    : Type 0 where
  pub target_in : target < pages
  pub target_ok : ok target ≡ true
  pub wins : (pg : ℕ) → pg < pages → ok pg ≡ true → pg ≢ target → beats (seq target) (seq pg) ≡ true
  pub loses :
      (pg : ℕ) → pg < pages → ok pg ≡ true → pg ≢ target → beats (seq pg) (seq target) ≡ false

module _ (ok : ℕ → Bool) (seq : ℕ → ℕ) (beats : ℕ → ℕ → Bool) where
  -- What is known before the page `pg`: the best so far, `s` on the page `p`.
  pub record Tracks (target pg : ℕ) (found : Bool) (s p : ℕ) : Type 0 where
    pub held : found ≡ true → (p < pg) × (ok p ≡ true) × (s ≡ seq p)
    pub settled : target < pg → (found ≡ true) × (p ≡ target)

  abbrev pub takes : (pg : ℕ) → Bool → ℕ → Bool
  takes pg found s = ok pg && (not found || beats (seq pg) s)

  module _ {pages target : ℕ} (best : IsBest ok seq beats pages target) where
    Tracks-new :
        (pg : ℕ) (found : Bool) (s p : ℕ)
        → pg < pages
        → ok pg ≡ true
        → (found ≡ false) ⊎ (beats (seq pg) s ≡ true)
        → Tracks target pg found s p
        → Tracks target (pg + 1) true (seq pg) pg
    Tracks-new pg found s p h o new v = record {
      held = λ e. (omega arith, o, refl);
      settled = λ l. elim (dec_lt target pg) [
        | no here ↦ (refl, omega arith)
        | yes before ↦
            let (f, e) = v.settled before in
            let (_, _, same) = v.held f in
            let lost : beats (seq pg) s ≡ false =
              ap (beats (seq pg)) (same ∙ ap seq e) ∙ best.loses pg h o (omega arith) in
            elim new [ inl none_yet ↦ absurd (cc) | inr beaten ↦ absurd (cc) ]
      ];
    }

    Tracks-old :
        (pg : ℕ) (found : Bool) (s p : ℕ)
        → pg < pages
        → takes pg found s ≡ false
        → Tracks target pg found s p
        → Tracks target (pg + 1) (found || ok pg) s p
    Tracks-old pg found s p h kept v = record {
      held = λ e.
          let f : found ≡ true = ground arith in
          let (l, o, same) = v.held f in (omega arith, o, same);
      settled = λ l. elim (dec_lt target pg) [
        | yes before ↦ let (f, e) = v.settled before in (ground arith, e)
        | no here ↦
            let at_target : pg ≡ target = omega arith in
            let o : ok pg ≡ true = ap ok at_target ∙ best.target_ok in
            let f : found ≡ true = ground arith in
            let (q, op, same) = v.held f in
            let won : beats (seq pg) s ≡ true =
              ap (λ x. beats (seq x) s) at_target
              ∙ ap (beats (seq target)) same
              ∙ best.wins p (omega arith) op (omega arith) in
            absurd (ground arith)
      ];
    }

    pub Tracks-step :
        (pg : ℕ) (found : Bool) (s p : ℕ)
        → pg < pages
        → Tracks target pg found s p
        → Tracks target
            (pg + 1)
            (found || ok pg)
            (if takes pg found s then seq pg else s)
            (if takes pg found s then pg else p)
    Tracks-step pg found s p h v = elim (Bool-cases (takes pg found s)) [
      | inr kept ↦ rw kept (Tracks-old pg found s p h kept v)
      | inl new ↦
          let o : ok pg ≡ true = ground arith in
          let on : (found || ok pg) ≡ true = ground arith in
          rw (new, on)
            (Tracks-new pg found s p h o
              (elim (Bool-cases found) [
                | inr none_yet ↦ inl none_yet
                | inl some_found ↦ inr (ground arith)
              ])
              v)
    ]
