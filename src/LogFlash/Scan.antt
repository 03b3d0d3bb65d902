-- ===== src/LogFlash/Scan.antt =====
-- A round of the page scan of `find_cursors`, by the fields of its variables.
use anbo_mos.Common.{
  ℕ, ◌^◌, ◌<◌, Bool, true, false, not, ◌||◌, ◌≡◌, refl, inl, inr, Bool-cases, arith, if◌then◌else◌,
}
use anbo_mos.LogFlash.{Area, Flash, slot_at, slot_read_valid}
use anbo_mos.LogFlash.Format.{word_at, seq_after}
use anbo_mos.LogFlash.Recover.{PageScan, scan_page}
use anbo_mos.LogFlash.Best.{takes}

pub seq_after-asym :
    (a b : ℕ) → a < 2 ^ 32 → b < 2 ^ 32 → seq_after a b ≡ true → seq_after b a ≡ false
unfolding seq_after
seq_after-asym a b h k e = ground arith

or-false : (b : Bool) → b ≡ (b || false)
or-false true = refl
or-false false = refl

or-true : (b : Bool) → true ≡ (b || true)
or-true true = refl
or-true false = refl

module _ {ℓ} {Mem : Type ℓ} (g : Area) (d : Flash Mem) (m : Mem) where
  abbrev pub page_ok : ℕ → Bool
  page_ok pg = slot_read_valid g d m pg 0

  abbrev pub page_seq : ℕ → ℕ
  page_seq pg = word_at (slot_at g d m pg 0) 0

  abbrev pub earlier : (a b : ℕ) → Bool
  earlier a b = seq_after b a

  pub scan_page-fields :
      (pg : ℕ) (v : PageScan)
      → let v' = scan_page g d pg m v in
        (v'.found ≡ (v.found || page_ok pg))
        × (v'.max_seq ≡ (
            if takes page_ok page_seq seq_after pg v.found v.max_seq
            then page_seq pg
            else v.max_seq))
        × (v'.max_page
            ≡ (if takes page_ok page_seq seq_after pg v.found v.max_seq then pg else v.max_page))
        × (v'.min_seq ≡ (
            if takes page_ok page_seq earlier pg v.found v.min_seq then page_seq pg else v.min_seq))
        × (v'.min_page
            ≡ (if takes page_ok page_seq earlier pg v.found v.min_seq then pg else v.min_page))
  unfolding scan_page
  scan_page-fields pg v =
      let new_max = Bool-cases (not v.found || seq_after (page_seq pg) v.max_seq) in
      let new_min = Bool-cases (not v.found || seq_after v.min_seq (page_seq pg)) in
      elim (Bool-cases (page_ok pg)) [
        | inr spoilt ↦ rw spoilt (or-false v.found, refl, refl, refl, refl)
        | inl fine ↦ rw fine (elim new_max [
          | inl a ↦ elim new_min [
            | inl b ↦ rw (a, b) (or-true v.found, refl, refl, refl, refl)
            | inr b ↦ rw (a, b) (or-true v.found, refl, refl, refl, refl)
          ]
          | inr a ↦ elim new_min [
            | inl b ↦ rw (a, b) (or-true v.found, refl, refl, refl, refl)
            | inr b ↦ rw (a, b) (or-true v.found, refl, refl, refl, refl)
          ]
        ])
      ]
