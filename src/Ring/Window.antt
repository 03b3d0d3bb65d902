-- ===== src/Ring/Window.antt =====
-- What a ring holds, as a list of bytes, oldest first.
use mathlib.Core.Path.{ap₂}
use native.Mathlib.Nat.{suc-mod, mod-add-mod, mod-lt, mod-eq_of_lt, mod-eq-sub-mod}
use native.Mathlib.Decide.{dec_lt}
use anbo_mos.Common.{
  ℕ, zero, suc, ◌+◌, ◌-◌, ◌%◌, ◌≤◌, ◌<◌, List, [], ◌∷◌, ◌++◌, ◌≡◌, refl, sym, ◌≢◌, ap, ◌∙◌, arith,
  length, get_or, set, take, drop, get_or-set_self, get_or-set_ne,
}
use anbo_mos.Ring.{Ring, count}

-- the `n` bytes from index `t` on, going round at `size`
module _ (buf : List ℕ) (size : ℕ) where
  unfoldable pub window : ℕ → ℕ → List ℕ
  window t zero = []
  window t (suc n) = get_or buf (t % size) 0 ∷ window (suc t) n

  pub length-window : (t n : ℕ) → length (window t n) ≡ n
  unfolding window
  length-window t zero = refl
  length-window t (suc n) = ap suc (length-window (suc t) n)

  suc-mod_congr : (t u : ℕ) → t % size ≡ u % size → suc t % size ≡ suc u % size
  suc-mod_congr t u e = suc-mod t size ∙ ap (λ x. suc x % size) e ∙ sym (suc-mod u size)

  pub window-mod : (t u n : ℕ) → t % size ≡ u % size → window t n ≡ window u n
  unfolding window
  window-mod t u zero e = refl
  window-mod t u (suc n) e = rw (e, window-mod (suc t) (suc u) n (suc-mod_congr t u e))

  pub window-add : (t n m : ℕ) → window t (n + m) ≡ window t n ++ window (t + n) m
  unfolding window
  window-add t zero m = ap₂ window (omega arith) (omega arith)
  window-add t (suc n) m =
      let rounds : suc n + m ≡ suc (n + m) = omega arith in
      let start : t + suc n ≡ suc t + n = omega arith in
      rw (rounds, start) (ap (λ r. get_or buf (t % size) 0 ∷ r) (window-add (suc t) n m))

  pub take-window : (t n m : ℕ) → n ≤ m → take n (window t m) ≡ window t n
  unfolding window
  take-window t zero m h = refl
  take-window t (suc n) zero h = absurd (omega arith)
  take-window t (suc n) (suc m) h =
      ap (λ r. get_or buf (t % size) 0 ∷ r) (take-window (suc t) n m (omega arith))

  pub drop-window : (t n m : ℕ) → n ≤ m → drop n (window t m) ≡ window (t + n) (m - n)
  unfolding window
  drop-window t zero m h = ap₂ window (omega arith) (omega arith)
  drop-window t (suc n) zero h = absurd (omega arith)
  drop-window t (suc n) (suc m) h =
      drop-window (suc t) n m (omega arith) ∙ ap₂ window (omega arith) (omega arith)

-- Fewer than `m` steps round a circle of `m` do not come back.
add-mod-ne : (m x d : ℕ) → 0 < d → d < m → (x + d) % m ≢ x % m
add-mod-ne m x d p q e = elim (dec_lt (x % m + d) m) [
  | yes low ↦ omega (arith, mod-add-mod x m d, mod-eq_of_lt low)
  | no high ↦ omega (
    arith,
    mod-add-mod x m d,
    mod-eq-sub-mod {n = x % m + d} {m = m} (omega arith),
    mod-eq_of_lt {n = x % m + d - m} {m = m} (omega (arith, mod-lt x {m = m} (omega arith))),
    mod-lt x {m = m} (omega arith),
  )
]

-- A write just past a window extends it by the byte written.
pub window-set :
    (buf : List ℕ) (size byte n t i : ℕ)
    → length buf ≡ size
    → n < size
    → i ≡ (t + n) % size
    → window (set buf i byte) size t (suc n) ≡ window buf size t n ++ (byte ∷ [])
unfolding window
window-set buf size byte zero t i len h e =
    let here : i ≡ t % size = e ∙ ap (λ k. k % size) (omega arith) in
    rw here (
      ap (λ b. b ∷ [])
        (get_or-set_self buf (t % size) byte 0 (rw len (mod-lt t {m = size} (omega arith)))))
window-set buf size byte (suc n) t i len h e =
    ap₂ ◌∷◌
      (get_or-set_ne buf i (t % size) byte 0
        (rw e (add-mod-ne size t (suc n) (omega arith) (omega arith))))
      (window-set buf size byte n (suc t) i len (omega arith)
        (e ∙ ap (λ k. k % size) (omega arith)))

-- The bytes that a ring holds.
unfoldable pub contents : Ring → List ℕ
contents rb = window rb.buf rb.size rb.tail (count rb)
