-- ===== src/Ring/Session.antt =====
-- A client's calls of `Anbo_RB_PutByte` and `Anbo_RB_GetByte`, against a bounded queue.
use mathlib.Core.Path.{ap₂}
use anbo_mos.Common.{
  get_or, ◌%◌, ==_iff, ℕ, suc, ◌+◌, ◌-◌, ◌<◌, false, Option, none, some, List, [], ◌∷◌, ◌++◌, ◌≡◌,
  refl, ap, ◌∙◌, sym, inl, inr, Bool-cases, arith, Status, ok, failed, length, ◌==◌, if◌then◌else◌,
}
use anbo_mos.Ring.{Ring, count, byte_at, is_empty, put_byte, get_byte}
use anbo_mos.Ring.Valid.{IsValid, index-mod, word-mod, is_empty-count}
use anbo_mos.Ring.Window.{window, window-mod, contents}
use anbo_mos.Ring.Bytes.{
  advance, length-contents, contents-store, store-IsValid, count-advance, advance-IsValid,
  contents-empty,
}

-- A first-in first-out queue of at most `cap` bytes.
module _ (cap : ℕ) where
  unfoldable pub push : List ℕ → ℕ → Status × List ℕ
  push q x = if length q == cap then (failed, q) else (ok, q ++ (x ∷ []))

unfoldable pub pop : List ℕ → Option ℕ × List ℕ
pop [] = (none, [])
pop (x ∷ q) = (some x, q)

pub data Call : Type 0 where
  put : ℕ → Call
  get : Call

pub data Reply : Type 0 where
  stored : Status → Reply
  got : Option ℕ → Reply

unfoldable pub run : Ring → List Call → List Reply
run rb [] = []
run rb (put x ∷ calls) = let (s, rb') = put_byte rb x in stored s ∷ run rb' calls
run rb (get ∷ calls) = let (x, rb') = get_byte rb in got x ∷ run rb' calls

unfoldable pub run_queue : ℕ → List ℕ → List Call → List Reply
run_queue cap q [] = []
run_queue cap q (put x ∷ calls) = let (s, q') = push cap q x in stored s ∷ run_queue cap q' calls
run_queue cap q (get ∷ calls) = let (x, q') = pop q in got x ∷ run_queue cap q' calls

module _ {rb : Ring} (v : IsValid rb) where
  -- `Anbo_RB_PutByte` on a valid ring returns the status of the bounded queue, leaves the ring
  -- holding its bytes, and keeps the ring valid and of the same size.
  pub put_byte-push :
      (x : ℕ)
      → let (s, rb') = put_byte rb x in
        ((s, contents rb') ≡ push rb.size (contents rb) x) × IsValid rb' × (rb'.size ≡ rb.size)
  unfolding put_byte push
  put_byte-push x = rw (length-contents v) (elim (Bool-cases (count rb == rb.size)) [
    | inl full ↦ rw full (refl, v, refl)
    | inr room ↦
        let h : count rb < rb.size = ground (arith, v.within) in
        rw room (rw (contents-store v x h) (refl, store-IsValid v x h, refl))
  ])

  pub contents-head : 0 < count rb → contents rb ≡ byte_at rb rb.tail ∷ contents (advance rb 1)
  unfolding contents byte_at window
  contents-head h =
      let e : count rb ≡ suc (count rb - 1) = omega arith in
      let rest : contents (advance rb 1) ≡ window rb.buf rb.size (suc rb.tail) (count rb - 1) =
        rw (count-advance v 1 h) (
          window-mod rb.buf rb.size _ (suc rb.tail) (count rb - 1)
            (word-mod v (rb.tail + 1) ∙ ap (λ k. k % rb.size) (omega arith))) in
      ap (window rb.buf rb.size rb.tail) e
      ∙ ap₂ ◌∷◌ (ap (λ i. get_or rb.buf i 0) (sym (index-mod v rb.tail))) (sym rest)

  -- `Anbo_RB_GetByte` on a valid ring returns what the queue returns, leaves the ring holding the
  -- rest, and keeps the ring valid and of the same size.
  pub get_byte-pop :
      let (x, rb') = get_byte rb in
      ((x, contents rb') ≡ pop (contents rb)) × IsValid rb' × (rb'.size ≡ rb.size)
  unfolding get_byte pop
  get_byte-pop = elim (Bool-cases (is_empty rb)) [
    | inl empty ↦
        let h : count rb ≡ 0 = (==_iff (count rb) 0).0 (sym (is_empty-count v) ∙ empty) in
        rw empty (rw (contents-empty v h) (refl, v, refl))
    | inr some_left ↦
        let ne : (count rb == 0) ≡ false = sym (is_empty-count v) ∙ some_left in
        let h : 0 < count rb = ground arith in
        rw some_left (rw (contents-head h) (refl, advance-IsValid v 1 h, refl))
  ]

-- No sequence of calls tells a valid ring from the bounded queue of what it holds.
pub run_refines :
    (calls : List Call) {rb : Ring}
    → IsValid rb
    → run rb calls ≡ run_queue rb.size (contents rb) calls
unfolding run run_queue
run_refines [] v = refl
run_refines (put x ∷ calls) {rb} v =
    let (e, v', same) = put_byte-push v x in
    ap₂ (λ s r. stored s ∷ r) (ap (λ p. p.0) e)
      (run_refines calls v' ∙ ap₂ (λ n q. run_queue n q calls) same (ap (λ p. p.1) e))
run_refines (get ∷ calls) {rb} v =
    let (e, v', same) = get_byte-pop v in
    ap₂ (λ x r. got x ∷ r) (ap (λ p. p.0) e)
      (run_refines calls v' ∙ ap₂ (λ n q. run_queue n q calls) same (ap (λ p. p.1) e))
