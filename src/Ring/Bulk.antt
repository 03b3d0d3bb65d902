-- ===== src/Ring/Bulk.antt =====
-- `Anbo_RB_Write`, `Anbo_RB_Read`, `Anbo_RB_Peek` and `Anbo_RB_Skip` on what a ring holds.
use mathlib.Core.Path.{ap₂}
use anbo_mos.Common.{
  ℕ, zero, suc, ◌+◌, ◌-◌, ◌^◌, ◌≤◌, ◌<◌, min, List, [], ◌∷◌, ◌++◌, append-nil, append_assoc, ◌≡◌,
  refl, ap, ◌∙◌, sym, arith, length, length-take, take, drop, take_all, get_or, add32,
}
use anbo_mos.Ring.{
  Ring, count, free, byte_at, store_byte, clamp, write_loop, write, read_loop, read, peek_loop,
  peek, skip,
}
use anbo_mos.Ring.Valid.{IsValid, index-mod, word-mod, free-count}
use anbo_mos.Ring.Window.{window, window-mod, length-window, take-window, contents}
use anbo_mos.Ring.Bytes.{
  advance, length-contents, contents-store, store-IsValid, count-store, contents-advance,
  advance-IsValid, count-advance, contents-empty,
}

pub clamp-min : (len limit : ℕ) → clamp len limit ≡ min len limit
unfolding clamp
clamp-min len limit = ground arith

-- What the write loop does when all its bytes fit.
pub write_loop-append :
    (bytes : List ℕ) {rb : Ring}
    → IsValid rb
    → count rb + length bytes ≤ rb.size
    → (contents (write_loop rb bytes) ≡ contents rb ++ bytes)
      × IsValid (write_loop rb bytes)
      × ((write_loop rb bytes).size ≡ rb.size)
unfolding write_loop
write_loop-append [] v h = (sym (append-nil _), v, refl)
write_loop-append (b ∷ bytes) {rb} v h =
    let room : count rb < rb.size = omega arith in
    let (e, v', same) =
      write_loop-append bytes {rb = store_byte rb b} (store-IsValid v b room)
        (omega (arith, count-store v b room)) in
    (
      e
          ∙ ap (λ c. c ++ bytes) (contents-store v b room)
          ∙ append_assoc (contents rb) (b ∷ []) bytes,
      v',
      same,
    )

module _ {rb : Ring} (v : IsValid rb) where
  -- `Anbo_RB_Write` takes as many bytes as there is room for, returns their number, appends
  -- exactly those to what the ring holds, and keeps the ring valid.
  pub write-append :
      (bytes : List ℕ)
      → let n = min (length bytes) (rb.size - count rb) in
        ((write rb bytes).0 ≡ n)
        × (contents (write rb bytes).1 ≡ contents rb ++ take n bytes)
        × IsValid (write rb bytes).1
        × ((write rb bytes).1.size ≡ rb.size)
  unfolding write
  write-append bytes =
      let n : clamp (length bytes) (free rb) ≡ min (length bytes) (rb.size - count rb) =
        clamp-min (length bytes) (free rb) ∙ ap (min (length bytes)) (free-count v) in
      let (e, v', same) =
        write_loop-append (take (min (length bytes) (rb.size - count rb)) bytes) v
          (omega (arith, length-take (min (length bytes) (rb.size - count rb)) bytes, v.within)) in
      rw n (refl, e, v', same)

  window-tail : (n : ℕ) → n ≤ count rb → window rb.buf rb.size rb.tail n ≡ take n (contents rb)
  unfolding contents
  window-tail n h = sym (take-window rb.buf rb.size rb.tail n (count rb) h)

  read_loop-window :
      (n t : ℕ)
      → t < 2 ^ 32
      → read_loop n (record rb { tail = t })
        ≡ (window rb.buf rb.size t n, record rb { tail = add32 t n })
  unfolding read_loop window byte_at
  read_loop-window zero t h = ap (λ u. ([], record rb { tail = u })) (omega arith)
  read_loop-window (suc n) t h =
      let start : suc t ≡ t + 1 = omega arith in
      let stop : add32 t (suc n) ≡ add32 (add32 t 1) n = omega arith in
      let next : window rb.buf rb.size (suc t) n ≡ window rb.buf rb.size (add32 t 1) n =
        ap (λ u. window rb.buf rb.size u n) start
        ∙ sym (window-mod rb.buf rb.size (add32 t 1) (t + 1) n (word-mod v (t + 1))) in
      rw (next, stop, index-mod v t, read_loop-window n (add32 t 1) (omega arith))

  peek_loop-window : (n t : ℕ) → peek_loop rb n t ≡ window rb.buf rb.size t n
  unfolding peek_loop window byte_at
  peek_loop-window zero t = refl
  peek_loop-window (suc n) t = ap₂ ◌∷◌ (ap (λ i. get_or rb.buf i 0) (index-mod v t)) (
      peek_loop-window n (add32 t 1)
      ∙ window-mod rb.buf rb.size (add32 t 1) (t + 1) n (word-mod v (t + 1))
      ∙ ap (λ u. window rb.buf rb.size u n) (omega arith))

  read-window :
      (len : ℕ)
      → read rb len
        ≡ (window rb.buf rb.size rb.tail (min len (count rb)), advance rb (min len (count rb)))
  unfolding read
  read-window len =
      ap (λ n. read_loop n rb) (clamp-min len (count rb))
      ∙ read_loop-window (min len (count rb)) rb.tail v.tail_word

  -- `Anbo_RB_Read` returns the oldest bytes, as many as asked for and held, and leaves the ring
  -- valid and holding the others.
  pub read-take-drop :
      (len : ℕ)
      → let n = min len (count rb) in
        ((read rb len).0 ≡ take n (contents rb))
        × (contents (read rb len).1 ≡ drop n (contents rb))
        × IsValid (read rb len).1
  read-take-drop len =
      let h : min len (count rb) ≤ count rb = omega arith in
      rw (read-window len) (window-tail _ h, contents-advance v _ h, advance-IsValid v _ h)

  peek-window : (len : ℕ) → peek rb len ≡ window rb.buf rb.size rb.tail (min len (count rb))
  unfolding peek
  peek-window len =
      ap (λ n. peek_loop rb n rb.tail) (clamp-min len (count rb))
      ∙ peek_loop-window (min len (count rb)) rb.tail

  -- `Anbo_RB_Peek` shows the oldest bytes, as many as asked for and held.
  pub peek-take : (len : ℕ) → peek rb len ≡ take (min len (count rb)) (contents rb)
  peek-take len = peek-window len ∙ window-tail _ (omega arith)

  -- `Anbo_RB_Peek`, then `Anbo_RB_Skip` of as many bytes as were seen, is `Anbo_RB_Read`.
  pub peek-skip : (len : ℕ) → (peek rb len, (skip rb (length (peek rb len))).1) ≡ read rb len
  unfolding skip
  peek-skip len =
      let n : clamp (min len (count rb)) (count rb) ≡ min len (count rb) =
        clamp-min (min len (count rb)) (count rb) ∙ (omega arith) in
      rw (
        read-window len,
        peek-window len,
        length-window rb.buf rb.size rb.tail (min len (count rb)),
        n,
      )

  -- `Anbo_RB_Skip` drops the oldest bytes, as many as asked for and held, returns their number,
  -- and keeps the ring valid.
  pub skip-drop :
      (len : ℕ)
      → let n = min len (count rb) in
        ((skip rb len).0 ≡ n)
        × (contents (skip rb len).1 ≡ drop n (contents rb))
        × IsValid (skip rb len).1
  unfolding skip
  skip-drop len =
      let h : min len (count rb) ≤ count rb = omega arith in
      rw (clamp-min len (count rb)) (refl, contents-advance v _ h, advance-IsValid v _ h)

-- Bytes that fit, written to a valid ring that is empty, are read back, and leave it empty again.
pub read-write :
    {rb : Ring} (bytes : List ℕ)
    → IsValid rb
    → count rb ≡ 0
    → length bytes ≤ rb.size
    → let rb' = (write rb bytes).1 in
      ((read rb' (length bytes)).0 ≡ bytes) × (count (read rb' (length bytes)).1 ≡ 0)
read-write {rb} bytes v none_held fits =
    let rb' = (write rb bytes).1 in
    let (_, e, v', _) = write-append v bytes in
    let held : contents rb' ≡ bytes =
      e ∙ ap₂ ◌++◌ (contents-empty v none_held) (take_all _ bytes (omega arith)) in
    let n : count rb' ≡ length bytes = sym (length-contents v') ∙ ap length held in
    let (r, _, _) = read-take-drop v' (length bytes) in
    (
      r ∙ ap (take (min (length bytes) (count rb'))) held ∙ take_all _ bytes (omega arith),
      ap (λ p. count p.1) (read-window v' (length bytes))
          ∙ count-advance v' (min (length bytes) (count rb')) (omega arith)
          ∙ (omega arith),
    )
