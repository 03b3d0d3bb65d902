-- ===== src/Ring/Valid.antt =====
-- The representation invariant of a ring, and the arithmetic that it gives.
use mathlib.Core.Logic.{◌↔◌}
use native.Mathlib.Decide.{dec_lt}
use native.Mathlib.Nat.{one-le-pow, pow-le-pow_right}
use anbo_mos.Common.{
  ℕ, ◌-◌, ◌%◌, ◌^◌, ◌≤◌, ◌<◌, bit_and, true, none, some, List, ◌≡◌, refl, ◌≢◌, ◌⊎◌, inl, inr,
  Bool-cases, ap, arith, ◌==◌, length, length-replicate, replicate, add32, sub32,
}
use anbo_mos.Common.Bits.{bit_and_mask, pow_of_and-pred, and-pred_pow, word-mod_pow}
use anbo_mos.Ring.{Ring, def_ring, is_power_of_two, init, reset, count, free, is_empty}

-- The size is a power of two below 2 ^ 32, and at most `size` bytes are held.
pub record IsValid (rb : Ring) : Type 0 where
  pub order : ℕ
  pub order_small : order < 32
  pub size_eq : rb.size ≡ 2 ^ order
  pub mask_eq : rb.mask ≡ 2 ^ order - 1
  pub storage : length rb.buf ≡ rb.size
  pub head_word : rb.head < 2 ^ 32
  pub tail_word : rb.tail < 2 ^ 32
  pub within : count rb ≤ rb.size

pow-lt-word : (k : ℕ) → k < 32 → 2 ^ k < 2 ^ 32
pow-lt-word k h =
    omega (arith, pow-le-pow_right {n = 2} (omega arith) {i = k} {j = 31} (omega arith))

order-lt : (k : ℕ) → 2 ^ k < 2 ^ 32 → k < 32
order-lt k h = elim (dec_lt k 32) [
  | yes p ↦ p
  | no p ↦
      absurd (omega (arith, pow-le-pow_right {n = 2} (omega arith) {i = 32} {j = k} (omega arith)))
]

module _ {rb : Ring} (v : IsValid rb) where
  pub size-pos : 0 < rb.size
  size-pos = rw v.size_eq (one-le-pow v.order 2 (omega arith))

  pub size-lt : rb.size < 2 ^ 32
  size-lt = rw v.size_eq (pow-lt-word v.order v.order_small)

  -- Masking an index is taking it modulo the size, wrapped or not.
  pub index-mod : (x : ℕ) → bit_and x rb.mask ≡ x % rb.size
  index-mod x = rw (v.mask_eq, v.size_eq) (bit_and_mask v.order x)

  pub word-mod : (x : ℕ) → x % 2 ^ 32 % rb.size ≡ x % rb.size
  word-mod x = rw v.size_eq (word-mod_pow v.order x (omega (arith, v.order_small)))

  pub free-count : free rb ≡ rb.size - count rb
  unfolding free
  free-count = omega (arith, size-lt, v.within)

  -- The head is the tail plus the count, on the 32-bit circle.
  pub head-eq : rb.head ≡ add32 rb.tail (count rb)
  unfolding count
  head-eq = omega (arith, v.head_word, v.tail_word)

  pub is_empty-count : is_empty rb ≡ (count rb == 0)
  unfolding is_empty count
  is_empty-count = ground (arith, v.head_word, v.tail_word)

pred-word : (v : ℕ) → v < 2 ^ 32 → v ≢ 0 → sub32 v 1 ≡ v - 1
pred-word v h ne = omega arith

power_of_accepted : (v : ℕ) → v < 2 ^ 32 → is_power_of_two v ≡ true → (k : ℕ) × (v ≡ 2 ^ k)
unfolding is_power_of_two
power_of_accepted v h e =
    let ne : v ≢ 0 = ground arith in
    let low : bit_and v (sub32 v 1) ≡ 0 = ground arith in
    pow_of_and-pred v ne (rw (pred-word v h ne) at low)

accepted_of_power : (k : ℕ) → 2 ^ k < 2 ^ 32 → is_power_of_two (2 ^ k) ≡ true
unfolding is_power_of_two
accepted_of_power k h =
    let ne : 2 ^ k ≢ 0 = omega (arith, one-le-pow k 2) in
    let low : bit_and (2 ^ k) (sub32 (2 ^ k) 1) ≡ 0 =
      rw (pred-word (2 ^ k) h ne) (and-pred_pow k) in
    ground arith

-- `is_power_of_two` accepts exactly the powers of two.
pub is_power_of_two_iff :
    (v : ℕ) → v < 2 ^ 32 → (is_power_of_two v ≡ true) ↔ ((k : ℕ) × (v ≡ 2 ^ k))
is_power_of_two_iff v h = (power_of_accepted v h, λ (k, e). rw e (accepted_of_power k (rw e at h)))

abbrev fresh : List ℕ → ℕ → Ring
fresh buf size = record { buf = buf; size = size; mask = sub32 size 1; head = 0; tail = 0 }

fresh-IsValid :
    (buf : List ℕ) (k : ℕ) (size : ℕ)
    → size ≡ 2 ^ k
    → size < 2 ^ 32
    → length buf ≡ size
    → IsValid (fresh buf size)
unfolding count
fresh-IsValid buf k size e h len = record {
  order = k;
  order_small = order-lt k (rw e at h);
  size_eq = e;
  mask_eq = omega (arith, one-le-pow k 2);
  storage = len;
  head_word = omega arith;
  tail_word = omega arith;
  within = omega arith;
}

-- `Anbo_RB_Init`, given a ring and a storage of `size` bytes, either finds the size to be a power
-- of two and sets up a valid ring of that size over that storage, which is empty, or finds it to
-- be none and refuses.
pub init_lem :
    (old : Ring) (buf : List ℕ) (size : ℕ)
    → size < 2 ^ 32
    → length buf ≡ size
    → ((rb : Ring) × (init (some old) (some buf) size ≡ some rb)
        × IsValid rb
        × (rb.size ≡ size)
        × (rb.buf ≡ buf)
        × (is_empty rb ≡ true))
      ⊎ (((k : ℕ) → size ≢ 2 ^ k) × (init (some old) (some buf) size ≡ none))
unfolding init is_empty
init_lem old buf size h len = elim (Bool-cases (is_power_of_two size)) [
  | inl accepted ↦
      let (k, e) = power_of_accepted size h accepted in
      inl (fresh buf size, rw accepted, fresh-IsValid buf k size e h len, refl, refl, refl)
  | inr refused ↦
      inr (λ k e. cc (accepted_of_power k (rw e at h), ap is_power_of_two e), rw refused)
]

-- The ring of `ANBO_RB_DEF` is valid and empty.
pub def_ring-IsValid :
    (order : ℕ) → order < 32 → IsValid (def_ring order) × (count (def_ring order) ≡ 0)
unfolding def_ring count
def_ring-IsValid order h = (
  fresh-IsValid (replicate (2 ^ order) 0) order (2 ^ order) refl (pow-lt-word order h)
      (length-replicate _ 0),
  omega arith,
)

-- `Anbo_RB_Reset` keeps a ring valid, and empties it.
pub reset-IsValid : {rb : Ring} → IsValid rb → IsValid (reset rb) × (count (reset rb) ≡ 0)
unfolding reset count
reset-IsValid v = (
  record {
    order = v.order;
    order_small = v.order_small;
    size_eq = v.size_eq;
    mask_eq = v.mask_eq;
    storage = v.storage;
    head_word = omega arith;
    tail_word = omega arith;
    within = omega arith;
  },
  refl,
)
