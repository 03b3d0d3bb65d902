-- ===== src/LogFlash/Dump/Wait.antt =====
-- The wait of the dump ends, and sends what was pending.
use native.Mathlib.Nat.{mul-le-mul_right}
use anbo_mos.Common.{
  ℕ, zero, suc, ◌+◌, ◌-◌, ◌*◌, ◌^◌, ◌≤◌, ◌<◌, min, Bool, true, false, not, ◌||◌, some, List, ◌≡◌,
  refl, ap, ◌∙◌, sym, ◌⊎◌, inl, inr, Bool-cases, Nat-cases, arith, ◌==◌, ltb, length, length-take,
}
use anbo_mos.Ring.{Ring, count, peek, skip, clamp}
use anbo_mos.Ring.Valid.{IsValid}
use anbo_mos.Ring.Bytes.{count-advance, length-contents}
use anbo_mos.Ring.Window.{contents}
use anbo_mos.Ring.Bulk.{write-append, peek-take, clamp-min}
use anbo_mos.Dev.{Device, async_write}
use anbo_mos.Dev.Uart.{Usart, usart1_write}
use anbo_mos.Output.{pending, flush}
use anbo_mos.Output.Stream.{System, stream, IsReady, flush-stream}
use anbo_mos.LogFlash.Dump.{drain_uart}

-- The line is open, and the log ring has its size.
pub record IsOpen (s : System) : Type 0 where
  pub ready : IsReady s
  pub opened : s.0.priv ≡ true
  pub sized : s.1.log_rb.size ≡ 2 ^ 10

-- The transmit ring has room for a byte.
abbrev pub HasRoom : System → Type 0
HasRoom s = (tx : Ring) × (s.0.tx_rb ≡ some tx) × (count tx < tx.size)

module _ (dev : Device Usart) (tx : Ring) (bytes : List ℕ) where
  write-open :
      dev.priv ≡ true
      → dev.tx_rb ≡ some tx
      → IsValid tx
      → ((usart1_write dev bytes).0 ≡ min (length bytes) (tx.size - count tx))
        × ((usart1_write dev bytes).1.priv ≡ true)
  unfolding usart1_write
  write-open o e v = elim (Bool-cases (length bytes == 0)) [
    | inl nothing ↦
        let refused : (not dev.priv || length bytes == 0) ≡ true = ground arith in
        rw refused (ground arith, o)
    | inr some_bytes ↦
        let goes : (not dev.priv || length bytes == 0) ≡ false = ground arith in
        rw (goes, e) ((write-append v bytes).0, o)
  ]

skip-count :
    {rb : Ring} (v : IsValid rb) (n : ℕ) → count (skip rb n).1 ≡ count rb - min n (count rb)
unfolding skip
skip-count {rb} v n = rw (clamp-min n (count rb)) (count-advance v (min n (count rb)) (omega arith))

size-skip : (rb : Ring) (n : ℕ) → (skip rb n).1.size ≡ rb.size
unfolding skip
size-skip rb n = refl

-- What a call leaves of an open line, and of what is pending.
record IsFewer (s s' : System) : Type 0 where
  opened : s'.0.priv ≡ true
  sized : s'.1.log_rb.size ≡ 2 ^ 10
  fewer : pending s'.1 ≤ pending s.1
  moves : HasRoom s → 0 < pending s.1 → pending s'.1 < pending s.1

module _ (transmit_dma : List ℕ → Device Usart → Bool × Device Usart)
    (put_char : ℕ → Device Usart → Device Usart) where
  flush-IsFewer : (s : System) → IsOpen s → IsFewer s (flush transmit_dma put_char s)
  unfolding flush async_write pending
  flush-IsFewer s v =
      let rb = s.1.log_rb in
      let n = count rb in
      let avail = clamp n 64 in
      let chunk = peek rb avail in
      let seen : length chunk ≡ min 64 n =
        ap length (peek-take v.ready.log_valid avail)
        ∙ length-take (min avail n) (contents rb)
        ∙ (omega (arith, clamp-min n 64, length-contents v.ready.log_valid)) in
      let (k_eq, still) = write-open s.0 v.ready.tx chunk v.opened v.ready.tx_eq v.ready.tx_valid in
      let k = (usart1_write s.0 chunk).0 in
      let idle : n ≡ 0 → IsFewer s s = λ z. record {
        opened = v.opened;
        sized = v.sized;
        fewer = omega arith;
        moves = λ r h. absurd (omega arith);
      } in
      let room : HasRoom s → count v.ready.tx < v.ready.tx.size = λ r.
        let same : some v.ready.tx ≡ some r.0 = sym v.ready.tx_eq ∙ r.1 in
        let same' : v.ready.tx ≡ r.0 = cc in rw same' (r.2) in
      elim (Bool-cases (n == 0)) [
        | inl none_held ↦ rw none_held (idle (ground arith))
        | inr held ↦ elim (Bool-cases (length chunk == 0)) [
          | inl nothing ↦ rw (held, nothing) (idle (ground arith))
          | inr some_bytes ↦
              rw (held, some_bytes, v.ready.bound)
                (elim (Bool-cases (ltb 0 k)) [
                  | inl taken ↦ rw taken (record {
                    opened = still;
                    sized = size-skip s.1.log_rb k ∙ v.sized;
                    fewer = omega (arith, skip-count v.ready.log_valid k);
                    moves = λ r h. ground (arith, skip-count v.ready.log_valid k);
                  })
                  | inr refused ↦ rw refused (record {
                    opened = still;
                    sized = v.sized;
                    fewer = omega arith;
                    moves = λ r h. absurd (ground (arith, k_eq, room r));
                  })
                ])
        ]
      ]

-- What happens in the rounds of a wait: nothing is lost, the log is left alone, and within `k` more
-- rounds, counted down by `gap`, the line sends a byte of its ring.
pub record IsLine (spin : ℕ → System → System) (gap : ℕ → ℕ) (k : ℕ) : Type 0 where
  pub keeps : (t : ℕ) (s : System) → IsReady s → IsReady (spin t s) × (stream (spin t s) ≡ stream s)
  pub priv_kept : (t : ℕ) (s : System) → (spin t s).0.priv ≡ s.0.priv
  pub log_kept : (t : ℕ) (s : System) → (spin t s).1 ≡ s.1
  pub bounded : (t : ℕ) → gap t ≤ k
  pub counts : (t j : ℕ) → gap t ≡ suc j → gap (t + 1) ≡ j
  pub sends : (t : ℕ) (s : System) → IsReady s → gap t ≡ 0 → HasRoom (spin t s)

module _ (transmit_dma : List ℕ → Device Usart → Bool × Device Usart)
    (put_char : ℕ → Device Usart → Device Usart) (spin : ℕ → System → System) (gap : ℕ → ℕ) (k : ℕ)
    (line : IsLine spin gap k) where
  -- One round.
  abbrev round : ℕ → System → System
  round t s = spin t (flush transmit_dma put_char s)

  round-IsOpen :
      (t : ℕ) (s : System)
      → IsOpen s
      → IsOpen (round t s)
        × (stream (round t s) ≡ stream s)
        × (pending (round t s).1 ≤ pending s.1)
        × (HasRoom s → 0 < pending s.1 → pending (round t s).1 < pending s.1)
  round-IsOpen t s v =
      let (ready, same) = flush-stream transmit_dma put_char s v.ready in
      let f = flush-IsFewer transmit_dma put_char s v in
      let s1 = flush transmit_dma put_char s in
      let (ready', same') = line.keeps t s1 ready in
      let held : pending (round t s).1 ≡ pending s1.1 = ap pending (line.log_kept t s1) in
      (
        record {
          ready = ready';
          opened = line.priv_kept t s1 ∙ f.opened;
          sized = ap (λ o. o.log_rb.size) (line.log_kept t s1) ∙ f.sized;
        },
        same' ∙ same,
        rw held (f.fewer),
        λ r h. rw held (f.moves r h),
      )

  -- A byte can go to the line, or the line will send one before `r` more rounds are over.
  abbrev Soon : ℕ → ℕ → System → Type 0
  Soon r t s = HasRoom s ⊎ (gap t < r)

  -- The wait is over, with nothing pending.
  abbrev pub Drained : System → ℕ × System → Type 0
  Drained s (t', s') = IsOpen s' × (pending s'.1 ≡ 0) × (stream s' ≡ stream s)

  one_less : (p p' : ℕ) → p' < p → p' * (k + 2) + (k + 2) ≤ p * (k + 2)
  one_less p p' h = grind (arith, mul-le-mul_right (k + 2) h)

  no_more : (p p' : ℕ) → p' ≤ p → p' * (k + 2) ≤ p * (k + 2)
  no_more p p' h = mul-le-mul_right (k + 2) h

  -- Each round is one byte or one step towards it.
  round-Soon :
      (n r t : ℕ) (s : System)
      → IsOpen s
      → Soon r t s
      → 0 < pending s.1
      → pending s.1 * (k + 2) + r ≤ suc n
      → (r' : ℕ) × Soon r' (t + 1) (round t s) × (pending (round t s).1 * (k + 2) + r' ≤ n)
  round-Soon n r t s v (inl room) some_left h =
      let (_, _, _, moves) = round-IsOpen t s v in
      (
        k + 1,
        inr (omega (arith, line.bounded (t + 1))),
        omega (arith, one_less (pending s.1) (pending (round t s).1) (moves room some_left)),
      )
  round-Soon n r t s v (inr waits) some_left h =
      let (_, _, fewer, _) = round-IsOpen t s v in
      let s1 = flush transmit_dma put_char s in
      let ready : IsReady s1 = (flush-stream transmit_dma put_char s v.ready).0 in
      let less = no_more (pending s.1) (pending (round t s).1) fewer in
      elim (Nat-cases (gap t)) [
        | inl now ↦ (r - 1, inl (line.sends t s1 ready now), omega arith)
        | inr (j, later) ↦ (r - 1, inr (omega (arith, line.counts t j later)), omega arith)
      ]

  pub drain_uart-Drained :
      (n r t : ℕ) (s : System)
      → IsOpen s
      → Soon r t s
      → pending s.1 * (k + 2) + r ≤ n
      → (out : ℕ × System) × (drain_uart transmit_dma put_char spin n (t, s) ≡ some out)
        × Drained s out
  unfolding drain_uart
  drain_uart-Drained zero r t s v soon h =
      let over : pending s.1 ≡ 0 = grind (arith) in rw over ((t + 1, s), refl, (v, over, refl))
  drain_uart-Drained (suc n) r t s v soon h = elim (Bool-cases (ltb 0 (pending s.1))) [
    | inl more ↦
        let (r', soon', h') = round-Soon n r t s v soon (ground arith) h in
        let (v', same, _, _) = round-IsOpen t s v in
        let (out, e, (open_still, empty, same')) =
          drain_uart-Drained n r' (t + 1) (round t s) v' soon' h' in
        rw more (out, e, (open_still, empty, same' ∙ same))
    | inr over ↦ rw over ((t + 1, s), refl, (v, ground arith, refl))
  ]
