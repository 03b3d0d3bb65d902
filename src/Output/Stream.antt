-- ===== src/Output/Stream.antt =====
-- The log on the serial line: what becomes of the bytes it takes, under any order of calls and
-- interrupts.
use mathlib.Core.Path.{ap₂}
use anbo_mos.Common.{
  ℕ, ◌-◌, ◌≤◌, Bool, not, ◌||◌, none, some, List, [], ◌++◌, append-nil, append_assoc, ◌≡◌, refl, ap,
  ◌∙◌, sym, inl, inr, Bool-cases, arith, ◌==◌, ltb, length, min, take, drop, length-take,
  take-append-drop, take-take,
}
use anbo_mos.Ring.{Ring, def_ring, count, write, peek, skip, clamp}
use anbo_mos.Ring.Valid.{IsValid, def_ring-IsValid, reset-IsValid}
use anbo_mos.Ring.Bytes.{contents-empty}
use anbo_mos.Ring.Window.{contents}
use anbo_mos.Ring.Bulk.{write-append, skip-drop, peek-take}
use anbo_mos.Dev.{Device, async_write, open_device, opened}
use anbo_mos.Dev.Uart.{Usart, usart1_ops, usart1_dev, usart1_open, usart1_write}
use anbo_mos.Output.{Output, LogDevice, static_output, init, flush}

abbrev pub System : Type 0
System = Device Usart × Output (Device Usart)

abbrev pub tx_contents : Device Usart → List ℕ
tx_contents dev = elim dev.tx_rb [ none ↦ [] | some rb ↦ contents rb ]

-- The serial line as the log's device.
abbrev pub uart_log : LogDevice (Device Usart)
uart_log = record {
  write_to = λ chunk dev. async_write (some usart1_ops) dev chunk;
  tx_held = λ dev. not (length (tx_contents dev) == 0);
}

-- What was sent, what waits in the transmit ring, and what waits in the log ring.
abbrev pub stream : System → List ℕ
stream (dev, o) = dev.hw.sent ++ (tx_contents dev ++ contents o.log_rb)

-- Both rings are valid, the log is bound to the line, and the flash writer does not touch it.
pub record IsReady (s : System) : Type 0 where
  pub tx : Ring
  pub tx_eq : s.0.tx_rb ≡ some tx
  pub tx_valid : IsValid tx
  pub log_valid : IsValid s.1.log_rb
  pub bound : s.1.log_dev ≡ some uart_log
  pub aside :
      (fn : List ℕ → Device Usart → Device Usart)
      → s.1.flash_writer ≡ some fn
      → (line : List ℕ) (dev : Device Usart) → fn line dev ≡ dev

-- The driver appends to its ring what it reports as accepted, and sends nothing at once.
pub usart1_write-append :
    (dev : Device Usart) (tx : Ring) (bytes : List ℕ)
    → dev.tx_rb ≡ some tx
    → IsValid tx
    → let (n, dev') = usart1_write dev bytes in
      (tx' : Ring) × (dev'.tx_rb ≡ some tx')
      × IsValid tx'
      × (contents tx' ≡ contents tx ++ take n bytes)
      × (n ≤ length bytes)
      × (dev'.hw.sent ≡ dev.hw.sent)
unfolding usart1_write
usart1_write-append dev tx bytes e v = elim (Bool-cases (not dev.priv || length bytes == 0)) [
  | inl refused ↦ rw refused (tx, e, v, sym (append-nil (contents tx)), omega arith, refl)
  | inr goes ↦
      let n = min (length bytes) (tx.size - count tx) in
      let (r, grown, v', _) = write-append v bytes in
      rw (goes, e)
        (
          (write tx bytes).1,
          refl,
          v',
          grown ∙ ap (λ k. contents tx ++ take k bytes) (sym r),
          omega arith,
          elim (Bool-cases (ltb 0 (write tx bytes).0)) [
            | inl some_in ↦ rw some_in
            | inr none_in ↦ rw none_in
          ],
        )
]

pub stream-eq :
    (s : System) (tx : Ring)
    → s.0.tx_rb ≡ some tx
    → stream s ≡ s.0.hw.sent ++ (contents tx ++ contents s.1.log_rb)
stream-eq s tx e = rw e refl

-- Bytes that go from the log ring to the transmit ring keep their place.
moved :
    (sent tx q : List ℕ) (k m : ℕ)
    → k ≤ m
    → sent ++ ((tx ++ take k (take m q)) ++ drop k q) ≡ sent ++ (tx ++ q)
moved sent tx q k m h =
    ap (λ r. sent ++ r)
      (append_assoc tx _ _
        ∙ ap (λ r. tx ++ (r ++ drop k q)) (take-take k m q h)
        ∙ ap (λ r. tx ++ r) (take-append-drop k q))

-- The driver took `k` bytes of a chunk of the `m` oldest, and the log ring dropped as many.
module _ (s s' : System) (v : IsReady s) (k m : ℕ) (tx' : Ring) where
  handed_over :
      s'.0.tx_rb ≡ some tx'
      → s'.0.hw.sent ≡ s.0.hw.sent
      → contents tx' ≡ contents v.tx ++ take k (take m (contents s.1.log_rb))
      → contents s'.1.log_rb ≡ drop k (contents s.1.log_rb)
      → k ≤ m
      → stream s' ≡ stream s
  handed_over e same grown rest h =
      stream-eq s' tx' e
      ∙ ap₂ ◌++◌ same (ap₂ ◌++◌ grown rest)
      ∙ moved s.0.hw.sent (contents v.tx) (contents s.1.log_rb) k m h
      ∙ sym (stream-eq s v.tx v.tx_eq)

-- `Anbo_Log_Flush` moves bytes from the log to the driver, and loses none, however few of them the
-- driver takes.
pub flush-stream :
    (transmit_dma : List ℕ → Device Usart → Bool × Device Usart)
    (put_char : ℕ → Device Usart → Device Usart) (s : System)
    → IsReady s
    → IsReady (flush transmit_dma put_char s) × (stream (flush transmit_dma put_char s) ≡ stream s)
unfolding flush async_write
flush-stream transmit_dma put_char s v =
    let n = count s.1.log_rb in
    let avail = clamp n 64 in
    let chunk = peek s.1.log_rb avail in
    let seen : chunk ≡ take (min avail n) (contents s.1.log_rb) = peek-take v.log_valid avail in
    let short : length chunk ≤ min avail n =
      omega (arith, ap length seen, length-take (min avail n) (contents s.1.log_rb)) in
    let (tx', e', v', grown, le, same) = usart1_write-append s.0 v.tx chunk v.tx_eq v.tx_valid in
    let k = (usart1_write s.0 chunk).0 in
    let (_, rest, log') = skip-drop v.log_valid k in
    let grown' = grown ∙ ap (λ r. contents v.tx ++ take k r) seen in
    elim (Bool-cases (n == 0)) [
      | inl idle ↦ rw idle (v, refl)
      | inr held ↦ elim (Bool-cases (length chunk == 0)) [
        | inl nothing ↦ rw (held, nothing) (v, refl)
        | inr some_bytes ↦
            rw (held, some_bytes, v.bound)
              (elim (Bool-cases (ltb 0 k)) [
                | inl taken ↦
                    let s' : System = (
                      (usart1_write s.0 chunk).1,
                      record (s.1) { log_rb = (skip s.1.log_rb k).1 },
                    ) in
                    rw taken (
                      record {
                        tx = tx';
                        tx_eq = e';
                        tx_valid = v';
                        log_valid = log';
                        bound = refl;
                        aside = v.aside;
                      },
                      handed_over s s' v k (min avail n) tx' e' same grown'
                          (rest ∙ ap (λ j. drop j (contents s.1.log_rb)) (omega arith))
                          (omega arith),
                    )
                | inr refused ↦
                    let none_taken : k ≡ 0 = ground arith in
                    let s' : System = ((usart1_write s.0 chunk).1, s.1) in
                    rw refused (
                      record {
                        tx = tx';
                        tx_eq = e';
                        tx_valid = v';
                        log_valid = v.log_valid;
                        bound = refl;
                        aside = v.aside;
                      },
                      handed_over s s' v k (min avail n) tx' e' same grown'
                          (ap (λ j. drop j (contents s.1.log_rb)) (sym none_taken)) (omega arith),
                    )
              ])
      ]
    ]

-- After `Anbo_Dev_Open` of the line and `Anbo_Log_Init` on it.
abbrev pub boot : Usart → System
boot hw = ((open_device (some usart1_ops) (usart1_dev hw)).1, init (some uart_log) static_output)

-- The start-up leaves both rings empty, and the log bound to the line.
pub boot-IsReady : (hw : Usart) → IsReady (boot hw) × (stream (boot hw) ≡ hw.sent)
unfolding open_device opened usart1_open usart1_dev init static_output
boot-IsReady hw =
    let (tx_valid, tx_empty) = def_ring-IsValid 9 (omega arith) in
    let (log_valid, log_empty) = reset-IsValid (def_ring-IsValid 10 (omega arith)).0 in
    (
      record {
        tx = def_ring 9;
        tx_eq = refl;
        tx_valid = tx_valid;
        log_valid = log_valid;
        bound = refl;
        aside = λ fn e. absurd (cc);
      },
      ap₂ (λ p q. hw.sent ++ (p ++ q)) (contents-empty tx_valid tx_empty)
            (contents-empty log_valid log_empty)
          ∙ append-nil hw.sent,
    )
