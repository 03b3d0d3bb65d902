-- ===== src/Output/Adds.antt =====
-- What the calls of the logger add to the stream of bytes.
use anbo_mos.Common.{
  ℕ, bit_and, some, List, [], ◌++◌, append-nil, append_assoc, ◌≡◌, ap, ◌∙◌, sym, inl, inr,
  Bool-cases, Option-cases, ◌==◌, if◌then◌else◌, take,
}
use anbo_mos.Ring.{Ring, write}
use anbo_mos.Ring.Valid.{IsValid}
use anbo_mos.Ring.Window.{contents}
use anbo_mos.Ring.Bulk.{write-append}
use anbo_mos.Dev.{Device}
use anbo_mos.Dev.Uart.{Usart}
use anbo_mos.Output.{sink_uart, sink_flash, write_raw, to_uart, to_flash, emit}
use anbo_mos.Output.Stream.{System, stream, stream-eq, IsReady}

-- The bytes of `bytes` for which the log ring has room.
abbrev pub accepted : System → List ℕ → List ℕ
accepted s bytes = take (write_raw bytes s.1).0 bytes

-- The system `s'` is ready, and has taken `bytes` since `s`.
abbrev pub Adds : System → List ℕ → System → Type 0
Adds s bytes s' = IsReady s' × (stream s' ≡ stream s ++ bytes)

pub write_raw-Adds :
    (s : System) (bytes : List ℕ)
    → IsReady s
    → Adds s (accepted s bytes) (s.0, (write_raw bytes s.1).1)
unfolding write_raw
write_raw-Adds s bytes v =
    let (n, grown, log', _) = write-append v.log_valid bytes in
    let s' : System = (s.0, record (s.1) { log_rb = (write s.1.log_rb bytes).1 }) in
    (
      record {
        tx = v.tx;
        tx_eq = v.tx_eq;
        tx_valid = v.tx_valid;
        log_valid = log';
        bound = v.bound;
        aside = v.aside;
      },
      stream-eq s' v.tx v.tx_eq
          ∙ ap (λ q. s.0.hw.sent ++ (contents v.tx ++ q))
              (grown ∙ ap (λ k. contents s.1.log_rb ++ take k bytes) (sym n))
          ∙ ap (λ q. s.0.hw.sent ++ q) (sym (append_assoc (contents v.tx) _ _))
          ∙ sym (append_assoc s.0.hw.sent _ _)
          ∙ ap (λ q. q ++ accepted s bytes) (sym (stream-eq s v.tx v.tx_eq)),
    )

-- What a formatted line adds, with the mask of its level.
abbrev pub printed : System → ℕ → List ℕ → List ℕ
printed s mask line = if bit_and mask sink_uart == 0 then [] else accepted s line

to_uart-Adds :
    (s : System) (mask : ℕ) (line : List ℕ)
    → IsReady s
    → Adds s (printed s mask line) (s.0, to_uart mask line s.1)
unfolding to_uart
to_uart-Adds s mask line v = elim (Bool-cases (bit_and mask sink_uart == 0)) [
  | inl silent ↦ rw silent (v, sym (append-nil (stream s)))
  | inr shown ↦ rw shown (write_raw-Adds s line v)
]

to_flash-same : (s : System) (mask : ℕ) (line : List ℕ) → IsReady s → to_flash mask line s ≡ s
unfolding to_flash
to_flash-same s mask line v = elim (Option-cases s.1.flash_writer) [
  | inl none_set ↦ simp (none_set, to_flash)
  | inr (fn, e) ↦ elim (Bool-cases (bit_and mask sink_flash == 0)) [
    | inl silent ↦ simp (e, silent, to_flash)
    | inr stored ↦ simp (e, stored, v.aside fn e line s.0, to_flash)
  ]
]

pub emit-Adds :
    (s : System) (mask : ℕ) (line : List ℕ)
    → IsReady s
    → Adds s (printed s mask line) (emit mask line s)
unfolding emit
emit-Adds s mask line v =
    let w = to_uart-Adds s mask line v in
    rw (to_flash-same (s.0, to_uart mask line s.1) mask line w.0) w

-- The publication of a signal, where handlers leave the driver and the log alone: it logs the line
-- that `ANBO_TRACE_PUBLISH` prints.
abbrev pub publish_traced : (ℕ → List ℕ) → ℕ → System → System
publish_traced trace sig s = (s.0, (write_raw (trace sig) s.1).1)

abbrev pub publish_quietly : ℕ → System → System
publish_quietly sig s = s

-- Another state of the device, with the same bytes on their way.
pub device-Adds :
    (s : System) (dev : Device Usart) (tx' : Ring) (v : IsReady s)
    → dev.tx_rb ≡ some tx'
    → IsValid tx'
    → dev.hw.sent ++ contents tx' ≡ s.0.hw.sent ++ contents v.tx
    → Adds s [] (dev, s.1)
device-Adds s dev tx' v e valid same = (
  record {
    tx = tx';
    tx_eq = e;
    tx_valid = valid;
    log_valid = v.log_valid;
    bound = v.bound;
    aside = v.aside;
  },
  stream-eq (dev, s.1) tx' e
      ∙ sym (append_assoc dev.hw.sent _ _)
      ∙ ap (λ q. q ++ contents s.1.log_rb) same
      ∙ append_assoc s.0.hw.sent _ _
      ∙ sym (stream-eq s v.tx v.tx_eq)
      ∙ sym (append-nil (stream s)),
)
