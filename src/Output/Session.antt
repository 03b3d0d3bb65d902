-- ===== src/Output/Session.antt =====
-- Calls of the logger and of the driver, interrupts of the serial line and changes of its hardware, in
-- any order.
use mathlib.Core.Path.{subst}
use anbo_mos.Common.{
  ℕ, bit_and, Bool, not, Option, some, List, [], ◌++◌, append-nil, append_assoc, ◌≡◌, refl, ap, ◌∙◌,
  sym, inl, inr, Bool-cases, Option-cases, ◌==◌, ltb, if◌then◌else◌, get_or,
}
use anbo_mos.Ring.Window.{contents}
use anbo_mos.Log.Format.{Arg, done, format_v}
use anbo_mos.Dev.{Device, open_device, close_device, read_device, opened, flag_opened}
use anbo_mos.Dev.Uart.{Usart, usart1_ops, usart1_open, usart1_close, usart1_read, usart1_irq}
use anbo_mos.Output.{log_level, log_line_max, lvl_debug, set_sink, write_raw, emit, printf, flush}
use anbo_mos.Output.Stream.{System, stream, IsReady, flush-stream}
use anbo_mos.Output.Adds.{
  accepted, printed, Adds, write_raw-Adds, emit-Adds, publish_traced, publish_quietly, device-Adds,
}
use anbo_mos.Output.Line.{traced, if-Adds, usart1_irq-Adds}

-- One step, and the bytes that the log takes in it. The hardware may change its registers between
-- the calls, but sends nothing by itself.
pub data Step (trace : ℕ → List ℕ) : System → List ℕ → System → Type 0 where
  raw :
      (s : System) (bytes : List ℕ) → Step trace s (accepted s bytes) (s.0, (write_raw bytes s.1).1)
  print :
      (s s' : System) (level : ℕ) (fmt : Option (List ℕ)) (args : List Arg) (line : List ℕ)
      → format_v log_line_max fmt args ≡ done line
      → printf level fmt args s ≡ some s'
      → Step trace s
          (if not (ltb log_level level) then printed s (get_or s.1.sink_mask level 0) line else [])
          s'
  flush_log :
      (transmit_dma : List ℕ → Device Usart → Bool × Device Usart)
      (put_char : ℕ → Device Usart → Device Usart) (s : System)
      → Step trace s [] (flush transmit_dma put_char s)
  interrupt :
      (s : System)
      → Step trace s
          (if s.0.priv then traced trace s else [])
          (usart1_irq (publish_traced trace) publish_quietly s)
  hardware :
      (s : System) (hw : Usart)
      → hw.sent ≡ s.0.hw.sent
      → Step trace s [] (record (s.0) { hw = hw }, s.1)
  set_mask : (s : System) (level mask : ℕ) → Step trace s [] (s.0, set_sink level mask s.1)
  open_line : (s : System) → Step trace s [] ((open_device (some usart1_ops) s.0).1, s.1)
  close_line : (s : System) → Step trace s [] (close_device (some usart1_ops) s.0, s.1)
  read_line :
      (s : System) (len : ℕ) → Step trace s [] ((read_device (some usart1_ops) s.0 len).1, s.1)

pub data Steps (trace : ℕ → List ℕ) (s : System) : List ℕ → System → Type 0 where
  start : Steps trace s [] s
  then_step :
      {taken bytes : List ℕ} {s' s'' : System}
      → Steps trace s taken s'
      → Step trace s' bytes s''
      → Steps trace s (taken ++ bytes) s''

-- A call of the driver that leaves the transmit ring and what was sent.
quiet-Adds :
    (s : System) (dev : Device Usart)
    → IsReady s
    → (dev.tx_rb ≡ s.0.tx_rb) × (dev.hw.sent ≡ s.0.hw.sent)
    → Adds s [] (dev, s.1)
quiet-Adds s dev v (ring, sent) =
    device-Adds s dev v.tx v (ring ∙ v.tx_eq) v.tx_valid (ap (λ q. q ++ contents v.tx) sent)

abbrev Untouched : (dev dev' : Device Usart) → Type 0
Untouched dev dev' = (dev'.tx_rb ≡ dev.tx_rb) × (dev'.hw.sent ≡ dev.hw.sent)

open-Untouched : (dev : Device Usart) → Untouched dev (open_device (some usart1_ops) dev).1
unfolding open_device opened usart1_open
open-Untouched dev = elim (Bool-cases (not (bit_and dev.flags flag_opened == 0))) [
  | inl already ↦ rw already (refl, refl)
  | inr fresh ↦ rw fresh (refl, refl)
]

close-Untouched : (dev : Device Usart) → Untouched dev (close_device (some usart1_ops) dev)
unfolding close_device usart1_close
close-Untouched dev = elim (Bool-cases dev.priv) [
  | inl on ↦ rw (on, usart1_close) (refl, refl)
  | inr off ↦ rw (off, usart1_close) (refl, refl)
]

read-Untouched :
    (dev : Device Usart) (len : ℕ) → Untouched dev (read_device (some usart1_ops) dev len).1
unfolding read_device usart1_read
read-Untouched dev len = elim (Bool-cases (len == 0)) [
  | inl nothing ↦ rw (nothing, usart1_read) (refl, refl)
  | inr asked ↦ elim (Option-cases dev.rx_rb) [
    | inl no_ring ↦ rw (asked, no_ring, usart1_read) (refl, refl)
    | inr (rb, e) ↦ rw (asked, e, usart1_read) (refl, refl)
  ]
]

printf-emit :
    (s : System) (level : ℕ) (fmt : Option (List ℕ)) (args : List Arg) (line : List ℕ)
    → format_v log_line_max fmt args ≡ done line
    → printf level fmt args s
      ≡ some (if not (ltb log_level level) then emit (get_or s.1.sink_mask level 0) line s else s)
unfolding printf
printf-emit s level fmt args line text = elim (Bool-cases (ltb log_level level)) [
  | inl trimmed ↦ rw trimmed
  | inr kept ↦ rw (kept, text)
]

printf-Adds :
    (s s' : System) (level : ℕ) (fmt : Option (List ℕ)) (args : List Arg) (line : List ℕ)
    → IsReady s
    → format_v log_line_max fmt args ≡ done line
    → printf level fmt args s ≡ some s'
    → Adds s
        (if not (ltb log_level level) then printed s (get_or s.1.sink_mask level 0) line else [])
        s'
printf-Adds s s' level fmt args line v text e =
    let mask = get_or s.1.sink_mask level 0 in
    let after = if not (ltb log_level level) then emit mask line s else s in
    let both : some after ≡ some s' = sym (printf-emit s level fmt args line text) ∙ e in
    let same : after ≡ s' = cc in
    subst (Adds s (if not (ltb log_level level) then printed s mask line else [])) same (
      if-Adds s (emit mask line s) (printed s mask line) (not (ltb log_level level)) v
        (emit-Adds s mask line v))

set_sink-Adds : (s : System) (level mask : ℕ) → IsReady s → Adds s [] (s.0, set_sink level mask s.1)
unfolding set_sink
set_sink-Adds s level mask v = elim (Bool-cases (ltb lvl_debug level)) [
  | inl unknown ↦ rw unknown (v, sym (append-nil (stream s)))
  | inr known ↦ rw known (
    record {
      tx = v.tx;
      tx_eq = v.tx_eq;
      tx_valid = v.tx_valid;
      log_valid = v.log_valid;
      bound = v.bound;
      aside = v.aside;
    },
    sym (append-nil (stream s)),
  )
]

Step-Adds :
    {trace : ℕ → List ℕ} {s s' : System} {bytes : List ℕ}
    → Step trace s bytes s'
    → IsReady s
    → Adds s bytes s'
Step-Adds (raw s bytes) v = write_raw-Adds s bytes v
Step-Adds (print s s' level fmt args line text e) v = printf-Adds s s' level fmt args line v text e
Step-Adds (flush_log dma put s) v =
    let (w, same) = flush-stream dma put s v in (w, same ∙ sym (append-nil (stream s)))
Step-Adds {trace} (interrupt s) v = usart1_irq-Adds trace s v
Step-Adds (hardware s hw same) v = quiet-Adds s (record (s.0) { hw = hw }) v (refl, same)
Step-Adds (set_mask s level mask) v = set_sink-Adds s level mask v
Step-Adds (open_line s) v =
    quiet-Adds s (open_device (some usart1_ops) s.0).1 v (open-Untouched s.0)
Step-Adds (close_line s) v =
    quiet-Adds s (close_device (some usart1_ops) s.0) v (close-Untouched s.0)
Step-Adds (read_line s len) v =
    quiet-Adds s (read_device (some usart1_ops) s.0 len).1 v (read-Untouched s.0 len)

-- On a system with valid rings, whose log is bound to the serial line and whose flash writer leaves
-- the line alone, and that is used only as follows, in any order: raw writes, formatted lines, flushes
-- and changes of the sink masks of the logger; the opening, closing and reading of the line; its
-- interrupts, whose publications do no more than log their trace; and changes of the hardware that
-- send nothing. Then the bytes that went out, those in the transmit ring and those in the log ring
-- are, in this order, those that were there at first, followed by the bytes that the log accepted
-- since. Writes to the line past the log, and new bindings or a reset of the log, are not among these
-- steps.
pub Steps-stream :
    {trace : ℕ → List ℕ} {s s' : System} {bytes : List ℕ}
    → Steps trace s bytes s'
    → IsReady s
    → IsReady s' × (stream s' ≡ stream s ++ bytes)
Steps-stream start v = (v, sym (append-nil _))
Steps-stream {s = s} (then_step {bytes = b} before step) v =
    let (v1, grown) = Steps-stream before v in
    let (v2, more) = Step-Adds step v1 in
    (v2, more ∙ ap (λ q. q ++ b) grown ∙ append_assoc (stream s) _ _)
