-- ===== src/Output/Line.antt =====
-- What an interrupt of the serial line adds to the stream of bytes.
use anbo_mos.Common.{
  ℕ, Bool, true, false, not, ◌&&◌, some, List, [], ◌∷◌, ◌++◌, append-nil, append_assoc, ◌≡◌, refl,
  ap, ◌∙◌, sym, inl, inr, Bool-cases, Option-cases, ◌==◌, if◌then◌else◌, length,
}
use anbo_mos.Ring.{Ring, get_byte}
use anbo_mos.Ring.Valid.{IsValid}
use anbo_mos.Ring.Window.{contents}
use anbo_mos.Ring.Session.{pop, get_byte-pop}
use anbo_mos.Dev.{Device}
use anbo_mos.Dev.Uart.{
  Usart, usart1_irq, sig_uart_rx, receive, transmit, drain_rx, feed_tx, clear_flags,
}
use anbo_mos.Output.Stream.{System, stream, IsReady}
use anbo_mos.Output.Adds.{
  accepted, Adds, write_raw-Adds, publish_traced, publish_quietly, device-Adds,
}

-- What an interrupt adds: the trace of the publication, if bytes have come in.
abbrev pub traced : (ℕ → List ℕ) → System → List ℕ
traced trace s = if length s.0.hw.received == 0 then [] else accepted s (trace sig_uart_rx)

drain_rx-same :
    (dev : Device Usart)
    → ((drain_rx dev).tx_rb ≡ dev.tx_rb) × ((drain_rx dev).hw.sent ≡ dev.hw.sent)
unfolding drain_rx
drain_rx-same dev = elim (Option-cases dev.rx_rb) [
  | inl no_ring ↦ rw no_ring (refl, refl)
  | inr (rb, e) ↦ rw e (refl, refl)
]

drain_rx-Adds : (s : System) → IsReady s → Adds s [] (drain_rx s.0, s.1)
drain_rx-Adds s v =
    let (ring, sent) = drain_rx-same s.0 in
    device-Adds s (drain_rx s.0) v.tx v (ring ∙ v.tx_eq) v.tx_valid
      (ap (λ q. q ++ contents v.tx) sent)

receive-Adds :
    (trace : ℕ → List ℕ) (s : System)
    → IsReady s
    → Adds s (traced trace s) (receive (publish_traced trace) publish_quietly s)
unfolding receive
receive-Adds trace s v = elim (Bool-cases (length s.0.hw.received == 0)) [
  | inl idle ↦ rw idle (v, sym (append-nil (stream s)))
  | inr bytes_in ↦
      let (w, same) = drain_rx-Adds s v in
      let (w', grown) = write_raw-Adds (drain_rx s.0, s.1) (trace sig_uart_rx) w in
      rw bytes_in
        (w', grown ∙ ap (λ q. q ++ accepted s (trace sig_uart_rx)) (same ∙ append-nil (stream s)))
]

pub pop-some : (q r : List ℕ) (b : ℕ) → (some b, r) ≡ pop q → q ≡ b ∷ r
unfolding pop
pop-some [] r b e = absurd (cc)
pop-some (x ∷ q) r b e = cc

-- The byte that goes out is the oldest of the transmit ring.
feed_tx-moves :
    (dev : Device Usart) (tx : Ring)
    → dev.tx_rb ≡ some tx
    → IsValid tx
    → let dev' = (feed_tx dev).1 in
      (tx' : Ring) × (dev'.tx_rb ≡ some tx')
      × IsValid tx'
      × (dev'.hw.sent ++ contents tx' ≡ dev.hw.sent ++ contents tx)
unfolding feed_tx
feed_tx-moves dev tx e v =
    let (popped, valid, _) = get_byte-pop v in
    rw e (elim (Option-cases (get_byte tx).0) [
      | inl drained ↦ rw (drained, feed_tx) (tx, refl, v, refl)
      | inr (b, out) ↦
          let split : contents tx ≡ b ∷ contents (get_byte tx).1 =
            pop-some _ _ b (ap (λ x. (x, contents (get_byte tx).1)) (sym out) ∙ popped) in
          rw (out, feed_tx)
            (
              (get_byte tx).1,
              refl,
              valid,
              append_assoc dev.hw.sent _ _ ∙ ap (λ q. dev.hw.sent ++ q) (sym split),
            )
    ])

pub feed_tx-Adds : (s : System) → IsReady s → Adds s [] ((feed_tx s.0).1, s.1)
feed_tx-Adds s v =
    let (tx', e, valid, same) = feed_tx-moves s.0 v.tx v.tx_eq v.tx_valid in
    device-Adds s (feed_tx s.0).1 tx' v e valid same

transmit-Adds :
    (trace : ℕ → List ℕ) (s : System)
    → IsReady s
    → Adds s [] (transmit (publish_traced trace) publish_quietly s)
unfolding transmit
transmit-Adds trace s v =
    let fed = feed_tx-Adds s v in
    elim (Bool-cases (not (s.0.hw.txeie && s.0.hw.txe))) [
      | inl waits ↦ rw waits (v, sym (append-nil (stream s)))
      | inr goes ↦
          rw goes (elim (Bool-cases ((feed_tx s.0).0 && not ((feed_tx s.0).1.sig_tx == 0))) [
            | inl told ↦ rw told fed
            | inr quiet ↦ rw quiet fed
          ])
    ]

pub if-Adds :
    (s s' : System) (bytes : List ℕ) (b : Bool)
    → IsReady s
    → Adds s bytes s'
    → Adds s (if b then bytes else []) (if b then s' else s)
if-Adds s s' bytes true v w = w
if-Adds s s' bytes false v w = (v, sym (append-nil (stream s)))

-- An interrupt of the line loses nothing: bytes go out in their order.
pub usart1_irq-Adds :
    (trace : ℕ → List ℕ) (s : System)
    → IsReady s
    → Adds s
        (if s.0.priv then traced trace s else [])
        (usart1_irq (publish_traced trace) publish_quietly s)
unfolding usart1_irq clear_flags
usart1_irq-Adds trace s v =
    let s1 = receive (publish_traced trace) publish_quietly s in
    let s2 = transmit (publish_traced trace) publish_quietly s1 in
    let (v1, grown) = receive-Adds trace s v in
    let (v2, same) = transmit-Adds trace s1 v1 in
    let (v3, same') = device-Adds s2 (clear_flags s2.0) v2.tx v2 v2.tx_eq v2.tx_valid refl in
    if-Adds s (clear_flags s2.0, s2.1) (traced trace s) s.0.priv v
      (v3, same' ∙ append-nil (stream s2) ∙ same ∙ append-nil (stream s1) ∙ grown)
