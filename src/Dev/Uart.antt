-- ===== src/Dev/Uart.antt =====
-- port/stm32l4s5/b_l4s5i_uart_drv.c: the interrupt-driven driver of the serial line.
use anbo_mos.Common.{
  ℕ, ◌^◌, ◌%◌, Bool, true, false, not, ◌&&◌, ◌||◌, none, some, List, [], ◌∷◌, ◌++◌, ◌==◌, ltb,
  if◌then◌else◌, length, Status, ok,
}
use anbo_mos.Ring.{Ring, def_ring, put_byte, get_byte, write, read}
use anbo_mos.Dev.{Device, DevOps}

-- The registers of the peripheral that the driver uses. `received` is what reading RDR yields until
-- RXNE is clear, `sent` is all that was written to TDR, and the other fields are bits.
pub record Usart : Type 0 where
  pub rxneie : Bool
  pub txeie : Bool
  pub txe : Bool
  pub error_flags : Bool
  pub wuf : Bool
  pub received : List ℕ
  pub sent : List ℕ

abbrev pub sig_uart_rx : ℕ
sig_uart_rx = 16

abbrev pub sig_uart_tx : ℕ
sig_uart_tx = 17

-- `s_usart1_dev` before it is opened.
unfoldable pub usart1_dev : Usart → Device Usart
unfolding def_ring
usart1_dev hw = record {
  tx_rb = some (def_ring 9);
  rx_rb = some (def_ring 8);
  sig_tx = sig_uart_tx;
  sig_rx = sig_uart_rx;
  priv = false;
  flags = 0;
  hw = hw;
}

unfoldable pub usart1_open : Device Usart → Status × Device Usart
usart1_open dev = (ok, record dev { priv = true; hw = record (dev.hw) { rxneie = true } })

unfoldable pub usart1_close : Device Usart → Device Usart
usart1_close dev =
    if dev.priv then record dev { hw = record (dev.hw) { txeie = false; rxneie = false } } else dev

-- The driver's ring is never `NULL`; a device without one would be an undefined access.
unfoldable pub usart1_write : Device Usart → List ℕ → ℕ × Device Usart
usart1_write dev bytes = if not dev.priv || length bytes == 0 then (0, dev) else elim dev.tx_rb [
  | none ↦ (0, dev)
  | some rb ↦
      let (written, rb') = write rb bytes in
      let kicked = if ltb 0 written then record (dev.hw) { txeie = true } else dev.hw in
      (written, record dev { tx_rb = some rb'; hw = kicked })
]

unfoldable pub usart1_read : Device Usart → ℕ → List ℕ × Device Usart
usart1_read dev len = if len == 0 then ([], dev) else elim dev.rx_rb [
  | none ↦ ([], dev)
  | some rb ↦ let (bytes, rb') = read rb len in (bytes, record dev { rx_rb = some rb' })
]

abbrev pub usart1_ops : DevOps Usart
usart1_ops = record {
  open_op = some usart1_open;
  close_op = some usart1_close;
  write_op = some usart1_write;
  read_op = some usart1_read;
  ioctl_op = none;
}

-- The loop that drains the receive FIFO; a byte that finds the ring full is dropped.
unfoldable pub rx_loop : List ℕ → Ring → Ring
rx_loop [] rb = rb
rx_loop (rdr ∷ rest) rb = rx_loop rest (put_byte rb (rdr % 2 ^ 8)).1

unfoldable pub drain_rx : Device Usart → Device Usart
unfolding rx_loop
drain_rx dev = elim dev.rx_rb [
  | none ↦ dev
  | some rb ↦ record dev {
    rx_rb = some (rx_loop dev.hw.received rb);
    hw = record (dev.hw) { received = [] };
  }
]

-- The transmit part where both TXEIE and TXE are set, and whether the ring was empty.
unfoldable pub feed_tx : Device Usart → Bool × Device Usart
feed_tx dev = elim dev.tx_rb [
  | none ↦ (false, dev)
  | some rb ↦
      let (byte, rb') = get_byte rb in
      elim byte [
        | some b ↦ (
          false,
          record dev {
            tx_rb = some rb';
            hw = record (dev.hw) { sent = dev.hw.sent ++ b ∷ []; txe = false };
          },
        )
        | none ↦ (true, record dev { hw = record (dev.hw) { txeie = false } })
      ]
]

-- The writes to ICR at the end.
unfoldable pub clear_flags : Device Usart → Device Usart
clear_flags dev = record dev { hw = record (dev.hw) { error_flags = false; wuf = false } }

-- `BSP_USART1_IRQ`; the two publications are arguments.
module _ {W : Type 0} (publish publish_silent : ℕ → Device Usart × W → Device Usart × W) where
  unfoldable pub receive : Device Usart × W → Device Usart × W
  unfolding drain_rx
  receive (dev, w) =
      if length dev.hw.received == 0 then (dev, w) else publish sig_uart_rx (drain_rx dev, w)

  unfoldable pub transmit : Device Usart × W → Device Usart × W
  unfolding feed_tx
  transmit (dev, w) =
      let (drained, dev') = feed_tx dev in
      if not (dev.hw.txeie && dev.hw.txe)
      then (dev, w)
      else if drained && not (dev'.sig_tx == 0)
      then publish_silent dev'.sig_tx (dev', w)
      else (dev', w)

  unfoldable pub usart1_irq : Device Usart × W → Device Usart × W
  unfolding receive transmit clear_flags
  usart1_irq s = let (dev, w) = transmit (receive s) in if s.0.priv then (clear_flags dev, w) else s
