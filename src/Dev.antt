-- ===== src/Dev.antt =====
-- kernel/include/anbo_dev.h: the asynchronous device. `W` is what stands beside the device in the
-- system; a callback or a publication may change all of it.
pub mod Uart
use anbo_mos.Common.{
  ℕ, ◌-◌, ◌^◌, bit_and, bit_or, Bool, true, false, not, ◌&&◌, Option, none, some, List, [], ◌==◌,
  if◌then◌else◌, Status, ok, failed,
}
use anbo_mos.Ring.{Ring}

-- `Anbo_Device`. `hw` is the peripheral that the handle in `priv` stands for, and `priv` tells
-- whether the handle is set; the name is left out, and the callbacks are arguments below.
pub record Device (H : Type 0) : Type 0 where
  pub tx_rb : Option Ring
  pub rx_rb : Option Ring
  pub sig_tx : ℕ
  pub sig_rx : ℕ
  pub priv : Bool
  pub flags : ℕ
  pub hw : H

abbrev pub flag_opened : ℕ
flag_opened = 1

abbrev pub flag_tx_busy : ℕ
flag_tx_busy = 2

-- `Anbo_DevOps`: `none` is a `NULL` pointer. `ioctl` returns the word of its `int`.
pub record DevOps (H : Type 0) : Type 0 where
  pub open_op : Option (Device H → Status × Device H)
  pub close_op : Option (Device H → Device H)
  pub write_op : Option (Device H → List ℕ → ℕ × Device H)
  pub read_op : Option (Device H → ℕ → List ℕ × Device H)
  pub ioctl_op : Option (Device H → (cmd arg : ℕ) → ℕ × Device H)

module _ {H : Type 0} where
  -- `dev->flags |= ANBO_DEV_FLAG_OPENED` after a driver that reports success.
  unfoldable pub opened : Status × Device H → Status × Device H
  opened (ok, dev) = (ok, record dev { flags = bit_or dev.flags flag_opened })
  opened (failed, dev) = (failed, dev)

  -- Below, the vtable is `none` where `dev->ops` is `NULL`.
  unfoldable pub open_device : Option (DevOps H) → Device H → Status × Device H
  unfolding opened
  open_device none dev = (failed, dev)
  open_device (some ops) dev = elim ops.open_op [
    | none ↦ (failed, dev)
    | some op ↦ if not (bit_and dev.flags flag_opened == 0) then (ok, dev) else opened (op dev)
  ]

  unfoldable pub close_device : Option (DevOps H) → Device H → Device H
  close_device none dev = dev
  close_device (some ops) dev =
      let closed : Device H = elim ops.close_op [ none ↦ dev | some op ↦ op dev ] in
      record closed { flags = 0 }

  unfoldable pub async_write : Option (DevOps H) → Device H → List ℕ → ℕ × Device H
  async_write none dev bytes = (0, dev)
  async_write (some ops) dev bytes = elim ops.write_op [ none ↦ (0, dev) | some op ↦ op dev bytes ]

  unfoldable pub read_device : Option (DevOps H) → Device H → ℕ → List ℕ × Device H
  read_device none dev len = ([], dev)
  read_device (some ops) dev len = elim ops.read_op [ none ↦ ([], dev) | some op ↦ op dev len ]

  unfoldable pub ioctl : Option (DevOps H) → Device H → (cmd arg : ℕ) → ℕ × Device H
  ioctl none dev cmd arg = (2 ^ 32 - 1, dev)
  ioctl (some ops) dev cmd arg = elim ops.ioctl_op [
    | none ↦ (2 ^ 32 - 1, dev)
    | some op ↦ op dev cmd arg
  ]

-- `publish` is `Anbo_EBus_PublishSig`, and a signal of 0 is none.
unfoldable pub isr_post {ℓ} : {S : Type ℓ} → (ℕ → S → S) → ℕ → S → S
isr_post publish sig s = if sig == 0 then s else publish sig s

module _ {H W : Type 0} (publish : ℕ → Device H × W → Device H × W) where
  abbrev called : Option (ℕ → Device H × W → Device H × W) → ℕ → Device H × W → Device H × W
  called none n s = s
  called (some callback) n s = callback n s

  -- The last `if`: `dev->sig_tx` is read after the callback has run.
  unfoldable pub tx_complete :
      Option (ℕ → Device H × W → Device H × W) → ℕ → Device H × W → Device H × W
  unfolding isr_post
  tx_complete tx_done nbytes (dev, w) =
      let idle = record dev { flags = bit_and dev.flags (2 ^ 8 - 1 - flag_tx_busy) } in
      let s = called tx_done nbytes (idle, w) in isr_post publish s.0.sig_tx s

  unfoldable pub rx_notify :
      Option (ℕ → Device H × W → Device H × W) → ℕ → Device H × W → Device H × W
  unfolding isr_post
  rx_notify rx_ready nbytes s = let s' = called rx_ready nbytes s in isr_post publish s'.0.sig_rx s'
