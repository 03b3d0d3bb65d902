-- ===== src/LogFlash/Dump/Examples.antt =====
-- A dump of a log that is read in a circle, over a line that sends a byte in every third round.
use anbo_mos.Common.{
  ℕ, ◌-◌, ◌%◌, Bool, true, false, none, some, List, [], ◌∷◌, ◌++◌, append-nil, ◌≡◌, refl, ap, ◌∙◌,
  sym, inl, inr, Bool-cases, Option-cases, arith, ◌==◌, if◌then◌else◌, length, take,
}
use anbo_mos.Ring.{Ring, reset, count, get_byte}
use anbo_mos.Ring.Valid.{IsValid, size-pos}
use anbo_mos.Ring.Bytes.{length-contents}
use anbo_mos.Ring.Window.{contents}
use anbo_mos.Ring.Session.{pop, get_byte-pop}
use anbo_mos.Dev.{Device, open_device, opened}
use anbo_mos.Dev.Uart.{Usart, feed_tx, usart1_open, usart1_dev}
use anbo_mos.Output.{Output, init, static_output, pending}
use anbo_mos.Output.Stream.{System, stream, boot, boot-IsReady}
use anbo_mos.Output.Line.{feed_tx-Adds, pop-some}
use anbo_mos.LogFlash.{Area, Flash, Cursors, read}
use anbo_mos.LogFlash.Format.{build_slot, slot_ok}
use anbo_mos.Log.Digits.{parsed}
use anbo_mos.LogFlash.Dump.{hdr, end_before, end_after, dump}
use anbo_mos.LogFlash.Dump.Wait.{IsOpen, IsLine, HasRoom}
use anbo_mos.LogFlash.Dump.Sent.{entries, lines_of, Sends, dump-Sends}

pop-none : (q r : List ℕ) → (none, r) ≡ pop q → q ≡ []
unfolding pop
pop-none [] r e = refl
pop-none (x ∷ q) r e = absurd (cc)

feed_tx-HasRoom :
    (dev : Device Usart) (o : Output (Device Usart)) (tx : Ring)
    → dev.tx_rb ≡ some tx
    → IsValid tx
    → HasRoom ((feed_tx dev).1, o)
unfolding feed_tx
feed_tx-HasRoom dev o tx e v =
    let (popped, valid, same) = get_byte-pop v in
    rw e (elim (Option-cases (get_byte tx).0) [
      | inl drained ↦
          let empty : contents tx ≡ [] =
            pop-none _ _ (ap (λ x. (x, contents (get_byte tx).1)) (sym drained) ∙ popped) in
          rw (drained, feed_tx)
            (tx, refl, omega (arith, ap length empty, length-contents v, size-pos v))
      | inr (b, out) ↦
          let split : contents tx ≡ b ∷ contents (get_byte tx).1 =
            pop-some _ _ b (ap (λ x. (x, contents (get_byte tx).1)) (sym out) ∙ popped) in
          rw (out, feed_tx)
            (
              (get_byte tx).1,
              refl,
              omega (arith, ap length split, length-contents v, length-contents valid, v.within),
            )
    ])

priv-feed_tx : (dev : Device Usart) → (feed_tx dev).1.priv ≡ dev.priv
unfolding feed_tx
priv-feed_tx dev = elim (Option-cases dev.tx_rb) [
  | inl no_ring ↦ rw no_ring refl
  | inr (tx, e) ↦ rw e (elim (Option-cases (get_byte tx).0) [
    | inl drained ↦ rw (drained, feed_tx) refl
    | inr (b, out) ↦ rw (out, feed_tx) refl
  ])
]

-- The line sends a byte in every third round.
abbrev third : ℕ → System → System
third t s = if t % 3 == 2 then ((feed_tx s.0).1, s.1) else s

abbrev gap : ℕ → ℕ
gap t = 2 - t % 3

third-IsLine : IsLine third gap 2
third-IsLine = record {
  keeps = λ t s v. elim (Bool-cases (t % 3 == 2)) [
    | inl now ↦ let (w, same) = feed_tx-Adds s v in rw now (w, same ∙ append-nil (stream s))
    | inr later ↦ rw later (v, refl)
  ];
  priv_kept = λ t s. elim (Bool-cases (t % 3 == 2)) [
    | inl now ↦ rw now (priv-feed_tx s.0)
    | inr later ↦ rw later refl
  ];
  log_kept =
      λ t s. elim (Bool-cases (t % 3 == 2)) [ inl now ↦ rw now refl | inr later ↦ rw later refl ];
  bounded = λ t. omega arith;
  counts = λ t j h. omega arith;
  sends = λ t s v h.
      let now : (t % 3 == 2) ≡ true = ground arith in
      rw now (feed_tx-HasRoom s.0 s.1 v.tx v.tx_eq v.tx_valid);
}

abbrev quiet_line : Usart
quiet_line = record {
  rxneie = false;
  txeie = false;
  txe = true;
  error_flags = false;
  wuf = false;
  received = [];
  sent = [];
}

abbrev dma : List ℕ → Device Usart → Bool × Device Usart
dma chunk dev = (false, dev)

abbrev put : ℕ → Device Usart → Device Usart
put c dev = dev

-- Three pages of one slot; every slot holds "A".
abbrev pages : Area
pages = record { first_addr = 4096; page_size = 128; num_pages = 3 }

abbrev all_slots : Flash (List ℕ)
all_slots = record {
  read_bytes = λ m a len. take len m;
  page_program = λ m a slot. (true, slot);
  sector_erase = λ m a. (true, m);
}

abbrev slot : List ℕ
slot = build_slot 5 (65 ∷ [])

abbrev reused : Cursors
reused = record {
  cur_page = 0;
  cur_slot = 1;
  seq_counter = 6;
  head_page = 1;
  head_slot = 0;
  inited = true;
}

three_entries : entries pages all_slots slot reused 3 0 ≡ (65 ∷ []) ∷ (65 ∷ []) ∷ (65 ∷ []) ∷ []
unfolding build_slot read slot_ok
three_entries = refl

boot-IsOpen : IsOpen (boot quiet_line)
unfolding open_device usart1_open opened usart1_dev init static_output reset
boot-IsOpen = record { ready = (boot-IsReady quiet_line).0; opened = refl; sized = refl }

boot-pending : pending (boot quiet_line).1 ≡ 0
unfolding init static_output pending count reset
boot-pending = refl

dump-Sends_example :
    let texts = entries pages all_slots slot reused 3 0 in
    (digits : List ℕ) × (out : ℕ × System) × (dump dma put third pages all_slots slot reused 4100
        (0, boot quiet_line)
      ≡ some out)
    × (parsed 10 digits 0 ≡ length texts)
    × Sends dma put third gap 2 third-IsLine 4100
        (omega arith)
        (boot quiet_line)
        (hdr ++ (lines_of texts ++ (end_before ++ (digits ++ end_after))))
        out
dump-Sends_example =
    dump-Sends dma put third gap 2 third-IsLine 4100 (omega arith) pages all_slots slot reused 0
      (boot quiet_line) refl boot-IsOpen (omega (arith, boot-pending)) (omega arith)
