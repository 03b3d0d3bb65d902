-- ===== src/LogFlash/Dump/Sent.antt =====
-- A dump sends every entry of the log, once and in order.
use anbo_mos.Common.{
  ℕ, zero, suc, ◌+◌, ◌*◌, ◌^◌, ◌≤◌, ◌<◌, Bool, true, some, List, [], ◌∷◌, ◌++◌, append-nil,
  append_assoc, ◌≡◌, ap, ◌∙◌, sym, inl, inr, Bool-cases, Option-cases, arith, ◌==◌, if◌then◌else◌,
  length, length-append, length-take, take, take_all, drop,
}
use native.Mathlib.Nat.{mul-le-mul_right}
use anbo_mos.Ring.{count, write}
use anbo_mos.Ring.Bulk.{write-append}
use anbo_mos.Dev.{Device}
use anbo_mos.Dev.Uart.{Usart}
use anbo_mos.Output.{pending, write_raw}
use anbo_mos.Output.Stream.{System, stream}
use anbo_mos.Output.Adds.{accepted, write_raw-Adds}
use anbo_mos.Log.Digits.{parsed}
use anbo_mos.Log.Format.{word, done, format_v}
use anbo_mos.LogFlash.{Area, Flash, Cursors, read, find_in_pages, ctx_place, ctx_done, slot_at}
use anbo_mos.LogFlash.Format.{text_capacity, text_offset, until_zero}
use anbo_mos.LogFlash.Dump.{
  hdr, end_before, end_after, end_format, dump_line, put_out, put_end, max_entries, dump_loop,
  dump_end, dump,
}
use anbo_mos.LogFlash.Dump.Wait.{IsOpen, IsLine, drain_uart-Drained}
use anbo_mos.LogFlash.Dump.Text.{end-text}

length-until_zero : (bytes : List ℕ) → length (until_zero bytes) ≤ length bytes
unfolding until_zero
length-until_zero [] = omega arith
length-until_zero (b ∷ rest) = ground (arith, length-until_zero rest)

module _ {ℓ} {Mem : Type ℓ} (g : Area) (d : Flash Mem) (m : Mem) (c : Cursors) where
  -- What reading gives from the context `ctx` on, at most `left` texts, up to the first empty one.
  abbrev pub entries : (left ctx : ℕ) → List (List ℕ)
  entries zero ctx = []
  entries (suc left) ctx =
      let (text, ctx') = read g d m c text_capacity ctx in
      let rest = entries left ctx' in if length text == 0 then [] else text ∷ rest

  length-read : (ctx : ℕ) → length (read g d m c text_capacity ctx).0 ≤ text_capacity
  unfolding read
  length-read ctx =
      let (pg, si) = ctx_place g d c ctx in
      elim (Bool-cases (ctx == ctx_done g d)) [
        | inl end ↦ rw end (omega arith)
        | inr more ↦ elim (Option-cases (find_in_pages g d g.num_pages pg si m)) [
          | inl nothing ↦ rw (more, nothing) (omega arith)
          | inr ((pg', si'), found) ↦
              let copied = take text_capacity (drop text_offset (slot_at g d m pg' si')) in
              rw (more, found)
                (omega (
                  arith,
                  length-until_zero copied,
                  length-take text_capacity (drop text_offset (slot_at g d m pg' si')),
                ))
        ]
      ]

length-dump_line : (text : List ℕ) → length (dump_line text) ≡ length text + 6
length-dump_line text = omega (arith, length-append text (13 ∷ 10 ∷ []))

abbrev pub lines_of : List (List ℕ) → List ℕ
lines_of [] = []
lines_of (text ∷ texts) = dump_line text ++ lines_of texts

pub length-entries {ℓ} :
    {Mem : Type ℓ} (g : Area) (d : Flash Mem) (m : Mem) (c : Cursors) (left ctx : ℕ)
    → length (entries g d m c left ctx) ≤ left
length-entries g d m c zero ctx = omega arith
length-entries g d m c (suc left) ctx =
    ground (arith, length-entries g d m c left (read g d m c text_capacity ctx).1)

module _ (transmit_dma : List ℕ → Device Usart → Bool × Device Usart)
    (put_char : ℕ → Device Usart → Device Usart) (spin : ℕ → System → System) (gap : ℕ → ℕ) (k : ℕ)
    (line : IsLine spin gap k) (n : ℕ) (enough : (2 ^ 10 + 1) * (k + 2) ≤ n) where
  -- The bytes have gone to the driver, behind those that were there before, and none is pending.
  abbrev pub Sends : System → List ℕ → ℕ × System → Type 0
  Sends s bytes (t', s') = IsOpen s' × (pending s'.1 ≡ 0) × (stream s' ≡ stream s ++ bytes)

  put_out-Sends :
      (bytes : List ℕ) (t : ℕ) (s : System)
      → IsOpen s
      → pending s.1 + length bytes ≤ 2 ^ 10
      → (out : ℕ × System) × (put_out transmit_dma put_char spin n bytes (t, s) ≡ some out)
        × Sends s bytes out
  unfolding put_out write_raw
  put_out-Sends bytes t s v fits =
      let (taken, _, _, same_size) = write-append v.ready.log_valid bytes in
      let (ready, grown) = write_raw-Adds s bytes v.ready in
      let s1 : System = (s.0, (write_raw bytes s.1).1) in
      let v1 : IsOpen s1 = record {
        ready = ready;
        opened = v.opened;
        sized = same_size ∙ v.sized;
      } in
      let all : accepted s bytes ≡ bytes =
        take_all (write s.1.log_rb bytes).0 bytes (omega arith) in
      let within : pending s1.1 ≤ 2 ^ 10 = omega arith in
      let (out, e, (open_still, empty, same)) =
        drain_uart-Drained transmit_dma put_char spin gap k line n (k + 1) t s1 v1
          (inr (omega (arith, line.bounded t))) (omega (arith, mul-le-mul_right (k + 2) within)) in
      (out, e, (open_still, empty, same ∙ grown ∙ ap (λ b. stream s ++ b) all))

  -- Two parts, one after the other.
  then-Sends :
      (s : System) (bytes more : List ℕ) (o o' : ℕ × System)
      → Sends s bytes o
      → Sends o.1 more o'
      → Sends s (bytes ++ more) o'
  then-Sends s bytes more o o' (_, _, first) (v, empty, next) =
      (v, empty, next ∙ ap (λ b. b ++ more) first ∙ append_assoc (stream s) bytes more)

  module _ {ℓ} {Mem : Type ℓ} (g : Area) (d : Flash Mem) (m : Mem) (c : Cursors) where
    dump_loop-Sends :
        (left ctx count t : ℕ) (s : System)
        → IsOpen s
        → pending s.1 ≡ 0
        → (out : ℕ × System) × (dump_loop transmit_dma put_char spin g d m c left n ctx count (t, s)
            ≡ some (count + length (entries g d m c left ctx), out))
          × Sends s (lines_of (entries g d m c left ctx)) out
    unfolding dump_loop
    dump_loop-Sends zero ctx count t s v none_left = (
      (t, s),
      ap (λ i. some (i, (t, s))) (omega arith),
      (v, none_left, sym (append-nil (stream s))),
    )
    dump_loop-Sends (suc left) ctx count t s v none_left =
        let (text, ctx') = read g d m c text_capacity ctx in
        elim (Bool-cases (length text == 0)) [
          | inl end ↦
              rw (end, dump_loop)
                (
                  (t, s),
                  ap (λ i. some (i, (t, s))) (omega arith),
                  (v, none_left, sym (append-nil (stream s))),
                )
          | inr more ↦
              let (o, e, sent) =
                put_out-Sends (dump_line text) t s v
                  (omega (arith, length-read g d m c ctx, length-dump_line text)) in
              let (out, e', sent') = dump_loop-Sends left ctx' (count + 1) o.0 o.1 sent.0 sent.1 in
              rw (more, e, dump_loop)
                (
                  out,
                  e' ∙ ap (λ i. some (i, out)) (omega arith),
                  then-Sends s (dump_line text) (lines_of (entries g d m c left ctx')) o out sent
                      sent',
                )
        ]

    dump-parts :
        (count : ℕ) (footer : List ℕ) (s0 s1 s2 s3 : ℕ × System)
        → c.inited ≡ true
        → put_out transmit_dma put_char spin n hdr s0 ≡ some s1
        → dump_loop transmit_dma put_char spin g d m c (max_entries g d) n 0 0 s1 ≡ some (count, s2)
        → format_v 64 (some end_format) (word count ∷ []) ≡ done footer
        → put_out transmit_dma put_char spin n footer s2 ≡ some s3
        → dump transmit_dma put_char spin g d m c n s0 ≡ some s3
    unfolding dump
    dump-parts count footer s0 s1 s2 s3 ready e1 e2 text e3 =
        let end = dump_end transmit_dma put_char spin g d m c n in
        let ended : end (some (count, s2)) ≡ some s3 =
          ap (λ o. put_end transmit_dma put_char spin n o s2) text ∙ e3 in
        rw (ready, e1) (ap end e2 ∙ ended)

    -- With the line open, room for the header in the log, no more entries than a word counts, and a
    -- bound on the rounds that fits the log ring and the pace of the line: the dump of a log that is
    -- initialised ends, even where reading the log would not. It sends, behind what was there, the
    -- header, a line for each text that reading gives up to the first empty one or to the number of
    -- slots, and the footer with their number in decimal; nothing is left pending.
    pub dump-Sends :
        (t : ℕ) (s : System)
        → c.inited ≡ true
        → IsOpen s
        → pending s.1 + length hdr ≤ 2 ^ 10
        → max_entries g d < 2 ^ 32
        → let texts = entries g d m c (max_entries g d) 0 in
          (digits : List ℕ) × (out : ℕ × System) × (dump transmit_dma put_char spin g d m c n (t, s)
            ≡ some out)
          × (parsed 10 digits 0 ≡ length texts)
          × Sends s (hdr ++ (lines_of texts ++ (end_before ++ (digits ++ end_after)))) out
    unfolding dump
    dump-Sends t s ready v room few =
        let texts = entries g d m c (max_entries g d) 0 in
        let (o1, e1, sent1) = put_out-Sends hdr t s v room in
        let (o2, e2, sent2) = dump_loop-Sends (max_entries g d) 0 0 o1.0 o1.1 sent1.0 sent1.1 in
        let (digits, reads, short, text) =
          end-text (length texts) (omega (arith, length-entries g d m c (max_entries g d) 0)) in
        let footer = end_before ++ (digits ++ end_after) in
        let (o3, e3, sent3) =
          put_out-Sends footer o2.0 o2.1 sent2.0
            (omega (arith, sent2.1, length-append digits end_after)) in
        let both = then-Sends o1.1 (lines_of texts) footer o2 o3 sent2 sent3 in
        (
          digits,
          o3,
          dump-parts (length texts) footer (t, s) o1 o2 o3 ready e1
              (e2 ∙ ap (λ i. some (i, o2)) (omega arith)) text e3,
          reads,
          then-Sends s hdr (lines_of texts ++ footer) o1 o3 sent1 both,
        )
