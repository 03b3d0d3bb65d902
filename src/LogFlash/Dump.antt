-- ===== src/LogFlash/Dump.antt =====
-- port/stm32l4s5/b_l4s5i_log_flash.c: `BSP_LogFlash_Dump`, which sends the log out on the serial line.
pub mod Wait
pub mod Text
pub mod Sent
mod Examples
use anbo_mos.Common.{
  ℕ, zero, suc, ◌+◌, ◌*◌, Bool, true, false, Option, none, some, List, [], ◌∷◌, ◌++◌, ◌==◌, ltb,
  if◌then◌else◌, length,
}
use anbo_mos.Log.Format.{word, Outcome, done, bad_args, overrun, out_of_rounds, format_v}
use anbo_mos.LogFlash.{Area, Flash, Cursors, slots_per_page, read}
use anbo_mos.LogFlash.Format.{text_capacity}
use anbo_mos.Output.{Output, pending, write_raw, flush}

-- "[R] === Flash log dump start ===\r\n"
abbrev pub hdr : List ℕ
hdr =
    91 ∷ 82 ∷ 93 ∷ 32 ∷ 61 ∷ 61 ∷ 61 ∷ 32 ∷ 70 ∷ 108 ∷ 97 ∷ 115 ∷ 104 ∷ 32 ∷ 108 ∷ 111 ∷ 103 ∷ 32
    ∷ 100 ∷ 117 ∷ 109 ∷ 112 ∷ 32 ∷ 115 ∷ 116 ∷ 97 ∷ 114 ∷ 116 ∷ 32 ∷ 61 ∷ 61 ∷ 61 ∷ 13 ∷ 10 ∷ []

-- "[R] === dump end (", the conversion "%u", and " entries) ===\r\n"
abbrev pub end_before : List ℕ
end_before =
    91 ∷ 82 ∷ 93 ∷ 32 ∷ 61 ∷ 61 ∷ 61 ∷ 32 ∷ 100 ∷ 117 ∷ 109 ∷ 112 ∷ 32 ∷ 101 ∷ 110 ∷ 100 ∷ 32 ∷ 40
    ∷ []

abbrev pub end_after : List ℕ
end_after = 32 ∷ 101 ∷ 110 ∷ 116 ∷ 114 ∷ 105 ∷ 101 ∷ 115 ∷ 41 ∷ 32 ∷ 61 ∷ 61 ∷ 61 ∷ 13 ∷ 10 ∷ []

abbrev pub end_format : List ℕ
end_format = end_before ++ 37 ∷ 117 ∷ end_after

-- "[R] <text>\r\n"
abbrev pub dump_line : List ℕ → List ℕ
dump_line text = 91 ∷ 82 ∷ 93 ∷ 32 ∷ text ++ 13 ∷ 10 ∷ []

abbrev pub max_entries {ℓ} : {Mem : Type ℓ} → Area → Flash Mem → ℕ
max_entries g d = slots_per_page g d * g.num_pages

-- The system, with the number of times that the hardware watchdog was fed.
abbrev pub Fed : Type 0 → Type 0
Fed W = ℕ × (W × Output W)

-- `spin t` is what happens in the system after the flush of a round, before the watchdog is fed for
-- the time `t` plus one.
module _ {W : Type 0} (transmit_dma : List ℕ → W → Bool × W) (put_char : ℕ → W → W)
    (spin : ℕ → W × Output W → W × Output W) where
  -- `DRAIN_UART`, with `n` rounds left; `none` if they run out.
  unfoldable pub drain_uart : (n : ℕ) → Fed W → Option (Fed W)
  unfolding pending flush
  drain_uart zero (t, s) = if ltb 0 (pending s.1) then none else some (t + 1, s)
  drain_uart (suc n) (t, s) =
      let rest = drain_uart n (t + 1, spin t (flush transmit_dma put_char s)) in
      if ltb 0 (pending s.1) then rest else some (t + 1, s)

  -- A call of `Anbo_Log_WriteRaw`, and `DRAIN_UART`.
  unfoldable pub put_out : (n : ℕ) → List ℕ → Fed W → Option (Fed W)
  unfolding drain_uart write_raw
  put_out n bytes (t, (w, o)) = drain_uart n (t, (w, (write_raw bytes o).1))

  -- The end of the dump, whose text is a formatted one.
  unfoldable pub put_end : (n : ℕ) → Outcome → Fed W → Option (Fed W)
  unfolding put_out
  put_end n (done footer) s = put_out n footer s
  put_end n bad_args s = none
  put_end n overrun s = none
  put_end n out_of_rounds s = none

  module _ {ℓ} {Mem : Type ℓ} (g : Area) (d : Flash Mem) (m : Mem) (c : Cursors) where
    -- The loop of the dump, with room for `left` more entries: their number at the end, and the
    -- system.
    unfoldable pub dump_loop : (left n ctx count : ℕ) → Fed W → Option (ℕ × Fed W)
    unfolding read put_out
    dump_loop zero n ctx count s = some (count, s)
    dump_loop (suc left) n ctx count s =
        let (text, ctx') = read g d m c text_capacity ctx in
        elim (length text == 0) [
          | true ↦ some (count, s)
          | false ↦ elim (put_out n (dump_line text) s) [
            | none ↦ none
            | some s' ↦ dump_loop left n ctx' (count + 1) s'
          ]
        ]

    unfoldable pub dump_end : (n : ℕ) → Option (ℕ × Fed W) → Option (Fed W)
    unfolding format_v put_end
    dump_end n none = none
    dump_end n (some (count, s)) = put_end n (format_v 64 (some end_format) (word count ∷ [])) s

    unfoldable pub dump : (n : ℕ) → Fed W → Option (Fed W)
    unfolding put_out dump_loop dump_end
    dump n s =
        if c.inited
        then elim (put_out n hdr s) [
          | none ↦ none
          | some s' ↦ dump_end n (dump_loop (max_entries g d) n 0 0 s')
        ]
        else some s
