-- ===== src/Output.antt =====
-- kernel/src/anbo_log.c: the output side of the logger. `W` is what the log reaches through its
-- pointers: the device, and the flash behind the flash writer.
pub mod Stream
pub mod Adds
pub mod Line
pub mod Session
pub mod Drain
mod Examples
use anbo_mos.Common.{
  ℕ, zero, suc, ◌+◌, bit_and, Bool, true, false, not, ◌&&◌, Option, none, some, List, [], ◌∷◌, ◌==◌,
  ltb, if◌then◌else◌, length, get_or, set, replicate,
}
use anbo_mos.Ring.{Ring, def_ring, reset, count, is_empty, peek, skip, write, clamp}
use anbo_mos.Log.Format.{Arg, Outcome, done, bad_args, overrun, out_of_rounds, format_v}

abbrev pub sink_uart : ℕ
sink_uart = 1

abbrev pub sink_flash : ℕ
sink_flash = 2

-- The defaults of the `ANBO_CONF_LOG_...` macros.
abbrev pub log_rb_order : ℕ
log_rb_order = 10

abbrev pub log_level : ℕ
log_level = 3

abbrev pub log_line_max : ℕ
log_line_max = 128

abbrev pub sink_default : ℕ
sink_default = sink_uart

abbrev pub lvl_debug : ℕ
lvl_debug = 3

-- The device that the log is bound to: `Anbo_Dev_AsyncWrite` on it, and whether it has a transmit
-- ring that is not empty.
pub record LogDevice (W : Type 0) : Type 0 where
  pub write_to : List ℕ → W → ℕ × W
  pub tx_held : W → Bool

-- The static variables. `none` is a `NULL` pointer.
pub record Output (W : Type 0) : Type 0 where
  pub log_rb : Ring
  pub log_dev : Option (LogDevice W)
  pub sink_mask : List ℕ
  pub flash_writer : Option (List ℕ → W → W)

module _ {W : Type 0} where
  -- Before `Anbo_Log_Init`.
  unfoldable pub static_output : Output W
  unfolding def_ring
  static_output = record {
    log_rb = def_ring log_rb_order;
    log_dev = none;
    sink_mask = replicate 4 sink_default;
    flash_writer = none;
  }

  unfoldable pub init : Option (LogDevice W) → Output W → Output W
  init dev o = record o { log_rb = reset o.log_rb; log_dev = dev }

  unfoldable pub set_device : Option (LogDevice W) → Output W → Output W
  set_device dev o = record o { log_dev = dev }

  unfoldable pub set_sink : (level mask : ℕ) → Output W → Output W
  set_sink level mask o =
      if ltb lvl_debug level then o else record o { sink_mask = set o.sink_mask level mask }

  unfoldable pub set_flash_writer : Option (List ℕ → W → W) → Output W → Output W
  set_flash_writer fn o = record o { flash_writer = fn }

  unfoldable pub write_raw : List ℕ → Output W → ℕ × Output W
  write_raw bytes o =
      let (written, rb) = write o.log_rb bytes in (written, record o { log_rb = rb })

  unfoldable pub pending : Output W → ℕ
  pending o = count o.log_rb

  -- The two sinks of a formatted line.
  unfoldable pub to_uart : ℕ → List ℕ → Output W → Output W
  unfolding write_raw
  to_uart mask line o = if bit_and mask sink_uart == 0 then o else (write_raw line o).1

  unfoldable pub to_flash : ℕ → List ℕ → W × Output W → W × Output W
  to_flash mask line (w, o) = elim o.flash_writer [
    | none ↦ (w, o)
    | some fn ↦ if bit_and mask sink_flash == 0 then (w, o) else (fn line w, o)
  ]

  unfoldable pub emit : ℕ → List ℕ → W × Output W → W × Output W
  unfolding to_uart to_flash
  emit mask line (w, o) = to_flash mask line (w, to_uart mask line o)

  -- `none` is a call that C leaves undefined, with arguments that do not fit the format.
  unfoldable pub printf : ℕ → Option (List ℕ) → List Arg → W × Output W → Option (W × Output W)
  unfolding emit
  printf level fmt args (w, o) =
      if ltb log_level level then some (w, o) else elim (format_v log_line_max fmt args) [
        | done line ↦ some (emit (get_or o.sink_mask level 0) line (w, o))
        | bad_args ↦ none
        | overrun ↦ none
        | out_of_rounds ↦ none
      ]

-- `sizeof(chunk)` of `Anbo_Log_Flush`, and `limit` and the rounds of a wait of `Anbo_Log_DrainAll`.
abbrev pub chunk_size : ℕ
chunk_size = 64

abbrev pub drain_limit : ℕ
drain_limit = 500000

abbrev pub spin_rounds : ℕ
spin_rounds = 200

-- `Anbo_Arch_UART_Transmit_DMA`, with whether it returned 0, and `Anbo_Arch_UART_PutChar`.
module _ {W : Type 0} (transmit_dma : List ℕ → W → Bool × W) (put_char : ℕ → W → W) where
  unfoldable pub put_chars : List ℕ → W → W
  put_chars [] w = w
  put_chars (c ∷ rest) w = put_chars rest (put_char c w)

  -- Step 2 of `Anbo_Log_Flush`: the number of bytes accepted.
  unfoldable pub submit : Option (LogDevice W) → List ℕ → W → ℕ × W
  unfolding put_chars
  submit (some dev) chunk w = dev.write_to chunk w
  submit none chunk w =
      let (started, w') = transmit_dma chunk w in
      if started then (length chunk, w') else (length chunk, put_chars chunk w')

  unfoldable pub flush : W × Output W → W × Output W
  unfolding submit
  flush (w, o) =
      let avail = clamp (count o.log_rb) chunk_size in
      let chunk = peek o.log_rb avail in
      if count o.log_rb == 0
      then (w, o)
      else if length chunk == 0
      then (w, o)
      else let (accepted, w') = submit o.log_dev chunk w in
        if ltb 0 accepted then (w', record o { log_rb = (skip o.log_rb accepted).1 }) else (w', o)

  -- The two loops of `Anbo_Log_DrainAll` with `n` rounds left; `spin` is what happens in the system
  -- during a wait. The result is the guard and the system, `none` where the rounds do not suffice.
  module _ (spin : W × Output W → W × Output W) where
    unfoldable pub drain_log : (n guard : ℕ) → W × Output W → Option (ℕ × (W × Output W))
    unfolding flush pending
    drain_log zero guard s =
        if ltb 0 (pending s.1) && ltb guard drain_limit then none else some (guard, s)
    drain_log (suc n) guard s =
        let rest = drain_log n (guard + spin_rounds) (spin (flush s)) in
        if ltb 0 (pending s.1) && ltb guard drain_limit then rest else some (guard, s)

    unfoldable pub drain_tx :
        (LogDevice W) → (n guard : ℕ) → W × Output W → Option (ℕ × (W × Output W))
    drain_tx dev zero guard s =
        if dev.tx_held s.0 && ltb guard drain_limit then none else some (guard, s)
    drain_tx dev (suc n) guard s =
        let rest = drain_tx dev n (guard + spin_rounds) (spin s) in
        if dev.tx_held s.0 && ltb guard drain_limit then rest else some (guard, s)

    -- Phase 2, if a device is bound.
    unfoldable pub drain_device :
        Option (LogDevice W) → (n guard : ℕ) → W × Output W → Option (ℕ × (W × Output W))
    unfolding drain_tx
    drain_device none n guard s = some (guard, s)
    drain_device (some dev) n guard s = drain_tx dev n guard s

    unfoldable pub drain_all : (n : ℕ) → W × Output W → Option (ℕ × (W × Output W))
    unfolding drain_log drain_device
    drain_all n s = elim (drain_log n 0 s) [
      | none ↦ none
      | some (guard, s') ↦ drain_device s'.1.log_dev n guard s'
    ]
