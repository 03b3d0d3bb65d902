-- ===== src/Output/Examples.antt =====
-- The log on the serial line at concrete inputs: tests, and the theorems applied.
use anbo_mos.Common.{
  ℕ, ◌+◌, ◌*◌, Bool, true, false, some, List, [], ◌∷◌, ◌++◌, ◌≡◌, arith, if◌then◌else◌,
}
use anbo_mos.Dev.{Device}
use anbo_mos.Dev.Uart.{Usart, usart1_irq}
use anbo_mos.Output.{write_raw, flush, drain_all, spin_rounds}
use anbo_mos.Output.Stream.{System, stream, IsReady, boot, boot-IsReady}
use anbo_mos.Output.Adds.{accepted, publish_traced, publish_quietly}
use anbo_mos.Output.Line.{traced}
use anbo_mos.Output.Session.{raw, flush_log, interrupt, Steps, start, then_step, Steps-stream}
use anbo_mos.Output.Drain.{rounds, Rounds, flush_round, is_pending, Waits, drain_all-ends}

abbrev quiet_line : Usart
quiet_line = record {
  rxneie = false;
  txeie = false;
  txe = true;
  error_flags = false;
  wuf = false;
  received = [];
  sent = [];
}

abbrev dma : List ℕ → Device Usart → Bool × Device Usart
dma chunk dev = (false, dev)

abbrev put : ℕ → Device Usart → Device Usart
put c dev = dev

-- "T"
abbrev trace : ℕ → List ℕ
trace sig = 84 ∷ []

-- Two bytes are logged, flushed, and one of them goes out.
abbrev s1 : System
s1 = ((boot quiet_line).0, (write_raw (7 ∷ 8 ∷ []) (boot quiet_line).1).1)

abbrev s2 : System
s2 = flush dma put s1

abbrev s3 : System
s3 = usart1_irq (publish_traced trace) publish_quietly s2

abbrev taken : List ℕ
taken =
    (([] ++ accepted (boot quiet_line) (7 ∷ 8 ∷ [])) ++ [])
    ++ (if s2.0.priv then traced trace s2 else [])

run : Steps trace (boot quiet_line) taken s3
run =
    then_step
      (then_step (then_step start (raw (boot quiet_line) (7 ∷ 8 ∷ []))) (flush_log dma put s1))
      (interrupt s2)

Steps-stream_example : IsReady s3 × (stream s3 ≡ stream (boot quiet_line) ++ taken)
Steps-stream_example = Steps-stream run (boot-IsReady quiet_line).0

abbrev spin : System → System
spin s = usart1_irq (publish_traced trace) publish_quietly s

drain_all-ends_example :
    (k j : ℕ) × let s = rounds (flush_round dma put spin) k s1 in
      (drain_all dma put spin 2500 s1 ≡ some ((k + j) * spin_rounds, rounds spin j s))
      × Rounds (is_pending dma put spin) (flush_round dma put spin) 0 k s1
      × Waits dma put spin s.1.log_dev (k * spin_rounds) j s
drain_all-ends_example = drain_all-ends dma put spin 2500 s1 (omega arith)
