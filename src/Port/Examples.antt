-- ===== src/Port/Examples.antt =====
-- Runs of the board's functions on a simulated timer.
use anbo_mos.Common.{
  ℕ, ◌-◌, min, true, false, Option, none, some, [], ◌∷◌, ◌≡◌, refl, inl, arith, if◌then◌else◌, ◌==◌,
}
use anbo_mos.Port.{Board, Power, fall_asleep, idle, exti_callback, int1_pin, sig_imu_int1}
use anbo_mos.Port.Critical.{
  Cpu, critical_enter, critical_exit, Balanced, stay, section, interrupt, IsBack, IsCpu,
  Balanced-IsBack,
}
use anbo_mos.Port.Lptim.{LptimRegs}
use anbo_mos.Port.Boot.{nrst_pin, no_flags, get_reset_reason, rtc_wakeup_count, iwdg_reload}
use anbo_mos.Port.Fault.{fault_digits, read_hex, fault_digits-read_hex}
use anbo_mos.Port.Idle.{IsTimer, IsAwake, idle-IsAwake}

abbrev running : Cpu
running = record { primask = false; crit_nesting = 0; primask_save = true }

-- A section within a section, and an interrupt with a section of its own after them.
abbrev calls : Balanced 3 running (
    critical_exit
      (critical_enter (critical_exit (critical_exit (critical_enter (critical_enter running))))))
unfolding critical_enter critical_exit
calls = section (section stay stay) (interrupt refl (section stay stay) stay)

Balanced-IsBack_example :
    IsBack running (
      critical_exit
        (critical_enter (critical_exit (critical_exit (critical_enter (critical_enter running))))))
    × IsCpu (
        critical_exit (
          critical_enter (critical_exit (critical_exit (critical_enter (critical_enter running))))))
unfolding critical_enter critical_exit
Balanced-IsBack_example = Balanced-IsBack calls (inl refl) (omega arith)

fault_digits-read_hex_example : read_hex 0 (fault_digits 8 0xdeadbeef) ≡ 0xdeadbeef
fault_digits-read_hex_example = fault_digits-read_hex 0xdeadbeef (omega arith)

-- A timer that takes one look to load its period, counts to 7 before anything else wakes the
-- processor, and runs out in shorter sleeps.
record SimTimer : Type 0 where
  pub arr : ℕ
  pub left : ℕ

abbrev sim_lptim : LptimRegs SimTimer
sim_lptim = record {
  enable = λ b m. m;
  clear_arrm = λ m. m;
  clear_arrok = λ m. m;
  write_arr = λ p m. record { arr = p; left = 1 };
  start_single = λ m. m;
  read_arrok = λ m. (m.left == 0, record m { left = m.left - 1 });
  read_arrm = λ m. (if m.arr == 99 then true else false, m);
  read_arr = λ m. (m.arr, m);
  read_cnt = λ m. (7, m);
}

abbrev sim_power : Power SimTimer
sim_power = record {
  wfi = λ m. m;
  clear_wu = λ m. m;
  enter_stop2 = λ m. m;
  osc_config = λ m. (true, m);
  clock_config = λ m. (true, m);
  clear_pending = λ m. m;
}

sim-IsTimer : IsTimer sim_power sim_lptim (λ m. m.arr) 2
sim-IsTimer = record {
  arr_written = λ p m. refl;
  arr_read = λ m. refl;
  arr_looked = λ m. refl;
  arr_cleared = λ m. refl;
  arr_started = λ m. refl;
  arr_counted = λ m. refl;
  arr_wu = λ m. refl;
  arr_slept = λ m. refl;
  synced = λ p m. (1, omega arith, refl);
}

abbrev board : Board SimTimer
board = record {
  tick_ms = 1000;
  irq_off = false;
  systick_on = true;
  hal_tick_on = true;
  feeds = 0;
  hw = record { arr = 0; left = 0 };
}

idle-IsAwake_example :
    (a s' : Board SimTimer) × (fall_asleep sim_power sim_lptim 5 (min 100 1500) board ≡ some a)
    × (idle sim_power sim_lptim 5 100 board ≡ some s')
    × IsAwake sim_power sim_lptim sim-IsTimer 100 board a s'
idle-IsAwake_example =
    idle-IsAwake sim_power sim_lptim sim-IsTimer 5 100 board (omega arith) (omega arith)
      (λ m. (refl, refl))

abbrev tick_after : Option (Board SimTimer) → ℕ
tick_after none = 0
tick_after (some s) = s.tick_ms

full_sleep : tick_after (idle sim_power sim_lptim 5 100 board) ≡ 1100
unfolding idle
full_sleep = refl

short_sleep : tick_after (idle sim_power sim_lptim 5 5000 board) ≡ 1007
unfolding idle
short_sleep = refl

motion : exti_callback (λ sig w. w) (λ sig w. sig ∷ w) int1_pin [] ≡ sig_imu_int1 ∷ []
unfolding exti_callback
motion = refl

pin_reset : (get_reset_reason (record no_flags { pin_rst = true; bor_rst = true })).0 ≡ nrst_pin
unfolding get_reset_reason
pin_reset = refl

longest_wakeup : rtc_wakeup_count 100_000 ≡ some 65534
unfolding rtc_wakeup_count
longest_wakeup = refl

longest_watch : iwdg_reload 5000 ≡ 4095
unfolding iwdg_reload
longest_watch = refl
