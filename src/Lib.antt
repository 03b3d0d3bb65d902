-- ===== src/Lib.antt =====
-- Anbo-MOS: an event-driven kernel for microcontrollers, in C with static memory only, and its port
-- to the STM32L4S5 board.
--
-- The kernel is a main loop over modules with static state. Interrupts and tasks put bytes into ring
-- buffers and post pooled events; the main loop updates the software timers, takes the posted events
-- and publishes them on the event bus, whose subscribers are handlers and state machines; the
-- watchdog is fed while every registered task checks in. The models meet where the code does: timers
-- and subscribers sit in lists of one kind (Links), and the queue of events reads its array as the ring
-- buffer does (Ring/Window). The log is bytes in a ring that the main loop hands to the serial line,
-- whose interrupt sends them from a ring of its own.
--
--   Common     the shared vocabulary: Boolean tests, lists over the native numbers, arithmetic on
--              32-bit words with its signed readings, and bit masks as remainders. Common/Int has
--              the signed integers of the sensor, Common/Io steps on a state that may fail
--   Ring       kernel/src/anbo_rb.c: one definition for each Anbo_RB_ function, on a record with
--              the fields of Anbo_RB; the loops of Write, Read and Peek are recursions on the
--              bytes or rounds left. Ring/Window reads the bytes held, as a list
--   Links      kernel/include/anbo_list.h: the memory is a pair of functions next and prev on node
--              addresses, and every pointer assignment is an update of one of them. Links/Chain
--              says when the pointers form a ring that holds a list of nodes
--   Timer      kernel/src/anbo_timer.c: Links together with a table of timer records; a timer is
--              named by its node. The callbacks are an argument that may change timers and world.
--              Timer/Compensate is Anbo_Timer_CompensateAll, whose temporary list is a ring of the
--              same memory at an address of its own
--   Watchdog   kernel/src/anbo_wdt.c: the slot table, and a counter of the hardware feeds
--   Pool       kernel/src/anbo_pool.c: the blocks as the union of the source (a link or an event),
--              the pointer queue, the reference counts; what subscribers do is an argument
--   EBus       kernel/src/anbo_ebus.c: Links together with a table of subscriber records; the head of
--              a bucket is the node of its number, a subscriber is named by its node, which is no
--              head. EBus/Registry relates the 32 lists to one list of all the subscribers
--   Fsm        kernel/src/anbo_fsm.c: a machine with its state descriptor, the node of the first of its
--              eight subscribers, and their count; the callbacks are arguments
--   Log        kernel/src/anbo_log.c: the conversions u32_to_dec, i32_to_dec and u32_to_hex, as the list
--              of the characters written with the length returned, and Anbo_Format_V (Log/Format).
--              Log/Fits says which arguments a format asks for
--   Output     the output side of kernel/src/anbo_log.c: the static variables as a record, beside the
--              state W of everything that is reached through its pointers; the device, the flash
--              writer, the vendor transmission and what happens during a wait are arguments
--   Dev        kernel/include/anbo_dev.h: the device with its vtable, whose entries may be missing.
--              Dev/Uart is port/stm32l4s5/b_l4s5i_uart_drv.c over the register bits it uses.
--              Output/Stream and Output/Session put the log, the driver and its interrupt together
--   Nvm        port/stm32l4s5/b_l4s5i_flash_drv.c and b_l4s5i_ospi_flash_drv.c: the record store over a
--              backend. Nvm/Interface names what it relies on (IsFlash), and Nvm/Internal is the backend
--              of the internal flash, over the two calls of the vendor library; Nvm/External is that
--              of the external flash, over the three calls of the bus driver
--   LogFlash   port/stm32l4s5/b_l4s5i_log_flash.c, with APP_CONF_LOG_FLASH_USE_EXT at 1: the slot format and
--              the checksum in LogFlash/Format, the cursors with writing, reading and erasing, and
--              find_cursors in LogFlash/Recover. The driver of the flash is a parameter; a read that
--              fails leaves in the buffer what was there. LogFlash/Dump is BSP_LogFlash_Dump, which
--              reads the log and sends it through Output
--   I2c        port/stm32l4s5/b_l4s5i_i2c_drv.c over the three calls of the vendor library
--   Imu        port/stm32l4s5/b_l4s5i_imu_drv.c: the driver over an interface that I2c fills. The
--              registers of the sensor, what it does on a reset and what is in its FIFO are parameters
--              of the theorems; Imu/Scale has the ranges and units, Imu/Regs the registers
--   Nor        port/stm32l4s5/b_l4s5i_ospi_drv.c: the commands to the external flash, over the vendor
--              calls. Nor/Sheet says what the data sheet of the chip promises, Nor/Chip that the driver
--              then is the bus that Nvm/External relies on
--   Port       port/stm32l4s5/b_l4s5i_port.c and b_l4s5i_hw.c: nested critical sections
--              (Port/Critical), the low-power timer and the reset reason (Port/Lptim), the tick and the
--              sleep (Port/Idle), the clocks (Port/Boot) and the report of a hard fault (Port/Fault)
--
-- A pointer argument that the code tests against NULL is an Option; other pointers are valid by the
-- contract of the interface. The tick that Anbo_Arch_GetTick returns is an argument. Words are
-- numbers below 2 ^ 32 with the wrap-around written out. A critical section runs alone (Port/Critical
-- is about the masking itself), so that an operation is one step; sequences of operations are lists
-- of calls or step relations. Anbo_Log_Flush, which has several such sections, is one step as well.
--
-- Fuel: a walk along the pointers of a list is recursion on a bound of its rounds, and the result
-- none means that the bound ran out; in the formatter, that is out_of_rounds, and one round more
-- than the format has characters is enough. On a ring of n nodes n + 1 rounds are enough, and the
-- theorems on the walks state that such a bound gives a result. The other loops are structural, but for
-- those named next.
--
-- The rounds of Anbo_Log_DrainAll are bounded by its own time limit: 2500 for each loop. The binary
-- search of find_cursors has as many rounds as a page has slots, and the loop of the external flash
-- over the chunks of a record as many as the record has bytes; both are enough (LogFlash/Search,
-- Nvm/External/Chunks).
--
-- ospi_wait_ready is bounded by its own time limit, and a wait for one flag of the low-power timer by
-- the rounds that the hardware takes, a parameter of the theorems. On n active timers each loop of
-- Anbo_Timer_CompensateAll ends within n + 1 rounds. DRAIN_UART of the dump has as many rounds as the
-- log ring has bytes, times the rounds between two bytes on the line; LogFlash/Dump/Wait proves that
-- this is enough.
--
-- Not modelled: the loop over double-words in the configuration of the log for the
-- internal flash; Anbo_Arch_UART_PutChar, which waits for one register bit; HardFault_Handler, which is
-- assembly; the set-up of pins, clocks of peripherals and interrupt priorities, which is a series of
-- constant register writes; the stubs of the C library and the switches of the vendor library.
pub mod Common
pub mod Ring
pub mod Links
pub mod Timer
pub mod Watchdog
pub mod Pool
pub mod EBus
pub mod Log
pub mod Fsm
pub mod Nvm
pub mod Dev
pub mod Output
pub mod LogFlash
pub mod I2c
pub mod Imu
pub mod Nor
pub mod Port
