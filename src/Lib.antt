-- ===== src/Lib.antt =====
-- nrfProxy: a UART to Bluetooth (Nordic UART Service) bridge on an nRF52840, src/*.c of the
-- repository.
--
-- Parts, and the files here that model them:
--   Core      src/proxy_core.c and src/proxy_core.h, the pure logic that main.c calls. `Hooks` has the
--             interception hooks, `Command` the device-control packet (cmd_checksum, le32,
--             proxy_baud_supported, proxy_cmd_parse), `Identity` proxy_identity_derive, `Link` the link
--             and advertising policy, `Send` the slices and verdicts of notifications.
--   Stats     src/drop_stats.c.
--   Retry     src/uart_rx_retry.c.
--   Bridge    src/uart_bridge.c: both ring buffers, the asynchronous UART driver's callback, the
--             transmit pipeline, the rate change and the restart of reception. `State` has the
--             statics, `Receive`, `Transmit`, `Callback`, `Api` and `Report` the functions.
--   Device    src/main.c. `Leds`, `Relay`, `Advertising`, `Link` have the handlers of the status LEDs, the
--             relay, the advertiser, and the pairing lock with the link callbacks; `Received` has
--             nus_received and cmd_ack_send, `Writer` send_processed and a whole round of
--             ble_write_thread, `Thread` that thread one action at a time, `Phase` where it stands,
--             `Boot` main, identity_init and bond_reset_requested. `State` has the statics, the board
--             and the Bluetooth host, `System` the steps of the device among the host, the timers, the
--             UART driver and the writer thread; the other files what they show.
--   Platform  the calls to the UART driver, the slab and the clock; RingBuf the ring buffer.
--   Base      the shared helpers: Boolean tests, lists, C's int, disjoint bit operations.
--
-- A function of the UART side maps its arguments and the statics to its result and the new
-- statics. Each call outside is kept, with its answer, in a history, as are the driver's events
-- that end a transfer or reception or give a block back; an answer is any function of the history
-- before the call. No theorem assumes that the UART driver succeeds. The ring buffers are an
-- interface whose laws are the documented behaviour of Zephyr's, a claim that is open included,
-- with a bounded list as an implementation. An interrupt is an event between two operations;
-- during a rate change events arrive at five places, one before and after each call that returns
-- to the kernel or waits. Counters are uint32_t patterns, with `% 2 ^ 32` written out; error codes
-- are integers.
--
-- A loop over a ring is by fuel, with the theorem that fuel above the bytes held is enough. A loop
-- over a fixed packet is structural.
--
-- In main.c a handler is one step, except adv_slow_handler, where a connection or a recycled
-- object may come between its two locked sections, and on_security_changed, inside which the
-- timers of the relay, the watchdog and the LED may run (`Pause`). Each drives the LEDs as a
-- whole, though the code takes no lock there; a board may give the roles connected and advertising
-- one pin. The writer thread takes one step for each use of what it shares: the semaphore, the
-- ring, the locked section, a claim, its finish, a send, the reference; any other step may come
-- between two of them. A whole round of the thread is the run of those steps with nothing between
-- them. A timer's handler may run at any time, also after a cancellation. The boot runs as a
-- whole, before the first step. The host delivers one connection at a time, as with
-- CONFIG_BT_MAX_CONN=1, and reports security only of a link that is up; its answers are arbitrary.
-- A loop that waits for the host's buffers is by fuel, enough if the host's shortages end.
--
-- Not modelled: log lines, devicetree and Kconfig, the build.
pub mod Base
pub mod Core
pub mod Stats
pub mod Retry
pub mod Platform
pub mod RingBuf
pub mod Bridge
pub mod Device
