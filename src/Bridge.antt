-- ===== src/Bridge.antt =====
-- src/uart_bridge.c: the UART side of the proxy. `State` has the statics and the calls outside,
-- `Receive`, `Transmit`, `Callback`, `Api` and `Report` the functions, the others what they show.
pub mod State
pub mod Receive
pub mod Transmit
pub mod Callback
pub mod Api
pub mod Report
pub mod Pipeline
pub mod Ops
pub mod Keeps
pub mod Growth
pub mod Order
pub mod Ledger
pub mod Drops
pub mod Recovery
pub mod Baud
pub mod Drain
pub mod Init
pub mod Samples
mod Tests
