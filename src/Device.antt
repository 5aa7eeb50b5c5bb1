-- ===== src/Device.antt =====
-- src/main.c: the status LEDs, the relay, advertising, the pairing lock, the link callbacks, the
-- data path between Bluetooth and the UART, and the boot. `State` has the statics and what is
-- called outside the repository.
pub mod Phase
pub mod State
pub mod Leds
pub mod Relay
pub mod Advertising
pub mod Link
pub mod Received
pub mod Writer
pub mod Thread
pub mod Boot
pub mod System
pub mod Invariant
pub mod Keeps
pub mod Timers
pub mod Turns
pub mod Traffic
pub mod Aside
pub mod Frame
pub mod Wakeups
pub mod Sending
pub mod Writing
pub mod Round
pub mod Locking
pub mod Forwarding
pub mod Safety
pub mod Lasting
pub mod Delivery
pub mod Undisturbed
pub mod Filter
pub mod Pause
pub mod Secured
pub mod Effects
pub mod Panel
pub mod Composition
pub mod Handover
pub mod Stream
pub mod Outsider
pub mod Hearing
pub mod Uplink
pub mod Downlink
pub mod WayBack
pub mod Lifecycle
pub mod Promises
pub mod Button
pub mod Idle
pub mod Booting
pub mod Wiping
pub mod Startup
pub mod Payload
pub mod Commands
pub mod Samples
mod Tests
mod ThreadTests
mod StreamTests
mod HistoryTests
mod BootTests
