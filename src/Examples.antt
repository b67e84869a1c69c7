-- ===== src/Examples.antt =====
-- Tests at concrete inputs, and the theorems at such inputs.
mod Bench
mod Charging
mod Sampling
mod Pulses
mod Messages
mod Handshake
mod Calls
mod Rounds
mod Backlog
mod Faults
mod Pin
mod Session
mod Peer
mod Lock
mod Boot
mod Timing
mod Deadline
mod Interrupt
mod Decimal
mod Whole
mod Voltage
mod Reporting
